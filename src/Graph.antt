-- ===== src/Graph.antt =====
-- agent_pinboard/graph.py: the session's fact graph with its two indexes.
pub mod Nodes
pub mod Persists
pub mod Invariant
mod Upsert
pub mod Autolink
pub mod Snapshot
pub mod Queries
pub mod Dump
use Prim.Native.String.{◌++◌ as str_append}
use agent_pinboard.Prelude.{
  ℕ, String, Option, none, some, List, [], ◌∷◌, ◌++◌, Bool, true, false, ◌==◌, if◌then◌else◌,
  string_eq, pair_eq, add, get, put, map,
}
use agent_pinboard.Value.{Value, null, string}
use agent_pinboard.Models.{
  Result, ok, raise, ◌>>=◌, NodeId, EventId, Entity, FactNode, EventNode, FactEdge, Node, fact,
  event, event_node_type, fact_node_id, edge_id, normalizer_error, key_error, assertion_error,
}
use agent_pinboard.Models.Host.{Host}
use agent_pinboard.Networkx.{MultiDiGraph}

pub record FactGraph (G : Type 0) : Type 0 where
  pub g : G
  pub nodes_by_key : List ((String × String) × NodeId)
  pub nodes_by_type : List (String × List NodeId)

-- d.get(k, ())
abbrev pub ids_of : String → List (String × List NodeId) → List NodeId
ids_of t d = elim (get t d) [ none ↦ [] | some ids ↦ ids ]

-- d.setdefault(t, set()).add(i)
unfoldable pub index_type :
    String → NodeId → List (String × List NodeId) → List (String × List NodeId)
index_type t i d = put t (add i (ids_of t d)) d

-- The canonical value, or the wrapped error of a normalizer that raises.
unfoldable pub canonicalize : Host → Entity → Value → Result String
canonicalize host entity value = elim entity.normalizer [
  | none ↦ ok (host.str value)
  | some normalize ↦ elim (normalize value) [ ok s ↦ ok s | raise _ ↦ raise normalizer_error ]
]

unfoldable pub empty_warning : Host → Entity → Value → String
empty_warning host entity value = str_append "empty canonical_value for Entity(" (
    str_append (host.repr (string entity.name)) (
      str_append ") value="
        (str_append (host.repr value) "; fact dropped to avoid graph poisoning")))

-- What `upsert_fact` returns, the graph that it leaves, and what it appends to `warnings`.
pub record Upserted (G : Type 0) : Type 0 where
  pub graph : FactGraph G
  pub target : Option NodeId
  pub was_new : Bool
  pub warned : List String

module _ (nx : MultiDiGraph Node FactEdge) where
  abbrev pub Graph : Type 0
  Graph = FactGraph nx.Graph

  unfoldable pub empty : Graph
  empty = record { g = nx.empty; nodes_by_key = []; nodes_by_type = [] }

  unfoldable pub add_event : EventNode → Graph → Graph
  unfolding index_type
  add_event e graph = record graph {
    g = nx.add_node e.id (event e) graph.g;
    nodes_by_type = index_type event_node_type e.id graph.nodes_by_type;
  }

  unfoldable pub add_edge : FactEdge → Graph → Graph
  unfolding edge_id
  add_edge e graph = record graph { g = nx.add_edge e.event_id e.target_id (edge_id e) e graph.g }

  -- g.nodes[i]["obj"], where the node has to be there
  unfoldable pub node_at : NodeId → Graph → Result Node
  node_at i graph = elim (nx.node i graph.g) [
    | none ↦ raise key_error
    | some none ↦ raise key_error
    | some (some n) ↦ ok n
  ]

  -- A node that an edge alone has made has no `obj`, and reading it raises KeyError.
  unfoldable pub lookup : NodeId → Graph → Result (Option Node)
  lookup i graph = elim (nx.node i graph.g) [
    | none ↦ ok none
    | some none ↦ raise key_error
    | some (some n) ↦ ok (some n)
  ]

  -- Every edge of the graph has a `FactEdge` as its `obj`.
  unfoldable pub edges_for_event : EventId → Graph → List FactEdge
  edges_for_event event_id graph = elim (nx.node event_id graph.g) [
    | none ↦ []
    | some _ ↦ map (λ x. x.2) (nx.out_edges event_id graph.g)
  ]

  -- The node's object is mutated in place: the graph then holds its new value.
  unfoldable pub link_fact :
      ℕ → EventId → String → NodeId → Node → Graph → Result (Upserted nx.Graph)
  link_fact now event_id source_tool i (event _) graph = raise assertion_error
  link_fact now event_id source_tool i (fact f) graph =
      let f' : FactNode = record f {
        last_seen = now;
        source_events = f.source_events ++ event_id ∷ [];
        source_tools = add source_tool f.source_tools;
      } in
      ok (record {
        graph = record graph { g = nx.add_node i (fact f') graph.g };
        target = some i;
        was_new = false;
        warned = [];
      })

  module _ (host : Host) (now : ℕ) (entity : Entity) (event_id : EventId)
      (source_tool : String) where
    unfoldable pub new_fact : Value → String → FactNode
    unfolding fact_node_id
    new_fact value canonical = record {
      id = fact_node_id host.digest entity.name canonical;
      node_type = entity.name;
      value = host.str value;
      canonical_value = canonical;
      first_seen = now;
      last_seen = now;
      source_events = event_id ∷ [];
      source_tools = source_tool ∷ [];
    }

    unfoldable pub insert_fact : FactNode → Graph → Upserted nx.Graph
    unfolding index_type
    insert_fact f graph = record {
      graph = record {
        g = nx.add_node f.id (fact f) graph.g;
        nodes_by_key = put (entity.name, f.canonical_value) f.id graph.nodes_by_key;
        nodes_by_type = index_type entity.name f.id graph.nodes_by_type;
      };
      target = some f.id;
      was_new = true;
      warned = [];
    }

    unfoldable pub upsert_canonical : Value → String → Graph → Result (Upserted nx.Graph)
    unfolding new_fact insert_fact link_fact node_at empty_warning
    upsert_canonical value canonical graph =
        if canonical == ""
        then ok (record {
          graph = graph;
          target = none;
          was_new = false;
          warned = empty_warning host entity value ∷ [];
        })
        else elim (get (entity.name, canonical) graph.nodes_by_key) [
          | some i ↦ node_at i graph >>= λ n. link_fact now event_id source_tool i n graph
          | none ↦ ok (insert_fact (new_fact value canonical) graph)
        ]

    unfoldable pub upsert_fact : Value → Graph → Result (Upserted nx.Graph)
    unfolding upsert_canonical canonicalize
    upsert_fact null graph =
        ok (record { graph = graph; target = none; was_new = false; warned = [] })
    upsert_fact value graph =
        canonicalize host entity value >>= λ canonical. upsert_canonical value canonical graph
