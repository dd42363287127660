-- ===== src/Graph/Dump.antt =====
-- agent_pinboard/graph.py: `dump_to_dict` and `load_from_dict`.
pub mod Edges
pub mod Reloaded
use agent_pinboard.Prelude.{
  String, Option, none, some, List, [], ◌∷◌, Bool, ◌==◌, if◌then◌else◌, string_eq, map,
}
use agent_pinboard.Models.{Result, ok, raise, ◌>>=◌, value_error, NodeId, FactEdge, Node}
use agent_pinboard.Networkx.{MultiDiGraph}
use agent_pinboard.Graph.{FactGraph, node_at}
use agent_pinboard.Graph.Snapshot.{from_snapshot}
use agent_pinboard.Store.{Iso, Dict, node_to_dict, node_from_dict, edge_to_dict, edge_from_dict}

abbrev pub dump_schema : String
dump_schema = "agent_pinboard.factgraph"

-- The payload of a dump; `none` stands for a key that is missing.
pub record Dump : Type 0 where
  pub agent_pinboard_version : Option String
  pub schema : Option String
  pub nodes : Option (List Dict)
  pub edges : Option (List Dict)

-- payload.get(key, [])
abbrev pub listed_in : Option (List Dict) → List Dict
listed_in none = []
listed_in (some ds) = ds

-- [read(d) for d in dicts]
unfoldable pub read_dicts : {A : Type 0} → (Dict → Result A) → List Dict → Result (List A)
read_dicts read [] = ok []
read_dicts read (d ∷ ds) = read d >>= λ a. read_dicts read ds >>= λ rest. ok (a ∷ rest)

module _ (nx : MultiDiGraph Node FactEdge) (time : Iso) where
  -- The loop over the nodes.
  unfoldable pub dump_nodes : List NodeId → FactGraph nx.Graph → Result (List Dict)
  unfolding node_at node_to_dict
  dump_nodes [] graph = ok []
  dump_nodes (i ∷ ids) graph =
      node_at nx i graph >>= λ n. dump_nodes ids graph >>= λ rest. ok (node_to_dict time n ∷ rest)

  -- Every edge of the graph has a `FactEdge` as its `obj`.
  unfoldable pub dump_edges : FactGraph nx.Graph → List Dict
  unfolding edge_to_dict
  dump_edges graph = map (λ x. edge_to_dict x.2) (nx.edges graph.g)

  unfoldable pub dump_to_dict : String → FactGraph nx.Graph → Result Dump
  unfolding dump_nodes dump_edges
  dump_to_dict version graph = dump_nodes (nx.nodes graph.g) graph >>= λ nodes. ok (record {
    agent_pinboard_version = some version;
    schema = some dump_schema;
    nodes = some nodes;
    edges = some (dump_edges graph);
  })

  -- `none` is a payload that is no dict.
  unfoldable pub load_from_dict : Option Dump → Result (FactGraph nx.Graph)
  unfolding read_dicts node_from_dict edge_from_dict from_snapshot
  load_from_dict none = raise value_error
  load_from_dict (some payload) = elim payload.schema [
    | none ↦ raise value_error
    | some schema ↦
        let read = read_dicts (node_from_dict time) (listed_in payload.nodes) >>= λ nodes.
        read_dicts edge_from_dict (listed_in payload.edges) >>= λ edges.
        ok (from_snapshot nx nodes edges) in
        if schema == dump_schema then read else raise value_error
  ]
