-- ===== src/Graph/Snapshot.antt =====
-- agent_pinboard/graph.py: `from_snapshot`, which rebuilds a graph from its nodes and edges, and
-- `_backfill_fact_provenance`, which derives what is not stored of the facts.
pub mod Events
pub mod Sorted
pub mod Provenance
pub mod Rebuilt
pub mod Loaded
use agent_pinboard.Prelude.{
  ℕ, String, Option, none, some, List, [], ◌∷◌, ◌++◌, map, Bool, ◌==◌, ◌&&◌, ◌||◌, if◌then◌else◌,
  string_eq, pair_eq, nat_eq, ltb, text_leb, contains, add, get, put,
}
use agent_pinboard.Models.{
  NodeId, EventId, FactNode, EventNode, FactEdge, Node, fact, event, event_node_type,
}
use agent_pinboard.Networkx.{MultiDiGraph}
use agent_pinboard.Graph.{FactGraph, index_type, empty, add_edge}

-- events_by_id, after the loop over the nodes
unfoldable pub collect_events : List Node → List (EventId × EventNode) → List (EventId × EventNode)
unfolding put
collect_events [] d = d
collect_events (event e ∷ nodes) d = collect_events nodes (put e.id e d)
collect_events (fact _ ∷ nodes) d = collect_events nodes d

-- d.get(i, [])
abbrev pub incoming_of : NodeId → List (NodeId × List FactEdge) → List FactEdge
incoming_of i d = elim (get i d) [ none ↦ [] | some es ↦ es ]

-- edges_by_target, after the loop over the edges
unfoldable pub group_edges :
    List FactEdge → List (NodeId × List FactEdge) → List (NodeId × List FactEdge)
unfolding put
group_edges [] d = d
group_edges (e ∷ es) d = group_edges es (put e.target_id (incoming_of e.target_id d ++ e ∷ []) d)

-- The loop over the edges that lead to a fact: their distinct events.
unfoldable pub distinct_events :
    List (EventId × EventNode) → List FactEdge → List EventId → List EventNode → List EventNode
unfolding get
distinct_events by_id [] seen events = events
distinct_events by_id (e ∷ es) seen events = elim (get e.event_id by_id) [
  | none ↦ distinct_events by_id es seen events
  | some ev ↦
      distinct_events by_id es (if contains ev.id seen then seen else add ev.id seen)
        (if contains ev.id seen then events else events ++ ev ∷ [])
]

-- (a.timestamp, a.id) <= (b.timestamp, b.id)
abbrev pub event_leb : EventNode → EventNode → Bool
event_leb a b = ltb a.timestamp b.timestamp || (a.timestamp == b.timestamp && text_leb a.id b.id)

-- events.sort(key=lambda e: (e.timestamp, e.id)), which is stable
unfoldable pub insert_event : EventNode → List EventNode → List EventNode
insert_event e [] = e ∷ []
insert_event e (x ∷ xs) = if event_leb e x then e ∷ x ∷ xs else x ∷ insert_event e xs

unfoldable pub sort_events : List EventNode → List EventNode
unfolding insert_event
sort_events [] = []
sort_events (e ∷ es) = insert_event e (sort_events es)

-- events[-1].timestamp, where there is one
abbrev pub last_timestamp : ℕ → List EventNode → ℕ
last_timestamp t [] = t
last_timestamp t (e ∷ es) = last_timestamp e.timestamp es

abbrev pub first_timestamp : ℕ → List EventNode → ℕ
first_timestamp t [] = t
first_timestamp t (e ∷ _) = e.timestamp

-- {e.source_tool for e in events}
unfoldable pub tools_of : List EventNode → List String → List String
unfolding add
tools_of [] tools = tools
tools_of (e ∷ es) tools = tools_of es (add e.source_tool tools)

-- What the loop over the facts makes of a fact.
unfoldable pub backfill_from : List EventNode → FactNode → FactNode
unfolding tools_of
backfill_from events f = record f {
  source_events = map (λ e. e.id) events;
  source_tools = tools_of events [];
  first_seen = first_timestamp f.first_seen events;
  last_seen = last_timestamp f.last_seen events;
}

unfoldable pub backfill :
    List (NodeId × List FactEdge) → List (EventId × EventNode) → FactNode → FactNode
unfolding distinct_events sort_events backfill_from
backfill by_target by_id f =
    backfill_from (sort_events (distinct_events by_id (incoming_of f.id by_target) [] [])) f

unfoldable pub backfill_node :
    List (NodeId × List FactEdge) → List (EventId × EventNode) → Node → Node
unfolding backfill
backfill_node by_target by_id (fact f) = fact (backfill by_target by_id f)
backfill_node by_target by_id (event e) = event e

module _ (nx : MultiDiGraph Node FactEdge) where
  -- The loop over the nodes.
  unfoldable pub load_node : Node → FactGraph nx.Graph → FactGraph nx.Graph
  unfolding index_type
  load_node (event e) graph = record graph {
    g = nx.add_node e.id (event e) graph.g;
    nodes_by_type = index_type event_node_type e.id graph.nodes_by_type;
  }
  load_node (fact f) graph = record {
    g = nx.add_node f.id (fact f) graph.g;
    nodes_by_key = put (f.node_type, f.canonical_value) f.id graph.nodes_by_key;
    nodes_by_type = index_type f.node_type f.id graph.nodes_by_type;
  }

  unfoldable pub load_nodes : List Node → FactGraph nx.Graph → FactGraph nx.Graph
  unfolding load_node
  load_nodes [] graph = graph
  load_nodes (n ∷ nodes) graph = load_nodes nodes (load_node n graph)

  unfoldable pub load_edges : List FactEdge → FactGraph nx.Graph → FactGraph nx.Graph
  unfolding add_edge
  load_edges [] graph = graph
  load_edges (e ∷ es) graph = load_edges es (add_edge nx e graph)

  -- The graph has the objects that `_backfill_fact_provenance` mutates after it has filled the
  -- graph, so what it holds at the end are the facts with their provenance. The indexes are by
  -- fields that are not mutated.
  unfoldable pub from_snapshot : List Node → List FactEdge → FactGraph nx.Graph
  unfolding collect_events group_edges backfill_node load_nodes load_edges empty
  from_snapshot nodes edges =
      let by_id = collect_events nodes [] in
      let by_target = group_edges edges [] in
      load_edges edges (load_nodes (map (backfill_node by_target by_id) nodes) (empty nx))
