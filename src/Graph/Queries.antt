-- ===== src/Graph/Queries.antt =====
-- agent_pinboard/graph.py: the queries of FactGraph by type and by value.
pub mod Found
use agent_pinboard.Prelude.{
  String, Option, none, some, List, [], ◌∷◌, ◌++◌, Bool, ◌==◌, if◌then◌else◌, string_eq,
}
use agent_pinboard.Models.{
  Result, ok, raise, ◌>>=◌, NodeId, FactNode, EventNode, FactEdge, Node, fact, event,
  event_node_type,
}
use agent_pinboard.Networkx.{MultiDiGraph}
use agent_pinboard.Graph.{FactGraph, ids_of, node_at}

module _ (nx : MultiDiGraph Node FactEdge) where
  unfoldable pub search_by_type : String → FactGraph nx.Graph → List NodeId
  search_by_type node_type graph = ids_of node_type graph.nodes_by_type

  -- The loop of `find_by_value`.
  unfoldable pub find_in : String → List NodeId → FactGraph nx.Graph → Result (Option NodeId)
  unfolding node_at
  find_in value [] graph = ok none
  find_in value (i ∷ ids) graph =
      let rest = find_in value ids graph in
      node_at nx i graph >>= λ n. elim n [
        | fact f ↦ if f.value == value then ok (some i) else rest
        | event e ↦ rest
      ]

  unfoldable pub find_by_value : String → String → FactGraph nx.Graph → Result (Option NodeId)
  unfolding find_in
  find_by_value node_type value graph = find_in value (ids_of node_type graph.nodes_by_type) graph

  -- The loop of `all_events`.
  unfoldable pub events_in : List NodeId → FactGraph nx.Graph → Result (List EventNode)
  unfolding node_at
  events_in [] graph = ok []
  events_in (i ∷ ids) graph = node_at nx i graph >>= λ n.
      events_in ids graph >>= λ rest. ok (elim n [ event e ↦ e ∷ rest | fact f ↦ rest ])

  unfoldable pub all_events : FactGraph nx.Graph → Result (List EventNode)
  unfolding events_in
  all_events graph = events_in (ids_of event_node_type graph.nodes_by_type) graph
