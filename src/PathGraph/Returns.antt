-- ===== src/PathGraph/Returns.antt =====
-- The graph of facts of `find_path` (agent_pinboard/tools.py) is built without an error.
use agent_pinboard.Prelude.{
  ℕ, String, ◌≢◌, refl, none, some, List, [], ◌∷◌, ◌++◌, ◌==◌, string_eq, All, arith, Bool-cases,
  inl, inr,
}
use agent_pinboard.Models.{NodeId, EventId, FactEdge, Node, fact, event, event_node_type}
use agent_pinboard.Networkx.{MultiDiGraph}
use agent_pinboard.Graph.{FactGraph, node_at, edges_for_event}
use agent_pinboard.Graph.Nodes.{Holds}
use agent_pinboard.Explore.Returns.{Returns, lookup-Returns}
use agent_pinboard.PathGraph.{
  UndirectedGraph, PathGraphOf, facts_in, all_facts, present_targets, fact_ids_of, event_label,
  link_pairs, link_events,
}

module _ (nx : MultiDiGraph Node FactEdge) (graph : FactGraph nx.Graph) where
  -- The graph has an object for every id of the list.
  abbrev pub AllHeld : List NodeId → Type 0
  AllHeld ids = All (λ i. (n : Node) × Holds nx graph.g i n) ids

  facts_in-Returns : (ids : List NodeId) → AllHeld ids → Returns (facts_in nx graph ids)
  unfolding facts_in node_at
  facts_in-Returns [] held = ([], refl)
  facts_in-Returns (i ∷ ids) ((fact f, at), held) =
      let (fs, q) = facts_in-Returns ids held in (f ∷ fs, ground (arith, at, q))
  facts_in-Returns (i ∷ ids) ((event e, at), held) =
      let (fs, q) = facts_in-Returns ids held in (fs, ground (arith, at, q))

  pub all_facts-Returns :
      (types : List (String × List NodeId))
      → All (λ p. AllHeld p.1) types
      → Returns (all_facts nx graph types)
  unfolding all_facts
  all_facts-Returns [] held = ([], refl)
  all_facts-Returns ((t, ids) ∷ types) held =
      let (more, q) = all_facts-Returns types held.1 in
      let (fs, p) = facts_in-Returns ids held.0 in
      elim (Bool-cases (t == event_node_type)) [
        | inl skip ↦ (more, ground (arith, skip, q))
        | inr read ↦ (fs ++ more, ground (arith, read, p, q))
      ]

  module _ (whole : (i : NodeId) → nx.node i graph.g ≢ some none) where
    present_targets-Returns : (es : List FactEdge) → Returns (present_targets nx graph es)
    unfolding present_targets
    present_targets-Returns [] = ([], refl)
    present_targets-Returns (e ∷ es) =
        let (o, at) = lookup-Returns nx graph whole e.target_id in
        let (rest, q) = present_targets-Returns es in
        (elim o [ none ↦ rest | some _ ↦ e.target_id ∷ rest ], ground (arith, at, q))

    pub link_events-Returns :
        (undirected : UndirectedGraph) (isoformat : ℕ → String) (ids : List EventId)
        (p : PathGraphOf nx graph undirected isoformat)
        → Returns (link_events nx graph undirected isoformat ids p)
    unfolding link_events fact_ids_of
    link_events-Returns undirected isoformat [] p = (p, refl)
    link_events-Returns undirected isoformat (i ∷ ids) p =
        let (ev, at) = lookup-Returns nx graph whole i in
        let (fact_ids, q) = present_targets-Returns (edges_for_event nx i graph) in
        let label = event_label nx graph isoformat ev in
        let (out, r) =
          link_events-Returns undirected isoformat ids
            (link_pairs nx graph undirected isoformat label fact_ids p) in
        (out, ground (arith, at, q, r))
