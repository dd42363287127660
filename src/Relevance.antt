-- ===== src/Relevance.antt =====
-- agent_pinboard/tools.py: the relevance scores of `timeline`, `_arigraph_score_events`.
pub mod Overlap
use agent_pinboard.Prelude.{
  ℕ, String, Option, none, some, List, [], ◌∷◌, Bool, true, false, ◌==◌, if◌then◌else◌, string_eq,
  contains, add, put, length, nat_eq,
}
use agent_pinboard.Models.{
  Result, ok, ◌>>=◌, NodeId, EventId, FactNode, EventNode, FactEdge, Node, fact, event,
}
use agent_pinboard.Networkx.{MultiDiGraph}
use agent_pinboard.Graph.{FactGraph, lookup, edges_for_event}

-- neighbours.add(edge.target_id), for each edge that does not lead to the start
unfoldable pub add_others : NodeId → List FactEdge → List NodeId → List NodeId
unfolding add
add_others start_id [] neighbours = neighbours
add_others start_id (e ∷ es) neighbours =
    add_others start_id es
      (if e.target_id == start_id then neighbours else add e.target_id neighbours)

-- {e.target_id for e in edges}
unfoldable pub targets_in : List FactEdge → List NodeId → List NodeId
unfolding add
targets_in [] targets = targets
targets_in (e ∷ es) targets = targets_in es (add e.target_id targets)

-- targets & neighbours
unfoldable pub shared : List NodeId → List NodeId → List NodeId
unfolding contains
shared [] neighbours = []
shared (t ∷ targets) neighbours =
    if contains t neighbours then t ∷ shared targets neighbours else shared targets neighbours

-- `score n_overlap n_total` is `(n_overlap / n_total) * math.log2(n_total + 1)`, a float, and `zero`
-- is 0.0.
module _ (nx : MultiDiGraph Node FactEdge) {Score : Type 0} (score : ℕ → ℕ → Score) (zero : Score)
    (graph : FactGraph nx.Graph) where
  -- The facts that share an event with the start, the start left out.
  unfoldable pub neighbour_set : NodeId → List EventId → List NodeId → List NodeId
  unfolding add_others edges_for_event
  neighbour_set start_id [] neighbours = neighbours
  neighbour_set start_id (i ∷ source_events) neighbours =
      neighbour_set start_id source_events
        (add_others start_id (edges_for_event nx i graph) neighbours)

  unfoldable pub targets_of : EventId → List NodeId
  unfolding targets_in edges_for_event
  targets_of i = targets_in (edges_for_event nx i graph) []

  unfoldable pub score_of : List NodeId → EventId → Score
  unfolding targets_of shared
  score_of neighbours i =
      let targets = targets_of i in
      if length targets == 0
      then zero
      else score (length (shared targets neighbours)) (length targets)

  unfoldable pub score_all :
      List NodeId → List EventNode → List (EventId × Score) → List (EventId × Score)
  unfolding score_of put
  score_all neighbours [] scores = scores
  score_all neighbours (e ∷ events) scores =
      score_all neighbours events (put e.id (score_of neighbours e.id) scores)

  unfoldable pub arigraph_score_events : NodeId → List EventNode → Result (List (EventId × Score))
  unfolding neighbour_set score_all lookup
  arigraph_score_events start_id events = lookup nx start_id graph >>= λ o. elim o [
    | none ↦ ok []
    | some (event e) ↦ ok []
    | some (fact f) ↦ ok (score_all (neighbour_set start_id f.source_events []) events [])
  ]
