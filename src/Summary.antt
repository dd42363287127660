-- ===== src/Summary.antt =====
-- agent_pinboard/tools.py: the facts that `graph_summary` lists of a type, `_top_facts`.
pub mod Largest
use agent_pinboard.Prelude.{
  ℕ, String, List, [], ◌∷◌, Option, none, some, if◌then◌else◌, leb, length, take,
}
use agent_pinboard.Models.{Result, ok, ◌>>=◌, NodeId, FactNode, FactEdge, Node, fact, event}
use agent_pinboard.Networkx.{MultiDiGraph}
use agent_pinboard.Graph.{FactGraph, ids_of, lookup}

-- facts.sort(key=lambda f: -len(f.source_events)), which is stable
unfoldable pub insert_fact : FactNode → List FactNode → List FactNode
insert_fact f [] = f ∷ []
insert_fact f (x ∷ xs) =
    if leb (length x.source_events) (length f.source_events)
    then f ∷ x ∷ xs
    else x ∷ insert_fact f xs

unfoldable pub sort_facts : List FactNode → List FactNode
unfolding insert_fact
sort_facts [] = []
sort_facts (f ∷ fs) = insert_fact f (sort_facts fs)

module _ (nx : MultiDiGraph Node FactEdge) (graph : FactGraph nx.Graph) where
  -- The loop over the ids.
  unfoldable pub typed_facts : List NodeId → Result (List FactNode)
  unfolding lookup
  typed_facts [] = ok []
  typed_facts (i ∷ ids) = lookup nx i graph >>= λ node. typed_facts ids >>= λ rest.
      ok (elim node [ some (fact f) ↦ f ∷ rest | some (event e) ↦ rest | none ↦ rest ])

  unfoldable pub top_facts : String → ℕ → Result (List FactNode)
  unfolding typed_facts sort_facts
  top_facts node_type n =
      typed_facts (ids_of node_type graph.nodes_by_type) >>= λ facts. ok (take n (sort_facts facts))
