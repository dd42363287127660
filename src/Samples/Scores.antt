-- ===== src/Samples/Scores.antt =====
-- The theorem on the relevance scores at a small graph.
use agent_pinboard.Prelude.{contains, ℕ, ◌≡◌, refl, some, List, [], ◌∷◌, get, string_eq}
use agent_pinboard.Models.{ok, EventId, fact}
use agent_pinboard.Graph.{FactGraph}
use agent_pinboard.Graph.Nodes.{Holds-add_node_self}
use agent_pinboard.Relevance.{arigraph_score_events}
use agent_pinboard.Relevance.Overlap.{own_score, arigraph_score_events-own_score}
use agent_pinboard.Samples.{lists}
use agent_pinboard.Samples.Exploration.{address, seen, edge_to}

-- An address that an event names, with its node put last.
abbrev shown : FactGraph lists.Graph
shown = record {
  g = lists.add_node "f-1" (fact (address "f-1")) (
      lists.add_edge "e-1" "f-2" "k-2" (edge_to "f-2")
        (lists.add_edge "e-1" "f-1" "k-1" (edge_to "f-1") lists.empty));
  nodes_by_key = [];
  nodes_by_type = [];
}

abbrev pair_of : ℕ → ℕ → ℕ × ℕ
pair_of n m = (n, m)

arigraph_score_events-own_score_example :
    (scores : List (EventId × (ℕ × ℕ))) × (arigraph_score_events lists pair_of
        (0, 0)
        shown
        "f-1"
        (seen ∷ [])
      ≡ ok scores)
    × (get "e-1" scores ≡ some (own_score lists pair_of (0, 0) shown "f-1" "e-1"))
unfolding contains
arigraph_score_events-own_score_example =
    arigraph_score_events-own_score lists pair_of (0, 0) shown "f-1" (address "f-1") (seen ∷ [])
      "e-1"
      (Holds-add_node_self lists "f-1" (fact (address "f-1")) (
        lists.add_edge "e-1" "f-2" "k-2" (edge_to "f-2")
          (lists.add_edge "e-1" "f-1" "k-1" (edge_to "f-1") lists.empty)))
      refl refl
