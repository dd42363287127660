-- ===== src/Samples/Paths.antt =====
-- The theorems on `find_path` and `graph_summary` at two facts of one event, and on three paths.
use mathlib.Core.List.{filter_map, Perm}
use agent_pinboard.Prelude.{
  All, ℕ, String, ◌≡◌, ◌↔◌, refl, List, [], ◌∷◌, Bool, false, true, ◌==◌, ◌&&◌, ◌||◌, string_eq,
  pair_eq, get, put, contains, add, Bool-cases, eq_iff, arith, take, ◌++◌, ◌≤◌, ◌⊎◌, length,
}
use agent_pinboard.PathGraph.Returns.{AllHeld}
use agent_pinboard.Models.{fact, event, FactNode, ok, NodeId, edge_id}
use agent_pinboard.Graph.{FactGraph, ids_of}
use agent_pinboard.PathGraph.{UndirectedGraph, PathGraphOf, build_path_graph}
use agent_pinboard.PathGraph.Adjacent.{Share, build_path_graph_iff}
use agent_pinboard.PathGraph.Selection.{Ordered, found_paths, within, at_least_one, found_paths_lem}
use agent_pinboard.Summary.{top_facts}
use agent_pinboard.Summary.Largest.{Descending, held_facts, top_facts_lem}
use agent_pinboard.Samples.{lists}
use agent_pinboard.Samples.Exploration.{address, seen, net, net_whole}

abbrev joined_in : NodeId → NodeId → List (NodeId × NodeId) → Bool
joined_in a b [] = false
joined_in a b ((c, d) ∷ g) = c == a && d == b || (c == b && d == a || joined_in a b g)

abbrev pairs : UndirectedGraph
pairs = record {
  Proj = List (NodeId × NodeId);
  none_yet = [];
  join = λ c g. g;
  link = λ c d g. (c, d) ∷ g;
  adjacent = joined_in;
  adjacent-none_yet = λ a b. refl;
  adjacent-join = λ a b c g. refl;
  adjacent-link = λ a b c d g. refl;
}

abbrev typed_net : FactGraph lists.Graph
typed_net = record net { nodes_by_type = ("IP", "f-1" ∷ "f-2" ∷ []) ∷ ("Event", "e-1" ∷ []) ∷ [] }

abbrev at : ℕ → String
at n = "now"

index_held : All (λ p. AllHeld lists typed_net p.1) typed_net.nodes_by_type
unfolding lists get put contains add edge_id Bool-cases filter_map
index_held = (
  ((fact (address "f-1"), refl), ((fact (address "f-2"), refl), tt)),
  (((event seen, refl), tt), tt),
)

build_path_graph_iff_example :
    (out : PathGraphOf lists typed_net pairs at) × (build_path_graph lists typed_net pairs at
      ≡ ok out)
    × ((joined_in "f-1" "f-2" out.0 ≡ true)
        ↔ Share lists typed_net pairs at "f-1" "f-2" (ids_of "Event" typed_net.nodes_by_type))
build_path_graph_iff_example =
    build_path_graph_iff lists typed_net pairs at "f-1" "f-2"
      (λ e. ground (arith, (eq_iff "f-1" "f-2").1 e)) net_whole index_held

-- A path of one hop, one of two and one of three.
abbrev yielded_paths : List (List NodeId)
yielded_paths = ("a" ∷ "d" ∷ []) ∷ ("a" ∷ "b" ∷ "d" ∷ []) ∷ ("a" ∷ "b" ∷ "c" ∷ "d" ∷ []) ∷ []

yielded_paths-Ordered : Ordered yielded_paths
yielded_paths-Ordered = ((omega arith, (omega arith, tt)), ((omega arith, tt), (tt, tt)))

found_paths_lem_example :
    found_paths 2 3 yielded_paths ≡ take (at_least_one 3) (within 2 yielded_paths)
found_paths_lem_example = found_paths_lem 2 3 yielded_paths yielded_paths-Ordered

top_facts_lem_example :
    (out : List FactNode) × (rest : List FactNode) × (top_facts lists typed_net "IP" 1 ≡ ok out)
    × Perm (out ++ rest) (held_facts lists typed_net ("f-1" ∷ "f-2" ∷ []))
    × Descending (out ++ rest)
    × (length out ≤ 1)
    × ((length out ≡ 1) ⊎ (rest ≡ []))
unfolding lists get
top_facts_lem_example = top_facts_lem lists typed_net "IP" 1 net_whole

held_two : length (held_facts lists typed_net ("f-1" ∷ "f-2" ∷ [])) ≡ 2
unfolding lists Bool-cases get put filter_map add contains
held_two = refl
