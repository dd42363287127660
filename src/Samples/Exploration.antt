-- ===== src/Samples/Exploration.antt =====
-- An exploration of a small graph, and its theorem there.
use mathlib.Core.List.{filter_map}
use agent_pinboard.Prelude.{
  ◌≤◌, length, String, ◌≡◌, ◌≢◌, refl, none, some, List, [], ◌∷◌, Bool, true, string_eq, arith, get,
  put, contains, add, Bool-cases,
}
use agent_pinboard.Models.{
  ok, FactNode, EventNode, FactEdge, fact, event, both, event_node_type, edge_id,
}
use agent_pinboard.Graph.{FactGraph}
use agent_pinboard.Explore.{Visited, explore}
use agent_pinboard.Explore.Limit.{explore_limit}
use agent_pinboard.Samples.{lists}

abbrev pub address : String → FactNode
address i = record {
  id = i;
  node_type = "IP";
  value = i;
  canonical_value = i;
  first_seen = 1;
  last_seen = 1;
  source_events = "e-1" ∷ [];
  source_tools = "scan" ∷ [];
}

abbrev pub seen : EventNode
seen = record {
  id = "e-1";
  source_tool = "scan";
  timestamp = 1;
  properties = [];
  node_type = event_node_type;
}

abbrev pub edge_to : String → FactEdge
edge_to i = record { event_id = "e-1"; target_id = i; edge_type = "Finding.src"; description = "" }

-- Two addresses of one event.
abbrev pub net : FactGraph lists.Graph
net = record {
  g = lists.add_edge "e-1" "f-2" "k-2" (edge_to "f-2") (
      lists.add_edge "e-1" "f-1" "k-1" (edge_to "f-1") (
        lists.add_node "f-2" (fact (address "f-2")) (
          lists.add_node "f-1" (fact (address "f-1"))
            (lists.add_node "e-1" (event seen) lists.empty))));
  nodes_by_key = [];
  nodes_by_type = [];
}

pub net_whole : (i : String) → lists.node i net.g ≢ some none
net_whole i h =
    let g₁ = lists.add_node "e-1" (event seen) lists.empty in
    let g₂ = lists.add_node "f-1" (fact (address "f-1")) g₁ in
    let g₃ = lists.add_node "f-2" (fact (address "f-2")) g₂ in
    let g₄ = lists.add_edge "e-1" "f-1" "k-1" (edge_to "f-1") g₃ in
    absurd (
      ground (
        arith,
        lists.node-add_edge "e-1" "f-2" "k-2" i (edge_to "f-2") g₄,
        lists.node-add_edge "e-1" "f-1" "k-1" i (edge_to "f-1") g₃,
        lists.node-add_node "f-2" i (fact (address "f-2")) g₂,
        lists.node-add_node "f-1" i (fact (address "f-1")) g₁,
        lists.node-add_node "e-1" i (event seen) lists.empty,
        lists.node-empty i,
      ))

net_held : lists.node "f-1" net.g ≡ some (some (fact (address "f-1")))
unfolding lists get put contains add edge_id Bool-cases filter_map
net_held = refl

abbrev as_read : List String → List String
as_read l = l

explore_limit_example :
    (out : Visited) × (overflow : Bool) × (explore lists net as_read 2 both true 1 "f-1"
      ≡ ok (out, overflow))
    × (length out ≤ 2)
explore_limit_example =
    explore_limit lists net both true as_read 1 2 "f-1" (address "f-1") 1 (omega arith)
      (omega arith) net_whole net_held
