-- ===== src/Samples/Queries.antt =====
-- The theorems on the queries and the dumps of a graph at small graphs.
use mathlib.Core.List.{filter_map}
use agent_pinboard.Prelude.{
  ◌≡◌, ◌≢◌, ◌⊎◌, refl, none, some, List, arith, All, get, put, length, eq_iff, string_eq, pair_eq,
}
use agent_pinboard.Models.{ok, NodeId, FactNode, EventNode, fact, event}
use agent_pinboard.Graph.{FactGraph, empty, add_edge}
use agent_pinboard.Graph.Nodes.{Holds}
use agent_pinboard.Graph.Snapshot.{from_snapshot, load_nodes, load_node, load_edges}
use agent_pinboard.Graph.Queries.{find_by_value, all_events}
use agent_pinboard.Graph.Queries.Found.{Lists, find_by_value_lem, all_events_lem}
use agent_pinboard.Graph.Dump.Edges.{from_snapshot-KeyedEdges}
use agent_pinboard.Graph.Dump.{dump_edges, Dump, dump_to_dict, load_from_dict}
use agent_pinboard.Graph.Dump.Reloaded.{IsReload, load_from_dict-dump_to_dict}
use agent_pinboard.Samples.{lists}
use agent_pinboard.Samples.Ingest.{many_ids}
use agent_pinboard.Samples.Snapshots.{listed, joined, snapshot-IsIndexed}
use agent_pinboard.Samples.Stores.{time}

find_by_value_lem_example :
    ((i : NodeId) × (find_by_value lists "IP" "IP|8" (from_snapshot lists listed joined)
        ≡ ok (some i))
      × (f : FactNode) × Holds lists (from_snapshot lists listed joined).g i (fact f)
      × (f.node_type ≡ "IP")
      × (f.value ≡ "IP|8"))
    ⊎ ((find_by_value lists "IP" "IP|8" (from_snapshot lists listed joined) ≡ ok none)
        × ((i : NodeId) (f : FactNode)
            → Holds lists (from_snapshot lists listed joined).g i (fact f)
            → f.node_type ≡ "IP"
            → f.value ≢ "IP|8"))
find_by_value_lem_example =
    find_by_value_lem lists many_ids (from_snapshot lists listed joined) "IP" "IP|8"
      snapshot-IsIndexed

all_events_lem_example :
    (es : List EventNode) × (all_events lists (from_snapshot lists listed joined) ≡ ok es)
    × ((i : NodeId) (e : EventNode)
        → Holds lists (from_snapshot lists listed joined).g i (event e)
        → Lists e es)
    × All (λ e. (i : NodeId) × Holds lists (from_snapshot lists listed joined).g i (event e)) es
all_events_lem_example =
    all_events_lem lists many_ids (from_snapshot lists listed joined) snapshot-IsIndexed

abbrev net_of_two : FactGraph lists.Graph
net_of_two = from_snapshot lists listed joined

held_all : (i : NodeId) → lists.node i net_of_two.g ≢ some none
unfolding from_snapshot lists get put load_nodes load_node load_edges add_edge empty
held_all i q = absurd (ground (arith, q, eq_iff "e" i, eq_iff "ee" i, eq_iff "IP|8" i))

two_edges : length (dump_edges lists time net_of_two) ≡ 2
unfolding from_snapshot lists get put load_nodes load_node load_edges add_edge empty dump_edges
    filter_map
two_edges = refl

load_from_dict-dump_to_dict_example :
    (d : Dump) × (graph : FactGraph lists.Graph) × (dump_to_dict lists time "0.1" net_of_two ≡ ok d)
    × (load_from_dict lists time (some d) ≡ ok graph)
    × IsReload lists time many_ids net_of_two snapshot-IsIndexed graph
load_from_dict-dump_to_dict_example =
    load_from_dict-dump_to_dict lists time many_ids net_of_two snapshot-IsIndexed "0.1" held_all
      (from_snapshot-KeyedEdges lists listed joined)
