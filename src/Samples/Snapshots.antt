-- ===== src/Samples/Snapshots.antt =====
-- The theorems on `from_snapshot` at a small snapshot, listed in two orders.
use agent_pinboard.Prelude.{String, ◌≡◌, refl, List, [], ◌∷◌, string_eq, eq_iff, arith, get, put}
use agent_pinboard.Models.{
  EventId, FactNode, EventNode, FactEdge, Node, fact, event, event_node_type, fact_node_id,
}
use agent_pinboard.Graph.Snapshot.{backfill, collect_events, group_edges, from_snapshot}
use agent_pinboard.Graph.Snapshot.Provenance.{backfill_order}
use agent_pinboard.Graph.Snapshot.Loaded.{IsLoaded, from_snapshot-IsLoaded}
use agent_pinboard.Graph.Invariant.{IsIndexed}
use agent_pinboard.Samples.{lists, host}
use agent_pinboard.Samples.Exploration.{address}
use agent_pinboard.Samples.Ingest.{many_ids}

abbrev pub scan_at : String → EventNode
scan_at i = record {
  id = i;
  source_tool = "scan";
  timestamp = 4;
  properties = [];
  node_type = event_node_type;
}

abbrev pub linked_by : String → FactEdge
linked_by i = record {
  event_id = i;
  target_id = "IP|8";
  edge_type = "Finding.src";
  description = "";
}

abbrev pub host_fact : FactNode
host_fact = record (address "IP|8") { canonical_value = "8" }

abbrev pub listed : List Node
listed = event (scan_at "ee") ∷ fact host_fact ∷ event (scan_at "e") ∷ []

abbrev listed_again : List Node
listed_again = event (scan_at "e") ∷ event (scan_at "ee") ∷ fact host_fact ∷ []

abbrev pub joined : List FactEdge
joined = linked_by "ee" ∷ linked_by "e" ∷ linked_by "ee" ∷ []

abbrev joined_again : List FactEdge
joined_again = linked_by "e" ∷ linked_by "ee" ∷ []

same_events :
    (i : EventId) → get i (collect_events listed []) ≡ get i (collect_events listed_again [])
unfolding collect_events get put
same_events i = ground (arith, eq_iff "ee" i, eq_iff "e" i)

backfill_order_example :
    backfill (group_edges joined []) (collect_events listed []) host_fact
    ≡ backfill (group_edges joined_again []) (collect_events listed_again []) host_fact
backfill_order_example =
    backfill_order listed listed_again joined joined_again host_fact same_events (λ i. ground arith)

pub keyed : "IP|8" ≡ fact_node_id host.digest "IP" "8"
unfolding fact_node_id
keyed = refl

from_snapshot-IsLoaded_example :
    IsLoaded lists many_ids listed joined (from_snapshot lists listed joined)
from_snapshot-IsLoaded_example =
    from_snapshot-IsLoaded lists many_ids listed joined
      ((refl, (2, refl)), ((keyed, refl), ((refl, (1, refl)), tt)))

pub snapshot-IsIndexed : IsIndexed lists many_ids (from_snapshot lists listed joined)
snapshot-IsIndexed =
    (from_snapshot-IsLoaded lists many_ids listed joined
      ((refl, (2, refl)), ((keyed, refl), ((refl, (1, refl)), tt)))).indexed
