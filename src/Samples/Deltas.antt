-- ===== src/Samples/Deltas.antt =====
-- A queue of two deltas after an ingest, and its theorem there.
use agent_pinboard.Prelude.{◌≡◌, refl, [], ◌∷◌, ◌++◌, arith}
use agent_pinboard.Models.{IngestResult, event, fact}
use agent_pinboard.Websocket.{IngestData, edge_added, ingest_complete, handle_ingest}
use agent_pinboard.Websocket.Newest.{newest, deltas_of, handle_ingest-newest}
use agent_pinboard.Samples.Exploration.{address, seen, edge_to}

abbrev total : IngestResult
total = record {
  event_ids = "e-1" ∷ [];
  new_nodes = 1;
  linked_nodes = 0;
  new_edges = 1;
  warnings = [];
}

abbrev ingest : IngestData
ingest = record {
  events = event seen ∷ [];
  new_facts = fact (address "f-1") ∷ [];
  linked_facts = [];
  new_edges = edge_to "f-1" ∷ [];
  result = total;
}

-- The two nodes went when the edge and the end came.
two_left :
    handle_ingest 2 "" ingest []
    ≡ (edge_added (edge_to "f-1"), "") ∷ (ingest_complete total, "") ∷ []
unfolding handle_ingest
two_left = refl

handle_ingest-newest_example :
    handle_ingest 2 "" ingest (newest 2 "" []) ≡ newest 2 "" ([] ++ deltas_of 2 "" ingest)
handle_ingest-newest_example = handle_ingest-newest 2 "" (omega arith) ingest []
