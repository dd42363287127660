-- ===== src/Websocket.antt =====
-- agent_pinboard/integrations/websocket_hook.py: the queue of deltas of `WebSocketHook`.
pub mod Newest
use agent_pinboard.Prelude.{
  ℕ, zero, suc, ◌-◌, String, Option, none, some, List, [], ◌∷◌, ◌++◌, Bool, true, false, ◌&&◌,
  if◌then◌else◌, ltb, leb, length,
}
use agent_pinboard.Models.{NodeId, EventId, Node, FactEdge, IngestResult}

-- The body of a delta. A payload dict stands for the object that it is made of.
pub data Change : Type 0 where
  node_added : Node → Change
  link_found : NodeId → EventId → Change
  edge_added : FactEdge → Change
  ingest_complete : IngestResult → Change

-- A delta and its `thread_id`.
abbrev pub Delta : Type 0
Delta = Change × String

-- `data` of `_handle_ingest`, without the graph, which goes to the snapshot.
pub record IngestData : Type 0 where
  pub events : List Node
  pub new_facts : List Node
  pub linked_facts : List NodeId
  pub new_edges : List FactEdge
  pub result : IngestResult

module _ (queue_maxsize : ℕ) where
  -- queue.Queue.put_nowait: `none` is queue.Full. A size of 0 is no bound.
  unfoldable pub put_nowait : Delta → List Delta → Option (List Delta)
  put_nowait delta queue =
      if ltb 0 queue_maxsize && leb queue_maxsize (length queue)
      then none
      else some (queue ++ delta ∷ [])

  unfoldable pub drop_oldest : Delta → List Delta → List Delta
  unfolding put_nowait
  drop_oldest delta [] = []
  drop_oldest delta (oldest ∷ queue) = elim (put_nowait delta queue) [
    | none ↦ queue
    | some queue' ↦ queue'
  ]

  unfoldable pub enqueue : String → Change → List Delta → List Delta
  unfolding put_nowait drop_oldest
  enqueue label change queue = elim (put_nowait (change, label) queue) [
    | some queue' ↦ queue'
    | none ↦ drop_oldest (change, label) queue
  ]

  unfoldable pub enqueue_nodes : String → List Node → List Delta → List Delta
  unfolding enqueue
  enqueue_nodes label [] queue = queue
  enqueue_nodes label (n ∷ ns) queue = enqueue_nodes label ns (enqueue label (node_added n) queue)

  unfoldable pub enqueue_links : String → EventId → List NodeId → List Delta → List Delta
  unfolding enqueue
  enqueue_links label event_id [] queue = queue
  enqueue_links label event_id (i ∷ is) queue =
      enqueue_links label event_id is (enqueue label (link_found i event_id) queue)

  unfoldable pub enqueue_edges : String → List FactEdge → List Delta → List Delta
  unfolding enqueue
  enqueue_edges label [] queue = queue
  enqueue_edges label (e ∷ es) queue = enqueue_edges label es (enqueue label (edge_added e) queue)

  -- result.event_ids[0] if result.event_ids else ""
  abbrev first_event_id : IngestResult → EventId
  first_event_id r = elim r.event_ids [ [] ↦ "" | i ∷ _ ↦ i ]

  unfoldable pub handle_ingest : String → IngestData → List Delta → List Delta
  unfolding enqueue enqueue_nodes enqueue_links enqueue_edges
  handle_ingest label data_ queue = enqueue label (ingest_complete data_.result) (
      enqueue_edges label data_.new_edges (
        enqueue_links label (first_event_id data_.result) data_.linked_facts
          (enqueue_nodes label data_.new_facts (enqueue_nodes label data_.events queue))))

  -- What the server gets, and the queue after it.
  unfoldable pub drain_pending : List Delta → List Delta × List Delta
  drain_pending [] = ([], [])
  drain_pending (delta ∷ queue) = let rest = drain_pending queue in (delta ∷ rest.0, rest.1)
