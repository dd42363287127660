-- ===== src/Websocket/Newest.antt =====
-- The queue of agent_pinboard/integrations/websocket_hook.py keeps the newest deltas, in order.
use mathlib.Core.List.{append-nil, append_assoc}
use agent_pinboard.Prelude.{
  ℕ, zero, suc, ◌+◌, ◌-◌, ◌≤◌, String, ◌≡◌, refl, sym, ap, ◌∙◌, List, [], ◌∷◌, ◌++◌, map, true,
  false, ltb, leb, length, length-append, drop, arith, Bool-cases, inl, inr,
}
use agent_pinboard.Models.{NodeId, EventId, Node, FactEdge}
use agent_pinboard.Websocket.{
  Change, node_added, link_found, edge_added, ingest_complete, Delta, IngestData, enqueue,
  put_nowait, drop_oldest, enqueue_nodes, enqueue_links, enqueue_edges, first_event_id,
  handle_ingest,
}

module _ (queue_maxsize : ℕ) (label : String) where
  -- The last `queue_maxsize` of a list.
  abbrev pub newest : List Delta → List Delta
  newest l = drop (length l - queue_maxsize) l

  drop-append : (n : ℕ) (l m : List Delta) → n ≤ length l → drop n (l ++ m) ≡ drop n l ++ m
  drop-append zero l m h = refl
  drop-append (suc n) [] m h = absurd (omega (arith, h))
  drop-append (suc n) (x ∷ l) m h = drop-append n l m (omega (arith, h))

  length-drop : (n : ℕ) (l : List Delta) → length (drop n l) ≡ length l - n
  length-drop zero l = omega arith
  length-drop (suc n) [] = omega arith
  length-drop (suc n) (x ∷ l) = omega (arith, length-drop n l)

  abbrev nothing : List Delta
  nothing = []

  drop-nil : (n : ℕ) → drop n [] ≡ nothing
  drop-nil zero = refl
  drop-nil (suc n) = refl

  drop-drop : (m n : ℕ) (l : List Delta) → drop m (drop n l) ≡ drop (n + m) l
  drop-drop m zero l = ap (λ k. drop k l) (omega arith)
  drop-drop m (suc n) [] = drop-nil m ∙ sym (drop-nil (suc n + m))
  drop-drop m (suc n) (x ∷ l) =
      let shift : suc (n + m) ≡ suc n + m = omega arith in
      drop-drop m n l ∙ ap (λ k. drop k (x ∷ l)) shift

  -- The queue after a delta: when it is full the oldest goes.
  enqueue_lem :
      (change : Change) (queue : List Delta)
      → 1 ≤ queue_maxsize
      → length queue ≤ queue_maxsize
      → enqueue queue_maxsize label change queue
        ≡ drop (suc (length queue) - queue_maxsize) queue ++ (change, label) ∷ []
  unfolding enqueue put_nowait drop_oldest
  enqueue_lem change [] bounded fits =
      let none_goes : 1 - queue_maxsize ≡ 0 = omega (arith, bounded) in
      ground (arith, bounded, none_goes)
  enqueue_lem change (oldest ∷ queue) bounded fits =
      elim (Bool-cases (leb queue_maxsize (suc (length queue)))) [
        | inl full ↦
            let same : length queue + 1 ≡ queue_maxsize = ground (arith, full, fits) in
            let one_goes : suc (suc (length queue)) - queue_maxsize ≡ 1 = omega (arith, same) in
            let some_bound : ltb 0 queue_maxsize ≡ true = ground (arith, bounded) in
            let space : leb queue_maxsize (length queue) ≡ false = ground (arith, same) in
            ground (arith, one_goes, some_bound, full, space)
        | inr room ↦
            let none_goes : suc (suc (length queue)) - queue_maxsize ≡ 0 = ground (arith, room) in
            ground (arith, none_goes, room)
      ]

  -- One more delta after the newest of `l`.
  enqueue-newest :
      1 ≤ queue_maxsize
      → (change : Change) (l : List Delta)
      → enqueue queue_maxsize label change (newest l) ≡ newest (l ++ (change, label) ∷ [])
  enqueue-newest bounded change l =
      let n = length l - queue_maxsize in
      let size : length (newest l) ≡ length l - n = length-drop n l in
      let after = length-append l ((change, label) ∷ []) in
      let sum : n + (suc (length (newest l)) - queue_maxsize)
          ≡ length (l ++ (change, label) ∷ []) - queue_maxsize =
        omega (arith, size, after, bounded) in
      enqueue_lem change (newest l) bounded (omega (arith, size))
      ∙ (ap (λ q. q ++ (change, label) ∷ [])
            (drop-drop (suc (length (newest l)) - queue_maxsize) n l ∙ ap (λ k. drop k l) sum)
          ∙ sym (
              drop-append (length (l ++ (change, label) ∷ []) - queue_maxsize) l
                ((change, label) ∷ []) (omega (arith, after, bounded))))

  -- The deltas of an ingest: its events, its new facts, its links, its edges and its end.
  abbrev pub deltas_of : IngestData → List Delta
  deltas_of d =
      map (λ n. (node_added n, label)) d.events
      ++ (map (λ n. (node_added n, label)) d.new_facts
          ++ (map (λ i. (link_found i (first_event_id queue_maxsize d.result), label))
                d.linked_facts
              ++ (map (λ e. (edge_added e, label)) d.new_edges
                  ++ (ingest_complete d.result, label) ∷ [])))

  module _ (bounded : 1 ≤ queue_maxsize) where
    enqueue_nodes-newest :
        (ns : List Node) (l : List Delta)
        → enqueue_nodes queue_maxsize label ns (newest l)
          ≡ newest (l ++ map (λ n. (node_added n, label)) ns)
    unfolding enqueue_nodes
    enqueue_nodes-newest [] l = ap newest (sym (append-nil l))
    enqueue_nodes-newest (n ∷ ns) l =
        ap (enqueue_nodes queue_maxsize label ns) (enqueue-newest bounded (node_added n) l)
        ∙ (enqueue_nodes-newest ns (l ++ (node_added n, label) ∷ [])
            ∙ ap newest
                (append_assoc l ((node_added n, label) ∷ []) (map (λ n. (node_added n, label)) ns)))

    enqueue_links-newest :
        (i : EventId) (is : List NodeId) (l : List Delta)
        → enqueue_links queue_maxsize label i is (newest l)
          ≡ newest (l ++ map (λ n. (link_found n i, label)) is)
    unfolding enqueue_links
    enqueue_links-newest i [] l = ap newest (sym (append-nil l))
    enqueue_links-newest i (n ∷ ns) l =
        ap (enqueue_links queue_maxsize label i ns) (enqueue-newest bounded (link_found n i) l)
        ∙ (enqueue_links-newest i ns (l ++ (link_found n i, label) ∷ [])
            ∙ ap newest (
                append_assoc l ((link_found n i, label) ∷ [])
                  (map (λ n. (link_found n i, label)) ns)))

    enqueue_edges-newest :
        (es : List FactEdge) (l : List Delta)
        → enqueue_edges queue_maxsize label es (newest l)
          ≡ newest (l ++ map (λ e. (edge_added e, label)) es)
    unfolding enqueue_edges
    enqueue_edges-newest [] l = ap newest (sym (append-nil l))
    enqueue_edges-newest (e ∷ es) l =
        ap (enqueue_edges queue_maxsize label es) (enqueue-newest bounded (edge_added e) l)
        ∙ (enqueue_edges-newest es (l ++ (edge_added e, label) ∷ [])
            ∙ ap newest
                (append_assoc l ((edge_added e, label) ∷ []) (map (λ e. (edge_added e, label)) es)))

    -- When the queue has the newest deltas of a history, it has those of the history with the
    -- ingest's deltas after an ingest. The queue is bounded.
    pub handle_ingest-newest :
        (d : IngestData) (history : List Delta)
        → handle_ingest queue_maxsize label d (newest history) ≡ newest (history ++ deltas_of d)
    unfolding handle_ingest
    handle_ingest-newest d history =
        let first = first_event_id queue_maxsize d.result in
        let a = map (λ n. (node_added n, label)) d.events in
        let b = map (λ n. (node_added n, label)) d.new_facts in
        let c = map (λ i. (link_found i first, label)) d.linked_facts in
        let e = map (λ e. (edge_added e, label)) d.new_edges in
        let end = (ingest_complete d.result, label) ∷ [] in
        let last = λ (q : List Delta). enqueue queue_maxsize label (ingest_complete d.result) q in
        let edges = λ (q : List Delta). last (enqueue_edges queue_maxsize label d.new_edges q) in
        let links =
          λ (q : List Delta). edges (enqueue_links queue_maxsize label first d.linked_facts q) in
        let facts = λ (q : List Delta). links (enqueue_nodes queue_maxsize label d.new_facts q) in
        ap facts (enqueue_nodes-newest d.events history)
        ∙ (ap links (enqueue_nodes-newest d.new_facts (history ++ a))
            ∙ (ap edges (enqueue_links-newest first d.linked_facts ((history ++ a) ++ b))
                ∙ (ap last (enqueue_edges-newest d.new_edges (((history ++ a) ++ b) ++ c))
                    ∙ (enqueue-newest bounded (ingest_complete d.result)
                          ((((history ++ a) ++ b) ++ c) ++ e)
                        ∙ ap newest (
                            append_assoc (((history ++ a) ++ b) ++ c) e end
                            ∙ (append_assoc ((history ++ a) ++ b) c (e ++ end)
                                ∙ (append_assoc (history ++ a) b (c ++ (e ++ end))
                                    ∙ append_assoc history a (b ++ (c ++ (e ++ end))))))))))
