-- ===== src/Graph/Snapshot/Provenance.antt =====
-- The provenance that `_backfill_fact_provenance` of agent_pinboard/graph.py gives a fact.
use agent_pinboard.Prelude.{
  ℕ, ◌≤◌, ◌≡◌, refl, sym, ap, ◌∙◌, subst, some, List, [], ◌∷◌, true, ◌==◌, ◌&&◌, string_eq, nat_eq,
  contains, get, eq_iff, arith, Bool-cases, inl, inr, All, All-map, All-map₂,
}
use agent_pinboard.Models.{NodeId, EventId, EventNode, FactNode, FactEdge, Node}
use agent_pinboard.Graph.Snapshot.{
  collect_events, incoming_of, group_edges, distinct_events, sort_events, event_leb,
  first_timestamp, last_timestamp, backfill, backfill_from,
}
use agent_pinboard.Graph.Snapshot.Events.{
  event_ids, has_event, has_edge, Distinct, Drawn, collect_events-Keyed, known-collect_events,
  leads-incoming_of, distinct_events-Collected,
}
use agent_pinboard.Graph.Snapshot.Sorted.{
  Ascending, contains-sort_events, sort_events-Ascending, sort_events-Distinct, sort_events-All,
  event_leb_antisymm, event_leb-timestamp,
}

-- Events that are equal where their ids are.
module _ (by_id : List (EventId × EventNode)) where
  Drawn-eq :
      (a b : EventNode) → get a.id by_id ≡ some a → get b.id by_id ≡ some b → a.id ≡ b.id → a ≡ b
  Drawn-eq a b p q same = ground (arith, p, q, ap (λ i. get i by_id) same)

  -- What holds of all the events holds of one whose id is among theirs.
  All-of_contains :
      (P : EventNode → Type 0) (a : EventNode) (es : List EventNode)
      → get a.id by_id ≡ some a
      → Drawn by_id es
      → All P es
      → contains a.id (event_ids es) ≡ true
      → P a
  unfolding contains
  All-of_contains P a [] p d h at = absurd (ground (arith, at))
  All-of_contains P a (e ∷ es) p d h at = elim (Bool-cases (e.id == a.id)) [
    | inl same ↦ subst P (Drawn-eq e a d.0 p ((eq_iff e.id a.id).0 same)) h.0
    | inr other ↦ All-of_contains P a es p d.1 h.1 (ground (arith, other, at))
  ]

  -- Two ordered lists of the same events are equal.
  Ascending-eq :
      (es fs : List EventNode)
      → Drawn by_id es
      → Drawn by_id fs
      → Distinct es
      → Distinct fs
      → Ascending es
      → Ascending fs
      → ((i : EventId) → contains i (event_ids es) ≡ contains i (event_ids fs))
      → es ≡ fs
  unfolding contains
  Ascending-eq [] [] d d' u u' a a' same = refl
  Ascending-eq [] (f ∷ fs) d d' u u' a a' same =
      absurd (ground (arith, same f.id, eq_iff f.id f.id))
  Ascending-eq (e ∷ es) [] d d' u u' a a' same =
      absurd (ground (arith, same e.id, eq_iff e.id e.id))
  Ascending-eq (e ∷ es) (f ∷ fs) d d' u u' a a' same =
      let first : e.id ≡ f.id = elim (Bool-cases (f.id == e.id)) [
        | inl here ↦ sym ((eq_iff f.id e.id).0 here)
        | inr other ↦
            let f_le_e : event_leb f e ≡ true =
              All-of_contains (λ x. event_leb f x ≡ true) e fs d.0 d'.1 a'.0
                (ground (arith, same e.id, other, eq_iff e.id e.id)) in
            let e_le_f : event_leb e f ≡ true =
              All-of_contains (λ x. event_leb e x ≡ true) f es d'.0 d.1 a.0
                (ground (
                  arith,
                  same f.id,
                  other,
                  eq_iff f.id f.id,
                  eq_iff e.id f.id,
                  eq_iff f.id e.id,
                )) in
            event_leb_antisymm e f e_le_f f_le_e
      ] in
      let rest : es ≡ fs =
        Ascending-eq es fs d.1 d'.1 u.1 u'.1 a.1 a'.1
          (λ i. ground (arith, same i, first, u.0, u'.0, eq_iff e.id i, eq_iff f.id i)) in
      ground (arith, rest, Drawn-eq e f d.0 d'.0 first)

-- The events of the node `t` in the order of `_backfill_fact_provenance`.
abbrev events_of : List Node → List FactEdge → NodeId → List EventNode
events_of nodes edges t =
    sort_events
      (distinct_events (collect_events nodes []) (incoming_of t (group_edges edges [])) [] [])

-- What holds of the events of a node.
record IsGathered (nodes : List Node) (edges : List FactEdge) (t : NodeId) (events : List EventNode)
    : Type 0 where
  ordered : Ascending events
  distinct : Distinct events
  drawn : Drawn (collect_events nodes []) events
  linked : (i : EventId) → contains i (event_ids events) ≡ (has_edge i t edges && has_event i nodes)

events_of-IsGathered :
    (nodes : List Node) (edges : List FactEdge) (t : NodeId)
    → IsGathered nodes edges t (events_of nodes edges t)
unfolding contains get
events_of-IsGathered nodes edges t =
    let by_id = collect_events nodes [] in
    let incoming = incoming_of t (group_edges edges []) in
    let found = distinct_events by_id incoming [] [] in
    let (distinct, drawn, linked) =
      distinct_events-Collected by_id
        (collect_events-Keyed nodes [] (λ i e at. absurd (ground (arith, at)))) incoming [] []
        (record { same = λ i. refl; distinct = tt; drawn = tt }) in
    record {
      ordered = sort_events-Ascending found;
      distinct = sort_events-Distinct found distinct;
      drawn = sort_events-All (λ e. get e.id by_id ≡ some e) found drawn;
      linked = λ i. ground (
        arith,
        contains-sort_events i found,
        linked i,
        leads-incoming_of i t edges [],
        known-collect_events i nodes [],
      );
    }

-- The stored part of a fact, with the provenance that the edges and the events give it.
pub record IsProvenance (nodes : List Node) (edges : List FactEdge) (f f' : FactNode) : Type 0 where
  pub id : f'.id ≡ f.id
  pub node_type : f'.node_type ≡ f.node_type
  pub value : f'.value ≡ f.value
  pub canonical_value : f'.canonical_value ≡ f.canonical_value
  pub events : List EventNode
  pub listed : f'.source_events ≡ event_ids events
  -- its events are those of the nodes from which an edge leads to it
  pub linked :
      (i : EventId) → contains i f'.source_events ≡ (has_edge i f.id edges && has_event i nodes)
  pub distinct : Distinct events
  pub ordered : Ascending events
  pub within :
      All (λ (e : EventNode). (f'.first_seen ≤ e.timestamp) × (e.timestamp ≤ f'.last_seen)) events

last_timestamp_bounds :
    (t : ℕ) (es : List EventNode)
    → Ascending es
    → All (λ (e : EventNode). t ≤ e.timestamp) es
    → (t ≤ last_timestamp t es) × All (λ (e : EventNode). e.timestamp ≤ last_timestamp t es) es
last_timestamp_bounds t [] a h = (omega arith, tt)
last_timestamp_bounds t (e ∷ es) a h =
    let (least, rest) = last_timestamp_bounds e.timestamp es a.1 (
      All-map (λ x. event_leb e x ≡ true) (λ x. e.timestamp ≤ x.timestamp) es
        (λ x. event_leb-timestamp e x) a.0) in
    (omega (arith, h.0, least), (least, rest))

timestamp_bounds :
    (t u : ℕ) (es : List EventNode)
    → Ascending es
    → All
        (λ (e : EventNode).
          (first_timestamp t es ≤ e.timestamp) × (e.timestamp ≤ last_timestamp u es))
        es
timestamp_bounds t u [] a = tt
timestamp_bounds t u (e ∷ es) a =
    let above =
      All-map (λ x. event_leb e x ≡ true) (λ x. e.timestamp ≤ x.timestamp) es
        (λ x. event_leb-timestamp e x) a.0 in
    let (least, rest) = last_timestamp_bounds e.timestamp es a.1 above in
    (
      (omega arith, least),
      All-map₂ (λ x. e.timestamp ≤ x.timestamp) (λ x. x.timestamp ≤ last_timestamp e.timestamp es)
          (λ x. (e.timestamp ≤ x.timestamp) × (x.timestamp ≤ last_timestamp e.timestamp es)) es
          (λ x p q. (p, q)) above rest,
    )

pub backfill_lem :
    (nodes : List Node) (edges : List FactEdge) (f : FactNode)
    → IsProvenance nodes edges f (backfill (group_edges edges []) (collect_events nodes []) f)
unfolding backfill backfill_from
backfill_lem nodes edges f =
    let gathered = events_of-IsGathered nodes edges f.id in
    record {
      id = refl;
      node_type = refl;
      value = refl;
      canonical_value = refl;
      events = events_of nodes edges f.id;
      listed = refl;
      linked = gathered.linked;
      distinct = gathered.distinct;
      ordered = gathered.ordered;
      within =
          timestamp_bounds f.first_seen f.last_seen (events_of nodes edges f.id) gathered.ordered;
    }

-- The provenance of a fact does not depend on the order in which the store lists the nodes and the
-- edges: two loads with the same event under each id, and with an edge from an event to the fact
-- in the one where there is one in the other, give the fact the same provenance.
pub backfill_order :
    (nodes nodes' : List Node) (edges edges' : List FactEdge) (f : FactNode)
    → ((i : EventId) → get i (collect_events nodes []) ≡ get i (collect_events nodes' []))
    → ((i : EventId) → has_edge i f.id edges ≡ has_edge i f.id edges')
    → backfill (group_edges edges []) (collect_events nodes []) f
      ≡ backfill (group_edges edges' []) (collect_events nodes' []) f
unfolding backfill get
backfill_order nodes nodes' edges edges' f same_events same_edges =
    let here = events_of-IsGathered nodes edges f.id in
    let there = events_of-IsGathered nodes' edges' f.id in
    ap (λ events. backfill_from events f)
      (Ascending-eq (collect_events nodes []) (events_of nodes edges f.id)
        (events_of nodes' edges' f.id) here.drawn
        (All-map (λ (e : EventNode). get e.id (collect_events nodes' []) ≡ some e)
          (λ (e : EventNode). get e.id (collect_events nodes []) ≡ some e)
          (events_of nodes' edges' f.id) (λ e at. same_events e.id ∙ at) there.drawn)
        here.distinct there.distinct here.ordered there.ordered
        (λ i. ground (
          arith,
          here.linked i,
          there.linked i,
          same_edges i,
          same_events i,
          known-collect_events i nodes [],
          known-collect_events i nodes' [],
        )))
