-- ===== src/Graph/Snapshot/Events.antt =====
-- What the loops of `_backfill_fact_provenance` in agent_pinboard/graph.py collect.
use agent_pinboard.Prelude.{
  ◌≡◌, refl, sym, ap, ◌∙◌, none, some, List, [], ◌∷◌, ◌++◌, map, Bool, true, false, ◌==◌, ◌&&◌,
  ◌||◌, string_eq, contains, contains-append, contains-add, add, All-append, get, put, get-put,
  get-put_cases, eq_iff, arith, Option-cases, Bool-cases, inl, inr, All, subst,
}
use agent_pinboard.Models.{NodeId, EventId, EventNode, FactEdge, Node, fact, event}
use agent_pinboard.Graph.Snapshot.{collect_events, incoming_of, group_edges, distinct_events}

abbrev pub event_ids : List EventNode → List EventId
event_ids events = map (λ e. e.id) events

-- One of the nodes is an event with the id.
abbrev pub has_event : EventId → List Node → Bool
has_event i [] = false
has_event i (event e ∷ nodes) = e.id == i || has_event i nodes
has_event i (fact _ ∷ nodes) = has_event i nodes

-- One of the edges leads from the event to the node.
abbrev pub has_edge : EventId → NodeId → List FactEdge → Bool
has_edge i t [] = false
has_edge i t (e ∷ es) = e.event_id == i && e.target_id == t || has_edge i t es

-- One of the edges leads from the event.
abbrev pub leads : EventId → List FactEdge → Bool
leads i [] = false
leads i (e ∷ es) = e.event_id == i || leads i es

abbrev pub known : EventId → List (EventId × EventNode) → Bool
known i d = elim (get i d) [ none ↦ false | some _ ↦ true ]

-- Every event stands under its id.
abbrev pub Keyed : List (EventId × EventNode) → Type 0
Keyed d = (i : EventId) (e : EventNode) → get i d ≡ some e → e.id ≡ i

pub known-collect_events :
    (i : EventId) (nodes : List Node) (d : List (EventId × EventNode))
    → known i (collect_events nodes d) ≡ (has_event i nodes || known i d)
unfolding collect_events
known-collect_events i [] d = refl
known-collect_events i (event e ∷ nodes) d =
    ground (arith, known-collect_events i nodes (put e.id e d), get-put e.id i e d)
known-collect_events i (fact f ∷ nodes) d = known-collect_events i nodes d

Keyed-put : (e : EventNode) (d : List (EventId × EventNode)) → Keyed d → Keyed (put e.id e d)
Keyed-put e d h i v at = elim (get-put_cases e.id i e v d at) [
  | inl (here, same) ↦ ap (λ (x : EventNode). x.id) (sym same) ∙ here
  | inr old ↦ h i v old
]

pub collect_events-Keyed :
    (nodes : List Node) (d : List (EventId × EventNode)) → Keyed d → Keyed (collect_events nodes d)
unfolding collect_events
collect_events-Keyed [] d h = h
collect_events-Keyed (event e ∷ nodes) d h =
    collect_events-Keyed nodes (put e.id e d) (Keyed-put e d h)
collect_events-Keyed (fact f ∷ nodes) d h = collect_events-Keyed nodes d h

pub leads-append :
    (i : EventId) (es fs : List FactEdge) → leads i (es ++ fs) ≡ (leads i es || leads i fs)
leads-append i [] fs = refl
leads-append i (e ∷ es) fs = ground (arith, leads-append i es fs)

pub leads-incoming_of :
    (i : EventId) (t : NodeId) (es : List FactEdge) (d : List (NodeId × List FactEdge))
    → leads i (incoming_of t (group_edges es d)) ≡ (leads i (incoming_of t d) || has_edge i t es)
unfolding group_edges
leads-incoming_of i t [] d = ground arith
leads-incoming_of i t (e ∷ es) d =
    let rest = incoming_of e.target_id d ++ e ∷ [] in
    ground (
      arith,
      leads-incoming_of i t es (put e.target_id rest d),
      get-put e.target_id t rest d,
      leads-append i (incoming_of e.target_id d) (e ∷ []),
      eq_iff e.target_id t,
    )

event_ids-append : (es fs : List EventNode) → event_ids (es ++ fs) ≡ event_ids es ++ event_ids fs
event_ids-append [] fs = refl
event_ids-append (e ∷ es) fs = ap (λ l. e.id ∷ l) (event_ids-append es fs)

contains-event_ids_append :
    (i : EventId) (es : List EventNode) (e : EventNode)
    → contains i (event_ids (es ++ e ∷ [])) ≡ (contains i (event_ids es) || e.id == i)
unfolding contains
contains-event_ids_append i es e = ground (
  arith,
  ap (contains i) (event_ids-append es (e ∷ [])),
  contains-append i (event_ids es) (e.id ∷ []),
)

-- No two of the events have one id.
abbrev pub Distinct : List EventNode → Type 0
Distinct [] = Unit
Distinct (e ∷ es) = (contains e.id (event_ids es) ≡ false) × Distinct es

Distinct-append :
    (es : List EventNode) (e : EventNode)
    → Distinct es
    → contains e.id (event_ids es) ≡ false
    → Distinct (es ++ e ∷ [])
unfolding contains
Distinct-append [] e h new = (refl, tt)
Distinct-append (x ∷ es) e h new = (
  ground (arith, contains-event_ids_append x.id es e, h.0, eq_iff x.id e.id, eq_iff e.id x.id),
  Distinct-append es e h.1 (ground (arith, new)),
)

-- Every event is the one that stands under its id.
abbrev pub Drawn : List (EventId × EventNode) → List EventNode → Type 0
Drawn by_id events = All (λ e. get e.id by_id ≡ some e) events

-- What the loop over a fact's edges has collected.
pub record IsCollected (by_id : List (EventId × EventNode)) (seen : List EventId)
    (events : List EventNode) : Type 0 where
  pub same : (i : EventId) → contains i seen ≡ contains i (event_ids events)
  pub distinct : Distinct events
  pub drawn : Drawn by_id events

module _ (by_id : List (EventId × EventNode)) (keyed : Keyed by_id) where
  IsCollected-append :
      (seen : List EventId) (events : List EventNode) (e : EventNode)
      → get e.id by_id ≡ some e
      → contains e.id seen ≡ false
      → IsCollected by_id seen events
      → IsCollected by_id (add e.id seen) (events ++ e ∷ [])
  IsCollected-append seen events e at new h = record {
    same = λ i.
        ground (arith, contains-add e.id i seen, h.same i, contains-event_ids_append i events e);
    distinct = Distinct-append events e h.distinct (sym (h.same e.id) ∙ new);
    drawn = All-append (λ x. get x.id by_id ≡ some x) events (e ∷ []) h.drawn (at, tt);
  }

  -- What holds of the events that the loop ends with, from `events` over the edges `es`.
  abbrev pub Collected : List FactEdge → List EventNode → List EventNode → Type 0
  Collected es events l =
      Distinct l
      × Drawn by_id l
      × ((i : EventId)
          → contains i (event_ids l)
            ≡ (contains i (event_ids events) || leads i es && known i by_id))

  pub distinct_events-Collected :
      (es : List FactEdge) (seen : List EventId) (events : List EventNode)
      → IsCollected by_id seen events
      → Collected es events (distinct_events by_id es seen events)
  unfolding distinct_events
  distinct_events-Collected [] seen events h = (h.distinct, h.drawn, λ i. ground arith)
  distinct_events-Collected (e ∷ es) seen events h = elim (Option-cases (get e.event_id by_id)) [
    | inl absent ↦
        let (a, b, c) = distinct_events-Collected es seen events h in
        let step : distinct_events by_id (e ∷ es) seen events
            ≡ distinct_events by_id es seen events =
          ground (arith, absent) in
        subst (Collected (e ∷ es) events) (sym step)
          (a, b, λ i. ground (arith, absent, c i, eq_iff e.event_id i))
    | inr (ev, at) ↦
        let named : ev.id ≡ e.event_id = keyed e.event_id ev at in
        elim (Bool-cases (contains ev.id seen)) [
          | inl old ↦
              let (a, b, c) = distinct_events-Collected es seen events h in
              let step : distinct_events by_id (e ∷ es) seen events
                  ≡ distinct_events by_id es seen events =
                ground (arith, at, old) in
              subst (Collected (e ∷ es) events) (sym step)
                (a, b, λ i. ground (arith, at, old, named, h.same ev.id, c i, eq_iff e.event_id i))
          | inr new ↦
              let own : get ev.id by_id ≡ some ev = ap (λ x. get x by_id) named ∙ at in
              let (a, b, c) =
                distinct_events-Collected es (add ev.id seen) (events ++ ev ∷ [])
                  (IsCollected-append seen events ev own new h) in
              let step : distinct_events by_id (e ∷ es) seen events
                  ≡ distinct_events by_id es (add ev.id seen) (events ++ ev ∷ []) =
                ground (arith, at, new) in
              subst (Collected (e ∷ es) events) (sym step) (
                a,
                b,
                λ i. ground (
                  arith,
                  at,
                  named,
                  c i,
                  eq_iff e.event_id i,
                  eq_iff ev.id i,
                  contains-event_ids_append i events ev,
                ),
              )
        ]
  ]
