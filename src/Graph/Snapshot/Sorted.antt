-- ===== src/Graph/Snapshot/Sorted.antt =====
-- The sorting of the events of a fact in `_backfill_fact_provenance` of agent_pinboard/graph.py.
use agent_pinboard.Prelude.{
  ◌≤◌, ◌≡◌, refl, sym, ap, ◌∙◌, subst, List, [], ◌∷◌, true, false, ◌==◌, ◌||◌, string_eq, nat_eq,
  contains, eq_iff, arith, text_leb_total, text_leb_antisymm, text_leb_trans, Bool-cases, inl, inr,
  All, All-map,
}
use agent_pinboard.Models.{EventId, EventNode}
use agent_pinboard.Graph.Snapshot.{insert_event, sort_events, event_leb}
use agent_pinboard.Graph.Snapshot.Events.{event_ids, Distinct}

event_leb_total : (a b : EventNode) → event_leb a b ≡ false → event_leb b a ≡ true
event_leb_total a b h = ground (arith, text_leb_total a.id b.id)

event_leb_trans :
    (a b c : EventNode) → event_leb a b ≡ true → event_leb b c ≡ true → event_leb a c ≡ true
event_leb_trans a b c p q = ground (arith, text_leb_trans a.id b.id c.id)

pub event_leb_antisymm :
    (a b : EventNode) → event_leb a b ≡ true → event_leb b a ≡ true → a.id ≡ b.id
event_leb_antisymm a b p q = ground (arith, text_leb_antisymm a.id b.id)

pub event_leb-timestamp : (a b : EventNode) → event_leb a b ≡ true → a.timestamp ≤ b.timestamp
event_leb-timestamp a b h = ground arith

abbrev pub Above : EventNode → List EventNode → Type 0
Above e es = All (λ x. event_leb e x ≡ true) es

abbrev pub Ascending : List EventNode → Type 0
Ascending [] = Unit
Ascending (e ∷ es) = Above e es × Ascending es

insert_event-first :
    (e x : EventNode) (es : List EventNode)
    → event_leb e x ≡ true
    → insert_event e (x ∷ es) ≡ e ∷ x ∷ es
unfolding insert_event
insert_event-first e x es h = ground (arith, h)

insert_event-later :
    (e x : EventNode) (es : List EventNode)
    → event_leb e x ≡ false
    → insert_event e (x ∷ es) ≡ x ∷ insert_event e es
unfolding insert_event
insert_event-later e x es h = ground (arith, h)

insert_event-All :
    (P : EventNode → Type 0) (e : EventNode) (es : List EventNode)
    → P e
    → All P es
    → All P (insert_event e es)
unfolding insert_event
insert_event-All P e [] p h = (p, tt)
insert_event-All P e (x ∷ es) p h = elim (Bool-cases (event_leb e x)) [
  | inl first ↦ subst (All P) (sym (insert_event-first e x es first)) (p, h)
  | inr later ↦
      subst (All P) (sym (insert_event-later e x es later)) (h.0, insert_event-All P e es p h.1)
]

insert_event-Ascending :
    (e : EventNode) (es : List EventNode) → Ascending es → Ascending (insert_event e es)
unfolding insert_event
insert_event-Ascending e [] h = (tt, tt)
insert_event-Ascending e (x ∷ es) h = elim (Bool-cases (event_leb e x)) [
  | inl first ↦ subst Ascending (sym (insert_event-first e x es first)) (
    (
      first,
      All-map (λ y. event_leb x y ≡ true) (λ y. event_leb e y ≡ true) es
          (λ y at. event_leb_trans e x y first at) h.0,
    ),
    h,
  )
  | inr later ↦ subst Ascending (sym (insert_event-later e x es later)) (
    insert_event-All (λ y. event_leb x y ≡ true) e es (event_leb_total e x later) h.0,
    insert_event-Ascending e es h.1,
  )
]

contains-insert_event :
    (i : EventId) (e : EventNode) (es : List EventNode)
    → contains i (event_ids (insert_event e es)) ≡ (e.id == i || contains i (event_ids es))
unfolding insert_event contains
contains-insert_event i e [] = refl
contains-insert_event i e (x ∷ es) = elim (Bool-cases (event_leb e x)) [
  | inl first ↦ ap (λ l. contains i (event_ids l)) (insert_event-first e x es first)
  | inr later ↦
      ap (λ l. contains i (event_ids l)) (insert_event-later e x es later)
      ∙ ground (arith, contains-insert_event i e es)
]

insert_event-Distinct :
    (e : EventNode) (es : List EventNode)
    → contains e.id (event_ids es) ≡ false
    → Distinct es
    → Distinct (insert_event e es)
unfolding insert_event contains
insert_event-Distinct e [] new h = (refl, tt)
insert_event-Distinct e (x ∷ es) new h = elim (Bool-cases (event_leb e x)) [
  | inl first ↦ subst Distinct (sym (insert_event-first e x es first)) (new, h)
  | inr later ↦ subst Distinct (sym (insert_event-later e x es later)) (
    ground (arith, new, h.0, contains-insert_event x.id e es, eq_iff e.id x.id, eq_iff x.id e.id),
    insert_event-Distinct e es (ground (arith, new)) h.1,
  )
]

pub contains-sort_events :
    (i : EventId) (es : List EventNode)
    → contains i (event_ids (sort_events es)) ≡ contains i (event_ids es)
unfolding sort_events contains
contains-sort_events i [] = refl
contains-sort_events i (e ∷ es) =
    contains-insert_event i e (sort_events es) ∙ ground (arith, contains-sort_events i es)

-- The sorted events are in order, and what held of the events holds of them.
pub sort_events-Ascending : (es : List EventNode) → Ascending (sort_events es)
unfolding sort_events
sort_events-Ascending [] = tt
sort_events-Ascending (e ∷ es) =
    insert_event-Ascending e (sort_events es) (sort_events-Ascending es)

pub sort_events-Distinct : (es : List EventNode) → Distinct es → Distinct (sort_events es)
unfolding sort_events
sort_events-Distinct [] h = tt
sort_events-Distinct (e ∷ es) h =
    insert_event-Distinct e (sort_events es) (contains-sort_events e.id es ∙ h.0)
      (sort_events-Distinct es h.1)

pub sort_events-All :
    (P : EventNode → Type 0) (es : List EventNode) → All P es → All P (sort_events es)
unfolding sort_events
sort_events-All P [] h = tt
sort_events-All P (e ∷ es) h = insert_event-All P e (sort_events es) h.0 (sort_events-All P es h.1)
