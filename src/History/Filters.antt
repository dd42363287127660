-- ===== src/History/Filters.antt =====
-- The filters of `what_have_i_done` in agent_pinboard/tools.py, one by one.
use agent_pinboard.Prelude.{
  ℕ, zero, suc, ◌≤◌, ◌<◌, ◌-◌, String, ◌≡◌, sym, ◌∙◌, subst, ◌⊎◌, Option, none, some, List, [], ◌∷◌,
  Bool, true, false, ◌==◌, ◌&&◌, ◌||◌, if◌then◌else◌, string_eq, nat_eq, contains, contains-add,
  add, arith, eq_iff, Bool-cases, inl, inr, length, drop, All,
}
use agent_pinboard.Models.{
  Result, ok, >>=-eq-ok, ok-injective, NodeId, EventId, FactNode, FactEdge, Node, fact, event,
  ToolCallRecord,
}
use agent_pinboard.Networkx.{MultiDiGraph}
use agent_pinboard.Graph.{FactGraph, lookup}
use agent_pinboard.Graph.Nodes.{Holds}
use agent_pinboard.History.{
  Answer, ambiguous, records_of, update, last_of, fits, events_about, of_tool, of_events,
  filter_records,
}

pub records_of-injective :
    {rs rs' : List ToolCallRecord} {n n' : ℕ} → records_of rs n ≡ records_of rs' n' → rs ≡ rs'
records_of-injective h = cc

pub refused-ne-records :
    (rs : List ToolCallRecord) (n : ℕ)
    → Path (Result Answer) (ok ambiguous) (ok (records_of rs n))
    → ⊥
refused-ne-records rs n h = ground (arith, h)

contains-update :
    (i : EventId) (xs ys : List EventId)
    → contains i (update xs ys) ≡ (contains i xs || contains i ys)
unfolding update contains
contains-update i xs [] = ground arith
contains-update i xs (y ∷ ys) =
    contains-update i (add y xs) ys ∙ ground (arith, contains-add y i xs)

length-drop : (n : ℕ) (rs : List ToolCallRecord) → length (drop n rs) ≡ length rs - n
length-drop zero rs = omega arith
length-drop (suc n) [] = omega arith
length-drop (suc n) (r ∷ rs) = omega (arith, length-drop n rs)

pub length-last_of :
    (limit : ℕ) (rs : List ToolCallRecord) → 0 < limit → length (last_of limit rs) ≤ limit
unfolding last_of
length-last_of limit rs some_limit =
    let off : (limit == 0) ≡ false = ground (arith, some_limit) in
    rw off (omega (arith, length-drop (length rs - limit) rs))

module _ (P : ToolCallRecord → Type 0) where
  drop-All : (n : ℕ) (rs : List ToolCallRecord) → All P rs → All P (drop n rs)
  drop-All zero rs ps = ps
  drop-All (suc n) [] ps = tt
  drop-All (suc n) (r ∷ rs) ps = drop-All n rs ps.1

  pub last_of-All : (limit : ℕ) (rs : List ToolCallRecord) → All P rs → All P (last_of limit rs)
  unfolding last_of
  last_of-All limit rs ps = elim (Bool-cases (limit == 0)) [
    | inl e ↦ rw e ps
    | inr e ↦ rw e (drop-All (length rs - limit) rs ps)
  ]

pub filter_records-All :
    (name : Option String) (found : Option (List EventId)) (rs : List ToolCallRecord)
    → All (λ r. (of_tool name r && of_events found r) ≡ true) (filter_records name found rs)
unfolding filter_records
filter_records-All name found [] = tt
filter_records-All name found (r ∷ rs) = elim (Bool-cases (of_tool name r && of_events found r)) [
  | inl e ↦ rw e (e, filter_records-All name found rs)
  | inr e ↦ rw e (filter_records-All name found rs)
]

module _ (nx : MultiDiGraph Node FactEdge) (graph : FactGraph nx.Graph) where
  -- A fact under one of these ids, of the form that is asked for, names the event.
  abbrev pub About : Option String → List NodeId → EventId → Type 0
  About canonical ids i =
      (j : NodeId) × (f : FactNode) × (contains j ids ≡ true)
      × Holds nx graph.g j (fact f)
      × (fits canonical f ≡ true)
      × (contains i f.source_events ≡ true)

  About-later :
      (canonical : Option String) (j : NodeId) (ids : List NodeId) (i : EventId)
      → About canonical ids i
      → About canonical (j ∷ ids) i
  unfolding contains
  About-later canonical j ids i (k, f, at, held, fit, named) =
      (k, f, ground (arith, at), held, fit, named)

  lookup-Holds : (j : NodeId) (n : Node) → lookup nx j graph ≡ ok (some n) → Holds nx graph.g j n
  unfolding lookup
  lookup-Holds j n q = ground (arith, q)

  About-step :
      (canonical : Option String) (j : NodeId) (ids : List NodeId) (found out : List EventId)
      (i : EventId) (o : Option Node)
      → lookup nx j graph ≡ ok o
      → elim o [
        | some (fact f) ↦
            events_about nx graph canonical ids
              (if fits canonical f then update found f.source_events else found)
        | _ ↦ events_about nx graph canonical ids found
      ]
        ≡ ok out
      → ((found' : List EventId)
          → events_about nx graph canonical ids found' ≡ ok out
          → (contains i found' ≡ true) ⊎ About canonical ids i)
      → (contains i found ≡ true) ⊎ About canonical (j ∷ ids) i
  unfolding contains
  About-step canonical j ids found out i none here rest more = elim (more found rest) [
    | inl old ↦ inl old
    | inr new ↦ inr (About-later canonical j ids i new)
  ]
  About-step canonical j ids found out i (some (event e)) here rest more = elim (more found rest) [
    | inl old ↦ inl old
    | inr new ↦ inr (About-later canonical j ids i new)
  ]
  About-step canonical j ids found out i (some (fact f)) here rest more =
      let after : Bool → List EventId = λ b. if b then update found f.source_events else found in
      elim (more (after (fits canonical f)) rest) [
        | inr new ↦ inr (About-later canonical j ids i new)
        | inl old ↦ elim (Bool-cases (fits canonical f)) [
          | inr e ↦ inl (subst (λ b. contains i (after b) ≡ true) e old)
          | inl e ↦
              let both : contains i (update found f.source_events) ≡ true =
                subst (λ b. contains i (after b) ≡ true) e old in
              elim (Bool-cases (contains i found)) [
                | inl before ↦ inl before
                | inr fresh ↦ inr (
                  j,
                  f,
                  ground (arith, eq_iff j j),
                  lookup-Holds j (fact f) here,
                  e,
                  ground (arith, both, fresh, contains-update i found f.source_events),
                )
              ]
        ]
      ]

  pub events_about-About :
      (canonical : Option String) (ids : List NodeId) (found out : List EventId) (i : EventId)
      → events_about nx graph canonical ids found ≡ ok out
      → contains i out ≡ true
      → (contains i found ≡ true) ⊎ About canonical ids i
  unfolding events_about
  events_about-About canonical [] found out i q at =
      inl (subst (λ l. contains i l ≡ true) (sym (ok-injective q)) at)
  events_about-About canonical (j ∷ ids) found out i q at =
      let (o, here, rest) =
        >>=-eq-ok (lookup nx j graph)
          (λ o. elim o [
            | some (fact f) ↦
                events_about nx graph canonical ids
                  (if fits canonical f then update found f.source_events else found)
            | _ ↦ events_about nx graph canonical ids found
          ])
          q in
      About-step canonical j ids found out i o here rest
        (λ found' q'. events_about-About canonical ids found' out i q' at)
