-- ===== src/Store/Ordered.antt =====
-- The sort of the records in `load_tool_calls` of agent_pinboard/store.py.
use agent_pinboard.Prelude.{
  ◌≡◌, ◌≤◌, refl, ap, ◌⊎◌, List, [], ◌∷◌, if◌then◌else◌, string_eq, pair_eq, All, All-map, arith,
  Bool-cases, inl, inr, leb, Bool, true, false,
}
use agent_pinboard.Models.{ToolCallRecord}
use agent_pinboard.Store.Api.{insert_record, sort_records}

module _ {A : Type 0} {b : Bool} (x y : A) where
  pub if_true : b ≡ true → (if b then x else y) ≡ x
  if_true e = ap (λ c. if c then x else y) e

  pub if_false : b ≡ false → (if b then x else y) ≡ y
  if_false e = ap (λ c. if c then x else y) e

-- The record is one of the list.
abbrev pub Includes : ToolCallRecord → List ToolCallRecord → Type 0
Includes r [] = ⊥
Includes r (x ∷ xs) = (r ≡ x) ⊎ Includes r xs

abbrev pub Chronological : List ToolCallRecord → Type 0
Chronological [] = Unit {0}
Chronological (r ∷ rs) = All (λ x. r.timestamp ≤ x.timestamp) rs × Chronological rs

module _ (P : ToolCallRecord → Type 0) where
  insert_record-All :
      (r : ToolCallRecord) (rs : List ToolCallRecord) → P r → All P rs → All P (insert_record r rs)
  unfolding insert_record
  insert_record-All r [] p ps = (p, tt)
  insert_record-All r (x ∷ xs) p ps = elim (Bool-cases (leb r.timestamp x.timestamp)) [
    | inl e ↦ rw e (p, ps)
    | inr e ↦ rw e (ps.0, insert_record-All r xs p ps.1)
  ]

  pub sort_records-All : (rs : List ToolCallRecord) → All P rs → All P (sort_records rs)
  unfolding sort_records
  sort_records-All [] ps = tt
  sort_records-All (r ∷ rs) ps =
      insert_record-All r (sort_records rs) ps.0 (sort_records-All rs ps.1)

insert_record-Chronological :
    (r : ToolCallRecord) (rs : List ToolCallRecord)
    → Chronological rs
    → Chronological (insert_record r rs)
unfolding insert_record
insert_record-Chronological r [] h = (tt, tt)
insert_record-Chronological r (x ∷ xs) (above, h) =
    elim (Bool-cases (leb r.timestamp x.timestamp)) [
      | inl e ↦
          let first : r.timestamp ≤ x.timestamp = ground (arith, e) in
          rw e (
            (
              first,
              All-map (λ (y : ToolCallRecord). x.timestamp ≤ y.timestamp)
                  (λ y. r.timestamp ≤ y.timestamp) xs (λ y q. omega (arith, first, q)) above,
            ),
            (above, h),
          )
      | inr e ↦
          let later : x.timestamp ≤ r.timestamp = ground (arith, e) in
          rw e (
            insert_record-All (λ y. x.timestamp ≤ y.timestamp) r xs later above,
            insert_record-Chronological r xs h,
          )
    ]

pub sort_records-Chronological : (rs : List ToolCallRecord) → Chronological (sort_records rs)
unfolding sort_records
sort_records-Chronological [] = tt
sort_records-Chronological (r ∷ rs) =
    insert_record-Chronological r (sort_records rs) (sort_records-Chronological rs)

Includes-insert_record :
    (x r : ToolCallRecord) (rs : List ToolCallRecord)
    → (x ≡ r) ⊎ Includes x rs
    → Includes x (insert_record r rs)
unfolding insert_record
Includes-insert_record x r [] (inl e) = inl e
Includes-insert_record x r [] (inr h) = absurd h
Includes-insert_record x r (y ∷ ys) h = elim (Bool-cases (leb r.timestamp y.timestamp)) [
  | inl e ↦ rw e (elim h [ inl q ↦ inl q | inr q ↦ inr q ])
  | inr e ↦ rw e (elim h [
    | inl q ↦ inr (Includes-insert_record x r ys (inl q))
    | inr (inl q) ↦ inl q
    | inr (inr q) ↦ inr (Includes-insert_record x r ys (inr q))
  ])
]

pub All-Includes : (rs : List ToolCallRecord) → All (λ x. Includes x (sort_records rs)) rs
unfolding sort_records
All-Includes [] = tt
All-Includes (r ∷ rs) = (
  Includes-insert_record r r (sort_records rs) (inl refl),
  All-map (λ x. Includes x (sort_records rs)) (λ x. Includes x (insert_record r (sort_records rs)))
      rs (λ x h. Includes-insert_record x r (sort_records rs) (inr h)) (All-Includes rs),
)
