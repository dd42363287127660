-- ===== src/Decorator/Duplicates.antt =====
-- The duplicate policy's search of the tool-call log, `_last_matching` of
-- agent_pinboard/decorator.py.
use mathlib.Core.List.{
  reverse, reverse-cons, append_assoc, append-nil, reverse-append, reverse-reverse,
}
use text.Mathlib.Text.{starts_with}
use agent_pinboard.Prelude.{
  String, ◌≡◌, refl, sym, ap, ◌∙◌, none, some, List, [], ◌∷◌, ◌++◌, true, false, ◌||◌, All,
  All-append, ◌↔◌, arith, if◌then◌else◌, string_eq, Bool-cases, inl, inr, subst,
}
use agent_pinboard.Models.{ToolCallRecord}
use agent_pinboard.Decorator.{repeats, first_match, last_matching}

-- The record of a call that failed or was skipped.
abbrev pub IsIdle : ToolCallRecord → Type 0
IsIdle x = (starts_with x.summary "duplicate" || starts_with x.summary "error") ≡ true

module _ (tool args : String) where
  -- The record is one of the log, it matches, and nothing after it does.
  pub record IsLast (records : List ToolCallRecord) (r : ToolCallRecord) : Type 0 where
    pub before : List ToolCallRecord
    pub after : List ToolCallRecord
    pub split : records ≡ before ++ r ∷ after
    pub matches : repeats tool args r ≡ true
    pub later : All (λ x. repeats tool args x ≡ false) after

  abbrev Misses : ToolCallRecord → Type 0
  Misses x = repeats tool args x ≡ false

  first_match-none : (l : List ToolCallRecord) → All Misses l → first_match tool args l ≡ none
  unfolding first_match
  first_match-none [] h = refl
  first_match-none (x ∷ l) h = ground (arith, h.0, first_match-none l h.1)

  first_match-append :
      (rs qs : List ToolCallRecord)
      → first_match tool args rs ≡ none
      → first_match tool args (rs ++ qs) ≡ first_match tool args qs
  unfolding first_match
  first_match-append [] qs h = refl
  first_match-append (r ∷ rs) qs h = ground (arith, first_match-append rs qs)

  -- One more record in the log.
  last_matching-append :
      (records : List ToolCallRecord) (r : ToolCallRecord)
      → last_matching tool args (records ++ r ∷ [])
        ≡ (if repeats tool args r then some r else last_matching tool args records)
  unfolding last_matching first_match
  last_matching-append records r = ap (first_match tool args) (reverse-append records (r ∷ []))

  first_match-IsLast :
      (l : List ToolCallRecord) (r : ToolCallRecord)
      → first_match tool args l ≡ some r
      → IsLast (reverse l) r
  unfolding first_match
  first_match-IsLast [] r h = absurd (ground arith)
  first_match-IsLast (x ∷ l) r h = elim (Bool-cases (repeats tool args x)) [
    | inl hit ↦
        let same : x ≡ r = ground (arith, hit, h) in
        record {
          before = reverse l;
          after = [];
          split = reverse-cons x l ∙ ap (λ y. reverse l ++ y ∷ []) same;
          matches = subst (λ y. repeats tool args y ≡ true) same hit;
          later = tt;
        }
    | inr miss ↦
        let rest = first_match-IsLast l r (ground (arith, miss, h)) in
        record {
          before = rest.before;
          after = rest.after ++ x ∷ [];
          split =
              reverse-cons x l
              ∙ (ap (λ y. y ++ x ∷ []) rest.split
                  ∙ append_assoc rest.before (r ∷ rest.after) (x ∷ []));
          matches = rest.matches;
          later = All-append Misses rest.after (x ∷ []) rest.later (miss, tt);
        }
  ]

  All-reverse : (l : List ToolCallRecord) → All Misses l → All Misses (reverse l)
  All-reverse [] h = tt
  All-reverse (x ∷ l) h =
      subst (All Misses) (sym (reverse-cons x l))
        (All-append Misses (reverse l) (x ∷ []) (All-reverse l h.1) (h.0, tt))

  -- The search finds exactly the last record of the log that matches.
  pub last_matching_iff :
      (records : List ToolCallRecord) (r : ToolCallRecord)
      → (last_matching tool args records ≡ some r) ↔ IsLast records r
  unfolding last_matching first_match
  last_matching_iff records r = (
    λ h.
        subst (λ l. IsLast l r) (reverse-reverse records)
          (first_match-IsLast (reverse records) r h),
    λ h.
        let turned =
          ap reverse h.split
          ∙ (reverse-append h.before (r ∷ h.after)
              ∙ ap (λ l. l ++ reverse h.before) (reverse-cons r h.after)) in
        ap (first_match tool args)
          (turned ∙ append_assoc (reverse h.after) (r ∷ []) (reverse h.before))
        ∙ (first_match-append (reverse h.after) (r ∷ reverse h.before)
              (first_match-none (reverse h.after) (All-reverse h.after h.later))
            ∙ ground (arith, h.matches)),
  )

  -- Records of failed and of skipped calls at the end of the log do not change what the search finds.
  pub last_matching-IsIdle :
      (records more : List ToolCallRecord)
      → All IsIdle more
      → last_matching tool args (records ++ more) ≡ last_matching tool args records
  unfolding repeats
  last_matching-IsIdle records [] h = ap (last_matching tool args) (append-nil records)
  last_matching-IsIdle records (x ∷ more) h =
      ap (last_matching tool args) (sym (append_assoc records (x ∷ []) more))
      ∙ (last_matching-IsIdle (records ++ x ∷ []) more h.1
          ∙ (last_matching-append records x ∙ ground (arith, h.0)))
