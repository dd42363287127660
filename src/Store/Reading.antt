-- ===== src/Store/Reading.antt =====
-- The lists that agent_pinboard/store.py reads from the items of a search.
use mathlib.Core.Path.{subst₂}
use agent_pinboard.Prelude.{
  String, ◌≡◌, refl, some, List, [], ◌∷◌, ◌==◌, string_eq, get, All, arith, eq_iff, Bool-cases, inl,
  inr,
}
use agent_pinboard.Models.{Result, ok}
use agent_pinboard.Store.{Dict}
use agent_pinboard.Store.Api.{read_all}

module _ {A : Type 0} (R : String × Dict → A → Type 0) where
  -- One value for each item, in their order.
  abbrev pub Corresponds : List (String × Dict) → List A → Type 0
  Corresponds [] [] = Unit {0}
  Corresponds [] (a ∷ values) = ⊥
  Corresponds (p ∷ items) [] = ⊥
  Corresponds (p ∷ items) (a ∷ values) = R p a × Corresponds items values

  -- Items that each read as a related value read as a list.
  pub read_all-Corresponds :
      (read : Dict → Result A) (items : List (String × Dict))
      → All (λ p. (a : A) × (read p.1 ≡ ok a) × R p a) items
      → (values : List A) × (read_all read items ≡ ok values) × Corresponds items values
  unfolding read_all
  read_all-Corresponds read [] h = ([], refl, tt)
  read_all-Corresponds read ((k, d) ∷ items) ((a, here, r), h) =
      let (values, there, rs) = read_all-Corresponds read items h in
      (a ∷ values, ground (arith, here, there), (r, rs))

  -- What a key is mapped to among the items is related to a value of the list, which has what all
  -- the values have.
  pub Corresponds-get :
      (P : A → Type 0) (k : String) (d : Dict) (items : List (String × Dict)) (values : List A)
      → Corresponds items values
      → All P values
      → get k items ≡ some d
      → (a : A) × R (k, d) a × P a
  unfolding get
  Corresponds-get P k d [] values rs ps at = absurd (ground (arith, at))
  Corresponds-get P k d (p ∷ items) [] rs ps at = absurd rs
  Corresponds-get P k d ((j, c) ∷ items) (a ∷ values) (r, rs) (p, ps) at =
      elim (Bool-cases (j == k)) [
        | inl e ↦ (a, subst₂ (λ x y. R (x, y) a) ((eq_iff j k).0 e) (ground (arith, e, at)) r, p)
        | inr e ↦ Corresponds-get P k d items values rs ps (ground (arith, e, at))
      ]

  pub All-Corresponds :
      (P : A → Type 0) (items : List (String × Dict)) (values : List A)
      → ((p : String × Dict) (a : A) → R p a → P a)
      → Corresponds items values
      → All P values
  All-Corresponds P [] [] f rs = tt
  All-Corresponds P [] (a ∷ values) f rs = absurd rs
  All-Corresponds P (p ∷ items) [] f rs = absurd rs
  All-Corresponds P (p ∷ items) (a ∷ values) f (r, rs) =
      (f p a r, All-Corresponds P items values f rs)
