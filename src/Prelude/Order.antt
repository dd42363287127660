-- ===== src/Prelude/Order.antt =====
-- The order of texts, `a <= b` in the host language: lexicographic by code points. It is total.
use Prim.Native.Nat.{ℕ, Ordering, compare as compare_ℕ}
use Prim.Native.Char.{code}
use Prim.Native.String.{String, [], ◌∷◌, then, compare}
use Prim.Native.String.compare
use mathlib.Core.Path.{◌≡◌, refl, sym, ap, ◌∙◌}
use mathlib.Core.Bool.{Bool, true, false}
use native.Mathlib.Omega.{arith}
use text.Mathlib.TextEquality.{path_by_compare}

abbrev pub text_leb : String → String → Bool
text_leb a b = elim (compare a b) [ Ordering.gt ↦ false | _ ↦ true ]

abbrev flip : Ordering → Ordering
flip Ordering.lt = Ordering.gt
flip Ordering.eq = Ordering.eq
flip Ordering.gt = Ordering.lt

flip-then :
    (m n : ℕ) (o p : Ordering) → p ≡ flip o → then (compare_ℕ n m) p ≡ flip (then (compare_ℕ m n) o)
flip-then m n o p h = ground (arith, h)

compare_swap : (a b : String) → compare b a ≡ flip (compare a b)
compare_swap [] [] = refl
compare_swap [] (d ∷ t) = ground (arith, compare.nil-cons d t, compare.cons-nil d t)
compare_swap (c ∷ s) [] = ground (arith, compare.nil-cons c s, compare.cons-nil c s)
compare_swap (c ∷ s) (d ∷ t) =
    let heads = flip-then (code c) (code d) (compare s t) (compare t s) (compare_swap s t) in
    let left : compare (d ∷ t) (c ∷ s) ≡ then (compare_ℕ (code d) (code c)) (compare t s) =
      compare.cons-cons d c t s in
    let right : compare (c ∷ s) (d ∷ t) ≡ then (compare_ℕ (code c) (code d)) (compare s t) =
      compare.cons-cons c d s t in
    left ∙ (heads ∙ ap flip (sym right))

pub text_leb_total : (a b : String) → text_leb a b ≡ false → text_leb b a ≡ true
text_leb_total a b h = ground (arith, compare_swap a b)

pub text_leb_antisymm : (a b : String) → text_leb a b ≡ true → text_leb b a ≡ true → a ≡ b
text_leb_antisymm a b p q = path_by_compare a b (ground (arith, compare_swap a b))

abbrev leq : Ordering → Bool
leq o = elim o [ Ordering.gt ↦ false | _ ↦ true ]

leq-then :
    (l m n : ℕ) (o p q : Ordering)
    → (leq o ≡ true → leq p ≡ true → leq q ≡ true)
    → leq (then (compare_ℕ l m) o) ≡ true
    → leq (then (compare_ℕ m n) p) ≡ true
    → leq (then (compare_ℕ l n) q) ≡ true
leq-then l m n o p q h a b = ground (arith, h)

pub text_leb_trans :
    (a b c : String) → text_leb a b ≡ true → text_leb b c ≡ true → text_leb a c ≡ true
text_leb_trans [] [] [] p q = refl
text_leb_trans [] [] (e ∷ u) p q = q
text_leb_trans [] (d ∷ t) [] p q = refl
text_leb_trans [] (d ∷ t) (e ∷ u) p q = ground (arith, compare.nil-cons e u)
text_leb_trans (c ∷ s) [] u p q = absurd (ground (arith, compare.cons-nil c s, p))
text_leb_trans (c ∷ s) (d ∷ t) [] p q = absurd (ground (arith, compare.cons-nil d t, q))
text_leb_trans (c ∷ s) (d ∷ t) (e ∷ u) p q =
    let ac : compare (c ∷ s) (e ∷ u) ≡ then (compare_ℕ (code c) (code e)) (compare s u) =
      compare.cons-cons c e s u in
    let ab : compare (c ∷ s) (d ∷ t) ≡ then (compare_ℕ (code c) (code d)) (compare s t) =
      compare.cons-cons c d s t in
    let bc : compare (d ∷ t) (e ∷ u) ≡ then (compare_ℕ (code d) (code e)) (compare t u) =
      compare.cons-cons d e t u in
    ap leq ac
    ∙ leq-then (code c) (code d) (code e) (compare s t) (compare t u) (compare s u)
        (λ x y. text_leb_trans s t u x y) (sym (ap leq ab) ∙ p) (sym (ap leq bc) ∙ q)
