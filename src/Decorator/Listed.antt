-- ===== src/Decorator/Listed.antt =====
-- The lists of a payload (agent_pinboard/decorator.py) after one more item.
use agent_pinboard.Prelude.{
  ◌≡◌, ◌⊎◌, List, [], ◌∷◌, ◌++◌, true, ◌==◌, ◌||◌, string_eq, contains, contains-append, arith,
  eq_iff, inl, inr, Bool-cases,
}
use agent_pinboard.Models.{NodeId}

pub contains_more :
    (i : NodeId) (xs ys zs : List NodeId)
    → contains i xs ≡ true
    → contains i ((xs ++ ys) ++ zs) ≡ true
contains_more i xs ys zs h =
    ground (arith, contains-append i (xs ++ ys) zs, contains-append i xs ys)

pub contains-middle : (i : NodeId) (xs zs : List NodeId) → contains i ((xs ++ i ∷ []) ++ zs) ≡ true
unfolding contains
contains-middle i xs zs =
    ground (arith, contains-append i (xs ++ i ∷ []) zs, contains-append i xs (i ∷ []), eq_iff i i)

pub covered_more :
    (i : NodeId) (xs ys zs news links more : List NodeId)
    → (contains i xs || contains i (news ++ links)) ≡ true
    → (contains i ((xs ++ ys) ++ zs) || contains i ((news ++ zs) ++ (links ++ more))) ≡ true
covered_more i xs ys zs news links more h = ground (
  arith,
  contains-append i (xs ++ ys) zs,
  contains-append i xs ys,
  contains-append i news links,
  contains-append i (news ++ zs) (links ++ more),
  contains-append i news zs,
  contains-append i links more,
)

pub covered_fresh :
    (i : NodeId) (xs news zs links more : List NodeId)
    → (contains i zs || contains i more) ≡ true
    → (contains i xs || contains i ((news ++ zs) ++ (links ++ more))) ≡ true
covered_fresh i xs news zs links more h = ground (
  arith,
  contains-append i (news ++ zs) (links ++ more),
  contains-append i news zs,
  contains-append i links more,
)

-- What the lists have after an item was there, is the item's event, or is one of its facts.
pub listed_cases :
    (i u : NodeId) (xs zs news links more : List NodeId)
    → (contains i ((xs ++ u ∷ []) ++ zs) || contains i ((news ++ zs) ++ (links ++ more))) ≡ true
    → ((contains i xs || contains i (news ++ links)) ≡ true)
      ⊎ ((u ≡ i) ⊎ ((contains i zs || contains i more) ≡ true))
unfolding contains
listed_cases i u xs zs news links more h =
    let all : (contains i xs
          || (contains i news || contains i links)
          || (u == i || (contains i zs || contains i more)))
        ≡ true =
      ground (
        arith,
        contains-append i (xs ++ u ∷ []) zs,
        contains-append i xs (u ∷ []),
        contains-append i (news ++ zs) (links ++ more),
        contains-append i news zs,
        contains-append i links more,
      ) in
    elim (Bool-cases (contains i xs || (contains i news || contains i links))) [
      | inl old ↦ inl (ground (arith, old, contains-append i news links))
      | inr fresh ↦ elim (Bool-cases (u == i)) [
        | inl same ↦ inr (inl ((eq_iff u i).0 same))
        | inr other ↦ inr (inr (ground (arith, all, fresh, other)))
      ]
    ]
