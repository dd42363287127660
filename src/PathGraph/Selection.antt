-- ===== src/PathGraph/Selection.antt =====
-- agent_pinboard/tools.py: the paths that `find_path` keeps of the ones that networkx yields.
use mathlib.Core.List.{append-nil, append_assoc}
use agent_pinboard.Prelude.{
  ℕ, zero, suc, ◌+◌, ◌-◌, ◌≤◌, ◌≡◌, refl, sym, ap, ◌∙◌, List, [], ◌∷◌, ◌++◌, true, false, ltb, leb,
  if◌then◌else◌, length, take, length-append, All, Bool-cases, inl, inr, arith,
}
use agent_pinboard.Models.{NodeId}

-- max(1, top)
unfoldable pub at_least_one : ℕ → ℕ
at_least_one top = if ltb 1 top then top else 1

-- The loop over the paths, with `paths` so far. Where networkx finds no path there is none to go
-- through.
unfoldable pub collect_paths : ℕ → ℕ → List (List NodeId) → List (List NodeId) → List (List NodeId)
collect_paths max_depth top [] paths = paths
collect_paths max_depth top (path ∷ rest) paths =
    let more = collect_paths max_depth top rest (paths ++ path ∷ []) in
    if ltb max_depth (length path - 1)
    then paths
    else if leb top (length (paths ++ path ∷ []))
    then paths ++ path ∷ []
    else more

-- What `find_path` makes of the paths from start to end.
unfoldable pub found_paths : ℕ → ℕ → List (List NodeId) → List (List NodeId)
unfolding collect_paths at_least_one
found_paths max_depth top yielded = collect_paths max_depth (at_least_one top) yielded []

-- The paths of at most `max_depth` hops.
unfoldable pub within : ℕ → List (List NodeId) → List (List NodeId)
within max_depth [] = []
within max_depth (path ∷ rest) =
    let kept = within max_depth rest in
    if ltb max_depth (length path - 1) then kept else path ∷ kept

-- Each path is no longer than the later ones.
abbrev pub Ordered : List (List NodeId) → Type 0
Ordered [] = Unit
Ordered (path ∷ rest) = All (λ later. length path ≤ length later) rest × Ordered rest

at_least_one_lem : (top : ℕ) → at_least_one top ≡ suc (top - 1)
unfolding at_least_one
at_least_one_lem top = ground arith

module _ (max_depth : ℕ) where
  within-longer :
      (path : List NodeId) (rest : List (List NodeId))
      → ltb max_depth (length path - 1) ≡ true
      → All (λ later. length path ≤ length later) rest
      → within max_depth rest ≡ []
  unfolding within
  within-longer path [] long later = refl
  within-longer path (p ∷ rest) long later =
      let none_later = within-longer path rest long later.1 in
      ground (arith, long, later.0, none_later)

  collect_paths_lem :
      (n top : ℕ) (yielded paths : List (List NodeId))
      → top ≡ suc (n + length paths)
      → Ordered yielded
      → collect_paths max_depth top yielded paths ≡ paths ++ take (suc n) (within max_depth yielded)
  unfolding collect_paths within
  collect_paths_lem n top [] paths e o = sym (append-nil paths)
  collect_paths_lem zero top (path ∷ rest) paths e o =
      let one_more : length (paths ++ path ∷ []) ≡ length paths + 1 =
        length-append paths (path ∷ []) in
      elim (Bool-cases (ltb max_depth (length path - 1))) [
        | inl long ↦
            let none_later = within-longer path rest long o.0 in
            ground (arith, long, none_later, append-nil paths)
        | inr fits ↦
            let full : leb top (length (paths ++ path ∷ [])) ≡ true = ground (arith, e, one_more) in
            ground (arith, fits, full)
      ]
  collect_paths_lem (suc n) top (path ∷ rest) paths e o =
      let one_more : length (paths ++ path ∷ []) ≡ length paths + 1 =
        length-append paths (path ∷ []) in
      elim (Bool-cases (ltb max_depth (length path - 1))) [
        | inl long ↦
            let none_later = within-longer path rest long o.0 in
            ground (arith, long, none_later, append-nil paths)
        | inr fits ↦
            let room : leb top (length (paths ++ path ∷ [])) ≡ false =
              ground (arith, e, one_more) in
            let later =
              collect_paths_lem n top rest (paths ++ path ∷ []) (omega (arith, e, one_more)) o.1 in
            let shifted = append_assoc paths (path ∷ []) (take (suc n) (within max_depth rest)) in
            ground (arith, fits, room, later, shifted)
      ]

  -- Of paths that come in order of length, as networkx yields them, the tool keeps the first of those
  -- of at most `max_depth` hops: as many as `top`, and one where that is 0.
  pub found_paths_lem :
      (top : ℕ) (yielded : List (List NodeId))
      → Ordered yielded
      → found_paths max_depth top yielded ≡ take (at_least_one top) (within max_depth yielded)
  unfolding found_paths
  found_paths_lem top yielded o =
      let size = at_least_one_lem top in
      collect_paths_lem (top - 1) (at_least_one top) yielded [] (omega (arith, size)) o
      ∙ ap (λ k. take k (within max_depth yielded)) (sym size)
