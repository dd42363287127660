-- ===== src/Explore/Layers.antt =====
-- The frontier between the rounds of the search of `_render_explore` in agent_pinboard/tools.py.
use agent_pinboard.Prelude.{
  ℕ, zero, suc, ◌≡◌, refl, sym, ◌∙◌, subst, ◌⊎◌, List, [], ◌∷◌, Bool, true, false, ◌||◌, string_eq,
  contains, eq_iff, arith, Bool-cases, inl, inr,
}
use agent_pinboard.Models.{NodeId}
use agent_pinboard.Explore.{Yields, Visited, has, Search}
use agent_pinboard.Explore.Rounds.{yields_to, Extends, borders}

module _ (neighbours_of : NodeId → Yields) where
  -- `j` is at most `n` steps from `i`.
  abbrev pub Reach : ℕ → NodeId → NodeId → Type 0
  Reach zero i j = i ≡ j
  Reach (suc n) i j =
      (i ≡ j) ⊎ ((k : NodeId) × (yields_to k (neighbours_of i) ≡ true) × Reach n k j)

  pub Reach-refl : (n : ℕ) (i : NodeId) → Reach n i i
  Reach-refl zero i = refl
  Reach-refl (suc n) i = inl refl

  pub Reach-suc : (n : ℕ) (i j : NodeId) → Reach n i j → Reach (suc n) i j
  Reach-suc zero i j h = inl h
  Reach-suc (suc n) i j (inl h) = inl h
  Reach-suc (suc n) i j (inr (k, to, h)) = inr (k, to, Reach-suc n k j h)

module _ (neighbours_of : NodeId → Yields) (in_order : List NodeId → List NodeId) (max_nodes : ℕ)
    (same : (i : NodeId) (l : List NodeId) → contains i (in_order l) ≡ contains i l) where
  abbrev pub near : NodeId → List NodeId → Bool
  near j l = borders neighbours_of in_order max_nodes j l

  borders-cases :
      (j : NodeId) (l : List NodeId)
      → near j l ≡ true
      → (i : NodeId) × (contains i l ≡ true) × (yields_to j (neighbours_of i) ≡ true)
  unfolding contains
  borders-cases j [] h = absurd (ground (arith, h))
  borders-cases j (i ∷ l) h = elim (Bool-cases (yields_to j (neighbours_of i))) [
    | inl here ↦ (i, ground (arith, eq_iff i i), here)
    | inr other ↦
        let (k, at, to) = borders-cases j l (ground (arith, other, h)) in
        (k, ground (arith, at), to)
  ]

  borders-of_contains :
      (i j : NodeId) (l : List NodeId)
      → contains i l ≡ true
      → yields_to j (neighbours_of i) ≡ true
      → near j l ≡ true
  unfolding contains
  borders-of_contains i j [] h to = absurd (ground (arith, h))
  borders-of_contains i j (k ∷ l) h to = elim (Bool-cases (yields_to j (neighbours_of k))) [
    | inl here ↦ ground (arith, here)
    | inr other ↦ ground (arith, other, to, h, eq_iff k i, borders-of_contains i j l)
  ]

  -- The frontier was visited, and the rest of what was visited has only neighbours that were.
  pub record IsLayered (frontier : List NodeId) (visited : Visited) : Type 0 where
    pub known : (i : NodeId) → contains i frontier ≡ true → has i visited ≡ true
    pub closed :
        (i j : NodeId)
        → has i visited ≡ true
        → yields_to j (neighbours_of i) ≡ true
        → (contains i frontier || has j visited) ≡ true

  module _ (frontier : List NodeId) (visited : Visited) (s : Search)
      (layered : IsLayered frontier visited)
      (extends : Extends
        (λ j. near j (in_order frontier))
        (record { visited = visited; next_frontier = []; overflow_remaining = false })
        s) where
    -- A round without the limit visits the neighbours of all that was visited.
    pub round_all :
        (i j : NodeId)
        → s.overflow_remaining ≡ false
        → has i visited ≡ true
        → yields_to j (neighbours_of i) ≡ true
        → has j s.visited ≡ true
    round_all i j open_ at to = elim (Bool-cases (contains i frontier)) [
      | inl here ↦
          extends.all open_ j
            (borders-of_contains i j (in_order frontier) (same i frontier ∙ here) to)
      | inr other ↦ extends.grows j (ground (arith, layered.closed i j at to, other))
    ]

    pub round-IsLayered : s.overflow_remaining ≡ false → IsLayered s.next_frontier s.visited
    unfolding contains
    round-IsLayered open_ = record {
      known = λ i h. ground (arith, extends.inside i);
      closed = λ i j at to. elim (Bool-cases (has i visited)) [
        | inl old ↦ ground (arith, round_all i j open_ old to)
        | inr new ↦ ground (arith, extends.fresh i at, new)
      ];
    }

    -- What a round visits is at most one step away.
    pub round_sound :
        (j : NodeId)
        → has j s.visited ≡ true
        → (has j visited ≡ true)
          ⊎ ((i : NodeId) × (has i visited ≡ true) × (yields_to j (neighbours_of i) ≡ true))
    round_sound j at = elim (Bool-cases (has j visited)) [
      | inl old ↦ inl old
      | inr new ↦
          let (i, in_frontier, to) =
            borders-cases j (in_order frontier) (ground (arith, extends.source j at, new)) in
          inr (i, layered.known i (sym (same i frontier) ∙ in_frontier), to)
    ]

  -- Nodes whose neighbours are all among them are left by no walk.
  pub closed-Reach :
      (visited : Visited) (n : ℕ) (i j : NodeId)
      → IsLayered [] visited
      → has i visited ≡ true
      → Reach neighbours_of n i j
      → has j visited ≡ true
  unfolding contains
  closed-Reach visited zero i j h at walk = subst (λ x. has x visited ≡ true) walk at
  closed-Reach visited (suc n) i j h at (inl walk) = subst (λ x. has x visited ≡ true) walk at
  closed-Reach visited (suc n) i j h at (inr (k, to, walk)) =
      closed-Reach visited n k j h (ground (arith, h.closed i k at to)) walk
