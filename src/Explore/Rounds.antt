-- ===== src/Explore/Rounds.antt =====
-- What one round of the search of `_render_explore` in agent_pinboard/tools.py adds.
use agent_pinboard.Prelude.{
  ℕ, ◌-◌, ◌≡◌, subst, List, [], ◌∷◌, Bool, true, false, ◌==◌, ◌||◌, if◌then◌else◌, string_eq, leb,
  put, get-put, add, contains, contains-add, eq_iff, length, arith, Bool-cases, inl, inr,
}
use agent_pinboard.Models.{ok, raise, >>=-eq-ok, ok-injective, NodeId}
use agent_pinboard.Explore.{Via, Yields, Visited, has, Search, visit, visit_all}

-- The node is among those yielded.
abbrev pub yields_to : NodeId → Yields → Bool
yields_to j [] = false
yields_to j (raise e ∷ ys) = yields_to j ys
yields_to j (ok (target, via) ∷ ys) = target == j || yields_to j ys

has-put :
    (i j : NodeId) (via : Via) (visited : Visited)
    → has j (put i via visited) ≡ (i == j || has j visited)
has-put i j via visited = ground (arith, get-put i j via visited)

-- `s'` has what `s` had and some of the nodes that `found` names, all of them unless the limit was
-- met, and the new ones are in the next frontier.
pub record Extends (found : NodeId → Bool) (s s' : Search) : Type 0 where
  pub grows : (j : NodeId) → has j s.visited ≡ true → has j s'.visited ≡ true
  pub source : (j : NodeId) → has j s'.visited ≡ true → (has j s.visited || found j) ≡ true
  pub fresh :
      (j : NodeId)
      → has j s'.visited ≡ true
      → (has j s.visited || contains j s'.next_frontier) ≡ true
  pub queued : (j : NodeId) → contains j s.next_frontier ≡ true → contains j s'.next_frontier ≡ true
  pub inside :
      (j : NodeId)
      → contains j s'.next_frontier ≡ true
      → (contains j s.next_frontier || has j s'.visited) ≡ true
  pub all : s'.overflow_remaining ≡ false → (j : NodeId) → found j ≡ true → has j s'.visited ≡ true

Extends-refl : (s : Search) → Extends (λ _. false) s s
Extends-refl s = record {
  grows = λ j h. h;
  source = λ j h. ground arith;
  fresh = λ j h. ground arith;
  queued = λ j h. h;
  inside = λ j h. ground arith;
  all = λ _ j h. absurd (ground arith);
}

Extends-trans :
    (p q : NodeId → Bool) (s t u : Search)
    → t.overflow_remaining ≡ false
    → Extends p s t
    → Extends q t u
    → Extends (λ j. p j || q j) s u
Extends-trans p q s t u open_ f g = record {
  grows = λ j h. g.grows j (f.grows j h);
  source = λ j h. ground (arith, f.source j, g.source j);
  fresh = λ j h. ground (arith, f.fresh j, g.fresh j, g.queued j);
  queued = λ j h. g.queued j (f.queued j h);
  inside = λ j h. ground (arith, f.inside j, g.inside j, g.grows j);
  all = λ o j h. ground (arith, f.all open_ j, g.all o j, g.grows j);
}

-- The search with one more node.
abbrev with_node : NodeId → Via → Bool → Search → Search
with_node target via overflow s = record {
  visited = put target via s.visited;
  next_frontier = add target s.next_frontier;
  overflow_remaining = overflow;
}

Extends-with_node :
    (target : NodeId) (via : Via) (overflow : Bool) (s : Search)
    → Extends (λ j. target == j) s (with_node target via overflow s)
Extends-with_node target via overflow s = record {
  grows = λ j h. ground (arith, has-put target j via s.visited);
  source = λ j h. ground (arith, has-put target j via s.visited);
  fresh =
      λ j h. ground (arith, has-put target j via s.visited, contains-add target j s.next_frontier);
  queued = λ j h. ground (arith, contains-add target j s.next_frontier);
  inside =
      λ j h. ground (arith, has-put target j via s.visited, contains-add target j s.next_frontier);
  all = λ _ j h. ground (arith, has-put target j via s.visited);
}

-- More may be named than was found, where it was there before or the limit was met.
Extends-named :
    (p q : NodeId → Bool) (s s' : Search)
    → ((j : NodeId) → p j ≡ true → q j ≡ true)
    → (s'.overflow_remaining ≡ false → (j : NodeId) → q j ≡ true → (has j s.visited || p j) ≡ true)
    → Extends p s s'
    → Extends q s s'
Extends-named p q s s' more there h = record {
  grows = h.grows;
  source = λ j at. ground (arith, h.source j, more j);
  fresh = h.fresh;
  queued = h.queued;
  inside = h.inside;
  all = λ o j at. ground (arith, there o j at, h.grows j, h.all o j);
}

module _ (neighbours_of : NodeId → Yields) (in_order : List NodeId → List NodeId)
    (max_nodes : ℕ) where
  visit-Extends :
      (ys : Yields) (s s' : Search)
      → s.overflow_remaining ≡ false
      → visit neighbours_of in_order max_nodes ys s ≡ ok s'
      → Extends (λ j. yields_to j ys) s s'
  unfolding visit
  visit-Extends [] s s' open_ q = subst (Extends (λ _. false) s) (ok-injective q) (Extends-refl s)
  visit-Extends (raise e ∷ ys) s s' open_ q = absurd (ground (arith, q))
  visit-Extends (ok (target, via) ∷ ys) s s' open_ q = elim (Bool-cases (has target s.visited)) [
    | inl known ↦
        Extends-named (λ j. yields_to j ys) (λ j. target == j || yields_to j ys) s s'
          (λ j at. ground (arith, at)) (λ _ j at. ground (arith, at, known, eq_iff target j))
          (visit-Extends ys s s' open_ (ground (arith, known, q)))
    | inr found ↦ elim (Bool-cases (leb max_nodes (length (put target via s.visited) - 1))) [
      | inl full ↦
          let last : with_node target via true s ≡ s' =
            ok-injective (ground (arith, found, full, q)) in
          subst (Extends (λ j. target == j || yields_to j ys) s) last (
            Extends-named (λ j. target == j) (λ j. target == j || yields_to j ys) s
              (with_node target via true s) (λ j at. ground (arith, at))
              (λ o j at. absurd (ground (arith, o))) (Extends-with_node target via true s))
      | inr room ↦
          Extends-trans (λ j. target == j) (λ j. yields_to j ys) s
            (with_node target via s.overflow_remaining s) s' open_
            (Extends-with_node target via s.overflow_remaining s)
            (visit-Extends ys (with_node target via s.overflow_remaining s) s' open_
              (ground (arith, found, room, q)))
    ]
  ]

  -- The node is a neighbour of one of the frontier.
  abbrev pub borders : NodeId → List NodeId → Bool
  borders j [] = false
  borders j (i ∷ frontier) = yields_to j (neighbours_of i) || borders j frontier

  pub visit_all-Extends :
      (frontier : List NodeId) (s s' : Search)
      → s.overflow_remaining ≡ false
      → visit_all neighbours_of in_order max_nodes frontier s ≡ ok s'
      → Extends (λ j. borders j frontier) s s'
  unfolding visit_all
  visit_all-Extends [] s s' open_ q =
      subst (Extends (λ _. false) s) (ok-injective q) (Extends-refl s)
  visit_all-Extends (i ∷ frontier) s s' open_ q =
      let (s₁, one, rest) =
        >>=-eq-ok (visit neighbours_of in_order max_nodes (neighbours_of i) s)
          (λ x.
            if x.overflow_remaining
            then ok x
            else visit_all neighbours_of in_order max_nodes frontier x)
          q in
      let first = visit-Extends (neighbours_of i) s s₁ open_ one in
      elim (Bool-cases s₁.overflow_remaining) [
        | inl full ↦
            let last : s₁ ≡ s' = ok-injective (rw full at rest) in
            subst (Extends (λ j. borders j (i ∷ frontier)) s) last (
              Extends-named (λ j. yields_to j (neighbours_of i)) (λ j. borders j (i ∷ frontier)) s
                s₁ (λ j at. ground (arith, at)) (λ o j at. absurd (ground (arith, o, full))) first)
        | inr room ↦
            Extends-trans (λ j. yields_to j (neighbours_of i)) (λ j. borders j frontier) s s₁ s'
              room first (visit_all-Extends frontier s₁ s' room (rw room at rest))
      ]
