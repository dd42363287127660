-- ===== src/Explore/Limit.antt =====
-- How many nodes the search of `_render_explore` in agent_pinboard/tools.py visits.
use agent_pinboard.Prelude.{
  ℕ, zero, suc, ◌-◌, ◌≤◌, ◌≡◌, ◌≢◌, refl, subst, ◌∙◌, some, none, List, [], ◌∷◌, Bool, true, false,
  if◌then◌else◌, string_eq, leb, put, add, length, length-put_le, List-cases, arith, Bool-cases,
  inl, inr,
}
use agent_pinboard.Graph.Nodes.{Holds}
use agent_pinboard.Models.{
  fact, FactNode, ok, raise, >>=-eq-ok, ok-injective, NodeId, Direction, FactEdge, Node,
}
use agent_pinboard.Networkx.{MultiDiGraph}
use agent_pinboard.Graph.{FactGraph}
use agent_pinboard.Explore.{
  Yields, Visited, has, Search, visit, visit_all, search, neighbours, explore, started,
}
use agent_pinboard.Explore.Returns.{explore_held, search-Returns, neighbours-Quiet}

-- At most `b` nodes, the start among them, and one more if the limit was met.
record Fits (b : ℕ) (s : Search) : Type 0 where
  open_ : s.overflow_remaining ≡ false → length s.visited ≤ b
  any : length s.visited ≤ suc b

module _ (neighbours_of : NodeId → Yields) (in_order : List NodeId → List NodeId) (max_nodes b : ℕ)
    (limit : max_nodes ≤ b) where
  visit-Fits :
      (ys : Yields) (s s' : Search)
      → s.overflow_remaining ≡ false
      → Fits b s
      → visit neighbours_of in_order max_nodes ys s ≡ ok s'
      → Fits b s'
  unfolding visit
  visit-Fits [] s s' o h q = subst (Fits b) (ok-injective q) h
  visit-Fits (raise e ∷ ys) s s' o h q = absurd (ground (arith, q))
  visit-Fits (ok (target, via) ∷ ys) s s' o h q =
      let grown = length-put_le target via s.visited in
      let next : Search = record s {
        visited = put target via s.visited;
        next_frontier = add target s.next_frontier;
      } in
      elim (Bool-cases (has target s.visited)) [
        | inl known ↦ visit-Fits ys s s' o h (ground (arith, known, q))
        | inr found ↦ elim (Bool-cases (leb max_nodes (length (put target via s.visited) - 1))) [
          | inl full ↦
              let last : record next { overflow_remaining = true } ≡ s' =
                ok-injective (ground (arith, found, full, q)) in
              subst (Fits b) last (record {
                open_ = λ no. absurd (ground (arith, no));
                any = omega (arith, grown, h.open_ o);
              })
          | inr room ↦
              visit-Fits ys next s' o
                (record {
                  open_ = λ _. ground (arith, room, limit, grown, h.open_ o);
                  any = omega (arith, grown, h.open_ o);
                })
                (ground (arith, found, room, q))
        ]
      ]

  visit_all-Fits :
      (frontier : List NodeId) (s s' : Search)
      → s.overflow_remaining ≡ false
      → Fits b s
      → visit_all neighbours_of in_order max_nodes frontier s ≡ ok s'
      → Fits b s'
  unfolding visit_all
  visit_all-Fits [] s s' o h q = subst (Fits b) (ok-injective q) h
  visit_all-Fits (i ∷ frontier) s s' o h q =
      let (s₁, one, rest) =
        >>=-eq-ok (visit neighbours_of in_order max_nodes (neighbours_of i) s)
          (λ x.
            if x.overflow_remaining
            then ok x
            else visit_all neighbours_of in_order max_nodes frontier x)
          q in
      let first = visit-Fits (neighbours_of i) s s₁ o h one in
      elim (Bool-cases s₁.overflow_remaining) [
        | inl full ↦ subst (Fits b) (ok-injective (rw full at rest)) first
        | inr room ↦ visit_all-Fits frontier s₁ s' room first (rw room at rest)
      ]

  search_limit :
      (n : ℕ) (frontier : List NodeId) (visited : Visited) (r : Visited × Bool)
      → length visited ≤ b
      → search neighbours_of in_order max_nodes n frontier visited ≡ ok r
      → length r.0 ≤ suc b
  unfolding search
  search_limit zero frontier visited r h q =
      subst (λ (x : Visited × Bool). length x.0 ≤ suc b) (ok-injective q) (omega (arith, h))
  search_limit (suc n) frontier visited r h q =
      let first : Search = record {
        visited = visited;
        next_frontier = [];
        overflow_remaining = false;
      } in
      let (s, ran, rest) =
        >>=-eq-ok (visit_all neighbours_of in_order max_nodes (in_order frontier) first)
          (λ s. if s.overflow_remaining then ok (s.visited, true) else elim s.next_frontier [
            | [] ↦ ok (s.visited, false)
            | _ ∷ _ ↦ search neighbours_of in_order max_nodes n s.next_frontier s.visited
          ])
          q in
      let fits =
        visit_all-Fits (in_order frontier) first s refl
          (record { open_ = λ _. h; any = omega (arith, h) }) ran in
      elim (Bool-cases s.overflow_remaining) [
        | inl full ↦
            let last : Path (Visited × Bool) (s.visited, true) r =
              ok-injective (ground (arith, full, rest)) in
            subst (λ (x : Visited × Bool). length x.0 ≤ suc b) last fits.any
        | inr room ↦ elim (List-cases s.next_frontier) [
          | inl empty_ ↦
              let last : Path (Visited × Bool) (s.visited, false) r =
                ok-injective (ground (arith, room, empty_, rest)) in
              subst (λ (x : Visited × Bool). length x.0 ≤ suc b) last fits.any
          | inr (x, xs, more) ↦
              search_limit n s.next_frontier s.visited r (fits.open_ room)
                (ground (arith, room, more, rest))
        ]
      ]

-- In a graph whose nodes all have their objects an exploration from a fact returns, and apart from its
-- start it visits at most `max_nodes` nodes, or one where that is 0.
pub explore_limit :
    (nx : MultiDiGraph Node FactEdge) (graph : FactGraph nx.Graph) (direction : Direction)
    (skip_events : Bool) (in_order : List NodeId → List NodeId) (max_nodes depth : ℕ)
    (start_id : NodeId) (start : FactNode) (b : ℕ)
    → 1 ≤ b
    → max_nodes ≤ b
    → ((i : NodeId) → nx.node i graph.g ≢ some none)
    → Holds nx graph.g start_id (fact start)
    → (out : Visited) × (overflow : Bool) × (explore nx graph in_order depth direction skip_events
          max_nodes start_id
        ≡ ok (out, overflow))
      × (length out ≤ suc b)
explore_limit nx graph direction skip_events in_order max_nodes depth start_id start b one limit
      whole held =
    let near = neighbours nx graph direction skip_events in
    let (r, q) =
      search-Returns near in_order max_nodes (neighbours-Quiet nx graph whole direction skip_events)
        depth (start_id ∷ []) (started nx graph start_id) in
    (
      r.0,
      r.1,
      explore_held nx graph direction skip_events in_order max_nodes depth start_id start held ∙ q,
      search_limit near in_order max_nodes b limit depth (start_id ∷ []) (started nx graph start_id)
          r (omega (arith, one)) q,
    )
