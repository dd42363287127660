-- ===== src/Explore/Reach.antt =====
-- The search of `_render_explore` in agent_pinboard/tools.py against the nodes within a distance.
use agent_pinboard.Prelude.{
  ℕ, zero, suc, ◌≡◌, refl, ap, subst, ◌≢◌, none, some, List, [], ◌∷◌, Bool, true, false,
  if◌then◌else◌, string_eq, get, contains, eq_iff, arith, Bool-cases, inl, inr, List-cases,
}
use agent_pinboard.Models.{ok, >>=-eq-ok, ok-injective, NodeId, Direction, FactEdge, Node}
use agent_pinboard.Networkx.{MultiDiGraph}
use agent_pinboard.Graph.{FactGraph}
use agent_pinboard.Explore.{Yields, Visited, has, Search, visit_all, search, neighbours, started}
use agent_pinboard.Explore.Steps.{Walk}
use agent_pinboard.Explore.Walks.{Reach-iff}
use agent_pinboard.Explore.Rounds.{Extends, borders, visit_all-Extends}
use agent_pinboard.Explore.Layers.{
  Reach, Reach-refl, Reach-suc, IsLayered, round_all, round-IsLayered, round_sound, closed-Reach,
}

module _ (neighbours_of : NodeId → Yields) (in_order : List NodeId → List NodeId) (max_nodes : ℕ)
    (same : (i : NodeId) (l : List NodeId) → contains i (in_order l) ≡ contains i l) where
  abbrev Layered : List NodeId → Visited → Type 0
  Layered frontier visited = IsLayered neighbours_of in_order max_nodes same frontier visited

  -- What a search of `n` rounds from `visited` ends with.
  pub record IsExplored (n : ℕ) (visited out : Visited) (overflow : Bool) : Type 0 where
    pub grows : (i : NodeId) → has i visited ≡ true → has i out ≡ true
    pub sound :
        (j : NodeId)
        → has j out ≡ true
        → (i : NodeId) × (has i visited ≡ true) × Reach neighbours_of n i j
    pub complete :
        overflow ≡ false
        → (i j : NodeId) → has i visited ≡ true
        → Reach neighbours_of n i j
        → has j out ≡ true

  module _ (n : ℕ) (frontier : List NodeId) (visited : Visited) (s : Search)
      (layered : Layered frontier visited)
      (extends : Extends
        (λ j. borders neighbours_of in_order max_nodes j (in_order frontier))
        (record { visited = visited; next_frontier = []; overflow_remaining = false })
        s) where
    round-Reach :
        (j : NodeId)
        → has j s.visited ≡ true
        → (i : NodeId) × (has i visited ≡ true) × Reach neighbours_of (suc n) i j
    round-Reach j at =
        elim (round_sound neighbours_of in_order max_nodes same frontier visited s layered extends j
          at) [
            | inl old ↦ (j, old, inl refl)
            | inr (i, there, to) ↦ (i, there, inr (j, to, Reach-refl neighbours_of n j))
          ]

    full-IsExplored :
        (overflow : Bool) → overflow ≡ true → IsExplored (suc n) visited s.visited overflow
    full-IsExplored overflow full = record {
      grows = extends.grows;
      sound = round-Reach;
      complete = λ o i j at walk. absurd (ground (arith, full, o));
    }

    done-IsExplored :
        (overflow : Bool)
        → s.overflow_remaining ≡ false
        → s.next_frontier ≡ []
        → IsExplored (suc n) visited s.visited overflow
    done-IsExplored overflow open_ empty_ = record {
      grows = extends.grows;
      sound = round-Reach;
      complete = λ _ i j at walk.
          closed-Reach neighbours_of in_order max_nodes same s.visited (suc n) i j
            (subst (λ l. Layered l s.visited) empty_
              (round-IsLayered neighbours_of in_order max_nodes same frontier visited s layered
                extends open_))
            (extends.grows i at) walk;
    }

    more-IsExplored :
        (out : Visited) (overflow : Bool)
        → s.overflow_remaining ≡ false
        → IsExplored n s.visited out overflow
        → IsExplored (suc n) visited out overflow
    more-IsExplored out overflow open_ h = record {
      grows = λ i at. h.grows i (extends.grows i at);
      sound = λ j at.
          let (k, there, walk) = h.sound j at in
          elim (round_sound neighbours_of in_order max_nodes same frontier visited s layered extends
            k there) [
              | inl old ↦ (k, old, Reach-suc neighbours_of n k j walk)
              | inr (i, before, to) ↦ (i, before, inr (k, to, walk))
            ];
      complete = λ o i j at walk. elim walk [
        | inl same_node ↦ subst (λ x. has x out ≡ true) same_node (h.grows i (extends.grows i at))
        | inr (k, to, rest) ↦
            h.complete o k j
              (round_all neighbours_of in_order max_nodes same frontier visited s layered extends i
                k open_ at to)
              rest
      ];
    }

  search-IsExplored :
      (n : ℕ) (frontier : List NodeId) (visited out : Visited) (overflow : Bool)
      → Layered frontier visited
      → search neighbours_of in_order max_nodes n frontier visited ≡ ok (out, overflow)
      → IsExplored n visited out overflow
  unfolding search
  search-IsExplored zero frontier visited out overflow layered q =
      let same_out : visited ≡ out = ap (λ (x : Visited × Bool). x.0) (ok-injective q) in
      subst (λ o. IsExplored zero visited o overflow) same_out
        (record {
          grows = λ i h. h;
          sound = λ j h. (j, h, refl);
          complete = λ _ i j h walk. subst (λ x. has x visited ≡ true) walk h;
        })
  search-IsExplored (suc n) frontier visited out overflow layered q =
      let (s, ran, rest) =
        >>=-eq-ok
          (visit_all neighbours_of in_order max_nodes (in_order frontier)
            (record { visited = visited; next_frontier = []; overflow_remaining = false }))
          (λ s. if s.overflow_remaining then ok (s.visited, true) else elim s.next_frontier [
            | [] ↦ ok (s.visited, false)
            | _ ∷ _ ↦ search neighbours_of in_order max_nodes n s.next_frontier s.visited
          ])
          q in
      let extends =
        visit_all-Extends neighbours_of in_order max_nodes (in_order frontier)
          (record { visited = visited; next_frontier = []; overflow_remaining = false }) s refl
          ran in
      elim (Bool-cases s.overflow_remaining) [
        | inl full ↦
            let last : Path (Visited × Bool) (s.visited, true) (out, overflow) =
              ok-injective (ground (arith, full, rest)) in
            subst (λ (x : Visited × Bool). IsExplored (suc n) visited x.0 x.1) last
              (full-IsExplored n frontier visited s layered extends true refl)
        | inr open_ ↦ elim (List-cases s.next_frontier) [
          | inl empty_ ↦
              let last : Path (Visited × Bool) (s.visited, false) (out, overflow) =
                ok-injective (ground (arith, open_, empty_, rest)) in
              subst (λ (x : Visited × Bool). IsExplored (suc n) visited x.0 x.1) last
                (done-IsExplored n frontier visited s layered extends false open_ empty_)
          | inr (x, xs, more) ↦
              more-IsExplored n frontier visited s layered extends out overflow open_ (
                search-IsExplored n s.next_frontier s.visited out overflow
                  (round-IsLayered neighbours_of in_order max_nodes same frontier visited s layered
                    extends open_)
                  (ground (arith, open_, more, rest)))
        ]
      ]

module _ (nx : MultiDiGraph Node FactEdge) (graph : FactGraph nx.Graph) (direction : Direction)
    (skip_events : Bool) where
  -- The start and the nodes within the depth of it are what an exploration visits; if it met its
  -- limit, then all that it visits is within the depth.
  pub record IsWithin (depth : ℕ) (start_id : NodeId) (out : Visited) (overflow : Bool)
      : Type 0 where
    pub sound :
        (j : NodeId) → has j out ≡ true → Walk nx graph direction skip_events depth start_id j
    pub complete :
        overflow ≡ false
        → (j : NodeId) → Walk nx graph direction skip_events depth start_id j
        → has j out ≡ true

  within :
      (in_order : List NodeId → List NodeId) (max_nodes depth : ℕ) (start_id : NodeId)
      (out : Visited) (overflow : Bool)
      → ((i : NodeId) (l : List NodeId) → contains i (in_order l) ≡ contains i l)
      → ((i : NodeId) → nx.node i graph.g ≢ some none)
      → search
          (neighbours nx graph direction skip_events)
          in_order
          max_nodes
          depth
          (start_id ∷ [])
          (started nx graph start_id)
        ≡ ok (out, overflow)
      → IsWithin depth start_id out overflow
  unfolding contains get
  within in_order max_nodes depth start_id out overflow same whole q =
      let explored =
        search-IsExplored (neighbours nx graph direction skip_events) in_order max_nodes same depth
          (start_id ∷ []) (started nx graph start_id) out overflow
          (record { known = λ i h. ground (arith, h); closed = λ i j at to. ground (arith, at) })
          q in
      let steps = Reach-iff nx graph whole direction skip_events depth in
      record {
        sound = λ j at.
            let (i, from, walk) = explored.sound j at in
            subst (λ x. Walk nx graph direction skip_events depth x j)
              (ground (arith, from, eq_iff start_id i)) ((steps i j).0 walk);
        complete = λ o j walk.
            explored.complete o start_id j (ground (arith, eq_iff start_id start_id))
              ((steps start_id j).1 walk);
      }
