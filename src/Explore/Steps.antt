-- ===== src/Explore/Steps.antt =====
-- The steps of an exploration in agent_pinboard/tools.py, read off the graph: what `_neighbours` yields.
use agent_pinboard.Prelude.{
  ℕ, zero, suc, String, ◌≡◌, ◌≢◌, ◌⊎◌, ◌↔◌, refl, sym, ap, ◌∙◌, none, some, List, [], ◌∷◌, ◌++◌,
  map, Bool, true, false, ◌==◌, ◌||◌, ◌&&◌, not, string_eq, contains, eq_iff, arith, Bool-cases,
  inl, inr,
}
use agent_pinboard.Models.{
  ok, raise, NodeId, EventId, Node, fact, event, EventNode, FactNode, FactEdge, Direction, out, in_,
  both,
}
use agent_pinboard.Networkx.{MultiDiGraph}
use agent_pinboard.Graph.{FactGraph, edges_for_event}
use agent_pinboard.Graph.Nodes.{Holds}
use agent_pinboard.Explore.{Yields, others, along, outward, inward, direct, from_event}
use agent_pinboard.Explore.Rounds.{yields_to}
use agent_pinboard.Explore.Returns.{edge_via-Returns}

pub yields_to-append :
    (j : NodeId) (xs ys : Yields) → yields_to j (xs ++ ys) ≡ (yields_to j xs || yields_to j ys)
yields_to-append j [] ys = ground arith
yields_to-append j (raise e ∷ xs) ys = yields_to-append j xs ys
yields_to-append j (ok (target, via) ∷ xs) ys = ground (arith, yields_to-append j xs ys)

module _ (nx : MultiDiGraph Node FactEdge) (graph : FactGraph nx.Graph) where
  -- An edge of the graph from `i` to `j`, as it is listed at `i` and at `j`.
  abbrev pub Out : NodeId → NodeId → Type 0
  Out i j = contains j (map (λ x. x.1) (nx.out_edges i graph.g)) ≡ true

  abbrev pub In : NodeId → NodeId → Type 0
  In i j = contains j (map (λ x. x.0) (nx.in_edges i graph.g)) ≡ true

  -- The event has an edge to the fact.
  abbrev pub Targets : EventId → NodeId → Type 0
  Targets k j = contains j (map (λ x. x.2.target_id) (nx.out_edges k graph.g)) ≡ true

  abbrev pub Directly : Direction → NodeId → NodeId → Type 0
  Directly out i j = Out i j
  Directly in_ i j = In i j
  Directly both i j = Out i j ⊎ In i j

  -- `j` is another fact of an event that the fact `f` at `i` names.
  abbrev pub Shares : NodeId → List EventId → NodeId → Type 0
  Shares i ids j =
      (k : EventId) × (ev : EventNode) × (contains k ids ≡ true)
      × Holds nx graph.g k (event ev)
      × Targets k j
      × (j ≢ i)

  -- A step through an event, which is transparent.
  abbrev pub Through : Direction → NodeId → NodeId → Type 0
  Through direction i j =
      ((f : FactNode) × Holds nx graph.g i (fact f) × Shares i f.source_events j)
      ⊎ (((ev : EventNode) × Holds nx graph.g i (event ev) × Targets i j)
          ⊎ ((nx.node i graph.g ≡ none) × Directly direction i j))

  abbrev pub Steps : Direction → Bool → NodeId → NodeId → Type 0
  Steps direction false i j = Directly direction i j
  Steps direction true i j = Through direction i j

  -- `j` is at most `n` steps from `i`.
  abbrev pub Walk : Direction → Bool → ℕ → NodeId → NodeId → Type 0
  Walk direction skip_events zero i j = i ≡ j
  Walk direction skip_events (suc n) i j =
      (i ≡ j) ⊎ ((k : NodeId) × Steps direction skip_events i k × Walk direction skip_events n k j)

  module _ (whole : (i : NodeId) → nx.node i graph.g ≢ some none) where
    yields_to-along :
        (end : String × String × FactEdge → NodeId) (j : NodeId)
        (es : List (String × String × FactEdge))
        → yields_to j (along nx graph end es) ≡ contains j (map end es)
    unfolding along contains
    yields_to-along end j [] = refl
    yields_to-along end j (x ∷ xs) =
        let (via, q) = edge_via-Returns nx graph whole x.2 in
        ground (arith, q, yields_to-along end j xs)

    pub Directly-iff :
        (direction : Direction) (i j : NodeId)
        → (yields_to j (direct nx graph direction i) ≡ true) ↔ Directly direction i j
    Directly-iff out i j =
        let same = yields_to-along (λ x. x.1) j (nx.out_edges i graph.g) in
        (λ h. sym same ∙ h, λ h. same ∙ h)
    Directly-iff in_ i j =
        let same = yields_to-along (λ x. x.0) j (nx.in_edges i graph.g) in
        (λ h. sym same ∙ h, λ h. same ∙ h)
    Directly-iff both i j =
        let outs = yields_to-along (λ x. x.1) j (nx.out_edges i graph.g) in
        let ins = yields_to-along (λ x. x.0) j (nx.in_edges i graph.g) in
        let all = yields_to-append j (outward nx graph i) (inward nx graph i) in
        (
          λ h. elim (Bool-cases (yields_to j (outward nx graph i))) [
            | inl here ↦ inl (sym outs ∙ here)
            | inr not_here ↦ inr (sym ins ∙ ground (arith, all, h, not_here))
          ],
          λ h. elim h [
            | inl at ↦ ground (arith, all, outs, at)
            | inr at ↦ ground (arith, all, ins, at)
          ],
        )

    pub yields_to-from_event :
        (j : NodeId) (ev : EventNode) (xs : List (String × String × FactEdge))
        → yields_to j (from_event nx graph ev (map (λ x. x.2) xs))
          ≡ contains j (map (λ x. x.2.target_id) xs)
    unfolding contains
    yields_to-from_event j ev [] = refl
    yields_to-from_event j ev (x ∷ xs) = ground (arith, yields_to-from_event j ev xs)

    yields_to-others :
        (i j : NodeId) (ev : EventNode) (xs : List (String × String × FactEdge))
        → yields_to j (others nx graph i ev (map (λ x. x.2) xs))
          ≡ (contains j (map (λ x. x.2.target_id) xs) && not (j == i))
    unfolding contains
    yields_to-others i j ev [] = refl
    yields_to-others i j ev ((s, t, e) ∷ xs) =
        let rest = yields_to-others i j ev xs in
        elim (Bool-cases (e.target_id == i)) [
          | inl here ↦
              ground (arith, here, rest, eq_iff e.target_id i, eq_iff e.target_id j, eq_iff j i)
          | inr other ↦
              ground (arith, other, rest, eq_iff e.target_id i, eq_iff e.target_id j, eq_iff j i)
        ]

    pub edges_of_held :
        (i : NodeId) (n : Node)
        → Holds nx graph.g i n
        → edges_for_event nx i graph ≡ map (λ x. x.2) (nx.out_edges i graph.g)
    unfolding edges_for_event
    edges_of_held i n at = ground (arith, at)

    pub others_iff :
        (i j : NodeId) (k : EventId) (ev : EventNode)
        → Holds nx graph.g k (event ev)
        → (yields_to j (others nx graph i ev (edges_for_event nx k graph)) ≡ true)
          ↔ (Targets k j × (j ≢ i))
    others_iff i j k ev at =
        let same =
          ap (λ es. yields_to j (others nx graph i ev es)) (edges_of_held k (event ev) at)
          ∙ yields_to-others i j ev (nx.out_edges k graph.g) in
        (
          λ h. (ground (arith, same, h), λ e. absurd (ground (arith, same, h, (eq_iff j i).1 e))),
          λ (there, ne). elim (Bool-cases (j == i)) [
            | inl e ↦ absurd (ne ((eq_iff j i).0 e))
            | inr e ↦ ground (arith, same, there, e)
          ],
        )
