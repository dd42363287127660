-- ===== src/Explore/Walks.antt =====
-- Where the exploration of agent_pinboard/tools.py walks: what `_neighbours` yields are the steps that
-- are read off the graph.
use agent_pinboard.Prelude.{
  ℕ, zero, suc, ◌≡◌, ◌≢◌, ◌⊎◌, ◌↔◌, sym, ap, ◌∙◌, subst, none, some, List, [], ◌∷◌, ◌++◌, Bool,
  true, false, ◌==◌, string_eq, contains, eq_iff, arith, Bool-cases, Option-cases, inl, inr,
}
use agent_pinboard.Models.{
  NodeId, EventId, Node, fact, event, EventNode, FactNode, FactEdge, Direction,
}
use agent_pinboard.Networkx.{MultiDiGraph}
use agent_pinboard.Graph.{FactGraph, lookup, edges_for_event}
use agent_pinboard.Graph.Nodes.{Holds}
use agent_pinboard.Explore.{Yields, others, through_events, direct, from_event, neighbours}
use agent_pinboard.Explore.Steps.{
  yields_to-append, Targets, Shares, Through, Steps, Walk, Directly-iff, others_iff, edges_of_held,
  yields_to-from_event,
}
use agent_pinboard.Explore.Rounds.{yields_to}
use agent_pinboard.Explore.Layers.{Reach}

module _ (nx : MultiDiGraph Node FactEdge) (graph : FactGraph nx.Graph)
    (whole : (i : NodeId) → nx.node i graph.g ≢ some none) where
  Shares-skip :
      (i j : NodeId) (k : EventId) (ids : List EventId)
      → ((ev : EventNode) → nx.node k graph.g ≢ some (some (event ev)))
      → Shares nx graph i ids j ↔ Shares nx graph i (k ∷ ids) j
  unfolding contains
  Shares-skip i j k ids no_event = (
    λ (m, ev, at, held, to, ne). (m, ev, ground (arith, at), held, to, ne),
    λ (m, ev, at, held, to, ne). elim (Bool-cases (k == m)) [
      | inl e ↦
          absurd
            (no_event ev (subst (λ x. Holds nx graph.g x (event ev)) (sym ((eq_iff k m).0 e)) held))
      | inr e ↦ (m, ev, ground (arith, e, at), held, to, ne)
    ],
  )

  Shares-event :
      (i j : NodeId) (k : EventId) (ids : List EventId) (ev : EventNode)
      → Holds nx graph.g k (event ev)
      → ((Targets nx graph k j × (j ≢ i)) ⊎ Shares nx graph i ids j) ↔ Shares nx graph i (k ∷ ids) j
  unfolding contains
  Shares-event i j k ids ev held = (
    λ h. elim h [
      | inl (to, ne) ↦ (k, ev, ground (arith, eq_iff k k), held, to, ne)
      | inr (m, ev', at, held', to, ne) ↦ (m, ev', ground (arith, at), held', to, ne)
    ],
    λ (m, ev', at, held', to, ne). elim (Bool-cases (k == m)) [
      | inl e ↦ inl (subst (λ x. Targets nx graph x j) (sym ((eq_iff k m).0 e)) to, ne)
      | inr e ↦ inr (m, ev', ground (arith, e, at), held', to, ne)
    ],
  )

  through_skip :
      (i j : NodeId) (k : EventId) (ids : List EventId)
      → through_events nx graph i (k ∷ ids) ≡ through_events nx graph i ids
      → ((ev : EventNode) → nx.node k graph.g ≢ some (some (event ev)))
      → (yields_to j (through_events nx graph i ids) ≡ true) ↔ Shares nx graph i ids j
      → (yields_to j (through_events nx graph i (k ∷ ids)) ≡ true) ↔ Shares nx graph i (k ∷ ids) j
  through_skip i j k ids same no_event rest =
      let skip = Shares-skip i j k ids no_event in
      (
        λ h. skip.0 (rest.0 (subst (λ ys. yields_to j ys ≡ true) same h)),
        λ h. subst (λ ys. yields_to j ys ≡ true) (sym same) (rest.1 (skip.1 h)),
      )

  Shares-iff :
      (i j : NodeId) (ids : List EventId)
      → (yields_to j (through_events nx graph i ids) ≡ true) ↔ Shares nx graph i ids j
  unfolding through_events contains lookup
  Shares-iff i j [] =
      (λ h. absurd (ground (arith, h)), λ (_, _, never, _, _, _). absurd (ground (arith, never)))
  Shares-iff i j (k ∷ ids) = elim (Option-cases (nx.node k graph.g)) [
    | inl absent ↦
        through_skip i j k ids (ground (arith, absent)) (λ ev h. absurd (ground (arith, absent, h)))
          (Shares-iff i j ids)
    | inr (none, at) ↦ absurd (whole k at)
    | inr (some (fact f), at) ↦
        through_skip i j k ids (ground (arith, at)) (λ ev h. absurd (ground (arith, at, h)))
          (Shares-iff i j ids)
    | inr (some (event ev), at) ↦
        let here = others nx graph i ev (edges_for_event nx k graph) in
        let same : through_events nx graph i (k ∷ ids) ≡ here ++ through_events nx graph i ids =
          ground (arith, at) in
        let all = ap (yields_to j) same ∙ yields_to-append j here (through_events nx graph i ids) in
        let now = others_iff nx graph whole i j k ev at in
        let rest = Shares-iff i j ids in
        let split = Shares-event i j k ids ev at in
        (
          λ h. split.0 (elim (Bool-cases (yields_to j here)) [
            | inl yes_here ↦ inl (now.0 yes_here)
            | inr not_here ↦ inr (rest.0 (ground (arith, all, h, not_here)))
          ]),
          λ h. elim (split.1 h) [
            | inl one ↦ ground (arith, all, now.1 one)
            | inr more ↦ ground (arith, all, rest.1 more)
          ],
        )
  ]

  from_event_iff :
      (i j : NodeId) (ev : EventNode)
      → Holds nx graph.g i (event ev)
      → (yields_to j (from_event nx graph ev (edges_for_event nx i graph)) ≡ true)
        ↔ Targets nx graph i j
  from_event_iff i j ev at =
      let same =
        ap (λ es. yields_to j (from_event nx graph ev es))
          (edges_of_held nx graph whole i (event ev) at)
        ∙ yields_to-from_event nx graph whole j ev (nx.out_edges i graph.g) in
      (λ h. sym same ∙ h, λ h. same ∙ h)

  -- What is yielded, by what the graph has for the node.
  along-eq :
      {P : Type 0} (j : NodeId) (xs ys : Yields)
      → xs ≡ ys
      → (yields_to j ys ≡ true) ↔ P
      → (yields_to j xs ≡ true) ↔ P
  along-eq j xs ys same h = (
    λ q. h.0 (subst (λ l. yields_to j l ≡ true) same q),
    λ p. subst (λ l. yields_to j l ≡ true) (sym same) (h.1 p),
  )

  Through-iff :
      (direction : Direction) (i j : NodeId)
      → (yields_to j (neighbours nx graph direction true i) ≡ true) ↔ Through nx graph direction i j
  unfolding neighbours lookup
  Through-iff direction i j = elim (Option-cases (nx.node i graph.g)) [
    | inl absent ↦
        let now =
          along-eq j (neighbours nx graph direction true i) (direct nx graph direction i)
            (ground (arith, absent)) (Directly-iff nx graph whole direction i j) in
        (
          λ h. inr (inr (absent, now.0 h)),
          λ h. elim h [
            | inl (f, held, _) ↦ absurd (ground (arith, absent, held))
            | inr (inl (ev, held, _)) ↦ absurd (ground (arith, absent, held))
            | inr (inr (_, step)) ↦ now.1 step
          ],
        )
    | inr (none, at) ↦ absurd (whole i at)
    | inr (some (fact f), at) ↦
        let now =
          along-eq j (neighbours nx graph direction true i)
            (through_events nx graph i f.source_events) (ground (arith, at))
            (Shares-iff i j f.source_events) in
        (
          λ h. inl (f, at, now.0 h),
          λ h. elim h [
            | inl (f', held, shared) ↦
                let same : f' ≡ f = ground (arith, at, held) in
                now.1 (subst (λ (x : FactNode). Shares nx graph i x.source_events j) same shared)
            | inr (inl (ev, held, _)) ↦ absurd (ground (arith, at, held))
            | inr (inr (absent, _)) ↦ absurd (ground (arith, at, absent))
          ],
        )
    | inr (some (event ev), at) ↦
        let now =
          along-eq j (neighbours nx graph direction true i)
            (from_event nx graph ev (edges_for_event nx i graph)) (ground (arith, at))
            (from_event_iff i j ev at) in
        (
          λ h. inr (inl (ev, at, now.0 h)),
          λ h. elim h [
            | inl (f, held, _) ↦ absurd (ground (arith, at, held))
            | inr (inl (_, _, to)) ↦ now.1 to
            | inr (inr (absent, _)) ↦ absurd (ground (arith, at, absent))
          ],
        )
  ]

  neighbours-direct :
      (direction : Direction) (i : NodeId)
      → neighbours nx graph direction false i ≡ direct nx graph direction i
  unfolding neighbours lookup
  neighbours-direct direction i = elim (Option-cases (nx.node i graph.g)) [
    | inl absent ↦ ground (arith, absent)
    | inr (none, at) ↦ absurd (whole i at)
    | inr (some (fact f), at) ↦ ground (arith, at)
    | inr (some (event ev), at) ↦ ground (arith, at)
  ]

  neighbours_iff :
      (direction : Direction) (skip_events : Bool) (i j : NodeId)
      → (yields_to j (neighbours nx graph direction skip_events i) ≡ true)
        ↔ Steps nx graph direction skip_events i j
  neighbours_iff direction false i j =
      along-eq j (neighbours nx graph direction false i) (direct nx graph direction i)
        (neighbours-direct direction i) (Directly-iff nx graph whole direction i j)
  neighbours_iff direction true i j = Through-iff direction i j

  pub Reach-iff :
      (direction : Direction) (skip_events : Bool) (n : ℕ) (i j : NodeId)
      → Reach (neighbours nx graph direction skip_events) n i j
        ↔ Walk nx graph direction skip_events n i j
  Reach-iff direction skip_events zero i j = (λ h. h, λ h. h)
  Reach-iff direction skip_events (suc n) i j = (
    λ h. elim h [
      | inl same ↦ inl same
      | inr (k, to, walk) ↦ inr (
        k,
        (neighbours_iff direction skip_events i k).0 to,
        (Reach-iff direction skip_events n k j).0 walk,
      )
    ],
    λ h. elim h [
      | inl same ↦ inl same
      | inr (k, to, walk) ↦ inr (
        k,
        (neighbours_iff direction skip_events i k).1 to,
        (Reach-iff direction skip_events n k j).1 walk,
      )
    ],
  )
