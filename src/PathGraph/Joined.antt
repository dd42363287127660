-- ===== src/PathGraph/Joined.antt =====
-- The facts of an event, as `_build_path_graph` of agent_pinboard/tools.py collects them.
use agent_pinboard.Graph.Nodes.{Holds}
use agent_pinboard.Prelude.{
  none, some, map, Option-cases, ◌≡◌, ◌≢◌, ◌↔◌, sym, ◌∙◌, subst, List, [], ◌∷◌, true, ◌==◌,
  string_eq, contains, arith, eq_iff, Bool-cases, inl, inr,
}
use agent_pinboard.Models.{ok, ◌>>=◌, >>=-eq-ok, ok-injective, NodeId, EventId, FactEdge, Node}
use agent_pinboard.Networkx.{MultiDiGraph}
use agent_pinboard.Graph.{FactGraph, lookup, edges_for_event}
use agent_pinboard.PathGraph.{present_targets, fact_ids_of}

abbrev pub targets : List FactEdge → List NodeId
targets [] = []
targets (e ∷ es) = e.target_id ∷ targets es

module _ (nx : MultiDiGraph Node FactEdge) (graph : FactGraph nx.Graph) where
  -- The event is a node, it has an edge to the node, and the graph holds that node.
  abbrev pub Joins : EventId → NodeId → Type 0
  Joins i x =
      (nx.node i graph.g ≢ none)
      × (contains x (targets (map (λ y. y.2) (nx.out_edges i graph.g))) ≡ true)
      × ((n : Node) × Holds nx graph.g x n)

  present_targets_iff :
      (x : NodeId) (es : List FactEdge) (xs : List NodeId)
      → present_targets nx graph es ≡ ok xs
      → (contains x xs ≡ true)
        ↔ ((contains x (targets es) ≡ true) × ((n : Node) × Holds nx graph.g x n))
  unfolding present_targets lookup contains
  present_targets_iff x [] xs q =
      let same = ok-injective q in
      (λ h. absurd (ground (arith, same, h)), λ h. absurd (ground (arith, h.0)))
  present_targets_iff x (e ∷ es) xs q =
      let (o, read, more) =
        >>=-eq-ok (lookup nx e.target_id graph)
          (λ o. present_targets nx graph es >>= λ rest.
            ok (elim o [ none ↦ rest | some _ ↦ e.target_id ∷ rest ]))
          q in
      let (rest, later, done) =
        >>=-eq-ok (present_targets nx graph es)
          (λ rest. ok (elim o [ none ↦ rest | some _ ↦ e.target_id ∷ rest ])) more in
      let there = present_targets_iff x es rest later in
      let same = ok-injective done in
      elim (Option-cases (nx.node e.target_id graph.g)) [
        | inl absent ↦
            let gone : o ≡ none = ok-injective (sym read ∙ ground (arith, absent)) in
            let all : rest ≡ xs = ground (arith, gone, same) in
            (
              λ h.
                  let (listed, held) = there.0 (ground (arith, all, h)) in
                  (ground (arith, listed), held),
              λ (listed, (n, held)). elim (Bool-cases (e.target_id == x)) [
                | inl here ↦ absurd (ground (arith, eq_iff e.target_id x, here, held, absent))
                | inr other ↦
                    let known = there.1 (ground (arith, other, listed), (n, held)) in
                    ground (arith, all, known)
              ],
            )
        | inr (none, at) ↦ absurd (ground (arith, at, read))
        | inr (some m, at) ↦
            let found : o ≡ some m = ok-injective (sym read ∙ ground (arith, at)) in
            let all : e.target_id ∷ rest ≡ xs = ground (arith, found, same) in
            (
              λ h. elim (Bool-cases (e.target_id == x)) [
                | inl here ↦ (
                  ground (arith, here),
                  (m, subst (λ y. Holds nx graph.g y m) ((eq_iff e.target_id x).0 here) at),
                )
                | inr other ↦
                    let (listed, held) = there.0 (ground (arith, sym all, other, h)) in
                    (ground (arith, listed), held)
              ],
              λ (listed, (n, held)). elim (Bool-cases (e.target_id == x)) [
                | inl here ↦ ground (arith, sym all, here)
                | inr other ↦
                    let known = there.1 (ground (arith, other, listed), (n, held)) in
                    ground (arith, sym all, known)
              ],
            )
      ]

  pub fact_ids_of_iff :
      (i : EventId) (x : NodeId) (xs : List NodeId)
      → fact_ids_of nx graph i ≡ ok xs
      → (contains x xs ≡ true) ↔ Joins i x
  unfolding fact_ids_of edges_for_event contains
  fact_ids_of_iff i x xs q = elim (Option-cases (nx.node i graph.g)) [
    | inl absent ↦
        let bare : edges_for_event nx i graph ≡ [] = ground (arith, absent) in
        let nothing = subst (λ es. present_targets nx graph es ≡ ok xs) bare q in
        (
          λ h. absurd (ground (arith, ((present_targets_iff x [] xs nothing).0 h).0)),
          λ (there, _, _). absurd (there absent),
        )
    | inr (m, at) ↦
        let full : edges_for_event nx i graph ≡ map (λ y. y.2) (nx.out_edges i graph.g) =
          ground (arith, at) in
        let read = subst (λ es. present_targets nx graph es ≡ ok xs) full q in
        let iff = present_targets_iff x (map (λ y. y.2) (nx.out_edges i graph.g)) xs read in
        (
          λ h. (λ absent. absurd (ground (arith, at, absent)), (iff.0 h).0, (iff.0 h).1),
          λ (_, listed, held). iff.1 (listed, held),
        )
  ]
