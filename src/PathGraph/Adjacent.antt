-- ===== src/PathGraph/Adjacent.antt =====
-- Two facts are adjacent in the graph of `find_path` (agent_pinboard/tools.py) exactly when they share
-- an event.
use agent_pinboard.Prelude.{
  none, some, All, ℕ, String, ◌≡◌, ◌≢◌, ◌↔◌, refl, sym, ◌∙◌, subst, ◌⊎◌, List, [], ◌∷◌, true, false,
  ◌==◌, ◌&&◌, ◌||◌, string_eq, contains, arith, eq_iff, Bool-cases, inl, inr,
}
use agent_pinboard.Models.{
  ok, ◌>>=◌, >>=-eq-ok, ok-injective, NodeId, EventId, FactNode, FactEdge, Node, event_node_type,
}
use agent_pinboard.Networkx.{MultiDiGraph}
use agent_pinboard.Graph.{FactGraph, ids_of, lookup}
use agent_pinboard.PathGraph.Returns.{AllHeld, all_facts-Returns, link_events-Returns}
use agent_pinboard.PathGraph.Joined.{Joins, fact_ids_of_iff}
use agent_pinboard.PathGraph.{
  UndirectedGraph, PathGraphOf, all_facts, fact_ids_of, event_label, join_facts, link_one,
  link_pairs, link_events, build_path_graph, annotate,
}

module _ (nx : MultiDiGraph Node FactEdge) (graph : FactGraph nx.Graph)
    (undirected : UndirectedGraph) (isoformat : ℕ → String) (a b : NodeId) where
  adjacent-join_facts :
      (fs : List FactNode) (g : undirected.Proj)
      → undirected.adjacent a b (join_facts nx graph undirected isoformat fs g)
        ≡ undirected.adjacent a b g
  unfolding join_facts
  adjacent-join_facts [] g = refl
  adjacent-join_facts (f ∷ fs) g =
      adjacent-join_facts fs (undirected.join f.id g) ∙ undirected.adjacent-join a b f.id g

  adjacent-link_one :
      (label : String) (x : NodeId) (bs : List NodeId)
      (p : PathGraphOf nx graph undirected isoformat)
      → undirected.adjacent a b (link_one nx graph undirected isoformat label x bs p).0
        ≡ (x == a && contains b bs || (x == b && contains a bs || undirected.adjacent a b p.0))
  unfolding link_one contains
  adjacent-link_one label x [] (g, notes) = ground arith
  adjacent-link_one label x (c ∷ bs) (g, notes) =
      adjacent-link_one label x bs (undirected.link x c g, annotate x c label notes)
      ∙ ground (arith, undirected.adjacent-link a b x c g)

  not_both : (x : NodeId) → a ≢ b → (x == a && x == b) ≡ false
  not_both x ne = elim (Bool-cases (x == a)) [
    | inr e ↦ ground (arith, e)
    | inl e ↦ elim (Bool-cases (x == b)) [
      | inr e' ↦ ground (arith, e, e')
      | inl e' ↦ absurd (ne (sym ((eq_iff x a).0 e) ∙ (eq_iff x b).0 e'))
    ]
  ]

  adjacent-link_pairs :
      (label : String) (xs : List NodeId) (p : PathGraphOf nx graph undirected isoformat)
      → a ≢ b
      → undirected.adjacent a b (link_pairs nx graph undirected isoformat label xs p).0
        ≡ (contains a xs && contains b xs || undirected.adjacent a b p.0)
  unfolding link_pairs contains
  adjacent-link_pairs label [] p ne = ground arith
  adjacent-link_pairs label (x ∷ xs) p ne =
      let off = not_both x ne in
      adjacent-link_pairs label xs (link_one nx graph undirected isoformat label x xs p) ne
      ∙ ground (arith, adjacent-link_one label x xs p, off)

  -- One of the events has edges to both.
  abbrev pub Share : List EventId → Type 0
  Share ids = (i : EventId) × (contains i ids ≡ true) × Joins nx graph i a × Joins nx graph i b

  link_events-Share :
      (ids : List EventId) (p out : PathGraphOf nx graph undirected isoformat)
      → a ≢ b
      → link_events nx graph undirected isoformat ids p ≡ ok out
      → (undirected.adjacent a b out.0 ≡ true) ↔ (Share ids ⊎ (undirected.adjacent a b p.0 ≡ true))
  unfolding link_events contains
  link_events-Share [] p out ne q =
      let same = ok-injective q in
      (
        λ h. inr (subst (λ x. undirected.adjacent a b x.0 ≡ true) (sym same) h),
        λ h. elim h [
          | inl (_, never, _, _) ↦ absurd (ground (arith, never))
          | inr old ↦ subst (λ x. undirected.adjacent a b x.0 ≡ true) same old
        ],
      )
  link_events-Share (i ∷ ids) p out ne q =
      let (ev, seen, rest) =
        >>=-eq-ok (lookup nx i graph)
          (λ ev. fact_ids_of nx graph i >>= λ fact_ids.
            link_events nx graph undirected isoformat ids (
              link_pairs nx graph undirected isoformat (event_label nx graph isoformat ev) fact_ids
                p))
          q in
      let (fact_ids, read, more) =
        >>=-eq-ok (fact_ids_of nx graph i)
          (λ fact_ids. link_events nx graph undirected isoformat ids (
            link_pairs nx graph undirected isoformat (event_label nx graph isoformat ev) fact_ids
              p))
          rest in
      let label = event_label nx graph isoformat ev in
      let next = link_pairs nx graph undirected isoformat label fact_ids p in
      let later = link_events-Share ids next out ne more in
      let here = adjacent-link_pairs label fact_ids p ne in
      (
        λ h. elim (later.0 h) [
          | inl (j, at, has_a, has_b) ↦ inl (j, ground (arith, at), has_a, has_b)
          | inr adj ↦ elim (Bool-cases (undirected.adjacent a b p.0)) [
            | inl old ↦ inr old
            | inr new ↦ inl (
              i,
              ground (arith, eq_iff i i),
              (fact_ids_of_iff nx graph i a fact_ids read).0 (ground (arith, here, adj, new)),
              (fact_ids_of_iff nx graph i b fact_ids read).0 (ground (arith, here, adj, new)),
            )
          ]
        ],
        λ h. elim h [
          | inr old ↦ later.1 (inr (ground (arith, here, old)))
          | inl (j, at, has_a, has_b) ↦ elim (Bool-cases (i == j)) [
            | inr e ↦ later.1 (inl (j, ground (arith, at, e), has_a, has_b))
            | inl e ↦
                let same = sym ((eq_iff i j).0 e) in
                let here_a =
                  (fact_ids_of_iff nx graph i a fact_ids read).1
                    (subst (λ k. Joins nx graph k a) same has_a) in
                let here_b =
                  (fact_ids_of_iff nx graph i b fact_ids read).1
                    (subst (λ k. Joins nx graph k b) same has_b) in
                later.1 (inr (ground (arith, here, here_a, here_b)))
          ]
        ],
      )

  adjacent_iff :
      (out : PathGraphOf nx graph undirected isoformat)
      → a ≢ b
      → build_path_graph nx graph undirected isoformat ≡ ok out
      → (undirected.adjacent a b out.0 ≡ true) ↔ Share (ids_of event_node_type graph.nodes_by_type)
  unfolding build_path_graph
  adjacent_iff out ne q =
      let events = ids_of event_node_type graph.nodes_by_type in
      let (facts, read, rest) =
        >>=-eq-ok (all_facts nx graph graph.nodes_by_type)
          (λ facts.
            link_events nx graph undirected isoformat events
              (join_facts nx graph undirected isoformat facts undirected.none_yet, []))
          q in
      let built =
        link_events-Share events
          (join_facts nx graph undirected isoformat facts undirected.none_yet, []) out ne rest in
      let bare = adjacent-join_facts facts undirected.none_yet ∙ undirected.adjacent-none_yet a b in
      (
        λ h. elim (built.0 h) [
          | inl shared ↦ shared
          | inr early ↦ absurd (ground (arith, early, bare))
        ],
        λ h. built.1 (inl h),
      )

  -- In a graph whose nodes all have their objects and that holds every id of the type index, the graph
  -- of facts is built, and two different nodes are adjacent in it exactly when one of the events of the
  -- index is a node that has edges to both, and the graph holds them.
  pub build_path_graph_iff :
      a ≢ b
      → ((i : NodeId) → nx.node i graph.g ≢ some none)
      → All (λ p. AllHeld nx graph p.1) graph.nodes_by_type
      → (out : PathGraphOf nx graph undirected isoformat) × (build_path_graph nx graph undirected
            isoformat
          ≡ ok out)
        × ((undirected.adjacent a b out.0 ≡ true)
            ↔ Share (ids_of event_node_type graph.nodes_by_type))
  unfolding build_path_graph
  build_path_graph_iff ne whole held =
      let (facts, read) = all_facts-Returns nx graph graph.nodes_by_type held in
      let (out, built) =
        link_events-Returns nx graph whole undirected isoformat
          (ids_of event_node_type graph.nodes_by_type)
          (join_facts nx graph undirected isoformat facts undirected.none_yet, []) in
      let made : build_path_graph nx graph undirected isoformat ≡ ok out =
        ground (arith, read, built) in
      (out, made, adjacent_iff out ne made)
