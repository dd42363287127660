-- ===== src/Graph/Dump/Edges.antt =====
-- The edges of a graph that is loaded from a dump (agent_pinboard/graph.py).
use mathlib.Core.HLevel.{hedberg}
use mathlib.Core.Bool.{Bool-set}
use mathlib.Core.Logic.{∥∥₁_elim}
use mathlib.Core.List.{eq-or-mem_of_mem-cons, not-mem-nil, mem-cons_self, mem-cons_of_mem}
use agent_pinboard.Prelude.{
  String, ◌≡◌, ◌⊎◌, refl, sym, ap, ◌∙◌, subst, Option, some, List, [], ◌∷◌, Bool, true, false, ◌==◌,
  ◌&&◌, ◌||◌, string_eq, All, arith, map, Mem, Bool-cases, Option-cases, inl, inr, eq_iff,
}
use agent_pinboard.Models.{FactEdge, Node, fact, event, edge_id}
use agent_pinboard.Networkx.{MultiDiGraph}
use agent_pinboard.Graph.{FactGraph, empty, add_edge}
use agent_pinboard.Graph.Snapshot.{
  load_node, load_nodes, load_edges, from_snapshot, backfill_node, group_edges, collect_events,
}

-- The edge is between these nodes, with this key.
abbrev at_key : String → String → String → FactEdge → Bool
at_key s t k e = e.event_id == s && (e.target_id == t && edge_id e == k)

abbrev any_at : String → String → String → List FactEdge → Bool
any_at s t k [] = false
any_at s t k (e ∷ es) = at_key s t k e || any_at s t k es

string-Discrete : Discrete String
string-Discrete a b = elim (Bool-cases (a == b)) [
  | inl e ↦ yes ((eq_iff a b).0 e)
  | inr e ↦ no (λ q. absurd (ground (arith, e, (eq_iff a b).1 q)))
]

edge-IsSet : IsSet (Option FactEdge)
edge-IsSet = hlevel (hedberg string-Discrete)

All-edges :
    (P : FactEdge → Type 0) (xs : List (String × String × FactEdge))
    → ((x : String × String × FactEdge) → Mem x xs → P x.2)
    → All P (map (λ x. x.2) xs)
All-edges P [] f = tt
All-edges P (x ∷ xs) f = (f x mem-cons_self, All-edges P xs (λ y m. f y (mem-cons_of_mem x m)))

module _ (nx : MultiDiGraph Node FactEdge) where
  -- Each edge is between the nodes, and under the key, that `add_edge` of FactGraph gives it.
  abbrev pub KeyedEdges : nx.Graph → Type 0
  KeyedEdges g =
      (s t k : String) (e : FactEdge)
      → nx.edge s t k g ≡ some e
      → (e.event_id ≡ s) × (e.target_id ≡ t) × (edge_id e ≡ k)

  module _ (s t k : String) where
    edge-load_nodes :
        (nodes : List Node) (graph : FactGraph nx.Graph)
        → nx.edge s t k (load_nodes nx nodes graph).g ≡ nx.edge s t k graph.g
    unfolding load_nodes load_node
    edge-load_nodes [] graph = refl
    edge-load_nodes (event e ∷ nodes) graph =
        edge-load_nodes nodes (load_node nx (event e) graph)
        ∙ nx.edge-add_node s t k e.id (event e) graph.g
    edge-load_nodes (fact f ∷ nodes) graph =
        edge-load_nodes nodes (load_node nx (fact f) graph)
        ∙ nx.edge-add_node s t k f.id (fact f) graph.g

    edge-load_edges :
        (o : Option FactEdge) (es : List FactEdge) (graph : FactGraph nx.Graph)
        → All (λ e. at_key s t k e ≡ true → some e ≡ o) es
        → (nx.edge s t k graph.g ≡ o) ⊎ (any_at s t k es ≡ true)
        → nx.edge s t k (load_edges nx es graph).g ≡ o
    unfolding load_edges add_edge
    edge-load_edges o [] graph right there = elim there [
      | inl same ↦ same
      | inr never ↦ absurd (ground (arith, never))
    ]
    edge-load_edges o (e ∷ es) graph right there =
        let put = nx.edge-add_edge e.event_id e.target_id (edge_id e) s t k e graph.g in
        edge-load_edges o es (add_edge nx e graph) right.1 (elim (Bool-cases (at_key s t k e)) [
          | inl here ↦ inl (ground (arith, put, here) ∙ right.0 here)
          | inr other ↦ elim there [
            | inl same ↦ inl (ground (arith, put, other) ∙ same)
            | inr later ↦ inr (ground (arith, other, later))
          ]
        ])

    any_at-of_mem :
        (e : FactEdge) (xs : List (String × String × FactEdge))
        → at_key s t k e ≡ true
        → Mem (s, t, e) xs
        → any_at s t k (map (λ x. x.2) xs) ≡ true
    any_at-of_mem e [] at m = absurd (not-mem-nil m)
    any_at-of_mem e (x ∷ xs) at m = ∥∥₁_elim (eq-or-mem_of_mem-cons m) (Bool-set _ _) λ c. elim c [
      | inl same ↦
          ground (arith, at, ap (λ (y : String × String × FactEdge). at_key s t k y.2) same)
      | inr later ↦ ground (arith, any_at-of_mem e xs at later)
    ]

    -- An edge of the graph that is listed is the one that the graph has under its key.
    edge-listed :
        (g : nx.Graph) (x : String × String × FactEdge)
        → KeyedEdges g
        → Mem x (nx.edges g)
        → at_key s t k x.2 ≡ true
        → some x.2 ≡ nx.edge s t k g
    edge-listed g (s', t', e) keyed m here =
        ∥∥₁_elim ((nx.mem-edges s' t' e g).0 m) (edge-IsSet _ _) λ (k', at).
          let (from, to, key) = keyed s' t' k' e at in
          let s_same : s' ≡ s = sym from ∙ (eq_iff e.event_id s).0 (ground (arith, here)) in
          let t_same : t' ≡ t = sym to ∙ (eq_iff e.target_id t).0 (ground (arith, here)) in
          let k_same : k' ≡ k = sym key ∙ (eq_iff (edge_id e) k).0 (ground (arith, here)) in
          sym (
            subst (λ x. nx.edge s t x g ≡ some e) k_same
              (subst (λ x. nx.edge s x k' g ≡ some e) t_same
                (subst (λ x. nx.edge x t' k' g ≡ some e) s_same at)))

    pub edge-from_snapshot :
        (nodes : List Node) (g : nx.Graph)
        → KeyedEdges g
        → nx.edge s t k (from_snapshot nx nodes (map (λ x. x.2) (nx.edges g))).g ≡ nx.edge s t k g
    unfolding from_snapshot empty
    edge-from_snapshot nodes g keyed =
        let es = nx.edges g in
        edge-load_edges (nx.edge s t k g) (map (λ x. x.2) es)
          (load_nodes nx
            (map (backfill_node (group_edges (map (λ x. x.2) es) []) (collect_events nodes []))
              nodes)
            (empty nx))
          (All-edges (λ e. at_key s t k e ≡ true → some e ≡ nx.edge s t k g) es
            (λ x m here. edge-listed g x keyed m here))
          (elim (Option-cases (nx.edge s t k g)) [
            | inl none_there ↦ inl (
                edge-load_nodes
                  (map
                    (backfill_node (group_edges (map (λ x. x.2) es) []) (collect_events nodes []))
                    nodes)
                  (empty nx)
                ∙ nx.edge-empty s t k
                ∙ sym none_there)
            | inr (e, at) ↦
                let (from, to, key) = keyed s t k e at in
                inr (
                  any_at-of_mem e es
                    (ground (
                      arith,
                      (eq_iff e.event_id s).1 from,
                      (eq_iff e.target_id t).1 to,
                      (eq_iff (edge_id e) k).1 key,
                    ))
                    ((nx.mem-edges s t e g).1 ∣ (k, at) ∣₁))
          ])

  -- The edges of a graph are under their keys once it is loaded, and after `add_edge`.
  pub KeyedEdges-add_edge :
      (e : FactEdge) (graph : FactGraph nx.Graph)
      → KeyedEdges graph.g
      → KeyedEdges (add_edge nx e graph).g
  unfolding add_edge
  KeyedEdges-add_edge e graph keyed s t k e' q =
      let put = nx.edge-add_edge e.event_id e.target_id (edge_id e) s t k e graph.g in
      elim (Bool-cases (at_key s t k e)) [
        | inl here ↦
            let same : e ≡ e' = ground (arith, put, here, q) in
            subst (λ (x : FactEdge). (x.event_id ≡ s) × (x.target_id ≡ t) × (edge_id x ≡ k)) same
              (
                (eq_iff e.event_id s).0 (ground (arith, here)),
                (eq_iff e.target_id t).0 (ground (arith, here)),
                (eq_iff (edge_id e) k).0 (ground (arith, here)),
              )
        | inr other ↦ keyed s t k e' (ground (arith, put, other, q))
      ]

  load_edges-KeyedEdges :
      (es : List FactEdge) (graph : FactGraph nx.Graph)
      → KeyedEdges graph.g
      → KeyedEdges (load_edges nx es graph).g
  unfolding load_edges
  load_edges-KeyedEdges [] graph keyed = keyed
  load_edges-KeyedEdges (e ∷ es) graph keyed =
      load_edges-KeyedEdges es (add_edge nx e graph) (KeyedEdges-add_edge e graph keyed)

  pub from_snapshot-KeyedEdges :
      (nodes : List Node) (edges : List FactEdge) → KeyedEdges (from_snapshot nx nodes edges).g
  unfolding from_snapshot empty
  from_snapshot-KeyedEdges nodes edges =
      let moved = map (backfill_node (group_edges edges []) (collect_events nodes [])) nodes in
      load_edges-KeyedEdges edges (load_nodes nx moved (empty nx)) λ s t k e q.
        absurd (ground (arith, edge-load_nodes s t k moved (empty nx), nx.edge-empty s t k, q))
