-- ===== src/Graph/Snapshot/Loaded.antt =====
-- The graph that `from_snapshot` of agent_pinboard/graph.py builds from well-formed nodes.
use mathlib.Core.Path.{subst₂, ap₂}
use agent_pinboard.Prelude.{
  ◌==◌, string_eq, ◌≡◌, sym, ◌∙◌, subst, ◌⊎◌, inl, inr, List, [], ◌∷◌, map, All, refl, Bool-cases,
  ◌↔◌, arith, All-map, eq_iff,
}
use agent_pinboard.Models.{NodeId, FactEdge, Node, fact, event, node_id, fact_node_id}
use agent_pinboard.Models.Host.{Host}
use agent_pinboard.Networkx.{MultiDiGraph}
use agent_pinboard.Graph.{FactGraph, empty, add_edge, edge_id}
use agent_pinboard.Graph.Nodes.{
  Holds, Holds-add_node_self, Holds-add_node_cases, Holds-add_edge, Holds-add_node_ne,
}
use agent_pinboard.Graph.Invariant.{Ids, IsIndexed, empty-IsIndexed, add_edge-IsIndexed}
use agent_pinboard.Graph.Snapshot.{
  collect_events, group_edges, backfill_node, load_node, load_nodes, load_edges, from_snapshot,
}
use agent_pinboard.Graph.Snapshot.Provenance.{backfill_lem}
use agent_pinboard.Graph.Snapshot.Rebuilt.{WellFormed, load_node-IsIndexed}

abbrev pub backfilled : List Node → List FactEdge → List Node
backfilled nodes edges = map (backfill_node (group_edges edges []) (collect_events nodes [])) nodes

-- The node is one of the list.
abbrev pub Among : Node → List Node → Type 0
Among n [] = ⊥
Among n (m ∷ nodes) = (n ≡ m) ⊎ Among n nodes

module _ (P : Node → Type 0) where
  pub All-Among : (n : Node) (l : List Node) → Among n l → All P l → P n
  All-Among n [] a p = absurd a
  All-Among n (m ∷ l) (inl e) (p, ps) = subst P (sym e) p
  All-Among n (m ∷ l) (inr a) (p, ps) = All-Among n l a ps

  pub All-node_map :
      (f : Node → Node) (l : List Node) → ((n : Node) → P n → P (f n)) → All P l → All P (map f l)
  All-node_map f [] keep p = tt
  All-node_map f (n ∷ l) keep (p, ps) = (keep n p, All-node_map f l keep ps)

  pub All-node_unmap :
      (f : Node → Node) (l : List Node) → ((n : Node) → P (f n) → P n) → All P (map f l) → All P l
  All-node_unmap f [] keep p = tt
  All-node_unmap f (n ∷ l) keep (p, ps) = (keep n p, All-node_unmap f l keep ps)

module _ (nx : MultiDiGraph Node FactEdge) where
  abbrev pub IsPresent : nx.Graph → NodeId → Type 0
  IsPresent g i = (n : Node) × Holds nx g i n

  g-load_node :
      (n : Node) (graph : FactGraph nx.Graph)
      → (load_node nx n graph).g ≡ nx.add_node (node_id n) n graph.g
  unfolding load_node
  g-load_node (fact f) graph = refl
  g-load_node (event e) graph = refl

  load_node_cases :
      (n : Node) (graph : FactGraph nx.Graph) (i : NodeId) (m : Node)
      → Holds nx (load_node nx n graph).g i m
      → ((node_id n ≡ i) × (n ≡ m)) ⊎ Holds nx graph.g i m
  load_node_cases n graph i m h =
      Holds-add_node_cases nx (node_id n) i n m graph.g
        (subst (λ g. Holds nx g i m) (g-load_node n graph) h)

  load_node_self :
      (n : Node) (graph : FactGraph nx.Graph) → Holds nx (load_node nx n graph).g (node_id n) n
  load_node_self n graph =
      subst (λ g. Holds nx g (node_id n) n) (sym (g-load_node n graph))
        (Holds-add_node_self nx (node_id n) n graph.g)

  load_nodes_cases :
      (nodes : List Node) (graph : FactGraph nx.Graph) (i : NodeId) (m : Node)
      → Holds nx (load_nodes nx nodes graph).g i m
      → (Among m nodes × (node_id m ≡ i)) ⊎ Holds nx graph.g i m
  unfolding load_nodes
  load_nodes_cases [] graph i m h = inr h
  load_nodes_cases (n ∷ nodes) graph i m h =
      elim (load_nodes_cases nodes (load_node nx n graph) i m h) [
        | inl (mem, same) ↦ inl (inr mem, same)
        | inr old ↦ elim (load_node_cases n graph i m old) [
          | inl (same, this) ↦ inl (inl (sym this), subst (λ x. node_id x ≡ i) this same)
          | inr older ↦ inr older
        ]
      ]

  IsPresent-load_node :
      (n : Node) (graph : FactGraph nx.Graph) (i : NodeId)
      → IsPresent graph.g i
      → IsPresent (load_node nx n graph).g i
  IsPresent-load_node n graph i (m, h) = elim (Bool-cases (node_id n == i)) [
    | inl e ↦ (
      n,
      subst (λ j. Holds nx (load_node nx n graph).g j n) ((eq_iff (node_id n) i).0 e)
          (load_node_self n graph),
    )
    | inr e ↦ (
      m,
      subst (λ g. Holds nx g i m) (sym (g-load_node n graph))
          (Holds-add_node_ne nx (node_id n) i n m graph.g (λ p. cc ((eq_iff (node_id n) i).1 p)) h),
    )
  ]

  IsPresent-load_nodes :
      (nodes : List Node) (graph : FactGraph nx.Graph) (i : NodeId)
      → IsPresent graph.g i
      → IsPresent (load_nodes nx nodes graph).g i
  unfolding load_nodes
  IsPresent-load_nodes [] graph i h = h
  IsPresent-load_nodes (n ∷ nodes) graph i h =
      IsPresent-load_nodes nodes (load_node nx n graph) i (IsPresent-load_node n graph i h)

  All-loaded :
      (nodes : List Node) (graph : FactGraph nx.Graph)
      → All (λ n. IsPresent (load_nodes nx nodes graph).g (node_id n)) nodes
  unfolding load_nodes
  All-loaded [] graph = tt
  All-loaded (n ∷ nodes) graph = (
    IsPresent-load_nodes nodes (load_node nx n graph) (node_id n) (n, load_node_self n graph),
    All-loaded nodes (load_node nx n graph),
  )

  Holds-load_edges :
      (edges : List FactEdge) (graph : FactGraph nx.Graph) (i : NodeId) (m : Node)
      → Holds nx (load_edges nx edges graph).g i m ↔ Holds nx graph.g i m
  unfolding load_edges add_edge
  Holds-load_edges [] graph i m = (λ h. h, λ h. h)
  Holds-load_edges (e ∷ edges) graph i m =
      let later = Holds-load_edges edges (add_edge nx e graph) i m in
      let here = Holds-add_edge nx e.event_id e.target_id (edge_id e) i e m graph.g in
      (λ h. here.0 (later.0 h), λ h. later.1 (here.1 h))

module _ (nx : MultiDiGraph Node FactEdge) {host : Host} (ids : Ids host) where
  open ids use {Key}

  load_nodes-IsIndexed :
      (nodes : List Node) (graph : FactGraph nx.Graph)
      → All (WellFormed nx ids) nodes
      → IsIndexed nx ids graph
      → IsIndexed nx ids (load_nodes nx nodes graph)
  unfolding load_nodes
  load_nodes-IsIndexed [] graph w h = h
  load_nodes-IsIndexed (n ∷ nodes) graph w h =
      load_nodes-IsIndexed nodes (load_node nx n graph) w.1
        (load_node-IsIndexed nx ids graph h n w.0)

  load_edges-IsIndexed :
      (edges : List FactEdge) (graph : FactGraph nx.Graph)
      → IsIndexed nx ids graph
      → IsIndexed nx ids (load_edges nx edges graph)
  unfolding load_edges
  load_edges-IsIndexed [] graph h = h
  load_edges-IsIndexed (e ∷ edges) graph h =
      load_edges-IsIndexed edges (add_edge nx e graph) (add_edge-IsIndexed nx ids e graph h)

  backfill_node-WellFormed :
      (nodes : List Node) (edges : List FactEdge) (n : Node)
      → WellFormed nx ids n
      → WellFormed nx ids (backfill_node (group_edges edges []) (collect_events nodes []) n)
  unfolding backfill_node
  backfill_node-WellFormed nodes edges (event e) w = w
  backfill_node-WellFormed nodes edges (fact f) (named, key) =
      let same = backfill_lem nodes edges f in
      (
        same.id
            ∙ (named
                ∙ ap₂ (fact_node_id host.digest) (sym same.node_type) (sym same.canonical_value)),
        subst₂ Key (sym same.node_type) (sym same.canonical_value) key,
      )

  All-backfilled :
      (nodes : List Node) (edges : List FactEdge) (l : List Node)
      → All (WellFormed nx ids) l
      → All
          (WellFormed nx ids)
          (map (backfill_node (group_edges edges []) (collect_events nodes [])) l)
  All-backfilled nodes edges [] w = tt
  All-backfilled nodes edges (n ∷ l) w =
      (backfill_node-WellFormed nodes edges n w.0, All-backfilled nodes edges l w.1)

  -- What a graph loaded from these nodes and edges is: its indexes agree, its objects are the
  -- listed nodes with the provenance that the backfill gives them, and each of them is there.
  pub record IsLoaded (nodes : List Node) (edges : List FactEdge) (graph : FactGraph nx.Graph)
      : Type 0 where
    pub indexed : IsIndexed nx ids graph
    pub drawn :
        (i : NodeId) (n : Node)
        → Holds nx graph.g i n
        → Among n (backfilled nodes edges) × (node_id n ≡ i)
    pub present : All (λ n. IsPresent nx graph.g (node_id n)) (backfilled nodes edges)

  -- From facts that have the ids of their keys and events that have UUIDs, `from_snapshot` builds a
  -- graph whose indexes agree. The objects that it holds are the listed nodes, each under its own
  -- id and with the provenance that the backfill derives for it, and every listed node's id holds
  -- one. The keys of the nodes are keys of the session.
  pub from_snapshot-IsLoaded :
      (nodes : List Node) (edges : List FactEdge)
      → All (WellFormed nx ids) nodes
      → IsLoaded nodes edges (from_snapshot nx nodes edges)
  unfolding from_snapshot
  from_snapshot-IsLoaded nodes edges w =
      let listed = backfilled nodes edges in
      let filled = load_nodes nx listed (empty nx) in
      record {
        indexed = load_edges-IsIndexed edges filled (
            load_nodes-IsIndexed listed (empty nx) (All-backfilled nodes edges nodes w)
              (empty-IsIndexed nx ids));
        drawn = λ i n h.
            elim (load_nodes_cases nx listed (empty nx) i n
              ((Holds-load_edges nx edges filled i n).0 h)) [
                | inl there ↦ there
                | inr never ↦ absurd (ground (arith, nx.node-empty i))
              ];
        present =
            All-map (λ n. IsPresent nx filled.g (node_id n))
              (λ n. IsPresent nx (load_edges nx edges filled).g (node_id n)) listed
              (λ n p. (p.0, (Holds-load_edges nx edges filled (node_id n) p.0).1 p.1))
              (All-loaded nx listed (empty nx));
      }
