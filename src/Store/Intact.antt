-- ===== src/Store/Intact.antt =====
-- No edge of the store dangles: what `persist_delta` of agent_pinboard/store.py keeps.
use agent_pinboard.Prelude.{
  String, ◌≡◌, refl, sym, ◌∙◌, ◌⊎◌, Option, some, List, [], ◌∷◌, Bool, true, false, ◌==◌, ◌||◌,
  if◌then◌else◌, string_eq, pair_eq, eq_iff, All, arith, Bool-cases, inl, inr,
}
use agent_pinboard.Models.{NodeId, FactEdge, Node, node_id, edge_id}
use agent_pinboard.Store.{
  Iso, Dict, BaseStore, ns_nodes, ns_edges, node_to_dict, edge_to_dict, put_nodes, put_edges,
  persist_delta,
}

-- One of the nodes has the id.
abbrev pub has_id : NodeId → List Node → Bool
has_id i [] = false
has_id i (n ∷ ns) = node_id n == i || has_id i ns

module _ (base : BaseStore) (time : Iso) (thread_id : String) where
  abbrev pub node_item : NodeId → base.Store → Option Dict
  node_item i s = base.item (ns_nodes thread_id) i s

  abbrev pub edge_item : String → base.Store → Option Dict
  edge_item k s = base.item (ns_edges thread_id) k s

  -- The store has the dict of a node under the node's id.
  pub record IsSaved (i : NodeId) (s : base.Store) : Type 0 where
    pub node : Node
    pub id : node_id node ≡ i
    pub item : node_item i s ≡ some (node_to_dict time node)

  -- Every entry of the edges is the dict of an edge whose two ends are saved.
  pub record IsAttached (d : Dict) (s : base.Store) : Type 0 where
    pub edge : FactEdge
    pub dict : d ≡ edge_to_dict edge
    pub source : IsSaved edge.event_id s
    pub target : IsSaved edge.target_id s

  abbrev pub IsIntact : base.Store → Type 0
  IsIntact s = (k : String) (d : Dict) → edge_item k s ≡ some d → IsAttached d s

  -- A node is put over.
  pub node_item-put :
      (n : Node) (i : NodeId) (d : Dict) (s : base.Store)
      → node_item i (base.put (ns_nodes thread_id) (node_id n) d s)
        ≡ (if node_id n == i then some d else node_item i s)
  unfolding ns_nodes
  node_item-put n i d s = ground (
    arith,
    base.item-put (ns_nodes thread_id) (ns_nodes thread_id) (node_id n) i d s,
    eq_iff thread_id thread_id,
  )

  pub edge_item-put :
      (e : FactEdge) (k : String) (d : Dict) (s : base.Store)
      → edge_item k (base.put (ns_edges thread_id) (edge_id e) d s)
        ≡ (if edge_id e == k then some d else edge_item k s)
  unfolding ns_edges
  edge_item-put e k d s = ground (
    arith,
    base.item-put (ns_edges thread_id) (ns_edges thread_id) (edge_id e) k d s,
    eq_iff thread_id thread_id,
  )

  pub node_item-put_edge :
      (i k : String) (d : Dict) (s : base.Store)
      → node_item i (base.put (ns_edges thread_id) k d s) ≡ node_item i s
  unfolding ns_nodes ns_edges
  node_item-put_edge i k d s =
      ground (arith, base.item-put (ns_edges thread_id) (ns_nodes thread_id) k i d s)

  pub edge_item-put_node :
      (k i : String) (d : Dict) (s : base.Store)
      → edge_item k (base.put (ns_nodes thread_id) i d s) ≡ edge_item k s
  unfolding ns_nodes ns_edges
  edge_item-put_node k i d s =
      ground (arith, base.item-put (ns_nodes thread_id) (ns_edges thread_id) i k d s)

  -- Puts under the edges leave the nodes, and the other way round.
  node_item-put_edges :
      (i : String) (es : List FactEdge) (s : base.Store)
      → node_item i (put_edges base time thread_id es s) ≡ node_item i s
  unfolding put_edges
  node_item-put_edges i [] s = refl
  node_item-put_edges i (e ∷ es) s =
      node_item-put_edges i es (base.put (ns_edges thread_id) (edge_id e) (edge_to_dict e) s)
      ∙ node_item-put_edge i (edge_id e) (edge_to_dict e) s

  edge_item-put_nodes :
      (k : String) (ns : List Node) (s : base.Store)
      → edge_item k (put_nodes base time thread_id ns s) ≡ edge_item k s
  unfolding put_nodes
  edge_item-put_nodes k [] s = refl
  edge_item-put_nodes k (n ∷ ns) s =
      edge_item-put_nodes k ns (base.put (ns_nodes thread_id) (node_id n) (node_to_dict time n) s)
      ∙ edge_item-put_node k (node_id n) (node_to_dict time n) s

  IsSaved-put :
      (n : Node) (i : NodeId) (s : base.Store)
      → (node_id n ≡ i) ⊎ IsSaved i s
      → IsSaved i (base.put (ns_nodes thread_id) (node_id n) (node_to_dict time n) s)
  IsSaved-put n i s h = elim (Bool-cases (node_id n == i)) [
    | inl same ↦ record {
      node = n;
      id = (eq_iff (node_id n) i).0 same;
      item = node_item-put n i (node_to_dict time n) s ∙ ground (arith, same);
    }
    | inr other ↦ elim h [
      | inl same ↦ absurd (ground (arith, other, (eq_iff (node_id n) i).1 same))
      | inr saved ↦ record {
        node = saved.node;
        id = saved.id;
        item = node_item-put n i (node_to_dict time n) s ∙ ground (arith, other, saved.item);
      }
    ]
  ]

  put_nodes-IsSaved :
      (ns : List Node) (i : NodeId) (s : base.Store)
      → (has_id i ns ≡ true) ⊎ IsSaved i s
      → IsSaved i (put_nodes base time thread_id ns s)
  unfolding put_nodes
  put_nodes-IsSaved [] i s (inl h) = absurd (ground (arith, h))
  put_nodes-IsSaved [] i s (inr h) = h
  put_nodes-IsSaved (n ∷ ns) i s (inr h) =
      put_nodes-IsSaved ns i (base.put (ns_nodes thread_id) (node_id n) (node_to_dict time n) s)
        (inr (IsSaved-put n i s (inr h)))
  put_nodes-IsSaved (n ∷ ns) i s (inl h) = elim (Bool-cases (node_id n == i)) [
    | inl same ↦
        put_nodes-IsSaved ns i (base.put (ns_nodes thread_id) (node_id n) (node_to_dict time n) s)
          (inr (IsSaved-put n i s (inl ((eq_iff (node_id n) i).0 same))))
    | inr other ↦
        put_nodes-IsSaved ns i (base.put (ns_nodes thread_id) (node_id n) (node_to_dict time n) s)
          (inl (ground (arith, h, other)))
  ]

  -- An entry of the edges is one that was put or one that was there.
  edge_item-put_edges :
      (k : String) (d : Dict) (es : List FactEdge) (P : FactEdge → Type 0) (s : base.Store)
      → All P es
      → edge_item k (put_edges base time thread_id es s) ≡ some d
      → ((e : FactEdge) × (d ≡ edge_to_dict e) × P e) ⊎ (edge_item k s ≡ some d)
  unfolding put_edges
  edge_item-put_edges k d [] P s h q = inr q
  edge_item-put_edges k d (e ∷ es) P s h q =
      elim (edge_item-put_edges k d es P
        (base.put (ns_edges thread_id) (edge_id e) (edge_to_dict e) s) h.1 q) [
          | inl found ↦ inl found
          | inr old ↦
              let at = sym (edge_item-put e k (edge_to_dict e) s) ∙ old in
              elim (Bool-cases (edge_id e == k)) [
                | inl same ↦ inl (e, ground (arith, at, same), h.0)
                | inr other ↦ inr (ground (arith, at, other))
              ]
        ]

  -- Both ends of the edge are among the nodes.
  abbrev pub Ends : List Node → FactEdge → Type 0
  Ends ns e = (has_id e.event_id ns ≡ true) × (has_id e.target_id ns ≡ true)

  -- A delta whose edges have both of their ends among its nodes leaves no dangling edge in a store
  -- that had none, and the nodes that were saved are still there.
  pub persist_delta-IsIntact :
      (nodes : List Node) (edges : List FactEdge) (s : base.Store)
      → All (Ends nodes) edges
      → IsIntact s
      → IsIntact (persist_delta base time thread_id nodes edges s)
        × ((i : NodeId) → IsSaved i s → IsSaved i (persist_delta base time thread_id nodes edges s))
  unfolding persist_delta
  persist_delta-IsIntact nodes edges s ends intact =
      let s' = put_nodes base time thread_id nodes s in
      let saved : (i : NodeId)
          → (has_id i nodes ≡ true) ⊎ IsSaved i s
          → IsSaved i (put_edges base time thread_id edges s') =
        λ i h.
          let there = put_nodes-IsSaved nodes i s h in
          record {
            node = there.node;
            id = there.id;
            item = node_item-put_edges i edges s' ∙ there.item;
          } in
      (
        λ k d q. elim (edge_item-put_edges k d edges (Ends nodes) s' ends q) [
          | inl (e, same, both) ↦ record {
            edge = e;
            dict = same;
            source = saved e.event_id (inl both.0);
            target = saved e.target_id (inl both.1);
          }
          | inr old ↦
              let at = intact k d (sym (edge_item-put_nodes k nodes s) ∙ old) in
              record {
                edge = at.edge;
                dict = at.dict;
                source = saved at.edge.event_id (inr at.source);
                target = saved at.edge.target_id (inr at.target);
              }
        ],
        λ i h. saved i (inr h),
      )
