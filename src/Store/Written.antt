-- ===== src/Store/Written.antt =====
-- What the writers of agent_pinboard/store.py keep of a session.
use agent_pinboard.Prelude.{
  String, ◌≡◌, sym, ◌∙◌, List, [], ◌∷◌, ◌==◌, string_eq, pair_eq, All, arith, eq_iff, Bool-cases,
  false, inl, inr,
}
use agent_pinboard.Models.{NodeId, Node, FactEdge, node_id, edge_id}
use agent_pinboard.Models.Host.{Host}
use agent_pinboard.Networkx.{MultiDiGraph}
use agent_pinboard.Graph.Invariant.{Ids}
use agent_pinboard.Graph.Snapshot.Rebuilt.{WellFormed}
use agent_pinboard.Store.{
  Iso, Dict, Namespace, BaseStore, ns_nodes, ns_edges, node_to_dict, edge_to_dict, put_nodes,
  put_edges, persist_delta,
}
use agent_pinboard.Store.Intact.{
  node_item, edge_item, node_item-put, edge_item-put, node_item-put_edge, edge_item-put_node,
  IsSaved, IsIntact, Ends, persist_delta-IsIntact,
}
use agent_pinboard.Store.Session.{IsStored}

module _ (base : BaseStore) (time : Iso) (thread_id : String) (nx : MultiDiGraph Node FactEdge)
    {host : Host} (ids : Ids host) where
  abbrev Stored : base.Store → Type 0
  Stored s = IsStored base time thread_id nx ids s

  -- A session that reads back, and of which no edge dangles.
  pub record IsSession (s : base.Store) : Type 0 where
    pub stored : IsStored base time thread_id nx ids s
    pub intact : IsIntact base time thread_id s

  put_node-IsStored :
      (n : Node) (s : base.Store)
      → WellFormed nx ids n
      → Stored s
      → Stored (base.put (ns_nodes thread_id) (node_id n) (node_to_dict time n) s)
  put_node-IsStored n s w h =
      let d = node_to_dict time n in
      record {
        nodes = λ k c q. elim (Bool-cases (node_id n == k)) [
          | inl e ↦ (
            n,
            ground (arith, e, q, node_item-put base time thread_id n k d s),
            (eq_iff (node_id n) k).0 e,
            w,
          )
          | inr e ↦ h.nodes k c (ground (arith, e, q, node_item-put base time thread_id n k d s))
        ];
        edges = λ k c q.
            h.edges k c (sym (edge_item-put_node base time thread_id k (node_id n) d s) ∙ q);
      }

  put_edge-IsStored :
      (e : FactEdge) (s : base.Store)
      → Stored s
      → Stored (base.put (ns_edges thread_id) (edge_id e) (edge_to_dict e) s)
  put_edge-IsStored e s h =
      let d = edge_to_dict e in
      record {
        nodes = λ k c q.
            h.nodes k c (sym (node_item-put_edge base time thread_id k (edge_id e) d s) ∙ q);
        edges = λ k c q. elim (Bool-cases (edge_id e == k)) [
          | inl same ↦ (
            e,
            ground (arith, same, q, edge_item-put base time thread_id e k d s),
            (eq_iff (edge_id e) k).0 same,
          )
          | inr other ↦
              h.edges k c (ground (arith, other, q, edge_item-put base time thread_id e k d s))
        ];
      }

  put_nodes-IsStored :
      (ns : List Node) (s : base.Store)
      → All (WellFormed nx ids) ns
      → Stored s
      → Stored (put_nodes base time thread_id ns s)
  unfolding put_nodes
  put_nodes-IsStored [] s w h = h
  put_nodes-IsStored (n ∷ ns) s w h =
      put_nodes-IsStored ns (base.put (ns_nodes thread_id) (node_id n) (node_to_dict time n) s) w.1
        (put_node-IsStored n s w.0 h)

  put_edges-IsStored :
      (es : List FactEdge) (s : base.Store) → Stored s → Stored (put_edges base time thread_id es s)
  unfolding put_edges
  put_edges-IsStored [] s h = h
  put_edges-IsStored (e ∷ es) s h =
      put_edges-IsStored es (base.put (ns_edges thread_id) (edge_id e) (edge_to_dict e) s)
        (put_edge-IsStored e s h)

  -- A delta of well-formed nodes whose edges have both of their ends among them leaves a session
  -- that reads back and of which no edge dangles.
  pub persist_delta-IsSession :
      (nodes : List Node) (edges : List FactEdge) (s : base.Store)
      → All (WellFormed nx ids) nodes
      → All (Ends base time thread_id nodes) edges
      → IsSession s
      → IsSession (persist_delta base time thread_id nodes edges s)
  unfolding persist_delta
  persist_delta-IsSession nodes edges s well ends h = record {
    stored =
        put_edges-IsStored edges (put_nodes base time thread_id nodes s)
          (put_nodes-IsStored nodes s well h.stored);
    intact = (persist_delta-IsIntact base time thread_id nodes edges s ends h.intact).0;
  }

  -- A store that has the same nodes and edges has the same session.
  pub IsSession-same :
      (s s' : base.Store)
      → ((k : NodeId) → node_item base time thread_id k s' ≡ node_item base time thread_id k s)
      → ((k : String) → edge_item base time thread_id k s' ≡ edge_item base time thread_id k s)
      → IsSession s
      → IsSession s'
  IsSession-same s s' same_nodes same_edges h =
      let saved : (i : NodeId)
          → IsSaved base time thread_id i s
          → IsSaved base time thread_id i s' =
        λ i p. record { node = p.node; id = p.id; item = same_nodes i ∙ p.item } in
      record {
        stored = record {
          nodes = λ k d q. h.stored.nodes k d (sym (same_nodes k) ∙ q);
          edges = λ k d q. h.stored.edges k d (sym (same_edges k) ∙ q);
        };
        intact = λ k d q.
            let p = h.intact k d (sym (same_edges k) ∙ q) in
            record {
              edge = p.edge;
              dict = p.dict;
              source = saved p.edge.event_id p.source;
              target = saved p.edge.target_id p.target;
            };
      }

  -- An entry of another namespace leaves it.
  pub IsSession-put :
      (ns : Namespace) (k : String) (d : Dict) (s : base.Store)
      → (ns == ns_nodes thread_id) ≡ false
      → (ns == ns_edges thread_id) ≡ false
      → IsSession s
      → IsSession (base.put ns k d s)
  IsSession-put ns k d s no_node no_edge h =
      IsSession-same s (base.put ns k d s)
        (λ j. ground (arith, no_node, base.item-put ns (ns_nodes thread_id) k j d s))
        (λ j. ground (arith, no_edge, base.item-put ns (ns_edges thread_id) k j d s)) h
