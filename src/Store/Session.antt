-- ===== src/Store/Session.antt =====
-- A session of agent_pinboard/store.py: what is stored reads back as a graph, and the writers keep
-- it so.
use mathlib.Core.Path.{subst₂, ap₂}
use agent_pinboard.Prelude.{
  String, ◌≡◌, ◌<◌, refl, sym, subst, some, List, [], string_eq, pair_eq, All-map, length,
}
use agent_pinboard.Models.{ok, ◌>>=◌, NodeId, Node, fact, event, FactEdge, node_id, edge_id}
use agent_pinboard.Models.Host.{Host}
use agent_pinboard.Networkx.{MultiDiGraph}
use agent_pinboard.Graph.{FactGraph}
use agent_pinboard.Graph.Nodes.{Holds}
use agent_pinboard.Graph.Invariant.{Ids, IsIndexed}
use agent_pinboard.Graph.Snapshot.{
  from_snapshot, backfill_node, backfill, backfill_from, collect_events, group_edges,
}
use agent_pinboard.Graph.Snapshot.Rebuilt.{WellFormed}
use agent_pinboard.Graph.Snapshot.Loaded.{
  All-Among, All-node_map, All-node_unmap, IsPresent, backfilled, from_snapshot-IsLoaded,
}
use agent_pinboard.Store.{
  Iso, Dict, BaseStore, ns_nodes, ns_edges, node_to_dict, edge_to_dict, node_from_dict,
  edge_from_dict,
}
use agent_pinboard.Store.Codec.{bare, node_from_dict-node_to_dict, edge_from_dict-edge_to_dict}
use agent_pinboard.Store.Intact.{node_item, edge_item}
use agent_pinboard.Store.Api.{scan_limit, read_all, load_graph}
use agent_pinboard.Store.Reading.{
  Corresponds, read_all-Corresponds, Corresponds-get, All-Corresponds,
}

module _ (time : Iso) where
  -- The backfill does not change what a node is written as.
  pub node_to_dict-backfill_node :
      (nodes : List Node) (edges : List FactEdge) (n : Node)
      → (node_to_dict time (backfill_node (group_edges edges []) (collect_events nodes []) n)
          ≡ node_to_dict time n)
        × (node_id (backfill_node (group_edges edges []) (collect_events nodes []) n) ≡ node_id n)
  unfolding node_to_dict backfill_node backfill backfill_from
  node_to_dict-backfill_node nodes edges (event e) = (refl, refl)
  node_to_dict-backfill_node nodes edges (fact f) = (refl, refl)

module _ (base : BaseStore) (time : Iso) (thread_id : String) (nx : MultiDiGraph Node FactEdge)
    {host : Host} (ids : Ids host) where
  abbrev NodeItem : NodeId → base.Store → Node → Type 0
  NodeItem i s n = node_item base time thread_id i s ≡ some (node_to_dict time n)

  -- Each entry of the nodes is the dict of a well-formed node under its id, and each of the edges
  -- is the dict of an edge under its id.
  pub record IsStored (s : base.Store) : Type 0 where
    pub nodes :
        (k : NodeId) (d : Dict)
        → node_item base time thread_id k s ≡ some d
        → (n : Node) × (node_to_dict time n ≡ d) × (node_id n ≡ k) × WellFormed nx ids n
    pub edges :
        (k : String) (d : Dict)
        → edge_item base time thread_id k s ≡ some d
        → (e : FactEdge) × (edge_to_dict e ≡ d) × (edge_id e ≡ k)

  -- The graph's indexes agree, and every object that it holds has in the store the dict that it
  -- would be written with.
  pub record IsDrawn (s : base.Store) (graph : FactGraph nx.Graph) : Type 0 where
    pub indexed : IsIndexed nx ids graph
    pub stored :
        (i : NodeId) (n : Node)
        → Holds nx graph.g i n
        → node_item base time thread_id i s ≡ some (node_to_dict time n)

  -- The graph is the store's: moreover every stored node is held.
  pub record IsLoadOf (s : base.Store) (graph : FactGraph nx.Graph) : Type 0 where
    pub drawn : IsDrawn s graph
    pub present :
        (i : NodeId) (d : Dict)
        → node_item base time thread_id i s ≡ some d
        → IsPresent nx graph.g i

  -- What a node read from an item has to do with it.
  abbrev NodeOf : base.Store → String × Dict → Node → Type 0
  NodeOf s (k, d) n =
      (node_to_dict time n ≡ d)
      × (node_id n ≡ k)
      × WellFormed nx ids n
      × (node_item base time thread_id k s ≡ some d)

  abbrev EdgeOf : String × Dict → FactEdge → Type 0
  EdgeOf (k, d) e = edge_to_dict e ≡ d

  NodeOf-bare : (s : base.Store) (p : String × Dict) (n : Node) → NodeOf s p n → NodeOf s p (bare n)
  unfolding node_to_dict
  NodeOf-bare s p (event e) h = h
  NodeOf-bare s p (fact f) h = h

  read_nodes :
      (s : base.Store)
      → IsStored s
      → (nodes : List Node) × (read_all
            (node_from_dict time)
            (base.search (ns_nodes thread_id) scan_limit s)
          ≡ ok nodes)
        × Corresponds (NodeOf s) (base.search (ns_nodes thread_id) scan_limit s) nodes
  read_nodes s h =
      let items = base.search (ns_nodes thread_id) scan_limit s in
      read_all-Corresponds (NodeOf s) (node_from_dict time) items (
        All-map (λ (p : String × Dict). node_item base time thread_id p.0 s ≡ some p.1)
          (λ p. (n : Node) × (node_from_dict time p.1 ≡ ok n) × NodeOf s p n) items
          (λ p at.
            let (n, dict, id, well) = h.nodes p.0 p.1 at in
            (
              bare n,
              subst (λ d. node_from_dict time d ≡ ok (bare n)) dict
                  (node_from_dict-node_to_dict time n),
              NodeOf-bare s p n (dict, id, well, at),
            ))
          (base.search-item (ns_nodes thread_id) scan_limit s))

  read_edges :
      (s : base.Store)
      → IsStored s
      → (edges : List FactEdge) × (read_all edge_from_dict
            (base.search (ns_edges thread_id) scan_limit s)
          ≡ ok edges)
        × Corresponds EdgeOf (base.search (ns_edges thread_id) scan_limit s) edges
  read_edges s h =
      let items = base.search (ns_edges thread_id) scan_limit s in
      read_all-Corresponds EdgeOf edge_from_dict items (
        All-map (λ (p : String × Dict). edge_item base time thread_id p.0 s ≡ some p.1)
          (λ p. (e : FactEdge) × (edge_from_dict p.1 ≡ ok e) × EdgeOf p e) items
          (λ p at.
            let (e, dict, id) = h.edges p.0 p.1 at in
            (
              e,
              subst (λ d. edge_from_dict d ≡ ok e) dict (edge_from_dict-edge_to_dict time e),
              dict,
            ))
          (base.search-item (ns_edges thread_id) scan_limit s))

  from_stored_part :
      (s : base.Store) (nodes : List Node) (edges : List FactEdge)
      → Corresponds (NodeOf s) (base.search (ns_nodes thread_id) scan_limit s) nodes
      → IsDrawn s (from_snapshot nx nodes edges)
  from_stored_part s nodes edges there =
      let items = base.search (ns_nodes thread_id) scan_limit s in
      let move = backfill_node (group_edges edges []) (collect_events nodes []) in
      let same = node_to_dict-backfill_node time nodes edges in
      let built =
        from_snapshot-IsLoaded nx ids nodes edges
          (All-Corresponds (NodeOf s) (WellFormed nx ids) items nodes (λ p n r. r.2) there) in
      record {
        indexed = built.indexed;
        stored = λ i n held.
            let (among, id) = built.drawn i n held in
            subst (λ j. NodeItem j s n) id
              (All-Among (λ m. NodeItem (node_id m) s m) n (backfilled nodes edges) among
                (All-node_map (λ m. NodeItem (node_id m) s m) move nodes
                  (λ m at.
                    subst₂ (λ j d. node_item base time thread_id j s ≡ some d) (sym (same m).1)
                      (sym (same m).0) at)
                  (All-Corresponds (NodeOf s) (λ m. NodeItem (node_id m) s m) items nodes
                    (λ p m r.
                      subst₂ (λ j d. node_item base time thread_id j s ≡ some d) (sym r.1) (sym r.0)
                        r.3)
                    there)));
      }

  from_stored :
      (s : base.Store) (nodes : List Node) (edges : List FactEdge)
      → length (base.search (ns_nodes thread_id) scan_limit s) < scan_limit
      → Corresponds (NodeOf s) (base.search (ns_nodes thread_id) scan_limit s) nodes
      → IsLoadOf s (from_snapshot nx nodes edges)
  from_stored s nodes edges short there =
      let items = base.search (ns_nodes thread_id) scan_limit s in
      let move = backfill_node (group_edges edges []) (collect_events nodes []) in
      let same = node_to_dict-backfill_node time nodes edges in
      let built =
        from_snapshot-IsLoaded nx ids nodes edges
          (All-Corresponds (NodeOf s) (WellFormed nx ids) items nodes (λ p n r. r.2) there) in
      record {
        drawn = from_stored_part s nodes edges there;
        present = λ i d at.
            let (n, of, held) =
              Corresponds-get (NodeOf s)
                (λ m. IsPresent nx (from_snapshot nx nodes edges).g (node_id m)) i d items nodes
                there
                (All-node_unmap (λ m. IsPresent nx (from_snapshot nx nodes edges).g (node_id m))
                  move nodes (λ m. subst (IsPresent nx (from_snapshot nx nodes edges).g) (same m).1)
                  built.present)
                (base.item-search (ns_nodes thread_id) scan_limit i d s short at) in
            subst (IsPresent nx (from_snapshot nx nodes edges).g) of.1 held;
      }

  -- A session whose entries are dicts of well-formed nodes and of edges, each under its id, and
  -- which has fewer nodes than the limit of a scan, loads. The graph's indexes agree, what it holds
  -- has in the store the dict that it would be written with, and it holds every stored node.
  pub load_graph-IsLoadOf :
      (s : base.Store)
      → IsStored s
      → length (base.search (ns_nodes thread_id) scan_limit s) < scan_limit
      → (graph : FactGraph nx.Graph) × (load_graph base time thread_id nx s ≡ ok graph)
        × IsLoadOf s graph
  unfolding load_graph
  load_graph-IsLoadOf s h short =
      let (nodes, read, there) = read_nodes s h in
      let (edges, joined, _) = read_edges s h in
      (
        from_snapshot nx nodes edges,
        ap₂ (λ ns es. ns >>= λ nodes'. es >>= λ edges'. ok (from_snapshot nx nodes' edges')) read
            joined,
        from_stored s nodes edges short there,
      )

  -- A load of such a session returns, whatever the limit of a scan, and what it holds is stored.
  pub load_graph-IsDrawn :
      (s : base.Store)
      → IsStored s
      → (graph : FactGraph nx.Graph) × (load_graph base time thread_id nx s ≡ ok graph)
        × IsDrawn s graph
  unfolding load_graph
  load_graph-IsDrawn s h =
      let (nodes, read, there) = read_nodes s h in
      let (edges, joined, _) = read_edges s h in
      (
        from_snapshot nx nodes edges,
        ap₂ (λ ns es. ns >>= λ nodes'. es >>= λ edges'. ok (from_snapshot nx nodes' edges')) read
            joined,
        from_stored_part s nodes edges there,
      )
