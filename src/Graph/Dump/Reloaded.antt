-- ===== src/Graph/Dump/Reloaded.antt =====
-- A dumped graph (agent_pinboard/graph.py) loads again.
use mathlib.Core.Path.{ap₂}
use agent_pinboard.Prelude.{
  String, ◌≡◌, refl, sym, ap, ◌∙◌, subst, none, some, List, [], ◌∷◌, string_eq, All, arith, map,
  Mem, ◌≢◌, Option-cases, inl, inr,
}
use agent_pinboard.Models.{ok, ◌>>=◌, NodeId, FactEdge, Node, fact, event, node_id}
use agent_pinboard.Models.Host.{Host}
use agent_pinboard.Networkx.{MultiDiGraph}
use agent_pinboard.Graph.{FactGraph, node_at}
use agent_pinboard.Graph.Nodes.{Holds}
use agent_pinboard.Graph.Invariant.{Ids, IsIndexed}
use agent_pinboard.Graph.Snapshot.{from_snapshot, backfill_node, collect_events, group_edges}
use agent_pinboard.Graph.Snapshot.Rebuilt.{WellFormed, Holds-WellFormed}
use agent_pinboard.Graph.Snapshot.Loaded.{
  All-Among, All-node_map, All-node_unmap, IsPresent, backfilled, from_snapshot-IsLoaded,
}
use agent_pinboard.Store.{Iso, Dict, node_to_dict, node_from_dict, edge_to_dict, edge_from_dict}
use agent_pinboard.Store.Codec.{bare, node_from_dict-node_to_dict, edge_from_dict-edge_to_dict}
use agent_pinboard.Store.Session.{node_to_dict-backfill_node}
use mathlib.Core.List.{mem-cons_self, mem-cons_of_mem}
use agent_pinboard.Graph.Dump.Edges.{KeyedEdges, edge-from_snapshot}
use agent_pinboard.Graph.Dump.{
  Dump, dump_schema, read_dicts, dump_nodes, dump_edges, dump_to_dict, load_from_dict,
}

All-listed : {A : Type 0} (P : A → Type 0) (l : List A) → ((a : A) → Mem a l → P a) → All P l
All-listed P [] f = tt
All-listed P (a ∷ l) f = (f a mem-cons_self, All-listed P l (λ b m. f b (mem-cons_of_mem a m)))

module _ (nx : MultiDiGraph Node FactEdge) (time : Iso) {host : Host} (ids : Ids host)
    (graph : FactGraph nx.Graph) (h : IsIndexed nx ids graph) where
  -- The graph holds a node that is written as this one.
  abbrev WrittenAs : NodeId → Node → Type 0
  WrittenAs i m = (n : Node) × Holds nx graph.g i n × (node_to_dict time m ≡ node_to_dict time n)

  -- The nodes that a dump of these ids reads as.
  record IsDump (is : List NodeId) (ds : List Dict) : Type 0 where
    nodes : List Node
    read : read_dicts (node_from_dict time) ds ≡ ok nodes
    well : All (WellFormed nx ids) nodes
    written : All (λ m. WrittenAs (node_id m) m) nodes
    named : map node_id nodes ≡ is

  bare-WellFormed : (n : Node) → WellFormed nx ids n → WellFormed nx ids (bare n)
  bare-WellFormed (event e) w = w
  bare-WellFormed (fact f) w = w

  bare_same :
      (n : Node)
      → (node_to_dict time (bare n) ≡ node_to_dict time n) × (node_id (bare n) ≡ node_id n)
  unfolding node_to_dict
  bare_same (event e) = (refl, refl)
  bare_same (fact f) = (refl, refl)

  dump_nodes-IsDump :
      (is : List NodeId)
      → All (λ i. (n : Node) × Holds nx graph.g i n) is
      → (ds : List Dict) × (dump_nodes nx time is graph ≡ ok ds) × IsDump is ds
  unfolding dump_nodes read_dicts node_at
  dump_nodes-IsDump [] held =
      ([], refl, record { nodes = []; read = refl; well = tt; written = tt; named = refl })
  dump_nodes-IsDump (i ∷ is) ((n, at), held) =
      let (ds, dumped, rest) = dump_nodes-IsDump is held in
      let (well, id) = Holds-WellFormed nx ids graph h i n at in
      let (same, same_id) = bare_same n in
      let found : node_at nx i graph ≡ ok n = ground (arith, at) in
      (
        node_to_dict time n ∷ ds,
        ap₂ (λ r q. r >>= λ m. q >>= λ l. ok (node_to_dict time m ∷ l)) found dumped,
        record {
          nodes = bare n ∷ rest.nodes;
          read =
              ap₂ (λ r q. r >>= λ m. q >>= λ l. ok (m ∷ l)) (node_from_dict-node_to_dict time n)
                rest.read;
          well = (bare-WellFormed n well, rest.well);
          written =
              (subst (λ j. WrittenAs j (bare n)) (sym (same_id ∙ id)) (n, at, same), rest.written);
          named = ap₂ (λ j js. j ∷ js) (same_id ∙ id) rest.named;
        },
      )

  read_dicts-edges :
      (es : List (String × String × FactEdge))
      → read_dicts edge_from_dict (map (λ x. edge_to_dict x.2) es) ≡ ok (map (λ x. x.2) es)
  unfolding read_dicts
  read_dicts-edges [] = refl
  read_dicts-edges (x ∷ es) =
      ap₂ (λ r q. r >>= λ m. q >>= λ l. ok (m ∷ l)) (edge_from_dict-edge_to_dict time x.2)
        (read_dicts-edges es)

  -- What a dump loads as: the indexes agree, each object that it holds is written as the one that the
  -- dumped graph has under the id, and every node of that graph is held.
  pub record IsReload (graph' : FactGraph nx.Graph) : Type 0 where
    pub indexed : IsIndexed nx ids graph'
    pub drawn :
        (i : NodeId) (m : Node)
        → Holds nx graph'.g i m
        → (n : Node) × Holds nx graph.g i n × (node_to_dict time m ≡ node_to_dict time n)
    pub present : All (IsPresent nx graph'.g) (nx.nodes graph.g)
    pub edges : (s t k : String) → nx.edge s t k graph'.g ≡ nx.edge s t k graph.g

  All-ids :
      (P : NodeId → Type 0) (l : List Node) → All (λ m. P (node_id m)) l → All P (map node_id l)
  All-ids P [] ps = tt
  All-ids P (m ∷ l) (p, ps) = (p, All-ids P l ps)

  reload :
      (ds : List Dict) (d : IsDump (nx.nodes graph.g) ds)
      → KeyedEdges nx graph.g
      → IsReload (from_snapshot nx d.nodes (map (λ x. x.2) (nx.edges graph.g)))
  reload ds d keyed =
      let edges : List FactEdge = map (λ x. x.2) (nx.edges graph.g) in
      let same = node_to_dict-backfill_node time d.nodes edges in
      let move = backfill_node (group_edges edges []) (collect_events d.nodes []) in
      let built = from_snapshot-IsLoaded nx ids d.nodes edges d.well in
      record {
        indexed = built.indexed;
        drawn = λ i m held.
            let (among, id) = built.drawn i m held in
            subst (λ j. WrittenAs j m) id
              (All-Among (λ m. WrittenAs (node_id m) m) m (backfilled d.nodes edges) among
                (All-node_map (λ m. WrittenAs (node_id m) m) move d.nodes
                  (λ m (n, at, w).
                    subst (λ j. WrittenAs j (move m)) (sym (same m).1) (n, at, (same m).0 ∙ w))
                  d.written));
        present = subst (All (IsPresent nx (from_snapshot nx d.nodes edges).g)) d.named (
            All-ids (IsPresent nx (from_snapshot nx d.nodes edges).g) d.nodes (
              All-node_unmap (λ m. IsPresent nx (from_snapshot nx d.nodes edges).g (node_id m)) move
                d.nodes (λ m. subst (IsPresent nx (from_snapshot nx d.nodes edges).g) (same m).1)
                built.present));
        edges = λ s t k. edge-from_snapshot nx s t k d.nodes graph.g keyed;
      }

  -- A graph whose indexes agree, whose nodes all have their objects and whose edges are under the keys
  -- of `add_edge` dumps, and the dump loads: the loaded graph's indexes agree, it has the same edges
  -- under the same keys, each object that it holds is written as the one that the dumped graph has
  -- under the id, and every node of that graph is held.
  pub load_from_dict-dump_to_dict :
      (version : String)
      → ((i : NodeId) → nx.node i graph.g ≢ some none)
      → KeyedEdges nx graph.g
      → (d : Dump) × (graph' : FactGraph nx.Graph) × (dump_to_dict nx time version graph ≡ ok d)
        × (load_from_dict nx time (some d) ≡ ok graph')
        × IsReload graph'
  unfolding dump_to_dict load_from_dict dump_edges
  load_from_dict-dump_to_dict version whole keyed =
      let (ds, dumped, d) = dump_nodes-IsDump (nx.nodes graph.g) (
        All-listed (λ i. (n : Node) × Holds nx graph.g i n) (nx.nodes graph.g)
          (λ i m. elim (Option-cases (nx.node i graph.g)) [
            | inl absent ↦ absurd ((nx.mem-nodes i graph.g).0 m absent)
            | inr (none, at) ↦ absurd (whole i at)
            | inr (some n, at) ↦ (n, at)
          ])) in
      (
        record {
          agent_pinboard_version = some version;
          schema = some dump_schema;
          nodes = some ds;
          edges = some (dump_edges nx time graph);
        },
        from_snapshot nx d.nodes (map (λ x. x.2) (nx.edges graph.g)),
        ap
            (λ r. r >>= λ nodes. ok (record {
              agent_pinboard_version = some version;
              schema = some dump_schema;
              nodes = some nodes;
              edges = some (dump_edges nx time graph);
            }))
            dumped,
        ap₂ (λ r q. r >>= λ nodes. q >>= λ edges. ok (from_snapshot nx nodes edges)) d.read
            (read_dicts-edges (nx.edges graph.g)),
        reload ds d keyed,
      )
