-- ===== src/Graph/Invariant.antt =====
-- The indexes of agent_pinboard/graph.py agree with the nodes: the well-formedness of a `FactGraph`,
-- and the operations that keep it.
use agent_pinboard.Prelude.{
  String, ◌≡◌, ◌≢◌, refl, subst, ap, ◌∙◌, some, none, List, string_eq, pair_eq, get, put,
  get-put_ne, arith, contains, inl, inr,
}
use mathlib.Core.Path.{subst₂}
use agent_pinboard.Models.{
  NodeId, FactNode, EventNode, FactEdge, Node, fact, event, node_type, event_node_type,
  fact_node_id, edge_id,
}
use agent_pinboard.Models.Host.{Host}
use agent_pinboard.Networkx.{MultiDiGraph}
use agent_pinboard.Graph.{FactGraph, index_type, empty, add_event, add_edge}
use agent_pinboard.Graph.Nodes.{
  Listed, Listed-index_type_self, Listed-index_type_mono, Listed-index_type_cases, Holds,
  Holds-add_node_self, Holds-add_node_cases, Holds-add_node_fresh, Holds-add_edge,
}

-- What a session assumes of its identifiers: distinct keys, of those that `Key` holds of, have distinct
-- hashes, and no hash is one of the UUIDs that events get. It asks much of the hash: a theorem that wants
-- `Key` of every canonical form that an entity may have wants a hash without collisions on all of
-- them, which one of 16 digits has only as far as the values of a session go.
pub record Ids (host : Host) : Type 1 where
  pub Key : String → String → Type 0
  pub Uuid : String → Type 0
  pub key_injective :
      (t c t' c' : String)
      → Key t c
      → Key t' c'
      → fact_node_id host.digest t c ≡ fact_node_id host.digest t' c'
      → (t ≡ t') × (c ≡ c')
  pub key_ne_uuid : (t c i : String) → Key t c → Uuid i → fact_node_id host.digest t c ≢ i

module _ (nx : MultiDiGraph Node FactEdge) {host : Host} (ids : Ids host) where
  open ids use {Key, Uuid, key_injective, key_ne_uuid}

  -- What the indexes say of a node that the graph holds.
  abbrev pub Indexed :
      List ((String × String) × NodeId) → List (String × List NodeId) → NodeId → Node → Type 0
  Indexed keys types i (fact f) =
      (f.id ≡ i)
      × (get (f.node_type, f.canonical_value) keys ≡ some i)
      × Listed f.node_type i types
      × Key f.node_type f.canonical_value
  Indexed keys types i (event e) =
      (e.id ≡ i) × (e.node_type ≡ event_node_type) × Listed event_node_type i types × Uuid i

  -- What the graph has for an id of the index of keys.
  abbrev pub HasKey : nx.Graph → String → String → NodeId → Type 0
  HasKey g t c i =
      (f : FactNode) × Holds nx g i (fact f) × (f.node_type ≡ t) × (f.canonical_value ≡ c)

  pub record IsIndexed (graph : FactGraph nx.Graph) : Type 0 where
    pub indexed :
        (i : NodeId) (n : Node)
        → Holds nx graph.g i n
        → Indexed graph.nodes_by_key graph.nodes_by_type i n
    pub keyed :
        (t c : String) (i : NodeId)
        → get (t, c) graph.nodes_by_key ≡ some i
        → (i ≡ fact_node_id host.digest t c) × HasKey graph.g t c i
    pub typed :
        (t : String) (i : NodeId)
        → Listed t i graph.nodes_by_type
        → (n : Node) × Holds nx graph.g i n × (node_type n ≡ t)

  pub empty-IsIndexed : IsIndexed (empty nx)
  unfolding empty contains get
  empty-IsIndexed = record {
    indexed = λ i n h. absurd (ground (arith, nx.node-empty i));
    keyed = λ t c i h. absurd (ground arith);
    typed = λ t i h. absurd (ground arith);
  }

  -- An edge changes no object and no index.
  pub add_edge-IsIndexed :
      (e : FactEdge) (graph : FactGraph nx.Graph)
      → IsIndexed graph
      → IsIndexed (add_edge nx e graph)
  unfolding add_edge
  add_edge-IsIndexed e graph h =
      let same = λ (i : NodeId) (n : Node).
        Holds-add_edge nx e.event_id e.target_id (edge_id e) i e n graph.g in
      record {
        indexed = λ i n q. h.indexed i n ((same i n).0 q);
        keyed = λ t c i q.
            let (named, (f, held, typ, can)) = h.keyed t c i q in
            (named, (f, (same i (fact f)).1 held, typ, can));
        typed = λ t i q. let (n, held, typ) = h.typed t i q in (n, (same i n).1 held, typ);
      }

  pub Indexed-index_type :
      (t : String) (i j : NodeId) (keys : List ((String × String) × NodeId))
      (types : List (String × List NodeId)) (n : Node)
      → Indexed keys types j n
      → Indexed keys (index_type t i types) j n
  Indexed-index_type t i j keys types (fact f) (a, b, c, d) =
      (a, b, Listed-index_type_mono t f.node_type i j types c, d)
  Indexed-index_type t i j keys types (event e) (a, b, c, d) =
      (a, b, Listed-index_type_mono t event_node_type i j types c, d)

  -- A key that is new to the index leaves what the index says of the others.
  pub Indexed-put :
      (k : String × String) (i j : NodeId) (keys : List ((String × String) × NodeId))
      (types : List (String × List NodeId)) (n : Node)
      → get k keys ≡ none
      → Indexed keys types j n
      → Indexed (put k i keys) types j n
  Indexed-put k i j keys types (fact f) absent (a, b, c, d) = (
    a,
    get-put_ne k (f.node_type, f.canonical_value) i keys
          (λ same. cc (ap (λ (x : String × String). get x keys) same))
        ∙ b,
    c,
    d,
  )
  Indexed-put k i j keys types (event e) absent h = h

  pub add_event-IsIndexed :
      (e : EventNode) (graph : FactGraph nx.Graph)
      → IsIndexed graph
      → e.node_type ≡ event_node_type
      → Uuid e.id
      → ((n : Node) → nx.node e.id graph.g ≢ some (some n))
      → IsIndexed (add_event nx e graph)
  unfolding add_event
  add_event-IsIndexed e graph h typ uuid fresh =
      let types = graph.nodes_by_type in
      let kept =
        λ (i : NodeId) (n : Node). Holds-add_node_fresh nx e.id i (event e) n graph.g fresh in
      record {
        indexed = λ i n q. elim (Holds-add_node_cases nx e.id i (event e) n graph.g q) [
          | inl (same, this) ↦
              subst₂ (Indexed graph.nodes_by_key (index_type event_node_type e.id types)) same this
                (refl, typ, Listed-index_type_self event_node_type e.id types, uuid)
          | inr old ↦
              Indexed-index_type event_node_type e.id i graph.nodes_by_key types n
                (h.indexed i n old)
        ];
        keyed = λ t c i q.
            let (named, (f, held, typ', can)) = h.keyed t c i q in
            (named, (f, kept i (fact f) held, typ', can));
        typed = λ t i q. elim (Listed-index_type_cases event_node_type t e.id i types q) [
          | inl (same, this) ↦ (
            event e,
            subst (λ j. Holds nx (nx.add_node e.id (event e) graph.g) j (event e)) this
                (Holds-add_node_self nx e.id (event e) graph.g),
            typ ∙ same,
          )
          | inr old ↦ let (n, held, typ') = h.typed t i old in (n, kept i n held, typ')
        ];
      }
