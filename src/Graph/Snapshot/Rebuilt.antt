-- ===== src/Graph/Snapshot/Rebuilt.antt =====
-- A node that `from_snapshot` of agent_pinboard/graph.py adds leaves the indexes in agreement.
use mathlib.Core.Path.{subst₂}
use agent_pinboard.Prelude.{
  String, ◌≡◌, refl, sym, ap, ◌∙◌, subst, List, ◌==◌, string_eq, pair_eq, put, get-put,
  get-put_self, get-put_cases, eq_iff, arith, Bool-cases, inl, inr,
}
use agent_pinboard.Models.{
  NodeId, FactNode, EventNode, FactEdge, Node, fact, event, node_type, event_node_type,
  fact_node_id, node_id,
}
use agent_pinboard.Models.Host.{Host}
use agent_pinboard.Networkx.{MultiDiGraph}
use agent_pinboard.Graph.{FactGraph, index_type, node_at, ok}
use agent_pinboard.Graph.Nodes.{
  Listed-index_type_self, Listed-index_type_cases, Holds, Holds-add_node_self, Holds-add_node_cases,
  Holds-add_node_ne,
}
use agent_pinboard.Graph.Invariant.{Ids, Indexed, IsIndexed, Indexed-index_type}
use agent_pinboard.Graph.Snapshot.{load_node}

module _ (nx : MultiDiGraph Node FactEdge) {host : Host} (ids : Ids host) where
  open ids use {Key, Uuid, key_injective, key_ne_uuid}

  -- A node as the code makes it: a fact has the id of its key, an event a UUID.
  abbrev pub WellFormed : Node → Type 0
  WellFormed (fact f) =
      (f.id ≡ fact_node_id host.digest f.node_type f.canonical_value)
      × Key f.node_type f.canonical_value
  WellFormed (event e) = (e.node_type ≡ event_node_type) × Uuid e.id

  module _ (graph : FactGraph nx.Graph) (h : IsIndexed nx ids graph) where
    -- What an id of a key holds is a fact of this key, and what a UUID holds is an event.
    fact_at :
        (t c : String) (i : NodeId) (n : Node)
        → i ≡ fact_node_id host.digest t c
        → Key t c
        → Holds nx graph.g i n
        → node_type n ≡ t
    fact_at t c i (fact f) named key held =
        let (_, at, _, key') = h.indexed i (fact f) held in
        let (named', _) = h.keyed f.node_type f.canonical_value i at in
        (key_injective f.node_type f.canonical_value t c key' key (sym named' ∙ named)).0
    fact_at t c i (event e) named key held =
        let (_, _, _, uuid) = h.indexed i (event e) held in
        absurd (key_ne_uuid t c i key uuid (sym named))

    event_at :
        (i : NodeId) (n : Node) → Uuid i → Holds nx graph.g i n → node_type n ≡ event_node_type
    event_at i (event e) uuid held = let (_, typ, _, _) = h.indexed i (event e) held in typ
    event_at i (fact f) uuid held =
        let (_, at, _, key) = h.indexed i (fact f) held in
        let (named, _) = h.keyed f.node_type f.canonical_value i at in
        absurd (key_ne_uuid f.node_type f.canonical_value i key uuid (sym named))

    -- An object that is put over an object of its type leaves the type index right.
    typed_after :
        (i j : NodeId) (n : Node) (t : String) (m : Node)
        → Holds nx graph.g j m
        → node_type m ≡ t
        → (i ≡ j → node_type n ≡ node_type m)
        → (k : Node) × Holds nx (nx.add_node i n graph.g) j k × (node_type k ≡ t)
    typed_after i j n t m held typ same = elim (Bool-cases (i == j)) [
      | inl e ↦
          let here : i ≡ j = (eq_iff i j).0 e in
          (
            n,
            subst (λ x. Holds nx (nx.add_node i n graph.g) x n) here
                (Holds-add_node_self nx i n graph.g),
            same here ∙ typ,
          )
      | inr e ↦ (m, Holds-add_node_ne nx i j n m graph.g (λ p. cc ((eq_iff i j).1 p)) held, typ)
    ]

    load_event-IsIndexed :
        (e : EventNode) → WellFormed (event e) → IsIndexed nx ids (load_node nx (event e) graph)
    unfolding load_node
    load_event-IsIndexed e (typ, uuid) =
        let types = graph.nodes_by_type in
        record {
          indexed = λ i n q. elim (Holds-add_node_cases nx e.id i (event e) n graph.g q) [
            | inl (same, this) ↦
                subst₂ (Indexed nx ids graph.nodes_by_key (index_type event_node_type e.id types))
                  same this (refl, typ, Listed-index_type_self event_node_type e.id types, uuid)
            | inr old ↦
                Indexed-index_type nx ids event_node_type e.id i graph.nodes_by_key types n
                  (h.indexed i n old)
          ];
          keyed = λ t c i q.
              let (named, (f, held, typ', can)) = h.keyed t c i q in
              let (_, at, _, key) = h.indexed i (fact f) held in
              let (named', _) = h.keyed f.node_type f.canonical_value i at in
              (
                named,
                (
                  f,
                  Holds-add_node_ne nx e.id i (event e) (fact f) graph.g
                      (λ same.
                        key_ne_uuid f.node_type f.canonical_value e.id key uuid
                          (sym (same ∙ named')))
                      held,
                  typ',
                  can,
                ),
              );
          typed = λ t i q. elim (Listed-index_type_cases event_node_type t e.id i types q) [
            | inl (same, here) ↦ (
              event e,
              subst (λ j. Holds nx (nx.add_node e.id (event e) graph.g) j (event e)) here
                  (Holds-add_node_self nx e.id (event e) graph.g),
              typ ∙ same,
            )
            | inr old ↦
                let (n, held, typ') = h.typed t i old in
                typed_after e.id i (event e) t n held typ'
                  (λ same. typ ∙ sym (event_at i n (subst Uuid same uuid) held))
          ];
        }

    -- A key that is in the index for its own hash may be put again.
    Indexed-put_again :
        (f : FactNode) (j : NodeId) (types : List (String × List NodeId)) (n : Node)
        → WellFormed (fact f)
        → Indexed nx ids graph.nodes_by_key types j n
        → Indexed nx ids (put (f.node_type, f.canonical_value) f.id graph.nodes_by_key) types j n
    Indexed-put_again f j types (event e) w q = q
    Indexed-put_again f j types (fact k) w (a, b, c, d) =
        let own : String × String = (f.node_type, f.canonical_value) in
        let other : String × String = (k.node_type, k.canonical_value) in
        (
          a,
          elim (Bool-cases (own == other)) [
            | inl e ↦
                let (named, _) = h.keyed k.node_type k.canonical_value j b in
                let same : f.id ≡ j =
                  w.0
                  ∙ (ap (λ (x : String × String). fact_node_id host.digest x.0 x.1)
                        ((pair_eq.same_iff own other).0 e)
                      ∙ sym named) in
                get-put own other f.id graph.nodes_by_key ∙ ground (arith, e, same)
            | inr e ↦ get-put own other f.id graph.nodes_by_key ∙ ground (arith, e, b)
          ],
          c,
          d,
        )

    load_fact-IsIndexed :
        (f : FactNode) → WellFormed (fact f) → IsIndexed nx ids (load_node nx (fact f) graph)
    unfolding load_node
    load_fact-IsIndexed f (named, key) =
        let own : String × String = (f.node_type, f.canonical_value) in
        let keys = put own f.id graph.nodes_by_key in
        let types = graph.nodes_by_type in
        let self = Holds-add_node_self nx f.id (fact f) graph.g in
        record {
          indexed = λ i n q. elim (Holds-add_node_cases nx f.id i (fact f) n graph.g q) [
            | inl (same, this) ↦
                subst₂ (Indexed nx ids keys (index_type f.node_type f.id types)) same this (
                  refl,
                  get-put_self own f.id graph.nodes_by_key,
                  Listed-index_type_self f.node_type f.id types,
                  key,
                )
            | inr old ↦
                Indexed-index_type nx ids f.node_type f.id i keys types n
                  (Indexed-put_again f i types n (named, key) (h.indexed i n old))
          ];
          keyed = λ t c i q. elim (get-put_cases own (t, c) f.id i graph.nodes_by_key q) [
            | inl (same, here) ↦ (
              sym here
                  ∙ (named ∙ ap (λ (x : String × String). fact_node_id host.digest x.0 x.1) same),
              (
                f,
                subst (λ j. Holds nx (nx.add_node f.id (fact f) graph.g) j (fact f)) here self,
                ap (λ (x : String × String). x.0) same,
                ap (λ (x : String × String). x.1) same,
              ),
            )
            | inr old ↦
                let (named', (k, held, typ, can)) = h.keyed t c i old in
                let (_, _, _, key') = h.indexed i (fact k) held in
                (
                  named',
                  elim (Bool-cases (f.id == i)) [
                    | inl e ↦
                        let here : f.id ≡ i = (eq_iff f.id i).0 e in
                        let both =
                          key_injective f.node_type f.canonical_value t c key
                            (subst₂ Key typ can key') (sym named ∙ (here ∙ named')) in
                        (
                          f,
                          subst (λ j. Holds nx (nx.add_node f.id (fact f) graph.g) j (fact f)) here
                              self,
                          both.0,
                          both.1,
                        )
                    | inr e ↦ (
                      k,
                      Holds-add_node_ne nx f.id i (fact f) (fact k) graph.g
                          (λ p. cc ((eq_iff f.id i).1 p)) held,
                      typ,
                      can,
                    )
                  ],
                )
          ];
          typed = λ t i q. elim (Listed-index_type_cases f.node_type t f.id i types q) [
            | inl (same, here) ↦ (
              fact f,
              subst (λ j. Holds nx (nx.add_node f.id (fact f) graph.g) j (fact f)) here self,
              same,
            )
            | inr old ↦
                let (n, held, typ') = h.typed t i old in
                typed_after f.id i (fact f) t n held typ' (λ same.
                  sym (fact_at f.node_type f.canonical_value i n (sym same ∙ named) key held))
          ];
        }

    pub load_node-IsIndexed : (n : Node) → WellFormed n → IsIndexed nx ids (load_node nx n graph)
    load_node-IsIndexed (fact f) w = load_fact-IsIndexed f w
    load_node-IsIndexed (event e) w = load_event-IsIndexed e w

module _ (nx : MultiDiGraph Node FactEdge) {host : Host} (ids : Ids host)
    (graph : FactGraph nx.Graph) (h : IsIndexed nx ids graph) where
  -- What the graph holds under an id is a well-formed node of this id.
  pub Holds-WellFormed :
      (i : NodeId) (n : Node) → Holds nx graph.g i n → WellFormed nx ids n × (node_id n ≡ i)
  Holds-WellFormed i (fact f) held =
      let (id, at, _, key) = h.indexed i (fact f) held in
      let (named, _) = h.keyed f.node_type f.canonical_value i at in ((id ∙ named, key), id)
  Holds-WellFormed i (event e) held =
      let (id, typ, _, uuid) = h.indexed i (event e) held in
      ((typ, subst ids.Uuid (sym id) uuid), id)

  pub node_at-Holds : (i : NodeId) (n : Node) → node_at nx i graph ≡ ok n → Holds nx graph.g i n
  unfolding node_at
  node_at-Holds i n q = ground (arith, q)
