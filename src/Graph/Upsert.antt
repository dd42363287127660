-- ===== src/Graph/Upsert.antt =====
-- The two ways in which `upsert_fact` of agent_pinboard/graph.py changes a graph keep its indexes.
use mathlib.Core.Path.{subst₂}
use agent_pinboard.Prelude.{
  ℕ, String, ◌≡◌, ◌≢◌, refl, sym, ap, subst, ◌∙◌, none, some, Bool-cases, inl, inr, ◌==◌, string_eq,
  pair_eq, get, get-put_self, get-put_cases, arith, eq_iff, put,
}
use agent_pinboard.Value.{Value}
use agent_pinboard.Models.{
  NodeId, EventId, Entity, FactNode, FactEdge, Node, fact, event, node_type, fact_node_id,
}
use agent_pinboard.Models.Host.{Host}
use agent_pinboard.Networkx.{MultiDiGraph}
use agent_pinboard.Graph.{FactGraph, index_type, new_fact, insert_fact}
use agent_pinboard.Graph.Nodes.{
  Listed, Listed-index_type_self, Listed-index_type_cases, Holds, Holds-add_node_self,
  Holds-add_node_cases, Holds-add_node_ne, Holds-add_node_fresh,
}
use agent_pinboard.Graph.Invariant.{
  Ids, Indexed, HasKey, IsIndexed, Indexed-index_type, Indexed-put,
}

module _ (nx : MultiDiGraph Node FactEdge) {host : Host} (ids : Ids host) where
  open ids use {Key, Uuid, key_injective, key_ne_uuid}

  -- The hash of a key that is not in the index is the id of no object.
  pub unclaimed :
      (t c : String) (graph : FactGraph nx.Graph)
      → IsIndexed nx ids graph
      → Key t c
      → get (t, c) graph.nodes_by_key ≡ none
      → (n : Node) → nx.node (fact_node_id host.digest t c) graph.g ≢ some (some n)
  unclaimed t c graph h key absent (fact f) held =
      let (_, at, _, key') = h.indexed (fact_node_id host.digest t c) (fact f) held in
      let (named, _) = h.keyed f.node_type f.canonical_value (fact_node_id host.digest t c) at in
      let (typ, can) = key_injective t c f.node_type f.canonical_value key key' named in cc
  unclaimed t c graph h key absent (event e) held =
      let (_, _, _, uuid) = h.indexed (fact_node_id host.digest t c) (event e) held in
      key_ne_uuid t c (fact_node_id host.digest t c) key uuid refl

  -- A fact is replaced by one of the same id and key, as the mutation of its provenance does.
  module _ (graph : FactGraph nx.Graph) (h : IsIndexed nx ids graph) (i : NodeId) (f f' : FactNode)
      (held : Holds nx graph.g i (fact f)) (same_id : f'.id ≡ f.id)
      (same_type : f'.node_type ≡ f.node_type)
      (same_value : f'.canonical_value ≡ f.canonical_value) where
    replace_HasKey :
        (t c : String) (j : NodeId)
        → HasKey nx ids graph.g t c j
        → HasKey nx ids (nx.add_node i (fact f') graph.g) t c j
    replace_HasKey t c j (k, at, typ, can) = elim (Bool-cases (i == j)) [
      | inl e ↦
          let same : i ≡ j = (eq_iff i j).0 e in
          (
            f',
            subst (λ x. Holds nx (nx.add_node i (fact f') graph.g) x (fact f')) same
                (Holds-add_node_self nx i (fact f') graph.g),
            ground (arith, held, at),
            ground (arith, held, at),
          )
      | inr e ↦ (
        k,
        Holds-add_node_ne nx i j (fact f') (fact k) graph.g (λ same. cc ((eq_iff i j).1 same)) at,
        typ,
        can,
      )
    ]

    replace_typed :
        (t : String) (j : NodeId) (n : Node)
        → Holds nx graph.g j n
        → node_type n ≡ t
        → (m : Node) × Holds nx (nx.add_node i (fact f') graph.g) j m × (node_type m ≡ t)
    replace_typed t j n at typ = elim (Bool-cases (i == j)) [
      | inl e ↦
          let same : i ≡ j = (eq_iff i j).0 e in
          (
            fact f',
            subst (λ x. Holds nx (nx.add_node i (fact f') graph.g) x (fact f')) same
                (Holds-add_node_self nx i (fact f') graph.g),
            ground (arith, held, at),
          )
      | inr e ↦ (
        n,
        Holds-add_node_ne nx i j (fact f') n graph.g (λ same. cc ((eq_iff i j).1 same)) at,
        typ,
      )
    ]

    pub replace-IsIndexed : IsIndexed nx ids (record graph { g = nx.add_node i (fact f') graph.g })
    replace-IsIndexed = record {
      indexed = λ j n q. elim (Holds-add_node_cases nx i j (fact f') n graph.g q) [
        | inl (same, this) ↦
            let (id, at, typ, key) = h.indexed i (fact f) held in
            subst₂ (Indexed nx ids graph.nodes_by_key graph.nodes_by_type) same this (
              same_id ∙ id,
              subst₂ (λ a b. get (a, b) graph.nodes_by_key ≡ some i) (sym same_type)
                  (sym same_value) at,
              subst (λ a. Listed a i graph.nodes_by_type) (sym same_type) typ,
              subst₂ Key (sym same_type) (sym same_value) key,
            )
        | inr old ↦ h.indexed j n old
      ];
      keyed = λ t c j q. let (named, has) = h.keyed t c j q in (named, replace_HasKey t c j has);
      typed = λ t j q. let (n, at, typ) = h.typed t j q in replace_typed t j n at typ;
    }

  module _ (now : ℕ) (entity : Entity) (event_id : EventId) (tool : String) (value : Value)
      (c : String) (graph : FactGraph nx.Graph) (h : IsIndexed nx ids graph)
      (key : Key entity.name c) where
    pub insert_fact-IsIndexed :
        get (entity.name, c) graph.nodes_by_key ≡ none
        → IsIndexed nx ids
            (insert_fact nx host now entity event_id tool
              (new_fact nx host now entity event_id tool value c)
              graph).graph
    unfolding insert_fact new_fact
    insert_fact-IsIndexed absent =
        let f = new_fact nx host now entity event_id tool value c in
        let free = unclaimed entity.name c graph h key absent in
        record {
          indexed = λ j n q. elim (Holds-add_node_cases nx f.id j (fact f) n graph.g q) [
            | inl (same, this) ↦
                subst₂
                  (Indexed nx ids (put (entity.name, c) f.id graph.nodes_by_key)
                    (index_type entity.name f.id graph.nodes_by_type))
                  same this
                  (
                    refl,
                    get-put_self (entity.name, c) f.id graph.nodes_by_key,
                    Listed-index_type_self entity.name f.id graph.nodes_by_type,
                    key,
                  )
            | inr old ↦
                Indexed-put nx ids (entity.name, c) f.id j graph.nodes_by_key
                  (index_type entity.name f.id graph.nodes_by_type) n absent
                  (Indexed-index_type nx ids entity.name f.id j graph.nodes_by_key
                    graph.nodes_by_type n (h.indexed j n old))
          ];
          keyed = λ t d j q.
              elim (get-put_cases (entity.name, c) (t, d) f.id j graph.nodes_by_key q) [
                | inl (same, this) ↦ (
                  sym this ∙ ap (λ (x : String × String). fact_node_id host.digest x.0 x.1) same,
                  (
                    f,
                    subst (λ x. Holds nx (nx.add_node f.id (fact f) graph.g) x (fact f)) this
                        (Holds-add_node_self nx f.id (fact f) graph.g),
                    ap (λ (x : String × String). x.0) same,
                    ap (λ (x : String × String). x.1) same,
                  ),
                )
                | inr old ↦
                    let (named, (k, held, typ, can)) = h.keyed t d j old in
                    (
                      named,
                      (
                        k,
                        Holds-add_node_fresh nx f.id j (fact f) (fact k) graph.g free held,
                        typ,
                        can,
                      ),
                    )
              ];
          typed = λ t j q.
              elim (Listed-index_type_cases entity.name t f.id j graph.nodes_by_type q) [
                | inl (same, this) ↦ (
                  fact f,
                  subst (λ x. Holds nx (nx.add_node f.id (fact f) graph.g) x (fact f)) this
                      (Holds-add_node_self nx f.id (fact f) graph.g),
                  same,
                )
                | inr old ↦
                    let (n, held, typ) = h.typed t j old in
                    (n, Holds-add_node_fresh nx f.id j (fact f) n graph.g free held, typ)
              ];
        }
