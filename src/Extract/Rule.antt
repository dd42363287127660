-- ===== src/Extract/Rule.antt =====
-- An induction rule for the walk of agent_pinboard/extract.py: what `_emit_one` keeps, the walk
-- keeps.
use agent_pinboard.Prelude.{
  ℕ, String, ◌≡◌, subst, Option, none, some, Bool-cases, inl, inr, refl, ◌⊎◌, arith,
}
use agent_pinboard.Value.{
  Value, Values, Attrs, null, list, tuple, dict, model, nil, cons, end, attr, is_container,
}
use agent_pinboard.Models.{
  ok, raise, EventId, Entity, FactEdge, Node, >>=-eq-ok, ok-injective, extraction_error,
}
use agent_pinboard.Models.Host.{Host}
use agent_pinboard.Networkx.{MultiDiGraph}
use agent_pinboard.Fields.{Class, field_entity}
use agent_pinboard.Extract.{
  Walk, info_of, edge_type_of, description_of, emit_one, emit_items, by_entity, walk_primitive,
  walk, walk_field, walk_items,
}

pub by_entity_cases {ℓ} :
    {R : Type ℓ} (o : Option Entity) (f : Entity → R) (d r : R)
    → by_entity o f d ≡ r
    → ((o ≡ none) × (d ≡ r)) ⊎ ((e : Entity) × (o ≡ some e) × (f e ≡ r))
unfolding by_entity
by_entity_cases none f d r q = inl (refl, q)
by_entity_cases (some e) f d r q = inr (e, refl, q)

module _ (nx : MultiDiGraph Node FactEdge) (host : Host) (class_of : String → Class) (clock : ℕ → ℕ)
    (event_id : EventId) (tool : String) (Legal : Entity → Type 0)
    (legal : (k : String) (name : String) (e : Entity)
      → field_entity (info_of (class_of k) name) ≡ some e
      → Legal e)
    (P : Walk nx.Graph → Type 0)
    (step : (e : Entity) (edge_type description : String) (value : Value) (w w' : Walk nx.Graph)
      → Legal e
      → emit_one nx host class_of clock event_id tool e edge_type description value w ≡ ok w'
      → P w
      → P w') where
  pub emit_items_keeps :
      (e : Entity) (edge_type description : String) (vs : Values) (w w' : Walk nx.Graph)
      → Legal e
      → emit_items nx host class_of clock event_id tool e edge_type description vs w ≡ ok w'
      → P w
      → P w'
  unfolding emit_items
  emit_items_keeps e t d nil w w' l q p = subst P (ok-injective q) p
  emit_items_keeps e t d (cons v vs) w w' l q p = elim (Bool-cases (is_container v)) [
    | inl bad ↦ absurd (ground (arith, bad, q))
    | inr fine ↦
        let (w₁, one, rest) =
          >>=-eq-ok (emit_one nx host class_of clock event_id tool e t d v w)
            (λ x. emit_items nx host class_of clock event_id tool e t d vs x) (rw fine at q) in
        emit_items_keeps e t d vs w₁ w' l rest (step e t d v w w₁ l one p)
  ]

  pub primitive_keeps :
      (k : String) (name : String) (v : Value) (w w' : Walk nx.Graph)
      → walk_primitive nx host class_of clock event_id tool (class_of k) name v w ≡ ok w'
      → P w
      → P w'
  unfolding walk_primitive
  primitive_keeps k name v w w' q p =
      elim (by_entity_cases (field_entity (info_of (class_of k) name))
        (λ e.
          emit_one nx host class_of clock event_id tool e (edge_type_of (class_of k) name)
            (description_of (info_of (class_of k) name)) v w)
        (ok w) (ok w') q) [
          | inl (_, q') ↦ subst P (ok-injective q') p
          | inr (e, marked, q') ↦
              step e (edge_type_of (class_of k) name) (description_of (info_of (class_of k) name)) v
                w w' (legal k name e marked) q' p
        ]

  mutual
    unfolding walk

    pub walk_keeps' :
        (fields : Attrs) (k : String) (w w' : Walk nx.Graph)
        → walk nx host class_of clock event_id tool (class_of k) fields w ≡ ok w'
        → P w
        → P w'
    walk_keeps' end k w w' q p = subst P (ok-injective q) p
    walk_keeps' (attr name v rest) k w w' q p =
        let (w₁, one, others) =
          >>=-eq-ok (walk_field nx host class_of clock event_id tool (class_of k) name v w)
            (λ x. walk nx host class_of clock event_id tool (class_of k) rest x) q in
        walk_keeps' rest k w₁ w' others (field_keeps v k name w w₁ one p)

    pub field_keeps :
        (v : Value) (k : String) (name : String) (w w' : Walk nx.Graph)
        → walk_field nx host class_of clock event_id tool (class_of k) name v w ≡ ok w'
        → P w
        → P w'
    field_keeps null k name w w' q p = subst P (ok-injective q) p
    field_keeps (list vs) k name w w' q p =
        elim (by_entity_cases (field_entity (info_of (class_of k) name))
          (λ e.
            emit_items nx host class_of clock event_id tool e (edge_type_of (class_of k) name)
              (description_of (info_of (class_of k) name)) vs w)
          (walk_items nx host class_of clock event_id tool vs w) (ok w') q) [
            | inl (_, q') ↦ items_keeps vs w w' q' p
            | inr (e, marked, q') ↦
                emit_items_keeps e (edge_type_of (class_of k) name)
                  (description_of (info_of (class_of k) name)) vs w w' (legal k name e marked) q' p
          ]
    field_keeps (model c fields) k name w w' q p =
        elim (by_entity_cases (field_entity (info_of (class_of k) name))
          (λ e.
            emit_one nx host class_of clock event_id tool e (edge_type_of (class_of k) name)
              (description_of (info_of (class_of k) name)) (model c fields) w)
          (walk nx host class_of clock event_id tool (class_of c) fields w) (ok w') q) [
            | inl (_, q') ↦ walk_keeps' fields c w w' q' p
            | inr (e, marked, q') ↦
                step e (edge_type_of (class_of k) name) (description_of (info_of (class_of k) name))
                  (model c fields) w w' (legal k name e marked) q' p
          ]
    field_keeps (dict d) k name w w' q p =
        elim (by_entity_cases (field_entity (info_of (class_of k) name))
          (λ e. raise extraction_error) (ok w) (ok w') q) [
            | inl (_, q') ↦ subst P (ok-injective q') p
            | inr (e, marked, q') ↦ absurd (ground (arith, q'))
          ]
    field_keeps (tuple vs) k name w w' q p =
        elim (by_entity_cases (field_entity (info_of (class_of k) name))
          (λ e. raise extraction_error) (ok w) (ok w') q) [
            | inl (_, q') ↦ subst P (ok-injective q') p
            | inr (e, marked, q') ↦ absurd (ground (arith, q'))
          ]
    field_keeps v k name w w' q p = primitive_keeps k name v w w' q p

    pub items_keeps :
        (vs : Values) (w w' : Walk nx.Graph)
        → walk_items nx host class_of clock event_id tool vs w ≡ ok w'
        → P w
        → P w'
    items_keeps nil w w' q p = subst P (ok-injective q) p
    items_keeps (cons (model c fields) vs) w w' q p =
        let (w₁, one, rest) =
          >>=-eq-ok (walk nx host class_of clock event_id tool (class_of c) fields w)
            (λ x. walk_items nx host class_of clock event_id tool vs x) q in
        items_keeps vs w₁ w' rest (walk_keeps' fields c w w₁ one p)
    items_keeps (cons (dict d) vs) w w' q p = absurd (ground (arith, q))
    items_keeps (cons (list xs) vs) w w' q p = absurd (ground (arith, q))
    items_keeps (cons (tuple xs) vs) w w' q p = absurd (ground (arith, q))
    items_keeps (cons v vs) w w' q p = items_keeps vs w w' q p

  pub walk_keeps :
      (k : String) (fields : Attrs) (w w' : Walk nx.Graph)
      → walk nx host class_of clock event_id tool (class_of k) fields w ≡ ok w'
      → P w
      → P w'
  walk_keeps k fields w w' = walk_keeps' fields k w w'
