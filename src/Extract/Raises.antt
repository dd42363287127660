-- ===== src/Extract/Raises.antt =====
-- A rule for the errors of the walk of agent_pinboard/extract.py: what holds of the errors of
-- `_emit_one` and of a value of the wrong shape holds of the errors of the walk.
use agent_pinboard.Prelude.{ℕ, String, ◌≡◌, subst, some, Bool-cases, inl, inr, arith}
use agent_pinboard.Value.{
  Value, Values, Attrs, null, list, tuple, dict, model, nil, cons, end, attr, is_container,
}
use agent_pinboard.Models.{
  Error, Result, ok, raise, EventId, Entity, FactEdge, Node, >>=-eq-raise, extraction_error,
}
use agent_pinboard.Models.Host.{Host}
use agent_pinboard.Networkx.{MultiDiGraph}
use agent_pinboard.Fields.{Class, field_entity}
use agent_pinboard.Extract.{
  Walk, info_of, edge_type_of, description_of, emit_one, emit_items, walk_primitive, walk,
  walk_field, walk_items,
}
use agent_pinboard.Extract.Rule.{by_entity_cases, walk_keeps', field_keeps}

raise-injective : {A : Type 0} (x y : Error) → Path (Result A) (raise x) (raise y) → x ≡ y
raise-injective x y h = cc

module _ (nx : MultiDiGraph Node FactEdge) (host : Host) (class_of : String → Class) (clock : ℕ → ℕ)
    (event_id : EventId) (tool : String) (Legal : Entity → Type 0)
    (legal : (k : String) (name : String) (e : Entity)
      → field_entity (info_of (class_of k) name) ≡ some e
      → Legal e)
    (P : Walk nx.Graph → Type 0)
    (step : (e : Entity) (edge_type description : String) (value : Value) (w w' : Walk nx.Graph)
      → Legal e
      → emit_one nx host class_of clock event_id tool e edge_type description value w ≡ ok w'
      → P w
      → P w')
    (Q : Error → Type 0) (shape : Q extraction_error)
    (fails : (e : Entity) (edge_type description : String) (value : Value) (w : Walk nx.Graph)
        (x : Error)
      → Legal e
      → emit_one nx host class_of clock event_id tool e edge_type description value w ≡ raise x
      → P w
      → Q x) where
  emit_items_raises :
      (e : Entity) (edge_type description : String) (vs : Values) (w : Walk nx.Graph) (x : Error)
      → Legal e
      → emit_items nx host class_of clock event_id tool e edge_type description vs w ≡ raise x
      → P w
      → Q x
  unfolding emit_items
  emit_items_raises e t d nil w x l q p = absurd (ground (arith, q))
  emit_items_raises e t d (cons v vs) w x l q p = elim (Bool-cases (is_container v)) [
    | inl bad ↦ subst Q (raise-injective extraction_error x (rw bad at q)) shape
    | inr fine ↦
        elim (>>=-eq-raise (emit_one nx host class_of clock event_id tool e t d v w)
          (λ y. emit_items nx host class_of clock event_id tool e t d vs y) x (rw fine at q)) [
            | inl here ↦ fails e t d v w x l here p
            | inr (w₁, one, rest) ↦
                emit_items_raises e t d vs w₁ x l rest (step e t d v w w₁ l one p)
          ]
  ]

  primitive_raises :
      (k : String) (name : String) (v : Value) (w : Walk nx.Graph) (x : Error)
      → walk_primitive nx host class_of clock event_id tool (class_of k) name v w ≡ raise x
      → P w
      → Q x
  unfolding walk_primitive
  primitive_raises k name v w x q p =
      elim (by_entity_cases (field_entity (info_of (class_of k) name))
        (λ e.
          emit_one nx host class_of clock event_id tool e (edge_type_of (class_of k) name)
            (description_of (info_of (class_of k) name)) v w)
        (ok w) (raise x) q) [
          | inl (_, q') ↦ absurd (ground (arith, q'))
          | inr (e, marked, q') ↦
              fails e (edge_type_of (class_of k) name) (description_of (info_of (class_of k) name))
                v w x (legal k name e marked) q' p
        ]

  mutual
    unfolding walk

    walk_raises' :
        (fields : Attrs) (k : String) (w : Walk nx.Graph) (x : Error)
        → walk nx host class_of clock event_id tool (class_of k) fields w ≡ raise x
        → P w
        → Q x
    walk_raises' end k w x q p = absurd (ground (arith, q))
    walk_raises' (attr name v rest) k w x q p =
        elim (>>=-eq-raise (walk_field nx host class_of clock event_id tool (class_of k) name v w)
          (λ y. walk nx host class_of clock event_id tool (class_of k) rest y) x q) [
            | inl here ↦ field_raises v k name w x here p
            | inr (w₁, one, others) ↦ walk_raises' rest k w₁ x others (
                field_keeps nx host class_of clock event_id tool Legal legal P step v k name w w₁
                  one p)
          ]

    field_raises :
        (v : Value) (k : String) (name : String) (w : Walk nx.Graph) (x : Error)
        → walk_field nx host class_of clock event_id tool (class_of k) name v w ≡ raise x
        → P w
        → Q x
    field_raises null k name w x q p = absurd (ground (arith, q))
    field_raises (list vs) k name w x q p =
        elim (by_entity_cases (field_entity (info_of (class_of k) name))
          (λ e.
            emit_items nx host class_of clock event_id tool e (edge_type_of (class_of k) name)
              (description_of (info_of (class_of k) name)) vs w)
          (walk_items nx host class_of clock event_id tool vs w) (raise x) q) [
            | inl (_, q') ↦ items_raises vs w x q' p
            | inr (e, marked, q') ↦
                emit_items_raises e (edge_type_of (class_of k) name)
                  (description_of (info_of (class_of k) name)) vs w x (legal k name e marked) q' p
          ]
    field_raises (model c fields) k name w x q p =
        elim (by_entity_cases (field_entity (info_of (class_of k) name))
          (λ e.
            emit_one nx host class_of clock event_id tool e (edge_type_of (class_of k) name)
              (description_of (info_of (class_of k) name)) (model c fields) w)
          (walk nx host class_of clock event_id tool (class_of c) fields w) (raise x) q) [
            | inl (_, q') ↦ walk_raises' fields c w x q' p
            | inr (e, marked, q') ↦
                fails e (edge_type_of (class_of k) name)
                  (description_of (info_of (class_of k) name)) (model c fields) w x
                  (legal k name e marked) q' p
          ]
    field_raises (dict d) k name w x q p =
        elim (by_entity_cases (field_entity (info_of (class_of k) name))
          (λ e. raise extraction_error) (ok w) (raise x) q) [
            | inl (_, q') ↦ absurd (ground (arith, q'))
            | inr (e, marked, q') ↦ subst Q (raise-injective extraction_error x q') shape
          ]
    field_raises (tuple vs) k name w x q p =
        elim (by_entity_cases (field_entity (info_of (class_of k) name))
          (λ e. raise extraction_error) (ok w) (raise x) q) [
            | inl (_, q') ↦ absurd (ground (arith, q'))
            | inr (e, marked, q') ↦ subst Q (raise-injective extraction_error x q') shape
          ]
    field_raises v k name w x q p = primitive_raises k name v w x q p

    items_raises :
        (vs : Values) (w : Walk nx.Graph) (x : Error)
        → walk_items nx host class_of clock event_id tool vs w ≡ raise x
        → P w
        → Q x
    items_raises nil w x q p = absurd (ground (arith, q))
    items_raises (cons (model c fields) vs) w x q p =
        elim (>>=-eq-raise (walk nx host class_of clock event_id tool (class_of c) fields w)
          (λ y. walk_items nx host class_of clock event_id tool vs y) x q) [
            | inl here ↦ walk_raises' fields c w x here p
            | inr (w₁, one, rest) ↦ items_raises vs w₁ x rest (
                walk_keeps' nx host class_of clock event_id tool Legal legal P step fields c w w₁
                  one p)
          ]
    items_raises (cons (dict d) vs) w x q p = subst Q (raise-injective extraction_error x q) shape
    items_raises (cons (list xs) vs) w x q p = subst Q (raise-injective extraction_error x q) shape
    items_raises (cons (tuple xs) vs) w x q p = subst Q (raise-injective extraction_error x q) shape
    items_raises (cons v vs) w x q p = items_raises vs w x q p

  pub walk_raises :
      (k : String) (fields : Attrs) (w : Walk nx.Graph) (x : Error)
      → walk nx host class_of clock event_id tool (class_of k) fields w ≡ raise x
      → P w
      → Q x
  walk_raises k fields w x = walk_raises' fields k w x
