-- ===== src/Registry/Returns.antt =====
-- The scan of agent_pinboard/registry.py ends, also for classes that refer to each other, and the
-- first registration of a name stays.
use agent_pinboard.Prelude.{
  ℕ, zero, suc, String, ◌≡◌, ◌≤◌, ◌<◌, refl, ap, ◌∙◌, some, List, [], ◌∷◌, ◌==◌, Bool, true, false,
  if◌then◌else◌, string_eq, contains, add, contains-add, get, get-put, All, arith, eq_iff,
  Bool-cases, Option-cases, inl, inr, length,
}
use Prim.Native.String.{◌++◌ as str_append}
use agent_pinboard.Models.{Entity, config_error}
use agent_pinboard.Fields.{Class, FieldInfo, field_entity}
use agent_pinboard.Registry.{
  Annotation, nested_models, is_basemodel_typed, Registry, register_entity, Scan, Scanned,
  out_of_fuel, raised, done, and_then, scan_all, scan_field, scan_fields, scan, register_model,
}

-- How many of the classes are not seen.
abbrev unseen : List String → List String → ℕ
unseen [] seen = 0
unseen (c ∷ cs) seen = if contains c seen then unseen cs seen else suc (unseen cs seen)

abbrev Within : List String → List String → Type 0
Within s s' = (i : String) → contains i s ≡ true → contains i s' ≡ true

unseen_mono : (cs s s' : List String) → Within s s' → unseen cs s' ≤ unseen cs s
unseen_mono [] s s' h = omega arith
unseen_mono (c ∷ cs) s s' h = ground (arith, h c, unseen_mono cs s s' h)

unseen-add :
    (cs : List String) (c : String) (s : List String)
    → contains c cs ≡ true
    → contains c s ≡ false
    → unseen cs (add c s) < unseen cs s
unfolding contains
unseen-add [] c s h fresh = absurd (ground (arith, h))
unseen-add (d ∷ cs) c s h fresh =
    let rest = unseen_mono cs s (add c s) (λ i q. contains-add c i s ∙ ground (arith, q)) in
    elim (Bool-cases (d == c)) [
      | inl e ↦
          let same = (eq_iff d c).0 e in
          ground
            (arith, contains-add c d s, eq_iff c d, same, fresh, rest, ap (λ x. contains x s) same)
      | inr e ↦
          let later = unseen-add cs c s (ground (arith, e, h)) fresh in
          ground (arith, contains-add c d s, eq_iff c d, eq_iff d c, e, rest, later)
    ]

unseen_le : (cs s : List String) → unseen cs s ≤ length cs
unseen_le [] s = omega arith
unseen_le (c ∷ cs) s = ground (arith, unseen_le cs s)

-- A later state of a scan: nothing seen is forgotten, and a name that is declared stays as it is.
pub record Extends (s s' : Scan) : Type 0 where
  pub seen : (i : String) → contains i s.seen ≡ true → contains i s'.seen ≡ true
  pub declared :
      (k : String) (e : Entity)
      → get k s.registry.declared_entities ≡ some e
      → get k s'.registry.declared_entities ≡ some e

Extends-refl : (s : Scan) → Extends s s
Extends-refl s = record { seen = λ i q. q; declared = λ k e q. q }

Extends-trans : (s s' s'' : Scan) → Extends s s' → Extends s' s'' → Extends s s''
Extends-trans s s' s'' p q = record {
  seen = λ i h. q.seen i (p.seen i h);
  declared = λ k e h. q.declared k e (p.declared k e h);
}

-- The scan is over, with a later state; the only error is that of a marked field of a model type.
abbrev pub Ends : Scan → Scanned → Type 0
Ends s out_of_fuel = ⊥
Ends s (raised e s') = (e ≡ config_error) × Extends s s'
Ends s (done s') = Extends s s'

Ends-from : (s s' : Scan) (o : Scanned) → Extends s s' → Ends s' o → Ends s o
Ends-from s s' out_of_fuel p q = q
Ends-from s s' (raised e t) p (same, q) = (same, Extends-trans s s' t p q)
Ends-from s s' (done t) p q = Extends-trans s s' t p q

and_then-Ends :
    (s : Scan) (o : Scanned) (next : Scan → Scanned)
    → Ends s o
    → ((s' : Scan) → Extends s s' → Ends s' (next s'))
    → Ends s (and_then o next)
and_then-Ends s out_of_fuel next h f = h
and_then-Ends s (raised e s') next h f = h
and_then-Ends s (done s') next h f = Ends-from s s' (next s') h (f s' h)

module _ (same : Entity → Entity → Bool) where
  register_entity_stays :
      (entity : Entity) (location : String) (r : Registry) (k : String) (e : Entity)
      → get k r.declared_entities ≡ some e
      → get k (register_entity same entity location r).declared_entities ≡ some e
  unfolding register_entity
  register_entity_stays entity location r k e h =
      elim (Option-cases (get entity.name r.declared_entities)) [
        | inl absent ↦
            rw (register_entity, absent)
              (ground (
                arith,
                get-put entity.name k entity r.declared_entities,
                h,
                absent,
                eq_iff entity.name k,
                ap (λ x. get x r.declared_entities),
              ))
        | inr (existing, there) ↦ elim (Bool-cases (same existing entity)) [
          | inl equal ↦ rw (register_entity, there, equal) h
          | inr differs ↦ rw (register_entity, there, differs) h
        ]
      ]

module _ (same : Entity → Entity → Bool) (class_of : String → Class)
    (annotation : String → String → Annotation) (classes : List String) where
  -- The classes that the fields of these classes refer to are among them.
  abbrev pub IsClosed : Type 0
  IsClosed =
      (c : String)
      → contains c classes ≡ true
      → All (λ p. All (λ d. contains d classes ≡ true) (nested_models (annotation c p.0)))
          (class_of c).model_fields

  module _ (n : ℕ) (recur : String → Scan → Scanned)
      (ends : (c : String) (s : Scan)
        → contains c classes ≡ true
        → unseen classes s.seen < n
        → Ends s (recur c s)) where
    scan_all-Ends :
        (cs : List String) (s : Scan)
        → All (λ d. contains d classes ≡ true) cs
        → unseen classes s.seen < n
        → Ends s (scan_all same class_of annotation recur cs s)
    unfolding scan_all
    scan_all-Ends [] s within few = Extends-refl s
    scan_all-Ends (c ∷ cs) s within few =
        and_then-Ends s (recur c s) (scan_all same class_of annotation recur cs)
          (ends c s within.0 few)
          (λ s' later.
            scan_all-Ends cs s' within.1
              (omega (arith, few, unseen_mono classes s.seen s'.seen later.seen)))

    scan_field-Ends :
        (model name : String) (info : FieldInfo) (s : Scan)
        → All (λ d. contains d classes ≡ true) (nested_models (annotation model name))
        → unseen classes s.seen < n
        → Ends s (scan_field same class_of annotation recur model name info s)
    unfolding scan_field
    scan_field-Ends model name info s within few = elim (Option-cases (field_entity info)) [
      | inl unmarked ↦
          rw (scan_field, unmarked)
            (scan_all-Ends (nested_models (annotation model name)) s within few)
      | inr (entity, marked) ↦ elim (Bool-cases (is_basemodel_typed (annotation model name))) [
        | inl bad ↦ rw (scan_field, marked, bad) (refl, Extends-refl s)
        | inr fine ↦
            rw (scan_field, marked, fine)
              (record {
                seen = λ i q. q;
                declared =
                    register_entity_stays same entity
                      (str_append (class_of model).name (str_append "." name)) s.registry;
              })
      ]
    ]

    scan_fields-Ends :
        (model : String) (fields : List (String × FieldInfo)) (s : Scan)
        → All
            (λ p. All (λ d. contains d classes ≡ true) (nested_models (annotation model p.0)))
            fields
        → unseen classes s.seen < n
        → Ends s (scan_fields same class_of annotation recur model fields s)
    unfolding scan_fields
    scan_fields-Ends model [] s within few = Extends-refl s
    scan_fields-Ends model ((name, info) ∷ fields) s within few =
        and_then-Ends s (scan_field same class_of annotation recur model name info s)
          (scan_fields same class_of annotation recur model fields)
          (scan_field-Ends model name info s within.0 few)
          (λ s' later.
            scan_fields-Ends model fields s' within.1
              (omega (arith, few, unseen_mono classes s.seen s'.seen later.seen)))

  scan-Ends :
      (closed : IsClosed) (fuel : ℕ) (c : String) (s : Scan)
      → contains c classes ≡ true
      → unseen classes s.seen < fuel
      → Ends s (scan same class_of annotation fuel c s)
  unfolding scan
  scan-Ends closed zero c s listed few = absurd (omega (arith, few))
  scan-Ends closed (suc n) c s listed few = elim (Bool-cases (contains c s.seen)) [
    | inl before ↦ rw before (Extends-refl s)
    | inr fresh ↦
        let s' : Scan = record s { seen = add c s.seen } in
        let fewer = unseen-add classes c s.seen listed fresh in
        rw fresh (
          Ends-from s s'
            (scan_fields same class_of annotation (scan same class_of annotation n) c
              (class_of c).model_fields s')
            (record {
              seen = λ i q. contains-add c i s.seen ∙ ground (arith, q);
              declared = λ k e q. q;
            })
            (scan_fields-Ends n (scan same class_of annotation n) (scan-Ends closed n) c
              (class_of c).model_fields s' (closed c listed) (omega (arith, few, fewer))))
  ]

  -- Where the classes that are referred to are among a finite list, as cyclic as they may be, the
  -- scan of one of them ends with more fuel than the list is long: it returns, or raises the error
  -- for a marked field of a model type, and in both cases an entity that was declared before under a
  -- name still is.
  pub register_model-Ends :
      (fuel : ℕ) (model : String) (registry : Registry)
      → IsClosed
      → contains model classes ≡ true
      → length classes < fuel
      → Ends
          (record { seen = []; registry = registry })
          (register_model same class_of annotation fuel model registry)
  unfolding register_model
  register_model-Ends fuel model registry closed listed enough =
      scan-Ends closed fuel model (record { seen = []; registry = registry }) listed
        (omega (arith, enough, unseen_le classes []))
