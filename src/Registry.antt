-- ===== src/Registry.antt =====
-- agent_pinboard/registry.py: the declared entities, and the scan of a model class for them.
pub mod Returns
use Prim.Native.String.{◌++◌ as str_append}
use agent_pinboard.Prelude.{
  ℕ, zero, suc, String, Option, none, some, List, [], ◌∷◌, ◌++◌, Bool, true, false, ◌||◌, ◌&&◌,
  if◌then◌else◌, string_eq, contains, add, get, put,
}
use agent_pinboard.Models.{Error, Entity, config_error}
use agent_pinboard.Fields.{Class, FieldInfo, field_entity}

-- An annotation: None or NoneType, a model class, a type or another object without an origin, and a
-- generic type with its arguments.
mutual
  pub data Annotation : Type 0 where
    nothing : Annotation
    model_class : String → Annotation
    leaf : Annotation
    generic : Annotations → Annotation

  pub data Annotations : Type 0 where
    no_args : Annotations
    arg : Annotation → Annotations → Annotations

unfoldable mutual
  pub is_basemodel_typed : Annotation → Bool
  is_basemodel_typed nothing = false
  is_basemodel_typed (model_class c) = true
  is_basemodel_typed leaf = false
  is_basemodel_typed (generic args) = any_basemodel_typed args

  pub any_basemodel_typed : Annotations → Bool
  any_basemodel_typed no_args = false
  any_basemodel_typed (arg a args) = is_basemodel_typed a || any_basemodel_typed args

unfoldable mutual
  pub nested_models : Annotation → List String
  nested_models nothing = []
  nested_models (model_class c) = c ∷ []
  nested_models leaf = []
  nested_models (generic args) = nested_in args

  pub nested_in : Annotations → List String
  nested_in no_args = []
  nested_in (arg a args) = nested_models a ++ nested_in args

-- `_declared_entities` and `_origin_locations`, and the locations that a warning was logged for.
pub record Registry : Type 0 where
  pub declared_entities : List (String × Entity)
  pub origin_locations : List (String × String)
  pub warned : List String

-- `same` is the equality of entities.
unfoldable pub register_entity : (Entity → Entity → Bool) → Entity → String → Registry → Registry
unfolding get put
register_entity same entity location r = elim (get entity.name r.declared_entities) [
  | none ↦ record r {
    declared_entities = put entity.name entity r.declared_entities;
    origin_locations = put entity.name location r.origin_locations;
  }
  | some existing ↦
      if same existing entity then r else record r { warned = r.warned ++ location ∷ [] }
]

-- What a scan leaves: the classes that it has seen, and the registry.
pub record Scan : Type 0 where
  pub seen : List String
  pub registry : Registry

-- A scan that raises keeps what it has registered.
pub data Scanned : Type 0 where
  out_of_fuel : Scanned
  raised : Error → Scan → Scanned
  done : Scan → Scanned

-- The next step of a scan that is not over.
abbrev pub and_then : Scanned → (Scan → Scanned) → Scanned
and_then out_of_fuel next = out_of_fuel
and_then (raised e s) next = raised e s
and_then (done s) next = next s

module _ (same : Entity → Entity → Bool) (class_of : String → Class)
    (annotation : String → String → Annotation) where
  -- for nested in _nested_models(info.annotation): _scan(nested, seen)
  unfoldable pub scan_all : (String → Scan → Scanned) → List String → Scan → Scanned
  scan_all recur [] s = done s
  scan_all recur (c ∷ cs) s = and_then (recur c s) (scan_all recur cs)

  -- One field of `model`.
  unfoldable pub scan_field :
      (String → Scan → Scanned) → String → String → FieldInfo → Scan → Scanned
  unfolding scan_all register_entity is_basemodel_typed nested_models field_entity
  scan_field recur model name info s = elim (field_entity info) [
    | none ↦ scan_all recur (nested_models (annotation model name)) s
    | some entity ↦
        if is_basemodel_typed (annotation model name)
        then raised config_error s
        else done (record s {
          registry =
              register_entity same entity (str_append (class_of model).name (str_append "." name))
                s.registry;
        })
  ]

  unfoldable pub scan_fields :
      (String → Scan → Scanned) → String → List (String × FieldInfo) → Scan → Scanned
  unfolding scan_field
  scan_fields recur model [] s = done s
  scan_fields recur model ((name, info) ∷ fields) s =
      and_then (scan_field recur model name info s) (scan_fields recur model fields)

  -- `_scan`, to a depth of recursion that the fuel bounds.
  unfoldable pub scan : ℕ → String → Scan → Scanned
  unfolding scan_fields contains add
  scan zero model s = out_of_fuel
  scan (suc fuel) model s =
      if contains model s.seen
      then done s
      else scan_fields (scan fuel) model (class_of model).model_fields
          (record s { seen = add model s.seen })

  unfoldable pub register_model : ℕ → String → Registry → Scanned
  unfolding scan
  register_model fuel model registry = scan fuel model (record { seen = []; registry = registry })
