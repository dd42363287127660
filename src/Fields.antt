-- ===== src/Fields.antt =====
-- agent_pinboard/fields.py, and what the library reads of a pydantic model class. `strip` is
-- `str.strip`, and pydantic's `FieldInfo` keeps the description and the extra data it is given.
use agent_pinboard.Prelude.{
  String, Option, none, some, List, [], ◌∷◌, ◌==◌, if◌then◌else◌, string_eq, get, put, contains,
}
use agent_pinboard.Models.{Entity, Result, ok, raise, config_error}

-- A value of `json_schema_extra`'s dict: the library's own entry is a dict which may hold an
-- `Entity` under "entity".
pub data Meta : Type 0 where
  not_dict : Meta
  entry : Option Entity → Meta

-- json_schema_extra: absent, a callable, or a dict
pub data Extra : Type 0 where
  absent callable : Extra
  mapping : List (String × Meta) → Extra

pub record FieldInfo : Type 0 where
  pub description : Option String
  pub json_schema_extra : Extra

abbrev pub meta_key : String
meta_key = "__agent_pinboard__"

-- A model class: its name, the classes of its MRO before `object` with their own annotations, and
-- its `model_fields`.
pub record Class : Type 0 where
  pub name : String
  pub mro : List (String × List String)
  pub model_fields : List (String × FieldInfo)

unfoldable pub meta_entity : Option Meta → Option Entity
meta_entity none = none
meta_entity (some not_dict) = none
meta_entity (some (entry e)) = e

unfoldable pub extra_entity : Extra → Option Entity
unfolding meta_entity
extra_entity (mapping d) = meta_entity (get meta_key d)
extra_entity _ = none

unfoldable pub field_entity : FieldInfo → Option Entity
unfolding extra_entity
field_entity info = extra_entity info.json_schema_extra

-- `json_schema_extra` as `node` completes it: `None` and an empty dict count as absent.
unfoldable pub with_entity : Extra → Entity → Result Extra
with_entity absent e = ok (mapping ((meta_key, entry (some e)) ∷ []))
with_entity callable e = raise config_error
with_entity (mapping d) e = ok (mapping (put meta_key (entry (some e)) d))

-- `type` and `description` are `none` where the argument is no `Entity` or no `str`.
unfoldable pub node : (String → String) → Option Entity → Option String → Extra → Result FieldInfo
unfolding with_entity
node strip none description extra = raise config_error
node strip (some e) none extra = raise config_error
node strip (some e) (some d) extra =
    if strip d == "" then raise config_error else elim (with_entity extra e) [
      | raise x ↦ raise x
      | ok extra' ↦ ok (record { description = some d; json_schema_extra = extra' })
    ]

-- `_declaring_class` of agent_pinboard/extract.py
unfoldable pub declaring : String → String → List (String × List String) → String
declaring fallback field [] = fallback
declaring fallback field ((klass, annotations) ∷ mro) =
    if contains field annotations then klass else declaring fallback field mro

unfoldable pub declaring_class : Class → String → String
unfolding declaring
declaring_class cls field = declaring cls.name field cls.mro
