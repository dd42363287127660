-- ===== src/Value.antt =====
-- Values of the host language, as far as agent_pinboard/extract.py and agent_pinboard/store.py
-- tell them apart: `None`, texts, lists, tuples, dicts, model instances and everything else.
use agent_pinboard.Prelude.{
  ℕ, String, Option, none, some, Bool, true, false, ◌==◌, if◌then◌else◌, string_eq,
}

-- A model instance is the name of its class and the values of its fields, in the order of the
-- class's `model_fields`.
mutual
  pub data Value : Type 0 where
    null : Value
    string : String → Value
    int : ℕ → Value
    other : String → Value
    list : Values → Value
    tuple : Values → Value
    dict : Attrs → Value
    model : String → Attrs → Value

  pub data Values : Type 0 where
    nil : Values
    cons : Value → Values → Values

  pub data Attrs : Type 0 where
    end : Attrs
    attr : String → Value → Attrs → Attrs

-- d.get(k)
unfoldable pub attr_get : String → Attrs → Option Value
attr_get k end = none
attr_get k (attr j v d) = if j == k then some v else attr_get k d

-- isinstance(value, (BaseModel, list, dict, tuple))
unfoldable pub is_container : Value → Bool
is_container (list _) = true
is_container (tuple _) = true
is_container (dict _) = true
is_container (model _ _) = true
is_container _ = false
