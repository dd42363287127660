-- ===== src/Decorator/Arguments.antt =====
-- agent_pinboard/decorator.py: what the wrapper around a tool makes of the arguments of a call.
use agent_pinboard.Prelude.{
  String, Option, none, some, List, [], ◌∷◌, ◌++◌, Bool, ◌==◌, if◌then◌else◌, string_eq, get,
  contains, map,
}
use agent_pinboard.Value.{
  Value, Values, Attrs, null, string, int, other, list, tuple, dict, model, nil, cons, end, attr,
}
use agent_pinboard.Models.{Result, ok, raise, ◌>>=◌, IngestResult, OnDuplicate, config_error}
use agent_pinboard.Session.{thread_id_from}

-- `_Ctx`, without the model class and the signature.
pub record Ctx : Type 0 where
  pub many : Bool
  pub mask_args : List String
  pub on_duplicate : OnDuplicate
  pub response_transform : Option (Value → IngestResult → Result Value)
  pub tool_name : String
  pub store_raw : Bool

-- What of a ToolRuntime is used: whether it has a store, and its config.
pub record Runtime : Type 0 where
  pub has_store : Bool
  pub config : Value

-- An argument that has the attributes `store` and `config` is a runtime. Any other has no store.
pub data Argument : Type 0 where
  plain : Value → Argument
  runtime : Runtime → Argument

-- The first runtime among the arguments.
unfoldable pub first_runtime : List Argument → Option Argument
first_runtime [] = none
first_runtime (plain _ ∷ arguments) = first_runtime arguments
first_runtime (runtime r ∷ arguments) = some (runtime r)

-- The argument that is bound to `runtime`, where it is not None.
unfoldable pub bound_runtime : Option Argument → Option Argument
bound_runtime (some (plain null)) = none
bound_runtime o = o

-- Parameters: `bind_partial` and `apply_defaults` of the tool's signature, json.dumps with sorted
-- keys, pydantic's model_dump, and a new UUID.
module _
    (bind_partial : List Argument
      → List (String × Argument)
      → Result (List (String × Argument))) where
  unfoldable pub resolve_runtime : String → List Argument → List (String × Argument) → Result String
  unfolding first_runtime bound_runtime thread_id_from get
  resolve_runtime fresh args kwargs = bind_partial args kwargs >>= λ bound.
      let found : Option Argument = elim (bound_runtime (get "runtime" bound)) [
        | some r ↦ some r
        | none ↦ first_runtime (args ++ map (λ p. p.1) kwargs)
      ] in
      elim found [
        | none ↦ raise config_error
        | some (plain v) ↦ raise config_error
        | some (runtime r) ↦
            if r.has_store then ok (thread_id_from fresh r.config) else raise config_error
      ]

module _ (dumped : String → Attrs → Value) where
  -- `_jsonable` of decorator.py, which leaves a date as it is.
  unfoldable mutual
    pub arg_jsonable : Value → Value
    arg_jsonable null = null
    arg_jsonable (string s) = string s
    arg_jsonable (int n) = int n
    arg_jsonable (other s) = other s
    arg_jsonable (list vs) = list (arg_jsonable_all vs)
    arg_jsonable (tuple vs) = list (arg_jsonable_all vs)
    arg_jsonable (dict d) = dict (arg_jsonable_items d)
    arg_jsonable (model c d) = dumped c d

    pub arg_jsonable_all : Values → Values
    arg_jsonable_all nil = nil
    arg_jsonable_all (cons v vs) = cons (arg_jsonable v) (arg_jsonable_all vs)

    pub arg_jsonable_items : Attrs → Attrs
    arg_jsonable_items end = end
    arg_jsonable_items (attr k v d) = attr k (arg_jsonable v) (arg_jsonable_items d)

  abbrev pub jsonable_argument : Argument → Argument
  unfolding arg_jsonable
  jsonable_argument (plain v) = plain (arg_jsonable v)
  jsonable_argument (runtime r) = runtime r

  -- The payload of `_canonical_args_repr`. The names that a signature binds are distinct.
  unfoldable pub args_payload : List String → List (String × Argument) → List (String × Argument)
  unfolding contains jsonable_argument
  args_payload mask [] = []
  args_payload mask ((name, v) ∷ bound) =
      let rest = args_payload mask bound in
      if name == "runtime"
      then rest
      else if contains name mask
      then (name, plain (string "***")) ∷ rest
      else (name, jsonable_argument v) ∷ rest

  unfoldable pub canonical_args_repr :
      (List Argument → List (String × Argument) → Result (List (String × Argument)))
      → (List (String × Argument) → List (String × Argument))
      → (List (String × Argument) → Result String)
      → Ctx
      → List Argument
      → List (String × Argument)
      → Result String
  unfolding args_payload
  canonical_args_repr bind_partial apply_defaults dumps ctx args kwargs =
      bind_partial args kwargs >>= λ bound.
      dumps (args_payload ctx.mask_args (apply_defaults bound))
