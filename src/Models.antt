-- ===== src/Models.antt =====
-- agent_pinboard/models.py, entity.py, enums.py and exceptions.py: the data of the fact graph. A
-- point in time is its distance from the epoch, as a number.
pub mod FactId
pub mod Host
use Prim.Native.String.{◌++◌ as str_append}
use agent_pinboard.Prelude.{ℕ, String, Option, List, ◌≡◌, refl, ◌⊎◌, inl, inr, arith}
use agent_pinboard.Value.{Value}

-- exceptions.py, and the errors of the host language that the modelled code raises itself
pub data Error : Type 0 where
  config_error validation_error normalizer_error extraction_error : Error
  value_error key_error assertion_error tool_error : Error

pub data Result {ℓ} (A : Type ℓ) : Type ℓ where
  ok : A → Result A
  raise : Error → Result A

infixl 10 ◌>>=◌
module _ {ℓ κ} {A : Type ℓ} {B : Type κ} where
  -- An error ends the chain.
  abbrev pub ◌>>=◌ : Result A → (A → Result B) → Result B
  ◌>>=◌ (raise e) next = raise e
  ◌>>=◌ (ok a) next = next a

pub Result-cases {ℓ} :
    {A : Type ℓ} (r : Result A) → ((a : A) × (r ≡ ok a)) ⊎ ((e : Error) × (r ≡ raise e))
Result-cases (ok a) = inl (a, refl)
Result-cases (raise e) = inr (e, refl)

pub ok-injective {ℓ} : {A : Type ℓ} {a b : A} → ok a ≡ ok b → a ≡ b
ok-injective h = cc

-- A chain that returns has a first step that returns.
module _ {A B : Type 0} {b : B} where
  pub >>=-eq-ok :
      (first : Result A) (next : A → Result B)
      → first >>= next ≡ ok b
      → (a : A) × (first ≡ ok a) × (next a ≡ ok b)
  >>=-eq-ok (raise e) next h = absurd (ground arith)
  >>=-eq-ok (ok a) next h = (a, refl, h)

-- A chain that raises has a step that raises.
pub >>=-eq-raise :
    {A B : Type 0} (first : Result A) (next : A → Result B) (x : Error)
    → first >>= next ≡ raise x
    → (first ≡ raise x) ⊎ ((a : A) × (first ≡ ok a) × (next a ≡ raise x))
>>=-eq-raise (raise e) next x h = inl (ground (arith, h))
>>=-eq-raise (ok a) next x h = inr (a, refl, h)

abbrev pub NodeId : Type 0
NodeId = String

abbrev pub EventId : Type 0
EventId = String

abbrev pub event_node_type : String
event_node_type = "Event"

-- `none` stands for a normalizer that is not given.
pub record Entity : Type 0 where
  pub name : String
  pub description : String
  pub normalizer : Option (Value → Result String)

pub data Direction : Type 0 where
  out in_ both : Direction

pub data OnDuplicate : Type 0 where
  always skip cache : OnDuplicate

pub record FactNode : Type 0 where
  pub id : NodeId
  pub node_type : String
  pub value : String
  pub canonical_value : String
  pub first_seen : ℕ
  pub last_seen : ℕ
  pub source_events : List EventId
  pub source_tools : List String

pub record EventNode : Type 0 where
  pub id : EventId
  pub source_tool : String
  pub timestamp : ℕ
  pub properties : List (String × Value)
  pub node_type : String

pub record FactEdge : Type 0 where
  pub event_id : EventId
  pub target_id : NodeId
  pub edge_type : String
  pub description : String

-- FactNode | EventNode
pub data Node : Type 0 where
  fact : FactNode → Node
  event : EventNode → Node

abbrev pub node_id : Node → NodeId
node_id (fact f) = f.id
node_id (event e) = e.id

-- FactEdge.id
unfoldable pub edge_id : FactEdge → String
edge_id e =
    str_append e.event_id (str_append "|" (str_append e.edge_type (str_append "|" e.target_id)))

abbrev pub node_type : Node → String
node_type (fact f) = f.node_type
node_type (event e) = e.node_type

-- fact_node_id. `digest` is hashlib's SHA-256 and the cut to 16 hexadecimal digits.
unfoldable pub fact_node_id : (String → String) → String → String → NodeId
fact_node_id digest node_type canonical_value =
    digest (str_append node_type (str_append "|" canonical_value))

pub record IngestResult : Type 0 where
  pub event_ids : List EventId
  pub new_nodes : ℕ
  pub linked_nodes : ℕ
  pub new_edges : ℕ
  pub warnings : List String

pub record ToolCallRecord : Type 0 where
  pub tool_name : String
  pub args_repr : String
  pub timestamp : ℕ
  pub event_id : Option EventId
  pub summary : String
  pub duration_ms : ℕ
