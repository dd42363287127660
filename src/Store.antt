-- ===== src/Store.antt =====
-- agent_pinboard/store.py: the dicts that stand for nodes, edges and log records, and their keys in
-- the store.
pub mod Codec
pub mod Intact
pub mod Api
pub mod Reading
pub mod Session
pub mod Written
pub mod Json
pub mod Log
pub mod Ordered
pub mod AsyncApi
use agent_pinboard.Prelude.{
  ℕ, String, ◌≡◌, Option, none, some, List, [], ◌∷◌, Bool, ◌==◌, ◌&&◌, if◌then◌else◌, string_eq,
  pair_eq, get, All, length, ◌<◌,
}
use agent_pinboard.Value.{Value}
use agent_pinboard.Models.{
  Result, ok, raise, ◌>>=◌, key_error, value_error, NodeId, FactNode, EventNode, FactEdge, Node,
  fact, event, node_id, edge_id, event_node_type, ToolCallRecord,
}

-- `datetime.isoformat` and `datetime.fromisoformat`, which reads what the former writes.
pub record Iso : Type 0 where
  pub isoformat : ℕ → String
  pub fromisoformat : String → Result ℕ
  pub fromisoformat-isoformat : (t : ℕ) → fromisoformat (isoformat t) ≡ ok t

-- The values that the dicts have.
pub data Datum : Type 0 where
  absent_value : Datum
  word : String → Datum
  number : ℕ → Datum
  attributes : List (String × Value) → Datum
  entities : List (String × List (String × Option String)) → Datum
  stashed : Value → Datum

abbrev pub Dict : Type 0
Dict = List (String × Datum)

-- d[key], for a key that was written with a text. An entry of another type than the one it was
-- written with is an error here.
unfoldable pub word_at : String → Dict → Result String
unfolding get
word_at key d = elim (get key d) [
  | none ↦ raise key_error
  | some v ↦ elim v [ word s ↦ ok s | _ ↦ raise value_error ]
]

unfoldable pub number_at : String → Dict → Result ℕ
unfolding get
number_at key d = elim (get key d) [
  | none ↦ raise key_error
  | some v ↦ elim v [ number n ↦ ok n | _ ↦ raise value_error ]
]

-- d.get(key), for a text or None
unfoldable pub word_or_none : String → Dict → Result (Option String)
unfolding get
word_or_none key d = elim (get key d) [
  | none ↦ ok none
  | some v ↦ elim v [ absent_value ↦ ok none | word s ↦ ok (some s) | _ ↦ raise value_error ]
]

-- dict(d.get("properties") or {})
unfoldable pub properties_of : Dict → Result (List (String × Value))
unfolding get
properties_of d = elim (get "properties" d) [
  | none ↦ ok []
  | some v ↦ elim v [ absent_value ↦ ok [] | attributes ps ↦ ok ps | _ ↦ raise value_error ]
]

-- d.get("node_type", EVENT_NODE_TYPE)
unfoldable pub event_type_of : Dict → Result String
unfolding word_or_none
event_type_of d = elim (get "node_type" d) [
  | none ↦ ok event_node_type
  | some v ↦ elim v [ word s ↦ ok s | _ ↦ raise value_error ]
]

abbrev epoch : ℕ
epoch = 0

module _ (time : Iso) where
  unfoldable pub node_to_dict : Node → Dict
  node_to_dict (event n) =
      ("kind", word "event")
      ∷ ("id", word n.id)
      ∷ ("node_type", word n.node_type)
      ∷ ("source_tool", word n.source_tool)
      ∷ ("timestamp", word (time.isoformat n.timestamp))
      ∷ ("properties", attributes n.properties)
      ∷ []
  node_to_dict (fact n) =
      ("kind", word "fact")
      ∷ ("id", word n.id)
      ∷ ("node_type", word n.node_type)
      ∷ ("value", word n.value)
      ∷ ("canonical_value", word n.canonical_value)
      ∷ []

  unfoldable pub event_from_dict : Dict → Result Node
  unfolding word_at properties_of event_type_of
  event_from_dict d = word_at "id" d >>= λ i. event_type_of d >>= λ typ.
      word_at "source_tool" d >>= λ tool. word_at "timestamp" d >>= λ at.
      time.fromisoformat at >>= λ t. properties_of d >>= λ ps. ok (
        event
          (record { id = i; source_tool = tool; timestamp = t; properties = ps; node_type = typ }))

  unfoldable pub fact_from_dict : Dict → Result Node
  unfolding word_at
  fact_from_dict d = word_at "id" d >>= λ i. word_at "node_type" d >>= λ typ.
      word_at "value" d >>= λ v. word_at "canonical_value" d >>= λ c. ok (
        fact (record {
          id = i;
          node_type = typ;
          value = v;
          canonical_value = c;
          first_seen = epoch;
          last_seen = epoch;
          source_events = [];
          source_tools = [];
        }))

  unfoldable pub node_from_dict : Dict → Result Node
  unfolding event_from_dict fact_from_dict
  node_from_dict d =
      word_at "kind" d >>= λ kind. if kind == "event" then event_from_dict d else fact_from_dict d

  unfoldable pub tool_call_to_dict : ToolCallRecord → Dict
  tool_call_to_dict r =
      ("tool_name", word r.tool_name)
      ∷ ("args_repr", word r.args_repr)
      ∷ ("timestamp", word (time.isoformat r.timestamp))
      ∷ ("event_id", elim r.event_id [ none ↦ absent_value | some i ↦ word i ])
      ∷ ("summary", word r.summary)
      ∷ ("duration_ms", number r.duration_ms)
      ∷ []

  unfoldable pub tool_call_from_dict : Dict → Result ToolCallRecord
  unfolding word_at number_at word_or_none
  tool_call_from_dict d = word_at "tool_name" d >>= λ tool. word_at "args_repr" d >>= λ args.
      word_at "timestamp" d >>= λ at. time.fromisoformat at >>= λ t.
      word_or_none "event_id" d >>= λ i. word_at "summary" d >>= λ said.
      number_at "duration_ms" d >>= λ took. ok (record {
        tool_name = tool;
        args_repr = args;
        timestamp = t;
        event_id = i;
        summary = said;
        duration_ms = took;
      })

unfoldable pub edge_to_dict : FactEdge → Dict
edge_to_dict e =
    ("id", word (edge_id e))
    ∷ ("event_id", word e.event_id)
    ∷ ("target_id", word e.target_id)
    ∷ ("edge_type", word e.edge_type)
    ∷ ("description", word e.description)
    ∷ []

unfoldable pub edge_from_dict : Dict → Result FactEdge
unfolding word_at
edge_from_dict d = word_at "event_id" d >>= λ source. word_at "target_id" d >>= λ target.
    word_at "edge_type" d >>= λ typ. word_at "description" d >>= λ said.
    ok (record { event_id = source; target_id = target; edge_type = typ; description = said })

abbrev pub Namespace : Type 0
Namespace = String × (String × String)

unfoldable pub ns_nodes : String → Namespace
ns_nodes thread_id = ("agent_pinboard", (thread_id, "nodes"))

unfoldable pub ns_edges : String → Namespace
ns_edges thread_id = ("agent_pinboard", (thread_id, "edges"))

unfoldable pub ns_entities : String → Namespace
ns_entities thread_id = ("agent_pinboard", (thread_id, "entities"))

unfoldable pub ns_tool_calls : String → Namespace
ns_tool_calls thread_id = ("agent_pinboard", (thread_id, "tool_calls"))

unfoldable pub ns_raw_events : String → Namespace
ns_raw_events thread_id = ("agent_pinboard", (thread_id, "raw_events"))

-- What is used of langgraph's `BaseStore`: an entry is what was last put under its namespace and
-- key. `item` is store.get, and `search` lists entries of a namespace in some order, all of them
-- where it lists fewer than its limit.
pub record BaseStore : Type 1 where
  pub Store : Type 0
  pub item : Namespace → String → Store → Option Dict
  pub put : Namespace → String → Dict → Store → Store
  pub item-put :
      (ns ns' : Namespace) (k k' : String) (d : Dict) (s : Store)
      → item ns' k' (put ns k d s) ≡ (if ns == ns' && k == k' then some d else item ns' k' s)
  pub search : Namespace → ℕ → Store → List (String × Dict)
  pub search-item :
      (ns : Namespace) (limit : ℕ) (s : Store)
      → All (λ p. item ns p.0 s ≡ some p.1) (search ns limit s)
  pub item-search :
      (ns : Namespace) (limit : ℕ) (k : String) (d : Dict) (s : Store)
      → length (search ns limit s) < limit
      → item ns k s ≡ some d
      → get k (search ns limit s) ≡ some d

module _ (base : BaseStore) (time : Iso) (thread_id : String) where
  unfoldable pub put_nodes : List Node → base.Store → base.Store
  unfolding ns_nodes node_to_dict
  put_nodes [] s = s
  put_nodes (n ∷ ns) s =
      put_nodes ns (base.put (ns_nodes thread_id) (node_id n) (node_to_dict time n) s)

  unfoldable pub put_edges : List FactEdge → base.Store → base.Store
  unfolding ns_edges edge_to_dict
  put_edges [] s = s
  put_edges (e ∷ es) s = put_edges es (base.put (ns_edges thread_id) (edge_id e) (edge_to_dict e) s)

  unfoldable pub persist_delta : List Node → List FactEdge → base.Store → base.Store
  unfolding put_nodes put_edges
  persist_delta new_or_updated_nodes new_edges s =
      put_edges new_edges (put_nodes new_or_updated_nodes s)
