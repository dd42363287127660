-- ===== src/Store/Api.antt =====
-- agent_pinboard/store.py: the synchronous operations on a session other than `persist_delta`: the
-- loaded graph, the log of tool calls, the registry and the raw returns.
use Prim.Native.String.{◌++◌ as str_append}
use agent_pinboard.Prelude.{
  ℕ, String, Option, none, some, List, [], ◌∷◌, if◌then◌else◌, leb, map, get, string_eq,
}
use agent_pinboard.Value.{
  Value, Values, Attrs, null, string, int, other, list, tuple, dict, model, nil, cons, end, attr,
}
use agent_pinboard.Models.{
  Result, ok, raise, ◌>>=◌, EventId, Entity, Node, FactEdge, ToolCallRecord, value_error,
}
use agent_pinboard.Networkx.{MultiDiGraph}
use agent_pinboard.Graph.{FactGraph}
use agent_pinboard.Graph.Snapshot.{from_snapshot}
use agent_pinboard.Store.{
  Iso, Dict, BaseStore, entities, stashed, ns_nodes, ns_edges, ns_entities, ns_tool_calls,
  ns_raw_events, node_from_dict, edge_from_dict, tool_call_to_dict, tool_call_from_dict,
}

-- _SCAN_LIMIT
abbrev pub scan_limit : ℕ
scan_limit = 10000

-- [read(item.value) for item in items]
unfoldable pub read_all : {A : Type 0} → (Dict → Result A) → List (String × Dict) → Result (List A)
read_all read [] = ok []
read_all read ((_, d) ∷ items) = read d >>= λ a. read_all read items >>= λ rest. ok (a ∷ rest)

-- records.sort(key=lambda r: r.timestamp), which is stable
unfoldable pub insert_record : ToolCallRecord → List ToolCallRecord → List ToolCallRecord
insert_record r [] = r ∷ []
insert_record r (x ∷ xs) =
    if leb r.timestamp x.timestamp then r ∷ x ∷ xs else x ∷ insert_record r xs

unfoldable pub sort_records : List ToolCallRecord → List ToolCallRecord
unfolding insert_record
sort_records [] = []
sort_records (r ∷ rs) = insert_record r (sort_records rs)

-- f"{record.timestamp.isoformat()}|{record.tool_name}"
unfoldable pub record_key : Iso → ToolCallRecord → String
record_key time r = str_append (time.isoformat r.timestamp) (str_append "|" r.tool_name)

-- `qualified` is the dotted name of a callable.
unfoldable pub entity_to_dict :
    ((Value → Result String) → String) → Entity → List (String × Option String)
entity_to_dict qualified e =
    ("name", some e.name)
    ∷ ("description", some e.description)
    ∷ ("normalizer", elim e.normalizer [ none ↦ none | some f ↦ some (qualified f) ])
    ∷ []

-- `dumped` is pydantic's model_dump, and `as_date` the ISO text of a value that is a date or a
-- datetime.
module _ (dumped : String → Attrs → Value) (as_date : String → Option String) where
  unfoldable mutual
    pub jsonable : Value → Value
    jsonable null = null
    jsonable (string s) = string s
    jsonable (int n) = int n
    jsonable (other s) = elim (as_date s) [ none ↦ other s | some t ↦ string t ]
    jsonable (list vs) = list (jsonable_all vs)
    jsonable (tuple vs) = list (jsonable_all vs)
    jsonable (dict d) = dict (jsonable_items d)
    jsonable (model c d) = dumped c d

    pub jsonable_all : Values → Values
    jsonable_all nil = nil
    jsonable_all (cons v vs) = cons (jsonable v) (jsonable_all vs)

    pub jsonable_items : Attrs → Attrs
    jsonable_items end = end
    jsonable_items (attr k v d) = attr k (jsonable v) (jsonable_items d)

module _ (base : BaseStore) (time : Iso) (thread_id : String) where
  unfoldable pub load_graph :
      (nx : MultiDiGraph Node FactEdge) → base.Store → Result (FactGraph nx.Graph)
  unfolding read_all from_snapshot ns_nodes ns_edges
  load_graph nx s =
      let node_items = base.search (ns_nodes thread_id) scan_limit s in
      let edge_items = base.search (ns_edges thread_id) scan_limit s in
      read_all (node_from_dict time) node_items >>= λ nodes.
      read_all edge_from_dict edge_items >>= λ edges. ok (from_snapshot nx nodes edges)

  unfoldable pub persist_tool_call : ToolCallRecord → base.Store → base.Store
  unfolding record_key ns_tool_calls tool_call_to_dict
  persist_tool_call r s =
      base.put (ns_tool_calls thread_id) (record_key time r) (tool_call_to_dict time r) s

  unfoldable pub load_tool_calls : base.Store → Result (List ToolCallRecord)
  unfolding read_all sort_records ns_tool_calls tool_call_from_dict
  load_tool_calls s =
      read_all (tool_call_from_dict time) (base.search (ns_tool_calls thread_id) scan_limit s)
      >>= λ records. ok (sort_records records)

  unfoldable pub save_entities_registry :
      ((Value → Result String) → String) → List (String × Entity) → base.Store → base.Store
  unfolding ns_entities entity_to_dict
  save_entities_registry qualified registry s =
      base.put (ns_entities thread_id) "registry"
        (("entities", entities (map (λ p. (p.0, entity_to_dict qualified p.1)) registry)) ∷ []) s

  unfoldable pub persist_raw_event :
      (String → Attrs → Value)
      → (String → Option String)
      → EventId
      → Value
      → base.Store
      → base.Store
  unfolding ns_raw_events jsonable
  persist_raw_event dumped as_date event_id raw s =
      base.put (ns_raw_events thread_id) event_id
        (("raw", stashed (jsonable dumped as_date raw)) ∷ []) s

  -- item.value.get("raw"), for an entry that a raw return was stashed in
  unfoldable pub load_raw_event : EventId → base.Store → Result Value
  unfolding ns_raw_events get
  load_raw_event event_id s = elim (base.item (ns_raw_events thread_id) event_id s) [
    | none ↦ ok null
    | some d ↦ elim (get "raw" d) [
      | none ↦ ok null
      | some v ↦ elim v [ stashed raw ↦ ok raw | _ ↦ raise value_error ]
    ]
  ]
