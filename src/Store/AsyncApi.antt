-- ===== src/Store/AsyncApi.antt =====
-- agent_pinboard/store.py: the asynchronous operations, and their agreement with the others.
use mathlib.Core.Path.{ap₂}
use agent_pinboard.Prelude.{
  ℕ, String, ◌≡◌, refl, ap, ◌∙◌, Option, none, some, List, [], ◌∷◌, map, get, string_eq,
}
use agent_pinboard.Value.{Value, Attrs, null}
use agent_pinboard.Models.{
  Result, ok, raise, ◌>>=◌, EventId, Entity, Node, FactEdge, ToolCallRecord, node_id, edge_id,
  value_error,
}
use agent_pinboard.Networkx.{MultiDiGraph}
use agent_pinboard.Graph.{FactGraph}
use agent_pinboard.Graph.Snapshot.{from_snapshot}
use agent_pinboard.Store.{
  Iso, Dict, Namespace, BaseStore, entities, stashed, ns_nodes, ns_edges, ns_entities,
  ns_tool_calls, ns_raw_events, node_to_dict, edge_to_dict, node_from_dict, edge_from_dict,
  tool_call_to_dict, tool_call_from_dict, put_nodes, put_edges, persist_delta,
}
use agent_pinboard.Store.Api.{
  scan_limit, read_all, sort_records, record_key, entity_to_dict, jsonable, load_graph,
  persist_tool_call, load_tool_calls, save_entities_registry, persist_raw_event, load_raw_event,
}

-- The asynchronous methods of langgraph's `BaseStore`. Awaited, each does what its synchronous
-- counterpart does.
pub record AsyncStore (base : BaseStore) : Type 0 where
  pub aget : Namespace → String → base.Store → Option Dict
  pub aput : Namespace → String → Dict → base.Store → base.Store
  pub asearch : Namespace → ℕ → base.Store → List (String × Dict)
  pub aget-eq : (ns : Namespace) (k : String) (s : base.Store) → aget ns k s ≡ base.item ns k s
  pub aput-eq :
      (ns : Namespace) (k : String) (d : Dict) (s : base.Store) → aput ns k d s ≡ base.put ns k d s
  pub asearch-eq :
      (ns : Namespace) (limit : ℕ) (s : base.Store) → asearch ns limit s ≡ base.search ns limit s

module _ (base : BaseStore) (async : AsyncStore base) (time : Iso) (thread_id : String) where
  unfoldable pub aload_graph :
      (nx : MultiDiGraph Node FactEdge) → base.Store → Result (FactGraph nx.Graph)
  unfolding read_all from_snapshot ns_nodes ns_edges
  aload_graph nx s =
      let node_items = async.asearch (ns_nodes thread_id) scan_limit s in
      let edge_items = async.asearch (ns_edges thread_id) scan_limit s in
      read_all (node_from_dict time) node_items >>= λ nodes.
      read_all edge_from_dict edge_items >>= λ edges. ok (from_snapshot nx nodes edges)

  unfoldable pub aput_nodes : List Node → base.Store → base.Store
  unfolding ns_nodes node_to_dict
  aput_nodes [] s = s
  aput_nodes (n ∷ ns) s =
      aput_nodes ns (async.aput (ns_nodes thread_id) (node_id n) (node_to_dict time n) s)

  unfoldable pub aput_edges : List FactEdge → base.Store → base.Store
  unfolding ns_edges edge_to_dict
  aput_edges [] s = s
  aput_edges (e ∷ es) s =
      aput_edges es (async.aput (ns_edges thread_id) (edge_id e) (edge_to_dict e) s)

  unfoldable pub apersist_delta : List Node → List FactEdge → base.Store → base.Store
  unfolding aput_nodes aput_edges
  apersist_delta new_or_updated_nodes new_edges s =
      aput_edges new_edges (aput_nodes new_or_updated_nodes s)

  unfoldable pub apersist_tool_call : ToolCallRecord → base.Store → base.Store
  unfolding record_key ns_tool_calls tool_call_to_dict
  apersist_tool_call r s =
      async.aput (ns_tool_calls thread_id) (record_key time r) (tool_call_to_dict time r) s

  unfoldable pub aload_tool_calls : base.Store → Result (List ToolCallRecord)
  unfolding read_all sort_records ns_tool_calls tool_call_from_dict
  aload_tool_calls s =
      read_all (tool_call_from_dict time) (async.asearch (ns_tool_calls thread_id) scan_limit s)
      >>= λ records. ok (sort_records records)

  unfoldable pub asave_entities_registry :
      ((Value → Result String) → String) → List (String × Entity) → base.Store → base.Store
  unfolding ns_entities entity_to_dict
  asave_entities_registry qualified registry s =
      async.aput (ns_entities thread_id) "registry"
        (("entities", entities (map (λ p. (p.0, entity_to_dict qualified p.1)) registry)) ∷ []) s

  unfoldable pub apersist_raw_event :
      (String → Attrs → Value)
      → (String → Option String)
      → EventId
      → Value
      → base.Store
      → base.Store
  unfolding ns_raw_events jsonable
  apersist_raw_event dumped as_date event_id raw s =
      async.aput (ns_raw_events thread_id) event_id
        (("raw", stashed (jsonable dumped as_date raw)) ∷ []) s

  unfoldable pub aload_raw_event : EventId → base.Store → Result Value
  unfolding ns_raw_events get
  aload_raw_event event_id s = elim (async.aget (ns_raw_events thread_id) event_id s) [
    | none ↦ ok null
    | some d ↦ elim (get "raw" d) [
      | none ↦ ok null
      | some v ↦ elim v [ stashed raw ↦ ok raw | _ ↦ raise value_error ]
    ]
  ]

  pub aload_graph-eq :
      (nx : MultiDiGraph Node FactEdge) (s : base.Store)
      → aload_graph nx s ≡ load_graph base time thread_id nx s
  unfolding aload_graph load_graph
  aload_graph-eq nx s =
      ap₂
        (λ ns es. read_all (node_from_dict time) ns >>= λ nodes.
          read_all edge_from_dict es >>= λ edges. ok (from_snapshot nx nodes edges))
        (async.asearch-eq (ns_nodes thread_id) scan_limit s)
        (async.asearch-eq (ns_edges thread_id) scan_limit s)

  aput_nodes-eq :
      (ns : List Node) (s : base.Store) → aput_nodes ns s ≡ put_nodes base time thread_id ns s
  unfolding aput_nodes put_nodes
  aput_nodes-eq [] s = refl
  aput_nodes-eq (n ∷ ns) s =
      ap (aput_nodes ns) (async.aput-eq (ns_nodes thread_id) (node_id n) (node_to_dict time n) s)
      ∙ aput_nodes-eq ns (base.put (ns_nodes thread_id) (node_id n) (node_to_dict time n) s)

  aput_edges-eq :
      (es : List FactEdge) (s : base.Store) → aput_edges es s ≡ put_edges base time thread_id es s
  unfolding aput_edges put_edges
  aput_edges-eq [] s = refl
  aput_edges-eq (e ∷ es) s =
      ap (aput_edges es) (async.aput-eq (ns_edges thread_id) (edge_id e) (edge_to_dict e) s)
      ∙ aput_edges-eq es (base.put (ns_edges thread_id) (edge_id e) (edge_to_dict e) s)

  pub apersist_delta-eq :
      (ns : List Node) (es : List FactEdge) (s : base.Store)
      → apersist_delta ns es s ≡ persist_delta base time thread_id ns es s
  unfolding apersist_delta persist_delta
  apersist_delta-eq ns es s =
      ap (aput_edges es) (aput_nodes-eq ns s)
      ∙ aput_edges-eq es (put_nodes base time thread_id ns s)

  pub apersist_tool_call-eq :
      (r : ToolCallRecord) (s : base.Store)
      → apersist_tool_call r s ≡ persist_tool_call base time thread_id r s
  unfolding apersist_tool_call persist_tool_call
  apersist_tool_call-eq r s =
      async.aput-eq (ns_tool_calls thread_id) (record_key time r) (tool_call_to_dict time r) s

  pub aload_tool_calls-eq :
      (s : base.Store) → aload_tool_calls s ≡ load_tool_calls base time thread_id s
  unfolding aload_tool_calls load_tool_calls
  aload_tool_calls-eq s =
      ap
        (λ items.
          read_all (tool_call_from_dict time) items >>= λ records. ok (sort_records records))
        (async.asearch-eq (ns_tool_calls thread_id) scan_limit s)

  pub apersist_raw_event-eq :
      (dumped : String → Attrs → Value) (as_date : String → Option String) (i : EventId)
      (raw : Value) (s : base.Store)
      → apersist_raw_event dumped as_date i raw s
        ≡ persist_raw_event base time thread_id dumped as_date i raw s
  unfolding apersist_raw_event persist_raw_event
  apersist_raw_event-eq dumped as_date i raw s =
      async.aput-eq (ns_raw_events thread_id) i
        (("raw", stashed (jsonable dumped as_date raw)) ∷ []) s

  aload_raw_event-eq :
      (i : EventId) (s : base.Store) → aload_raw_event i s ≡ load_raw_event base time thread_id i s
  unfolding aload_raw_event load_raw_event get
  aload_raw_event-eq i s =
      ap
        (λ (o : Option Dict). elim o [
          | none ↦ ok null
          | some d ↦ elim (get "raw" d) [
            | none ↦ ok null
            | some v ↦ elim v [ stashed raw ↦ ok raw | _ ↦ raise value_error ]
          ]
        ])
        (async.aget-eq (ns_raw_events thread_id) i s)

  asave_entities_registry-eq :
      (qualified : (Value → Result String) → String) (registry : List (String × Entity))
      (s : base.Store)
      → asave_entities_registry qualified registry s
        ≡ save_entities_registry base time thread_id qualified registry s
  unfolding asave_entities_registry save_entities_registry
  asave_entities_registry-eq qualified registry s =
      async.aput-eq (ns_entities thread_id) "registry"
        (("entities", entities (map (λ p. (p.0, entity_to_dict qualified p.1)) registry)) ∷ []) s
