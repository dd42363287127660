-- ===== src/Decorator/Wrapper.antt =====
-- agent_pinboard/decorator.py: the synchronous wrapper around a tool, over the store and the log.
pub mod Sound
pub mod Kept
pub mod Repeated
use Prim.Native.String.{◌++◌ as str_append}
use agent_pinboard.Prelude.{
  ℕ, String, Option, none, some, List, [], ◌∷◌, ◌++◌, Bool, true, false, if◌then◌else◌, ltb, length,
}
use agent_pinboard.Value.{Value, Attrs, string}
use agent_pinboard.Models.{
  Error, Result, ok, raise, ◌>>=◌, EventId, NodeId, EventNode, FactEdge, Node, event, fact,
  IngestResult, ToolCallRecord, OnDuplicate, always, skip, cache,
}
use agent_pinboard.Models.Host.{Host}
use agent_pinboard.Networkx.{MultiDiGraph}
use agent_pinboard.Fields.{Class}
use agent_pinboard.Graph.{FactGraph, node_at}
use agent_pinboard.Store.{Iso, BaseStore, persist_delta}
use agent_pinboard.Store.Api.{persist_tool_call, load_tool_calls, persist_raw_event}
use agent_pinboard.Config.{Config}
use agent_pinboard.Session.{get_or_load_session}
use agent_pinboard.Decorator.{
  Item, Payload, Ingest, build_payload, validate, last_matching, summary, first_event,
}
use agent_pinboard.Decorator.Arguments.{Ctx, Argument, resolve_runtime, canonical_args_repr}

-- The data of the ingest event. A fact is referred to by its id: the graph has the object.
pub record IngestData (G : Type 0) : Type 0 where
  pub thread_id : String
  pub tool_name : String
  pub result : IngestResult
  pub events : List EventNode
  pub new_facts : List NodeId
  pub linked_facts : List NodeId
  pub new_edges : List FactEdge
  pub graph : FactGraph G

-- What the logger gets.
pub data Message : Type 0 where
  soft_limit_exceeded : String → ℕ → ℕ → Message
  dispatch_failed : Message

-- What the callbacks' dispatcher raises: no callback manager is in scope, or one of them fails.
pub data Failure : Type 0 where
  no_context broken : Failure

-- What a call acts on: the store, the ingest events that were delivered, and the logger.
pub record World (S G : Type 0) : Type 0 where
  pub store : S
  pub ingests : List (IngestData G)
  pub logged : List Message

-- A step's result, or what it raised, and the world that it leaves in both cases.
abbrev pub Outcome : Type 0 → Type 0 → Type 0
Outcome W A = Result A × W

infixl 10 ◌>=>◌
-- What is raised ends the chain and leaves the world as it is then.
abbrev pub ◌>=>◌ : {W A B : Type 0} → Outcome W A → (A → W → Outcome W B) → Outcome W B
◌>=>◌ (raise e, w) next = (raise e, w)
◌>=>◌ (ok a, w) next = next a w

-- [n for n in payload.nodes if isinstance(n, EventNode)]
abbrev pub events_of : List Node → List EventNode
events_of [] = []
events_of (event e ∷ nodes) = e ∷ events_of nodes
events_of (fact f ∷ nodes) = events_of nodes

-- The objects that the ids of a payload refer to.
unfoldable pub objects_of :
    (nx : MultiDiGraph Node FactEdge) → FactGraph nx.Graph → List NodeId → Result (List Node)
unfolding node_at
objects_of nx graph [] = ok []
objects_of nx graph (i ∷ ids) =
    node_at nx i graph >>= λ n. objects_of nx graph ids >>= λ nodes. ok (n ∷ nodes)

-- `now` and `took` are the time of the call's log record and its duration in milliseconds.
unfoldable pub build_record : ℕ → ℕ → Ctx → String → Option EventId → String → ToolCallRecord
build_record now took ctx args_repr event_id said = record {
  tool_name = ctx.tool_name;
  args_repr = args_repr;
  timestamp = now;
  event_id = event_id;
  summary = said;
  duration_ms = took;
}

unfoldable pub apply_transform : Ctx → Value → IngestResult → Result Value
apply_transform ctx raw result = elim ctx.response_transform [
  | none ↦ ok raw
  | some transform ↦ transform raw result
]

unfoldable pub build_ingest_payload :
    {G : Type 0} → Ctx → String → List Node → Payload → IngestResult → FactGraph G → IngestData G
build_ingest_payload ctx thread_id nodes payload result graph = record {
  thread_id = thread_id;
  tool_name = ctx.tool_name;
  result = result;
  events = events_of nodes;
  new_facts = payload.new_facts;
  linked_facts = payload.linked_facts;
  new_edges = payload.edges;
  graph = graph;
}

-- `deliver` is dispatch_custom_event: `none` where every handler has the event.
unfoldable pub dispatch_ingest_event :
    {S G : Type 0} → (IngestData G → Option Failure) → IngestData G → World S G → World S G
dispatch_ingest_event deliver data_ w = elim (deliver data_) [
  | none ↦ record w { ingests = w.ingests ++ data_ ∷ [] }
  | some no_context ↦ w
  | some broken ↦ record w { logged = w.logged ++ dispatch_failed ∷ [] }
]

module _ (base : BaseStore) (time : Iso) (config : Config) (ctx : Ctx) (G : Type 0)
    (thread_id args_repr : String) (now took : ℕ) where
  -- store_io.persist_tool_call of a record that is built now
  unfoldable pub log_call : Option EventId → String → World base.Store G → World base.Store G
  unfolding persist_tool_call build_record
  log_call event_id said w = record w {
    store =
        persist_tool_call base time thread_id (build_record now took ctx args_repr event_id said)
          w.store;
  }

  unfoldable pub warn_above : List ToolCallRecord → World base.Store G → World base.Store G
  warn_above records w =
      if ltb config.tool_log_soft_limit (length records)
      then record w {
        logged =
            w.logged
            ++ soft_limit_exceeded thread_id (length records) config.tool_log_soft_limit ∷ [];
      }
      else w

  unfoldable pub maybe_warn_soft_limit :
      World base.Store G → Outcome (World base.Store G) (Unit {0})
  unfolding load_tool_calls warn_above
  maybe_warn_soft_limit w = elim (load_tool_calls base time thread_id w.store) [
    | raise e ↦ (raise e, w)
    | ok records ↦ (ok tt, warn_above records w)
  ]

  unfoldable pub find_duplicate_sync : World base.Store G → Result (Option ToolCallRecord)
  unfolding load_tool_calls last_matching
  find_duplicate_sync w = elim ctx.on_duplicate [
    | always ↦ ok none
    | _ ↦ load_tool_calls base time thread_id w.store >>= λ records.
        ok (last_matching ctx.tool_name args_repr records)
  ]

  unfoldable pub handle_duplicate_sync :
      ToolCallRecord → World base.Store G → Outcome (World base.Store G) Value
  unfolding maybe_warn_soft_limit log_call
  handle_duplicate_sync last w = elim ctx.on_duplicate [
    | skip ↦ maybe_warn_soft_limit (log_call none "duplicate (skipped)" w) >=> λ _ w'.
        (ok (string "duplicate call skipped"), w')
    | _ ↦ maybe_warn_soft_limit (log_call none "duplicate (cached)" w) >=> λ _ w'. (
      ok (
          string
            (str_append "duplicate (cached at " (str_append (time.isoformat last.timestamp) ")"))),
      w',
    )
  ]

-- The loop that stashes the raw return under each event.
unfoldable pub persist_raw_events :
    (base : BaseStore)
    → Iso
    → String
    → (String → Attrs → Value)
    → (String → Option String)
    → Value
    → List EventId
    → base.Store
    → base.Store
unfolding persist_raw_event
persist_raw_events base time thread_id dumped as_date raw [] s = s
persist_raw_events base time thread_id dumped as_date raw (i ∷ ids) s =
    persist_raw_events base time thread_id dumped as_date raw ids
      (persist_raw_event base time thread_id dumped as_date i raw s)

module _ (base : BaseStore) (time : Iso) (config : Config) (ctx : Ctx)
    (nx : MultiDiGraph Node FactEdge) (host : Host) (class_of : String → Class) (uuid : ℕ → String)
    (stamp : ℕ → ℕ) (clock : ℕ → ℕ → ℕ) (now took : ℕ) (as_instance : Value → Option Item)
    (show : ℕ → String) (dumped : String → Attrs → Value) (as_date : String → Option String)
    (deliver : IngestData nx.Graph → Option Failure) (thread_id args_repr : String) where
  abbrev pub WorldOf : Type 0
  WorldOf = World base.Store nx.Graph

  -- What runs under the session's lock: the graph is loaded, takes the items, and the delta is
  -- persisted. What is raised before that leaves the store.
  unfoldable pub ingest_items_of :
      List Item → WorldOf → Outcome WorldOf (Ingest nx.Graph × List Node)
  unfolding get_or_load_session build_payload objects_of persist_delta
  ingest_items_of items w =
      let made : Result (Ingest nx.Graph × List Node) =
        get_or_load_session base time thread_id nx w.store >>= λ graph.
        build_payload nx host class_of uuid stamp clock ctx.tool_name graph items >>= λ s.
        objects_of nx s.graph s.payload.nodes >>= λ nodes. ok (s, nodes) in
      elim made [
        | raise e ↦ (raise e, w)
        | ok (s, nodes) ↦ (
          ok (s, nodes),
          record w { store = persist_delta base time thread_id nodes s.payload.edges w.store },
        )
      ]

  -- What follows the lock's release.
  unfoldable pub after_ingest :
      Value → Ingest nx.Graph → List Node → WorldOf → Outcome WorldOf Value
  unfolding persist_raw_events log_call first_event summary maybe_warn_soft_limit
      dispatch_ingest_event build_ingest_payload apply_transform
  after_ingest raw s nodes w =
      let stashed : WorldOf =
        if ctx.store_raw
        then record w {
          store =
              persist_raw_events base time thread_id dumped as_date raw s.result.event_ids w.store;
        }
        else w in
      maybe_warn_soft_limit base time config ctx nx.Graph thread_id args_repr now took (
        log_call base time config ctx nx.Graph thread_id args_repr now took (first_event s.result)
          (summary show s.result) stashed)
      >=> λ _ w'. (
        apply_transform ctx raw s.result,
        dispatch_ingest_event deliver
            (build_ingest_payload ctx thread_id nodes s.payload s.result s.graph) w',
      )

  -- What the wrapper does with the tool's return, or with what it raised.
  unfoldable pub after_tool : Result Value → WorldOf → Outcome WorldOf Value
  unfolding log_call validate ingest_items_of after_ingest
  after_tool (raise e) w = (
    raise e,
    log_call base time config ctx nx.Graph thread_id args_repr now took none "error: tool raised" w,
  )
  after_tool (ok raw) w = elim (validate as_instance ctx.many raw) [
    | raise e ↦ (raise e, w)
    | ok items ↦ ingest_items_of items w >=> λ p w'. after_ingest raw p.0 p.1 w'
  ]

  -- The wrapper once the runtime is resolved and the arguments are printed. `original` is the tool:
  -- it may raise, and the store after it is what the tool and the session's other calls made of it.
  unfoldable pub run_call :
      (base.Store → Result Value × base.Store) → WorldOf → Outcome WorldOf Value
  unfolding find_duplicate_sync handle_duplicate_sync after_tool
  run_call original w =
      elim (find_duplicate_sync base time config ctx nx.Graph thread_id args_repr now took w) [
        | raise e ↦ (raise e, w)
        | ok (some last) ↦
            handle_duplicate_sync base time config ctx nx.Graph thread_id args_repr now took last w
        | ok none ↦ let made = original w.store in after_tool made.0 (record w { store = made.1 })
      ]

module _
    (bind_partial : List Argument → List (String × Argument) → Result (List (String × Argument)))
    (apply_defaults : List (String × Argument) → List (String × Argument))
    (dumps : List (String × Argument) → Result String) (base : BaseStore) (time : Iso)
    (config : Config) (ctx : Ctx) (nx : MultiDiGraph Node FactEdge) (host : Host)
    (class_of : String → Class) (uuid : ℕ → String) (stamp : ℕ → ℕ) (clock : ℕ → ℕ → ℕ)
    (now took : ℕ) (as_instance : Value → Option Item) (show : ℕ → String)
    (dumped : String → Attrs → Value) (as_date : String → Option String)
    (deliver : IngestData nx.Graph → Option Failure) where
  -- The wrapper, `fresh` being a new UUID for a run without a thread id.
  unfoldable pub sync_wrapper :
      String
      → (List Argument → List (String × Argument) → base.Store → Result Value × base.Store)
      → List Argument
      → List (String × Argument)
      → World base.Store nx.Graph
      → Outcome (World base.Store nx.Graph) Value
  unfolding resolve_runtime canonical_args_repr run_call
  sync_wrapper fresh original args kwargs w =
      let resolved : Result (String × String) =
        resolve_runtime bind_partial fresh args kwargs >>= λ thread_id.
        canonical_args_repr dumped bind_partial apply_defaults dumps ctx args kwargs
        >>= λ args_repr. ok (thread_id, args_repr) in
      elim resolved [
        | raise e ↦ (raise e, w)
        | ok (thread_id, args_repr) ↦
            run_call base time config ctx nx host class_of uuid stamp clock now took as_instance
              show dumped as_date deliver thread_id args_repr (original args kwargs) w
      ]
