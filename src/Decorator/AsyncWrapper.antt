-- ===== src/Decorator/AsyncWrapper.antt =====
-- agent_pinboard/decorator.py: the asynchronous wrapper around a tool, awaited, and its agreement
-- with the synchronous one.
pub mod Agreement
use Prim.Native.String.{◌++◌ as str_append}
use agent_pinboard.Prelude.{
  ℕ, String, Option, none, some, List, [], ◌∷◌, ◌++◌, Bool, true, false, if◌then◌else◌,
}
use agent_pinboard.Value.{Value, Attrs, string}
use agent_pinboard.Models.{
  Error, Result, ok, raise, ◌>>=◌, EventId, FactEdge, Node, ToolCallRecord, always, skip, cache,
}
use agent_pinboard.Models.Host.{Host}
use agent_pinboard.Networkx.{MultiDiGraph}
use agent_pinboard.Fields.{Class}
use agent_pinboard.Store.{Iso, BaseStore}
use agent_pinboard.Store.AsyncApi.{
  AsyncStore, apersist_delta, apersist_tool_call, aload_tool_calls, apersist_raw_event,
}
use agent_pinboard.Config.{Config}
use agent_pinboard.Session.{aget_or_load_session}
use agent_pinboard.Decorator.{
  Item, Ingest, build_payload, validate, last_matching, summary, first_event,
}
use agent_pinboard.Decorator.Arguments.{Ctx, Argument, resolve_runtime, canonical_args_repr}
use agent_pinboard.Decorator.Wrapper.{
  IngestData, Failure, World, Outcome, ◌>=>◌, objects_of, build_record, apply_transform,
  build_ingest_payload, warn_above, no_context, broken, dispatch_failed,
}

-- `adeliver` is adispatch_custom_event, awaited: `none` where every handler has the event.
unfoldable pub adispatch_ingest_event :
    {S G : Type 0} → (IngestData G → Option Failure) → IngestData G → World S G → World S G
adispatch_ingest_event adeliver data_ w = elim (adeliver data_) [
  | none ↦ record w { ingests = w.ingests ++ data_ ∷ [] }
  | some no_context ↦ w
  | some broken ↦ record w { logged = w.logged ++ dispatch_failed ∷ [] }
]

module _ (base : BaseStore) (async : AsyncStore base) (time : Iso) (config : Config) (ctx : Ctx)
    (G : Type 0) (thread_id args_repr : String) (now took : ℕ) where
  -- store_io.apersist_tool_call of a record that is built now
  unfoldable pub alog_call : Option EventId → String → World base.Store G → World base.Store G
  unfolding apersist_tool_call build_record
  alog_call event_id said w = record w {
    store =
        apersist_tool_call base async time thread_id
          (build_record now took ctx args_repr event_id said) w.store;
  }

  unfoldable pub amaybe_warn_soft_limit :
      World base.Store G → Outcome (World base.Store G) (Unit {0})
  unfolding aload_tool_calls warn_above
  amaybe_warn_soft_limit w = elim (aload_tool_calls base async time thread_id w.store) [
    | raise e ↦ (raise e, w)
    | ok records ↦ (ok tt, warn_above base time config ctx G thread_id args_repr now took records w)
  ]

  unfoldable pub afind_duplicate : World base.Store G → Result (Option ToolCallRecord)
  unfolding aload_tool_calls last_matching
  afind_duplicate w = elim ctx.on_duplicate [
    | always ↦ ok none
    | _ ↦ aload_tool_calls base async time thread_id w.store >>= λ records.
        ok (last_matching ctx.tool_name args_repr records)
  ]

  unfoldable pub ahandle_duplicate :
      ToolCallRecord → World base.Store G → Outcome (World base.Store G) Value
  unfolding amaybe_warn_soft_limit alog_call
  ahandle_duplicate last w = elim ctx.on_duplicate [
    | skip ↦ amaybe_warn_soft_limit (alog_call none "duplicate (skipped)" w) >=> λ _ w'.
        (ok (string "duplicate call skipped"), w')
    | _ ↦ amaybe_warn_soft_limit (alog_call none "duplicate (cached)" w) >=> λ _ w'. (
      ok (
          string
            (str_append "duplicate (cached at " (str_append (time.isoformat last.timestamp) ")"))),
      w',
    )
  ]

-- The loop that stashes the raw return under each event.
unfoldable pub apersist_raw_events :
    (base : BaseStore)
    → AsyncStore base
    → Iso
    → String
    → (String → Attrs → Value)
    → (String → Option String)
    → Value
    → List EventId
    → base.Store
    → base.Store
unfolding apersist_raw_event
apersist_raw_events base async time thread_id dumped as_date raw [] s = s
apersist_raw_events base async time thread_id dumped as_date raw (i ∷ ids) s =
    apersist_raw_events base async time thread_id dumped as_date raw ids
      (apersist_raw_event base async time thread_id dumped as_date i raw s)

module _ (base : BaseStore) (async : AsyncStore base) (time : Iso) (config : Config) (ctx : Ctx)
    (nx : MultiDiGraph Node FactEdge) (host : Host) (class_of : String → Class) (uuid : ℕ → String)
    (stamp : ℕ → ℕ) (clock : ℕ → ℕ → ℕ) (now took : ℕ) (as_instance : Value → Option Item)
    (show : ℕ → String) (dumped : String → Attrs → Value) (as_date : String → Option String)
    (adeliver : IngestData nx.Graph → Option Failure) (thread_id args_repr : String) where
  -- What runs under the session's lock: the graph is loaded, takes the items, and the delta is
  -- persisted. What is raised before that leaves the store.
  unfoldable pub aingest_items_of :
      List Item
      → World base.Store nx.Graph
      → Outcome (World base.Store nx.Graph) (Ingest nx.Graph × List Node)
  unfolding aget_or_load_session build_payload objects_of apersist_delta
  aingest_items_of items w =
      let made : Result (Ingest nx.Graph × List Node) =
        aget_or_load_session base time thread_id nx async w.store >>= λ graph.
        build_payload nx host class_of uuid stamp clock ctx.tool_name graph items >>= λ s.
        objects_of nx s.graph s.payload.nodes >>= λ nodes. ok (s, nodes) in
      elim made [
        | raise e ↦ (raise e, w)
        | ok (s, nodes) ↦ (
          ok (s, nodes),
          record w {
            store = apersist_delta base async time thread_id nodes s.payload.edges w.store;
          },
        )
      ]

  -- What follows the lock's release. A coroutine that `response_transform` returns is awaited: the
  -- transform stands for what it gives then.
  unfoldable pub aafter_ingest :
      Value
      → Ingest nx.Graph
      → List Node
      → World base.Store nx.Graph
      → Outcome (World base.Store nx.Graph) Value
  unfolding apersist_raw_events alog_call first_event summary amaybe_warn_soft_limit
      adispatch_ingest_event build_ingest_payload apply_transform
  aafter_ingest raw s nodes w =
      let stashed : World base.Store nx.Graph =
        if ctx.store_raw
        then record w {
          store =
              apersist_raw_events base async time thread_id dumped as_date raw s.result.event_ids
                w.store;
        }
        else w in
      amaybe_warn_soft_limit base async time config ctx nx.Graph thread_id args_repr now took (
        alog_call base async time config ctx nx.Graph thread_id args_repr now took
          (first_event s.result) (summary show s.result) stashed)
      >=> λ _ w'. (
        apply_transform ctx raw s.result,
        adispatch_ingest_event adeliver
            (build_ingest_payload ctx thread_id nodes s.payload s.result s.graph) w',
      )

  -- What the wrapper does with the tool's return, or with what it raised.
  unfoldable pub aafter_tool :
      Result Value → World base.Store nx.Graph → Outcome (World base.Store nx.Graph) Value
  unfolding alog_call validate aingest_items_of aafter_ingest
  aafter_tool (raise e) w = (
    raise e,
    alog_call base async time config ctx nx.Graph thread_id args_repr now took none
        "error: tool raised" w,
  )
  aafter_tool (ok raw) w = elim (validate as_instance ctx.many raw) [
    | raise e ↦ (raise e, w)
    | ok items ↦ aingest_items_of items w >=> λ p w'. aafter_ingest raw p.0 p.1 w'
  ]

  -- The wrapper once the runtime is resolved and the arguments are printed. `original` is the tool, awaited:
  -- it may raise, and the store after it is what the tool and the session's other calls made of it.
  unfoldable pub arun_call :
      (base.Store → Result Value × base.Store)
      → World base.Store nx.Graph
      → Outcome (World base.Store nx.Graph) Value
  unfolding afind_duplicate ahandle_duplicate aafter_tool
  arun_call original w =
      elim (afind_duplicate base async time config ctx nx.Graph thread_id args_repr now took w) [
        | raise e ↦ (raise e, w)
        | ok (some last) ↦
            ahandle_duplicate base async time config ctx nx.Graph thread_id args_repr now took last
              w
        | ok none ↦ let made = original w.store in aafter_tool made.0 (record w { store = made.1 })
      ]

module _
    (bind_partial : List Argument → List (String × Argument) → Result (List (String × Argument)))
    (apply_defaults : List (String × Argument) → List (String × Argument))
    (dumps : List (String × Argument) → Result String) (base : BaseStore) (async : AsyncStore base)
    (time : Iso) (config : Config) (ctx : Ctx) (nx : MultiDiGraph Node FactEdge) (host : Host)
    (class_of : String → Class) (uuid : ℕ → String) (stamp : ℕ → ℕ) (clock : ℕ → ℕ → ℕ)
    (now took : ℕ) (as_instance : Value → Option Item) (show : ℕ → String)
    (dumped : String → Attrs → Value) (as_date : String → Option String)
    (adeliver : IngestData nx.Graph → Option Failure) where
  -- The wrapper, `fresh` being a new UUID for a run without a thread id.
  unfoldable pub async_wrapper :
      String
      → (List Argument → List (String × Argument) → base.Store → Result Value × base.Store)
      → List Argument
      → List (String × Argument)
      → World base.Store nx.Graph
      → Outcome (World base.Store nx.Graph) Value
  unfolding resolve_runtime canonical_args_repr arun_call
  async_wrapper fresh original args kwargs w =
      let resolved : Result (String × String) =
        resolve_runtime bind_partial fresh args kwargs >>= λ thread_id.
        canonical_args_repr dumped bind_partial apply_defaults dumps ctx args kwargs
        >>= λ args_repr. ok (thread_id, args_repr) in
      elim resolved [
        | raise e ↦ (raise e, w)
        | ok (thread_id, args_repr) ↦
            arun_call base async time config ctx nx host class_of uuid stamp clock now took
              as_instance show dumped as_date adeliver thread_id args_repr (original args kwargs) w
      ]
