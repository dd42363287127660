-- ===== src/Decorator/AsyncWrapper/Agreement.antt =====
-- The asynchronous wrapper of agent_pinboard/decorator.py does what the synchronous one does.
use agent_pinboard.Prelude.{
  ℕ, String, ◌≡◌, refl, ap, ◌∙◌, Option, none, some, List, [], ◌∷◌, if◌then◌else◌,
}
use Prim.Native.String.{◌++◌ as str_append}
use agent_pinboard.Value.{Value, Attrs, string}
use agent_pinboard.Models.{
  Result, ok, raise, ◌>>=◌, EventId, FactEdge, Node, ToolCallRecord, always, skip,
}
use agent_pinboard.Models.Host.{Host}
use agent_pinboard.Networkx.{MultiDiGraph}
use agent_pinboard.Fields.{Class}
use agent_pinboard.Store.{Iso, BaseStore}
use agent_pinboard.Store.AsyncApi.{
  AsyncStore, aload_graph-eq, apersist_delta-eq, apersist_tool_call-eq, aload_tool_calls-eq,
  apersist_raw_event-eq,
}
use agent_pinboard.Store.Api.{persist_raw_event}
use agent_pinboard.Config.{Config}
use agent_pinboard.Session.{aget_or_load_session, get_or_load_session}
use agent_pinboard.Decorator.{
  Item, Ingest, build_payload, validate, last_matching, summary, first_event,
}
use agent_pinboard.Decorator.Arguments.{Ctx, Argument, resolve_runtime, canonical_args_repr}
use agent_pinboard.Decorator.Wrapper.{
  IngestData, Failure, World, ◌>=>◌, objects_of, build_record, apply_transform,
  build_ingest_payload, warn_above, log_call, maybe_warn_soft_limit, find_duplicate_sync,
  handle_duplicate_sync, persist_raw_events, ingest_items_of, after_ingest, after_tool, run_call,
  sync_wrapper, dispatch_ingest_event,
}
use agent_pinboard.Decorator.AsyncWrapper.{
  alog_call, amaybe_warn_soft_limit, afind_duplicate, ahandle_duplicate, apersist_raw_events,
  aingest_items_of, aafter_ingest, aafter_tool, arun_call, async_wrapper, adispatch_ingest_event,
}

module _ (base : BaseStore) (async : AsyncStore base) (time : Iso) (config : Config) (ctx : Ctx)
    (G : Type 0) (thread_id args_repr : String) (now took : ℕ) where
  alog_call-eq :
      (o : Option EventId) (said : String) (w : World base.Store G)
      → alog_call base async time config ctx G thread_id args_repr now took o said w
        ≡ log_call base time config ctx G thread_id args_repr now took o said w
  unfolding alog_call log_call
  alog_call-eq o said w = λ i. record w {
    store =
        apersist_tool_call-eq base async time thread_id (build_record now took ctx args_repr o said)
          w.store i;
  }

  amaybe_warn_soft_limit-eq :
      (w : World base.Store G)
      → amaybe_warn_soft_limit base async time config ctx G thread_id args_repr now took w
        ≡ maybe_warn_soft_limit base time config ctx G thread_id args_repr now took w
  unfolding amaybe_warn_soft_limit maybe_warn_soft_limit
  amaybe_warn_soft_limit-eq w = λ i.
      elim (aload_tool_calls-eq base async time thread_id w.store i) [
        | raise e ↦ (raise e, w)
        | ok records ↦
            (ok tt, warn_above base time config ctx G thread_id args_repr now took records w)
      ]

  noted-eq :
      (said : String) (w : World base.Store G)
      → amaybe_warn_soft_limit base async time config ctx G thread_id args_repr now took
          (alog_call base async time config ctx G thread_id args_repr now took none said w)
        ≡ maybe_warn_soft_limit base time config ctx G thread_id args_repr now took
            (log_call base time config ctx G thread_id args_repr now took none said w)
  noted-eq said w =
      amaybe_warn_soft_limit-eq
        (alog_call base async time config ctx G thread_id args_repr now took none said w)
      ∙ ap (maybe_warn_soft_limit base time config ctx G thread_id args_repr now took)
          (alog_call-eq none said w)

  afind_duplicate-eq :
      (w : World base.Store G)
      → afind_duplicate base async time config ctx G thread_id args_repr now took w
        ≡ find_duplicate_sync base time config ctx G thread_id args_repr now took w
  unfolding afind_duplicate find_duplicate_sync
  afind_duplicate-eq w = λ i. elim ctx.on_duplicate [
    | always ↦ ok none
    | _ ↦ aload_tool_calls-eq base async time thread_id w.store i >>= λ records.
        ok (last_matching ctx.tool_name args_repr records)
  ]

  ahandle_duplicate-eq :
      (last : ToolCallRecord) (w : World base.Store G)
      → ahandle_duplicate base async time config ctx G thread_id args_repr now took last w
        ≡ handle_duplicate_sync base time config ctx G thread_id args_repr now took last w
  unfolding ahandle_duplicate handle_duplicate_sync
  ahandle_duplicate-eq last w = λ i. elim ctx.on_duplicate [
    | skip ↦
        noted-eq "duplicate (skipped)" w i >=> λ _ w'. (ok (string "duplicate call skipped"), w')
    | _ ↦ noted-eq "duplicate (cached)" w i >=> λ _ w'. (
      ok (
          string
            (str_append "duplicate (cached at " (str_append (time.isoformat last.timestamp) ")"))),
      w',
    )
  ]

apersist_raw_events-eq :
    (base : BaseStore) (async : AsyncStore base) (time : Iso) (thread_id : String)
    (dumped : String → Attrs → Value) (as_date : String → Option String) (raw : Value)
    (ids : List EventId) (s : base.Store)
    → apersist_raw_events base async time thread_id dumped as_date raw ids s
      ≡ persist_raw_events base time thread_id dumped as_date raw ids s
unfolding apersist_raw_events persist_raw_events
apersist_raw_events-eq base async time thread_id dumped as_date raw [] s = refl
apersist_raw_events-eq base async time thread_id dumped as_date raw (i ∷ ids) s =
    ap (apersist_raw_events base async time thread_id dumped as_date raw ids)
      (apersist_raw_event-eq base async time thread_id dumped as_date i raw s)
    ∙ apersist_raw_events-eq base async time thread_id dumped as_date raw ids
        (persist_raw_event base time thread_id dumped as_date i raw s)

module _ (base : BaseStore) (async : AsyncStore base) (time : Iso) (config : Config) (ctx : Ctx)
    (nx : MultiDiGraph Node FactEdge) (host : Host) (class_of : String → Class) (uuid : ℕ → String)
    (stamp : ℕ → ℕ) (clock : ℕ → ℕ → ℕ) (now took : ℕ) (as_instance : Value → Option Item)
    (show : ℕ → String) (dumped : String → Attrs → Value) (as_date : String → Option String)
    (deliver : IngestData nx.Graph → Option Failure) where
  module _ (thread_id args_repr : String) where
    aingest_items_of-eq :
        (items : List Item) (w : World base.Store nx.Graph)
        → aingest_items_of base async time config ctx nx host class_of uuid stamp clock now took
            as_instance show dumped as_date deliver thread_id args_repr items w
          ≡ ingest_items_of base time config ctx nx host class_of uuid stamp clock now took
              as_instance show dumped as_date deliver thread_id args_repr items w
    unfolding aingest_items_of ingest_items_of aget_or_load_session get_or_load_session
    aingest_items_of-eq items w = λ i.
        let made : Result (Ingest nx.Graph × List Node) =
          aload_graph-eq base async time thread_id nx w.store i >>= λ graph.
          build_payload nx host class_of uuid stamp clock ctx.tool_name graph items >>= λ s.
          objects_of nx s.graph s.payload.nodes >>= λ nodes. ok (s, nodes) in
        elim made [
          | raise e ↦ (raise e, w)
          | ok (s, nodes) ↦ (
            ok (s, nodes),
            record w {
              store = apersist_delta-eq base async time thread_id nodes s.payload.edges w.store i;
            },
          )
        ]

    stashed-eq :
        (raw : Value) (s : Ingest nx.Graph) (w : World base.Store nx.Graph)
        → (if ctx.store_raw
            then record w {
              store =
                  apersist_raw_events base async time thread_id dumped as_date raw
                    s.result.event_ids w.store;
            }
            else w)
          ≡ (if ctx.store_raw
              then record w {
                store =
                    persist_raw_events base time thread_id dumped as_date raw s.result.event_ids
                      w.store;
              }
              else w)
    stashed-eq raw s w = λ i.
        if ctx.store_raw
        then record w {
          store =
              apersist_raw_events-eq base async time thread_id dumped as_date raw s.result.event_ids
                w.store i;
        }
        else w

    aafter_ingest-eq :
        (raw : Value) (s : Ingest nx.Graph) (nodes : List Node) (w : World base.Store nx.Graph)
        → aafter_ingest base async time config ctx nx host class_of uuid stamp clock now took
            as_instance show dumped as_date deliver thread_id args_repr raw s nodes w
          ≡ after_ingest base time config ctx nx host class_of uuid stamp clock now took as_instance
              show dumped as_date deliver thread_id args_repr raw s nodes w
    unfolding aafter_ingest after_ingest adispatch_ingest_event dispatch_ingest_event
    aafter_ingest-eq raw s nodes w = λ i.
        (amaybe_warn_soft_limit-eq base async time config ctx nx.Graph thread_id args_repr now took
              (alog_call base async time config ctx nx.Graph thread_id args_repr now took
                (first_event s.result) (summary show s.result)
                (if ctx.store_raw
                  then record w {
                    store =
                        apersist_raw_events base async time thread_id dumped as_date raw
                          s.result.event_ids w.store;
                  }
                  else w))
            ∙ ap (maybe_warn_soft_limit base time config ctx nx.Graph thread_id args_repr now took)
                (alog_call-eq base async time config ctx nx.Graph thread_id args_repr now took
                    (first_event s.result) (summary show s.result)
                    (if ctx.store_raw
                      then record w {
                        store =
                            apersist_raw_events base async time thread_id dumped as_date raw
                              s.result.event_ids w.store;
                      }
                      else w)
                  ∙ ap
                      (log_call base time config ctx nx.Graph thread_id args_repr now took
                        (first_event s.result) (summary show s.result))
                      (stashed-eq raw s w)))
          i
        >=> λ _ w'. (
          apply_transform ctx raw s.result,
          dispatch_ingest_event deliver
              (build_ingest_payload ctx thread_id nodes s.payload s.result s.graph) w',
        )

    aafter_tool-eq :
        (out : Result Value) (w : World base.Store nx.Graph)
        → aafter_tool base async time config ctx nx host class_of uuid stamp clock now took
            as_instance show dumped as_date deliver thread_id args_repr out w
          ≡ after_tool base time config ctx nx host class_of uuid stamp clock now took as_instance
              show dumped as_date deliver thread_id args_repr out w
    unfolding aafter_tool after_tool
    aafter_tool-eq (raise e) w = λ i. (
      raise e,
      alog_call-eq base async time config ctx nx.Graph thread_id args_repr now took none
          "error: tool raised" w i,
    )
    aafter_tool-eq (ok raw) w = λ i. elim (validate as_instance ctx.many raw) [
      | raise e ↦ (raise e, w)
      | ok items ↦ aingest_items_of-eq items w i >=> λ p w'. aafter_ingest-eq raw p.0 p.1 w' i
    ]

    arun_call-eq :
        (original : base.Store → Result Value × base.Store) (w : World base.Store nx.Graph)
        → arun_call base async time config ctx nx host class_of uuid stamp clock now took
            as_instance show dumped as_date deliver thread_id args_repr original w
          ≡ run_call base time config ctx nx host class_of uuid stamp clock now took as_instance
              show dumped as_date deliver thread_id args_repr original w
    unfolding arun_call run_call
    arun_call-eq original w = λ i.
        elim (afind_duplicate-eq base async time config ctx nx.Graph thread_id args_repr now took w
          i) [
            | raise e ↦ (raise e, w)
            | ok (some last) ↦
                ahandle_duplicate-eq base async time config ctx nx.Graph thread_id args_repr now
                  took last w i
            | ok none ↦
                let made = original w.store in aafter_tool-eq made.0 (record w { store = made.1 }) i
          ]

  module _
      (bind_partial : List Argument → List (String × Argument) → Result (List (String × Argument)))
      (apply_defaults : List (String × Argument) → List (String × Argument))
      (dumps : List (String × Argument) → Result String) where
    -- Whatever the arguments, the policy, the store and what the tool does, the asynchronous wrapper
    -- has the result and leaves the store, the events and the log of the synchronous one. Each
    -- awaited method of the store does what its counterpart does.
    pub async_wrapper-sync_wrapper :
        (fresh : String)
        (original : List Argument
          → List (String × Argument)
          → base.Store
          → Result Value × base.Store)
        (args : List Argument) (kwargs : List (String × Argument)) (w : World base.Store nx.Graph)
        → async_wrapper bind_partial apply_defaults dumps base async time config ctx nx host
            class_of uuid stamp clock now took as_instance show dumped as_date deliver fresh
            original args kwargs w
          ≡ sync_wrapper bind_partial apply_defaults dumps base time config ctx nx host class_of
              uuid stamp clock now took as_instance show dumped as_date deliver fresh original args
              kwargs w
    unfolding async_wrapper sync_wrapper
    async_wrapper-sync_wrapper fresh original args kwargs w = λ i.
        let resolved : Result (String × String) =
          resolve_runtime bind_partial fresh args kwargs >>= λ thread_id.
          canonical_args_repr dumped bind_partial apply_defaults dumps ctx args kwargs
          >>= λ args_repr. ok (thread_id, args_repr) in
        elim resolved [
          | raise e ↦ (raise e, w)
          | ok (thread_id, args_repr) ↦ arun_call-eq thread_id args_repr (original args kwargs) w i
        ]
