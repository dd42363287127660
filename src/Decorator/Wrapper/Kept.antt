-- ===== src/Decorator/Wrapper/Kept.antt =====
-- A call of a wrapped tool (agent_pinboard/decorator.py) leaves a session that reads back and whose
-- edges do not dangle, whatever the branch.
use agent_pinboard.Prelude.{
  ℕ, String, ◌≡◌, ◌≢◌, sym, ◌∙◌, subst, Option, none, some, List, if◌then◌else◌, string_eq, pair_eq,
  All, All-map, Bool-cases, inl, inr,
}
use agent_pinboard.Value.{Value, Attrs}
use agent_pinboard.Models.{
  Result, ok, raise, ◌>>=◌, >>=-eq-ok, ok-injective, Result-cases, Entity, FactEdge, Node,
}
use agent_pinboard.Models.Host.{Host}
use agent_pinboard.Networkx.{MultiDiGraph}
use agent_pinboard.Fields.{Class, field_entity}
use agent_pinboard.Graph.{FactGraph, canonicalize}
use agent_pinboard.Graph.Invariant.{Ids, IsIndexed}
use agent_pinboard.Graph.Snapshot.Rebuilt.{WellFormed}
use agent_pinboard.Extract.{info_of}
use agent_pinboard.Store.{Iso, Dict, BaseStore, persist_delta}
use agent_pinboard.Store.Intact.{node_item, Ends}
use agent_pinboard.Store.Api.{load_graph}
use agent_pinboard.Store.Session.{load_graph-IsDrawn, IsDrawn}
use agent_pinboard.Store.Written.{IsSession, persist_delta-IsSession}
use agent_pinboard.Config.{Config}
use agent_pinboard.Session.{get_or_load_session}
use agent_pinboard.Decorator.{Item, Ingest, build_payload, validate, first_event, summary}
use agent_pinboard.Decorator.Payloads.{IsAnchored, build_payload-IsPersistable}
use agent_pinboard.Decorator.Arguments.{Ctx}
use agent_pinboard.Decorator.Wrapper.{
  IngestData, Failure, World, Outcome, objects_of, apply_transform, build_ingest_payload, log_call,
  maybe_warn_soft_limit, find_duplicate_sync, persist_raw_events, ingest_items_of, after_ingest,
  after_tool, run_call, dispatch_ingest_event,
}
use agent_pinboard.Decorator.Wrapper.Sound.{
  chain_keeps, objects_of-eq-ok, persist_raw_events-IsSession, log_call-Sound, maybe_warn-Sound,
  handle_duplicate-Sound, dispatch-Sound,
}

module _ (base : BaseStore) (time : Iso) (config : Config) (ctx : Ctx)
    (nx : MultiDiGraph Node FactEdge) {host : Host} (ids : Ids host) (class_of : String → Class)
    (uuid : ℕ → String) (stamp : ℕ → ℕ) (clock : ℕ → ℕ → ℕ) (now took : ℕ)
    (as_instance : Value → Option Item) (show : ℕ → String) (dumped : String → Attrs → Value)
    (as_date : String → Option String) (deliver : IngestData nx.Graph → Option Failure)
    (thread_id args_repr : String) (valid : (k : ℕ) → ids.Uuid (uuid k))
    (distinct : (j k : ℕ) → uuid j ≡ uuid k → j ≡ k)
    (legal : (c : String) (name : String) (e : Entity)
      → field_entity (info_of (class_of c) name) ≡ some e
      → (v : Value) (x : String) → canonicalize host e v ≡ ok x
      → ids.Key e.name x) where
  abbrev Session : base.Store → Type 0
  Session s = IsSession base time thread_id nx ids s

  abbrev Sound : World base.Store nx.Graph → Type 0
  Sound w = IsSession base time thread_id nx ids w.store

  -- None of the ids of the call's events is in use.
  abbrev pub Unused : base.Store → Type 0
  Unused s = (j : ℕ) (d : Dict) → node_item base time thread_id (uuid j) s ≢ some d

  -- The delta of a payload: well-formed nodes, and edges with both of their ends among them.
  payload_delta :
      (graph : FactGraph nx.Graph) (items : List Item) (s : Ingest nx.Graph) (nodes : List Node)
      → IsIndexed nx ids graph
      → ((j : ℕ) (n : Node) → nx.node (uuid j) graph.g ≢ some (some n))
      → build_payload nx host class_of uuid stamp clock ctx.tool_name graph items ≡ ok s
      → objects_of nx s.graph s.payload.nodes ≡ ok nodes
      → All (WellFormed nx ids) nodes × All (Ends base time thread_id nodes) s.payload.edges
  payload_delta graph items s nodes indexed unused built read =
      let p =
        build_payload-IsPersistable nx ids class_of uuid stamp clock ctx.tool_name graph valid
          distinct legal items s indexed unused built in
      let (well, same) = objects_of-eq-ok nx ids s.graph p.indexed s.payload.nodes nodes read in
      (
        well,
        All-map
            (IsAnchored nx ids class_of uuid stamp clock ctx.tool_name s.graph.g s.payload.nodes)
            (Ends base time thread_id nodes) s.payload.edges
            (λ e a. (same e.event_id ∙ a.source, same e.target_id ∙ a.target)) p.edges,
      )

  ingest-Sound :
      (items : List Item) (w : World base.Store nx.Graph)
      → Unused w.store
      → Sound w
      → Sound
          (ingest_items_of base time config ctx nx host class_of uuid stamp clock now took
            as_instance show dumped as_date deliver thread_id args_repr items w).1
  unfolding ingest_items_of get_or_load_session
  ingest-Sound items w unused h =
      let made : Result (Ingest nx.Graph × List Node) =
        load_graph base time thread_id nx w.store >>= λ graph.
        build_payload nx host class_of uuid stamp clock ctx.tool_name graph items >>= λ s.
        objects_of nx s.graph s.payload.nodes >>= λ nodes. ok (s, nodes) in
      let outcome : Result (Ingest nx.Graph × List Node)
          → Outcome (World base.Store nx.Graph) (Ingest nx.Graph × List Node) =
        λ m. elim m [
          | raise e ↦ (raise e, w)
          | ok (s, nodes) ↦ (
            ok (s, nodes),
            record w { store = persist_delta base time thread_id nodes s.payload.edges w.store },
          )
        ] in
      elim (Result-cases made) [
        | inr (e, q) ↦ subst (λ m. Sound (outcome m).1) (sym q) h
        | inl ((s, nodes), q) ↦
            subst (λ m. Sound (outcome m).1) (sym q)
              (let (graph, loaded, rest) =
                  >>=-eq-ok (load_graph base time thread_id nx w.store)
                    (λ graph.
                      build_payload nx host class_of uuid stamp clock ctx.tool_name graph items
                      >>= λ s. objects_of nx s.graph s.payload.nodes >>= λ nodes. ok (s, nodes))
                    q in
                let (s', built, rest') =
                  >>=-eq-ok
                    (build_payload nx host class_of uuid stamp clock ctx.tool_name graph items)
                    (λ s. objects_of nx s.graph s.payload.nodes >>= λ nodes. ok (s, nodes)) rest in
                let (nodes', read, done) =
                  >>=-eq-ok (objects_of nx s'.graph s'.payload.nodes) (λ nodes. ok (s', nodes))
                    rest' in
                let (graph', loaded', drawn') =
                  load_graph-IsDrawn base time thread_id nx ids w.store h.stored in
                let drawn : IsDrawn base time thread_id nx ids w.store graph =
                  subst (IsDrawn base time thread_id nx ids w.store)
                    (ok-injective (sym loaded' ∙ loaded)) drawn' in
                let (well, ends) =
                  payload_delta graph items s' nodes' drawn.indexed
                    (λ j n held. unused j _ (drawn.stored (uuid j) n held)) built read in
                subst
                  (λ (p : Ingest nx.Graph × List Node).
                    Session (persist_delta base time thread_id p.1 p.0.payload.edges w.store))
                  (ok-injective done)
                  (persist_delta-IsSession base time thread_id nx ids nodes' s'.payload.edges
                    w.store well ends h))
      ]

  after_ingest-Sound :
      (raw : Value) (s : Ingest nx.Graph) (nodes : List Node) (w : World base.Store nx.Graph)
      → Sound w
      → Sound
          (after_ingest base time config ctx nx host class_of uuid stamp clock now took as_instance
            show dumped as_date deliver thread_id args_repr raw s nodes w).1
  unfolding after_ingest
  after_ingest-Sound raw s nodes w h =
      let stashed : World base.Store nx.Graph =
        if ctx.store_raw
        then record w {
          store =
              persist_raw_events base time thread_id dumped as_date raw s.result.event_ids w.store;
        }
        else w in
      let kept : Sound stashed = elim (Bool-cases ctx.store_raw) [
        | inl e ↦ rw e (
            persist_raw_events-IsSession base time config ctx nx ids thread_id args_repr now took
              dumped as_date raw s.result.event_ids w.store h)
        | inr e ↦ rw e h
      ] in
      let logged =
        log_call base time config ctx nx.Graph thread_id args_repr now took (first_event s.result)
          (summary show s.result) stashed in
      chain_keeps Sound
        (maybe_warn_soft_limit base time config ctx nx.Graph thread_id args_repr now took logged)
        (λ _ w'. (
          apply_transform ctx raw s.result,
          dispatch_ingest_event deliver
              (build_ingest_payload ctx thread_id nodes s.payload s.result s.graph) w',
        ))
        (maybe_warn-Sound base time config ctx nx ids thread_id args_repr now took logged (
          log_call-Sound base time config ctx nx ids thread_id args_repr now took
            (first_event s.result) (summary show s.result) stashed kept))
        (λ _ w'.
          dispatch-Sound base time config ctx nx ids thread_id args_repr now took deliver
            (build_ingest_payload ctx thread_id nodes s.payload s.result s.graph) w')

  after_tool-Sound :
      (out : Result Value) (w : World base.Store nx.Graph)
      → Unused w.store
      → Sound w
      → Sound
          (after_tool base time config ctx nx host class_of uuid stamp clock now took as_instance
            show dumped as_date deliver thread_id args_repr out w).1
  unfolding after_tool
  after_tool-Sound (raise e) w unused h =
      log_call-Sound base time config ctx nx ids thread_id args_repr now took none
        "error: tool raised" w h
  after_tool-Sound (ok raw) w unused h = elim (Result-cases (validate as_instance ctx.many raw)) [
    | inr (e, q) ↦ rw (after_tool, q) h
    | inl (items, q) ↦
        rw (after_tool, q)
          (chain_keeps Sound
            (ingest_items_of base time config ctx nx host class_of uuid stamp clock now took
              as_instance show dumped as_date deliver thread_id args_repr items w)
            (λ p w'.
              after_ingest base time config ctx nx host class_of uuid stamp clock now took
                as_instance show dumped as_date deliver thread_id args_repr raw p.0 p.1 w')
            (ingest-Sound items w unused h) (λ p w'. after_ingest-Sound raw p.0 p.1 w'))
  ]

  -- Whatever the policy, the arguments and the tool do, and on every error path, a call leaves a
  -- session that reads back and of which no edge dangles, where it found one and the tool leaves
  -- one in which none of the call's UUIDs is in use. The UUIDs are distinct, and the entities of the
  -- session's classes make keys of the session.
  pub run_call-IsSession :
      (original : base.Store → Result Value × base.Store) (w : World base.Store nx.Graph)
      → IsSession base time thread_id nx ids w.store
      → IsSession base time thread_id nx ids (original w.store).1
      → Unused (original w.store).1
      → IsSession base time thread_id nx ids
          (run_call base time config ctx nx host class_of uuid stamp clock now took as_instance show
            dumped as_date deliver thread_id args_repr original w).1.store
  unfolding run_call
  run_call-IsSession original w h h' unused =
      elim (Result-cases
        (find_duplicate_sync base time config ctx nx.Graph thread_id args_repr now took w)) [
          | inr (e, q) ↦ rw (run_call, q) h
          | inl (some last, q) ↦
              rw (run_call, q)
                (handle_duplicate-Sound base time config ctx nx ids thread_id args_repr now took
                  last w h)
          | inl (none, q) ↦
              rw (run_call, q)
                (after_tool-Sound (original w.store).0 (record w { store = (original w.store).1 })
                  unused h')
        ]
