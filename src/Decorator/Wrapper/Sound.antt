-- ===== src/Decorator/Wrapper/Sound.antt =====
-- What a call of a wrapped tool (agent_pinboard/decorator.py) leaves in the store.
use Prim.Native.String.{◌++◌ as str_append}
use agent_pinboard.Prelude.{
  ℕ, String, ◌≡◌, ◌⊎◌, refl, subst, Option, none, List, [], ◌∷◌, false, ◌==◌, ◌||◌, string_eq,
  pair_eq, contains, All, arith, Bool-cases, Option-cases, inl, inr, ltb, length,
}
use agent_pinboard.Value.{Value, Attrs, string}
use agent_pinboard.Models.{
  ok, raise, ◌>>=◌, >>=-eq-ok, ok-injective, Result-cases, EventId, NodeId, FactEdge, Node,
  ToolCallRecord, always, skip, cache, OnDuplicate,
}
use agent_pinboard.Models.Host.{Host}
use agent_pinboard.Networkx.{MultiDiGraph}
use agent_pinboard.Graph.{FactGraph, node_at}
use agent_pinboard.Graph.Invariant.{Ids, IsIndexed}
use agent_pinboard.Graph.Snapshot.Rebuilt.{WellFormed, Holds-WellFormed, node_at-Holds}
use agent_pinboard.Store.{Iso, BaseStore, ns_nodes, ns_edges, ns_tool_calls, ns_raw_events}
use agent_pinboard.Store.Intact.{has_id}
use agent_pinboard.Store.Api.{persist_tool_call, load_tool_calls, persist_raw_event}
use agent_pinboard.Store.Written.{IsSession, IsSession-put}
use agent_pinboard.Config.{Config}
use agent_pinboard.Decorator.Arguments.{Ctx}
use agent_pinboard.Decorator.Wrapper.{
  IngestData, Failure, World, Outcome, ◌>=>◌, objects_of, build_record, warn_above, log_call,
  maybe_warn_soft_limit, handle_duplicate_sync, persist_raw_events, dispatch_ingest_event,
  no_context, broken,
}

pub OnDuplicate-cases : (d : OnDuplicate) → (d ≡ skip) ⊎ ((d ≡ always) ⊎ (d ≡ cache))
OnDuplicate-cases skip = inl refl
OnDuplicate-cases always = inr (inl refl)
OnDuplicate-cases cache = inr (inr refl)

-- What each step keeps of the world, the chain keeps.
pub chain_keeps :
    {W A B : Type 0} (P : W → Type 0) (o : Outcome W A) (next : A → W → Outcome W B)
    → P o.1
    → ((a : A) (w : W) → P w → P (next a w).1)
    → P (o >=> next).1
chain_keeps P (raise e, w) next p f = p
chain_keeps P (ok a, w) next p f = f a w p

module _ (nx : MultiDiGraph Node FactEdge) {host : Host} (ids : Ids host)
    (graph : FactGraph nx.Graph) (h : IsIndexed nx ids graph) where
  -- The objects of a payload's ids are well-formed nodes of these ids.
  pub objects_of-eq-ok :
      (is : List NodeId) (nodes : List Node)
      → objects_of nx graph is ≡ ok nodes
      → All (WellFormed nx ids) nodes × ((i : NodeId) → has_id i nodes ≡ contains i is)
  unfolding objects_of contains
  objects_of-eq-ok [] nodes q =
      let none_left : [] ≡ nodes = ok-injective q in
      subst (λ l. All (WellFormed nx ids) l × ((i : NodeId) → has_id i l ≡ false)) none_left
        (tt, λ i. refl)
  objects_of-eq-ok (j ∷ is) nodes q =
      let (n, at, rest) =
        >>=-eq-ok (node_at nx j graph) (λ n. objects_of nx graph is >>= λ l. ok (n ∷ l)) q in
      let (l, there, done) = >>=-eq-ok (objects_of nx graph is) (λ l. ok (n ∷ l)) rest in
      let (well, id) = Holds-WellFormed nx ids graph h j n (node_at-Holds nx ids graph h j n at) in
      let (wells, same) = objects_of-eq-ok is l there in
      subst
        (λ m. All (WellFormed nx ids) m × ((i : NodeId) → has_id i m ≡ (j == i || contains i is)))
        (ok-injective done) ((well, wells), λ i. ground (arith, same i, id))

module _ (base : BaseStore) (time : Iso) (config : Config) (ctx : Ctx)
    (nx : MultiDiGraph Node FactEdge) {host : Host} (ids : Ids host) (thread_id args_repr : String)
    (now took : ℕ) where
  abbrev pub Session : base.Store → Type 0
  Session s = IsSession base time thread_id nx ids s

  abbrev pub Sound : World base.Store nx.Graph → Type 0
  Sound w = IsSession base time thread_id nx ids w.store

  persist_tool_call-IsSession :
      (r : ToolCallRecord) (s : base.Store)
      → Session s
      → Session (persist_tool_call base time thread_id r s)
  unfolding persist_tool_call ns_tool_calls ns_nodes ns_edges
  persist_tool_call-IsSession r s h =
      IsSession-put base time thread_id nx ids (ns_tool_calls thread_id) _ _ s (ground arith)
        (ground arith) h

  pub persist_raw_events-IsSession :
      (dumped : String → Attrs → Value) (as_date : String → Option String) (raw : Value)
      (is : List EventId) (s : base.Store)
      → Session s
      → Session (persist_raw_events base time thread_id dumped as_date raw is s)
  unfolding persist_raw_events persist_raw_event ns_raw_events ns_nodes ns_edges
  persist_raw_events-IsSession dumped as_date raw [] s h = h
  persist_raw_events-IsSession dumped as_date raw (i ∷ is) s h =
      persist_raw_events-IsSession dumped as_date raw is
        (persist_raw_event base time thread_id dumped as_date i raw s)
        (IsSession-put base time thread_id nx ids (ns_raw_events thread_id) i _ s (ground arith)
          (ground arith) h)

  pub log_call-Sound :
      (o : Option EventId) (said : String) (w : World base.Store nx.Graph)
      → Sound w
      → Sound (log_call base time config ctx nx.Graph thread_id args_repr now took o said w)
  unfolding log_call
  log_call-Sound o said w h =
      persist_tool_call-IsSession (build_record now took ctx args_repr o said) w.store h

  warn_above-Sound :
      (records : List ToolCallRecord) (w : World base.Store nx.Graph)
      → Sound w
      → Sound (warn_above base time config ctx nx.Graph thread_id args_repr now took records w)
  unfolding warn_above
  warn_above-Sound records w h =
      elim (Bool-cases (ltb config.tool_log_soft_limit (length records))) [
        | inl e ↦ rw e h
        | inr e ↦ rw e h
      ]

  pub maybe_warn-Sound :
      (w : World base.Store nx.Graph)
      → Sound w
      → Sound (maybe_warn_soft_limit base time config ctx nx.Graph thread_id args_repr now took w).1
  unfolding maybe_warn_soft_limit
  maybe_warn-Sound w h = elim (Result-cases (load_tool_calls base time thread_id w.store)) [
    | inl (records, q) ↦ rw (maybe_warn_soft_limit, q) (warn_above-Sound records w h)
    | inr (e, q) ↦ rw (maybe_warn_soft_limit, q) h
  ]

  pub handle_duplicate-Sound :
      (last : ToolCallRecord) (w : World base.Store nx.Graph)
      → Sound w
      → Sound
          (handle_duplicate_sync base time config ctx nx.Graph thread_id args_repr now took last
            w).1
  unfolding handle_duplicate_sync
  handle_duplicate-Sound last w h =
      let after : (said : String) (reply : Value)
          → Sound
              (maybe_warn_soft_limit base time config ctx nx.Graph thread_id args_repr now took
                  (log_call base time config ctx nx.Graph thread_id args_repr now took none said w)
                >=> λ _ w'. (ok reply, w')).1 =
        λ said reply.
          chain_keeps Sound
            (maybe_warn_soft_limit base time config ctx nx.Graph thread_id args_repr now took
              (log_call base time config ctx nx.Graph thread_id args_repr now took none said w))
            (λ _ w'. (ok reply, w'))
            (maybe_warn-Sound
              (log_call base time config ctx nx.Graph thread_id args_repr now took none said w)
              (log_call-Sound none said w h))
            (λ _ w' p. p) in
      let cached : Value =
        string
          (str_append "duplicate (cached at " (str_append (time.isoformat last.timestamp) ")")) in
      elim (OnDuplicate-cases ctx.on_duplicate) [
        | inl q ↦
            rw (handle_duplicate_sync, q)
              (after "duplicate (skipped)" (string "duplicate call skipped"))
        | inr (inl q) ↦ rw (handle_duplicate_sync, q) (after "duplicate (cached)" cached)
        | inr (inr q) ↦ rw (handle_duplicate_sync, q) (after "duplicate (cached)" cached)
      ]

  pub dispatch-Sound :
      (deliver : IngestData nx.Graph → Option Failure) (data_ : IngestData nx.Graph)
      (w : World base.Store nx.Graph)
      → Sound w
      → Sound (dispatch_ingest_event deliver data_ w)
  unfolding dispatch_ingest_event
  dispatch-Sound deliver data_ w h = elim (Option-cases (deliver data_)) [
    | inl q ↦ rw (dispatch_ingest_event, q) h
    | inr (no_context, q) ↦ rw (dispatch_ingest_event, q) h
    | inr (broken, q) ↦ rw (dispatch_ingest_event, q) h
  ]
