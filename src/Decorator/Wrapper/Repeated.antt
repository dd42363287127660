-- ===== src/Decorator/Wrapper/Repeated.antt =====
-- A repeated call of a wrapped tool (agent_pinboard/decorator.py), under the duplicate policy.
use mathlib.Core.List.{reverse, reverse-cons}
use agent_pinboard.Prelude.{
  ℕ, String, ◌≡◌, ◌≢◌, ◌<◌, refl, sym, ap, subst, some, List, [], ◌∷◌, ◌++◌, true, arith,
  Bool-cases, inl, inr, length, Option, ◌⊎◌,
}
use agent_pinboard.Value.{Value, Attrs}
use agent_pinboard.Models.{Result, ok, Node, FactEdge, ToolCallRecord, always}
use agent_pinboard.Models.Host.{Host}
use agent_pinboard.Networkx.{MultiDiGraph}
use agent_pinboard.Fields.{Class}
use agent_pinboard.Store.{Iso, BaseStore, ns_tool_calls, tool_call_to_dict}
use agent_pinboard.Store.Api.{scan_limit, load_tool_calls}
use agent_pinboard.Store.Ordered.{Includes}
use agent_pinboard.Store.Log.{log_item, IsLogged, load_tool_calls_lem}
use agent_pinboard.Config.{Config}
use agent_pinboard.Decorator.{Item, repeats, first_match, last_matching}
use agent_pinboard.Decorator.Duplicates.{IsLast, last_matching_iff}
use agent_pinboard.Decorator.Arguments.{Ctx}
use agent_pinboard.Decorator.Wrapper.{
  IngestData, Failure, World, find_duplicate_sync, handle_duplicate_sync, run_call,
}
use agent_pinboard.Decorator.Wrapper.Sound.{OnDuplicate-cases}

Includes-append :
    (r : ToolCallRecord) (xs ys : List ToolCallRecord)
    → Includes r xs ⊎ Includes r ys
    → Includes r (xs ++ ys)
Includes-append r [] ys (inl h) = absurd h
Includes-append r [] ys (inr h) = h
Includes-append r (x ∷ xs) ys (inl (inl e)) = inl e
Includes-append r (x ∷ xs) ys (inl (inr h)) = inr (Includes-append r xs ys (inl h))
Includes-append r (x ∷ xs) ys (inr h) = inr (Includes-append r xs ys (inr h))

Includes-reverse :
    (r : ToolCallRecord) (xs : List ToolCallRecord) → Includes r xs → Includes r (reverse xs)
Includes-reverse r [] h = absurd h
Includes-reverse r (x ∷ xs) (inl e) =
    subst (Includes r) (sym (reverse-cons x xs))
      (Includes-append r (reverse xs) (x ∷ []) (inr (inl e)))
Includes-reverse r (x ∷ xs) (inr h) =
    subst (Includes r) (sym (reverse-cons x xs))
      (Includes-append r (reverse xs) (x ∷ []) (inl (Includes-reverse r xs h)))

module _ (tool args : String) where
  first_match-Includes :
      (r : ToolCallRecord) (xs : List ToolCallRecord)
      → Includes r xs
      → repeats tool args r ≡ true
      → (last : ToolCallRecord) × (first_match tool args xs ≡ some last)
  unfolding first_match
  first_match-Includes r [] h hit = absurd h
  first_match-Includes r (x ∷ xs) h hit = elim (Bool-cases (repeats tool args x)) [
    | inl e ↦ (x, ground (arith, e))
    | inr e ↦ elim h [
      | inl same ↦ absurd (ground (arith, e, hit, ap (repeats tool args) same))
      | inr later ↦
          let (last, found) = first_match-Includes r xs later hit in
          (last, ground (arith, e, found))
    ]
  ]

module _ (base : BaseStore) (time : Iso) (config : Config) (ctx : Ctx)
    (nx : MultiDiGraph Node FactEdge) (host : Host) (class_of : String → Class) (uuid : ℕ → String)
    (stamp : ℕ → ℕ) (clock : ℕ → ℕ → ℕ) (now took : ℕ) (as_instance : Value → Option Item)
    (show : ℕ → String) (dumped : String → Attrs → Value) (as_date : String → Option String)
    (deliver : IngestData nx.Graph → Option Failure) (thread_id args_repr : String) where
  find_duplicate_reads :
      (w : World base.Store nx.Graph) (records : List ToolCallRecord)
      → ctx.on_duplicate ≢ always
      → load_tool_calls base time thread_id w.store ≡ ok records
      → find_duplicate_sync base time config ctx nx.Graph thread_id args_repr now took w
        ≡ ok (last_matching ctx.tool_name args_repr records)
  unfolding find_duplicate_sync
  find_duplicate_reads w records active q = elim (OnDuplicate-cases ctx.on_duplicate) [
    | inl e ↦ rw (find_duplicate_sync, e, q) refl
    | inr (inl e) ↦ absurd (active e)
    | inr (inr e) ↦ rw (find_duplicate_sync, e, q) refl
  ]

  -- Under the policies that skip or cache, a call that repeats a successful call of the log does not
  -- run the tool: whatever the tool is, the call does what the handling of a duplicate does, for a
  -- record of the log that it repeats, with no such record after it. The log has fewer records than
  -- the limit of a scan.
  pub run_call-repeats :
      (w : World base.Store nx.Graph) (k : String) (r : ToolCallRecord)
      → ctx.on_duplicate ≢ always
      → IsLogged base time thread_id w.store
      → length (base.search (ns_tool_calls thread_id) scan_limit w.store) < scan_limit
      → log_item base time thread_id k w.store ≡ some (tool_call_to_dict time r)
      → repeats ctx.tool_name args_repr r ≡ true
      → (records : List ToolCallRecord) × (last : ToolCallRecord) × (load_tool_calls base time
            thread_id w.store
          ≡ ok records)
        × IsLast ctx.tool_name args_repr records last
        × ((original : base.Store → Result Value × base.Store)
            → run_call base time config ctx nx host class_of uuid stamp clock now took as_instance
                show dumped as_date deliver thread_id args_repr original w
              ≡ handle_duplicate_sync base time config ctx nx.Graph thread_id args_repr now took
                  last w)
  unfolding run_call last_matching
  run_call-repeats w k r active logged short at hit =
      let (records, loaded, log) = load_tool_calls_lem base time thread_id w.store logged short in
      let (last, found) =
        first_match-Includes ctx.tool_name args_repr r (reverse records)
          (Includes-reverse r records (log.whole k r at)) hit in
      (
        records,
        last,
        loaded,
        (last_matching_iff ctx.tool_name args_repr records last).0 found,
        λ original. rw (run_call, find_duplicate_reads w records active loaded, found) refl,
      )
