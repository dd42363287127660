-- ===== src/Store/Log.antt =====
-- The log of tool calls and the raw returns of agent_pinboard/store.py: what is written reads back.
use mathlib.Core.Path.{subst₂}
use agent_pinboard.Prelude.{
  String, ◌≡◌, ◌<◌, sym, ap, ◌∙◌, subst, some, List, ◌==◌, if◌then◌else◌, string_eq, pair_eq, All,
  All-map, arith, Bool-cases, inl, inr, length, Option, eq_iff,
}
use agent_pinboard.Value.{Value}
use agent_pinboard.Models.{ok, ◌>>=◌, ok-injective, ToolCallRecord}
use agent_pinboard.Store.{
  Iso, Dict, BaseStore, ns_tool_calls, tool_call_to_dict, tool_call_from_dict,
}
use agent_pinboard.Store.Codec.{tool_call_from_dict-tool_call_to_dict}
use agent_pinboard.Store.Api.{
  scan_limit, sort_records, record_key, load_tool_calls, persist_tool_call,
}
use agent_pinboard.Store.Reading.{read_all-Corresponds, Corresponds-get, All-Corresponds}
use agent_pinboard.Store.Ordered.{
  Includes, Chronological, sort_records-All, sort_records-Chronological, All-Includes,
}

module _ (base : BaseStore) (time : Iso) (thread_id : String) where
  abbrev pub log_item : String → base.Store → Option Dict
  log_item k s = base.item (ns_tool_calls thread_id) k s

  -- Each entry of the log is the dict of a record under the record's key.
  abbrev pub IsLogged : base.Store → Type 0
  IsLogged s =
      (k : String) (d : Dict)
      → log_item k s ≡ some d
      → (r : ToolCallRecord) × (tool_call_to_dict time r ≡ d) × (record_key time r ≡ k)

  log_item-put :
      (r : ToolCallRecord) (k : String) (d : Dict) (s : base.Store)
      → log_item k (base.put (ns_tool_calls thread_id) (record_key time r) d s)
        ≡ (if record_key time r == k then some d else log_item k s)
  unfolding ns_tool_calls
  log_item-put r k d s = ground (
    arith,
    base.item-put (ns_tool_calls thread_id) (ns_tool_calls thread_id) (record_key time r) k d s,
    eq_iff thread_id thread_id,
  )

  -- A record is written under its key.
  pub persist_tool_call-IsLogged :
      (r : ToolCallRecord) (s : base.Store)
      → IsLogged s
      → IsLogged (persist_tool_call base time thread_id r s)
  unfolding persist_tool_call
  persist_tool_call-IsLogged r s h k d q = elim (Bool-cases (record_key time r == k)) [
    | inl e ↦ (
      r,
      ground (arith, e, q, log_item-put r k (tool_call_to_dict time r) s),
      (eq_iff (record_key time r) k).0 e,
    )
    | inr e ↦ h k d (ground (arith, e, q, log_item-put r k (tool_call_to_dict time r) s))
  ]

  -- The list is the log's: in the order of time, the records of its entries and no others.
  pub record IsLogOf (s : base.Store) (records : List ToolCallRecord) : Type 0 where
    pub ordered : Chronological records
    pub drawn : All (λ r. log_item (record_key time r) s ≡ some (tool_call_to_dict time r)) records
    pub whole :
        (k : String) (r : ToolCallRecord)
        → log_item k s ≡ some (tool_call_to_dict time r)
        → Includes r records

  abbrev RecordOf : base.Store → String × Dict → ToolCallRecord → Type 0
  RecordOf s (k, d) r =
      (tool_call_to_dict time r ≡ d) × (record_key time r ≡ k) × (log_item k s ≡ some d)

  tool_call_to_dict-injective :
      (r r' : ToolCallRecord) → tool_call_to_dict time r ≡ tool_call_to_dict time r' → r ≡ r'
  tool_call_to_dict-injective r r' q = ok-injective (
      sym (tool_call_from_dict-tool_call_to_dict time r)
      ∙ (ap (tool_call_from_dict time) q ∙ tool_call_from_dict-tool_call_to_dict time r'))

  -- A log of records' dicts, each under its record's key, that has fewer entries than the limit of a
  -- scan, loads: in the order of time, the records of its entries and no others.
  pub load_tool_calls_lem :
      (s : base.Store)
      → IsLogged s
      → length (base.search (ns_tool_calls thread_id) scan_limit s) < scan_limit
      → (records : List ToolCallRecord) × (load_tool_calls base time thread_id s ≡ ok records)
        × IsLogOf s records
  unfolding load_tool_calls
  load_tool_calls_lem s h short =
      let items = base.search (ns_tool_calls thread_id) scan_limit s in
      let (found, read, there) =
        read_all-Corresponds (RecordOf s) (tool_call_from_dict time) items (
          All-map (λ (p : String × Dict). log_item p.0 s ≡ some p.1)
            (λ p. (r : ToolCallRecord) × (tool_call_from_dict time p.1 ≡ ok r) × RecordOf s p r)
            items
            (λ p at.
              let (r, dict, key) = h p.0 p.1 at in
              (
                r,
                subst (λ d. tool_call_from_dict time d ≡ ok r) dict
                    (tool_call_from_dict-tool_call_to_dict time r),
                (dict, key, at),
              ))
            (base.search-item (ns_tool_calls thread_id) scan_limit s)) in
      (
        sort_records found,
        ap (λ m. m >>= λ records. ok (sort_records records)) read,
        record {
          ordered = sort_records-Chronological found;
          drawn =
              sort_records-All
                (λ r. log_item (record_key time r) s ≡ some (tool_call_to_dict time r)) found
                (All-Corresponds (RecordOf s)
                  (λ r. log_item (record_key time r) s ≡ some (tool_call_to_dict time r)) items
                  found (λ p r q. subst₂ (λ k d. log_item k s ≡ some d) (sym q.1) (sym q.0) q.2)
                  there);
          whole = λ k r at.
              let (r', of, in_list) =
                Corresponds-get (RecordOf s) (λ x. Includes x (sort_records found)) k
                  (tool_call_to_dict time r) items found there (All-Includes found)
                  (base.item-search (ns_tool_calls thread_id) scan_limit k
                    (tool_call_to_dict time r) s short at) in
              subst (λ x. Includes x (sort_records found)) (tool_call_to_dict-injective r' r of.0)
                in_list;
        },
      )
