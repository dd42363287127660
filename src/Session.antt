-- ===== src/Session.antt =====
-- agent_pinboard/session.py: the sessions' locks, their loading and their thread ids.
pub mod Locked
use Prim.Native.String.{◌++◌ as str_append}
use agent_pinboard.Prelude.{
  ℕ, suc, String, none, some, List, [], ◌==◌, if◌then◌else◌, string_eq, get, put,
}
use agent_pinboard.Value.{Value, null, string, dict, attr_get}
use agent_pinboard.Models.{Result, Node, FactEdge}
use agent_pinboard.Networkx.{MultiDiGraph}
use agent_pinboard.Graph.{FactGraph}
use agent_pinboard.Store.{Iso, BaseStore}
use agent_pinboard.Store.Api.{load_graph}
use agent_pinboard.Store.AsyncApi.{AsyncStore, aload_graph}

-- `_session_locks`. A lock is the number of locks that were made before it.
pub record Locks : Type 0 where
  pub session_locks : List (String × ℕ)
  pub made : ℕ

abbrev pub no_locks : Locks
no_locks = record { session_locks = []; made = 0 }

-- What runs under `_registry_lock`, so one call at a time.
unfoldable pub lock_for : String → Locks → ℕ × Locks
unfolding get put
lock_for thread_id locks = elim (get thread_id locks.session_locks) [
  | some lock ↦ (lock, locks)
  | none ↦ (
    locks.made,
    record { session_locks = put thread_id locks.made locks.session_locks; made = suc locks.made },
  )
]

module _ (base : BaseStore) (time : Iso) (thread_id : String)
    (nx : MultiDiGraph Node FactEdge) where
  unfoldable pub get_or_load_session : base.Store → Result (FactGraph nx.Graph)
  unfolding load_graph
  get_or_load_session s = load_graph base time thread_id nx s

  unfoldable pub aget_or_load_session : AsyncStore base → base.Store → Result (FactGraph nx.Graph)
  unfolding aload_graph
  aget_or_load_session async s = aload_graph base async time thread_id nx s

-- config.get("configurable"), where the config is a dict
unfoldable pub configurable_of : Value → Value
unfolding attr_get
configurable_of (dict d) = elim (attr_get "configurable" d) [ none ↦ null | some v ↦ v ]
configurable_of config = null

unfoldable pub tid_of : Value → Value
unfolding attr_get
tid_of (dict d) = elim (attr_get "thread_id" d) [ none ↦ null | some v ↦ v ]
tid_of configurable = null

-- The thread id of a runtime's config, `null` where it has none. `fresh` is a new UUID.
unfoldable pub thread_id_from : String → Value → String
unfolding configurable_of tid_of
thread_id_from fresh config = elim (tid_of (configurable_of config)) [
  | string tid ↦ if tid == "" then str_append "unset-" fresh else tid
  | _ ↦ str_append "unset-" fresh
]
