-- ===== src/Samples/Sessions.antt =====
-- The theorems on a session and on the wrapper at a small session.
use agent_pinboard.Prelude.{
  String, ◌≡◌, ◌<◌, refl, Option, none, some, List, [], ◌∷◌, string_eq, pair_eq, arith, length, get,
  put, true, false,
}
use agent_pinboard.Value.{Value, null, model, dict, attr, end, string}
use agent_pinboard.Models.{Result, ok, always, edge_id}
use agent_pinboard.Graph.{FactGraph}
use agent_pinboard.Store.{
  persist_delta, ns_nodes, put_nodes, put_edges, ns_edges, node_to_dict, edge_to_dict,
}
use agent_pinboard.Store.Api.{scan_limit, load_graph}
use agent_pinboard.Store.Session.{IsLoadOf, load_graph-IsLoadOf}
use agent_pinboard.Store.Written.{IsSession, persist_delta-IsSession}
use agent_pinboard.Config.{default_config}
use agent_pinboard.Decorator.{Item}
use agent_pinboard.Decorator.Arguments.{Ctx, Argument, runtime}
use agent_pinboard.Decorator.Wrapper.{World, run_call, sync_wrapper}
use agent_pinboard.Decorator.Wrapper.Kept.{run_call-IsSession}
use agent_pinboard.Decorator.AsyncWrapper.{async_wrapper}
use agent_pinboard.Decorator.AsyncWrapper.Agreement.{async_wrapper-sync_wrapper}
use agent_pinboard.Samples.{lists, host, class_of, row}
use agent_pinboard.Samples.Backend.{base, async, blank, blank_item, listing}
use agent_pinboard.Samples.Ingest.{many_ids, uuid, uuid-injective, stamps}
use agent_pinboard.Samples.Extraction.{entity_named}
use agent_pinboard.Samples.Snapshots.{listed, joined, keyed}
use agent_pinboard.Samples.Stores.{time}

pub blank-IsSession : IsSession base time "t-1" lists many_ids blank
blank-IsSession = record {
  stored = record {
    nodes = λ k d q. absurd (ground (arith, q, blank_item (ns_nodes "t-1") k));
    edges = λ k d q. absurd (ground (arith, q, blank_item (ns_edges "t-1") k));
  };
  intact = λ k d q. absurd (ground (arith, q, blank_item (ns_edges "t-1") k));
}

unfoldable pub filled : base.Store
unfolding persist_delta
filled = persist_delta base time "t-1" listed joined blank

pub filled-IsSession : IsSession base time "t-1" lists many_ids filled
unfolding filled
filled-IsSession =
    persist_delta-IsSession base time "t-1" lists many_ids listed joined blank
      ((refl, (2, refl)), ((keyed, refl), ((refl, (1, refl)), tt)))
      ((refl, refl), ((refl, refl), ((refl, refl), tt))) blank-IsSession

filled_short : length (base.search (ns_nodes "t-1") scan_limit filled) < scan_limit
unfolding filled base blank listing put get put_nodes put_edges ns_nodes ns_edges node_to_dict
    edge_to_dict persist_delta edge_id
filled_short = omega arith

load_graph-IsLoadOf_example :
    (graph : FactGraph lists.Graph) × (load_graph base time "t-1" lists filled ≡ ok graph)
    × IsLoadOf base time "t-1" lists many_ids filled graph
load_graph-IsLoadOf_example =
    load_graph-IsLoadOf base time "t-1" lists many_ids filled filled-IsSession.stored filled_short

abbrev pub ctx : Ctx
ctx = record {
  many = false;
  mask_args = "token" ∷ [];
  on_duplicate = always;
  response_transform = none;
  tool_name = "scan";
  store_raw = true;
}

abbrev pub as_instance : Value → Option Item
as_instance (model c fields) = some (c, fields)
as_instance _ = none

abbrev pub scan : base.Store → Result Value × base.Store
scan s = (ok (model "Finding" row), s)

abbrev pub start : World base.Store lists.Graph
start = record { store = blank; ingests = []; logged = [] }

run_call-IsSession_example :
    IsSession base time "t-1" lists many_ids
      (run_call base time default_config ctx lists host class_of uuid
        (λ k. k)
        stamps
        7
        1
        as_instance
        (λ n. "n")
        (λ c d. null)
        (λ s. none)
        (λ d. none)
        "t-1"
        "{}"
        scan
        start).1.store
run_call-IsSession_example =
    run_call-IsSession base time default_config ctx lists many_ids class_of uuid (λ k. k) stamps 7 1
      as_instance (λ n. "n") (λ c d. null) (λ s. none) (λ d. none) "t-1" "{}" (λ k. (k, refl))
      uuid-injective (λ _ name e h v c _. entity_named name e h) scan start blank-IsSession
      blank-IsSession (λ j d q. ground (arith, q, blank_item (ns_nodes "t-1") (uuid j)))

abbrev given : List Argument
given =
    runtime (record {
      has_store = true;
      config = dict (attr "configurable" (dict (attr "thread_id" (string "t-1") end)) end);
    })
    ∷ []

abbrev tool : List Argument → List (String × Argument) → base.Store → Result Value × base.Store
tool args kwargs s = scan s

async_wrapper-sync_wrapper_example :
    async_wrapper
      (λ args kwargs. ok kwargs)
      (λ bound. bound)
      (λ bound. ok "{}")
      base
      async
      time
      default_config
      ctx
      lists
      host
      class_of
      uuid
      (λ k. k)
      stamps
      7
      1
      as_instance
      (λ n. "n")
      (λ c d. null)
      (λ s. none)
      (λ d. none)
      "u-1"
      tool
      given
      []
      start
    ≡ sync_wrapper
        (λ args kwargs. ok kwargs)
        (λ bound. bound)
        (λ bound. ok "{}")
        base
        time
        default_config
        ctx
        lists
        host
        class_of
        uuid
        (λ k. k)
        stamps
        7
        1
        as_instance
        (λ n. "n")
        (λ c d. null)
        (λ s. none)
        (λ d. none)
        "u-1"
        tool
        given
        []
        start
async_wrapper-sync_wrapper_example =
    async_wrapper-sync_wrapper base async time default_config ctx lists host class_of uuid (λ k. k)
      stamps 7 1 as_instance (λ n. "n") (λ c d. null) (λ s. none) (λ d. none)
      (λ args kwargs. ok kwargs) (λ bound. bound) (λ bound. ok "{}") "u-1" tool given [] start
