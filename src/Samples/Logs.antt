-- ===== src/Samples/Logs.antt =====
-- The theorems on the log of tool calls, the raw returns, the locks and the registry at small inputs.
use agent_pinboard.Prelude.{
  String, ◌≡◌, ◌<◌, ◌↔◌, refl, none, some, List, [], ◌∷◌, Bool, true, arith, length, get, put,
  string_eq, pair_eq, ◌==◌, ◌&&◌, contains,
}
use agent_pinboard.Value.{Value, null}
use agent_pinboard.Models.{Result, ok, ToolCallRecord, Entity, skip}
use agent_pinboard.Fields.{Class, absent}
use agent_pinboard.Store.{ns_tool_calls, tool_call_to_dict}
use agent_pinboard.Store.Api.{scan_limit, persist_tool_call, load_tool_calls, record_key}
use agent_pinboard.Store.Log.{
  IsLogged, IsLogOf, log_item, persist_tool_call-IsLogged, load_tool_calls_lem,
}
use agent_pinboard.Config.{default_config}
use agent_pinboard.Session.{no_locks, lock_for}
use agent_pinboard.Session.Locked.{after_calls, lock_for_iff}
use agent_pinboard.Registry.{
  Annotation, nothing, generic, model_class, arg, no_args, register_model, nested_models,
}
use agent_pinboard.Registry.Returns.{Ends, register_model-Ends}
use agent_pinboard.Decorator.{repeats}
use agent_pinboard.Decorator.Duplicates.{IsLast}
use agent_pinboard.Decorator.Arguments.{Ctx}
use agent_pinboard.Decorator.Wrapper.{run_call, handle_duplicate_sync}
use agent_pinboard.Decorator.Wrapper.Repeated.{run_call-repeats}
use agent_pinboard.Samples.{lists, host, class_of}
use agent_pinboard.Samples.Backend.{base, blank, blank_item, listing}
use agent_pinboard.Samples.Ingest.{uuid, stamps}
use agent_pinboard.Samples.Sessions.{as_instance, ctx, start}
use agent_pinboard.Samples.Stores.{time, call}

unfoldable pub noted : base.Store
unfolding persist_tool_call
noted = persist_tool_call base time "t-1" call blank

noted-IsLogged : IsLogged base time "t-1" noted
unfolding noted
noted-IsLogged =
    persist_tool_call-IsLogged base time "t-1" call blank
      (λ k d q. absurd (ground (arith, q, blank_item (ns_tool_calls "t-1") k)))

noted_short : length (base.search (ns_tool_calls "t-1") scan_limit noted) < scan_limit
unfolding noted base blank listing put get ns_tool_calls record_key tool_call_to_dict
    persist_tool_call
noted_short = omega arith

load_tool_calls_lem_example :
    (records : List ToolCallRecord) × (load_tool_calls base time "t-1" noted ≡ ok records)
    × IsLogOf base time "t-1" noted records
load_tool_calls_lem_example = load_tool_calls_lem base time "t-1" noted noted-IsLogged noted_short

noted_item :
    log_item base time "t-1" (record_key time call) noted ≡ some (tool_call_to_dict time call)
unfolding noted base blank put get ns_tool_calls record_key tool_call_to_dict persist_tool_call
noted_item = refl

call-repeats : repeats "scan" "{}" call ≡ true
unfolding repeats
call-repeats = refl

abbrev wary : Ctx
wary = record ctx { on_duplicate = skip }

run_call-repeats_example :
    (records : List ToolCallRecord) × (last : ToolCallRecord) × (load_tool_calls base time "t-1"
        noted
      ≡ ok records)
    × IsLast "scan" "{}" records last
    × ((original : base.Store → Result Value × base.Store)
        → run_call base time default_config wary lists host class_of uuid
            (λ k. k)
            stamps
            7
            1
            as_instance
            (λ n. "n")
            (λ c d. null)
            (λ s. none)
            (λ d. none)
            "t-1"
            "{}"
            original
            (record start { store = noted })
          ≡ handle_duplicate_sync base time default_config wary lists.Graph "t-1" "{}" 7 1 last
              (record start { store = noted }))
run_call-repeats_example =
    run_call-repeats base time default_config wary lists host class_of uuid (λ k. k) stamps 7 1
      as_instance (λ n. "n") (λ c d. null) (λ s. none) (λ d. none) "t-1" "{}"
      (record start { store = noted }) (record_key time call) call (λ e. cc) noted-IsLogged
      noted_short noted_item call-repeats

abbrev thread : String
thread = "t-1"

lock_for_iff_example :
    ((lock_for thread (after_calls ("t-2" ∷ []) no_locks)).0
      ≡ (lock_for thread
          (after_calls ("t-3" ∷ []) (lock_for thread (after_calls ("t-2" ∷ []) no_locks)).1)).0)
    ↔ (thread ≡ thread)
lock_for_iff_example = lock_for_iff ("t-2" ∷ []) ("t-3" ∷ []) thread thread

-- A process with a parent process and with children.
abbrev process : String → Class
process _ = record {
  name = "Process";
  mro = [];
  model_fields =
      ("parent", record { description = none; json_schema_extra = absent })
      ∷ ("children", record { description = none; json_schema_extra = absent })
      ∷ [];
}

abbrev process_or_none : String → String → Annotation
process_or_none c name = generic (arg (model_class "Process") (arg nothing no_args))

abbrev same_entity : Entity → Entity → Bool
same_entity a b = a.name == b.name && a.description == b.description

register_model-Ends_example :
    Ends
      (record {
        seen = [];
        registry = record { declared_entities = []; origin_locations = []; warned = [] };
      })
      (register_model same_entity process process_or_none 2 "Process"
        (record { declared_entities = []; origin_locations = []; warned = [] }))
unfolding contains nested_models
register_model-Ends_example =
    register_model-Ends same_entity process process_or_none ("Process" ∷ []) 2 "Process"
      (record { declared_entities = []; origin_locations = []; warned = [] })
      (λ c q. ((refl, tt), ((refl, tt), tt))) refl (omega arith)
