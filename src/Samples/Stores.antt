-- ===== src/Samples/Stores.antt =====
-- A store that is a function, and the theorems on the store's dicts at small inputs.
use Prim.Native.String.{[] as str_nil, ◌∷◌ as str_cons}
use agent_pinboard.Prelude.{
  ℕ, zero, suc, String, ◌≡◌, refl, ap, some, List, [], ◌∷◌, string_eq, pair_eq, arith,
}
use agent_pinboard.Models.{ok, ToolCallRecord, Node, fact, event}
use agent_pinboard.Store.{
  Iso, node_to_dict, node_from_dict, tool_call_to_dict, tool_call_from_dict, persist_delta,
  ns_edges,
}
use agent_pinboard.Store.Codec.{
  bare, node_from_dict-node_to_dict, tool_call_from_dict-tool_call_to_dict,
}
use agent_pinboard.Store.Intact.{IsIntact, IsSaved, persist_delta-IsIntact}
use agent_pinboard.Samples.Backend.{base, blank, blank_item}
use agent_pinboard.Samples.Exploration.{address, seen, edge_to}

abbrev pub tally : ℕ → String
tally zero = str_nil
tally (suc n) = str_cons "t" (tally n)

abbrev pub tallied : String → ℕ
tallied str_nil = zero
tallied (str_cons c s) = suc (tallied s)

pub tallied-tally : (n : ℕ) → tallied (tally n) ≡ n
tallied-tally zero = refl
tallied-tally (suc n) = ap suc (tallied-tally n)

abbrev pub time : Iso
time = record {
  isoformat = tally;
  fromisoformat = λ s. ok (tallied s);
  fromisoformat-isoformat = λ t. ap ok (tallied-tally t);
}

node_from_dict-node_to_dict_example :
    node_from_dict time (node_to_dict time (fact (address "f-1")))
    ≡ ok (bare (fact (address "f-1")))
node_from_dict-node_to_dict_example = node_from_dict-node_to_dict time (fact (address "f-1"))

abbrev pub call : ToolCallRecord
call = record {
  tool_name = "scan";
  args_repr = "{}";
  timestamp = 3;
  event_id = some "e-1";
  summary = "+1 nodes";
  duration_ms = 2;
}

tool_call_from_dict-tool_call_to_dict_example :
    tool_call_from_dict time (tool_call_to_dict time call) ≡ ok call
tool_call_from_dict-tool_call_to_dict_example = tool_call_from_dict-tool_call_to_dict time call

abbrev delta : List Node
delta = event seen ∷ fact (address "f-1") ∷ []

persist_delta-IsIntact_example :
    IsIntact base time "t-1" (persist_delta base time "t-1" delta (edge_to "f-1" ∷ []) blank)
    × ((i : String)
        → IsSaved base time "t-1" i blank
        → IsSaved base time "t-1" i
            (persist_delta base time "t-1" delta (edge_to "f-1" ∷ []) blank))
persist_delta-IsIntact_example =
    persist_delta-IsIntact base time "t-1" delta (edge_to "f-1" ∷ []) blank ((refl, refl), tt)
      (λ k d q. absurd (ground (arith, q, blank_item (ns_edges "t-1") k)))
