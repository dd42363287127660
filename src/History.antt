-- ===== src/History.antt =====
-- agent_pinboard/tools.py: what `what_have_i_done` selects of the log of tool calls.
pub mod Selected
pub mod Filters
use agent_pinboard.Prelude.{
  ℕ, ◌-◌, String, Option, none, some, List, [], ◌∷◌, Bool, true, false, not, ◌==◌, ◌&&◌,
  if◌then◌else◌, string_eq, nat_eq, contains, add, get, length, drop,
}
use agent_pinboard.Value.{Value, string}
use agent_pinboard.Models.{
  Result, ok, raise, ◌>>=◌, NodeId, EventId, Entity, FactNode, FactEdge, Node, fact, event,
  ToolCallRecord,
}
use agent_pinboard.Networkx.{MultiDiGraph}
use agent_pinboard.Graph.{FactGraph, ids_of, lookup}
use agent_pinboard.Store.{Iso, BaseStore}
use agent_pinboard.Store.Api.{load_tool_calls}
use agent_pinboard.Session.{get_or_load_session}

-- The arguments of the tool, `limit` not being negative.
pub record Query : Type 0 where
  pub tool_name : Option String
  pub node_type : Option String
  pub value : Option String
  pub limit : ℕ

-- The answer, before it is rendered: the filter is refused, or the records that are listed and the
-- number of all records. No record listed stands for the answer that there is no match.
pub data Answer : Type 0 where
  ambiguous : Answer
  records_of : List ToolCallRecord → ℕ → Answer

-- xs.update(ys)
unfoldable pub update : List EventId → List EventId → List EventId
unfolding add
update xs [] = xs
update xs (y ∷ ys) = update (add y xs) ys

-- filtered[-limit:], which is the whole list for a limit of 0
unfoldable pub last_of : ℕ → List ToolCallRecord → List ToolCallRecord
last_of limit rs = if limit == 0 then rs else drop (length rs - limit) rs

-- The canonical form of the value that is asked for.
unfoldable pub target_canonical :
    List (String × Entity) → String → Option String → Result (Option String)
unfolding get
target_canonical registry node_type none = ok none
target_canonical registry node_type (some value) = elim (get node_type registry) [
  | none ↦ ok (some value)
  | some entity ↦ elim entity.normalizer [
    | none ↦ ok (some value)
    | some normalize ↦ normalize (string value) >>= λ c. ok (some c)
  ]
]

-- The fact is of the canonical form, where one is asked for.
abbrev pub fits : Option String → FactNode → Bool
fits none f = true
fits (some c) f = f.canonical_value == c

module _ (nx : MultiDiGraph Node FactEdge) (graph : FactGraph nx.Graph) where
  -- The loop over the ids of the type.
  unfoldable pub events_about : Option String → List NodeId → List EventId → Result (List EventId)
  unfolding lookup update
  events_about canonical [] found = ok found
  events_about canonical (i ∷ ids) found = lookup nx i graph >>= λ o. elim o [
    | some (fact f) ↦
        events_about canonical ids
          (if fits canonical f then update found f.source_events else found)
    | _ ↦ events_about canonical ids found
  ]

  -- entity_event_ids
  unfoldable pub entity_event_ids :
      List (String × Entity) → Option String → Option String → Result (Option (List EventId))
  unfolding target_canonical events_about
  entity_event_ids registry none value = ok none
  entity_event_ids registry (some t) value = target_canonical registry t value >>= λ canonical.
      events_about canonical (ids_of t graph.nodes_by_type) [] >>= λ found. ok (some found)

-- The two filters of the loop over the records.
unfoldable pub of_tool : Option String → ToolCallRecord → Bool
of_tool none r = true
of_tool (some name) r = r.tool_name == name

unfoldable pub of_events : Option (List EventId) → ToolCallRecord → Bool
unfolding contains
of_events none r = true
of_events (some found) r = elim r.event_id [ none ↦ false | some i ↦ contains i found ]

unfoldable pub filter_records :
    Option String → Option (List EventId) → List ToolCallRecord → List ToolCallRecord
unfolding of_tool of_events
filter_records name found [] = []
filter_records name found (r ∷ rs) =
    let rest = filter_records name found rs in
    if of_tool name r && of_events found r then r ∷ rest else rest

module _ (base : BaseStore) (time : Iso) (thread_id : String) (nx : MultiDiGraph Node FactEdge)
    (registry : List (String × Entity)) (q : Query) where
  -- The answer where the filters are clear.
  unfoldable pub answer : base.Store → Result Answer
  unfolding get_or_load_session load_tool_calls entity_event_ids filter_records last_of
  answer s = get_or_load_session base time thread_id nx s >>= λ graph.
      load_tool_calls base time thread_id s >>= λ records.
      entity_event_ids nx graph registry q.node_type q.value >>= λ found.
      ok (records_of (last_of q.limit (filter_records q.tool_name found records)) (length records))

  -- The tool once its runtime is resolved, `registry` being the declared entities.
  unfoldable pub what_have_i_done : base.Store → Result Answer
  unfolding answer
  what_have_i_done s = elim q.value [
    | none ↦ answer s
    | some v ↦ elim q.node_type [ none ↦ ok ambiguous | some t ↦ answer s ]
  ]
