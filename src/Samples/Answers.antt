-- ===== src/Samples/Answers.antt =====
-- The theorem on `what_have_i_done` at a session with one record.
use agent_pinboard.Prelude.{some, string_eq, pair_eq}
use agent_pinboard.Models.{ToolCallRecord}
use agent_pinboard.Store.Api.{persist_tool_call}
use agent_pinboard.History.{Query}
use agent_pinboard.Samples.Backend.{base}
use agent_pinboard.Samples.Sessions.{filled}
use agent_pinboard.Samples.Stores.{time, call}

abbrev of_event : ToolCallRecord
of_event = record call { event_id = some "e" }

abbrev asked : Query
asked = record { tool_name = some "scan"; node_type = some "IP"; value = some "8"; limit = 1 }

unfoldable told : base.Store
unfolding persist_tool_call
told = persist_tool_call base time "t-1" of_event filled
