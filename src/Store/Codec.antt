-- ===== src/Store/Codec.antt =====
-- The dicts of agent_pinboard/store.py are read back as they were written, but for the provenance
-- of a fact.
use agent_pinboard.Prelude.{◌≡◌, refl, [], get, string_eq, arith}
use agent_pinboard.Models.{ok, Node, fact, event, FactEdge, ToolCallRecord}
use agent_pinboard.Store.{
  Iso, node_to_dict, node_from_dict, tool_call_to_dict, tool_call_from_dict, edge_to_dict,
  edge_from_dict,
}

-- A fact without its provenance, which the edges and the events give back.
abbrev pub bare : Node → Node
bare (event e) = event e
bare (fact f) =
    fact (record f { first_seen = 0; last_seen = 0; source_events = []; source_tools = [] })

module _ (time : Iso) where
  -- A node's dict reads back as the node, an event whole and a fact without its provenance.
  pub node_from_dict-node_to_dict :
      (n : Node) → node_from_dict time (node_to_dict time n) ≡ ok (bare n)
  unfolding node_from_dict node_to_dict get
  node_from_dict-node_to_dict (event e) = rw (time.fromisoformat-isoformat e.timestamp) refl
  node_from_dict-node_to_dict (fact f) = refl

  -- An edge's dict reads back as the edge.
  pub edge_from_dict-edge_to_dict : (e : FactEdge) → edge_from_dict (edge_to_dict e) ≡ ok e
  unfolding edge_from_dict edge_to_dict get
  edge_from_dict-edge_to_dict e = refl

  -- A log record's dict reads back as the record.
  pub tool_call_from_dict-tool_call_to_dict :
      (r : ToolCallRecord) → tool_call_from_dict time (tool_call_to_dict time r) ≡ ok r
  unfolding tool_call_from_dict tool_call_to_dict get
  tool_call_from_dict-tool_call_to_dict r = ground (arith, time.fromisoformat-isoformat r.timestamp)
