-- ===== src/History/Selected.antt =====
-- What `what_have_i_done` of agent_pinboard/tools.py lists.
use agent_pinboard.Prelude.{String, ◌≡◌, Option, some, List, true, string_eq, nat_eq, contains}
use agent_pinboard.Models.{
  ok, NodeId, EventId, Entity, FactNode, FactEdge, Node, fact, node_type, ToolCallRecord,
}
use agent_pinboard.Models.Host.{Host}
use agent_pinboard.Networkx.{MultiDiGraph}
use agent_pinboard.Graph.{FactGraph}
use agent_pinboard.Graph.Nodes.{Holds}
use agent_pinboard.Graph.Invariant.{Ids}
use agent_pinboard.Store.{Iso, BaseStore}
use agent_pinboard.History.{Query, target_canonical, fits, of_tool}

module _ (base : BaseStore) (time : Iso) (thread_id : String) (nx : MultiDiGraph Node FactEdge)
    {host : Host} (ids : Ids host) (registry : List (String × Entity)) (q : Query) where
  -- The record is of the tool that is asked for, and where a type is asked for, its event is a
  -- source of a fact of the type, of the canonical form of the value that is asked for.
  pub record IsSelected (graph : FactGraph nx.Graph) (r : ToolCallRecord) : Type 0 where
    pub of_the_tool : of_tool q.tool_name r ≡ true
    pub about :
        (t : String)
        → q.node_type ≡ some t
        → (i : EventId) × (j : NodeId) × (f : FactNode) × (canonical : Option String) × (r.event_id
            ≡ some i)
          × Holds nx graph.g j (fact f)
          × (f.node_type ≡ t)
          × (contains i f.source_events ≡ true)
          × (target_canonical registry t q.value ≡ ok canonical)
          × (fits canonical f ≡ true)
