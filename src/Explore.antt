-- ===== src/Explore.antt =====
-- agent_pinboard/tools.py: the breadth-first search of `explore`.
pub mod Rounds
pub mod Layers
pub mod Returns
pub mod Limit
pub mod Reach
pub mod Steps
pub mod Walks
use agent_pinboard.Prelude.{
  ℕ, zero, suc, ◌-◌, String, Option, none, some, List, [], ◌∷◌, ◌++◌, map, Bool, true, false, ◌==◌,
  ◌||◌, if◌then◌else◌, string_eq, leb, get, put, add, length,
}
use agent_pinboard.Models.{
  Result, ok, raise, assertion_error, ◌>>=◌, NodeId, EventId, Node, fact, event, FactEdge,
  Direction, out, in_, both, EventNode,
}
use agent_pinboard.Networkx.{MultiDiGraph}
use agent_pinboard.Graph.{FactGraph, lookup, edges_for_event}

-- The edge that first reached a node: its description, tool and time.
pub record Via : Type 0 where
  pub description : String
  pub source_tool : String
  pub timestamp : Option ℕ

-- What `_neighbours` yields, in order. An error is raised when the consumer gets to it.
abbrev pub Yields : Type 0
Yields = List (Result (NodeId × Via))

-- The dict `visited`, without what it is not asked for.
abbrev pub Visited : Type 0
Visited = List (NodeId × Via)

abbrev pub has : NodeId → Visited → Bool
has i visited = elim (get i visited) [ none ↦ false | some _ ↦ true ]

pub record Search : Type 0 where
  pub visited : Visited
  pub next_frontier : List NodeId
  pub overflow_remaining : Bool

-- The search, over the neighbours of a node. `in_order` is the order in which a set is read.
module _ (neighbours_of : NodeId → Yields) (in_order : List NodeId → List NodeId)
    (max_nodes : ℕ) where
  -- The loop over the neighbours of one node.
  unfoldable pub visit : Yields → Search → Result Search
  visit [] s = ok s
  visit (raise e ∷ ys) s = raise e
  visit (ok (target, via) ∷ ys) s =
      let s' : Search = record s {
        visited = put target via s.visited;
        next_frontier = add target s.next_frontier;
      } in
      let known = visit ys s in
      let found = visit ys s' in
      if has target s.visited
      then known
      else if leb max_nodes (length s'.visited - 1)
      then ok (record s' { overflow_remaining = true })
      else found

  -- The loop over the frontier.
  unfoldable pub visit_all : List NodeId → Search → Result Search
  unfolding visit
  visit_all [] s = ok s
  visit_all (i ∷ frontier) s = visit (neighbours_of i) s >>= λ s'.
      if s'.overflow_remaining then ok s' else visit_all frontier s'

  -- The loop over the depth: what was visited, and whether the limit was met.
  unfoldable pub search : ℕ → List NodeId → Visited → Result (Visited × Bool)
  unfolding visit_all
  search zero frontier visited = ok (visited, false)
  search (suc depth) frontier visited =
      visit_all (in_order frontier)
        (record { visited = visited; next_frontier = []; overflow_remaining = false })
      >>= λ s.
          let rest = search depth s.next_frontier s.visited in
          if s.overflow_remaining
          then ok (s.visited, true)
          else elim s.next_frontier [ [] ↦ ok (s.visited, false) | _ ∷ _ ↦ rest ]

-- `_edge_provenance`, `_neighbours` and the search of `_render_explore` in a graph.
module _ (nx : MultiDiGraph Node FactEdge) (graph : FactGraph nx.Graph) where
  abbrev pub via_event : FactEdge → EventNode → Via
  via_event e ev = record {
    description = e.description;
    source_tool = ev.source_tool;
    timestamp = some ev.timestamp;
  }

  -- `_edge_provenance`, with the edge's description.
  unfoldable pub edge_via : FactEdge → Result Via
  unfolding lookup
  edge_via e = lookup nx e.event_id graph >>= λ n. ok (elim n [
    | some (event ev) ↦ via_event e ev
    | _ ↦ record { description = e.description; source_tool = ""; timestamp = none }
  ])

  -- One event that the fact `i` names: the other facts of the event.
  abbrev pub others : NodeId → EventNode → List FactEdge → Yields
  others i ev [] = []
  others i ev (e ∷ es) =
      let rest = others i ev es in
      if e.target_id == i then rest else ok (e.target_id, via_event e ev) ∷ rest

  unfoldable pub through_events : NodeId → List EventId → Yields
  unfolding lookup edges_for_event
  through_events i [] = []
  through_events i (ev_id ∷ rest) = elim (lookup nx ev_id graph) [
    | raise e ↦ raise e ∷ []
    | ok (some (event ev)) ↦ others i ev (edges_for_event nx ev_id graph) ++ through_events i rest
    | ok _ ↦ through_events i rest
  ]

  unfoldable pub along :
      (String × String × FactEdge → NodeId) → List (String × String × FactEdge) → Yields
  unfolding edge_via
  along end [] = []
  along end (x ∷ xs) = elim (edge_via x.2) [
    | raise e ↦ raise e ∷ []
    | ok via ↦ ok (end x, via) ∷ along end xs
  ]

  abbrev pub outward : NodeId → Yields
  outward i = along (λ x. x.1) (nx.out_edges i graph.g)

  abbrev pub inward : NodeId → Yields
  inward i = along (λ x. x.0) (nx.in_edges i graph.g)

  abbrev pub direct : Direction → NodeId → Yields
  direct out i = outward i
  direct in_ i = inward i
  direct both i = outward i ++ inward i

  abbrev pub from_event : EventNode → List FactEdge → Yields
  from_event ev [] = []
  from_event ev (e ∷ es) = ok (e.target_id, via_event e ev) ∷ from_event ev es

  unfoldable pub neighbours : Direction → Bool → NodeId → Yields
  unfolding lookup through_events along edges_for_event
  neighbours direction skip_events i = elim (lookup nx i graph) [
    | raise e ↦ raise e ∷ []
    | ok (some (fact f)) ↦
        if skip_events then through_events i f.source_events else direct direction i
    | ok (some (event ev)) ↦
        if skip_events then from_event ev (edges_for_event nx i graph) else direct direction i
    | ok none ↦ direct direction i
  ]

  -- What is visited before the search.
  abbrev pub started : NodeId → Visited
  started start_id =
      (start_id, record { description = ""; source_tool = ""; timestamp = none }) ∷ []

  -- Negative depths and limits are 0 here; the code treats them alike.
  unfoldable pub explore :
      (List NodeId → List NodeId) → ℕ → Direction → Bool → ℕ → NodeId → Result (Visited × Bool)
  unfolding search neighbours lookup
  explore in_order depth direction skip_events max_nodes start_id =
      lookup nx start_id graph >>= λ start. elim start [
        | some (fact f) ↦
            search (neighbours direction skip_events) in_order max_nodes depth (start_id ∷ [])
              (started start_id)
        | _ ↦ raise assertion_error
      ]
