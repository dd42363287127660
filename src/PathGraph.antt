-- ===== src/PathGraph.antt =====
-- agent_pinboard/tools.py: the graph of facts in which `find_path` searches, `_build_path_graph` with
-- skip_events=True; and `all_facts` of agent_pinboard/graph.py.
pub mod Adjacent
pub mod Joined
pub mod Returns
pub mod Selection
use Prim.Native.String.{◌++◌ as str_append}
use agent_pinboard.Prelude.{
  ℕ, String, ◌≡◌, Option, none, some, List, [], ◌∷◌, ◌++◌, Bool, false, ◌==◌, ◌&&◌, ◌||◌,
  if◌then◌else◌, string_eq, pair_eq, get, put,
}
use agent_pinboard.Models.{
  Result, ok, ◌>>=◌, NodeId, EventId, FactNode, FactEdge, Node, fact, event, event_node_type,
}
use agent_pinboard.Networkx.{MultiDiGraph}
use agent_pinboard.Graph.{FactGraph, ids_of, lookup, node_at, edges_for_event}

-- What is used of networkx.Graph, which is undirected.
pub record UndirectedGraph : Type 1 where
  pub Proj : Type 0
  pub none_yet : Proj
  pub join : NodeId → Proj → Proj
  pub link : NodeId → NodeId → Proj → Proj
  pub adjacent : NodeId → NodeId → Proj → Bool
  pub adjacent-none_yet : (a b : NodeId) → adjacent a b none_yet ≡ false
  pub adjacent-join : (a b c : NodeId) (g : Proj) → adjacent a b (join c g) ≡ adjacent a b g
  pub adjacent-link :
      (a b c d : NodeId) (g : Proj)
      → adjacent a b (link c d g) ≡ (c == a && d == b || (c == b && d == a || adjacent a b g))

-- annotations[key] = label, where the key is not there
unfoldable pub annotate :
    NodeId → NodeId → String → List ((NodeId × NodeId) × String) → List ((NodeId × NodeId) × String)
unfolding get put
annotate a b label notes = elim (get (a, b) notes) [
  | none ↦ put (a, b) label notes
  | some _ ↦ notes
]

module _ (nx : MultiDiGraph Node FactEdge) (graph : FactGraph nx.Graph) where
  -- The loop of `all_facts` over the ids of a type.
  unfoldable pub facts_in : List NodeId → Result (List FactNode)
  unfolding node_at
  facts_in [] = ok []
  facts_in (i ∷ ids) = node_at nx i graph >>= λ n.
      facts_in ids >>= λ rest. ok (elim n [ fact f ↦ f ∷ rest | event e ↦ rest ])

  unfoldable pub all_facts : List (String × List NodeId) → Result (List FactNode)
  unfolding facts_in
  all_facts [] = ok []
  all_facts ((t, ids) ∷ types) =
      let rest = all_facts types in
      if t == event_node_type then rest else facts_in ids >>= λ fs. rest >>= λ more. ok (fs ++ more)

  -- fact_ids
  unfoldable pub present_targets : List FactEdge → Result (List NodeId)
  unfolding lookup
  present_targets [] = ok []
  present_targets (e ∷ es) = lookup nx e.target_id graph >>= λ o.
      present_targets es >>= λ rest. ok (elim o [ none ↦ rest | some _ ↦ e.target_id ∷ rest ])

  unfoldable pub fact_ids_of : EventId → Result (List NodeId)
  unfolding present_targets edges_for_event
  fact_ids_of i = present_targets (edges_for_event nx i graph)

  -- event_label, `isoformat` being that of datetime
  unfoldable pub event_label : (ℕ → String) → Option Node → String
  event_label isoformat (some (event e)) =
      str_append e.source_tool (str_append "@" (isoformat e.timestamp))
  event_label isoformat _ = "<unknown event>"

  module _ (undirected : UndirectedGraph) (isoformat : ℕ → String) where
    -- The graph and the annotations.
    abbrev pub PathGraphOf : Type 0
    PathGraphOf = undirected.Proj × List ((NodeId × NodeId) × String)

    unfoldable pub join_facts : List FactNode → undirected.Proj → undirected.Proj
    join_facts [] g = g
    join_facts (f ∷ fs) g = join_facts fs (undirected.join f.id g)

    -- for b in fact_ids[i + 1:]
    unfoldable pub link_one : String → NodeId → List NodeId → PathGraphOf → PathGraphOf
    unfolding annotate
    link_one label a [] (g, notes) = (g, notes)
    link_one label a (b ∷ bs) (g, notes) =
        link_one label a bs (undirected.link a b g, annotate a b label notes)

    -- for i, a in enumerate(fact_ids)
    unfoldable pub link_pairs : String → List NodeId → PathGraphOf → PathGraphOf
    unfolding link_one
    link_pairs label [] p = p
    link_pairs label (a ∷ fact_ids) p = link_pairs label fact_ids (link_one label a fact_ids p)

    -- The loop over the events.
    unfoldable pub link_events : List EventId → PathGraphOf → Result PathGraphOf
    unfolding lookup fact_ids_of event_label link_pairs
    link_events [] p = ok p
    link_events (i ∷ ids) p = lookup nx i graph >>= λ ev. fact_ids_of i >>= λ fact_ids.
        link_events ids (link_pairs (event_label isoformat ev) fact_ids p)

    unfoldable pub build_path_graph : Result PathGraphOf
    unfolding all_facts join_facts link_events
    build_path_graph = all_facts graph.nodes_by_type >>= λ facts.
        link_events (ids_of event_node_type graph.nodes_by_type)
          (join_facts facts undirected.none_yet, [])
