-- ===== src/Explore/Returns.antt =====
-- The search of `_render_explore` in agent_pinboard/tools.py returns.
use agent_pinboard.Prelude.{
  ℕ, zero, suc, ◌-◌, String, ◌≡◌, ◌≢◌, ◌⊎◌, refl, Option, none, some, List, [], ◌∷◌, ◌++◌, Bool,
  true, false, ◌==◌, string_eq, leb, put, add, length, arith, List-cases, Option-cases, Bool-cases,
  inl, inr,
}
use agent_pinboard.Models.{
  Result, ok, raise, NodeId, EventId, Node, fact, event, EventNode, FactNode, FactEdge, Direction,
  out, in_, both,
}
use agent_pinboard.Networkx.{MultiDiGraph}
use agent_pinboard.Graph.{FactGraph, lookup, edges_for_event}
use agent_pinboard.Explore.{
  Yields, Visited, has, Search, visit, visit_all, search, via_event, edge_via, others,
  through_events, along, from_event, direct, neighbours, explore, started,
}

-- Nothing is raised.
abbrev pub Quiet : Yields → Type 0
Quiet [] = Unit
Quiet (raise e ∷ ys) = ⊥
Quiet (ok _ ∷ ys) = Quiet ys

Quiet-append : (xs ys : Yields) → Quiet xs → Quiet ys → Quiet (xs ++ ys)
Quiet-append [] ys p q = q
Quiet-append (raise e ∷ xs) ys p q = p
Quiet-append (ok n ∷ xs) ys p q = Quiet-append xs ys p q

abbrev pub Returns {ℓ} : {A : Type ℓ} → Result A → Type ℓ
Returns {A = A} r = (a : A) × (r ≡ ok a)

module _ (neighbours_of : NodeId → Yields) (in_order : List NodeId → List NodeId) (max_nodes : ℕ)
    (quiet : (i : NodeId) → Quiet (neighbours_of i)) where
  visit-Returns :
      (ys : Yields) (s : Search) → Quiet ys → Returns (visit neighbours_of in_order max_nodes ys s)
  unfolding visit
  visit-Returns [] s h = (s, refl)
  visit-Returns (raise e ∷ ys) s h = absurd h
  visit-Returns (ok (target, via) ∷ ys) s h = elim (Bool-cases (has target s.visited)) [
    | inl known ↦ let (r, q) = visit-Returns ys s h in (r, ground (arith, known, q))
    | inr found ↦
        let s' : Search = record s {
          visited = put target via s.visited;
          next_frontier = add target s.next_frontier;
        } in
        elim (Bool-cases (leb max_nodes (length s'.visited - 1))) [
          | inl full ↦ (record s' { overflow_remaining = true }, ground (arith, found, full))
          | inr room ↦ let (r, q) = visit-Returns ys s' h in (r, ground (arith, found, room, q))
        ]
  ]

  visit_all-Returns :
      (frontier : List NodeId) (s : Search)
      → Returns (visit_all neighbours_of in_order max_nodes frontier s)
  unfolding visit_all
  visit_all-Returns [] s = (s, refl)
  visit_all-Returns (i ∷ frontier) s =
      let (s', q) = visit-Returns (neighbours_of i) s (quiet i) in
      elim (Bool-cases s'.overflow_remaining) [
        | inl full ↦ (s', ground (arith, q, full))
        | inr room ↦ let (r, q') = visit_all-Returns frontier s' in (r, ground (arith, q, room, q'))
      ]

  pub search-Returns :
      (depth : ℕ) (frontier : List NodeId) (visited : Visited)
      → Returns (search neighbours_of in_order max_nodes depth frontier visited)
  unfolding search
  search-Returns zero frontier visited = ((visited, false), refl)
  search-Returns (suc depth) frontier visited =
      let (s, q) =
        visit_all-Returns (in_order frontier)
          (record { visited = visited; next_frontier = []; overflow_remaining = false }) in
      let (r, q') = search-Returns depth s.next_frontier s.visited in
      elim (Bool-cases s.overflow_remaining) [
        | inl full ↦ ((s.visited, true), ground (arith, q, full))
        | inr room ↦ elim (List-cases s.next_frontier) [
          | inl empty_ ↦ ((s.visited, false), ground (arith, q, room, empty_))
          | inr (x, xs, more) ↦ (r, ground (arith, q, room, more, q'))
        ]
      ]

-- Every node of the graph has its object, so no reading of one raises.
module _ (nx : MultiDiGraph Node FactEdge) (graph : FactGraph nx.Graph)
    (whole : (i : NodeId) → nx.node i graph.g ≢ some none) where
  pub lookup-Returns : (i : NodeId) → Returns (lookup nx i graph)
  unfolding lookup
  lookup-Returns i = elim (Option-cases (nx.node i graph.g)) [
    | inl absent ↦ (none, ground (arith, absent))
    | inr (some n, at) ↦ (some n, ground (arith, at))
    | inr (none, at) ↦ absurd (whole i at)
  ]

  abbrev pub Looked : NodeId → Type 0
  Looked i =
      (lookup nx i graph ≡ ok none)
      ⊎ (((f : FactNode) × (lookup nx i graph ≡ ok (some (fact f))))
          ⊎ ((ev : EventNode) × (lookup nx i graph ≡ ok (some (event ev)))))

  Looked-at : (i : NodeId) (n : Option Node) → lookup nx i graph ≡ ok n → Looked i
  Looked-at i none q = inl q
  Looked-at i (some (fact f)) q = inr (inl (f, q))
  Looked-at i (some (event ev)) q = inr (inr (ev, q))

  pub lookup_cases : (i : NodeId) → Looked i
  lookup_cases i = let (n, q) = lookup-Returns i in Looked-at i n q

  others-Quiet :
      (i : NodeId) (ev : EventNode) (es : List FactEdge) → Quiet (others nx graph i ev es)
  others-Quiet i ev [] = tt
  others-Quiet i ev (e ∷ es) = elim (Bool-cases (e.target_id == i)) [
    | inl here ↦ rw here (others-Quiet i ev es)
    | inr other ↦ rw other (others-Quiet i ev es)
  ]

  through_events-Quiet : (i : NodeId) (ids : List EventId) → Quiet (through_events nx graph i ids)
  unfolding through_events
  through_events-Quiet i [] = tt
  through_events-Quiet i (ev_id ∷ ids) = elim (lookup_cases ev_id) [
    | inr (inr (ev, q)) ↦
        rw (q, Quiet)
          (Quiet-append (others nx graph i ev (edges_for_event nx ev_id graph))
            (through_events nx graph i ids) (others-Quiet i ev (edges_for_event nx ev_id graph))
            (through_events-Quiet i ids))
    | inr (inl (f, q)) ↦ rw (q, Quiet) (through_events-Quiet i ids)
    | inl q ↦ rw (q, Quiet) (through_events-Quiet i ids)
  ]

  pub edge_via-Returns : (e : FactEdge) → Returns (edge_via nx graph e)
  unfolding edge_via
  edge_via-Returns e =
      let (n, q) = lookup-Returns e.event_id in
      (
        elim n [
          | some (event ev) ↦ via_event nx graph e ev
          | _ ↦ record { description = e.description; source_tool = ""; timestamp = none }
        ],
        rw q refl,
      )

  along-Quiet :
      (end : String × String × FactEdge → NodeId) (es : List (String × String × FactEdge))
      → Quiet (along nx graph end es)
  unfolding along
  along-Quiet end [] = tt
  along-Quiet end (x ∷ xs) =
      let (via, q) = edge_via-Returns x.2 in rw (q, Quiet) (along-Quiet end xs)

  from_event-Quiet : (ev : EventNode) (es : List FactEdge) → Quiet (from_event nx graph ev es)
  from_event-Quiet ev [] = tt
  from_event-Quiet ev (e ∷ es) = from_event-Quiet ev es

  direct-Quiet : (direction : Direction) (i : NodeId) → Quiet (direct nx graph direction i)
  direct-Quiet out i = along-Quiet (λ x. x.1) (nx.out_edges i graph.g)
  direct-Quiet in_ i = along-Quiet (λ x. x.0) (nx.in_edges i graph.g)
  direct-Quiet both i =
      Quiet-append (direct nx graph out i) (direct nx graph in_ i)
        (along-Quiet (λ x. x.1) (nx.out_edges i graph.g))
        (along-Quiet (λ x. x.0) (nx.in_edges i graph.g))

  pub neighbours-Quiet :
      (direction : Direction) (skip_events : Bool) (i : NodeId)
      → Quiet (neighbours nx graph direction skip_events i)
  unfolding neighbours
  neighbours-Quiet direction skip_events i = elim (lookup_cases i) [
    | inl q ↦ rw (q, Quiet) (direct-Quiet direction i)
    | inr (inl (f, q)) ↦ elim (Bool-cases skip_events) [
      | inl skip ↦ rw (q, skip, Quiet) (through_events-Quiet i f.source_events)
      | inr follow ↦ rw (q, follow, Quiet) (direct-Quiet direction i)
    ]
    | inr (inr (ev, q)) ↦ elim (Bool-cases skip_events) [
      | inl skip ↦ rw (q, skip, Quiet) (from_event-Quiet ev (edges_for_event nx i graph))
      | inr follow ↦ rw (q, follow, Quiet) (direct-Quiet direction i)
    ]
  ]

-- The search starts from a fact.
pub explore_held :
    (nx : MultiDiGraph Node FactEdge) (graph : FactGraph nx.Graph) (direction : Direction)
    (skip_events : Bool) (in_order : List NodeId → List NodeId) (max_nodes depth : ℕ)
    (start_id : NodeId) (start : FactNode)
    → nx.node start_id graph.g ≡ some (some (fact start))
    → explore nx graph in_order depth direction skip_events max_nodes start_id
      ≡ search
          (neighbours nx graph direction skip_events)
          in_order
          max_nodes
          depth
          (start_id ∷ [])
          (started nx graph start_id)
unfolding explore lookup
explore_held nx graph direction skip_events in_order max_nodes depth start_id start held =
    ground (arith, held)
