-- ===== src/Relevance/Overlap.antt =====
-- What the scores of `_arigraph_score_events` in agent_pinboard/tools.py depend on.
use agent_pinboard.Prelude.{
  ℕ, ◌≡◌, refl, sym, ap, ◌∙◌, subst, none, some, List, [], ◌∷◌, Bool, true, false, not, ◌⊎◌, ◌==◌,
  ◌&&◌, ◌||◌, if◌then◌else◌, string_eq, nat_eq, contains, contains-add, add, arith, eq_iff,
  Bool-cases, inl, inr, length, All, get, put, get-put,
}
use agent_pinboard.Models.{
  ok, ◌>>=◌, NodeId, EventId, FactNode, EventNode, FactEdge, Node, fact, event,
}
use agent_pinboard.Networkx.{MultiDiGraph}
use agent_pinboard.Graph.{FactGraph, lookup, edges_for_event}
use agent_pinboard.Graph.Nodes.{Holds}
use agent_pinboard.Relevance.{
  add_others, targets_in, shared, neighbour_set, targets_of, score_of, score_all,
  arigraph_score_events,
}

-- One of the edges leads to the node.
abbrev reaches : NodeId → List FactEdge → Bool
reaches t [] = false
reaches t (e ∷ es) = e.target_id == t || reaches t es

contains-add_others :
    (t start_id : NodeId) (es : List FactEdge) (neighbours : List NodeId)
    → contains t (add_others start_id es neighbours)
      ≡ (contains t neighbours || reaches t es && not (t == start_id))
unfolding add_others
contains-add_others t start_id [] neighbours = ground arith
contains-add_others t start_id (e ∷ es) neighbours = elim (Bool-cases (e.target_id == start_id)) [
  | inl same ↦
      let rest = contains-add_others t start_id es neighbours in
      rw same (
        ground
          (arith, rest, same, eq_iff e.target_id start_id, eq_iff e.target_id t, eq_iff t start_id))
  | inr other ↦
      let rest = contains-add_others t start_id es (add e.target_id neighbours) in
      rw other (
        ground (
          arith,
          rest,
          other,
          contains-add e.target_id t neighbours,
          eq_iff e.target_id start_id,
          eq_iff e.target_id t,
          eq_iff t start_id,
        ))
]

contains-targets_in :
    (t : NodeId) (es : List FactEdge) (targets : List NodeId)
    → contains t (targets_in es targets) ≡ (contains t targets || reaches t es)
unfolding targets_in
contains-targets_in t [] targets = ground arith
contains-targets_in t (e ∷ es) targets =
    contains-targets_in t es (add e.target_id targets)
    ∙ ground (arith, contains-add e.target_id t targets)

-- The nodes of the list but this one.
unfoldable pub without : NodeId → List NodeId → List NodeId
without i [] = []
without i (t ∷ ts) = if t == i then without i ts else t ∷ without i ts

shared-without :
    (i : NodeId) (targets neighbours : List NodeId)
    → All (λ t. contains t neighbours ≡ not (t == i)) targets
    → shared targets neighbours ≡ without i targets
unfolding shared without
shared-without i [] neighbours h = refl
shared-without i (t ∷ ts) neighbours (here, h) =
    ground (arith, here, shared-without i ts neighbours h)

All-contained :
    (P : NodeId → Type 0) (l : List NodeId) → ((t : NodeId) → contains t l ≡ true → P t) → All P l
unfolding contains
All-contained P [] f = tt
All-contained P (t ∷ l) f =
    (f t (ground (arith, eq_iff t t)), All-contained P l (λ u q. f u (ground (arith, q))))

module _ (nx : MultiDiGraph Node FactEdge) {Score : Type 0} (score : ℕ → ℕ → Score) (zero : Score)
    (graph : FactGraph nx.Graph) where
  contains-neighbour_set :
      (t start_id : NodeId) (is : List EventId) (neighbours : List NodeId) (i : EventId)
      → (contains i is ≡ true) ⊎ (contains t neighbours ≡ true)
      → reaches t (edges_for_event nx i graph) ≡ true
      → (t == start_id) ≡ false
      → contains t (neighbour_set nx score zero graph start_id is neighbours) ≡ true
  unfolding neighbour_set contains
  contains-neighbour_set t start_id [] neighbours i (inl h) q other = absurd (ground (arith, h))
  contains-neighbour_set t start_id [] neighbours i (inr h) q other = h
  contains-neighbour_set t start_id (j ∷ is) neighbours i h q other =
      let next = contains-add_others t start_id (edges_for_event nx j graph) neighbours in
      contains-neighbour_set t start_id is
        (add_others start_id (edges_for_event nx j graph) neighbours) i
        (elim h [
          | inr old ↦ inr (ground (arith, next, old))
          | inl listed ↦ elim (Bool-cases (j == i)) [
            | inl e ↦
                let same =
                  subst (λ x. reaches t (edges_for_event nx x graph) ≡ true)
                    (sym ((eq_iff j i).0 e)) q in
                inr (ground (arith, next, same, other))
            | inr e ↦ inl (ground (arith, listed, e))
          ]
        ])
        q other

  start-ne :
      (start_id : NodeId) (is : List EventId) (neighbours : List NodeId)
      → contains start_id neighbours ≡ false
      → contains start_id (neighbour_set nx score zero graph start_id is neighbours) ≡ false
  unfolding neighbour_set
  start-ne start_id [] neighbours h = h
  start-ne start_id (j ∷ is) neighbours h =
      start-ne start_id is (add_others start_id (edges_for_event nx j graph) neighbours) (
        contains-add_others start_id start_id (edges_for_event nx j graph) neighbours
        ∙ ground (arith, h, eq_iff start_id start_id))

  -- The facts of one of the entity's own events that count as its neighbours are all of the event's
  -- facts but the entity itself.
  pub shared_targets :
      (start_id : NodeId) (source_events : List EventId) (i : EventId)
      → contains i source_events ≡ true
      → shared
          (targets_of nx score zero graph i)
          (neighbour_set nx score zero graph start_id source_events [])
        ≡ without start_id (targets_of nx score zero graph i)
  unfolding targets_of contains
  shared_targets start_id source_events i own =
      let edges = edges_for_event nx i graph in
      let near = neighbour_set nx score zero graph start_id source_events [] in
      shared-without start_id (targets_in edges []) near (
        All-contained (λ t. contains t near ≡ not (t == start_id)) (targets_in edges [])
          (λ t q.
            let reached : reaches t edges ≡ true =
              ground (arith, q, contains-targets_in t edges []) in
            elim (Bool-cases (t == start_id)) [
              | inl e ↦
                  let same = (eq_iff t start_id).0 e in
                  subst (λ x. contains x near ≡ false) (sym same)
                    (start-ne start_id source_events [] refl)
                  ∙ ground (arith, e)
              | inr e ↦
                  contains-neighbour_set t start_id source_events [] i (inl own) reached e
                  ∙ ground (arith, e)
            ]))

  -- A score that looks at the event's own facts only.
  unfoldable pub own_score : NodeId → EventId → Score
  own_score start_id i =
      let targets = targets_of nx score zero graph i in
      if length targets == 0
      then zero
      else score (length (without start_id targets)) (length targets)

  score_of-own_score :
      (start_id : NodeId) (source_events : List EventId) (i : EventId)
      → contains i source_events ≡ true
      → score_of nx score zero graph (neighbour_set nx score zero graph start_id source_events []) i
        ≡ own_score start_id i
  unfolding score_of own_score
  score_of-own_score start_id source_events i own =
      ap
        (λ l.
          if length (targets_of nx score zero graph i) == 0
          then zero
          else score (length l) (length (targets_of nx score zero graph i)))
        (shared_targets start_id source_events i own)

  -- One of the events has the id.
  abbrev pub among : EventId → List EventNode → Bool
  among i [] = false
  among i (e ∷ events) = e.id == i || among i events

  get-score_all :
      (neighbours : List NodeId) (i : EventId) (events : List EventNode)
      (scores : List (EventId × Score)) (s : Score)
      → s ≡ score_of nx score zero graph neighbours i
      → (among i events ≡ true) ⊎ (get i scores ≡ some s)
      → get i (score_all nx score zero graph neighbours events scores) ≡ some s
  unfolding score_all
  get-score_all neighbours i [] scores s value (inl h) = absurd (ground (arith, h))
  get-score_all neighbours i [] scores s value (inr h) = h
  get-score_all neighbours i (e ∷ events) scores s value h =
      let new = score_of nx score zero graph neighbours e.id in
      get-score_all neighbours i events (put e.id new scores) s value
        (elim (Bool-cases (e.id == i)) [
          | inl same ↦ inr (
              get-put e.id i new scores
              ∙ (ap (λ b. if b then some new else get i scores) same
                  ∙ ap some (
                      ap (score_of nx score zero graph neighbours) ((eq_iff e.id i).0 same)
                      ∙ sym value)))
          | inr other ↦ elim h [
            | inl later ↦ inl (ground (arith, later, other))
            | inr old ↦ inr (
                get-put e.id i new scores
                ∙ (ap (λ b. if b then some new else get i scores) other ∙ old))
          ]
        ])

  lookup_held : (i : NodeId) (n : Node) → Holds nx graph.g i n → lookup nx i graph ≡ ok (some n)
  unfolding lookup
  lookup_held i n h = ground (arith, h)

  -- For the events of the entity itself, as `timeline` passes them, an event's score depends on the
  -- facts of that event alone: the neighbours that count are all of its facts but the entity, whether
  -- or not they share another event with it. The entity is a fact that the graph holds.
  pub arigraph_score_events-own_score :
      (start_id : NodeId) (f : FactNode) (events : List EventNode) (i : EventId)
      → Holds nx graph.g start_id (fact f)
      → contains i f.source_events ≡ true
      → among i events ≡ true
      → (scores : List (EventId × Score)) × (arigraph_score_events nx score zero graph start_id
            events
          ≡ ok scores)
        × (get i scores ≡ some (own_score start_id i))
  unfolding arigraph_score_events
  arigraph_score_events-own_score start_id f events i held own listed =
      let near = neighbour_set nx score zero graph start_id f.source_events [] in
      (
        score_all nx score zero graph near events [],
        ap
            (λ r. r >>= λ o. elim o [
              | none ↦ ok []
              | some (event e) ↦ ok []
              | some (fact x) ↦ ok (
                  score_all nx score zero graph
                    (neighbour_set nx score zero graph start_id x.source_events []) events [])
            ])
            (lookup_held start_id (fact f) held),
        get-score_all near i events [] (own_score start_id i)
            (sym (score_of-own_score start_id f.source_events i own)) (inl listed),
      )
