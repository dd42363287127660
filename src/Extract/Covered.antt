-- ===== src/Extract/Covered.antt =====
-- The lists that an extraction (agent_pinboard/extract.py) returns cover its edges: the target of
-- each edge is among the new or the linked facts.
use agent_pinboard.Prelude.{
  ℕ, String, ◌≡◌, refl, some, List, [], ◌∷◌, ◌++◌, arith, true, false, ◌==◌, inl, inr, contains,
  contains-append, contains-add, All, All-append, All-map, ◌||◌, if◌then◌else◌, string_eq, Bool,
  eq_iff, add,
}
use agent_pinboard.Value.{Value, Attrs}
use agent_pinboard.Models.{ok, EventId, NodeId, Entity, FactEdge, Node, fact_node_id}
use agent_pinboard.Models.Host.{Host}
use agent_pinboard.Networkx.{MultiDiGraph}
use agent_pinboard.Fields.{Class, field_entity}
use agent_pinboard.Graph.{FactGraph}
use agent_pinboard.Graph.Invariant.{Ids, IsIndexed}
use agent_pinboard.Graph.Persists.{Keeps-refl}
use agent_pinboard.Extract.{Walk, start, info_of, emit_one, extract}
use agent_pinboard.Extract.Emit.{Legal, IsSkipped, IsEmitted, emit_one-eq-ok, edge_to}
use agent_pinboard.Extract.Sound.{IsSound, step-IsSound}
use agent_pinboard.Extract.Rule.{walk_keeps}

-- The target of the edge is in one of two lists.
abbrev pub Covers : List NodeId → List NodeId → FactEdge → Type 0
Covers new_facts linked_facts e =
    (contains e.target_id new_facts || contains e.target_id linked_facts) ≡ true

-- One of the edges has the target.
abbrev pub has_target : NodeId → List FactEdge → Bool
has_target i [] = false
has_target i (e ∷ es) = e.target_id == i || has_target i es

has_target-append :
    (i : NodeId) (es fs : List FactEdge)
    → has_target i (es ++ fs) ≡ (has_target i es || has_target i fs)
has_target-append i [] fs = refl
has_target-append i (e ∷ es) fs = ground (arith, has_target-append i es fs)

pub record IsCovered (new_facts linked_facts seen_linked : List NodeId) (new_edges : List FactEdge)
    : Type 0 where
  pub edges : All (Covers new_facts linked_facts) new_edges
  pub seen : (i : NodeId) → contains i seen_linked ≡ contains i linked_facts
  pub linked :
      (i : NodeId)
      → (contains i new_facts || contains i linked_facts) ≡ true
      → has_target i new_edges ≡ true

-- The two lists after the bookkeeping for one more target.
module _ (was_new : Bool) (i : NodeId) (new_facts linked_facts seen_linked : List NodeId) where
  abbrev news : List NodeId
  news = if was_new then new_facts ++ i ∷ [] else new_facts

  abbrev links : List NodeId
  links = if was_new || contains i seen_linked then linked_facts else linked_facts ++ i ∷ []

  abbrev seens : List NodeId
  seens = if was_new then seen_linked else add i seen_linked

  Covers-mono : (e : FactEdge) → Covers new_facts linked_facts e → Covers news links e
  unfolding contains
  Covers-mono e h = ground (
    arith,
    contains-append e.target_id new_facts (i ∷ []),
    contains-append e.target_id linked_facts (i ∷ []),
  )

  Covers-noted :
      (e : FactEdge)
      → e.target_id ≡ i
      → contains i seen_linked ≡ contains i linked_facts
      → Covers news links e
  unfolding contains
  Covers-noted e same seen = ground (
    arith,
    contains-append e.target_id new_facts (i ∷ []),
    contains-append e.target_id linked_facts (i ∷ []),
    eq_iff i e.target_id,
  )

  contains-seens :
      (j : NodeId)
      → contains j seen_linked ≡ contains j linked_facts
      → contains i seen_linked ≡ contains i linked_facts
      → contains j seens ≡ contains j links
  unfolding contains
  contains-seens j at_j at_i =
      ground
        (arith, contains-append j linked_facts (i ∷ []), contains-add i j seen_linked, eq_iff i j)

  linked-noted :
      (j : NodeId) (edges : List FactEdge) (e : FactEdge)
      → e.target_id ≡ i
      → ((contains j new_facts || contains j linked_facts) ≡ true → has_target j edges ≡ true)
      → (contains j news || contains j links) ≡ true
      → has_target j (edges ++ e ∷ []) ≡ true
  unfolding contains
  linked-noted j edges e same old h = ground (
    arith,
    same,
    contains-append j new_facts (i ∷ []),
    contains-append j linked_facts (i ∷ []),
    has_target-append j edges (e ∷ []),
    eq_iff i j,
    eq_iff e.target_id j,
  )

IsCovered-note :
    (was_new : Bool) (i : NodeId) (news' links' seens' : List NodeId) (edges : List FactEdge)
    (e : FactEdge)
    → e.target_id ≡ i
    → IsCovered news' links' seens' edges
    → IsCovered
        (news was_new i news' links' seens')
        (links was_new i news' links' seens')
        (seens was_new i news' links' seens')
        (edges ++ e ∷ [])
IsCovered-note was_new i news' links' seens' edges e same h = record {
  edges =
      All-append (Covers (news was_new i news' links' seens') (links was_new i news' links' seens'))
        edges (e ∷ [])
        (All-map (Covers news' links')
          (Covers (news was_new i news' links' seens') (links was_new i news' links' seens')) edges
          (Covers-mono was_new i news' links' seens') h.edges)
        (Covers-noted was_new i news' links' seens' e same (h.seen i), tt);
  seen = λ j. contains-seens was_new i news' links' seens' j (h.seen j) (h.seen i);
  linked = λ j. linked-noted was_new i news' links' seens' j edges e same (h.linked j);
}

module _ (nx : MultiDiGraph Node FactEdge) {host : Host} (ids : Ids host)
    (class_of : String → Class) (clock : ℕ → ℕ) (event_id : EventId) (tool : String) where
  abbrev Covered : Walk nx.Graph → Type 0
  Covered w = IsCovered w.new_facts w.linked_facts w.seen_linked w.new_edges

  module _ (e : Entity) (edge_type description : String) (value : Value)
      (w w' : Walk nx.Graph) where
    skipped-Covered :
        IsSkipped nx ids class_of clock event_id tool e edge_type description w w'
        → Covered w
        → Covered w'
    skipped-Covered s h = rw (s.new_facts, s.linked_facts, s.seen_linked, s.new_edges) h

    emitted-Covered :
        IsEmitted nx ids class_of clock event_id tool e edge_type description w w' value
        → Covered w
        → Covered w'
    emitted-Covered s h =
        let i = fact_node_id host.digest e.name s.canonical in
        rw (s.new_facts, s.linked_facts, s.seen_linked, s.new_edges)
          (IsCovered-note s.upserted.was_new i w.new_facts w.linked_facts w.seen_linked w.new_edges
            (edge_to nx ids class_of clock event_id tool edge_type description i) refl h)

    step-Covered :
        (before : FactGraph nx.Graph)
        → Legal nx ids class_of clock event_id tool e
        → emit_one nx host class_of clock event_id tool e edge_type description value w ≡ ok w'
        → IsSound nx ids class_of clock event_id tool before w.graph w.new_edges × Covered w
        → IsSound nx ids class_of clock event_id tool before w'.graph w'.new_edges × Covered w'
    step-Covered before l q (sound, h) = (
      step-IsSound nx ids class_of clock event_id tool before e edge_type description value w w' l q
          sound,
      elim (emit_one-eq-ok nx ids class_of clock event_id tool e edge_type description w w' value
          sound.indexed l q) [ inl s ↦ skipped-Covered s h | inr s ↦ emitted-Covered s h ],
    )

  -- The new and the linked facts of an extraction cover its edges, and its other promises hold.
  pub extract-IsCovered :
      (cls : String) (fields : Attrs) (graph : FactGraph nx.Graph) (w : Walk nx.Graph)
      → IsIndexed nx ids graph
      → ((c : String) (name : String) (e : Entity)
          → field_entity (info_of (class_of c) name) ≡ some e
          → Legal nx ids class_of clock event_id tool e)
      → extract nx host class_of clock event_id tool cls fields graph ≡ ok w
      → IsSound nx ids class_of clock event_id tool graph w.graph w.new_edges × Covered w
  unfolding extract contains
  extract-IsCovered cls fields graph w h legal q =
      walk_keeps nx host class_of clock event_id tool (Legal nx ids class_of clock event_id tool)
        legal
        (λ x. IsSound nx ids class_of clock event_id tool graph x.graph x.new_edges × Covered x)
        (λ e t d v x x' l em s. step-Covered e t d v x x' graph l em s) cls fields (start graph) w q
        (
          record { indexed = h; kept = Keeps-refl nx graph.g; events = λ i e q. q; edges = tt },
          record { edges = tt; seen = λ i. refl; linked = λ i q. absurd (ground (arith, q)) },
        )
