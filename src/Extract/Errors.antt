-- ===== src/Extract/Errors.antt =====
-- The errors of an extraction (agent_pinboard/extract.py) in a graph whose indexes agree.
use agent_pinboard.Prelude.{
  ℕ, String, ◌≡◌, refl, Option, none, some, ◌++◌, Bool, length, ◌⊎◌, arith, inl, inr,
}
use agent_pinboard.Value.{Value, Attrs}
use agent_pinboard.Models.{
  Error, raise, >>=-eq-raise, normalizer_error, extraction_error, EventId, NodeId, Entity, FactEdge,
  Node, fact, edge_id,
}
use agent_pinboard.Models.Host.{Host}
use agent_pinboard.Networkx.{MultiDiGraph}
use agent_pinboard.Fields.{Class, field_entity}
use agent_pinboard.Graph.{FactGraph, upsert_fact, add_edge, lookup}
use agent_pinboard.Graph.Nodes.{Holds, Holds-add_edge}
use agent_pinboard.Graph.Invariant.{Ids, IsIndexed}
use agent_pinboard.Graph.Persists.{Keeps-refl}
use agent_pinboard.Graph.Autolink.{upsert_fact-eq-ok, upsert_fact_raises}
use agent_pinboard.Extract.{Walk, start, info_of, emit_target, emit_one, extract}
use agent_pinboard.Extract.Emit.{Legal, edge_to}
use agent_pinboard.Extract.Sound.{IsSound, step-IsSound}
use agent_pinboard.Extract.Raises.{walk_raises}

-- The errors that an extraction may raise.
abbrev pub IsExpected : Error → Type 0
IsExpected x = (x ≡ normalizer_error) ⊎ (x ≡ extraction_error)

module _ (nx : MultiDiGraph Node FactEdge) {host : Host} (ids : Ids host)
    (class_of : String → Class) (clock : ℕ → ℕ) (event_id : EventId) (tool : String) where
  emit_target-none_ne-raise :
      (t d : String) (o : Option NodeId) (b : Bool) (w : Walk nx.Graph) (x : Error)
      → o ≡ none
      → emit_target nx host class_of clock event_id tool t d o b w ≡ raise x
      → ⊥
  unfolding emit_target
  emit_target-none_ne-raise t d none b w x e q = ground (arith, q)
  emit_target-none_ne-raise t d (some i) b w x e q = ground (arith, e)

  emit_target-some_ne-raise :
      (t d : String) (o : Option NodeId) (b : Bool) (w : Walk nx.Graph) (x : Error) (i : NodeId)
      (n : Node)
      → o ≡ some i
      → Holds nx w.graph.g i n
      → emit_target nx host class_of clock event_id tool t d o b w ≡ raise x
      → ⊥
  unfolding emit_target lookup add_edge
  emit_target-some_ne-raise t d none b w x i n e h q = ground (arith, e)
  emit_target-some_ne-raise t d (some j) b w x i n e h q =
      let at =
        (Holds-add_edge nx event_id i (edge_id (edge_to nx ids class_of clock event_id tool t d i))
            i (edge_to nx ids class_of clock event_id tool t d i) n w.graph.g).1
          h in
      ground (arith, e, at, q)

  emit_one_raises :
      (entity : Entity) (t d : String) (value : Value) (w : Walk nx.Graph) (x : Error)
      → IsIndexed nx ids w.graph
      → Legal nx ids class_of clock event_id tool entity
      → emit_one nx host class_of clock event_id tool entity t d value w ≡ raise x
      → x ≡ normalizer_error
  unfolding emit_one
  emit_one_raises entity t d value w x h legal q =
      let now = clock (length w.new_edges) in
      elim (>>=-eq-raise (upsert_fact nx host now entity event_id tool value w.graph)
        (λ u.
          emit_target nx host class_of clock event_id tool t d u.target u.was_new
            (record w { graph = u.graph; warnings = w.warnings ++ u.warned }))
        x q) [
          | inl failed ↦
              (upsert_fact_raises nx ids now entity event_id tool w.graph value x h failed).0
          | inr (u, up, em) ↦
              elim (upsert_fact-eq-ok nx ids now entity event_id tool w.graph value u h
                (legal value) up) [
                  | inl dropped ↦ absurd (
                      emit_target-none_ne-raise t d u.target u.was_new
                        (record w { graph = u.graph; warnings = w.warnings ++ u.warned }) x
                        dropped.target em)
                  | inr (c, norm, linked) ↦ absurd (
                      emit_target-some_ne-raise t d u.target u.was_new
                        (record w { graph = u.graph; warnings = w.warnings ++ u.warned }) x _
                        (fact linked.node) linked.target linked.held em)
                ]
        ]

  -- In a graph whose indexes agree, an extraction raises only the wrapped error of a normalizer or
  -- the error for a value of the wrong shape; no lookup of a node fails. The entities of the
  -- session's classes make keys of the session.
  pub extract_raises :
      (cls : String) (fields : Attrs) (graph : FactGraph nx.Graph) (x : Error)
      → IsIndexed nx ids graph
      → ((c : String) (name : String) (e : Entity)
          → field_entity (info_of (class_of c) name) ≡ some e
          → Legal nx ids class_of clock event_id tool e)
      → extract nx host class_of clock event_id tool cls fields graph ≡ raise x
      → IsExpected x
  unfolding extract
  extract_raises cls fields graph x h legal q =
      walk_raises nx host class_of clock event_id tool (Legal nx ids class_of clock event_id tool)
        legal (λ w. IsSound nx ids class_of clock event_id tool graph w.graph w.new_edges)
        (λ e t d v w w' l em s.
          step-IsSound nx ids class_of clock event_id tool graph e t d v w w' l em s)
        IsExpected (inr refl)
        (λ e t d v w y l em s. inl (emit_one_raises e t d v w y s.indexed l em)) cls fields
        (start graph) x q
        (record { indexed = h; kept = Keeps-refl nx graph.g; events = λ i e q. q; edges = tt })
