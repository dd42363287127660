-- ===== src/Extract/Emit.antt =====
-- One call of `_emit_one` of agent_pinboard/extract.py in a graph whose indexes agree.
use agent_pinboard.Prelude.{
  ℕ, String, ◌≡◌, sym, ap, ◌∙◌, none, some, [], ◌∷◌, ◌++◌, length, arith, Bool, ◌⊎◌, ◌||◌,
  if◌then◌else◌, contains, add, string_eq, Option, add_of_contains, inl, inr,
}
use agent_pinboard.Value.{Value}
use agent_pinboard.Models.{
  ok, EventId, NodeId, Entity, FactEdge, FactNode, Node, fact, fact_node_id, edge_id, >>=-eq-ok,
  ok-injective,
}
use agent_pinboard.Models.Host.{Host}
use agent_pinboard.Networkx.{MultiDiGraph}
use agent_pinboard.Fields.{Class}
use agent_pinboard.Graph.{Upserted, canonicalize, upsert_fact, add_edge, lookup}
use agent_pinboard.Graph.Nodes.{Holds, Holds-add_edge}
use agent_pinboard.Graph.Invariant.{Ids, IsIndexed}
use agent_pinboard.Graph.Autolink.{IsLinked, upsert_fact-eq-ok}
use agent_pinboard.Extract.{Walk, note_target, emit_target, emit_one, Option}

module _ (nx : MultiDiGraph Node FactEdge) {host : Host} (ids : Ids host)
    (class_of : String → Class) (clock : ℕ → ℕ) (event_id : EventId) (tool : String) where
  -- Every canonical value of the entity makes a key of the session.
  abbrev pub Legal : Entity → Type 0
  Legal e = (v : Value) (c : String) → canonicalize host e v ≡ ok c → ids.Key e.name c

  abbrev pub edge_to : String → String → NodeId → FactEdge
  edge_to edge_type description i = record {
    event_id = event_id;
    target_id = i;
    edge_type = edge_type;
    description = description;
  }

  -- What the bookkeeping for the target `i` makes of `w`.
  pub record IsNoted (was_new : Bool) (i : NodeId) (w w' : Walk nx.Graph) : Type 0 where
    pub graph : w'.graph ≡ w.graph
    pub new_edges : w'.new_edges ≡ w.new_edges
    pub new_facts : w'.new_facts ≡ (if was_new then w.new_facts ++ i ∷ [] else w.new_facts)
    pub linked_facts :
        w'.linked_facts
        ≡ (if was_new || contains i w.seen_linked then w.linked_facts else w.linked_facts ++ i ∷ [])
    pub seen_linked : w'.seen_linked ≡ (if was_new then w.seen_linked else add i w.seen_linked)

  note_target_lem :
      (was_new : Bool) (i : NodeId) (f : FactNode) (w : Walk nx.Graph)
      → IsNoted was_new i w
          (note_target nx host class_of clock event_id tool was_new i (some (fact f)) w)
  unfolding note_target
  note_target_lem was_new i f w = record {
    graph = ground arith;
    new_edges = ground arith;
    new_facts = ground arith;
    linked_facts = ground arith;
    seen_linked = ground (arith, add_of_contains i w.seen_linked);
  }

  emit_target-none :
      (edge_type description : String) (o : Option NodeId) (b : Bool) (w w' : Walk nx.Graph)
      → o ≡ none
      → emit_target nx host class_of clock event_id tool edge_type description o b w ≡ ok w'
      → w ≡ w'
  unfolding emit_target
  emit_target-none t d none b w w' e q = ok-injective q
  emit_target-none t d (some i) b w w' e q = absurd (ground (arith, e))

  emit_target-some :
      (edge_type description : String) (o : Option NodeId) (b : Bool) (w w' : Walk nx.Graph)
      (i : NodeId) (n : Node)
      → o ≡ some i
      → Holds nx w.graph.g i n
      → emit_target nx host class_of clock event_id tool edge_type description o b w ≡ ok w'
      → w'
        ≡ note_target nx host class_of clock event_id tool b i (some n) (record w {
          graph = add_edge nx (edge_to edge_type description i) w.graph;
          new_edges = w.new_edges ++ edge_to edge_type description i ∷ [];
        })
  unfolding emit_target lookup add_edge
  emit_target-some t d none b w w' i n e h q = absurd (ground (arith, e))
  emit_target-some t d (some j) b w w' i n e h q =
      let at =
        (Holds-add_edge nx event_id i (edge_id (edge_to t d i)) i (edge_to t d i) n w.graph.g).1
          h in
      ground (arith, e, at, q)

  module _ (entity : Entity) (edge_type description : String) (w w' : Walk nx.Graph) where
    -- The value was dropped: only the warnings may change.
    pub record IsSkipped : Type 0 where
      pub graph : w'.graph ≡ w.graph
      pub new_edges : w'.new_edges ≡ w.new_edges
      pub new_facts : w'.new_facts ≡ w.new_facts
      pub linked_facts : w'.linked_facts ≡ w.linked_facts
      pub seen_linked : w'.seen_linked ≡ w.seen_linked

    -- The value was linked to the node of its key, and one edge leads there.
    pub record IsEmitted (value : Value) : Type 0 where
      pub canonical : String
      pub norm : canonicalize host entity value ≡ ok canonical
      pub upserted : Upserted nx.Graph
      pub linked :
          IsLinked nx ids
            (clock (length w.new_edges))
            entity
            event_id
            tool
            w.graph
            canonical
            upserted
      pub graph :
          w'.graph
          ≡ add_edge nx
              (edge_to edge_type description (fact_node_id host.digest entity.name canonical))
              upserted.graph
      pub new_edges :
          w'.new_edges
          ≡ w.new_edges
            ++ edge_to edge_type description (fact_node_id host.digest entity.name canonical) ∷ []
      pub new_facts : w'.new_facts ≡ (
          if upserted.was_new
          then w.new_facts ++ fact_node_id host.digest entity.name canonical ∷ []
          else w.new_facts)
      pub linked_facts : w'.linked_facts ≡ (
          if upserted.was_new
            || contains (fact_node_id host.digest entity.name canonical) w.seen_linked
          then w.linked_facts
          else w.linked_facts ++ fact_node_id host.digest entity.name canonical ∷ [])
      pub seen_linked : w'.seen_linked ≡ (
          if upserted.was_new
          then w.seen_linked
          else add (fact_node_id host.digest entity.name canonical) w.seen_linked)

    pub emit_one-eq-ok :
        (value : Value)
        → IsIndexed nx ids w.graph
        → Legal entity
        → emit_one nx host class_of clock event_id tool entity edge_type description value w ≡ ok w'
        → IsSkipped ⊎ IsEmitted value
    unfolding emit_one
    emit_one-eq-ok value h legal q =
        let (u, up, em) =
          >>=-eq-ok
            (upsert_fact nx host (clock (length w.new_edges)) entity event_id tool value w.graph)
            (λ u.
              emit_target nx host class_of clock event_id tool edge_type description u.target
                u.was_new (record w { graph = u.graph; warnings = w.warnings ++ u.warned }))
            q in
        elim (upsert_fact-eq-ok nx ids (clock (length w.new_edges)) entity event_id tool w.graph
          value u h (legal value) up) [
            | inl dropped ↦
                let same =
                  emit_target-none edge_type description u.target u.was_new
                    (record w { graph = u.graph; warnings = w.warnings ++ u.warned }) w'
                    dropped.target em in
                inl (record {
                  graph = sym (ap (λ (x : Walk nx.Graph). x.graph) same) ∙ dropped.unchanged;
                  new_edges = sym (ap (λ (x : Walk nx.Graph). x.new_edges) same);
                  new_facts = sym (ap (λ (x : Walk nx.Graph). x.new_facts) same);
                  linked_facts = sym (ap (λ (x : Walk nx.Graph). x.linked_facts) same);
                  seen_linked = sym (ap (λ (x : Walk nx.Graph). x.seen_linked) same);
                })
            | inr (c, norm, linked) ↦
                let i = fact_node_id host.digest entity.name c in
                let same =
                  emit_target-some edge_type description u.target u.was_new
                    (record w { graph = u.graph; warnings = w.warnings ++ u.warned }) w' i
                    (fact linked.node) linked.target linked.held em in
                let noted = note_target_lem u.was_new i linked.node (record w {
                  graph = add_edge nx (edge_to edge_type description i) u.graph;
                  new_edges = w.new_edges ++ edge_to edge_type description i ∷ [];
                  warnings = w.warnings ++ u.warned;
                }) in
                inr (record {
                  canonical = c;
                  norm = norm;
                  upserted = u;
                  linked = linked;
                  graph = ap (λ (x : Walk nx.Graph). x.graph) same ∙ noted.graph;
                  new_edges = ap (λ (x : Walk nx.Graph). x.new_edges) same ∙ noted.new_edges;
                  new_facts = ap (λ (x : Walk nx.Graph). x.new_facts) same ∙ noted.new_facts;
                  linked_facts =
                      ap (λ (x : Walk nx.Graph). x.linked_facts) same ∙ noted.linked_facts;
                  seen_linked = ap (λ (x : Walk nx.Graph). x.seen_linked) same ∙ noted.seen_linked;
                })
          ]
