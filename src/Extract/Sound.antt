-- ===== src/Extract/Sound.antt =====
-- What a whole extraction (agent_pinboard/extract.py) leaves: agreeing indexes, and edges that lead
-- from the event to facts which name it.
use agent_pinboard.Prelude.{
  ℕ, String, ◌≡◌, refl, sym, ap, ◌∙◌, List, [], ◌∷◌, arith, true, inl, inr, contains,
  contains-append, string_eq, some, All, All-append, All-map,
}
use mathlib.Core.Path.{subst₂}
use agent_pinboard.Value.{Value, Attrs}
use agent_pinboard.Models.{
  ok, EventId, NodeId, Entity, FactEdge, FactNode, Node, fact, event, edge_id, fact_node_id,
}
use agent_pinboard.Models.Host.{Host}
use agent_pinboard.Networkx.{MultiDiGraph}
use agent_pinboard.Fields.{Class, field_entity}
use agent_pinboard.Graph.{FactGraph, add_edge}
use agent_pinboard.Graph.Nodes.{Holds}
use agent_pinboard.Graph.Invariant.{Ids, IsIndexed, add_edge-IsIndexed}
use agent_pinboard.Graph.Persists.{
  NoNewEvents, NoNewEvents-add_edge, Persists, Keeps, Keeps-refl, Keeps-trans, Keeps-add_edge,
}
use agent_pinboard.Extract.{Walk, start, info_of, emit_one, extract, some}
use agent_pinboard.Extract.Emit.{Legal, IsSkipped, IsEmitted, emit_one-eq-ok, edge_to}
use agent_pinboard.Extract.Rule.{walk_keeps}

module _ (nx : MultiDiGraph Node FactEdge) {host : Host} (ids : Ids host)
    (class_of : String → Class) (clock : ℕ → ℕ) (event_id : EventId) (tool : String) where
  -- The node `i` is a fact that names the event as a source.
  pub record Names (g : nx.Graph) (i : NodeId) : Type 0 where
    pub node : FactNode
    pub held : Holds nx g i (fact node)
    pub sourced : contains event_id node.source_events ≡ true

  Names-mono_at :
      (g' : nx.Graph) (i : NodeId) (f : FactNode)
      → contains event_id f.source_events ≡ true
      → (m : Node) → Holds nx g' i m
      → Persists (fact f) m
      → Names g' i
  Names-mono_at g' i f named (fact f') held grows = record {
    node = f';
    held = held;
    sourced =
        ap (contains event_id) grows.source_events
        ∙ ground (arith, contains-append event_id f.source_events grows.more);
  }
  Names-mono_at g' i f named (event e) held bad = absurd bad

  pub Names-mono : (g g' : nx.Graph) (i : NodeId) → Keeps nx g g' → Names g i → Names g' i
  Names-mono g g' i kept h =
      let (m, held, grows) = kept i (fact h.node) h.held in
      Names-mono_at g' i h.node h.sourced m held grows

  -- An edge that the extraction may leave in its list.
  pub record IsGrounded (g : nx.Graph) (e : FactEdge) : Type 0 where
    pub source : e.event_id ≡ event_id
    pub target : Names g e.target_id

  pub record IsSound (before after : FactGraph nx.Graph) (new_edges : List FactEdge) : Type 0 where
    pub indexed : IsIndexed nx ids after
    pub kept : Keeps nx before.g after.g
    pub events : NoNewEvents nx before.g after.g
    pub edges : All (IsGrounded after.g) new_edges

  module _ (before : FactGraph nx.Graph) (e : Entity) (edge_type description : String)
      (value : Value) (w w' : Walk nx.Graph) where
    skipped-IsSound :
        IsSkipped nx ids class_of clock event_id tool e edge_type description w w'
        → IsSound before w.graph w.new_edges
        → IsSound before w'.graph w'.new_edges
    skipped-IsSound s h = subst₂ (IsSound before) (sym s.graph) (sym s.new_edges) h

    emitted-IsSound :
        IsEmitted nx ids class_of clock event_id tool e edge_type description w w' value
        → IsSound before w.graph w.new_edges
        → IsSound before w'.graph w'.new_edges
    unfolding add_edge
    emitted-IsSound s h =
        let i = fact_node_id host.digest e.name s.canonical in
        let edge = edge_to nx ids class_of clock event_id tool edge_type description i in
        let g = s.upserted.graph.g in
        let added = Keeps-add_edge nx event_id i (edge_id edge) edge g in
        let grown : Keeps nx w.graph.g (add_edge nx edge s.upserted.graph).g =
          Keeps-trans nx w.graph.g g _ s.linked.kept added in
        subst₂ (IsSound before) (sym s.graph) (sym s.new_edges) (record {
          indexed = add_edge-IsIndexed nx ids edge s.upserted.graph s.linked.indexed;
          kept = Keeps-trans nx before.g w.graph.g _ h.kept grown;
          events = λ j v q. h.events j v (
              s.linked.events j v (NoNewEvents-add_edge nx event_id i (edge_id edge) edge g j v q));
          edges =
              All-append (IsGrounded (add_edge nx edge s.upserted.graph).g) w.new_edges (edge ∷ [])
                (All-map (IsGrounded w.graph.g) (IsGrounded (add_edge nx edge s.upserted.graph).g)
                  w.new_edges
                  (λ x p. record {
                    source = p.source;
                    target = Names-mono w.graph.g _ x.target_id grown p.target;
                  })
                  h.edges)
                (
                  record {
                    source = refl;
                    target = Names-mono g _ i added (record {
                      node = s.linked.node;
                      held = s.linked.held;
                      sourced = s.linked.sourced;
                    });
                  },
                  tt,
                );
        })

    pub step-IsSound :
        Legal nx ids class_of clock event_id tool e
        → emit_one nx host class_of clock event_id tool e edge_type description value w ≡ ok w'
        → IsSound before w.graph w.new_edges
        → IsSound before w'.graph w'.new_edges
    step-IsSound l q h =
        elim (emit_one-eq-ok nx ids class_of clock event_id tool e edge_type description w w' value
          h.indexed l q) [ inl s ↦ skipped-IsSound s h | inr s ↦ emitted-IsSound s h ]

  -- From a graph whose indexes agree, an extraction that returns leaves agreeing indexes and every
  -- object that was there, and each of its edges leads from the event to a fact which names it.
  pub extract-IsSound :
      (cls : String) (fields : Attrs) (graph : FactGraph nx.Graph) (w : Walk nx.Graph)
      → IsIndexed nx ids graph
      → ((c : String) (name : String) (e : Entity)
          → field_entity (info_of (class_of c) name) ≡ some e
          → Legal nx ids class_of clock event_id tool e)
      → extract nx host class_of clock event_id tool cls fields graph ≡ ok w
      → IsSound graph w.graph w.new_edges
  unfolding extract
  extract-IsSound cls fields graph w h legal q =
      walk_keeps nx host class_of clock event_id tool (Legal nx ids class_of clock event_id tool)
        legal (λ x. IsSound graph x.graph x.new_edges)
        (λ e t d v x x' l em s. step-IsSound graph e t d v x x' l em s) cls fields (start graph) w q
        (record { indexed = h; kept = Keeps-refl nx graph.g; events = λ i e q. q; edges = tt })
