-- ===== src/Decorator/Round.antt =====
-- One round of the loop of `_build_payload` in agent_pinboard/decorator.py, and what holds between
-- the rounds.
use agent_pinboard.Prelude.{
  ℕ, suc, ◌≤◌, String, ◌≡◌, ◌≢◌, refl, sym, some, List, [], ◌∷◌, ◌++◌, true, ◌==◌, ◌||◌, string_eq,
  contains, length, arith, eq_iff, inl, inr, All, All-append, All-map, length-append, All-map₂,
  subst, Bool-cases,
}
use agent_pinboard.Models.{ok, NodeId, FactNode, EventNode, FactEdge, Node, event, fact, Entity}
use agent_pinboard.Models.Host.{Host}
use agent_pinboard.Networkx.{MultiDiGraph}
use agent_pinboard.Fields.{Class, field_entity}
use agent_pinboard.Value.{Value}
use agent_pinboard.Graph.{FactGraph, add_event, canonicalize}
use agent_pinboard.Graph.Nodes.{Holds, Holds-add_node_cases, Holds-add_node_self}
use agent_pinboard.Graph.Invariant.{Ids, IsIndexed, add_event-IsIndexed}
use agent_pinboard.Graph.Persists.{Keeps, Keeps-trans, Keeps-add_node_fresh}
use agent_pinboard.Extract.{event_properties, Walk, info_of, extract}
use agent_pinboard.Extract.Sound.{IsSound, IsGrounded, Names-mono}
use agent_pinboard.Extract.Covered.{IsCovered, Covers, extract-IsCovered, has_target}
use agent_pinboard.Decorator.{Item, Ingest, event_for, record_item}
use agent_pinboard.Decorator.Listed.{
  contains_more, contains-middle, covered_more, covered_fresh, listed_cases,
}

module _ (nx : MultiDiGraph Node FactEdge) {host : Host} (ids : Ids host)
    (class_of : String → Class) (uuid : ℕ → String) (stamp : ℕ → ℕ) (clock : ℕ → ℕ → ℕ)
    (tool : String) where
  -- The edge's event is one of the payload's, its target is listed, and the target is a fact.
  pub record IsClosedEdge (g : nx.Graph) (nodes touched : List NodeId) (e : FactEdge) : Type 0 where
    pub source : contains e.event_id nodes ≡ true
    pub target : (contains e.target_id nodes || contains e.target_id touched) ≡ true
    pub node : FactNode
    pub held : Holds nx g e.target_id (fact node)
    pub sourced : contains e.event_id node.source_events ≡ true

  -- What holds after `k` items, of which the ids `uuid k`, `uuid (k + 1)`, … are not used yet.
  pub record IsClosed (k : ℕ) (before : FactGraph nx.Graph) (s : Ingest nx.Graph) : Type 0 where
    pub indexed : IsIndexed nx ids s.graph
    pub kept : Keeps nx before.g s.graph.g
    pub edges :
        All
          (IsClosedEdge s.graph.g s.payload.nodes (s.payload.new_facts ++ s.payload.linked_facts))
          s.payload.edges
    -- what the payload lists, and what it will, is held
    pub held :
        (i : NodeId)
        → (contains i s.payload.nodes || contains i (s.payload.new_facts ++ s.payload.linked_facts))
          ≡ true
        → (n : Node) × Holds nx s.graph.g i n
    pub counted : s.result.new_edges ≡ length s.payload.edges
    pub new_counted : s.result.new_nodes ≡ length s.payload.new_facts
    pub linked_counted : s.result.linked_nodes ≡ length s.payload.linked_facts
    -- the ids of the events to come are the ids of no node
    pub unused : (j : ℕ) → k ≤ j → (n : Node) → nx.node (uuid j) s.graph.g ≢ some (some n)

  -- The event of the k-th item is listed, and the graph holds it: it is of the tool, at the time of
  -- the event, with the item's fields that are no facts.
  pub record IsRecorded (g : nx.Graph) (nodes : List NodeId) (k : ℕ) (item : Item) : Type 0 where
    pub node : EventNode
    pub held : Holds nx g (uuid k) (event node)
    pub id : node.id ≡ uuid k
    pub source_tool : node.source_tool ≡ tool
    pub timestamp : node.timestamp ≡ stamp k
    pub properties : node.properties ≡ event_properties (class_of item.0) item.1
    pub listed : contains (uuid k) nodes ≡ true

  -- What a round adds to the graph, the payload and the result.
  pub record IsAdded (k : ℕ) (item : Item) (s s' : Ingest nx.Graph) : Type 0 where
    pub kept : Keeps nx s.graph.g s'.graph.g
    pub listed :
        (i : NodeId) → contains i s.payload.nodes ≡ true → contains i s'.payload.nodes ≡ true
    pub event_ids : s'.result.event_ids ≡ s.result.event_ids ++ uuid k ∷ []
    pub recorded : IsRecorded s'.graph.g s'.payload.nodes k item

  module _ (before : FactGraph nx.Graph) (valid : (k : ℕ) → ids.Uuid (uuid k))
      (distinct : (j k : ℕ) → uuid j ≡ uuid k → j ≡ k)
      (legal : (c : String) (name : String) (e : Entity)
        → field_entity (info_of (class_of c) name) ≡ some e
        → (v : Value) (x : String) → canonicalize host e v ≡ ok x
        → ids.Key e.name x) where
    module _ (k : ℕ) (item : Item) (s : Ingest nx.Graph) (h : IsClosed k before s)
        (w : Walk nx.Graph)
        (ran : extract nx host class_of
            (clock k)
            (uuid k)
            tool
            item.0
            item.1
            (add_event nx (event_for nx host class_of uuid stamp clock tool k item) s.graph)
          ≡ ok w) where
      abbrev seen_event : EventNode
      seen_event = event_for nx host class_of uuid stamp clock tool k item

      abbrev with_event : FactGraph nx.Graph
      with_event = add_event nx seen_event s.graph

      with_event-IsIndexed : IsIndexed nx ids with_event
      unfolding event_for
      with_event-IsIndexed =
          add_event-IsIndexed nx ids seen_event s.graph h.indexed refl (valid k)
            (h.unused k (omega arith))

      with_event-Keeps : Keeps nx s.graph.g with_event.g
      unfolding event_for add_event
      with_event-Keeps =
          Keeps-add_node_fresh nx (uuid k) (event seen_event) s.graph.g (h.unused k (omega arith))

      item_promises :
          IsSound nx ids class_of (clock k) (uuid k) tool with_event w.graph w.new_edges
          × IsCovered w.new_facts w.linked_facts w.seen_linked w.new_edges
      item_promises =
          extract-IsCovered nx ids class_of (clock k) (uuid k) tool item.0 item.1 with_event w
            with_event-IsIndexed legal ran

      item_unused_at : (j : ℕ) → suc k ≤ j → (n : Node) → Holds nx w.graph.g (uuid j) n → ⊥
      unfolding event_for add_event
      item_unused_at j later (fact f) held =
          let (_, key, _, legal_key) = item_promises.0.indexed.indexed (uuid j) (fact f) held in
          let (named, _) =
            item_promises.0.indexed.keyed f.node_type f.canonical_value (uuid j) key in
          ids.key_ne_uuid f.node_type f.canonical_value (uuid j) legal_key (valid j) (sym named)
      item_unused_at j later (event e) held =
          let old = item_promises.0.events (uuid j) e held in
          elim (Holds-add_node_cases nx (uuid k) (uuid j) (event seen_event) (event e) s.graph.g
            old) [
              | inl (same, _) ↦ absurd (ground (arith, distinct k j same))
              | inr before_it ↦ h.unused j (omega arith) (event e) before_it
            ]

      item_unused : (j : ℕ) → suc k ≤ j → (n : Node) → nx.node (uuid j) w.graph.g ≢ some (some n)
      item_unused j later n held = item_unused_at j later n held

      grown : Keeps nx s.graph.g w.graph.g
      grown = Keeps-trans nx s.graph.g with_event.g w.graph.g with_event-Keeps item_promises.0.kept

      abbrev after_item : Ingest nx.Graph
      after_item = record_item nx host class_of uuid stamp clock tool seen_event w s

      IsClosedEdge-mono :
          (e : FactEdge)
          → IsClosedEdge s.graph.g s.payload.nodes (s.payload.new_facts ++ s.payload.linked_facts) e
          → IsClosedEdge w.graph.g
              ((s.payload.nodes ++ uuid k ∷ []) ++ w.new_facts)
              ((s.payload.new_facts ++ w.new_facts) ++ (s.payload.linked_facts ++ w.linked_facts))
              e
      IsClosedEdge-mono e p =
          let same =
            Names-mono nx ids class_of (clock k) e.event_id tool s.graph.g w.graph.g e.target_id
              grown (record { node = p.node; held = p.held; sourced = p.sourced }) in
          record {
            source = contains_more e.event_id s.payload.nodes (uuid k ∷ []) w.new_facts p.source;
            target =
                covered_more e.target_id s.payload.nodes (uuid k ∷ []) w.new_facts
                  s.payload.new_facts s.payload.linked_facts w.linked_facts p.target;
            node = same.node;
            held = same.held;
            sourced = same.sourced;
          }

      item_edges :
          All
            (IsClosedEdge after_item.graph.g after_item.payload.nodes
              (after_item.payload.new_facts ++ after_item.payload.linked_facts))
            after_item.payload.edges
      unfolding record_item event_for contains
      item_edges =
          let nodes = (s.payload.nodes ++ uuid k ∷ []) ++ w.new_facts in
          let touched =
            (s.payload.new_facts ++ w.new_facts) ++ (s.payload.linked_facts ++ w.linked_facts) in
          All-append (IsClosedEdge w.graph.g nodes touched) s.payload.edges w.new_edges
            (All-map
              (IsClosedEdge s.graph.g s.payload.nodes
                (s.payload.new_facts ++ s.payload.linked_facts))
              (IsClosedEdge w.graph.g nodes touched) s.payload.edges IsClosedEdge-mono h.edges)
            (All-map₂ (IsGrounded nx ids class_of (clock k) (uuid k) tool w.graph.g)
              (Covers w.new_facts w.linked_facts) (IsClosedEdge w.graph.g nodes touched) w.new_edges
              (λ e p c. record {
                source = rw p.source (contains-middle (uuid k) s.payload.nodes w.new_facts);
                target =
                    covered_fresh e.target_id nodes s.payload.new_facts w.new_facts
                      s.payload.linked_facts w.linked_facts c;
                node = p.target.node;
                held = p.target.held;
                sourced = rw p.source p.target.sourced;
              })
              item_promises.0.edges item_promises.1.edges)

      seen_held : Holds nx w.graph.g (uuid k) (event seen_event)
      unfolding event_for add_event
      seen_held =
          let (m, held, same) =
            item_promises.0.kept (uuid k) (event seen_event)
              (Holds-add_node_self nx (uuid k) (event seen_event) s.graph.g) in
          subst (Holds nx w.graph.g (uuid k)) same held

      -- What the round leaves: the item's event is held and listed, and what there was stays.
      pub item-IsAdded : IsAdded k item s after_item
      unfolding record_item event_for
      item-IsAdded = record {
        kept = grown;
        listed = λ i at. contains_more i s.payload.nodes (uuid k ∷ []) w.new_facts at;
        event_ids = refl;
        recorded = record {
          node = seen_event;
          held = seen_held;
          id = refl;
          source_tool = refl;
          timestamp = refl;
          properties = refl;
          listed = contains-middle (uuid k) s.payload.nodes w.new_facts;
        };
      }

      target_held :
          (i : NodeId) (es : List FactEdge)
          → All (IsGrounded nx ids class_of (clock k) (uuid k) tool w.graph.g) es
          → has_target i es ≡ true
          → (n : Node) × Holds nx w.graph.g i n
      target_held i [] ps h = absurd (ground (arith, h))
      target_held i (e ∷ es) (p, ps) h = elim (Bool-cases (e.target_id == i)) [
        | inl same ↦ (
          fact p.target.node,
          subst (λ j. Holds nx w.graph.g j (fact p.target.node)) ((eq_iff e.target_id i).0 same)
              p.target.held,
        )
        | inr other ↦ target_held i es ps (ground (arith, other, h))
      ]

      item_held :
          (i : NodeId)
          → (contains i after_item.payload.nodes
              || contains i (after_item.payload.new_facts ++ after_item.payload.linked_facts))
            ≡ true
          → (n : Node) × Holds nx after_item.graph.g i n
      unfolding record_item event_for
      item_held i q =
          elim (listed_cases i (uuid k) s.payload.nodes w.new_facts s.payload.new_facts
            s.payload.linked_facts w.linked_facts q) [
              | inl old ↦ let (n, at) = h.held i old in let (m, at', _) = grown i n at in (m, at')
              | inr (inl same) ↦
                  subst (λ j. (n : Node) × Holds nx w.graph.g j n) same
                    (event seen_event, seen_held)
              | inr (inr noted) ↦
                  target_held i w.new_edges item_promises.0.edges (item_promises.1.linked i noted)
            ]

      pub item-IsClosed : IsClosed (suc k) before after_item
      unfolding record_item event_for
      item-IsClosed = record {
        indexed = item_promises.0.indexed;
        kept = Keeps-trans nx before.g s.graph.g w.graph.g h.kept grown;
        edges = item_edges;
        held = item_held;
        counted = omega (arith, h.counted, length-append s.payload.edges w.new_edges);
        new_counted = omega (arith, h.new_counted, length-append s.payload.new_facts w.new_facts);
        linked_counted =
            omega (arith, h.linked_counted, length-append s.payload.linked_facts w.linked_facts);
        unused = item_unused;
      }
