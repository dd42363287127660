-- ===== src/Decorator/Payloads.antt =====
-- `_build_payload` of agent_pinboard/decorator.py: what it hands to the store is closed.
use agent_pinboard.Prelude.{
  ℕ, String, ◌≡◌, ◌≢◌, refl, subst, some, List, [], ◌∷◌, ◌++◌, true, ◌||◌, if◌then◌else◌, string_eq,
  contains, contains-append, contains-add, add, length, arith, eq_iff, All, All-map,
}
use agent_pinboard.Models.{
  ok, >>=-eq-ok, ok-injective, NodeId, FactNode, FactEdge, Node, fact, Entity,
}
use agent_pinboard.Models.Host.{Host}
use agent_pinboard.Networkx.{MultiDiGraph}
use agent_pinboard.Fields.{Class, field_entity}
use agent_pinboard.Value.{Value}
use agent_pinboard.Graph.{FactGraph, canonicalize}
use agent_pinboard.Graph.Nodes.{Holds}
use agent_pinboard.Graph.Invariant.{Ids, IsIndexed}
use agent_pinboard.Graph.Persists.{Keeps, Keeps-refl}
use agent_pinboard.Extract.{info_of}
use agent_pinboard.Decorator.{Item, Ingest, blank, refresh, ingest_items, finish, build_payload}
use agent_pinboard.Decorator.Round.{IsClosedEdge, IsClosed}
use agent_pinboard.Decorator.Recorded.{
  AllRecorded, AllRecorded-mono, uuids, IsRun, ingest_items-IsClosed, ingest_items-IsRun,
}

-- A node that is in the payload, or among the touched facts, is in the payload after the refresh.
contains-refresh :
    (i : NodeId) (touched refreshed nodes : List NodeId)
    → ((j : NodeId) → contains j refreshed ≡ true → contains j nodes ≡ true)
    → (contains i nodes || contains i touched) ≡ true
    → contains i (refresh touched refreshed nodes) ≡ true
unfolding refresh contains
contains-refresh i [] refreshed nodes sub h = ground arith
contains-refresh i (t ∷ touched) refreshed nodes sub h =
    contains-refresh i touched (if contains t refreshed then refreshed else add t refreshed)
      (if contains t refreshed then nodes else if contains t nodes then nodes else nodes ++ t ∷ [])
      (λ j q.
        ground
          (arith, sub j, contains-add t j refreshed, contains-append j nodes (t ∷ []), eq_iff t j))
      (ground (arith, sub t, contains-append i nodes (t ∷ []), eq_iff t i))

refresh_keeps :
    (nodes new_facts linked_facts : List NodeId) (i : NodeId)
    → (contains i nodes || contains i (new_facts ++ linked_facts)) ≡ true
    → contains i (refresh (new_facts ++ linked_facts) [] nodes) ≡ true
unfolding contains
refresh_keeps nodes new_facts linked_facts i h =
    contains-refresh i (new_facts ++ linked_facts) [] nodes (λ j q. absurd (ground arith)) h

nothing_listed : (i : NodeId) → (contains {A = NodeId} i [] || contains {A = NodeId} i []) ≢ true
unfolding contains
nothing_listed i q = ground (arith, q)

-- Nothing else is in the payload after the refresh.
contains-refresh_conv :
    (i : NodeId) (touched refreshed nodes : List NodeId)
    → contains i (refresh touched refreshed nodes) ≡ true
    → (contains i nodes || contains i touched) ≡ true
unfolding refresh contains
contains-refresh_conv i [] refreshed nodes h = ground (arith, h)
contains-refresh_conv i (t ∷ touched) refreshed nodes h =
    let rest =
      contains-refresh_conv i touched (if contains t refreshed then refreshed else add t refreshed)
        (if contains t refreshed
          then nodes
          else if contains t nodes
          then nodes
          else nodes ++ t ∷ [])
        h in
    ground (arith, rest, contains-append i nodes (t ∷ []), eq_iff t i)

refresh_adds :
    (nodes new_facts linked_facts : List NodeId) (i : NodeId)
    → contains i (refresh (new_facts ++ linked_facts) [] nodes) ≡ true
    → (contains i nodes || contains i (new_facts ++ linked_facts)) ≡ true
refresh_adds nodes new_facts linked_facts i h =
    contains-refresh_conv i (new_facts ++ linked_facts) [] nodes h

module _ (nx : MultiDiGraph Node FactEdge) {host : Host} (ids : Ids host)
    (class_of : String → Class) (uuid : ℕ → String) (stamp : ℕ → ℕ) (clock : ℕ → ℕ → ℕ)
    (tool : String) where
  -- An edge whose two ends are among the payload's nodes, the target a fact that names the event.
  pub record IsAnchored (g : nx.Graph) (nodes : List NodeId) (e : FactEdge) : Type 0 where
    pub source : contains e.event_id nodes ≡ true
    pub target : contains e.target_id nodes ≡ true
    pub node : FactNode
    pub held : Holds nx g e.target_id (fact node)
    pub sourced : contains e.event_id node.source_events ≡ true

  -- What the call gives to the store: anchored edges, counters that agree with the lists, and for each
  -- item its event, whose ids are the result's, in a graph whose indexes agree and which has all that it had.
  pub record IsPersistable (before : FactGraph nx.Graph) (items : List Item) (s : Ingest nx.Graph)
      : Type 0 where
    pub indexed : IsIndexed nx ids s.graph
    pub kept : Keeps nx before.g s.graph.g
    pub edges : All (IsAnchored s.graph.g s.payload.nodes) s.payload.edges
    pub held :
        (i : NodeId) → contains i s.payload.nodes ≡ true → (n : Node) × Holds nx s.graph.g i n
    pub events : AllRecorded nx ids class_of uuid stamp clock tool s.graph.g s.payload.nodes 0 items
    pub event_ids : s.result.event_ids ≡ uuids nx ids class_of uuid stamp clock tool 0 items
    pub counted : s.result.new_edges ≡ length s.payload.edges
    pub new_counted : s.result.new_nodes ≡ length s.payload.new_facts
    pub linked_counted : s.result.linked_nodes ≡ length s.payload.linked_facts

  module _ (before : FactGraph nx.Graph) (valid : (k : ℕ) → ids.Uuid (uuid k))
      (distinct : (j k : ℕ) → uuid j ≡ uuid k → j ≡ k)
      (legal : (c : String) (name : String) (e : Entity)
        → field_entity (info_of (class_of c) name) ≡ some e
        → (v : Value) (x : String) → canonicalize host e v ≡ ok x
        → ids.Key e.name x) where
    abbrev Closed : ℕ → Ingest nx.Graph → Type 0
    Closed k s = IsClosed nx ids class_of uuid stamp clock tool k before s

    finish-IsPersistable :
        (items : List Item) (s : Ingest nx.Graph)
        → Closed (length items) s
        → IsRun nx ids class_of uuid stamp clock tool 0 items (blank before) s
        → IsPersistable before items (finish nx host class_of uuid stamp clock tool s)
    unfolding finish
    finish-IsPersistable items s h run =
        let p = s.payload in
        let keep = refresh_keeps p.nodes p.new_facts p.linked_facts in
        record {
          indexed = h.indexed;
          kept = h.kept;
          edges =
              All-map
                (IsClosedEdge nx ids class_of uuid stamp clock tool s.graph.g p.nodes
                  (p.new_facts ++ p.linked_facts))
                (IsAnchored s.graph.g (refresh (p.new_facts ++ p.linked_facts) [] p.nodes)) p.edges
                (λ e a. record {
                  source = keep e.event_id (ground (arith, a.source));
                  target = keep e.target_id a.target;
                  node = a.node;
                  held = a.held;
                  sourced = a.sourced;
                })
                h.edges;
          held = λ i q. h.held i (refresh_adds p.nodes p.new_facts p.linked_facts i q);
          events =
              AllRecorded-mono nx ids class_of uuid stamp clock tool s.graph.g s.graph.g p.nodes
                (refresh (p.new_facts ++ p.linked_facts) [] p.nodes) 0 items
                (Keeps-refl nx s.graph.g) (λ i at. keep i (ground (arith, at))) run.recorded;
          event_ids = run.event_ids;
          counted = h.counted;
          new_counted = h.new_counted;
          linked_counted = h.linked_counted;
        }

    -- From a graph whose indexes agree and that has none of the new events' ids, what a call that
    -- returns hands to the store is closed: each edge has both of its ends among the payload's
    -- nodes, the target being a fact that names the event; for each item, in their order, the
    -- result has the id of an event that the graph holds and the payload lists, of the tool and with
    -- the item's properties; the counters are the lengths of the lists, and the graph's indexes agree and it kept every object.
    -- The events' ids are distinct UUIDs, and the entities of the session's classes make keys.
    pub build_payload-IsPersistable :
        (items : List Item) (s : Ingest nx.Graph)
        → IsIndexed nx ids before
        → ((j : ℕ) (n : Node) → nx.node (uuid j) before.g ≢ some (some n))
        → build_payload nx host class_of uuid stamp clock tool before items ≡ ok s
        → IsPersistable before items s
    unfolding build_payload
    build_payload-IsPersistable items s indexed unused q =
        let (s₁, looped, done) =
          >>=-eq-ok (ingest_items nx host class_of uuid stamp clock tool 0 items (blank before))
            (λ x. ok (finish nx host class_of uuid stamp clock tool x)) q in
        let start : Closed 0 (blank before) = record {
          indexed = indexed;
          kept = Keeps-refl nx before.g;
          edges = tt;
          held = λ i q. absurd (nothing_listed i q);
          counted = refl;
          new_counted = refl;
          linked_counted = refl;
          unused = λ j _ n. unused j n;
        } in
        subst (IsPersistable before items) (ok-injective done) (
          finish-IsPersistable items s₁
            (subst (λ n. Closed n s₁) (omega arith)
              (ingest_items-IsClosed nx ids class_of uuid stamp clock tool before valid distinct
                legal 0 items (blank before) s₁ looped start))
            (ingest_items-IsRun nx ids class_of uuid stamp clock tool before valid distinct legal 0
              items (blank before) s₁ looped start))
