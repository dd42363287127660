-- ===== src/Decorator/Recorded.antt =====
-- The loop of `_build_payload` in agent_pinboard/decorator.py: what a run of it keeps and adds.
use agent_pinboard.Prelude.{
  ℕ, suc, ◌+◌, String, ◌≡◌, sym, ap, ◌∙◌, subst, some, List, [], ◌∷◌, ◌++◌, true, string_eq,
  contains, length, arith,
}
use mathlib.Core.List.{append-nil, append_assoc}
use agent_pinboard.Models.{
  ok, >>=-eq-ok, ok-injective, NodeId, EventId, FactEdge, Node, event, Entity,
}
use agent_pinboard.Models.Host.{Host}
use agent_pinboard.Networkx.{MultiDiGraph}
use agent_pinboard.Fields.{Class, field_entity}
use agent_pinboard.Value.{Value}
use agent_pinboard.Graph.{FactGraph, add_event, canonicalize}
use agent_pinboard.Graph.Invariant.{Ids}
use agent_pinboard.Graph.Persists.{Keeps, Keeps-refl, Keeps-trans}
use agent_pinboard.Extract.{info_of, extract}
use agent_pinboard.Decorator.{Item, Ingest, ingest_item, ingest_items, event_for, record_item}
use agent_pinboard.Decorator.Round.{IsClosed, IsRecorded, IsAdded, item-IsClosed, item-IsAdded}

module _ (nx : MultiDiGraph Node FactEdge) {host : Host} (ids : Ids host)
    (class_of : String → Class) (uuid : ℕ → String) (stamp : ℕ → ℕ) (clock : ℕ → ℕ → ℕ)
    (tool : String) where
  -- The ids of the events of the items, the first of which is the k-th of the call.
  abbrev pub uuids : ℕ → List Item → List EventId
  uuids k [] = []
  uuids k (item ∷ items) = uuid k ∷ uuids (suc k) items

  abbrev Recorded : nx.Graph → List NodeId → ℕ → Item → Type 0
  Recorded g nodes k item = IsRecorded nx ids class_of uuid stamp clock tool g nodes k item

  abbrev pub AllRecorded : nx.Graph → List NodeId → ℕ → List Item → Type 0
  AllRecorded g nodes k [] = Unit
  AllRecorded g nodes k (item ∷ items) = Recorded g nodes k item × AllRecorded g nodes (suc k) items

  module _ (g g' : nx.Graph) (nodes nodes' : List NodeId) where
    Recorded-mono :
        (k : ℕ) (item : Item)
        → Keeps nx g g'
        → ((i : NodeId) → contains i nodes ≡ true → contains i nodes' ≡ true)
        → Recorded g nodes k item
        → Recorded g' nodes' k item
    Recorded-mono k item kept more r =
        let (m, held, same) = kept (uuid k) (event r.node) r.held in
        record {
          node = r.node;
          held = subst (λ n. nx.node (uuid k) g' ≡ some (some n)) same held;
          id = r.id;
          source_tool = r.source_tool;
          timestamp = r.timestamp;
          properties = r.properties;
          listed = more (uuid k) r.listed;
        }

    pub AllRecorded-mono :
        (k : ℕ) (items : List Item)
        → Keeps nx g g'
        → ((i : NodeId) → contains i nodes ≡ true → contains i nodes' ≡ true)
        → AllRecorded g nodes k items
        → AllRecorded g' nodes' k items
    AllRecorded-mono k [] kept more r = tt
    AllRecorded-mono k (item ∷ items) kept more (r, rs) =
        (Recorded-mono k item kept more r, AllRecorded-mono (suc k) items kept more rs)

  -- What a run of the loop over the items adds.
  pub record IsRun (k : ℕ) (items : List Item) (s s' : Ingest nx.Graph) : Type 0 where
    pub kept : Keeps nx s.graph.g s'.graph.g
    pub listed :
        (i : NodeId) → contains i s.payload.nodes ≡ true → contains i s'.payload.nodes ≡ true
    pub event_ids : s'.result.event_ids ≡ s.result.event_ids ++ uuids k items
    pub recorded : AllRecorded s'.graph.g s'.payload.nodes k items

  module _ (before : FactGraph nx.Graph) (valid : (k : ℕ) → ids.Uuid (uuid k))
      (distinct : (j k : ℕ) → uuid j ≡ uuid k → j ≡ k)
      (legal : (c : String) (name : String) (e : Entity)
        → field_entity (info_of (class_of c) name) ≡ some e
        → (v : Value) (x : String) → canonicalize host e v ≡ ok x
        → ids.Key e.name x) where
    abbrev Closed : ℕ → Ingest nx.Graph → Type 0
    Closed k s = IsClosed nx ids class_of uuid stamp clock tool k before s

    ingest_item-IsClosed :
        (k : ℕ) (item : Item) (s s' : Ingest nx.Graph)
        → ingest_item nx host class_of uuid stamp clock tool k item s ≡ ok s'
        → Closed k s
        → Closed (suc k) s'
    unfolding ingest_item
    ingest_item-IsClosed k item s s' q h =
        let e = event_for nx host class_of uuid stamp clock tool k item in
        let (w, ran, done) =
          >>=-eq-ok
            (extract nx host class_of (clock k) (uuid k) tool item.0 item.1
              (add_event nx e s.graph))
            (λ w. ok (record_item nx host class_of uuid stamp clock tool e w s)) q in
        subst (Closed (suc k)) (ok-injective done) (
          item-IsClosed nx ids class_of uuid stamp clock tool before valid distinct legal k item s h
            w ran)

    ingest_item-IsAdded :
        (k : ℕ) (item : Item) (s s' : Ingest nx.Graph)
        → ingest_item nx host class_of uuid stamp clock tool k item s ≡ ok s'
        → Closed k s
        → IsAdded nx ids class_of uuid stamp clock tool k item s s'
    unfolding ingest_item
    ingest_item-IsAdded k item s s' q h =
        let e = event_for nx host class_of uuid stamp clock tool k item in
        let (w, ran, done) =
          >>=-eq-ok
            (extract nx host class_of (clock k) (uuid k) tool item.0 item.1
              (add_event nx e s.graph))
            (λ w. ok (record_item nx host class_of uuid stamp clock tool e w s)) q in
        subst (IsAdded nx ids class_of uuid stamp clock tool k item s) (ok-injective done) (
          item-IsAdded nx ids class_of uuid stamp clock tool before valid distinct legal k item s h
            w ran)

    pub ingest_items-IsClosed :
        (k : ℕ) (items : List Item) (s s' : Ingest nx.Graph)
        → ingest_items nx host class_of uuid stamp clock tool k items s ≡ ok s'
        → Closed k s
        → Closed (k + length items) s'
    unfolding ingest_items
    ingest_items-IsClosed k [] s s' q h =
        let done : k ≡ k + length {A = Item} [] = omega arith in
        subst (λ n. Closed n s') done (subst (Closed k) (ok-injective q) h)
    ingest_items-IsClosed k (item ∷ items) s s' q h =
        let (s₁, one, rest) =
          >>=-eq-ok (ingest_item nx host class_of uuid stamp clock tool k item s)
            (λ x. ingest_items nx host class_of uuid stamp clock tool (suc k) items x) q in
        let shift : suc k + length items ≡ k + length (item ∷ items) = omega arith in
        subst (λ n. Closed n s') shift
          (ingest_items-IsClosed (suc k) items s₁ s' rest (ingest_item-IsClosed k item s s₁ one h))

    pub ingest_items-IsRun :
        (k : ℕ) (items : List Item) (s s' : Ingest nx.Graph)
        → ingest_items nx host class_of uuid stamp clock tool k items s ≡ ok s'
        → Closed k s
        → IsRun k items s s'
    unfolding ingest_items
    ingest_items-IsRun k [] s s' q h = subst (IsRun k [] s) (ok-injective q) (record {
      kept = Keeps-refl nx s.graph.g;
      listed = λ i at. at;
      event_ids = sym (append-nil s.result.event_ids);
      recorded = tt;
    })
    ingest_items-IsRun k (item ∷ items) s s' q h =
        let (s₁, one, rest) =
          >>=-eq-ok (ingest_item nx host class_of uuid stamp clock tool k item s)
            (λ x. ingest_items nx host class_of uuid stamp clock tool (suc k) items x) q in
        let now = ingest_item-IsAdded k item s s₁ one h in
        let later =
          ingest_items-IsRun (suc k) items s₁ s' rest (ingest_item-IsClosed k item s s₁ one h) in
        record {
          kept = Keeps-trans nx s.graph.g s₁.graph.g s'.graph.g now.kept later.kept;
          listed = λ i at. later.listed i (now.listed i at);
          event_ids =
              later.event_ids
              ∙ ap (λ l. l ++ uuids (suc k) items) now.event_ids
              ∙ append_assoc s.result.event_ids (uuid k ∷ []) (uuids (suc k) items);
          recorded = (
            Recorded-mono s₁.graph.g s'.graph.g s₁.payload.nodes s'.payload.nodes k item later.kept
                later.listed now.recorded,
            later.recorded,
          );
        }
