-- ===== src/Graph/Persists.antt =====
-- What the mutation of a node by agent_pinboard/graph.py leaves: an event as it is, and of a fact
-- everything but its provenance, which grows.
use agent_pinboard.Prelude.{
  String, ◌≡◌, ◌≢◌, refl, sym, ◌∙◌, ap, List, [], ◌++◌, some, subst, inl, inr, Bool-cases, ◌==◌,
  string_eq, eq_iff,
}
use mathlib.Core.List.{append-nil, append_assoc}
use agent_pinboard.Models.{NodeId, EventId, FactNode, EventNode, FactEdge, Node, fact, event}
use agent_pinboard.Networkx.{MultiDiGraph}
use agent_pinboard.Graph.Nodes.{
  Holds, Holds-unique, Holds-add_node_self, Holds-add_node_ne, Holds-add_node_fresh, Holds-add_edge,
  Holds-add_node_cases,
}

pub record Grows (f f' : FactNode) : Type 0 where
  pub id : f'.id ≡ f.id
  pub node_type : f'.node_type ≡ f.node_type
  pub value : f'.value ≡ f.value
  pub canonical_value : f'.canonical_value ≡ f.canonical_value
  pub first_seen : f'.first_seen ≡ f.first_seen
  pub more : List EventId
  pub source_events : f'.source_events ≡ f.source_events ++ more

abbrev pub Persists : Node → Node → Type 0
Persists (fact f) (fact f') = Grows f f'
Persists (fact f) (event e) = ⊥
Persists (event e) m = m ≡ event e

pub Persists-refl : (n : Node) → Persists n n
Persists-refl (fact f) = record {
  id = refl;
  node_type = refl;
  value = refl;
  canonical_value = refl;
  first_seen = refl;
  more = [];
  source_events = sym (append-nil f.source_events);
}
Persists-refl (event e) = refl

Grows-trans : (f g h : FactNode) → Grows f g → Grows g h → Grows f h
Grows-trans f g h p q = record {
  id = q.id ∙ p.id;
  node_type = q.node_type ∙ p.node_type;
  value = q.value ∙ p.value;
  canonical_value = q.canonical_value ∙ p.canonical_value;
  first_seen = q.first_seen ∙ p.first_seen;
  more = p.more ++ q.more;
  source_events =
      q.source_events
      ∙ (ap (λ l. l ++ q.more) p.source_events ∙ append_assoc f.source_events p.more q.more);
}

pub Persists-trans : (l m n : Node) → Persists l m → Persists m n → Persists l n
Persists-trans (fact f) (fact g) (fact h) p q = Grows-trans f g h p q
Persists-trans (fact f) (fact g) (event e) p q = absurd q
Persists-trans (fact f) (event g) n p q = absurd p
Persists-trans (event e) m n p q = subst (λ x. Persists x n) p q

module _ (nx : MultiDiGraph Node FactEdge) where
  -- Every object of `g` is in `g'`, and has at most grown.
  abbrev pub Keeps : nx.Graph → nx.Graph → Type 0
  Keeps g g' =
      (i : NodeId) (n : Node) → Holds nx g i n → (m : Node) × Holds nx g' i m × Persists n m

  pub Keeps-refl : (g : nx.Graph) → Keeps g g
  Keeps-refl g i n h = (n, h, Persists-refl n)

  pub Keeps-trans : (g g' g'' : nx.Graph) → Keeps g g' → Keeps g' g'' → Keeps g g''
  Keeps-trans g g' g'' p q i n h =
      let (m, held, same) = p i n h in
      let (k, held', same') = q i m held in (k, held', Persists-trans n m k same same')

  pub Keeps-add_edge :
      (s t k : String) (e : FactEdge) (g : nx.Graph) → Keeps g (nx.add_edge s t k e g)
  Keeps-add_edge s t k e g i n h = (n, (Holds-add_edge nx s t k i e n g).1 h, Persists-refl n)

  pub Keeps-add_node_fresh :
      (i : NodeId) (n : Node) (g : nx.Graph)
      → ((k : Node) → nx.node i g ≢ some (some k))
      → Keeps g (nx.add_node i n g)
  Keeps-add_node_fresh i n g fresh j m h =
      (m, Holds-add_node_fresh nx i j n m g fresh h, Persists-refl m)

  pub Keeps-add_node-Grows :
      (i : NodeId) (f f' : FactNode) (g : nx.Graph)
      → Holds nx g i (fact f)
      → Grows f f'
      → Keeps g (nx.add_node i (fact f') g)
  Keeps-add_node-Grows i f f' g held grows j m h = elim (Bool-cases (i == j)) [
    | inl e ↦
        let same : i ≡ j = (eq_iff i j).0 e in
        (
          fact f',
          subst (λ x. Holds nx (nx.add_node i (fact f') g) x (fact f')) same
              (Holds-add_node_self nx i (fact f') g),
          subst (λ x. Persists x (fact f'))
              (Holds-unique nx i (fact f) m g held (subst (λ x. Holds nx g x m) (sym same) h))
              grows,
        )
    | inr e ↦ (
      m,
      Holds-add_node_ne nx i j (fact f') m g (λ same. cc ((eq_iff i j).1 same)) h,
      Persists-refl m,
    )
  ]

  -- Every event of `g'` is an event of `g`.
  abbrev pub NoNewEvents : nx.Graph → nx.Graph → Type 0
  NoNewEvents g g' = (i : NodeId) (e : EventNode) → Holds nx g' i (event e) → Holds nx g i (event e)

  pub NoNewEvents-add_node :
      (i : NodeId) (f : FactNode) (g : nx.Graph) → NoNewEvents g (nx.add_node i (fact f) g)
  NoNewEvents-add_node i f g j e h = elim (Holds-add_node_cases nx i j (fact f) (event e) g h) [
    | inl (_, differ) ↦ cc
    | inr old ↦ old
  ]

  pub NoNewEvents-add_edge :
      (s t k : String) (e : FactEdge) (g : nx.Graph) → NoNewEvents g (nx.add_edge s t k e g)
  NoNewEvents-add_edge s t k e g i v h = (Holds-add_edge nx s t k i e (event v) g).0 h
