-- ===== src/Graph/Queries/Found.antt =====
-- The queries of agent_pinboard/graph.py in a graph whose indexes agree: they find what is there.
use mathlib.Core.Path.{ap₂}
use agent_pinboard.Prelude.{
  String, ◌≡◌, ◌≢◌, refl, sym, ap, ◌∙◌, subst, ◌⊎◌, none, some, List, [], ◌∷◌, ◌==◌, true,
  string_eq, contains, arith, eq_iff, Bool-cases, inl, inr, if◌then◌else◌, Option, All, All-map,
}
use agent_pinboard.Models.{
  Result, ok, ◌>>=◌, NodeId, FactNode, EventNode, FactEdge, Node, fact, event, node_type,
  event_node_type,
}
use agent_pinboard.Models.Host.{Host}
use agent_pinboard.Networkx.{MultiDiGraph}
use agent_pinboard.Graph.{FactGraph, ids_of, node_at}
use agent_pinboard.Graph.Nodes.{Holds, Listed, Holds-unique}
use agent_pinboard.Graph.Invariant.{Ids, IsIndexed}
use agent_pinboard.Graph.Queries.{find_in, find_by_value, events_in, all_events}

-- The event is one of the list.
abbrev pub Lists : EventNode → List EventNode → Type 0
Lists e [] = ⊥
Lists e (x ∷ xs) = (e ≡ x) ⊎ Lists e xs

event-injective : {e e' : EventNode} → event e ≡ event e' → e ≡ e'
event-injective h = cc

fact-injective : {f f' : FactNode} → fact f ≡ fact f' → f ≡ f'
fact-injective h = cc

module _ (nx : MultiDiGraph Node FactEdge) (graph : FactGraph nx.Graph) where
  abbrev HasValue : String → NodeId → Type 0
  HasValue value i = (f : FactNode) × Holds nx graph.g i (fact f) × (f.value ≡ value)

  -- What a search among these ids finds.
  abbrev Finds : String → List NodeId → Result (Option NodeId) → Type 0
  Finds value ids r =
      ((i : NodeId) × (r ≡ ok (some i)) × (contains i ids ≡ true) × HasValue value i)
      ⊎ ((r ≡ ok none)
          × ((i : NodeId) (f : FactNode)
              → contains i ids ≡ true
              → Holds nx graph.g i (fact f)
              → f.value ≢ value))

  -- Every id of the list holds an object.
  abbrev Present : List NodeId → Type 0
  Present ids = (i : NodeId) → contains i ids ≡ true → (n : Node) × Holds nx graph.g i n

  node_at-eq : (i : NodeId) (n : Node) → Holds nx graph.g i n → node_at nx i graph ≡ ok n
  unfolding node_at
  node_at-eq i n h = ground (arith, h)

  tail-Present : (i : NodeId) (ids : List NodeId) → Present (i ∷ ids) → Present ids
  unfolding contains
  tail-Present i ids h j q = h j (ground (arith, q))

  head-Present :
      (i : NodeId) (ids : List NodeId) → Present (i ∷ ids) → (n : Node) × Holds nx graph.g i n
  unfolding contains
  head-Present i ids h = h i (ground (arith, eq_iff i i))

  Finds-more :
      (value : String) (i : NodeId) (ids : List NodeId) (r : Result (Option NodeId))
      → ((f : FactNode) → Holds nx graph.g i (fact f) → f.value ≢ value)
      → Finds value ids r
      → Finds value (i ∷ ids) r
  unfolding contains
  Finds-more value i ids r differs (inl (j, q, at, has)) = inl (j, q, ground (arith, at), has)
  Finds-more value i ids r differs (inr (q, nowhere)) = inr (
    q,
    λ j f at held. elim (Bool-cases (i == j)) [
      | inl e ↦ differs f (subst (λ x. Holds nx graph.g x (fact f)) (sym ((eq_iff i j).0 e)) held)
      | inr e ↦ nowhere j f (ground (arith, e, at)) held
    ],
  )

  find_in_step :
      (value : String) (i : NodeId) (ids : List NodeId) (n : Node)
      → Holds nx graph.g i n
      → find_in nx value (i ∷ ids) graph ≡ elim n [
        | fact f ↦ if f.value == value then ok (some i) else find_in nx value ids graph
        | event e ↦ find_in nx value ids graph
      ]
  unfolding find_in
  find_in_step value i ids n held =
      ap
        (λ r. r >>= λ m. elim m [
          | fact f ↦ if f.value == value then ok (some i) else find_in nx value ids graph
          | event e ↦ find_in nx value ids graph
        ])
        (node_at-eq i n held)

  find_at :
      (value : String) (i : NodeId) (ids : List NodeId) (n : Node)
      → Holds nx graph.g i n
      → Finds value ids (find_in nx value ids graph)
      → Finds value (i ∷ ids) (find_in nx value (i ∷ ids) graph)
  unfolding contains
  find_at value i ids (event e) held rest =
      subst (Finds value (i ∷ ids)) (sym (find_in_step value i ids (event e) held)) (
        Finds-more value i ids (find_in nx value ids graph)
          (λ f held' same. ground (arith, held, held')) rest)
  find_at value i ids (fact f) held rest =
      subst (Finds value (i ∷ ids)) (sym (find_in_step value i ids (fact f) held))
        (elim (Bool-cases (f.value == value)) [
          | inl e ↦ inl (
            i,
            ap (λ b. if b then ok (some i) else find_in nx value ids graph) e,
            ground (arith, eq_iff i i),
            (f, held, (eq_iff f.value value).0 e),
          )
          | inr e ↦
              subst (Finds value (i ∷ ids))
                (sym (ap (λ b. if b then ok (some i) else find_in nx value ids graph) e))
                (Finds-more value i ids (find_in nx value ids graph)
                  (λ f' held' same. ground (
                    arith,
                    e,
                    same,
                    eq_iff f.value value,
                    ap (λ (x : FactNode). x.value)
                        (fact-injective (Holds-unique nx i (fact f) (fact f') graph.g held held')),
                  ))
                  rest)
        ])

  find_in-Finds :
      (value : String) (ids : List NodeId)
      → Present ids
      → Finds value ids (find_in nx value ids graph)
  unfolding find_in contains
  find_in-Finds value [] h = inr (refl, λ i f at. absurd (ground (arith, at)))
  find_in-Finds value (i ∷ ids) h =
      let rest = find_in-Finds value ids (tail-Present i ids h) in
      let (n, here) = head-Present i ids h in find_at value i ids n here rest

  -- What the collection of the events among these ids has.
  abbrev Collects : List NodeId → List EventNode → Type 0
  Collects ids es =
      ((i : NodeId) (e : EventNode)
        → contains i ids ≡ true
        → Holds nx graph.g i (event e)
        → Lists e es)
      × All (λ e. (i : NodeId) × (contains i ids ≡ true) × Holds nx graph.g i (event e)) es

  Collects-later :
      (i : NodeId) (ids : List NodeId) (es : List EventNode)
      → All (λ e. (j : NodeId) × (contains j ids ≡ true) × Holds nx graph.g j (event e)) es
      → All (λ e. (j : NodeId) × (contains j (i ∷ ids) ≡ true) × Holds nx graph.g j (event e)) es
  unfolding contains
  Collects-later i ids es =
      All-map (λ e. (j : NodeId) × (contains j ids ≡ true) × Holds nx graph.g j (event e))
        (λ e. (j : NodeId) × (contains j (i ∷ ids) ≡ true) × Holds nx graph.g j (event e)) es
        (λ e p. (p.0, ground (arith, p.1), p.2))

  Collects-add :
      (i : NodeId) (ids : List NodeId) (n : Node) (es : List EventNode)
      → Holds nx graph.g i n
      → Collects ids es
      → Collects (i ∷ ids) (elim n [ event e ↦ e ∷ es | fact f ↦ es ])
  unfolding contains
  Collects-add i ids (event e) es held (all, some_of) = (
    λ j e' at held'. elim (Bool-cases (i == j)) [
      | inl same ↦ inl (
          event-injective (
            Holds-unique nx j (event e') (event e) graph.g held'
              (subst (λ x. Holds nx graph.g x (event e)) ((eq_iff i j).0 same) held)))
      | inr other ↦ inr (all j e' (ground (arith, other, at)) held')
    ],
    ((i, ground (arith, eq_iff i i), held), Collects-later i ids es some_of),
  )
  Collects-add i ids (fact f) es held (all, some_of) = (
    λ j e at held'. elim (Bool-cases (i == j)) [
      | inl same ↦ absurd (
          ground
            (arith, held', subst (λ x. Holds nx graph.g x (fact f)) ((eq_iff i j).0 same) held))
      | inr other ↦ all j e (ground (arith, other, at)) held'
    ],
    Collects-later i ids es some_of,
  )

  events_in-Collects :
      (ids : List NodeId)
      → Present ids
      → (es : List EventNode) × (events_in nx ids graph ≡ ok es) × Collects ids es
  unfolding events_in contains
  events_in-Collects [] h = ([], refl, (λ i e at. absurd (ground (arith, at)), tt))
  events_in-Collects (i ∷ ids) h =
      let (n, held) = head-Present i ids h in
      let (es, read, there) = events_in-Collects ids (tail-Present i ids h) in
      (
        elim n [ event e ↦ e ∷ es | fact f ↦ es ],
        ap₂ (λ r q. r >>= λ m. q >>= λ rest. ok (elim m [ event e ↦ e ∷ rest | fact f ↦ rest ]))
            (node_at-eq i n held) read,
        Collects-add i ids n es held there,
      )

module _ (nx : MultiDiGraph Node FactEdge) {host : Host} (ids : Ids host)
    (graph : FactGraph nx.Graph) where
  -- In a graph whose indexes agree, `find_by_value` returns: the id of a fact of the type with the
  -- value, where the graph holds one, and None where it holds none.
  pub find_by_value_lem :
      (t value : String)
      → IsIndexed nx ids graph
      → ((i : NodeId) × (find_by_value nx t value graph ≡ ok (some i))
          × (f : FactNode) × Holds nx graph.g i (fact f)
          × (f.node_type ≡ t)
          × (f.value ≡ value))
        ⊎ ((find_by_value nx t value graph ≡ ok none)
            × ((i : NodeId) (f : FactNode)
                → Holds nx graph.g i (fact f)
                → f.node_type ≡ t
                → f.value ≢ value))
  unfolding find_by_value
  find_by_value_lem t value h =
      let listed = ids_of t graph.nodes_by_type in
      elim (find_in-Finds nx graph value listed
        (λ i at. let (n, held, _) = h.typed t i at in (n, held))) [
          | inl (i, found, at, (f, held, same)) ↦
              let (n, held', typ) = h.typed t i at in
              let this = Holds-unique nx i n (fact f) graph.g held' held in
              inl (i, found, f, held, sym (ap node_type this) ∙ typ, same)
          | inr (none_found, nowhere) ↦ inr (
            none_found,
            λ i f held typ.
                let (_, _, at, _) = h.indexed i (fact f) held in
                nowhere i f (subst (λ x. Listed x i graph.nodes_by_type) typ at) held,
          )
        ]

  -- In a graph whose indexes agree, `all_events` returns the events that the graph holds, and no
  -- others.
  pub all_events_lem :
      IsIndexed nx ids graph
      → (es : List EventNode) × (all_events nx graph ≡ ok es)
        × ((i : NodeId) (e : EventNode) → Holds nx graph.g i (event e) → Lists e es)
        × All (λ e. (i : NodeId) × Holds nx graph.g i (event e)) es
  unfolding all_events
  all_events_lem h =
      let listed = ids_of event_node_type graph.nodes_by_type in
      let (es, read, (all, some_of)) =
        events_in-Collects nx graph listed
          (λ i at. let (n, held, _) = h.typed event_node_type i at in (n, held)) in
      (
        es,
        read,
        λ i e held. let (_, _, at, _) = h.indexed i (event e) held in all i e at held,
        All-map (λ e. (i : NodeId) × (contains i listed ≡ true) × Holds nx graph.g i (event e))
            (λ e. (i : NodeId) × Holds nx graph.g i (event e)) es (λ e p. (p.0, p.2)) some_of,
      )
