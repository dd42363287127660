-- ===== src/Summary/Largest.antt =====
-- The facts that `graph_summary` (agent_pinboard/tools.py) lists of a type have the most events.
use mathlib.Core.List.Perm
use mathlib.Core.List.{Perm}
use agent_pinboard.Prelude.{
  ◌≢◌, some, none, Option-cases, ℕ, zero, suc, ◌≤◌, ◌≡◌, ◌⊎◌, refl, sym, ap, subst, String, List,
  [], ◌∷◌, ◌++◌, leb, length, take, drop, All, All-map, Bool-cases, inl, inr, arith,
}
use agent_pinboard.Models.{NodeId, fact, event, ok, ◌>>=◌, FactNode, FactEdge, Node}
use agent_pinboard.Networkx.{MultiDiGraph}
use agent_pinboard.Graph.{lookup, FactGraph, ids_of}
use agent_pinboard.Summary.{insert_fact, sort_facts, typed_facts, top_facts}

-- Each fact has as many events as the later ones.
abbrev pub Descending : List FactNode → Type 0
Descending [] = Unit
Descending (x ∷ xs) = All (λ y. length y.source_events ≤ length x.source_events) xs × Descending xs

-- Where a fact is inserted.
insert_fact_cases :
    (f x : FactNode) (xs : List FactNode)
    → ((length x.source_events ≤ length f.source_events) × (insert_fact f (x ∷ xs) ≡ f ∷ x ∷ xs))
      ⊎ ((length f.source_events ≤ length x.source_events)
          × (insert_fact f (x ∷ xs) ≡ x ∷ insert_fact f xs))
unfolding insert_fact
insert_fact_cases f x xs =
    elim (Bool-cases (leb (length x.source_events) (length f.source_events))) [
      | inl e ↦ inl (ground (arith, e), ground (arith, e))
      | inr e ↦ inr (ground (arith, e), ground (arith, e))
    ]

insert_fact-Perm : (f : FactNode) (xs : List FactNode) → Perm (insert_fact f xs) (f ∷ xs)
unfolding insert_fact
insert_fact-Perm f [] = Perm.refl (f ∷ [])
insert_fact-Perm f (x ∷ xs) = elim (insert_fact_cases f x xs) [
  | inl (_, at) ↦ subst (λ l. Perm l (f ∷ x ∷ xs)) (sym at) (Perm.refl (f ∷ x ∷ xs))
  | inr (_, at) ↦
      subst (λ l. Perm l (f ∷ x ∷ xs)) (sym at)
        (Perm.trans (Perm.cons x (insert_fact-Perm f xs)) (Perm.swap f x xs))
]

sort_facts-Perm : (fs : List FactNode) → Perm (sort_facts fs) fs
unfolding sort_facts
sort_facts-Perm [] = Perm.refl []
sort_facts-Perm (f ∷ fs) =
    Perm.trans (insert_fact-Perm f (sort_facts fs)) (Perm.cons f (sort_facts-Perm fs))

insert_fact-All :
    (P : FactNode → Type 0) (f : FactNode) (xs : List FactNode)
    → P f
    → All P xs
    → All P (insert_fact f xs)
unfolding insert_fact
insert_fact-All P f [] p q = (p, tt)
insert_fact-All P f (x ∷ xs) p q = elim (insert_fact_cases f x xs) [
  | inl (_, at) ↦ subst (All P) (sym at) (p, q)
  | inr (_, at) ↦ subst (All P) (sym at) (q.0, insert_fact-All P f xs p q.1)
]

insert_fact-Descending :
    (f : FactNode) (xs : List FactNode) → Descending xs → Descending (insert_fact f xs)
unfolding insert_fact
insert_fact-Descending f [] d = (tt, tt)
insert_fact-Descending f (x ∷ xs) d = elim (insert_fact_cases f x xs) [
  | inl (le, at) ↦
      let below =
        All-map (λ y. length y.source_events ≤ length x.source_events)
          (λ y. length y.source_events ≤ length f.source_events) xs (λ y h. omega (arith, h, le))
          d.0 in
      subst Descending (sym at) ((le, below), d)
  | inr (le, at) ↦ subst Descending (sym at) (
    insert_fact-All (λ y. length y.source_events ≤ length x.source_events) f xs le d.0,
    insert_fact-Descending f xs d.1,
  )
]

sort_facts-Descending : (fs : List FactNode) → Descending (sort_facts fs)
unfolding sort_facts
sort_facts-Descending [] = tt
sort_facts-Descending (f ∷ fs) = insert_fact-Descending f (sort_facts fs) (sort_facts-Descending fs)

take-append-drop : (n : ℕ) (fs : List FactNode) → take n fs ++ drop n fs ≡ fs
take-append-drop zero fs = refl
take-append-drop (suc n) [] = refl
take-append-drop (suc n) (f ∷ fs) = ap (λ l. f ∷ l) (take-append-drop n fs)

length-take : (n : ℕ) (fs : List FactNode) → length (take n fs) ≤ n
length-take zero fs = omega arith
length-take (suc n) [] = omega arith
length-take (suc n) (f ∷ fs) = omega (arith, length-take n fs)

drop_short : (n : ℕ) (fs : List FactNode) → (length (take n fs) ≡ n) ⊎ (drop n fs ≡ [])
drop_short zero fs = inl refl
drop_short (suc n) [] = inr refl
drop_short (suc n) (f ∷ fs) = elim (drop_short n fs) [ inl e ↦ inl (ap suc e) | inr e ↦ inr e ]

module _ (nx : MultiDiGraph Node FactEdge) (graph : FactGraph nx.Graph) where
  -- The facts that the graph holds under the ids, in their order.
  abbrev pub held_facts : List NodeId → List FactNode
  held_facts [] = []
  held_facts (i ∷ ids) = elim (nx.node i graph.g) [
    | some (some (fact f)) ↦ f ∷ held_facts ids
    | _ ↦ held_facts ids
  ]

  typed_facts-held_facts :
      ((i : NodeId) → nx.node i graph.g ≢ some none)
      → (ids : List NodeId) → typed_facts nx graph ids ≡ ok (held_facts ids)
  unfolding typed_facts lookup
  typed_facts-held_facts whole [] = refl
  typed_facts-held_facts whole (i ∷ ids) =
      let rest = typed_facts-held_facts whole ids in
      elim (Option-cases (nx.node i graph.g)) [
        | inl absent ↦ ground (arith, absent, rest)
        | inr (none, at) ↦ absurd (whole i at)
        | inr (some (fact f), at) ↦ ground (arith, at, rest)
        | inr (some (event e), at) ↦ ground (arith, at, rest)
      ]

  -- In a graph whose nodes all have their objects, the tool returns the facts of a type with the most
  -- events, in that order, as many as `n` where there are so many: with the rest they are the facts
  -- that the graph holds under the ids that the index has for the type, each as often as its id is
  -- there, and none of the rest has more events than one of them.
  pub top_facts_lem :
      (node_type : String) (n : ℕ)
      → ((i : NodeId) → nx.node i graph.g ≢ some none)
      → (out : List FactNode) × (rest : List FactNode) × (top_facts nx graph node_type n ≡ ok out)
        × Perm (out ++ rest) (held_facts (ids_of node_type graph.nodes_by_type))
        × Descending (out ++ rest)
        × (length out ≤ n)
        × ((length out ≡ n) ⊎ (rest ≡ []))
  unfolding top_facts
  top_facts_lem node_type n all_held =
      let facts = held_facts (ids_of node_type graph.nodes_by_type) in
      let read = typed_facts-held_facts all_held (ids_of node_type graph.nodes_by_type) in
      let sorted = sort_facts facts in
      let whole = sym (take-append-drop n sorted) in
      (
        take n sorted,
        drop n sorted,
        ap (λ r. r >>= λ fs. ok (take n (sort_facts fs))) read,
        subst (λ l. Perm l facts) whole (sort_facts-Perm facts),
        subst Descending whole (sort_facts-Descending facts),
        length-take n sorted,
        drop_short n sorted,
      )
