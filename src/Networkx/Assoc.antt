-- ===== src/Networkx/Assoc.antt =====
-- A multigraph on association lists: the promises of `MultiDiGraph` can be kept.
use mathlib.Core.Logic.{∥∥₁_elim, ∥∥₁_map}
use mathlib.Core.Logic.Or
use mathlib.Core.HLevel.{⊥_prop}
use mathlib.Core.Path.{ap₂}
use mathlib.Core.Option
use mathlib.Core.List.{
  filter, mem-filter, filter_map, mem-filter_map, mem-map, mem-cons, not-mem-nil, mem-cons_self,
  mem-cons_of_mem, Mem-prop, mem-cast,
}
use agent_pinboard.Prelude.{
  String, ◌≡◌, ◌≢◌, ◌↔◌, refl, sym, ap, ◌∙◌, Testable, Option-cases, Option, none, some, List, [],
  ◌∷◌, Mem, map, ◌==◌, ◌||◌, if◌then◌else◌, string_eq, pair_eq, get, put, get-put, eq_iff, arith,
  Bool-cases, inl, inr,
}
use agent_pinboard.Networkx.{MultiDiGraph, touched}

dec_eq : (a b : String) → Dec (a ≡ b)
dec_eq a b = elim (Bool-cases (a == b)) [
  | inl e ↦ yes ((eq_iff a b).0 e)
  | inr e ↦ no (λ same. cc ((eq_iff a b).1 same))
]

abbrev pub Nodes : Type 0 → Type 0
Nodes N = List (String × Option N)

abbrev pub Edges : Type 0 → Type 0
Edges E = List ((String × (String × String)) × E)

module _ {K V : Type 0} ⦃e : Testable K⦄ where
  mem_of_get : (k : K) (v : V) (d : List (K × V)) → get k d ≡ some v → Mem (k, v) d
  unfolding get
  mem_of_get k v [] h = absurd (ground arith)
  mem_of_get k v ((j, w) ∷ d) h = elim (Bool-cases (j == k)) [
    | inl same ↦
        let value : w ≡ v = ground (arith, same, h) in
        mem-cast (ap₂ {C = K × V} (λ x y. (x, y)) (sym ((e.same_iff j k).0 same)) (sym value))
          mem-cons_self
    | inr other ↦ mem-cons_of_mem (j, w) (mem_of_get k v d (ground (arith, other, h)))
  ]

  get-ne-none : (k : K) (v : V) (d : List (K × V)) → Mem (k, v) d → get k d ≢ none
  unfolding get
  get-ne-none k v [] m h = not-mem-nil m
  get-ne-none k v ((j, w) ∷ d) m h = elim (Bool-cases (j == k)) [
    | inl same ↦ ground (arith, same, h)
    | inr other ↦
        Or.elim ⊥_prop (mem-cons.0 m)
          (λ this. cc ((e.same_iff j k).1 (sym (ap (λ (x : K × V). x.0) this))))
          (λ later. get-ne-none k v d later (ground (arith, other, h)))
  ]

pub touch : {N : Type 0} → String → Nodes N → Nodes N
touch i ns = elim (get i ns) [ none ↦ put i none ns | some o ↦ ns ]

get-touch :
    {N : Type 0} (i j : String) (ns : Nodes N)
    → get j (touch i ns) ≡ (if i == j then touched (get j ns) else get j ns)
unfolding touch
get-touch i j ns = ground (arith, eq_iff i j, get-put i j none ns)

pub get-touch-touch :
    {N : Type 0} (s t j : String) (ns : Nodes N)
    → get j (touch t (touch s ns)) ≡ (if s == j || t == j then touched (get j ns) else get j ns)
get-touch-touch s t j ns = ground (arith, get-touch t j (touch s ns), get-touch s j ns)

pub keys : {N : Type 0} → Nodes N → List String
keys = map (λ p. p.0)

pub mem-keys : {N : Type 0} (i : String) (ns : Nodes N) → Mem i (keys ns) ↔ (get i ns ≢ none)
unfolding keys
mem-keys {N} i ns = (
  λ m h.
      ∥∥₁_elim (mem-map.0 m) ⊥_prop
        λ ((j, o), at, same). get-ne-none j o ns at (ap (λ k. get k ns) same ∙ h),
  λ h. elim (Option-cases (get i ns)) [
    | inl absent ↦ absurd (h absent)
    | inr (o, at) ↦ mem-map.1 ∣ ((i, o), mem_of_get i o ns at, refl) ∣₁
  ],
)

pub present :
    {E : Type 0} → Edges E → (String × (String × String)) × E → Option (String × String × E)
present es p = Option.map (λ e. (p.0.0, p.0.1.0, e)) (get p.0 es)

pub listing : {E : Type 0} → Edges E → List (String × String × E)
listing es = filter_map (present es) es

present-eq-some :
    {E : Type 0} (s t s' t' k' : String) (e e' : E) (es : Edges E)
    → present es ((s', (t', k')), e') ≡ some (s, t, e)
    → get (s, (t, k')) es ≡ some e
unfolding present
present-eq-some {E} s t s' t' k' e e' es h = elim (Option-cases (get (s', (t', k')) es)) [
  | inl absent ↦ absurd (ground (arith, absent, h))
  | inr (x, at) ↦
      let q : ◌≡◌ {A = Option (String × String × E)} (some (s', t', x)) (some (s, t, e)) =
        rw at at h in
      let p : ◌≡◌ {A = String × String × E} (s', t', x) (s, t, e) = cc in
      sym (ap (λ (y : String × String × E). get (y.0, (y.1, k')) es) p)
      ∙ (at ∙ ap (λ (y : String × String × E). some y.2) p)
]

pub mem-listing :
    {E : Type 0} (s t : String) (e : E) (es : Edges E)
    → Mem (s, t, e) (listing es) ↔ ∥ ((k : String) × (get (s, (t, k)) es ≡ some e)) ∥₁
unfolding listing present
mem-listing s t e es = (
  λ m.
      ∥∥₁_map ((mem-filter_map (present es) es).0 m)
        λ (((s', (t', k')), e'), at, same). (k', present-eq-some s t s' t' k' e e' es same),
  λ h. ∥∥₁_elim h Mem-prop λ (k, at).
      (mem-filter_map (present es) es).1
        ∣ (((s, (t, k)), e), mem_of_get (s, (t, k)) e es at, rw at) ∣₁,
)

pub record Lists (N E : Type 0) : Type 0 where
  pub node_list : Nodes N
  pub edge_list : Edges E

module _ {E : Type 0} (i : String) where
  abbrev from_source : (x : String × String × E) → Dec (x.0 ≡ i)
  from_source x = dec_eq x.0 i

  abbrev to_target : (x : String × String × E) → Dec (x.1 ≡ i)
  to_target x = dec_eq x.1 i

pub swap_iff : {A B C : Type 0} → A ↔ (B × C) → A ↔ (C × B)
swap_iff f = (λ a. let (b, c) = f.0 a in (c, b), λ (c, b). f.1 (b, c))

-- A graph on lists.
unfoldable pub assoc_graph : (N E : Type 0) → MultiDiGraph N E
unfolding get touch keys listing present dec_eq
assoc_graph N E = record {
  Graph = Lists N E;
  empty = record { node_list = []; edge_list = [] };
  add_node = λ i n g. record g { node_list = put i (some n) g.node_list };
  add_edge = λ s t k e g. record {
    node_list = touch t (touch s g.node_list);
    edge_list = put (s, (t, k)) e g.edge_list;
  };
  node = λ i g. get i g.node_list;
  edge = λ s t k g. get (s, (t, k)) g.edge_list;
  nodes = λ g. keys g.node_list;
  edges = λ g. listing g.edge_list;
  out_edges = λ i g. filter (from_source i) (listing g.edge_list);
  in_edges = λ i g. filter (to_target i) (listing g.edge_list);
  node-empty = λ i. refl;
  node-add_node = λ i j n g. get-put i j (some n) g.node_list;
  node-add_edge = λ s t k j e g. get-touch-touch s t j g.node_list;
  edge-empty = λ s t k. refl;
  edge-add_node = λ s t k i n g. refl;
  edge-add_edge = λ s t k s' t' k' e g. get-put (s, (t, k)) (s', (t', k')) e g.edge_list;
  mem-nodes = λ i g. mem-keys i g.node_list;
  mem-edges = λ s t e g. mem-listing s t e g.edge_list;
  mem-out_edges = λ i s t e g. swap_iff (mem-filter (from_source i));
  mem-in_edges = λ i s t e g. swap_iff (mem-filter (to_target i));
}
