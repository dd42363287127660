-- ===== src/Networkx.antt =====
-- What agent_pinboard/graph.py uses of `networkx.MultiDiGraph`, which is not part of the
-- repository: the operations, and the behaviour that its documentation promises.
pub mod Assoc
use mathlib.Core.Logic.{∥∥₁_elim}
use agent_pinboard.Prelude.{
  String, ◌≡◌, ◌↔◌, ◌≢◌, Option, none, some, List, Mem, ◌==◌, ◌&&◌, ◌||◌, if◌then◌else◌, string_eq,
}

-- The attributes of a node that `add_edge` meets: it makes the node, without an `obj`, or leaves
-- it as it is.
abbrev pub touched {ℓ} : {N : Type ℓ} → Option (Option N) → Option (Option N)
touched none = some none
touched (some o) = some o

-- `N` and `E` are the types of the attribute `obj` of a node and of an edge.
pub record MultiDiGraph (N E : Type 0) : Type 1 where
  pub Graph : Type 0
  pub empty : Graph
  -- g.add_node(id, obj=n): the attribute of a node that is there is overwritten
  pub add_node : String → N → Graph → Graph
  -- g.add_edge(source, target, key=key, obj=e)
  pub add_edge : (source target key : String) → E → Graph → Graph
  -- g.nodes.get(id): `none` if there is no such node, `some none` if it has no `obj`
  pub node : String → Graph → Option (Option N)
  -- g.get_edge_data(source, target, key)
  pub edge : (source target key : String) → Graph → Option E
  -- g.nodes
  pub nodes : Graph → List String
  -- g.edges(data=True), g.out_edges(id, data=True), g.in_edges(id, data=True)
  pub edges : Graph → List (String × String × E)
  pub out_edges : String → Graph → List (String × String × E)
  pub in_edges : String → Graph → List (String × String × E)
  pub node-empty : (i : String) → node i empty ≡ none
  pub node-add_node :
      (i j : String) (n : N) (g : Graph)
      → node j (add_node i n g) ≡ (if i == j then some (some n) else node j g)
  pub node-add_edge :
      (s t k j : String) (e : E) (g : Graph)
      → node j (add_edge s t k e g) ≡ (if s == j || t == j then touched (node j g) else node j g)
  pub edge-empty : (s t k : String) → edge s t k empty ≡ none
  pub edge-add_node :
      (s t k i : String) (n : N) (g : Graph) → edge s t k (add_node i n g) ≡ edge s t k g
  pub edge-add_edge :
      (s t k s' t' k' : String) (e : E) (g : Graph)
      → edge s' t' k' (add_edge s t k e g)
        ≡ (if s == s' && (t == t' && k == k') then some e else edge s' t' k' g)
  pub mem-nodes : (i : String) (g : Graph) → Mem i (nodes g) ↔ (node i g ≢ none)
  pub mem-edges :
      (s t : String) (e : E) (g : Graph)
      → Mem (s, t, e) (edges g) ↔ ∥ ((k : String) × (edge s t k g ≡ some e)) ∥₁
  pub mem-out_edges :
      (i s t : String) (e : E) (g : Graph)
      → Mem (s, t, e) (out_edges i g) ↔ ((s ≡ i) × Mem (s, t, e) (edges g))
  pub mem-in_edges :
      (i s t : String) (e : E) (g : Graph)
      → Mem (s, t, e) (in_edges i g) ↔ ((t ≡ i) × Mem (s, t, e) (edges g))
