-- ===== src/Graph/Nodes.antt =====
-- Lemmas on the type index of agent_pinboard/graph.py and on the objects that the graph holds.
use agent_pinboard.Prelude.{
  String, ◌≡◌, subst, sym, ◌≢◌, some, List, ◌==◌, ◌||◌, ◌&&◌, true, string_eq, pair_eq, contains,
  add, contains-add, get-put, arith, eq_iff, ◌⊎◌, ◌↔◌,
}
use agent_pinboard.Models.{NodeId, FactEdge, Node}
use agent_pinboard.Networkx.{MultiDiGraph}
use agent_pinboard.Graph.{ids_of, index_type}

-- membership in the set that the type index has for a type
abbrev pub Listed : String → NodeId → List (String × List NodeId) → Type 0
Listed t i d = contains i (ids_of t d) ≡ true

pub listed-index_type :
    (t u : String) (i j : NodeId) (d : List (String × List NodeId))
    → contains j (ids_of u (index_type t i d)) ≡ ((t == u) && (i == j) || contains j (ids_of u d))
unfolding index_type contains
listed-index_type t u i j d =
    ground (arith, get-put t u (add i (ids_of t d)) d, contains-add i j (ids_of t d), eq_iff t u)

pub Listed-index_type_self :
    (t : String) (i : NodeId) (d : List (String × List NodeId)) → Listed t i (index_type t i d)
Listed-index_type_self t i d = rw listed-index_type (ground (arith, eq_iff t t, eq_iff i i))

pub Listed-index_type_mono :
    (t u : String) (i j : NodeId) (d : List (String × List NodeId))
    → Listed u j d
    → Listed u j (index_type t i d)
Listed-index_type_mono t u i j d h = rw listed-index_type (ground arith)

pub Listed-index_type_cases :
    (t u : String) (i j : NodeId) (d : List (String × List NodeId))
    → Listed u j (index_type t i d)
    → ((t ≡ u) × (i ≡ j)) ⊎ Listed u j d
Listed-index_type_cases t u i j d h =
    let h' = rw listed-index_type at h in ground (arith, eq_iff t u, eq_iff i j)

module _ (nx : MultiDiGraph Node FactEdge) where
  -- The node `i` holds the object `n`.
  abbrev pub Holds : nx.Graph → NodeId → Node → Type 0
  Holds g i n = nx.node i g ≡ some (some n)

  pub Holds-unique : (i : NodeId) (n m : Node) (g : nx.Graph) → Holds g i n → Holds g i m → n ≡ m
  Holds-unique i n m g h k = ground (arith, h, k)

  pub Holds-add_node_self : (i : NodeId) (n : Node) (g : nx.Graph) → Holds (nx.add_node i n g) i n
  Holds-add_node_self i n g = rw nx.node-add_node (ground (arith, eq_iff i i))

  pub Holds-add_node_cases :
      (i j : NodeId) (n m : Node) (g : nx.Graph)
      → Holds (nx.add_node i n g) j m
      → ((i ≡ j) × (n ≡ m)) ⊎ Holds g j m
  Holds-add_node_cases i j n m g h = ground (arith, eq_iff i j, nx.node-add_node i j n g)

  pub Holds-add_node_ne :
      (i j : NodeId) (n m : Node) (g : nx.Graph)
      → i ≢ j
      → Holds g j m
      → Holds (nx.add_node i n g) j m
  Holds-add_node_ne i j n m g h k = ground (arith, eq_iff i j, nx.node-add_node i j n g)

  -- A new object at an id that holds none leaves the others.
  pub Holds-add_node_fresh :
      (i j : NodeId) (n m : Node) (g : nx.Graph)
      → ((k : Node) → nx.node i g ≢ some (some k))
      → Holds g j m
      → Holds (nx.add_node i n g) j m
  Holds-add_node_fresh i j n m g fresh h =
      Holds-add_node_ne i j n m g (λ e. fresh m (subst (λ k. Holds g k m) (sym e) h)) h

  pub Holds-add_edge :
      (s t k i : String) (e : FactEdge) (m : Node) (g : nx.Graph)
      → Holds (nx.add_edge s t k e g) i m ↔ Holds g i m
  Holds-add_edge s t k i e m g = (
    λ h. ground (arith, nx.node-add_edge s t k i e g),
    λ h. ground (arith, nx.node-add_edge s t k i e g),
  )
