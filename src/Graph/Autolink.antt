-- ===== src/Graph/Autolink.antt =====
-- `upsert_fact` of agent_pinboard/graph.py on every branch.
use agent_pinboard.Prelude.{
  ℕ, String, ◌≡◌, ◌≢◌, refl, sym, ap, subst, ◌∙◌, none, some, Option, [], ◌∷◌, ◌++◌, true, false,
  Bool, ◌==◌, string_eq, pair_eq, get, arith, eq_iff, add, contains, contains-append, get-put_self,
  Option-cases, Bool-cases, ◌⊎◌, inl, inr,
}
use agent_pinboard.Value.{Value, null}
use agent_pinboard.Models.{
  ok, raise, ◌>>=◌, NodeId, EventId, Entity, FactNode, FactEdge, Node, fact, fact_node_id, Error,
  normalizer_error, Result-cases, ok-injective,
}
use agent_pinboard.Models.Host.{Host}
use agent_pinboard.Networkx.{MultiDiGraph}
use agent_pinboard.Graph.{
  FactGraph, Upserted, canonicalize, new_fact, insert_fact, link_fact, node_at, upsert_canonical,
  upsert_fact,
}
use agent_pinboard.Graph.Nodes.{Holds, Holds-add_node_self}
use agent_pinboard.Graph.Invariant.{Ids, IsIndexed}
use agent_pinboard.Graph.Persists.{
  NoNewEvents, NoNewEvents-add_node, Keeps, Keeps-add_node_fresh, Keeps-add_node-Grows,
}
use agent_pinboard.Graph.Upsert.{unclaimed, replace-IsIndexed, insert_fact-IsIndexed}

abbrev is_none {ℓ} : {A : Type ℓ} → Option A → Bool
is_none none = true
is_none (some _) = false

module _ (nx : MultiDiGraph Node FactEdge) {host : Host} (ids : Ids host) (now : ℕ)
    (entity : Entity) (event_id : EventId) (tool : String) (graph : FactGraph nx.Graph) where
  -- What `upsert_fact` promises for a value that has the canonical form `c`.
  pub record IsLinked (c : String) (u : Upserted nx.Graph) : Type 0 where
    pub indexed : IsIndexed nx ids u.graph
    pub target : u.target ≡ some (fact_node_id host.digest entity.name c)
    pub was_new : u.was_new ≡ is_none (get (entity.name, c) graph.nodes_by_key)
    pub silent : u.warned ≡ []
    pub kept : Keeps nx graph.g u.graph.g
    pub events : NoNewEvents nx graph.g u.graph.g
    pub node : FactNode
    pub held : Holds nx u.graph.g (fact_node_id host.digest entity.name c) (fact node)
    pub typ : node.node_type ≡ entity.name
    pub canonical : node.canonical_value ≡ c
    pub seen : node.last_seen ≡ now
    pub sourced : contains event_id node.source_events ≡ true
    pub keyed :
        get (entity.name, c) u.graph.nodes_by_key ≡ some (fact_node_id host.digest entity.name c)

  link-IsLinked :
      (c : String) (i : NodeId)
      → IsIndexed nx ids graph
      → get (entity.name, c) graph.nodes_by_key ≡ some i
      → (u : Upserted nx.Graph) × ((node_at nx i graph >>= λ n.
            link_fact nx now event_id tool i n graph)
          ≡ ok u)
        × IsLinked c u
  unfolding node_at link_fact contains
  link-IsLinked c i h at =
      let (named, (f, held, typ, can)) = h.keyed entity.name c i at in
      let f' : FactNode = record f {
        last_seen = now;
        source_events = f.source_events ++ event_id ∷ [];
        source_tools = add tool f.source_tools;
      } in
      (
        record {
          graph = record graph { g = nx.add_node i (fact f') graph.g };
          target = some i;
          was_new = false;
          warned = [];
        },
        rw (held, node_at),
        record {
          indexed = replace-IsIndexed nx ids graph h i f f' held refl refl refl;
          target = ap some named;
          was_new = rw at;
          silent = refl;
          kept = Keeps-add_node-Grows nx i f f' graph.g held (record {
            id = refl;
            node_type = refl;
            value = refl;
            canonical_value = refl;
            first_seen = refl;
            more = event_id ∷ [];
            source_events = refl;
          });
          events = NoNewEvents-add_node nx i f' graph.g;
          node = f';
          held =
              subst (λ j. Holds nx (nx.add_node i (fact f') graph.g) j (fact f')) named
                (Holds-add_node_self nx i (fact f') graph.g);
          typ = typ;
          canonical = can;
          seen = refl;
          sourced = ground (
            arith,
            contains-append event_id f.source_events (event_id ∷ []),
            eq_iff event_id event_id,
          );
          keyed = at ∙ ap some named;
        },
      )

  insert-IsLinked :
      (value : Value) (c : String)
      → IsIndexed nx ids graph
      → ids.Key entity.name c
      → get (entity.name, c) graph.nodes_by_key ≡ none
      → IsLinked c (
          insert_fact nx host now entity event_id tool
            (new_fact nx host now entity event_id tool value c)
            graph)
  unfolding insert_fact new_fact contains
  insert-IsLinked value c h key absent =
      let f = new_fact nx host now entity event_id tool value c in
      record {
        indexed = insert_fact-IsIndexed nx ids now entity event_id tool value c graph h key absent;
        target = refl;
        was_new = rw absent;
        silent = refl;
        kept =
            Keeps-add_node_fresh nx f.id (fact f) graph.g
              (unclaimed nx ids entity.name c graph h key absent);
        events = NoNewEvents-add_node nx f.id f graph.g;
        node = f;
        held = Holds-add_node_self nx f.id (fact f) graph.g;
        typ = refl;
        canonical = refl;
        seen = refl;
        sourced = ground (arith, eq_iff event_id event_id);
        keyed = get-put_self (entity.name, c) f.id graph.nodes_by_key;
      }

  upsert_canonical-IsLinked :
      (value : Value) (c : String)
      → IsIndexed nx ids graph
      → ids.Key entity.name c
      → c ≢ ""
      → (u : Upserted nx.Graph) × (upsert_canonical nx host now entity event_id tool value c graph
          ≡ ok u)
        × IsLinked c u
  unfolding upsert_canonical
  upsert_canonical-IsLinked value c h key full =
      elim (Option-cases (get (entity.name, c) graph.nodes_by_key)) [
        | inl absent ↦ (
          insert_fact nx host now entity event_id tool
              (new_fact nx host now entity event_id tool value c) graph,
          ground (arith, eq_iff c ""),
          insert-IsLinked value c h key absent,
        )
        | inr (i, at) ↦
            let (u, e, linked) = link-IsLinked c i h at in (u, ground (arith, eq_iff c ""), linked)
      ]

  -- In a graph whose indexes agree, a value with a canonical form that is not empty gets the node
  -- of its key: the one that the index has, or a new one. The node then names the event, and the
  -- indexes agree again.
  pub upsert_fact_links :
      (value : Value) (c : String)
      → IsIndexed nx ids graph
      → ids.Key entity.name c
      → value ≢ null
      → canonicalize host entity value ≡ ok c
      → c ≢ ""
      → (u : Upserted nx.Graph) × (upsert_fact nx host now entity event_id tool value graph ≡ ok u)
        × IsLinked c u
  unfolding upsert_fact
  upsert_fact_links null c h key given norm full = absurd (given refl)
  upsert_fact_links value c h key given norm full =
      let (u, e, linked) = upsert_canonical-IsLinked value c h key full in (u, rw norm e, linked)

  upsert_canonical-ne-raise :
      (value : Value) (c : String) (e : Error)
      → IsIndexed nx ids graph
      → upsert_canonical nx host now entity event_id tool value c graph ≢ raise e
  unfolding upsert_canonical
  upsert_canonical-ne-raise value c e h q =
      elim (Option-cases (get (entity.name, c) graph.nodes_by_key)) [
        | inl absent ↦ ground arith
        | inr (i, at) ↦ let (u, done, _) = link-IsLinked c i h at in ground arith
      ]

  canonicalize-eq-raise :
      (value : Value) (e : Error) → canonicalize host entity value ≡ raise e → e ≡ normalizer_error
  unfolding canonicalize
  canonicalize-eq-raise value e q = ground arith

  -- The only error is that of a normalizer which raises: a link in the index never dangles.
  pub upsert_fact_raises :
      (value : Value) (e : Error)
      → IsIndexed nx ids graph
      → upsert_fact nx host now entity event_id tool value graph ≡ raise e
      → (e ≡ normalizer_error) × (canonicalize host entity value ≡ raise normalizer_error)
  unfolding upsert_fact
  upsert_fact_raises null e h q = absurd (ground arith)
  upsert_fact_raises value e h q = elim (Result-cases (canonicalize host entity value)) [
    | inl (c, norm) ↦ absurd (upsert_canonical-ne-raise value c e h (rw norm at q))
    | inr (x, failed) ↦
        let named = canonicalize-eq-raise value x failed in
        (ground (arith, failed, named, q), failed ∙ ap raise named)
  ]

  -- What comes of a value that is dropped.
  pub record IsDropped (u : Upserted nx.Graph) : Type 0 where
    pub target : u.target ≡ none
    pub unchanged : u.graph ≡ graph

  upsert_canonical-eq-ok :
      (value : Value) (c : String) (u : Upserted nx.Graph)
      → IsIndexed nx ids graph
      → ids.Key entity.name c
      → upsert_canonical nx host now entity event_id tool value c graph ≡ ok u
      → IsDropped u ⊎ IsLinked c u
  unfolding upsert_canonical
  upsert_canonical-eq-ok value c u h key q = elim (Bool-cases (c == "")) [
    | inl empty ↦
        inl (record { target = ground (arith, empty, q); unchanged = ground (arith, empty, q) })
    | inr full ↦
        let (v, done, linked) =
          upsert_canonical-IsLinked value c h key (λ e. cc ((eq_iff c "").1 e)) in
        inr (subst (IsLinked c) (ok-injective (sym done ∙ q)) linked)
  ]

  -- A call that returns has dropped the value or linked it.
  pub upsert_fact-eq-ok :
      (value : Value) (u : Upserted nx.Graph)
      → IsIndexed nx ids graph
      → ((c : String) → canonicalize host entity value ≡ ok c → ids.Key entity.name c)
      → upsert_fact nx host now entity event_id tool value graph ≡ ok u
      → IsDropped u ⊎ ((c : String) × (canonicalize host entity value ≡ ok c) × IsLinked c u)
  unfolding upsert_fact
  upsert_fact-eq-ok null u h key q =
      inl (record { target = ground (arith, q); unchanged = ground (arith, q) })
  upsert_fact-eq-ok value u h key q = elim (Result-cases (canonicalize host entity value)) [
    | inl (c, norm) ↦ elim (upsert_canonical-eq-ok value c u h (key c norm) (rw norm at q)) [
      | inl dropped ↦ inl dropped
      | inr linked ↦ inr (c, norm, linked)
    ]
    | inr (e, failed) ↦ absurd (ground (arith, failed, q))
  ]
