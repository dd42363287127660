-- ===== src/Extract.antt =====
-- agent_pinboard/extract.py: the walk over a model instance that puts its facts and edges into the
-- graph. A list of fact nodes is a list of their ids: the graph has the objects.
pub mod Rule
pub mod Emit
pub mod Sound
pub mod Covered
pub mod Raises
pub mod Errors
use Prim.Native.String.{◌++◌ as str_append}
use agent_pinboard.Prelude.{
  ℕ, String, Option, none, some, List, [], ◌∷◌, ◌++◌, Bool, true, false, ◌==◌, if◌then◌else◌,
  string_eq, add, contains, length, get,
}
use agent_pinboard.Value.{
  Value, Values, Attrs, null, string, int, other, list, tuple, dict, model, nil, cons, end, attr,
  is_container,
}
use agent_pinboard.Models.{
  Error, Result, ok, raise, ◌>>=◌, NodeId, EventId, Entity, FactEdge, Node, fact, event,
  extraction_error,
}
use agent_pinboard.Models.Host.{Host}
use agent_pinboard.Networkx.{MultiDiGraph}
use agent_pinboard.Fields.{FieldInfo, Class, field_entity, declaring_class, absent}
use agent_pinboard.Graph.{FactGraph, Upserted, upsert_fact, add_edge, lookup}

-- The graph and the accumulators of one extraction.
pub record Walk (G : Type 0) : Type 0 where
  pub graph : FactGraph G
  pub new_facts : List NodeId
  pub linked_facts : List NodeId
  pub seen_linked : List NodeId
  pub new_edges : List FactEdge
  pub warnings : List String

abbrev pub start : {G : Type 0} → FactGraph G → Walk G
start graph = record {
  graph = graph;
  new_facts = [];
  linked_facts = [];
  seen_linked = [];
  new_edges = [];
  warnings = [];
}

-- cls.model_fields[name]; an instance has the fields of its class and no other
unfoldable pub info_of : Class → String → FieldInfo
info_of cls name = elim (get name cls.model_fields) [
  | none ↦ record { description = none; json_schema_extra = absent }
  | some info ↦ info
]

-- f"{_declaring_class(model_cls, name)}.{name}"
unfoldable pub edge_type_of : Class → String → String
edge_type_of cls name = str_append (declaring_class cls name) (str_append "." name)

-- info.description or ""
unfoldable pub description_of : FieldInfo → String
description_of info = elim info.description [ none ↦ "" | some d ↦ d ]

-- The cases of `match value, entity` by the entity.
unfoldable pub by_entity {ℓ} : {R : Type ℓ} → Option Entity → (Entity → R) → R → R
by_entity (some e) marked plain = marked e
by_entity none marked plain = plain

-- `class_of` gives the class of a name, and `clock k` the time at the k-th edge of the extraction.
module _ (nx : MultiDiGraph Node FactEdge) (host : Host) (class_of : String → Class) (clock : ℕ → ℕ)
    (event_id : EventId) (tool : String) where
  -- The bookkeeping of `_emit_one` once the edge is in the graph.
  unfoldable pub note_target : Bool → NodeId → Option Node → Walk nx.Graph → Walk nx.Graph
  note_target was_new i (some (fact f)) w =
      if was_new
      then record w { new_facts = w.new_facts ++ i ∷ [] }
      else if contains i w.seen_linked
      then w
      else record w { seen_linked = add i w.seen_linked; linked_facts = w.linked_facts ++ i ∷ [] }
  note_target was_new i n w = w

  unfoldable pub emit_target :
      String → String → Option NodeId → Bool → Walk nx.Graph → Result (Walk nx.Graph)
  unfolding note_target
  emit_target edge_type description none was_new w = ok w
  emit_target edge_type description (some i) was_new w =
      let edge : FactEdge = record {
        event_id = event_id;
        target_id = i;
        edge_type = edge_type;
        description = description;
      } in
      let w' : Walk nx.Graph = record w {
        graph = add_edge nx edge w.graph;
        new_edges = w.new_edges ++ edge ∷ [];
      } in
      lookup nx i w'.graph >>= λ n. ok (note_target was_new i n w')

  unfoldable pub emit_one :
      Entity → String → String → Value → Walk nx.Graph → Result (Walk nx.Graph)
  unfolding emit_target
  emit_one entity edge_type description value w =
      upsert_fact nx host (clock (length w.new_edges)) entity event_id tool value w.graph >>= λ u.
      emit_target edge_type description u.target u.was_new
        (record w { graph = u.graph; warnings = w.warnings ++ u.warned })

  -- Rule 3: every element of a list is a value of its own.
  unfoldable pub emit_items :
      Entity → String → String → Values → Walk nx.Graph → Result (Walk nx.Graph)
  emit_items entity edge_type description nil w = ok w
  emit_items entity edge_type description (cons value vs) w =
      if is_container value
      then raise extraction_error
      else (emit_one entity edge_type description value w >>= λ w'.
          emit_items entity edge_type description vs w')

  -- Rule 1 for a primitive; without an entity it is left to `event_properties`.
  unfoldable pub walk_primitive : Class → String → Value → Walk nx.Graph → Result (Walk nx.Graph)
  unfolding by_entity
  walk_primitive cls name value w =
      by_entity (field_entity (info_of cls name))
        (λ e. emit_one e (edge_type_of cls name) (description_of (info_of cls name)) value w) (ok w)

  unfoldable mutual
    unfolding emit_items walk_primitive

    pub walk : Class → Attrs → Walk nx.Graph → Result (Walk nx.Graph)
    walk cls end w = ok w
    walk cls (attr name value rest) w = walk_field cls name value w >>= λ w'. walk cls rest w'

    -- One field: rules 1 to 5 by the value and the field's entity.
    pub walk_field : Class → String → Value → Walk nx.Graph → Result (Walk nx.Graph)
    walk_field cls name null w = ok w
    walk_field cls name (list vs) w =
        by_entity (field_entity (info_of cls name))
          (λ e. emit_items e (edge_type_of cls name) (description_of (info_of cls name)) vs w)
          (walk_items vs w)
    walk_field cls name (model c fields) w =
        by_entity (field_entity (info_of cls name))
          (λ e.
            emit_one e (edge_type_of cls name) (description_of (info_of cls name)) (model c fields)
              w)
          (walk (class_of c) fields w)
    walk_field cls name (dict d) w =
        by_entity (field_entity (info_of cls name)) (λ e. raise extraction_error) (ok w)
    walk_field cls name (tuple vs) w =
        by_entity (field_entity (info_of cls name)) (λ e. raise extraction_error) (ok w)
    walk_field cls name value w = walk_primitive cls name value w

    -- Rule 4 for a list: models are walked, and plain primitives are ignored.
    pub walk_items : Values → Walk nx.Graph → Result (Walk nx.Graph)
    walk_items nil w = ok w
    walk_items (cons (model c fields) vs) w = walk (class_of c) fields w >>= λ w'. walk_items vs w'
    walk_items (cons (dict d) vs) w = raise extraction_error
    walk_items (cons (list xs) vs) w = raise extraction_error
    walk_items (cons (tuple xs) vs) w = raise extraction_error
    walk_items (cons value vs) w = walk_items vs w

  unfoldable pub extract : String → Attrs → FactGraph nx.Graph → Result (Walk nx.Graph)
  unfolding walk
  extract c fields graph = walk (class_of c) fields (start graph)

-- The fields that go on the event: no entity, not `None`, and no container.
unfoldable pub event_properties : Class → Attrs → List (String × Value)
unfolding info_of is_container
event_properties cls end = []
event_properties cls (attr name null rest) = event_properties cls rest
event_properties cls (attr name value rest) =
    let others = event_properties cls rest in
    elim (field_entity (info_of cls name)) [
      | some e ↦ others
      | none ↦ if is_container value then others else (name, value) ∷ others
    ]
