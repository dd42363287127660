-- ===== src/Decorator.antt =====
-- agent_pinboard/decorator.py: the ingest of validated items into a graph, the duplicate policy's
-- search of the tool-call log, and the parts of the wrapper that touch no store.
pub mod Listed
pub mod Round
pub mod Recorded
pub mod Payloads
pub mod Duplicates
pub mod Arguments
pub mod Wrapper
pub mod AsyncWrapper
use Prim.Native.String.{◌++◌ as str_append}
use mathlib.Core.List.{reverse}
use text.Mathlib.Text.{starts_with}
use agent_pinboard.Prelude.{
  ℕ, zero, suc, ◌+◌, String, Option, none, some, List, [], ◌∷◌, ◌++◌, Bool, true, false, not, ◌&&◌,
  ◌==◌, if◌then◌else◌, string_eq, contains, add, length,
}
use agent_pinboard.Value.{
  Value, Values, Attrs, null, string, int, other, list, tuple, dict, model, nil, cons,
}
use agent_pinboard.Models.{
  Result, ok, raise, ◌>>=◌, EventId, NodeId, EventNode, FactEdge, Node, event_node_type,
  IngestResult, ToolCallRecord, validation_error,
}
use agent_pinboard.Models.Host.{Host}
use agent_pinboard.Networkx.{MultiDiGraph}
use agent_pinboard.Fields.{Class}
use agent_pinboard.Graph.{FactGraph, add_event}
use agent_pinboard.Extract.{Walk, extract, event_properties}

-- A model instance: its class and its fields.
abbrev pub Item : Type 0
Item = String × Attrs

-- `_Payload`. A node is referred to by its id: the graph has the object.
pub record Payload : Type 0 where
  pub nodes : List NodeId
  pub edges : List FactEdge
  pub new_facts : List NodeId
  pub linked_facts : List NodeId

-- The payload and the counters of `_build_payload`, and the graph that it mutates.
pub record Ingest (G : Type 0) : Type 0 where
  pub graph : FactGraph G
  pub payload : Payload
  pub result : IngestResult

abbrev pub blank : {G : Type 0} → FactGraph G → Ingest G
blank graph = record {
  graph = graph;
  payload = record { nodes = []; edges = []; new_facts = []; linked_facts = [] };
  result = record { event_ids = []; new_nodes = 0; linked_nodes = 0; new_edges = 0; warnings = [] };
}

-- The refresh of `_build_payload`: each touched fact that the payload lacks is appended once.
unfoldable pub refresh : List NodeId → List NodeId → List NodeId → List NodeId
refresh [] refreshed nodes = nodes
refresh (i ∷ touched) refreshed nodes =
    refresh touched (if contains i refreshed then refreshed else add i refreshed)
      (if contains i refreshed then nodes else if contains i nodes then nodes else nodes ++ i ∷ [])

-- `uuid k` and `stamp k` are the id and the time of the k-th event of the call, and `clock k` gives
-- the times at which the facts of its item are seen.
module _ (nx : MultiDiGraph Node FactEdge) (host : Host) (class_of : String → Class)
    (uuid : ℕ → String) (stamp : ℕ → ℕ) (clock : ℕ → ℕ → ℕ) (tool : String) where
  unfoldable pub event_for : ℕ → Item → EventNode
  event_for k (c, fields) = record {
    id = uuid k;
    source_tool = tool;
    timestamp = stamp k;
    properties = event_properties (class_of c) fields;
    node_type = event_node_type;
  }

  -- What the loop of `_build_payload` adds once the item's facts are extracted.
  unfoldable pub record_item : EventNode → Walk nx.Graph → Ingest nx.Graph → Ingest nx.Graph
  record_item e w s = record {
    graph = w.graph;
    payload = record {
      nodes = (s.payload.nodes ++ e.id ∷ []) ++ w.new_facts;
      edges = s.payload.edges ++ w.new_edges;
      new_facts = s.payload.new_facts ++ w.new_facts;
      linked_facts = s.payload.linked_facts ++ w.linked_facts;
    };
    result = record {
      event_ids = s.result.event_ids ++ e.id ∷ [];
      new_nodes = s.result.new_nodes + length w.new_facts;
      linked_nodes = s.result.linked_nodes + length w.linked_facts;
      new_edges = s.result.new_edges + length w.new_edges;
      warnings = s.result.warnings ++ w.warnings;
    };
  }

  -- One round of the loop, for the k-th item.
  unfoldable pub ingest_item : ℕ → Item → Ingest nx.Graph → Result (Ingest nx.Graph)
  unfolding event_for record_item
  ingest_item k item s =
      extract nx host class_of (clock k) (uuid k) tool item.0 item.1
        (add_event nx (event_for k item) s.graph)
      >>= λ w. ok (record_item (event_for k item) w s)

  unfoldable pub ingest_items : ℕ → List Item → Ingest nx.Graph → Result (Ingest nx.Graph)
  unfolding ingest_item
  ingest_items k [] s = ok s
  ingest_items k (item ∷ items) s = ingest_item k item s >>= λ s'. ingest_items (suc k) items s'

  unfoldable pub finish : Ingest nx.Graph → Ingest nx.Graph
  unfolding refresh
  finish s =
      let p = s.payload in
      record s { payload = record p { nodes = refresh (p.new_facts ++ p.linked_facts) [] p.nodes } }

  unfoldable pub build_payload : FactGraph nx.Graph → List Item → Result (Ingest nx.Graph)
  unfolding ingest_items finish
  build_payload graph items = ingest_items 0 items (blank graph) >>= λ s. ok (finish s)

abbrev elements : Values → List Value
elements nil = []
elements (cons v vs) = v ∷ elements vs

-- `as_instance` is the test against the model class and pydantic's `model_validate`.
module _ (as_instance : Value → Option Item) where
  unfoldable pub validate_all : List Value → Result (List Item)
  validate_all [] = ok []
  validate_all (v ∷ vs) = elim (as_instance v) [
    | none ↦ raise validation_error
    | some item ↦ validate_all vs >>= λ items. ok (item ∷ items)
  ]

  -- `many` is the decorator's flag: with it the return has to be a list.
  unfoldable pub validate : Bool → Value → Result (List Item)
  unfolding validate_all
  validate true (list vs) = validate_all (elements vs)
  validate true raw = raise validation_error
  validate false raw = validate_all (raw ∷ [])

-- The record of the log that a call with these arguments repeats.
unfoldable pub repeats : String → String → ToolCallRecord → Bool
repeats tool args r =
    r.tool_name == tool
    && (r.args_repr == args
        && (not (starts_with r.summary "duplicate") && not (starts_with r.summary "error")))

unfoldable pub first_match : String → String → List ToolCallRecord → Option ToolCallRecord
unfolding repeats
first_match tool args [] = none
first_match tool args (r ∷ rs) = if repeats tool args r then some r else first_match tool args rs

unfoldable pub last_matching : String → String → List ToolCallRecord → Option ToolCallRecord
unfolding first_match
last_matching tool args records = first_match tool args (reverse records)

-- `show` prints a number.
unfoldable pub summary : (ℕ → String) → IngestResult → String
summary show r = str_append "+" (
    str_append (show r.new_nodes) (
      str_append " nodes, +" (
        str_append (show r.linked_nodes)
          (str_append " linked, +" (str_append (show r.new_edges) " edges")))))

unfoldable pub first_event : IngestResult → Option EventId
first_event r = elim r.event_ids [ [] ↦ none | i ∷ _ ↦ some i ]
