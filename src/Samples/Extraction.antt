-- ===== src/Samples/Extraction.antt =====
-- Runs of the extraction on small inputs, and its theorems at these.
use agent_pinboard.Prelude.{
  String, ◌≡◌, refl, some, [], ◌∷◌, put, get, string_eq, pair_eq, contains, add, eq_iff, arith,
}
use agent_pinboard.Value.{Attrs, string, tuple, nil, attr, end}
use agent_pinboard.Models.{
  Result, ok, raise, value_error, extraction_error, normalizer_error, Entity, fact_node_id, edge_id,
}
use agent_pinboard.Models.FactId.{fact_node_id_ambiguous}
use agent_pinboard.Fields.{field_entity, declaring_class}
use agent_pinboard.Graph.{Upserted, empty, upsert_fact, add_edge, lookup, canonicalize}
use agent_pinboard.Graph.Invariant.{IsIndexed, empty-IsIndexed}
use agent_pinboard.Graph.Autolink.{IsLinked, upsert_fact_links, upsert_fact_raises}
use agent_pinboard.Extract.{
  Walk, start, extract, emit_one, info_of, edge_type_of, description_of, event_properties,
}
use agent_pinboard.Extract.Sound.{IsSound, extract-IsSound}
use agent_pinboard.Extract.Errors.{IsExpected, extract_raises}
use agent_pinboard.Samples.{lists, host, ip, finding, class_of, clock, row, ids}

program : Unit {0}
unfolding empty upsert_fact add_edge lookup extract info_of edge_type_of description_of
    event_properties field_entity declaring_class emit_one get put contains add lists fact_node_id
    edge_id
program = tt

abbrev ran : Result (Walk lists.Graph)
ran = extract lists host class_of clock "e-1" "scan" "Finding" row (empty lists)

abbrev value_of : Result (Walk lists.Graph) → Walk lists.Graph
value_of (ok w) = w
value_of (raise _) = start (empty lists)

extract_row : (value_of ran).new_facts ≡ "IP|8.8.8.8" ∷ []
unfolding program
extract_row = refl

extract_row_linked : (value_of ran).linked_facts ≡ "IP|8.8.8.8" ∷ []
unfolding program
extract_row_linked = refl

ran-ok : ran ≡ ok (value_of ran)
unfolding program
ran-ok = refl

pub entity_named :
    (name : String) (e : Entity) → field_entity (info_of finding name) ≡ some e → e.name ≡ "IP"
unfolding field_entity info_of get
entity_named name e h = ground (arith, h)

lists-IsIndexed : IsIndexed lists ids (empty lists)
lists-IsIndexed = empty-IsIndexed lists ids

extract-IsSound_example :
    IsSound lists ids class_of clock "e-1" "scan"
      (empty lists)
      (value_of ran).graph
      (value_of ran).new_edges
extract-IsSound_example =
    extract-IsSound lists ids class_of clock "e-1" "scan" "Finding" row (empty lists) (value_of ran)
      lists-IsIndexed (λ _ name e h v c _. entity_named name e h) ran-ok

upsert_fact_links_example :
    (u : Upserted lists.Graph) × (upsert_fact lists host 7 ip "e-1" "scan"
        (string "1.1.1.1")
        (empty lists)
      ≡ ok u)
    × IsLinked lists ids 7 ip "e-1" "scan" (empty lists) "1.1.1.1" u
unfolding canonicalize
upsert_fact_links_example =
    upsert_fact_links lists ids 7 ip "e-1" "scan" (empty lists) (string "1.1.1.1") "1.1.1.1"
      lists-IsIndexed refl (λ e. cc) refl (λ e. cc ((eq_iff "1.1.1.1" "").1 e))

abbrev broken : Entity
broken = record {
  name = "IP";
  description = "always fails";
  normalizer = some (λ _. raise value_error);
}

upsert_fact_raises_example :
    (normalizer_error ≡ normalizer_error)
    × (canonicalize host broken (string "x") ≡ raise normalizer_error)
unfolding upsert_fact
upsert_fact_raises_example =
    upsert_fact_raises lists ids 7 broken "e-1" "scan" (empty lists) (string "x") normalizer_error
      lists-IsIndexed refl

fact_node_id_ambiguous_example : fact_node_id (λ s. s) "A|B" "C" ≡ fact_node_id (λ s. s) "A" "B|C"
fact_node_id_ambiguous_example = fact_node_id_ambiguous (λ s. s) "A" "B" "C"

-- A marked field that has a tuple.
abbrev bad_row : Attrs
bad_row = attr "src" (tuple nil) end

bad_row_raises :
    extract lists host class_of clock "e-1" "scan" "Finding" bad_row (empty lists)
    ≡ raise extraction_error
unfolding program
bad_row_raises = refl

extract_raises_example : IsExpected extraction_error
extract_raises_example =
    extract_raises lists ids class_of clock "e-1" "scan" "Finding" bad_row (empty lists)
      extraction_error lists-IsIndexed (λ _ name e h v c _. entity_named name e h) bad_row_raises
