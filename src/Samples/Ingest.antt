-- ===== src/Samples/Ingest.antt =====
-- Runs of the decorator's code on small inputs, and its theorems at these.
use Prim.Native.Char.{Char, code}
use Prim.Native.String.{◌∷◌ as str_cons, ◌++◌ as str_append}
use text.Mathlib.TextLemmas.{
  nil≢cons, cons≢nil, head-eq_of_cons-eq, tail-eq_of_cons-eq, cons-append,
}
use agent_pinboard.Prelude.{
  ℕ, zero, suc, String, ◌≡◌, ◌≢◌, refl, sym, ap, ◌∙◌, List, ◌↔◌, ◌++◌, none, some, [], ◌∷◌, put,
  get, contains, add, arith, List, ◌+◌,
}
use agent_pinboard.Models.{ToolCallRecord, Result, ok, raise, fact_node_id, edge_id}
use agent_pinboard.Fields.{field_entity, declaring_class}
use agent_pinboard.Graph.{empty, upsert_fact, add_edge, add_event, lookup}
use agent_pinboard.Graph.Invariant.{Ids, empty-IsIndexed}
use agent_pinboard.Extract.{
  extract, emit_one, info_of, edge_type_of, description_of, event_properties,
}
use agent_pinboard.Decorator.{last_matching, Item, Ingest, blank, build_payload}
use agent_pinboard.Decorator.Payloads.{IsPersistable, build_payload-IsPersistable}
use agent_pinboard.Decorator.Duplicates.{IsLast, last_matching_iff, last_matching-IsIdle}
use agent_pinboard.Samples.{lists, host, class_of, row, IsIp, fact_node_id-injective, str_append}
use agent_pinboard.Samples.Extraction.{entity_named}

abbrev pub uuid : ℕ → String
uuid zero = ""
uuid (suc k) = str_cons "e" (uuid k)

abbrev pub IsUuid : String → Type 0
IsUuid i = (k : ℕ) × (i ≡ uuid k)

pub uuid-injective : (j k : ℕ) → uuid j ≡ uuid k → j ≡ k
uuid-injective zero zero q = refl
uuid-injective zero (suc k) q = absurd (nil≢cons q)
uuid-injective (suc j) zero q = absurd (cons≢nil q)
uuid-injective (suc j) (suc k) q = ap suc (uuid-injective j k (tail-eq_of_cons-eq q))

-- No id of an address is one of these.
pub append-ne-uuid : (x : String) (k : ℕ) → str_append "IP" x ≢ uuid k
append-ne-uuid x zero h = cons≢nil (sym (cons-append "I" "P" x) ∙ h)
append-ne-uuid x (suc k) h =
    let bad : Path Char "I" "e" = head-eq_of_cons-eq (sym (cons-append "I" "P" x) ∙ h) in
    let codes : 73 ≡ 101 = ap code bad in absurd (omega (arith, codes))

pub fact_node_id-ne-uuid : (t c : String) (k : ℕ) → IsIp t c → fact_node_id host.digest t c ≢ uuid k
unfolding fact_node_id
fact_node_id-ne-uuid t c k key h =
    append-ne-uuid (str_append "|" c) k (ap (λ x. str_append x (str_append "|" c)) (sym key) ∙ h)

abbrev pub many_ids : Ids host
many_ids = record {
  Key = IsIp;
  Uuid = IsUuid;
  key_injective = fact_node_id-injective;
  key_ne_uuid = λ t c i key q h. fact_node_id-ne-uuid t c q.0 key (h ∙ q.1);
}

program : Unit {0}
unfolding build_payload empty upsert_fact add_edge add_event lookup extract info_of edge_type_of
    description_of event_properties field_entity declaring_class emit_one get put contains add lists
    fact_node_id edge_id
program = tt

abbrev items : List Item
items = ("Finding", row) ∷ ("Finding", row) ∷ []

abbrev pub stamps : ℕ → ℕ → ℕ
stamps k n = k + n

abbrev ingested : Result (Ingest lists.Graph)
ingested = build_payload lists host class_of uuid (λ k. k) stamps "scan" (empty lists) items

abbrev ingest_of : Result (Ingest lists.Graph) → Ingest lists.Graph
ingest_of (ok s) = s
ingest_of (raise _) = blank (empty lists)

ingested-ok : ingested ≡ ok (ingest_of ingested)
unfolding program
ingested-ok = refl

-- Both events and the address that they share, once.
ingested_nodes : (ingest_of ingested).payload.nodes ≡ "" ∷ "IP|8.8.8.8" ∷ "e" ∷ []
unfolding program
ingested_nodes = refl

build_payload-IsPersistable_example :
    IsPersistable lists many_ids class_of uuid
      (λ k. k)
      stamps
      "scan"
      (empty lists)
      items
      (ingest_of ingested)
unfolding empty
build_payload-IsPersistable_example =
    build_payload-IsPersistable lists many_ids class_of uuid (λ k. k) stamps "scan" (empty lists)
      (λ k. (k, refl)) uuid-injective (λ _ name e h v c _. entity_named name e h) items
      (ingest_of ingested) (empty-IsIndexed lists many_ids)
      (λ j n h. absurd (ground (arith, lists.node-empty (uuid j)))) ingested-ok

abbrev record_of : String → ToolCallRecord
record_of said = record {
  tool_name = "scan";
  args_repr = "{}";
  timestamp = 0;
  event_id = none;
  summary = said;
  duration_ms = 1;
}

abbrev log : List ToolCallRecord
log = record_of "+1 nodes" ∷ record_of "+2 nodes" ∷ record_of "error in hook" ∷ []

last_matching_iff_example :
    (last_matching "scan" "{}" log ≡ some (record_of "+2 nodes"))
    ↔ IsLast "scan" "{}" log (record_of "+2 nodes")
last_matching_iff_example = last_matching_iff "scan" "{}" log (record_of "+2 nodes")

found_in_log : last_matching "scan" "{}" log ≡ some (record_of "+2 nodes")
unfolding last_matching
found_in_log = refl

last_matching-IsIdle_example :
    last_matching "scan" "{}" (log ++ record_of "duplicate of call" ∷ [])
    ≡ last_matching "scan" "{}" log
last_matching-IsIdle_example =
    last_matching-IsIdle "scan" "{}" log (record_of "duplicate of call" ∷ []) (refl, tt)
