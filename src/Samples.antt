-- ===== src/Samples.antt =====
-- Small inputs for the tests: one entity type, one class of results, and identifiers that fit them.
pub mod Extraction
pub mod Ingest
pub mod Exploration
pub mod Backend
pub mod Stores
pub mod Deltas
pub mod Snapshots
pub mod Sessions
pub mod Logs
pub mod Queries
pub mod Scores
pub mod Answers
pub mod Paths
use Prim.Native.String.{◌++◌ as str_append}
use text.Mathlib.Text.{starts_with}
use text.Mathlib.TextPositions.{starts_with-append}
use text.Mathlib.TextLemmas.{append_cancel_left}
use agent_pinboard.Prelude.{
  ℕ, String, ◌≡◌, ◌≢◌, refl, sym, ap, ◌∙◌, none, some, List, [], ◌∷◌, true, subst,
}
use agent_pinboard.Value.{Value, string, null, Attrs, end, attr}
use agent_pinboard.Models.{Entity, FactEdge, Node, fact_node_id}
use agent_pinboard.Models.Host.{Host}
use agent_pinboard.Networkx.{MultiDiGraph}
use agent_pinboard.Networkx.Assoc.{assoc_graph}
use agent_pinboard.Fields.{Class, FieldInfo, mapping, absent, entry, meta_key}
use agent_pinboard.Graph.Invariant.{Ids}

abbrev pub lists : MultiDiGraph Node FactEdge
unfolding assoc_graph
lists = assoc_graph Node FactEdge

abbrev str : Value → String
str (string s) = s
str _ = "?"

abbrev pub host : Host
host = record { str = str; repr = str; digest = λ s. s }

abbrev pub ip : Entity
ip = record { name = "IP"; description = "an address"; normalizer = none }

abbrev pub finding : Class
finding = record {
  name = "Finding";
  mro = ("Finding", "note" ∷ []) ∷ ("Base", "src" ∷ "dst" ∷ []) ∷ [];
  model_fields =
      (
        "src",
        record {
          description = some "source";
          json_schema_extra = mapping ((meta_key, entry (some ip)) ∷ []);
        },
      )
      ∷ (
        "dst",
        record {
          description = none;
          json_schema_extra = mapping ((meta_key, entry (some ip)) ∷ []);
        },
      )
      ∷ ("note", record { description = none; json_schema_extra = absent })
      ∷ [];
}

abbrev pub class_of : String → Class
class_of _ = finding

abbrev pub clock : ℕ → ℕ
clock n = n

abbrev pub row : Attrs
row = attr "src" (string "8.8.8.8") (attr "dst" (string "8.8.8.8") (attr "note" (string "dns") end))

abbrev pub IsIp : String → String → Type 0
IsIp t c = t ≡ "IP"

abbrev pub IsEvent : String → Type 0
IsEvent i = i ≡ "e-1"

pub fact_node_id-injective :
    (t c t' c' : String)
    → IsIp t c
    → IsIp t' c'
    → fact_node_id host.digest t c ≡ fact_node_id host.digest t' c'
    → (t ≡ t') × (c ≡ c')
unfolding fact_node_id
fact_node_id-injective t c t' c' k k' h = (
  k ∙ sym k',
  append_cancel_left "|" c c' (
      append_cancel_left "IP" (str_append "|" c) (str_append "|" c') (
        ap (λ x. str_append x (str_append "|" c)) (sym k)
        ∙ (h ∙ ap (λ x. str_append x (str_append "|" c')) k'))),
)

pub fact_node_id-ne-event :
    (t c i : String) → IsIp t c → IsEvent i → fact_node_id host.digest t c ≢ i
unfolding fact_node_id
fact_node_id-ne-event t c i k e h =
    let same : str_append "IP" (str_append "|" c) ≡ "e-1" =
      ap (λ x. str_append x (str_append "|" c)) (sym k) ∙ (h ∙ e) in
    let bad : starts_with "e-1" "IP" ≡ true =
      subst (λ x. starts_with x "IP" ≡ true) same (starts_with-append "IP" (str_append "|" c)) in
    cc

abbrev pub ids : Ids host
ids = record {
  Key = IsIp;
  Uuid = IsEvent;
  key_injective = fact_node_id-injective;
  key_ne_uuid = fact_node_id-ne-event;
}
