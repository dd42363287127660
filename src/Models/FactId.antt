-- ===== src/Models/FactId.antt =====
-- `fact_node_id` of agent_pinboard/models.py: when two keys have one id.
use Prim.Native.String.{◌++◌ as str_append}
use text.Mathlib.TextLemmas.{append_assoc}
use agent_pinboard.Prelude.{String, ◌≡◌, ap, ◌∙◌}
use agent_pinboard.Models.{fact_node_id}

-- A "|" may stand in the type or in the value: both keys below are hashed as one text, whatever
-- the hash, so they share an id.
pub fact_node_id_ambiguous :
    (digest : String → String) (a b c : String)
    → fact_node_id digest (str_append a (str_append "|" b)) c
      ≡ fact_node_id digest a (str_append b (str_append "|" c))
unfolding fact_node_id
fact_node_id_ambiguous digest a b c = ap digest (
    append_assoc a (str_append "|" b) (str_append "|" c)
    ∙ ap (str_append a) (append_assoc "|" b (str_append "|" c)))
