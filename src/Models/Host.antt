-- ===== src/Models/Host.antt =====
-- What the modelled code takes from the host: `str` and `repr` of a value, and the hash of
-- `fact_node_id`.
use agent_pinboard.Prelude.{String}
use agent_pinboard.Value.{Value}

pub record Host : Type 0 where
  pub str : Value → String
  pub repr : Value → String
  pub digest : String → String
