-- ===== src/LayerResult.antt =====
-- `LayerResult` of crates/apohara-sealchain-core/src/artifact.rs: the outcome of one layer.
use apohara_sealchain.Prelude.{String, Bool}

pub record LayerResult : Type 0 where
  pub name : String
  pub ok : Bool
  pub reason : String

abbrev pub layer : String → Bool → String → LayerResult
layer name passed reason = record { name = name; ok = passed; reason = reason }
