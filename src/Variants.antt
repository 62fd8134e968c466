-- ===== src/Variants.antt =====
-- The identity of an installed Variant (cortex-stt/src/model/installed.rs, `VariantKey`).
pub mod Keys
mod Tests
use app_cortex_stt.Common.{ℕ_discrete, Text, Option, none, some, ◌∷◌, ◌++◌, split_once}

pub record VariantKey : Type 0 where
  pub model : Text
  pub quant : Option Text

unfoldable pub variant_dec : Discrete VariantKey
variant_dec = hlevel ℕ_discrete

-- A key as a request names it: `model:quant`, or a bare model.
unfoldable pub parse : Text → VariantKey
unfolding split_once
parse key = elim (split_once b':' key) [
  | none ↦ record { model = key; quant = none }
  | some (model, quant) ↦ record { model = model; quant = some quant }
]

unfoldable pub as_key : VariantKey → Text
as_key v = elim v.quant [ none ↦ v.model | some q ↦ v.model ++ b':' ∷ q ]
