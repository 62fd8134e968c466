-- ===== src/Variants/Tests.antt =====
-- The theorems about Variant keys at a concrete key (installed.rs).
use app_cortex_stt.Common.{ℕ_discrete, ite, true, false, some, [], ◌∷◌, ◌≡◌, refl, contains}
use app_cortex_stt.Variants.{variant_dec, VariantKey, parse, as_key}
use app_cortex_stt.Variants.Keys.{IsNamed, parse-as_key}

-- `w:q:8`, of the model `w` at the quant `q:8`.
abbrev colon_quant : VariantKey
colon_quant = record { model = b'w' ∷ []; quant = some (b'q' ∷ b':' ∷ b'8' ∷ []) }

colon_quant-IsNamed : IsNamed colon_quant
unfolding contains
colon_quant-IsNamed = refl

colon_quant_key : as_key colon_quant ≡ b'w' ∷ b':' ∷ b'q' ∷ b':' ∷ b'8' ∷ []
unfolding as_key
colon_quant_key = refl

parse-as_key_example : parse (as_key colon_quant) ≡ colon_quant
parse-as_key_example = parse-as_key colon_quant colon_quant-IsNamed

same_variant : ite (variant_dec colon_quant colon_quant) true false ≡ true
unfolding variant_dec ℕ_discrete
same_variant = refl
