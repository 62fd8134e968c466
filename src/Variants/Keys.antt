-- ===== src/Variants/Keys.antt =====
-- Printing and reading Variant keys (installed.rs, `VariantKey::parse` and `as_key`).
use app_cortex_stt.Common.{
  Text, ◌≡◌, sym, ap, ◌∙◌, false, contains, split_once, split_once-append, split_once_absent,
  append-split_once, arith, Option-cases, inl, inr,
}
use app_cortex_stt.Variants.{VariantKey, parse, as_key}

-- No `:` in the name of the model, as of every catalog model and every Custom model that a scan
-- accepts.
abbrev pub IsNamed : VariantKey → Type 0
IsNamed v = contains b':' v.model ≡ false

-- A key read back is the Variant that it was printed from, if the model's name has no `:`; the
-- quant may have any.
pub parse-as_key : (v : VariantKey) → IsNamed v → parse (as_key v) ≡ v
unfolding parse as_key
parse-as_key v named = elim (Option-cases v.quant) [
  | inl bare ↦ ground (arith, split_once_absent b':' v.model named)
  | inr (q, e) ↦ ground (arith, split_once-append b':' v.model q named)
]

-- Whatever text a request names, the key of what it reads is that text.
pub as_key-parse : (key : Text) → as_key (parse key) ≡ key
unfolding parse as_key
as_key-parse key = elim (Option-cases (split_once b':' key)) [
  | inl bare ↦ ground arith
  | inr (parts, split) ↦ ground (arith, append-split_once b':' key parts.0 parts.1)
]

-- So two Variants of such names have different keys.
pub as_key_injective : (v w : VariantKey) → IsNamed v → IsNamed w → as_key v ≡ as_key w → v ≡ w
as_key_injective v w nv nw e = sym (parse-as_key v nv) ∙ ap parse e ∙ parse-as_key w nw
