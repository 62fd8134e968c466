-- ===== src/Rendering/Tags.antt =====
-- Language tags as their parts (text/mod.rs, `Locale::parse`).
use app_cortex_stt.Common.{
  ◌≡◌, ◌≢◌, refl, ap, ◌∙◌, Bool, true, false, List, [], ◌∷◌, ◌++◌, map, Option, none, some, Text,
  length, filter, arith, Bool-cases, inl, inr, ◌⊎◌,
}
use app_cortex_stt.Rendering.{
  Locale, is_separator, is_alphabetic, is_digit, to_lower, to_upper, all, titlecase, split,
  is_nonempty, is_script, is_region, read_subtags, read_parts, parse,
}

-- A part of a tag: not empty, and without separators.
abbrev NoSeparator : Text → Type 0
NoSeparator [] = Unit
NoSeparator (c ∷ s) = (is_separator c ≡ false) × NoSeparator s

abbrev pub IsPart : Text → Type 0
IsPart s = (s ≢ []) × NoSeparator s

split-part : (s t : Text) → NoSeparator s → split (s ++ b'-' ∷ t) ≡ s ∷ split t
unfolding split
split-part [] t h = refl
split-part (c ∷ s) t h = ground (arith, split-part s t h.1)

split_last : (s : Text) → NoSeparator s → split s ≡ s ∷ []
unfolding split
split_last [] h = refl
split_last (c ∷ s) h = ground (arith, split_last s h.1)

nonempty_of_part : (s : Text) → s ≢ [] → is_nonempty s ≡ true
nonempty_of_part [] h = elim (h refl) [ ]
nonempty_of_part (c ∷ s) h = refl

NoSeparator-of_letters : (s : Text) → all is_alphabetic s ≡ true → NoSeparator s
unfolding all
NoSeparator-of_letters [] h = tt
NoSeparator-of_letters (c ∷ s) h = (ground arith, NoSeparator-of_letters s (ground arith))

NoSeparator-of_digits : (s : Text) → all is_digit s ≡ true → NoSeparator s
unfolding all
NoSeparator-of_digits [] h = tt
NoSeparator-of_digits (c ∷ s) h = (ground arith, NoSeparator-of_digits s (ground arith))

script-IsPart : (s : Text) → is_script s ≡ true → IsPart s
script-IsPart s h = ((λ e. ground (arith, h, ap length e)), NoSeparator-of_letters s (ground arith))

region-IsPart : (s : Text) → is_region s ≡ true → IsPart s
region-IsPart s h =
    ((λ e. ground (arith, h, ap length e)), no_separator (Bool-cases (all is_alphabetic s)))
  where
    no_separator : (all is_alphabetic s ≡ true) ⊎ (all is_alphabetic s ≡ false) → NoSeparator s
    no_separator (inl letters) = NoSeparator-of_letters s letters
    no_separator (inr other) = NoSeparator-of_digits s (ground arith)

script-not-region : (s : Text) → is_region s ≡ true → is_script s ≡ false
script-not-region s h = ground arith

-- A tag as it is written: the base, then the script and the region, each after a `-`.
abbrev pub suffix : Option Text → Text
suffix none = []
suffix (some s) = b'-' ∷ s

abbrev pub print : Locale → Text
print l = l.base ++ (suffix l.script ++ suffix l.region)

abbrev parts : Option Text → List Text
parts none = []
parts (some s) = s ∷ []

abbrev pub IsSubtag : (Text → Bool) → (Text → Text) → Option Text → Type 0
IsSubtag shape form none = Unit
IsSubtag shape form (some s) = (shape s ≡ true) × (form s ≡ s)

-- The subtags have their shapes and are in their usual case: the base in lower case, the script
-- with a capital, the region in upper case.
pub record IsLocale (l : Locale) : Type 0 where
  pub part : IsPart l.base
  pub lower : map to_lower l.base ≡ l.base
  pub script : IsSubtag is_script titlecase l.script
  pub region : IsSubtag is_region (map to_upper) l.region

append_nil : (s : Text) → s ++ [] ≡ s
append_nil [] = refl
append_nil (c ∷ s) = ap (λ t. c ∷ t) (append_nil s)

split-suffix :
    (b : Text) (script region : Option Text)
    → NoSeparator b
    → IsSubtag is_script titlecase script
    → IsSubtag is_region (map to_upper) region
    → split (b ++ (suffix script ++ suffix region)) ≡ b ∷ (parts script ++ parts region)
split-suffix b none none h s r = ap split (append_nil b) ∙ split_last b h
split-suffix b none (some r) h s hr =
    split-part b r h ∙ ap (λ ps. b ∷ ps) (split_last r (region-IsPart r hr.0).1)
split-suffix b (some s) none h hs r =
    ap (λ t. split (b ++ b'-' ∷ t)) (append_nil s)
    ∙ split-part b s h
    ∙ ap (λ ps. b ∷ ps) (split_last s (script-IsPart s hs.0).1)
split-suffix b (some s) (some r) h hs hr =
    split-part b (s ++ b'-' ∷ r) h
    ∙ ap (λ ps. b ∷ ps)
        (split-part s r (script-IsPart s hs.0).1
          ∙ ap (λ ps. s ∷ ps) (split_last r (region-IsPart r hr.0).1))

read_subtags-parts :
    (b : Text) (script region : Option Text)
    → IsPart b
    → map to_lower b ≡ b
    → IsSubtag is_script titlecase script
    → IsSubtag is_region (map to_upper) region
    → read_parts (filter is_nonempty (b ∷ (parts script ++ parts region)))
      ≡ record { base = b; script = script; region = region }
unfolding read_parts read_subtags
read_subtags-parts b none none h low s r =
    rw (nonempty_of_part b h.0) (ap (λ x. record { base = x; script = none; region = none }) low)
read_subtags-parts b none (some r) h low s hr =
    rw
      (
        nonempty_of_part b h.0,
        nonempty_of_part r (region-IsPart r hr.0).0,
        script-not-region r hr.0,
        hr.0,
        hr.1,
        low,
      )
      refl
read_subtags-parts b (some s) none h low hs r =
    rw (nonempty_of_part b h.0, nonempty_of_part s (script-IsPart s hs.0).0, hs.0, hs.1, low) refl
read_subtags-parts b (some s) (some r) h low hs hr =
    rw
      (
        nonempty_of_part b h.0,
        nonempty_of_part s (script-IsPart s hs.0).0,
        nonempty_of_part r (region-IsPart r hr.0).0,
        hs.0,
        hs.1,
        script-not-region r hr.0,
        hr.0,
        hr.1,
        low,
      )
      refl

-- A tag in its usual form is read back as its parts, whichever of script and region it has.
pub parse-print : (l : Locale) → IsLocale l → parse (print l) ≡ l
unfolding parse
parse-print l h =
    ap (λ ps. read_parts (filter is_nonempty ps))
      (split-suffix l.base l.script l.region h.part.1 h.script h.region)
    ∙ read_subtags-parts l.base l.script l.region h.part h.lower h.script h.region
