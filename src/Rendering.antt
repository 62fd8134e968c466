-- ===== src/Rendering.antt =====
-- Output rendering (cortex-stt/src/text): the reading of a language tag (text/mod.rs) and the
-- choice of a Chinese script conversion (text/mandarin.rs). Text is its bytes; the conversion
-- itself, which a library builds or fails to build, is a parameter.
pub mod Tags
pub mod Choice
mod Tests
use app_cortex_stt.Common.{
  ℕ, ◌+◌, ◌-◌, Bool, true, false, ◌&&◌, ◌||◌, List, [], ◌∷◌, map, Option, none, some, Text, length,
  filter, if◌then◌else◌, leb, ◌==◌, ite, is_some, text_key,
}

pub record Locale : Type 0 where
  pub base : Text
  pub script : Option Text
  pub region : Option Text

abbrev pub is_separator : ℕ → Bool
is_separator c = c == b'-' || c == b'_'

abbrev pub is_upper : ℕ → Bool
is_upper c = leb b'A' c && leb c b'Z'

abbrev pub is_lower : ℕ → Bool
is_lower c = leb b'a' c && leb c b'z'

abbrev pub is_alphabetic : ℕ → Bool
is_alphabetic c = is_upper c || is_lower c

abbrev pub is_digit : ℕ → Bool
is_digit c = leb b'0' c && leb c b'9'

abbrev pub to_lower : ℕ → ℕ
to_lower c = if is_upper c then c + 32 else c

abbrev pub to_upper : ℕ → ℕ
to_upper c = if is_lower c then c - 32 else c

unfoldable pub all : (ℕ → Bool) → Text → Bool
all p [] = true
all p (c ∷ s) = let rest = all p s in p c && rest

unfoldable pub titlecase : Text → Text
titlecase [] = []
titlecase (c ∷ s) = to_upper c ∷ map to_lower s

-- The parts between the separators, the empty ones included.
unfoldable pub split : Text → List Text
split [] = [] ∷ []
split (c ∷ s) =
    let rest = split s in
    if is_separator c then [] ∷ rest else elim rest [ [] ↦ (c ∷ []) ∷ [] | p ∷ ps ↦ (c ∷ p) ∷ ps ]

abbrev pub is_nonempty : Text → Bool
is_nonempty [] = false
is_nonempty (c ∷ s) = true

abbrev pub is_script : Text → Bool
is_script p = length p == 4 && all is_alphabetic p

abbrev pub is_region : Text → Bool
is_region p = length p == 2 && all is_alphabetic p || length p == 3 && all is_digit p

-- `get_or_insert_with`: the first one stays.
abbrev pub get_or_insert : Option Text → Text → Option Text
get_or_insert none t = some t
get_or_insert (some s) t = some s

-- The loop over the subtags after the base.
unfoldable pub read_subtags : Text → Option Text → Option Text → List Text → Locale
unfolding all titlecase
read_subtags base script region [] = record { base = base; script = script; region = region }
read_subtags base script region (p ∷ ps) =
    if is_script p
    then read_subtags base (get_or_insert script (titlecase p)) region ps
    else read_subtags base script
        (if is_region p then get_or_insert region (map to_upper p) else region) ps

unfoldable pub read_parts : List Text → Locale
unfolding read_subtags
read_parts [] = record { base = []; script = none; region = none }
read_parts (b ∷ ps) = read_subtags (map to_lower b) none none ps

unfoldable pub parse : Text → Locale
unfolding read_parts split
parse tag = read_parts (filter is_nonempty (split tag))

unfoldable pub has_subtags : Locale → Bool
has_subtags l = is_some l.script || is_some l.region

pub data Config : Type 0 where
  s2t s2tw s2hk t2s : Config

abbrev pub text_is : Option Text → Text → Bool
text_is none t = false
text_is (some s) t = ite (text_key.dec_eq s t) true false

abbrev pub letters : ℕ → ℕ → Text
letters a b = a ∷ b ∷ []

abbrev pub lowered : Option Text → Option Text
lowered none = none
lowered (some s) = some (map to_lower s)

-- The region decides, and the script if the region does not.
unfoldable pub select : Locale → Option Config
select l =
    if text_is l.region (letters b'T' b'W')
    then some s2tw
    else if text_is l.region (letters b'H' b'K') || text_is l.region (letters b'M' b'O')
    then some s2hk
    else if text_is l.region (letters b'C' b'N') || text_is l.region (letters b'S' b'G')
    then some t2s
    else if text_is (lowered l.script) (b'h' ∷ b'a' ∷ b'n' ∷ b't' ∷ [])
    then some s2t
    else if text_is (lowered l.script) (b'h' ∷ b'a' ∷ b'n' ∷ b's' ∷ [])
    then some t2s
    else none

-- The rendering of a request; the modules are one, Mandarin, whose list of transforms is empty or
-- a single script conversion.
unfoldable pub for_language : Option Text → Option Config
unfolding parse has_subtags select
for_language none = none
for_language (some tag) =
    if has_subtags (parse tag)
    then if text_is (some (letters b'z' b'h')) (parse tag).base then select (parse tag) else none
    else none

-- `converter` is the library's conversion, `none` if its dictionaries could not be built.
unfoldable pub render : (Config → Option (Text → Text)) → Config → Text → Text
render converter c text = elim (converter c) [ none ↦ text | some convert ↦ convert text ]
