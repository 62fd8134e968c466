-- ===== src/Rendering/Tests.antt =====
-- Renderings of concrete requests (text/mod.rs, text/mandarin.rs).
use app_cortex_stt.Common.{ℕ, ◌≡◌, refl, [], ◌∷◌, none, some, Text, text_key, ℕ_discrete, ap, arith}
use app_cortex_stt.Rendering.{
  Locale, parse, read_parts, read_subtags, split, all, titlecase, s2tw, select, for_language,
  has_subtags, letters, render,
}
use app_cortex_stt.Rendering.Tags.{IsLocale, print, parse-print}

program : Unit {0}
unfolding parse read_parts read_subtags split all titlecase select for_language has_subtags text_key
    ℕ_discrete render
program = tt

-- `ZH_hant_tw`.
abbrev loud_tag : Text
loud_tag = b'Z' ∷ b'H' ∷ b'_' ∷ b'h' ∷ b'a' ∷ b'n' ∷ b't' ∷ b'_' ∷ b't' ∷ b'w' ∷ []

abbrev taiwan : Locale
taiwan = record {
  base = letters b'z' b'h';
  script = some (b'H' ∷ b'a' ∷ b'n' ∷ b't' ∷ []);
  region = some (letters b'T' b'W');
}

loud : parse loud_tag ≡ taiwan
unfolding program
loud = refl

renders : for_language (some loud_tag) ≡ some s2tw
unfolding program
renders = refl

bare : for_language (some (letters b'z' b'h')) ≡ none
unfolding program
bare = refl

other_region : for_language (some (b'z' ∷ b'h' ∷ b'-' ∷ b'X' ∷ b'X' ∷ [])) ≡ none
unfolding program
other_region = refl

abbrev head_of : Text → ℕ
head_of [] = 0
head_of (c ∷ s) = c

taiwan-IsLocale : IsLocale taiwan
unfolding program
taiwan-IsLocale = record {
  part = ((λ e. omega (arith, ap head_of e)), (refl, (refl, tt)));
  lower = refl;
  script = (refl, refl);
  region = (refl, refl);
}

parse-print_example : parse (print taiwan) ≡ taiwan
parse-print_example = parse-print taiwan taiwan-IsLocale
