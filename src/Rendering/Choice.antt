-- ===== src/Rendering/Choice.antt =====
-- Which rendering a tag asks for (text/mod.rs, `for_language`, and text/mandarin.rs, `select`).
use app_cortex_stt.Common.{
  ◌≡◌, refl, sym, true, false, Option, none, some, Text, if◌then◌else◌, text_key, arith, Bool-cases,
  inl, inr, ◌↔◌,
}
use app_cortex_stt.Rendering.{
  Locale, parse, has_subtags, Config, text_is, letters, select, for_language,
}

-- A language without a script and a region selects nothing.
select_of_bare :
    (b : Text) (script region : Option Text)
    → has_subtags (record { base = b; script = script; region = region }) ≡ false
    → select (record { base = b; script = script; region = region }) ≡ none
unfolding has_subtags select
select_of_bare b none none h = refl
select_of_bare b none (some r) h = cc
select_of_bare b (some s) region h = cc

text_is-some : (s t : Text) → text_is (some s) t ≡ true → s ≡ t
text_is-some s t h = elim (text_key.dec_eq s t) [ yes e ↦ e | no d ↦ ground (arith, h) ]

-- The rendering of a locale.
abbrev chosen : Locale → Option Config
chosen l =
    if has_subtags l
    then if text_is (some (letters b'z' b'h')) l.base then select l else none
    else none

chosen-asks :
    (l : Locale) (c : Config)
    → chosen l ≡ some c
    → (l.base ≡ letters b'z' b'h') × (select l ≡ some c)
chosen-asks l c h = elim (Bool-cases (has_subtags l)) [
  | inr bare ↦ cc (none_if_bare bare)
  | inl subtags ↦ elim (Bool-cases (text_is (some (letters b'z' b'h')) l.base)) [
    | inl chinese ↦
        (sym (text_is-some (letters b'z' b'h') l.base chinese), ground (arith, h, subtags, chinese))
    | inr other ↦ ground (arith, h, subtags, other)
  ]
]
  where
    none_if_bare : has_subtags l ≡ false → none ≡ some c
    none_if_bare bare = ground (arith, h, bare)

chosen-gives :
    (l : Locale) (c : Config) → l.base ≡ letters b'z' b'h' → select l ≡ some c → chosen l ≡ some c
chosen-gives l c chinese h = elim (Bool-cases (has_subtags l)) [
  | inr bare ↦ cc (select_of_bare l.base l.script l.region bare, h)
  | inl subtags ↦ rw subtags (ground (arith, chinese, h))
]

-- A request is rendered by `c` exactly if its base language is Chinese and its subtags select
-- `c`.
pub for_language-some_iff :
    (tag : Text) (c : Config)
    → (for_language (some tag) ≡ some c)
      ↔ (((parse tag).base ≡ letters b'z' b'h') × (select (parse tag) ≡ some c))
unfolding for_language
for_language-some_iff tag c = (chosen-asks (parse tag) c, λ h. chosen-gives (parse tag) c h.0 h.1)
