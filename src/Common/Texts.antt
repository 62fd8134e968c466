-- ===== src/Common/Texts.antt =====
-- Texts as their bytes, with the searches and splits that the program makes.
use Prim.Native.Nat.{ℕ}
use Prim.Native.String.{String}
use Prim.Native.Char.{code}
use mathlib.Core.Path.{◌≡◌, refl}
use mathlib.Core.Logic.{inl, inr, ite}
use mathlib.Core.Bool.{Bool, true, false, ◌&&◌, ◌||◌}
use mathlib.Core.List.{List, [], ◌∷◌, ◌++◌}
use mathlib.Core.Option.{Option, none, some}
use native.Mathlib.Decide.{ℕ_discrete}
use native.Mathlib.Omega.{arith}
use app_cortex_stt.Common.Tests.{◌==◌, leb, if◌then◌else◌, Option-cases}
use app_cortex_stt.Common.Maps.{Key}

abbrev pub Text : Type 0
Text = List ℕ

-- The code points of a text, which are its bytes where it is ASCII.
abbrev pub codes : String → Text
codes String.[] = []
codes (String.◌∷◌ c s) = code c ∷ codes s

text_dec : Discrete Text
unfolding ℕ_discrete
text_dec [] [] = yes refl
text_dec [] (y ∷ t) = no (λ e. cc e)
text_dec (x ∷ s) [] = no (λ e. cc e)
text_dec (x ∷ s) (y ∷ t) = both (ℕ_discrete x y) (text_dec s t)
  where
    both : Dec (x ≡ y) → Dec (s ≡ t) → Dec ((x ∷ s) ≡ (y ∷ t))
    both (yes p) (yes q) = yes (cc (p, q))
    both (yes p) (no q) = no (λ e. q (cc e))
    both (no p) q = no (λ e. p (cc e))

instance unfoldable pub text_key : Key Text
unfolding text_dec
text_key = record { dec_eq = text_dec }

abbrev pub text_eq : Text → Text → Bool
text_eq s t = ite (text_key.dec_eq s t) true false

pub text_eq-true : (s t : Text) → text_eq s t ≡ true → s ≡ t
text_eq-true s t h = elim (text_key.dec_eq s t) [ yes e ↦ e | no d ↦ ground (arith, h) ]

pub text_eq-false : (s t : Text) → text_eq s t ≡ false → ¬ (s ≡ t)
text_eq-false s t h = elim (text_key.dec_eq s t) [ yes e ↦ ground (arith, h) | no d ↦ d ]

pub text_eq_refl : (s : Text) → text_eq s s ≡ true
text_eq_refl s = elim (text_key.dec_eq s s) [ yes e ↦ ground arith | no d ↦ absurd (d refl) ]

unfoldable pub contains : ℕ → Text → Bool
contains c [] = false
contains c (x ∷ s) = x == c || contains c s

-- What stands before and after the first `c`.
unfoldable pub split_once : ℕ → Text → Option (Text × Text)
split_once c [] = none
split_once c (x ∷ s) =
    let rest = split_once c s in
    if x == c
    then some ([], s)
    else elim rest [ none ↦ none | some (before, after) ↦ some (x ∷ before, after) ]

pub split_once-append :
    (c : ℕ) (s t : Text) → contains c s ≡ false → split_once c (s ++ c ∷ t) ≡ some (s, t)
unfolding contains split_once
split_once-append c [] t h = ground arith
split_once-append c (x ∷ s) t h = ground (arith, split_once-append c s t)

pub split_once_absent : (c : ℕ) (s : Text) → contains c s ≡ false → split_once c s ≡ none
unfolding contains split_once
split_once_absent c [] h = refl
split_once_absent c (x ∷ s) h = ground (arith, split_once_absent c s)

-- A split gives the text back.
pub append-split_once :
    (c : ℕ) (s before after : Text)
    → split_once c s ≡ some (before, after)
    → before ++ c ∷ after ≡ s
unfolding split_once
append-split_once c [] before after h = cc
append-split_once c (x ∷ s) before after h = elim (Option-cases (split_once c s)) [
  | inl none_left ↦ ground arith
  | inr (parts, split) ↦ ground (arith, append-split_once c s parts.0 parts.1)
]

pub contains-append : (c : ℕ) (s t : Text) → contains c (s ++ t) ≡ (contains c s || contains c t)
unfolding contains
contains-append c [] t = refl
contains-append c (x ∷ s) t = ground (arith, contains-append c s t)

-- The characters that Unicode calls white space.
unfoldable pub is_whitespace : ℕ → Bool
is_whitespace c =
    (leb 9 c && leb c 13)
    || (c == 32 || c == 0x85 || c == 0xA0 || c == 0x1680)
    || (leb 0x2000 c && leb c 0x200A)
    || (c == 0x2028 || c == 0x2029 || c == 0x202F || c == 0x205F || c == 0x3000)

unfoldable pub trim_start : Text → Text
unfolding is_whitespace
trim_start [] = []
trim_start (c ∷ s) = let rest = trim_start s in if is_whitespace c then rest else c ∷ s

-- A character before a text that is trimmed at its end.
unfoldable pub before_trimmed : ℕ → Text → Text
unfolding is_whitespace
before_trimmed c [] = if is_whitespace c then [] else c ∷ []
before_trimmed c (d ∷ t) = c ∷ d ∷ t

unfoldable pub trim_end : Text → Text
unfolding before_trimmed
trim_end [] = []
trim_end (c ∷ s) = before_trimmed c (trim_end s)

unfoldable pub trim : Text → Text
unfolding trim_start trim_end
trim s = trim_start (trim_end s)
