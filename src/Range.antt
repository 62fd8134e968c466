-- ===== src/Range.antt =====
-- Byte ranges for the audio endpoints (cortex-stt/src/api/range.rs). Text is its bytes; a header
-- value that is no visible ASCII is given as `none`, like a header that is absent. `usize` has 64
-- bits.
pub mod Decimal
pub mod Bounds
pub mod Forms
mod Tests
use app_cortex_stt.Common.{
  ℕ, zero, suc, ◌+◌, ◌-◌, ◌*◌, ◌/◌, ◌%◌, min, Bool, true, false, ◌&&◌, ◌||◌, List, [], ◌∷◌, ◌++◌,
  Option, none, some, Text, length, take, drop, contains, split_once, if◌then◌else◌, ltb, leb, ◌==◌,
}

pub data Requested : Type 0 where
  whole : Requested
  slice : ℕ → ℕ → Requested
  unsatisfiable : Requested

abbrev pub u64_mod : ℕ
u64_mod = 18446744073709551616

-- White space: tab to carriage return, and the blank.
abbrev pub is_space : ℕ → Bool
is_space c = (leb 9 c && leb c 13) || c == 32

unfoldable pub trim_start : Text → Text
trim_start [] = []
trim_start (c ∷ s) = let rest = trim_start s in if is_space c then rest else c ∷ s

unfoldable pub trim_end : Text → Text
trim_end [] = []
trim_end (c ∷ s) = elim (trim_end s) [ [] ↦ if is_space c then [] else c ∷ [] | d ∷ t ↦ c ∷ d ∷ t ]

unfoldable pub trim : Text → Text
unfolding trim_start trim_end
trim s = trim_end (trim_start s)

unfoldable pub strip_prefix : Text → Text → Option Text
strip_prefix [] s = some s
strip_prefix (c ∷ p) [] = none
strip_prefix (c ∷ p) (d ∷ s) = let rest = strip_prefix p s in if c == d then rest else none

abbrev pub is_digit : ℕ → Bool
is_digit c = leb b'0' c && leb c b'9'

-- `str::parse::<u64>`: digits, at least one, after an optional `+`, of a value that fits.
unfoldable pub digits_from : ℕ → Text → Option ℕ
digits_from acc [] = some acc
digits_from acc (c ∷ s) =
    let rest = digits_from (acc * 10 + (c - b'0')) s in
    if is_digit c && ltb (acc * 10 + (c - b'0')) u64_mod then rest else none

unfoldable pub parse_u64 : Text → Option ℕ
unfolding digits_from
parse_u64 [] = none
parse_u64 (c ∷ s) =
    if c == b'+'
    then elim s [ [] ↦ none | d ∷ t ↦ digits_from 0 (d ∷ t) ]
    else digits_from 0 (c ∷ s)

-- The last check: an empty or an unreachable interval.
unfoldable pub checked : ℕ → ℕ → ℕ → Requested
checked total start end =
    if ltb end start || leb total start then unsatisfiable else slice start end

-- The interval that the texts around the `-` stand for; `total` is not 0.
unfoldable pub interval : Text → Text → ℕ → Requested
unfolding parse_u64 checked
interval [] [] total = whole
interval [] (c ∷ n) total = elim (parse_u64 (c ∷ n)) [
  | none ↦ unsatisfiable
  | some k ↦ if ltb 0 k then checked total (total - k) (total - 1) else unsatisfiable
]
interval (c ∷ s) [] total = elim (parse_u64 (c ∷ s)) [
  | none ↦ unsatisfiable
  | some start ↦ checked total start (total - 1)
]
interval (c ∷ s) (d ∷ e) total = elim (parse_u64 (c ∷ s)) [
  | none ↦ unsatisfiable
  | some start ↦ elim (parse_u64 (d ∷ e)) [
    | none ↦ unsatisfiable
    | some end ↦ checked total start (min end (total - 1))
  ]
]

abbrev pub bytes_prefix : Text
bytes_prefix = b'b' ∷ b'y' ∷ b't' ∷ b'e' ∷ b's' ∷ b'=' ∷ []

unfoldable pub parse_spec : Text → ℕ → Requested
unfolding interval trim contains split_once
parse_spec spec total =
    if contains b',' spec || total == 0 then whole else elim (split_once b'-' spec) [
      | none ↦ whole
      | some (from, to) ↦ interval (trim from) (trim to) total
    ]

unfoldable pub parse : Option Text → ℕ → Requested
unfolding parse_spec strip_prefix trim
parse none total = whole
parse (some raw) total = elim (strip_prefix bytes_prefix (trim raw)) [
  | none ↦ whole
  | some spec ↦ parse_spec spec total
]

-- A number in decimal, on fuel: as many digits as the number itself are more than enough.
unfoldable pub decimal_on : ℕ → ℕ → Text
decimal_on zero n = []
decimal_on (suc fuel) n =
    let higher = decimal_on fuel (n / 10) in
    if ltb n 10 then (b'0' + n) ∷ [] else higher ++ (b'0' + n % 10) ∷ []

unfoldable pub decimal : ℕ → Text
unfolding decimal_on
decimal n = decimal_on (suc n) n

pub record Response : Type 0 where
  pub status : ℕ
  pub content_range : Option Text
  pub body : List ℕ

-- `bytes[start..=end]`; `none` stands for the panic of an interval out of bounds.
unfoldable pub get_slice : List ℕ → ℕ → ℕ → Option (List ℕ)
get_slice bytes start end =
    if leb start (suc end) && ltb end (length bytes)
    then some (take (suc end - start) (drop start bytes))
    else none

abbrev pub content_range_of : ℕ → ℕ → ℕ → Text
content_range_of start end total =
    b'b' ∷ b'y' ∷ b't' ∷ b'e' ∷ b's' ∷ b' ' ∷ decimal start
    ++ b'-' ∷ decimal end
    ++ b'/' ∷ decimal total

abbrev pub content_range_none : ℕ → Text
content_range_none total = b'b' ∷ b'y' ∷ b't' ∷ b'e' ∷ b's' ∷ b' ' ∷ b'*' ∷ b'/' ∷ decimal total

-- The response; every one also says `Accept-Ranges: bytes`.
unfoldable pub audio_response : Option Text → List ℕ → Option Response
unfolding parse get_slice decimal
audio_response header bytes = elim (parse header (length bytes)) [
  | whole ↦ some (record { status = 200; content_range = none; body = bytes })
  | slice start end ↦ elim (get_slice bytes start end) [
    | none ↦ none
    | some part ↦ some (record {
      status = 206;
      content_range = some (content_range_of start end (length bytes));
      body = part;
    })
  ]
  | unsatisfiable ↦
      some (record {
        status = 416;
        content_range = some (content_range_none (length bytes));
        body = [];
      })
]
