-- ===== src/Range/Tests.antt =====
-- Requests for byte ranges, and the theorems about them at concrete files (api/range.rs).
use app_cortex_stt.Common.{
  ℕ, ◌≡◌, refl, List, [], ◌∷◌, ◌++◌, Option, none, some, Text, contains, split_once,
}
use app_cortex_stt.Range.{
  whole, slice, unsatisfiable, parse, bytes_prefix, decimal, audio_response, Response, trim,
  trim_start, trim_end, strip_prefix, parse_u64, digits_from, checked, interval, parse_spec,
  decimal_on, get_slice,
}
use app_cortex_stt.Range.Bounds.{IsAnswer, audio_response-IsAnswer}

program : Unit {0}
unfolding contains split_once parse decimal audio_response trim trim_start trim_end strip_prefix
    parse_u64 digits_from checked interval parse_spec decimal_on get_slice
program = tt

-- `bytes=` and a text.
abbrev bytes_of : Text → Option Text
bytes_of s = some (bytes_prefix ++ s)

no_header : parse none 100 ≡ whole
unfolding program
no_header = refl

clamped : parse (bytes_of (b'9' ∷ b'0' ∷ b'-' ∷ b'9' ∷ b'9' ∷ b'9' ∷ [])) 100 ≡ slice 90 99
unfolding program
clamped = refl

past_the_end : parse (bytes_of (b'1' ∷ b'0' ∷ b'0' ∷ b'-' ∷ [])) 100 ≡ unsatisfiable
unfolding program
past_the_end = refl

several : parse (bytes_of (b'0' ∷ b'-' ∷ b'1' ∷ b',' ∷ b'3' ∷ b'-' ∷ [])) 100 ≡ whole
unfolding program
several = refl

empty_file : parse (bytes_of (b'0' ∷ b'-' ∷ [])) 0 ≡ whole
unfolding program
empty_file = refl

abbrev six : List ℕ
six = 0 ∷ 1 ∷ 2 ∷ 3 ∷ 4 ∷ 5 ∷ []

audio_response-IsAnswer_example :
    (r : Response) × (audio_response (bytes_of (b'2' ∷ b'-' ∷ b'4' ∷ [])) six ≡ some r)
    × IsAnswer six (parse (bytes_of (b'2' ∷ b'-' ∷ b'4' ∷ [])) 6) r
audio_response-IsAnswer_example = audio_response-IsAnswer (bytes_of (b'2' ∷ b'-' ∷ b'4' ∷ [])) six
