-- ===== src/Range/Bounds.antt =====
-- A range response stays within the file (api/range.rs, `parse` and `audio_response`).
use app_cortex_stt.Common.{
  ℕ, suc, ◌-◌, ◌≡◌, ◌≢◌, ◌≤◌, ◌<◌, refl, false, ◌||◌, List, [], ◌∷◌, Option, none, some, Text,
  contains, split_once, ltb, ◌==◌, arith, Bool-cases, Option-cases, inl, inr, take, drop, length,
  length-take, length-drop, min,
}
use app_cortex_stt.Range.{
  Requested, whole, slice, unsatisfiable, checked, interval, parse_spec, parse, strip_prefix,
  bytes_prefix, trim, parse_u64, get_slice, audio_response, Response, content_range_of,
  content_range_none,
}

-- A slice that lies within `total` bytes.
abbrev pub IsWithin : ℕ → Requested → Type 0
IsWithin total whole = Unit
IsWithin total (slice start end) = (start ≤ end) × (end < total)
IsWithin total unsatisfiable = Unit

checked-IsWithin : (total start end : ℕ) → end < total → IsWithin total (checked total start end)
unfolding checked
checked-IsWithin total start end h = ground arith

interval-IsWithin :
    (from to : Text) (total : ℕ) → total ≢ 0 → IsWithin total (interval from to total)
unfolding interval
interval-IsWithin [] [] total h = tt
interval-IsWithin [] (c ∷ n) total h = elim (Option-cases (parse_u64 (c ∷ n))) [
  | inl bad ↦ rw (bad, IsWithin) tt
  | inr (k, e) ↦ elim (Bool-cases (ltb 0 k)) [
    | inl some_bytes ↦
        rw (e, some_bytes, IsWithin)
          (checked-IsWithin total (total - k) (total - 1) (omega (arith, h)))
    | inr no_bytes ↦ rw (e, no_bytes, IsWithin) tt
  ]
]
interval-IsWithin (c ∷ s) [] total h = elim (Option-cases (parse_u64 (c ∷ s))) [
  | inl bad ↦ rw (bad, IsWithin) tt
  | inr (start, e) ↦
      rw (e, IsWithin, IsWithin) (checked-IsWithin total start (total - 1) (omega (arith, h)))
]
interval-IsWithin (c ∷ s) (d ∷ t) total h = elim (Option-cases (parse_u64 (c ∷ s))) [
  | inl bad ↦ rw (bad, IsWithin) tt
  | inr (start, e) ↦ elim (Option-cases (parse_u64 (d ∷ t))) [
    | inl bad ↦ rw (e, bad, IsWithin) tt
    | inr (end, e') ↦
        rw (e, e', IsWithin) (checked-IsWithin total start (min end (total - 1)) (omega (arith, h)))
  ]
]

parse_spec-IsWithin : (spec : Text) (total : ℕ) → IsWithin total (parse_spec spec total)
unfolding parse_spec
parse_spec-IsWithin spec total = elim (Bool-cases (contains b',' spec || total == 0)) [
  | inl several ↦ rw several tt
  | inr single ↦ elim (Option-cases (split_once b'-' spec)) [
    | inl no_dash ↦ rw (single, no_dash) tt
    | inr ((from, to), e) ↦
        rw (single, e) (interval-IsWithin (trim from) (trim to) total (not_empty single))
  ]
]
  where
    not_empty : (contains b',' spec || total == 0) ≡ false → total ≢ 0
    not_empty h e = ground (arith, h, e)

-- Whatever the header says, a slice that `parse` asks for is not empty and lies within the file.
pub parse-IsWithin : (header : Option Text) (total : ℕ) → IsWithin total (parse header total)
unfolding parse
parse-IsWithin none total = tt
parse-IsWithin (some raw) total = elim (Option-cases (strip_prefix bytes_prefix (trim raw))) [
  | inl other ↦ rw (other, IsWithin) tt
  | inr (spec, e) ↦ rw (e, IsWithin) (parse_spec-IsWithin spec total)
]

-- What a response says, by what `parse` asks for.
abbrev pub IsAnswer : List ℕ → Requested → Response → Type 0
IsAnswer bytes whole r = (r.status ≡ 200) × (r.content_range ≡ none) × (r.body ≡ bytes)
IsAnswer bytes (slice start end) r =
    (r.status ≡ 206)
    × (r.content_range ≡ some (content_range_of start end (length bytes)))
    × (r.body ≡ take (suc end - start) (drop start bytes))
    × (length r.body ≡ suc end - start)
IsAnswer bytes unsatisfiable r =
    (r.status ≡ 416) × (r.content_range ≡ some (content_range_none (length bytes))) × (r.body ≡ [])

get_slice-some :
    (bytes : List ℕ) (start end : ℕ)
    → start ≤ end
    → end < length bytes
    → get_slice bytes start end ≡ some (take (suc end - start) (drop start bytes))
unfolding get_slice
get_slice-some bytes start end h h' = ground arith

-- The slicing never panics: every request is answered, with the whole file, with exactly the
-- bytes from `start` to `end` of it, as many as the `Content-Range` says, or as unsatisfiable.
pub audio_response-IsAnswer :
    (header : Option Text) (bytes : List ℕ)
    → (r : Response) × (audio_response header bytes ≡ some r)
      × IsAnswer bytes (parse header (length bytes)) r
unfolding audio_response
audio_response-IsAnswer header bytes =
    by_request (parse header (length bytes)) refl (parse-IsWithin header (length bytes))
  where
    by_request :
        (q : Requested)
        → parse header (length bytes) ≡ q
        → IsWithin (length bytes) q
        → (r : Response) × (audio_response header bytes ≡ some r) × IsAnswer bytes q r
    by_request whole e w = (_, rw (e, audio_response) refl, (refl, refl, refl))
    by_request (slice start end) e w = (
      _,
      rw (e, get_slice-some bytes start end w.0 w.1, audio_response) refl,
      (
        refl,
        refl,
        refl,
        omega (arith, length-take (suc end - start) (drop start bytes), length-drop start bytes, w),
      ),
    )
    by_request unsatisfiable e w = (_, rw (e, audio_response) refl, (refl, refl, refl))
