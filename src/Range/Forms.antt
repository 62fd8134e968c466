-- ===== src/Range/Forms.antt =====
-- The three forms of a range that a media element sends (api/range.rs, `parse`).
use app_cortex_stt.Common.{
  ℕ, ◌-◌, ◌≡◌, ◌≢◌, ◌≤◌, ◌<◌, refl, ap, ◌∙◌, false, ◌||◌, [], ◌∷◌, ◌++◌, none, some, Text, contains,
  contains-append, split_once, split_once-append, if◌then◌else◌, ltb, ◌==◌, arith, min,
}
use app_cortex_stt.Range.{
  Requested, whole, slice, unsatisfiable, checked, interval, parse_spec, parse, strip_prefix,
  bytes_prefix, trim, trim_start, trim_end, is_space, is_digit, parse_u64, decimal, u64_mod,
}
use app_cortex_stt.Range.Decimal.{AllDigits, decimal-AllDigits, decimal-ne-nil, parse_u64-decimal}

abbrev NoSpace : Text → Type 0
NoSpace [] = Unit
NoSpace (c ∷ s) = (is_space c ≡ false) × NoSpace s

NoSpace-append : (s t : Text) → NoSpace s → NoSpace t → NoSpace (s ++ t)
NoSpace-append [] t a b = b
NoSpace-append (c ∷ s) t a b = (a.0, NoSpace-append s t a.1 b)

NoSpace-of_digits : (s : Text) → AllDigits s → NoSpace s
NoSpace-of_digits [] d = tt
NoSpace-of_digits (c ∷ s) d = (ground arith, NoSpace-of_digits s d.1)

trim_end-NoSpace : (s : Text) → NoSpace s → trim_end s ≡ s
unfolding trim_end
trim_end-NoSpace [] h = refl
trim_end-NoSpace (c ∷ []) h = ground arith
trim_end-NoSpace (c ∷ d ∷ s) h = rw (trim_end-NoSpace (d ∷ s) h.1, trim_end) refl

trim-NoSpace : (s : Text) → NoSpace s → trim s ≡ s
unfolding trim trim_start
trim-NoSpace [] h = trim_end-NoSpace [] h
trim-NoSpace (c ∷ s) h = ap trim_end starts ∙ trim_end-NoSpace (c ∷ s) h
  where
    starts : trim_start (c ∷ s) ≡ c ∷ s
    starts = ground arith

contains_of_digits : (c : ℕ) (s : Text) → is_digit c ≡ false → AllDigits s → contains c s ≡ false
unfolding contains
contains_of_digits c [] h d = refl
contains_of_digits c (x ∷ s) h d = ground (arith, contains_of_digits c s h d.1)

parse-trimmed :
    (spec : Text) (total : ℕ)
    → NoSpace spec
    → parse (some (bytes_prefix ++ spec)) total ≡ parse_spec spec total
unfolding parse strip_prefix
parse-trimmed spec total h =
    ap
      (λ t. elim (strip_prefix bytes_prefix t) as (λ o. Requested) [
        | none ↦ whole
        | some s ↦ parse_spec s total
      ])
      (trim-NoSpace (bytes_prefix ++ spec) (NoSpace-append bytes_prefix spec visible h))
  where
    visible : NoSpace bytes_prefix
    visible = (refl, (refl, (refl, (refl, (refl, (refl, tt))))))

parse_spec-digits :
    (from to : Text) (total : ℕ)
    → AllDigits from
    → AllDigits to
    → total ≢ 0
    → parse_spec (from ++ b'-' ∷ to) total ≡ interval from to total
unfolding parse_spec contains
parse_spec-digits from to total df dt ne =
    rw
      (
        single,
        split,
        trim-NoSpace from (NoSpace-of_digits from df),
        trim-NoSpace to (NoSpace-of_digits to dt),
        parse_spec,
      )
      refl
  where
    single : (contains b',' (from ++ b'-' ∷ to) || total == 0) ≡ false
    single = ground (
      arith,
      contains-append b',' from (b'-' ∷ to),
      contains_of_digits b',' from refl df,
      contains_of_digits b',' to refl dt,
      ne,
    )

    split : split_once b'-' (from ++ b'-' ∷ to) ≡ some (from, to)
    split = split_once-append b'-' from to (contains_of_digits b'-' from refl df)

-- What a request for the interval `from-to` is read as.
parse-digits :
    (from to : Text) (total : ℕ)
    → AllDigits from
    → AllDigits to
    → total ≢ 0
    → parse (some (bytes_prefix ++ from ++ b'-' ∷ to)) total ≡ interval from to total
parse-digits from to total df dt ne =
    parse-trimmed (from ++ b'-' ∷ to) total
      (NoSpace-append from (b'-' ∷ to) (NoSpace-of_digits from df) (refl, NoSpace-of_digits to dt))
    ∙ parse_spec-digits from to total df dt ne

checked-slice :
    (total start end : ℕ) → start ≤ end → start < total → checked total start end ≡ slice start end
unfolding checked
checked-slice total start end h h' = ground arith

interval-closed :
    (from to : Text) (total s e : ℕ)
    → from ≢ []
    → to ≢ []
    → parse_u64 from ≡ some s
    → parse_u64 to ≡ some e
    → interval from to total ≡ checked total s (min e (total - 1))
unfolding interval
interval-closed [] to total s e hf ht pf pt = elim (hf refl) [ ]
interval-closed (c ∷ f) [] total s e hf ht pf pt = elim (ht refl) [ ]
interval-closed (c ∷ f) (d ∷ t) total s e hf ht pf pt = rw (pf, pt, interval) refl

interval-open :
    (from : Text) (total s : ℕ)
    → from ≢ []
    → parse_u64 from ≡ some s
    → interval from [] total ≡ checked total s (total - 1)
unfolding interval
interval-open [] total s hf pf = elim (hf refl) [ ]
interval-open (c ∷ f) total s hf pf = rw (pf, interval) refl

interval-suffix :
    (to : Text) (total n : ℕ)
    → to ≢ []
    → parse_u64 to ≡ some n
    → 0 < n
    → interval [] to total ≡ checked total (total - n) (total - 1)
unfolding interval
interval-suffix [] total n ht pt h = elim (ht refl) [ ]
interval-suffix (c ∷ t) total n ht pt h = rw (pt, interval) positive
  where
    positive :
        (if ltb 0 n then checked total (total - n) (total - 1) else unsatisfiable)
        ≡ checked total (total - n) (total - 1)
    positive = ground arith

-- `bytes=s-e`, both in decimal and below 2^64, asks for the bytes from `s` to `e`, or to the
-- last one if `e` lies beyond it, provided that `s` is no greater than `e` and within the file.
pub parse-closed :
    (s e total : ℕ)
    → s ≤ e
    → s < total
    → e < u64_mod
    → parse (some (bytes_prefix ++ decimal s ++ b'-' ∷ decimal e)) total
      ≡ slice s (min e (total - 1))
parse-closed s e total h h' he =
    parse-digits (decimal s) (decimal e) total (decimal-AllDigits s) (decimal-AllDigits e)
      (omega (arith, h'))
    ∙ interval-closed (decimal s) (decimal e) total s e (decimal-ne-nil s) (decimal-ne-nil e)
        (parse_u64-decimal s (omega (arith, h, he))) (parse_u64-decimal e he)
    ∙ checked-slice total s (min e (total - 1)) (omega (arith, h, h')) h'

-- `bytes=s-`, with `s` in decimal, below 2^64 and within the file, asks for the bytes from `s` to
-- the last one.
pub parse-open :
    (s total : ℕ)
    → s < total
    → s < u64_mod
    → parse (some (bytes_prefix ++ decimal s ++ b'-' ∷ [])) total ≡ slice s (total - 1)
parse-open s total h hs =
    parse-digits (decimal s) [] total (decimal-AllDigits s) tt (omega (arith, h))
    ∙ interval-open (decimal s) total s (decimal-ne-nil s) (parse_u64-decimal s hs)
    ∙ checked-slice total s (total - 1) (omega (arith, h)) h

-- `bytes=-n`, with `n` in decimal, not 0 and below 2^64, asks for the last `n` bytes of a file
-- that is not empty, or for all of it if it has fewer.
pub parse-suffix :
    (n total : ℕ)
    → 0 < n
    → n < u64_mod
    → 0 < total
    → parse (some (bytes_prefix ++ b'-' ∷ decimal n)) total ≡ slice (total - n) (total - 1)
parse-suffix n total h hn ht =
    parse-digits [] (decimal n) total tt (decimal-AllDigits n) (omega (arith, ht))
    ∙ interval-suffix (decimal n) total n (decimal-ne-nil n) (parse_u64-decimal n hn) h
    ∙ checked-slice total (total - n) (total - 1) (omega (arith, h, ht)) (omega (arith, h, ht))
