-- ===== src/Range/Decimal.antt =====
-- Printing a number and reading it back (api/range.rs, `format!` and `str::parse::<u64>`).
use app_cortex_stt.Common.{
  ℕ, zero, suc, ◌+◌, ◌-◌, ◌*◌, ◌/◌, ◌%◌, ◌≡◌, ◌≢◌, ◌≤◌, ◌<◌, refl, ap, ◌∙◌, true, [], ◌∷◌, ◌++◌,
  some, Text, ltb, arith, ltb-false→le, Bool-cases, inl, inr,
}
use app_cortex_stt.Range.{u64_mod, is_digit, digits_from, parse_u64, decimal_on, decimal}

-- The value of a digit string after `acc`, without a bound.
value : ℕ → Text → ℕ
value acc [] = acc
value acc (c ∷ s) = value (acc * 10 + (c - b'0')) s

abbrev pub AllDigits : Text → Type 0
AllDigits [] = Unit
AllDigits (c ∷ s) = (is_digit c ≡ true) × AllDigits s

AllDigits-append : (s t : Text) → AllDigits s → AllDigits t → AllDigits (s ++ t)
AllDigits-append [] t a b = b
AllDigits-append (c ∷ s) t a b = (a.0, AllDigits-append s t a.1 b)

value-append : (acc : ℕ) (s t : Text) → value acc (s ++ t) ≡ value (value acc s) t
unfolding value
value-append acc [] t = refl
value-append acc (c ∷ s) t = value-append (acc * 10 + (c - b'0')) s t

value_le : (acc : ℕ) (s : Text) → acc ≤ value acc s
unfolding value
value_le acc [] = omega arith
value_le acc (c ∷ s) = omega (arith, value_le (acc * 10 + (c - b'0')) s)

digits_from-value :
    (acc : ℕ) (s : Text)
    → AllDigits s
    → value acc s < u64_mod
    → digits_from acc s ≡ some (value acc s)
unfolding digits_from value
digits_from-value acc [] d h = refl
digits_from-value acc (c ∷ s) d h =
    ground
      (arith, digits_from-value (acc * 10 + (c - b'0')) s d.1 h, value_le (acc * 10 + (c - b'0')) s)

digit-IsDigit : (n : ℕ) → ltb n 10 ≡ true → is_digit (b'0' + n) ≡ true
digit-IsDigit n h = ground arith

rest_digit : (n : ℕ) → is_digit (b'0' + n % 10) ≡ true
rest_digit n = ground arith

decimal_on-AllDigits : (fuel n : ℕ) → AllDigits (decimal_on fuel n)
unfolding decimal_on
decimal_on-AllDigits zero n = tt
decimal_on-AllDigits (suc fuel) n = elim (Bool-cases (ltb n 10)) [
  | inl small ↦ rw small ((digit-IsDigit n small, tt))
  | inr big ↦ rw big (
      AllDigits-append (decimal_on fuel (n / 10)) ((b'0' + n % 10) ∷ [])
        (decimal_on-AllDigits fuel (n / 10)) (rest_digit n, tt))
]

value-decimal_on : (fuel n : ℕ) → n < fuel → value 0 (decimal_on fuel n) ≡ n
unfolding decimal_on value
value-decimal_on zero n h = omega (arith, h)
value-decimal_on (suc fuel) n h = elim (Bool-cases (ltb n 10)) [
  | inl small ↦ rw small (omega arith)
  | inr big ↦ rw big (
      value-append 0 (decimal_on fuel (n / 10)) ((b'0' + n % 10) ∷ [])
      ∙ omega (arith, value-decimal_on fuel (n / 10) (omega (arith, h, ltb-false→le n 10 big))))
]

pub decimal-AllDigits : (n : ℕ) → AllDigits (decimal n)
unfolding decimal
decimal-AllDigits n = decimal_on-AllDigits (suc n) n

value-decimal : (n : ℕ) → value 0 (decimal n) ≡ n
unfolding decimal
value-decimal n = value-decimal_on (suc n) n (omega arith)

-- A digit string is not empty and has no sign, so that it is read as its digits.
parse_u64-digits :
    (s : Text) → AllDigits s → s ≢ [] → value 0 s < u64_mod → parse_u64 s ≡ some (value 0 s)
unfolding parse_u64
parse_u64-digits [] d ne h = elim (ne refl) [ ]
parse_u64-digits (c ∷ s) d ne h = ground (arith, digits_from-value 0 (c ∷ s) d h)

append-ne-nil : (s : Text) (c : ℕ) → s ++ c ∷ [] ≢ []
append-ne-nil [] c e = cc e
append-ne-nil (d ∷ s) c e = cc e

pub decimal-ne-nil : (n : ℕ) → decimal n ≢ []
unfolding decimal decimal_on
decimal-ne-nil n = elim (Bool-cases (ltb n 10)) [
  | inl small ↦ rw small (λ e. cc e)
  | inr big ↦ rw big (append-ne-nil (decimal_on n (n / 10)) (b'0' + n % 10))
]

-- Every number below 2^64 is read back from its decimal form.
pub parse_u64-decimal : (n : ℕ) → n < u64_mod → parse_u64 (decimal n) ≡ some n
parse_u64-decimal n h =
    parse_u64-digits (decimal n) (decimal-AllDigits n) (decimal-ne-nil n)
      (omega (arith, value-decimal n, h))
    ∙ ap some (value-decimal n)
