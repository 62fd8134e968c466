-- ===== src/Retention.antt =====
-- The retention policies (cortex-stt/src/retention.rs): which history records to drop. Text is
-- compared by its bytes; a time is a number of seconds, and `none` stands for a panic.
pub mod Order
pub mod Loop
pub mod Splits
mod Tests
use Prim.Native.Nat.{compare, Ordering}
use app_cortex_stt.Common.{
  ℕ, zero, suc, ◌+◌, ◌-◌, ◌*◌, ◌%◌, min, Bool, true, false, List, [], ◌∷◌, map, Text, Option, none,
  some, length, take, filter, sort_by, ltb, leb, if◌then◌else◌, is_some,
}

pub data RetentionPolicy : Type 0 where
  days : ℕ → RetentionPolicy
  count : ℕ → RetentionPolicy
  disk_limit_mb : ℕ → RetentionPolicy
  unlimited : RetentionPolicy

abbrev pub default_policy : RetentionPolicy
default_policy = days 7

pub record Candidate : Type 0 where
  pub id : Text
  pub created_at : List ℕ
  pub size_bytes : Option ℕ

-- Byte order of texts.
unfoldable pub text_le : List ℕ → List ℕ → Bool
text_le [] t = true
text_le (x ∷ s) [] = false
text_le (x ∷ s) (y ∷ t) = elim (compare x y) [
  | Ordering.lt ↦ true
  | Ordering.eq ↦ text_le s t
  | Ordering.gt ↦ false
]

unfoldable pub older_first : Candidate → Candidate → Bool
unfolding text_le
older_first a b = text_le a.created_at b.created_at

abbrev pub u64_mod : ℕ
u64_mod = 18446744073709551616

abbrev pub size_of : Candidate → ℕ
size_of c = elim c.size_bytes [ none ↦ 0 | some n ↦ n ]

-- The sum of the sizes as a `u64`, which wraps.
unfoldable pub sum_sizes : List Candidate → ℕ
sum_sizes [] = 0
sum_sizes (c ∷ cs) = (size_of c + sum_sizes cs) % u64_mod

abbrev pub ids : List Candidate → List Text
ids = map (λ c. c.id)

-- The loop that drops the oldest until what remains is within the limit.
unfoldable pub drop_until : ℕ → ℕ → List Candidate → List Text
drop_until limit remaining [] = []
drop_until limit remaining (c ∷ cs) =
    if leb remaining limit then [] else c.id ∷ drop_until limit (remaining - size_of c) cs

unfoldable pub limit_bytes : ℕ → ℕ
limit_bytes limit_mb = min (limit_mb * 1048576) (u64_mod - 1)

unfoldable pub select_excess_by_size : List Candidate → ℕ → List Text
unfolding older_first sum_sizes drop_until limit_bytes sort_by
select_excess_by_size cs limit_mb =
    let sized = sort_by older_first (filter (λ c. is_some c.size_bytes) cs) in
    let total = sum_sizes sized in
    if leb total (limit_bytes limit_mb) then [] else drop_until (limit_bytes limit_mb) total sized

unfoldable pub select_excess_by_count : List Candidate → ℕ → List Text
unfolding older_first sort_by
select_excess_by_count cs max =
    if leb (length cs) max then [] else ids (take (length cs - max) (sort_by older_first cs))

-- `parse_timestamp` is chrono's reading of a text as a date and time, `minus_days` its subtraction
-- of days from a time, `none` if that panics.
module _ (parse_timestamp : List ℕ → Option ℕ) where
  unfoldable pub is_older : ℕ → Candidate → Bool
  is_older at c = elim (parse_timestamp c.created_at) [ none ↦ false | some ts ↦ ltb ts at ]

module _ (parse_timestamp : List ℕ → Option ℕ) (minus_days : ℕ → ℕ → Option ℕ) where
  unfoldable pub select_older_than_days : List Candidate → ℕ → ℕ → Option (List Text)
  unfolding is_older
  select_older_than_days cs n now = elim (minus_days now n) [
    | none ↦ none
    | some at ↦ some (ids (filter (is_older parse_timestamp at) cs))
  ]

  unfoldable pub select_to_delete : List Candidate → RetentionPolicy → ℕ → Option (List Text)
  unfolding select_older_than_days select_excess_by_count select_excess_by_size
  select_to_delete cs unlimited now = some []
  select_to_delete cs (days zero) now = some []
  select_to_delete cs (days (suc n)) now = select_older_than_days cs (suc n) now
  select_to_delete cs (count max) now = some (select_excess_by_count cs max)
  select_to_delete cs (disk_limit_mb limit) now = some (select_excess_by_size cs limit)
