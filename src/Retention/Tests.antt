-- ===== src/Retention/Tests.antt =====
-- Runs of the retention policies, and the theorems about them at concrete candidates
-- (retention.rs).
use app_cortex_stt.Common.{
  Memᴰ, leb, ◌-◌, if◌then◌else◌, ℕ, ◌*◌, ◌≡◌, ◌≤◌, ◌<◌, ◌↔◌, refl, List, [], ◌∷◌, ◌++◌, Text, codes,
  Option, none, some, length, drop, filter, arith,
}
use app_cortex_stt.Retention.{
  Candidate, days, count, disk_limit_mb, select_excess_by_size, select_to_delete, limit_bytes,
}
use app_cortex_stt.Retention.Loop.{total, is_sized}
use app_cortex_stt.Retention.Splits.{
  OldestOf, select_excess_by_size-OldestOf, IsPast, select_to_delete-days,
}

-- A reading of texts that takes the first byte for a day.
abbrev by_day : List ℕ → Option ℕ
by_day [] = none
by_day (d ∷ s) = some (d * 86400)

-- A calendar that begins at 0.
abbrev before_now : ℕ → ℕ → Option ℕ
before_now now n = if leb (n * 86400) now then some (now - n * 86400) else none

abbrev candidate : Text → ℕ → Option ℕ → Candidate
candidate id d size = record { id = id; created_at = d ∷ []; size_bytes = size }

abbrev unread : Candidate
unread = record { id = (codes "bad"); created_at = []; size_bytes = none }

abbrev mib : ℕ
mib = 1048576

abbrev recordings : List Candidate
recordings =
    candidate (codes "c") 30 (some (300 * mib))
    ∷ unread
    ∷ candidate (codes "a") 10 (some (300 * mib))
    ∷ candidate (codes "b") 20 (some (300 * mib))
    ∷ []

disk_limit_drops :
    select_to_delete by_day before_now recordings (disk_limit_mb 500) 0
    ≡ some ((codes "a") ∷ (codes "b") ∷ [])
unfolding select_to_delete
disk_limit_drops = refl

count_drops :
    select_to_delete by_day before_now recordings (count 2) 0
    ≡ some ((codes "bad") ∷ (codes "a") ∷ [])
unfolding select_to_delete
count_drops = refl

abbrev day_31 : ℕ
day_31 = 31 * 86400

days_drop :
    select_to_delete by_day before_now recordings (days 7) day_31
    ≡ some ((codes "a") ∷ (codes "b") ∷ [])
unfolding select_to_delete
days_drop = refl

select_excess_by_size-OldestOf_example :
    (o : OldestOf (filter is_sized recordings) (select_excess_by_size recordings 500)) × (total
        o.kept
      ≤ limit_bytes 500)
    × ((m : ℕ) → m < length o.dropped → limit_bytes 500 < total (drop m (o.dropped ++ o.kept)))
unfolding total
select_excess_by_size-OldestOf_example = select_excess_by_size-OldestOf recordings 500 (omega arith)

select_to_delete-days_example :
    (select_to_delete by_day before_now recordings (days 0) day_31 ≡ some [])
    × (out : List Text) × (select_to_delete by_day before_now recordings (days 7) day_31 ≡ some out)
    × ((id : Text)
        → Memᴰ id out
          ↔ ((c : Candidate) × Memᴰ c recordings × (id ≡ c.id) × IsPast by_day 7 day_31 c))
select_to_delete-days_example =
    select_to_delete-days by_day before_now recordings 6 day_31 (24 * 86400) refl refl

-- A policy that reaches back too far panics.
panics : select_to_delete by_day before_now recordings (days 100_000_000) day_31 ≡ none
unfolding select_to_delete
panics = refl
