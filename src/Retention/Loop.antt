-- ===== src/Retention/Loop.antt =====
-- The sums and the loop of the disk limit (retention.rs, `select_excess_by_size`).
use app_cortex_stt.Common.{
  ℕ, zero, suc, ◌+◌, ◌-◌, ◌≡◌, ◌≤◌, ◌<◌, refl, Bool, List, [], ◌∷◌, take, drop, filter, sort_by,
  sort_insert, leb, leb→le, if◌then◌else◌, is_some, arith, Bool-cases, inl, inr,
}
use app_cortex_stt.Retention.{Candidate, size_of, sum_sizes, u64_mod, ids, drop_until}

-- The sum of the sizes, unbounded.
unfoldable pub total : List Candidate → ℕ
total [] = 0
total (c ∷ cs) = size_of c + total cs

pub sum_sizes-total : (cs : List Candidate) → total cs < u64_mod → sum_sizes cs ≡ total cs
unfolding sum_sizes total
sum_sizes-total [] h = refl
sum_sizes-total (c ∷ cs) h = omega (arith, sum_sizes-total cs)

total-sort_insert :
    (le : Candidate → Candidate → Bool) (c : Candidate) (cs : List Candidate)
    → total (sort_insert le c cs) ≡ size_of c + total cs
unfolding total sort_insert
total-sort_insert le c [] = refl
total-sort_insert le c (d ∷ cs) = elim (Bool-cases (le c d)) [
  | inl t ↦ rw t
  | inr f ↦ rw f (omega (arith, total-sort_insert le c cs))
]

pub total-sort_by :
    (le : Candidate → Candidate → Bool) (cs : List Candidate) → total (sort_by le cs) ≡ total cs
unfolding total sort_by
total-sort_by le [] = refl
total-sort_by le (c ∷ cs) =
    omega (arith, total-sort_insert le c (sort_by le cs), total-sort_by le cs)

abbrev pub is_sized : Candidate → Bool
is_sized c = is_some c.size_bytes

pub total-filter_sized : (cs : List Candidate) → total (filter is_sized cs) ≡ total cs
unfolding total
total-filter_sized [] = refl
total-filter_sized (c ∷ cs) = ground (arith, total-filter_sized cs)

-- How many the loop drops.
unfoldable pub dropped_count : ℕ → ℕ → List Candidate → ℕ
dropped_count limit remaining [] = 0
dropped_count limit remaining (c ∷ cs) =
    let rest = dropped_count limit (remaining - size_of c) cs in
    if leb remaining limit then 0 else suc rest

pub drop_until-take :
    (limit remaining : ℕ) (cs : List Candidate)
    → drop_until limit remaining cs ≡ ids (take (dropped_count limit remaining cs) cs)
unfolding drop_until dropped_count
drop_until-take limit remaining [] = refl
drop_until-take limit remaining (c ∷ cs) =
    ground (arith, drop_until-take limit (remaining - size_of c) cs)

add_sub : (a b : ℕ) → a + b - a ≡ b
add_sub a b = omega arith

-- What it leaves is within the limit,
pub total-drop_le :
    (limit : ℕ) (cs : List Candidate) → total (drop (dropped_count limit (total cs) cs) cs) ≤ limit
unfolding dropped_count total
total-drop_le limit [] = omega arith
total-drop_le limit (c ∷ cs) = elim (Bool-cases (leb (size_of c + total cs) limit)) [
  | inl t ↦ rw t (leb→le (size_of c + total cs) limit t)
  | inr f ↦ rw f (rw (add_sub (size_of c) (total cs)) (total-drop_le limit cs))
]

-- and it would not be if one fewer were dropped.
pub lt-total-drop :
    (limit m : ℕ) (cs : List Candidate)
    → m < dropped_count limit (total cs) cs
    → limit < total (drop m cs)
unfolding dropped_count total
lt-total-drop limit m [] h = absurd (omega arith)
lt-total-drop limit zero (c ∷ cs) h = ground arith
lt-total-drop limit (suc m) (c ∷ cs) h =
    ground (arith, add_sub (size_of c) (total cs), lt-total-drop limit m cs)

pub drop_until_fits :
    (limit remaining : ℕ) (cs : List Candidate)
    → remaining ≤ limit
    → drop_until limit remaining cs ≡ []
unfolding drop_until
drop_until_fits limit remaining [] h = refl
drop_until_fits limit remaining (c ∷ cs) h = ground arith
