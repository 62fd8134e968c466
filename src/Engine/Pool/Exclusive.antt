-- ===== src/Engine/Pool/Exclusive.antt =====
-- Each guard of a pool has an instance of its own (engine/pool.rs, `acquire` and the drop of a
-- `PoolGuard`), under every interleaving of the callers' steps.
use app_cortex_stt.Common.{
  ℕ, zero, suc, ◌+◌, ◌≡◌, ◌≤◌, ◌<◌, refl, ap, List, [], ◌∷◌, ◌++◌, Option, some, Text, length,
  if◌then◌else◌, ◌==◌, ltb, arith, ℕ-cases, List-cases, Option-cases, inl, inr,
}
use app_cortex_stt.Engine.Pool.{
  ModelPool, range, build, new, take_permit, take_index, return_index, return_permit, remove_first,
  Shared, Step, takes_permit, takes_index, drops, frees_permit, step, run, idle,
}

unfoldable pub count : ℕ → List ℕ → ℕ
count i [] = 0
count i (j ∷ js) = let rest = count i js in if j == i then suc rest else rest

count-append : (i : ℕ) (xs ys : List ℕ) → count i (xs ++ ys) ≡ count i xs + count i ys
unfolding count
count-append i [] ys = omega arith
count-append i (x ∷ xs) ys = ground (arith, count-append i xs ys)

length-append : (xs ys : List ℕ) → length (xs ++ ys) ≡ length xs + length ys
length-append [] ys = omega arith
length-append (x ∷ xs) ys = ground (arith, length-append xs ys)

count-remove_first :
    (i j : ℕ) (xs left : List ℕ)
    → remove_first i xs ≡ some left
    → count j xs ≡ count j left + count j (i ∷ [])
unfolding count remove_first
count-remove_first i j [] left h = cc
count-remove_first i j (x ∷ xs) left h = elim (Option-cases (remove_first i xs)) [
  | inl absent ↦ ground arith
  | inr (rest, e) ↦ ground (arith, count-remove_first i j xs rest e)
]

length-range : (start n : ℕ) → length (range start n) ≡ n
unfolding range
length-range start zero = refl
length-range start (suc n) = ground (arith, length-range (suc start) n)

abbrev owners : ℕ → ℕ → ℕ → ℕ
owners start n i = if ltb i start then 0 else if ltb i (start + n) then 1 else 0

count-range : (start n i : ℕ) → count i (range start n) ≡ owners start n i
unfolding count range
count-range start zero i = ground arith
count-range start (suc n) i = ground (arith, count-range (suc start) n i)

module _ {E : Type 0} where
  -- Each index below `size` is free once or held once; and the free indices are as many as the
  -- permits that are free, or taken without an index, or to be given back.
  pub record Inv (size : ℕ) (s : Shared E) : Type 0 where
    pub owner :
        (i : ℕ) → count i s.pool.free_indices + count i s.held ≡ (if ltb i size then 1 else 0)
    pub slots : length s.pool.free_indices ≡ s.pool.permits + s.taking + s.returning

  step_takes_permit :
      (size : ℕ) (s : Shared E)
      → Inv size s
      → (s' : Shared E) × (step s takes_permit ≡ some s') × Inv size s'
  unfolding step take_permit
  step_takes_permit size s v = elim (ℕ-cases s.pool.permits) [
    | inl e ↦ (s, ground arith, v)
    | inr (n, e) ↦ (
      record s { pool = record s.pool { permits = n }; taking = suc s.taking },
      rw (e, step) refl,
      record { owner = v.owner; slots = omega (arith, v.slots, e) },
    )
  ]

  step_takes_index :
      (size : ℕ) (s : Shared E)
      → Inv size s
      → (s' : Shared E) × (step s takes_index ≡ some s') × Inv size s'
  unfolding step take_index count
  step_takes_index size s v = elim (ℕ-cases s.taking) [
    | inl e ↦ (s, ground arith, v)
    | inr (n, e) ↦ elim (List-cases s.pool.free_indices) [
      | inl empty ↦ elim (starved v e empty) [ ]
      | inr (i, rest, front) ↦ (
        record s { pool = record s.pool { free_indices = rest }; taking = n; held = i ∷ s.held },
        rw (e, front, step) refl,
        record {
          owner = λ j. ground (arith, v.owner j, ap (count j) front);
          slots = omega (arith, v.slots, e, ap length front);
        },
      )
    ]
  ]
    where
      starved : Inv size s → {n : ℕ} → s.taking ≡ suc n → s.pool.free_indices ≡ [] → ⊥
      starved v e empty = omega (arith, v.slots, e, ap length empty)

  step_drops :
      (size : ℕ) (s : Shared E) (i : ℕ)
      → Inv size s
      → (s' : Shared E) × (step s (drops i) ≡ some s') × Inv size s'
  unfolding step return_index
  step_drops size s i v = elim (Option-cases (remove_first i s.held)) [
    | inl absent ↦ (s, rw (absent, step) refl, v)
    | inr (left, e) ↦ (
      record s { pool = return_index i s.pool; held = left; returning = suc s.returning },
      rw (e, step) refl,
      record {
        owner = λ j. omega (
          arith,
          v.owner j,
          count-append j s.pool.free_indices (i ∷ []),
          count-remove_first i j s.held left e,
        );
        slots = omega (arith, v.slots, length-append s.pool.free_indices (i ∷ []));
      },
    )
  ]

  step_frees_permit :
      (size : ℕ) (s : Shared E)
      → Inv size s
      → (s' : Shared E) × (step s frees_permit ≡ some s') × Inv size s'
  unfolding step return_permit
  step_frees_permit size s v = elim (ℕ-cases s.returning) [
    | inl e ↦ (s, ground arith, v)
    | inr (n, e) ↦ (
      record s { pool = return_permit s.pool; returning = n },
      rw (e, step) refl,
      record { owner = v.owner; slots = omega (arith, v.slots, e) },
    )
  ]

  step-Inv :
      (size : ℕ) (s : Shared E) (x : Step)
      → Inv size s
      → (s' : Shared E) × (step s x ≡ some s') × Inv size s'
  step-Inv size s takes_permit v = step_takes_permit size s v
  step-Inv size s takes_index v = step_takes_index size s v
  step-Inv size s (drops j) v = step_drops size s j v
  step-Inv size s frees_permit v = step_frees_permit size s v

  run-Inv :
      (size : ℕ) (s : Shared E) (rest : List Step)
      → Inv size s
      → (s' : Shared E) × (run s rest ≡ some s') × Inv size s'
  unfolding run
  run-Inv size s [] v = (s, refl, v)
  run-Inv size s (x ∷ rest) v =
      let (s', e, v') = step-Inv size s x v in
      let (s'', e', v'') = run-Inv size s' rest v' in (s'', rw (e, run) e', v'')

  idle-Inv :
      (factory : ℕ → Option E) (size : ℕ) (model_id : Text) (p : ModelPool E)
      → new factory size model_id ≡ some p
      → Inv size (idle p)
  unfolding new count
  idle-Inv factory size model_id p made = elim (Option-cases (build factory 0 size)) [
    | inl lost ↦ ground arith
    | inr (engines, built) ↦ record {
      owner = λ i. ground (arith, count-range 0 size i);
      slots = ground (arith, length-range 0 size);
    }
  ]

  -- No index is held by two guards; a held index is below the pool's size and is not free.
  pub record Exclusive (size : ℕ) (s : Shared E) : Type 0 where
    pub once : (i : ℕ) → count i s.held ≤ 1
    pub in_range : (i : ℕ) → 1 ≤ count i s.held → i < size
    pub taken : (i : ℕ) → 1 ≤ count i s.held → count i s.pool.free_indices ≡ 0

  Exclusive-of_Inv : (size : ℕ) (s : Shared E) → Inv size s → Exclusive size s
  Exclusive-of_Inv size s v = record {
    once = λ i. ground (arith, v.owner i);
    in_range = λ i h. ground (arith, v.owner i);
    taken = λ i h. ground (arith, v.owner i);
  }

  -- From a new pool on, under every interleaving of the callers' steps, the pop of the free list
  -- never panics, so that the run goes on; no index is held by two guards; and a held index is
  -- below the pool's size and is not free.
  pub run-new-Exclusive :
      (factory : ℕ → Option E) (size : ℕ) (model_id : Text) (p : ModelPool E) (rest : List Step)
      → new factory size model_id ≡ some p
      → (s : Shared E) × (run (idle p) rest ≡ some s) × Exclusive size s
  run-new-Exclusive factory size model_id p rest made =
      let (s, e, v) = run-Inv size (idle p) rest (idle-Inv factory size model_id p made) in
      (s, e, Exclusive-of_Inv size s v)
