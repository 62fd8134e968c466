-- ===== src/Jobs/Capacity.antt =====
-- The bounds of a sweep and of an insertion, and the order of eviction (job.rs, `insert` and
-- `sweep_locked`).
use Prim.Native.Nat.{max}
use app_cortex_stt.Common.{
  leb-IsOrder, leb→le, ℕ, suc, ◌+◌, ◌-◌, ◌≡◌, ◌≤◌, refl, ◌∙◌, true, false, [], ◌∷◌, List, String,
  Option, none, some, lookup, remove as map_remove, insert as map_insert, retain, length, take,
  drop, Memᴰ, UniqueKeys, arith, lookup-retain, retain-UniqueKeys, lookup_of_retain,
  lookup_of_remove, length-remove_le, string_key, Bool-cases, inl, inr, ltb, leb, ltb→lt,
  ltb-false→le, leb-false→lt, if◌then◌else◌, sort_by, sort_by-IsSorted, sort_by-UniqueKeys,
  mem-sort_by, mem_take-or_drop, take-le-drop, take-drop_disjoint, mem_of_lookup, subst,
  not_mem_nil,
}
use app_cortex_stt.Jobs.{
  by_creation, Job, Jobs, JobStore, is_terminal, terminal_ids, oldest, evict, capacity_pass,
  is_fresh, sweep_locked, is_expired, make_room, insert,
}
use app_cortex_stt.Jobs.Evict.{
  lookup-evict_listed, terminal_ids-mem, terminal_ids-UniqueKeys, oldest-UniqueKeys, mem_of_oldest,
  length-oldest, length-evict,
}
use app_cortex_stt.Jobs.Sweep.{
  capacity_pass-other, capacity_pass-processing, is_fresh-is_expired, is_expired-is_fresh,
}

module _ {R : Type 0} where
  -- How many jobs are still processing.
  unfoldable pub running : Jobs R → ℕ
  running [] = 0
  running ((id, j) ∷ m) = let rest = running m in if is_terminal j.status then rest else suc rest

  length-running : (m : Jobs R) → running m + length (terminal_ids m) ≡ length m
  unfolding running terminal_ids
  length-running [] = omega arith
  length-running ((id, j) ∷ m) = ground (arith, length-running m)

  capacity_pass-bound :
      (target : ℕ) (m : Jobs R)
      → UniqueKeys m
      → length (capacity_pass target m) ≤ max target (running m)
  unfolding capacity_pass
  capacity_pass-bound target m u = elim (Bool-cases (ltb target (length m))) [
    | inl over ↦ rw over (
        omega (
          arith,
          ltb→lt target (length m) over,
          length-running m,
          length-oldest target m,
          length-evict (oldest target m) m u (oldest-UniqueKeys target m u) (λ id ts listed.
              let (j, found, over, at) = mem_of_oldest target m u listed in (j, found)),
        ))
    | inr fits ↦ rw fits (omega (arith, ltb-false→le target (length m) fits))
  ]

  lookup_of_evict :
      (id : String) (ids : List (String × ℕ)) (m : Jobs R) {j : Job R}
      → lookup id (evict ids m) ≡ some j
      → lookup id m ≡ some j
  unfolding evict
  lookup_of_evict id [] m h = h
  lookup_of_evict id ((k, ts) ∷ ids) m h =
      lookup_of_remove k id m (lookup_of_evict id ids (map_remove k m) h)

  pub lookup_of_capacity_pass :
      (target : ℕ) (m : Jobs R) (id : String) {j : Job R}
      → lookup id (capacity_pass target m) ≡ some j
      → lookup id m ≡ some j
  unfolding capacity_pass
  lookup_of_capacity_pass target m id {j} h =
      ground (arith, lookup_of_evict id (oldest target m) m {j = j})

  capacity_pass-listed :
      (target : ℕ) (m : Jobs R) (id : String) {ts : ℕ}
      → Memᴰ (id, ts) (oldest target m)
      → lookup id (capacity_pass target m) ≡ none
  unfolding capacity_pass oldest
  capacity_pass-listed target m id {ts} listed = elim (Bool-cases (ltb target (length m))) [
    | inl over ↦ rw over (lookup-evict_listed id (oldest target m) m listed)
    | inr fits ↦
        absurd (not_mem_nil (subst (λ n. Memᴰ (id, ts) (take n sorted)) (none_over fits) listed))
  ]
    where
      sorted : List (String × ℕ)
      sorted = sort_by by_creation (terminal_ids m)

      none_over : ltb target (length m) ≡ false → length m - target ≡ 0
      none_over fits = omega (arith, ltb-false→le target (length m) fits)

  module _ (target : ℕ) (m : Jobs R) (u : UniqueKeys m) where
    abbrev by_age : List (String × ℕ)
    by_age = sort_by by_creation (terminal_ids m)

    placed :
        (id : String) (j : Job R)
        → lookup id m ≡ some j
        → is_terminal j.status ≡ true
        → Memᴰ (id, j.created_at) by_age
    placed id j held over =
        mem-sort_by by_creation (terminal_ids m)
          (terminal_ids-mem m j (mem_of_lookup id m held) over)

    -- A terminal job that the pass drops is listed.
    listed_of_dropped :
        (id : String) (j : Job R)
        → lookup id m ≡ some j
        → lookup id (capacity_pass target m) ≡ none
        → Memᴰ (id, j.created_at) (oldest target m)
    unfolding oldest
    listed_of_dropped id j held gone = elim (Bool-cases (is_terminal j.status)) [
      | inl over ↦ elim (mem_take-or_drop (length m - target) by_age (placed id j held over)) [
        | inl early ↦ early
        | inr late ↦ cc (capacity_pass-other target m id (not_listed late))
      ]
      | inr alive ↦ cc (capacity_pass-processing target m id j u held alive)
    ]
      where
        not_listed :
            Memᴰ (id, j.created_at) (drop (length m - target) by_age)
            → (ts : ℕ) → ¬ Memᴰ (id, ts) (oldest target m)
        not_listed late ts early =
            take-drop_disjoint (length m - target) by_age
              (sort_by-UniqueKeys by_creation (terminal_ids m) (terminal_ids-UniqueKeys m u)) early
              late

    -- A terminal job that the pass keeps is not.
    kept_is_late :
        (id : String) (j : Job R)
        → lookup id (capacity_pass target m) ≡ some j
        → is_terminal j.status ≡ true
        → Memᴰ (id, j.created_at) (drop (length m - target) by_age)
    unfolding oldest
    kept_is_late id j kept over =
        let held = lookup_of_capacity_pass target m id kept in
        elim (mem_take-or_drop (length m - target) by_age (placed id j held over)) [
          | inl early ↦ cc (capacity_pass-listed target m id early)
          | inr late ↦ late
        ]

    capacity_pass-oldest_first :
        (id other : String) (j k : Job R)
        → lookup id m ≡ some j
        → lookup id (capacity_pass target m) ≡ none
        → lookup other (capacity_pass target m) ≡ some k
        → is_terminal k.status ≡ true
        → j.created_at ≤ k.created_at
    unfolding oldest
    capacity_pass-oldest_first id other j k held gone kept over = leb→le j.created_at k.created_at (
        take-le-drop by_creation (length m - target) by_age
          (sort_by-IsSorted by_creation (leb-IsOrder (λ e. e.1)) (terminal_ids m))
          (listed_of_dropped id j held gone) (kept_is_late other k kept over))

module _ (from_std : ℕ → Option ℕ) {R : Type 0} where
  running-retain :
      (ttl now : ℕ) (m : Jobs R) → running (retain (is_fresh from_std ttl now) m) ≡ running m
  unfolding running retain is_fresh
  running-retain ttl now [] = refl
  running-retain ttl now ((id, j) ∷ m) = ground (arith, running-retain ttl now m)

  -- After a sweep the store holds at most `target` jobs, or else no more than are processing.
  pub sweep_locked-bound :
      (m : Jobs R) (target ttl now : ℕ)
      → UniqueKeys m
      → length (sweep_locked from_std m target ttl now) ≤ max target (running m)
  unfolding sweep_locked
  sweep_locked-bound m target ttl now u = rw (← running-retain ttl now m) (
      capacity_pass-bound target (retain (is_fresh from_std ttl now) m)
        (retain-UniqueKeys (is_fresh from_std ttl now) m u))

  -- What a sweep leaves it leaves unchanged, and none of it is terminal and past its time to live.
  pub lookup_of_sweep_locked :
      (m : Jobs R) (target ttl now : ℕ) (id : String) (j : Job R)
      → UniqueKeys m
      → lookup id (sweep_locked from_std m target ttl now) ≡ some j
      → (lookup id m ≡ some j) × (is_expired from_std ttl now j ≡ false)
  unfolding sweep_locked
  lookup_of_sweep_locked m target ttl now id j u h =
      let (held, fresh) =
        lookup_of_retain (is_fresh from_std ttl now) id m u
          (lookup_of_capacity_pass target (retain (is_fresh from_std ttl now) m) id h) in
      (held, is_expired-is_fresh from_std ttl now id j fresh)

  -- Of the jobs that are not past their time to live, a sweep drops the oldest first: a dropped
  -- one was created no later than any terminal job that stays.
  pub sweep_locked-oldest_first :
      (m : Jobs R) (target ttl now : ℕ) (id other : String) (j k : Job R)
      → UniqueKeys m
      → lookup id m ≡ some j
      → is_expired from_std ttl now j ≡ false
      → lookup id (sweep_locked from_std m target ttl now) ≡ none
      → lookup other (sweep_locked from_std m target ttl now) ≡ some k
      → is_terminal k.status ≡ true
      → j.created_at ≤ k.created_at
  unfolding sweep_locked
  sweep_locked-oldest_first m target ttl now id other j k u held fresh gone kept over =
      capacity_pass-oldest_first target (retain (is_fresh from_std ttl now) m)
        (retain-UniqueKeys (is_fresh from_std ttl now) m u) id other j k
        (lookup-retain (is_fresh from_std ttl now) id m j u held
          ∙ rw (is_fresh-is_expired from_std ttl now id j fresh))
        gone kept over

  -- A store with room for one job at least holds, after an insertion, at most `max_jobs` jobs or
  -- else no more than are processing and the new one.
  pub insert-bound :
      (s : JobStore R) (j : Job R) (now : ℕ)
      → UniqueKeys s.jobs
      → 1 ≤ s.max_jobs
      → length (insert from_std s j now).jobs ≤ max s.max_jobs (suc (running s.jobs))
  unfolding insert make_room map_insert
  insert-bound s j now u room = elim (Bool-cases (leb s.max_jobs (length s.jobs))) [
    | inl full ↦ rw full (
        omega (
          arith,
          length-remove_le j.id (sweep_locked from_std s.jobs (s.max_jobs - 1) s.completed_ttl now),
          sweep_locked-bound s.jobs (s.max_jobs - 1) s.completed_ttl now u,
        ))
    | inr free ↦
        rw free (
          omega (arith, leb-false→lt s.max_jobs (length s.jobs) free, length-remove_le j.id s.jobs))
  ]
