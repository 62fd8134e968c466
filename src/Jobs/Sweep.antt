-- ===== src/Jobs/Sweep.antt =====
-- What a sweep keeps and what it drops (job.rs, `sweep` and `sweep_locked`).
use app_cortex_stt.Common.{
  ℕ, ◌≡◌, refl, ◌∙◌, true, false, [], ◌∷◌, String, Option, some, lookup, retain, length, Memᴰ,
  UniqueKeys, arith, lookup-retain, retain-UniqueKeys, string_key, Bool-cases, inl, inr, ltb, any,
}
use app_cortex_stt.Jobs.{
  Job, Jobs, JobStore, is_terminal, oldest, capacity_pass, is_fresh, sweep_locked, is_expired,
  needs_work, sweep,
}
use app_cortex_stt.Jobs.Evict.{lookup-evict_other, mem_of_oldest}

module _ {R : Type 0} where
  pub capacity_pass-other :
      (target : ℕ) (m : Jobs R) (id : String)
      → ((ts : ℕ) → ¬ Memᴰ (id, ts) (oldest target m))
      → lookup id (capacity_pass target m) ≡ lookup id m
  unfolding capacity_pass
  capacity_pass-other target m id not_listed = elim (Bool-cases (ltb target (length m))) [
    | inl over ↦ rw over (lookup-evict_other id (oldest target m) m not_listed)
    | inr fits ↦ rw fits
  ]

  -- The capacity pass leaves every job alone that is still processing.
  pub capacity_pass-processing :
      (target : ℕ) (m : Jobs R) (id : String) (j : Job R)
      → UniqueKeys m
      → lookup id m ≡ some j
      → is_terminal j.status ≡ false
      → lookup id (capacity_pass target m) ≡ some j
  capacity_pass-processing target m id j u held running =
      capacity_pass-other target m id not_listed ∙ held
    where
      not_listed : (ts : ℕ) → ¬ Memᴰ (id, ts) (oldest target m)
      not_listed ts listed = let (w, found, over, at) = mem_of_oldest target m u listed in cc

  module _ (from_std : ℕ → Option ℕ) where
    -- A sweep never evicts a job that is still processing, nor changes it.
    pub sweep_locked-processing :
        (m : Jobs R) (target ttl now : ℕ) (id : String) (j : Job R)
        → UniqueKeys m
        → lookup id m ≡ some j
        → is_terminal j.status ≡ false
        → lookup id (sweep_locked from_std m target ttl now) ≡ some j
    unfolding sweep_locked is_fresh
    sweep_locked-processing m target ttl now id j u held running =
        capacity_pass-processing target (retain (is_fresh from_std ttl now) m) id j
          (retain-UniqueKeys (is_fresh from_std ttl now) m u)
          (lookup-retain (is_fresh from_std ttl now) id m j u held ∙ rw running) running

    pub is_expired-is_fresh :
        (ttl now : ℕ) (id : String) (j : Job R)
        → is_fresh from_std ttl now id j ≡ true
        → is_expired from_std ttl now j ≡ false
    unfolding is_fresh is_expired
    is_expired-is_fresh ttl now id j h = ground arith

    pub is_fresh-is_expired :
        (ttl now : ℕ) (id : String) (j : Job R)
        → is_expired from_std ttl now j ≡ false
        → is_fresh from_std ttl now id j ≡ true
    unfolding is_fresh is_expired
    is_fresh-is_expired ttl now id j h = ground arith

    retain_fresh_all :
        (ttl now : ℕ) (m : Jobs R)
        → any (λ e. is_expired from_std ttl now e.1) m ≡ false
        → retain (is_fresh from_std ttl now) m ≡ m
    unfolding retain
    retain_fresh_all ttl now [] h = refl
    retain_fresh_all ttl now ((k, j) ∷ m) h =
        ground (arith, is_fresh-is_expired ttl now k j, retain_fresh_all ttl now m)

    -- The check under the read lock is exact: `sweep` is its write half at every store, so that
    -- the early return changes nothing but the time that it takes.
    pub sweep-eq-locked :
        (s : JobStore R) (now : ℕ)
        → (sweep from_std s now now).jobs
          ≡ sweep_locked from_std s.jobs s.max_jobs s.completed_ttl now
    unfolding sweep needs_work sweep_locked capacity_pass
    sweep-eq-locked s now = ground (arith, retain_fresh_all s.completed_ttl now s.jobs)
