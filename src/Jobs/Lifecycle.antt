-- ===== src/Jobs/Lifecycle.antt =====
-- Once terminal, always terminal (job.rs, `finish` and `cancel`).
use app_cortex_stt.Common.{
  ℕ, ◌-◌, ◌≡◌, ◌≢◌, refl, true, false, List, [], ◌∷◌, String, Option, none, some,
  insert as map_insert, lookup, remove as map_remove, length, UniqueKeys, arith, ap,
  lookup-insert_ne, lookup-insert_self, lookup-remove_ne, lookup-remove_self, leb, string_key,
  Bool-cases, Option-cases, inl, inr, ◌⊎◌,
}
use app_cortex_stt.Jobs.{
  Job, Jobs, JobStore, completed, failed, cancelled, is_terminal, ended, sweep_locked, make_room,
  cancel, marked_cancelled, already_terminal, not_found, is_cancelled, get, Call, inserts,
  completes, fails, cancels, removes, sweeps, step, run, AllCalls,
}
use app_cortex_stt.Jobs.Wellformed.{step-UniqueKeys, finish_cases, cancel_cases}
use app_cortex_stt.Jobs.Capacity.{lookup_of_sweep_locked}

module _ {R : Type 0} where
  cancel-marks :
      (s : JobStore R) (id : String) (now : ℕ) (j : Job R)
      → lookup id s.jobs ≡ some j
      → is_terminal j.status ≡ false
      → lookup id (cancel s id now).0.jobs ≡ some (ended cancelled now j)
  unfolding cancel
  cancel-marks s id now j held alive =
      rw (held, cancel, alive) (lookup-insert_self id (ended cancelled now j) s.jobs)

  -- What `cancel` does: an unknown id changes nothing, a processing job is marked and stamped, a
  -- terminal one is removed; and the outcome says which it was.
  pub cancel-outcome :
      (s : JobStore R) (id : String) (now : ℕ)
      → ((lookup id s.jobs ≡ none) × (cancel s id now ≡ (s, not_found)))
        ⊎ ((j : Job R) × (lookup id s.jobs ≡ some j)
            × (is_terminal j.status ≡ false)
            × ((cancel s id now).1 ≡ marked_cancelled)
            × (lookup id (cancel s id now).0.jobs ≡ some (ended cancelled now j)))
        ⊎ ((j : Job R) × (lookup id s.jobs ≡ some j)
            × (is_terminal j.status ≡ true)
            × ((cancel s id now).1 ≡ already_terminal)
            × (lookup id (cancel s id now).0.jobs ≡ none))
  unfolding cancel
  cancel-outcome s id now = elim (Option-cases (lookup id s.jobs)) [
    | inl absent ↦ inl (absent, rw (absent, cancel))
    | inr (j, held) ↦ elim (Bool-cases (is_terminal j.status)) [
      | inl over ↦ inr (
          inr (
            j,
            held,
            over,
            rw (held, cancel, over),
            rw (held, cancel, over) (lookup-remove_self id s.jobs),
          ))
      | inr alive ↦
          inr (inl (j, held, alive, rw (held, cancel, alive), cancel-marks s id now j held alive))
    ]
  ]

  -- No call inserts a job under `id`.
  abbrev pub Spares : String → Call R → Type 0
  Spares id (inserts j) = j.id ≢ id
  Spares id (completes k r) = Unit
  Spares id (fails k e) = Unit
  Spares id (cancels k) = Unit
  Spares id (removes k) = Unit
  Spares id sweeps = Unit

  -- The job under `id` is `j`, or it is gone.
  abbrev pub KeptOrGone : String → Job R → Jobs R → Type 0
  KeptOrGone id j m = (lookup id m ≡ some j) ⊎ (lookup id m ≡ none)

  remove-KeptOrGone :
      (id k : String) (j : Job R) (m : Jobs R)
      → KeptOrGone id j m
      → KeptOrGone id j (map_remove k m)
  remove-KeptOrGone id k j m h = elim (string_key.dec_eq k id) [
    | yes e ↦ inr (rw e (lookup-remove_self id m))
    | no d ↦ ground (arith, lookup-remove_ne k id m d)
  ]

  -- Only a processing job is written over, so a terminal one is not.
  insert-KeptOrGone :
      (id k : String) (j w v : Job R) (m : Jobs R)
      → is_terminal j.status ≡ true
      → lookup k m ≡ some w
      → is_terminal w.status ≡ false
      → KeptOrGone id j m
      → KeptOrGone id j (map_insert k v m)
  insert-KeptOrGone id k j w v m over held alive h = elim (string_key.dec_eq k id) [
    | yes e ↦ ground (arith, ap (λ i. lookup i m) e)
    | no d ↦ ground (arith, lookup-insert_ne k id v m d)
  ]

  module _ (from_std : ℕ → Option ℕ) (id : String) where
    sweep_locked-KeptOrGone :
        (j : Job R) (m : Jobs R) (target ttl now : ℕ)
        → UniqueKeys m
        → KeptOrGone id j m
        → KeptOrGone id j (sweep_locked from_std m target ttl now)
    sweep_locked-KeptOrGone j m target ttl now u h =
        elim (Option-cases (lookup id (sweep_locked from_std m target ttl now))) [
          | inl gone ↦ inr gone
          | inr (w, kept) ↦
              let (held, fresh) = lookup_of_sweep_locked from_std m target ttl now id w u kept in
              ground arith
        ]

    make_room-KeptOrGone :
        (j : Job R) (s : JobStore R) (now : ℕ)
        → UniqueKeys s.jobs
        → KeptOrGone id j s.jobs
        → KeptOrGone id j (make_room from_std s now)
    unfolding make_room
    make_room-KeptOrGone j s now u h = elim (Bool-cases (leb s.max_jobs (length s.jobs))) [
      | inl full ↦
          rw full (sweep_locked-KeptOrGone j s.jobs (s.max_jobs - 1) s.completed_ttl now u h)
      | inr free ↦ rw free h
    ]

    step-KeptOrGone :
        (j : Job R) (s : JobStore R) (c : ℕ × Call R)
        → is_terminal j.status ≡ true
        → UniqueKeys s.jobs
        → Spares id c.1
        → KeptOrGone id j s.jobs
        → KeptOrGone id j (step from_std s c).jobs
    unfolding step
    step-KeptOrGone j s (now, inserts w) over u other h = ground (
      arith,
      make_room-KeptOrGone j s now u h,
      lookup-insert_ne w.id id w (make_room from_std s now) other,
    )
    step-KeptOrGone j s (now, completes k r) over u other h =
        finish_cases (KeptOrGone id j) s k now (completed r) h
          λ w held alive. insert-KeptOrGone id k j w _ s.jobs over held alive h
    step-KeptOrGone j s (now, fails k e) over u other h =
        finish_cases (KeptOrGone id j) s k now (failed e) h
          λ w held alive. insert-KeptOrGone id k j w _ s.jobs over held alive h
    step-KeptOrGone j s (now, cancels k) over u other h =
        cancel_cases (KeptOrGone id j) s k now h (remove-KeptOrGone id k j s.jobs h)
          λ w held alive. insert-KeptOrGone id k j w _ s.jobs over held alive h
    step-KeptOrGone j s (now, removes k) over u other h = remove-KeptOrGone id k j s.jobs h
    step-KeptOrGone j s (now, sweeps) over u other h =
        sweep_locked-KeptOrGone j s.jobs s.max_jobs s.completed_ttl now u h

    -- Once terminal, always terminal: whatever calls follow, short of an insertion under its id,
    -- a terminal job is unchanged or gone; and gone, it stays gone.
    pub run-KeptOrGone :
        (j : Job R) (s : JobStore R) (cs : List (ℕ × Call R))
        → is_terminal j.status ≡ true
        → UniqueKeys s.jobs
        → AllCalls (Spares id) cs
        → KeptOrGone id j s.jobs
        → KeptOrGone id j (run from_std s cs).jobs
    unfolding run
    run-KeptOrGone j s [] over u spares h = h
    run-KeptOrGone j s ((now, c) ∷ cs) over u spares h =
        run-KeptOrGone j (step from_std s (now, c)) cs over (step-UniqueKeys from_std s (now, c) u)
          spares.1 (step-KeptOrGone j s (now, c) over u spares.0 h)

    -- A processing job that `cancel` marks is from then on cancelled or gone, whatever its worker
    -- reports later and whatever else is called, short of an insertion under its id.
    pub cancel_is_final :
        (j : Job R) (s : JobStore R) (now : ℕ) (cs : List (ℕ × Call R))
        → UniqueKeys s.jobs
        → AllCalls (Spares id) cs
        → lookup id s.jobs ≡ some j
        → is_terminal j.status ≡ false
        → (is_cancelled (run from_std (cancel s id now).0 cs) id ≡ true)
          ⊎ (get (run from_std (cancel s id now).0 cs) id ≡ none)
    unfolding is_cancelled get step
    cancel_is_final j s now cs u spares held alive = elim later [
      | inl kept ↦ inl (rw (kept, is_cancelled))
      | inr gone ↦ inr gone
    ]
      where
        later : KeptOrGone id (ended cancelled now j) (run from_std (cancel s id now).0 cs).jobs
        later =
            run-KeptOrGone (ended cancelled now j) (cancel s id now).0 cs refl
              (step-UniqueKeys from_std s (now, cancels id) u) spares
              (inl (cancel-marks s id now j held alive))
