-- ===== src/Jobs/Wellformed.antt =====
-- What holds of the jobs of a store between two calls (job.rs).
use app_cortex_stt.Common.{
  ℕ, ◌-◌, ◌≡◌, refl, sym, true, false, not, List, [], ◌∷◌, String, Option, some,
  insert as map_insert, lookup, remove as map_remove, retain, length, UniqueKeys, AllEntries,
  AllEntries-lookup, remove-UniqueKeys, insert-UniqueKeys, retain-UniqueKeys, AllEntries-remove,
  AllEntries-insert, AllEntries-retain, ltb, leb, string_key, Bool-cases, Option-cases, inl, inr,
  is_none,
}
use app_cortex_stt.Jobs.{
  Job, Jobs, JobStore, Status, completed, failed, cancelled, is_terminal, ended, oldest, evict,
  capacity_pass, sweep_locked, is_fresh, make_room, finish, cancel, Call, inserts, completes, fails,
  cancels, removes, sweeps, step, run, IsCall, AllCalls, new,
}

module _ {R : Type 0} (Q : Jobs R → Type 0) (s : JobStore R) (id : String) (now : ℕ) where
  -- `finish` changes nothing, or ends the job of that id, which is then processing.
  pub finish_cases :
      (st : Status R)
      → Q s.jobs
      → ((j : Job R)
          → lookup id s.jobs ≡ some j
          → is_terminal j.status ≡ false
          → Q (map_insert id (ended st now j) s.jobs))
      → Q (finish s id st now).jobs
  unfolding finish
  finish_cases st unchanged ends = elim (Option-cases (lookup id s.jobs)) [
    | inl absent ↦ rw (absent, finish) unchanged
    | inr (j, held) ↦ elim (Bool-cases (is_terminal j.status)) [
      | inl over ↦ rw (held, finish, over) unchanged
      | inr alive ↦ rw (held, finish, alive) (ends j held alive)
    ]
  ]

  -- `cancel` changes nothing, removes the job of that id, or ends it if it is processing.
  pub cancel_cases :
      Q s.jobs
      → Q (map_remove id s.jobs)
      → ((j : Job R)
          → lookup id s.jobs ≡ some j
          → is_terminal j.status ≡ false
          → Q (map_insert id (ended cancelled now j) s.jobs))
      → Q (cancel s id now).0.jobs
  unfolding cancel
  cancel_cases unchanged removed ends = elim (Option-cases (lookup id s.jobs)) [
    | inl absent ↦ rw (absent, cancel) unchanged
    | inr (j, held) ↦ elim (Bool-cases (is_terminal j.status)) [
      | inl over ↦ rw (held, cancel, over) removed
      | inr alive ↦ rw (held, cancel, alive) (ends j held alive)
    ]
  ]

module _ {R : Type 0} where
  -- A job stands under its own id, and has an end time exactly if it is terminal.
  pub record IsJobAt (id : String) (j : Job R) : Type 0 where
    pub named : j.id ≡ id
    pub stamped : not (is_none j.completed_at) ≡ is_terminal j.status

  ended-IsJobAt :
      (id : String) (j : Job R) (st : Status R) (now : ℕ)
      → is_terminal st ≡ true
      → IsJobAt id j
      → IsJobAt id (ended st now j)
  ended-IsJobAt id j st now t v = record { named = v.named; stamped = sym t }

module _ {R : Type 0} (P : String → Job R → Type 0) where
  -- No id twice, and `P` of every job.
  pub record Holds (m : Jobs R) : Type 0 where
    pub unique : UniqueKeys m
    pub entries : AllEntries P m

  remove-Holds : (id : String) (m : Jobs R) → Holds m → Holds (map_remove id m)
  remove-Holds id m v = record {
    unique = remove-UniqueKeys id m v.unique;
    entries = AllEntries-remove P id m v.entries;
  }

  insert-Holds :
      (id : String) (j : Job R) (m : Jobs R) → P id j → Holds m → Holds (map_insert id j m)
  insert-Holds id j m p v = record {
    unique = insert-UniqueKeys id j m v.unique;
    entries = AllEntries-insert P id j m p v.entries;
  }

  evict-Holds : (ids : List (String × ℕ)) (m : Jobs R) → Holds m → Holds (evict ids m)
  unfolding evict
  evict-Holds [] m v = v
  evict-Holds ((id, ts) ∷ ids) m v = evict-Holds ids (map_remove id m) (remove-Holds id m v)

  capacity_pass-Holds : (target : ℕ) (m : Jobs R) → Holds m → Holds (capacity_pass target m)
  unfolding capacity_pass
  capacity_pass-Holds target m v = elim (Bool-cases (ltb target (length m))) [
    | inl over ↦ rw over (evict-Holds (oldest target m) m v)
    | inr fits ↦ rw fits v
  ]

  module _ (from_std : ℕ → Option ℕ) where
    sweep_locked-Holds :
        (m : Jobs R) (target ttl now : ℕ) → Holds m → Holds (sweep_locked from_std m target ttl now)
    unfolding sweep_locked
    sweep_locked-Holds m target ttl now v =
        capacity_pass-Holds target (retain (is_fresh from_std ttl now) m) (record {
          unique = retain-UniqueKeys (is_fresh from_std ttl now) m v.unique;
          entries = AllEntries-retain P (is_fresh from_std ttl now) m v.entries;
        })

    make_room-Holds : (s : JobStore R) (now : ℕ) → Holds s.jobs → Holds (make_room from_std s now)
    unfolding make_room
    make_room-Holds s now v = elim (Bool-cases (leb s.max_jobs (length s.jobs))) [
      | inl full ↦ rw full (sweep_locked-Holds s.jobs (s.max_jobs - 1) s.completed_ttl now v)
      | inr free ↦ rw free v
    ]

    -- A job that ends keeps `P`.
    module _
        (ends : (id : String) (j : Job R) (st : Status R) (now : ℕ)
          → is_terminal st ≡ true
          → P id j
          → P id (ended st now j)) where
      finish-Holds :
          (s : JobStore R) (id : String) (st : Status R) (now : ℕ)
          → is_terminal st ≡ true
          → Holds s.jobs
          → Holds (finish s id st now).jobs
      finish-Holds s id st now t v = finish_cases Holds s id now st v λ j held alive.
          insert-Holds id (ended st now j) s.jobs
            (ends id j st now t (AllEntries-lookup P id s.jobs v.entries held)) v

      cancel-Holds :
          (s : JobStore R) (id : String) (now : ℕ) → Holds s.jobs → Holds (cancel s id now).0.jobs
      unfolding is_terminal
      cancel-Holds s id now v =
          cancel_cases Holds s id now v (remove-Holds id s.jobs v) λ j held alive.
            insert-Holds id (ended cancelled now j) s.jobs
              (ends id j cancelled now refl (AllEntries-lookup P id s.jobs v.entries held)) v

      -- Each call keeps the store well formed, an insertion if the new job is.
      pub step-Holds :
          (s : JobStore R) (c : ℕ × Call R)
          → IsCall P c.1
          → Holds s.jobs
          → Holds (step from_std s c).jobs
      unfolding step
      step-Holds s (now, inserts j) p v =
          insert-Holds j.id j (make_room from_std s now) p (make_room-Holds s now v)
      step-Holds s (now, completes id r) p v = finish-Holds s id (completed r) now refl v
      step-Holds s (now, fails id e) p v = finish-Holds s id (failed e) now refl v
      step-Holds s (now, cancels id) p v = cancel-Holds s id now v
      step-Holds s (now, removes id) p v = remove-Holds id s.jobs v
      step-Holds s (now, sweeps) p v = sweep_locked-Holds s.jobs s.max_jobs s.completed_ttl now v

      pub run-Holds :
          (s : JobStore R) (cs : List (ℕ × Call R))
          → AllCalls (IsCall P) cs
          → Holds s.jobs
          → Holds (run from_std s cs).jobs
      unfolding run
      run-Holds s [] p v = v
      run-Holds s (c ∷ cs) p v = run-Holds (step from_std s c) cs p.1 (step-Holds s c p.0 v)

module _ (from_std : ℕ → Option ℕ) {R : Type 0} where
  -- After any calls on a new store, under any interleaving of sweeps, no id stands for two jobs,
  -- each job stands under its own id, and it has an end time exactly if it is terminal; the
  -- inserted jobs have an end time exactly if they are terminal.
  pub run-new-Holds :
      (max_jobs ttl : ℕ) (cs : List (ℕ × Call R))
      → AllCalls (IsCall IsJobAt) cs
      → Holds IsJobAt (run from_std (new max_jobs ttl) cs).jobs
  unfolding new
  run-new-Holds max_jobs ttl cs p =
      run-Holds IsJobAt from_std ended-IsJobAt (new max_jobs ttl) cs p
        (record { unique = tt; entries = tt })

  -- Each call keeps the ids distinct.
  pub step-UniqueKeys :
      (s : JobStore R) (c : ℕ × Call R) → UniqueKeys s.jobs → UniqueKeys (step from_std s c).jobs
  step-UniqueKeys s (now, c) u =
      (step-Holds (λ _ _. Unit {0}) from_std (λ _ _ _ _ _ _. tt) s (now, c) (any_call c)
        (record { unique = u; entries = any_job s.jobs })).unique
    where
      any_call : (c : Call R) → IsCall (λ _ _. Unit {0}) c
      any_call (inserts j) = tt
      any_call (completes id r) = tt
      any_call (fails id e) = tt
      any_call (cancels id) = tt
      any_call (removes id) = tt
      any_call sweeps = tt

      any_job : (m : Jobs R) → AllEntries (λ _ _. Unit {0}) m
      any_job [] = tt
      any_job ((id, j) ∷ m) = (tt, any_job m)
