-- ===== src/Jobs/Tests.antt =====
-- Runs of the job store, and the theorems about it at concrete stores (job.rs).
use Prim.Native.Nat.{max}
use app_cortex_stt.Common.{
  ℕ, ◌≡◌, ◌≤◌, refl, true, List, [], ◌∷◌, String, Option, none, some, lookup, length, string_key,
  inl, UniqueKeys, str_ne, ◌⊎◌, sort_by, retain, insert as map_insert, remove as map_remove,
}
use app_cortex_stt.Jobs.{
  Job, JobStore, processing, completed, is_cancelled, get, insert, cancel, sweep, already_terminal,
  complete, sweep_locked, Call, inserts, completes, sweeps, run, step, new, is_expired, ended,
}
use app_cortex_stt.Jobs.Wellformed.{IsJobAt, Holds, run-new-Holds}
use app_cortex_stt.Jobs.Sweep.{sweep_locked-processing, sweep-eq-locked}
use app_cortex_stt.Jobs.Capacity.{running, sweep_locked-bound, sweep_locked-oldest_first}
use app_cortex_stt.Jobs.Lifecycle.{KeptOrGone, run-KeptOrGone, cancel_is_final}

program : Unit {0}
unfolding lookup string_key sweep_locked run step cancel insert sweep sort_by retain map_insert
    map_remove is_cancelled get complete running is_expired new
program = tt

abbrev chrono : ℕ → Option ℕ
chrono d = some d

abbrev fresh_job : String → ℕ → Job ℕ
fresh_job id at = record {
  id = id;
  model = "whisper-tiny:Q8_0";
  status = processing;
  created_at = at;
  completed_at = none;
}

abbrev done_job : String → ℕ → ℕ → Job ℕ
done_job id at end = ended (completed 7) end (fresh_job id at)

-- One job in flight, two that have ended.
abbrev busy : JobStore ℕ
busy = record {
  jobs = ("a", fresh_job "a" 10) ∷ ("c", done_job "c" 30 60) ∷ ("b", done_job "b" 20 70) ∷ [];
  max_jobs = 3;
  completed_ttl = 100;
}

abbrev calls : List (ℕ × Call ℕ)
calls = (80, completes "a" 9) ∷ (90, inserts (fresh_job "d" 90)) ∷ (95, sweeps) ∷ []

busy-UniqueKeys : UniqueKeys busy.jobs
unfolding program
busy-UniqueKeys = (refl, (refl, (refl, tt)))

insert_evicts : length (insert chrono busy (fresh_job "d" 80) 80).jobs ≡ 3
unfolding program
insert_evicts = refl

cancel_twice : (cancel (cancel busy "a" 80).0 "a" 81).1 ≡ already_terminal
unfolding program
cancel_twice = refl

cancel_wins :
    is_cancelled (run chrono (cancel busy "a" 75).0 ((80, completes "a" 9) ∷ [])) "a" ≡ true
unfolding program
cancel_wins = refl

sweep_locked-processing_example :
    lookup "a" (sweep_locked chrono busy.jobs 1 100 80) ≡ some (fresh_job "a" 10)
unfolding program
sweep_locked-processing_example =
    sweep_locked-processing chrono busy.jobs 1 100 80 "a" (fresh_job "a" 10) busy-UniqueKeys refl
      refl

sweep-eq-locked_example : (sweep chrono busy 80 80).jobs ≡ sweep_locked chrono busy.jobs 3 100 80
sweep-eq-locked_example = sweep-eq-locked chrono busy 80

sweep_locked-bound_example :
    length (sweep_locked chrono busy.jobs 2 100 80) ≤ max 2 (running busy.jobs)
unfolding program
sweep_locked-bound_example = sweep_locked-bound chrono busy.jobs 2 100 80 busy-UniqueKeys

sweep_locked-oldest_first_example :
    (done_job "b" 20 70).created_at ≤ (done_job "c" 30 60).created_at
unfolding program
sweep_locked-oldest_first_example =
    sweep_locked-oldest_first chrono busy.jobs 2 100 80 "b" "c" (done_job "b" 20 70)
      (done_job "c" 30 60) busy-UniqueKeys refl refl refl refl refl

run-new-Holds_example :
    Holds IsJobAt (run chrono (new 1 100) ((5, inserts (fresh_job "a" 5)) ∷ calls)).jobs
unfolding program
run-new-Holds_example = run-new-Holds chrono 1 100 ((5, inserts (fresh_job "a" 5)) ∷ calls) (
  record { named = refl; stamped = refl },
  (tt, (record { named = refl; stamped = refl }, (tt, tt))),
)

run-KeptOrGone_example : KeptOrGone "c" (done_job "c" 30 60) (run chrono busy calls).jobs
unfolding program
run-KeptOrGone_example =
    run-KeptOrGone chrono "c" (done_job "c" 30 60) busy calls refl busy-UniqueKeys
      (tt, (str_ne "d" "c" refl, (tt, tt))) (inl refl)

cancel_is_final_example :
    (is_cancelled (run chrono (cancel busy "a" 75).0 calls) "a" ≡ true)
    ⊎ (get (run chrono (cancel busy "a" 75).0 calls) "a" ≡ none)
unfolding program
cancel_is_final_example =
    cancel_is_final chrono "a" (fresh_job "a" 10) busy 75 calls busy-UniqueKeys
      (tt, (str_ne "d" "a" refl, (tt, tt))) refl refl
