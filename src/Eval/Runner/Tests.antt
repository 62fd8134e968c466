-- ===== src/Eval/Runner/Tests.antt =====
-- Evaluation runs at concrete candidates and samples (eval/runner.rs).
use app_cortex_stt.Common.{
  ℕ, ◌≡◌, refl, Bool, true, false, List, [], ◌∷◌, ◌++◌, map, Option, none, some, Text, codes,
  lookup, insert, text_key, ◌==◌,
}
use app_cortex_stt.Errors.{AsrError, inference_failed, Result, ok, err, eval_run_in_progress}
use app_cortex_stt.Rendering.{Config}
use app_cortex_stt.Transcriber.{TranscriptionResult}
use app_cortex_stt.Transcriber.Session.{Call, returned, lost}
use app_cortex_stt.Eval.Runner.{
  RunRequest, cancelled, Runner, RunOutcome, completes, cancels, Load, Attempt, execute,
}
use app_cortex_stt.Eval.Runner.Coverage.{cell, covered, execute-results}
use app_cortex_stt.Eval.Runner.Slot.{
  Slot, Works, status_of, start, cancel, finish_run, clear, release,
}
use app_cortex_stt.Eval.Runner.Slot.Held.{Task, Step, Reach, Says, new, Reach-in_flight}

program : Unit {0}
unfolding lookup insert text_key execute covered start cancel finish_run clear release status_of
program = tt

abbrev display : AsrError → Text
display e = codes "failed"

abbrev converter : Config → Option (Text → Text)
converter c = none

-- The second candidate does not load.
abbrev loads : ℕ → Load
loads mi = record {
  cancelled = false;
  quant = none;
  file_size_bytes = 9;
  cold_load_ms = 800;
  acquired = if_second (mi == 1);
  resident = [];
  stored = true;
}
  where
    if_second : Bool → Result ℕ
    if_second true = err (inference_failed [] [])
    if_second false = ok 70

-- The engine is lost at the second sample of the third candidate.
abbrev attempts : ℕ → ℕ → Attempt ℕ
attempts mi si = record {
  cancelled = false;
  decoded = ok tt;
  acquired = ok tt;
  inference = answer (mi == 2) (si == 1);
  inference_ms = 40;
  resident = codes "other" ∷ [];
  stored = true;
}
  where
    answer : Bool → Bool → Call (TranscriptionResult ℕ)
    answer true true = lost
    answer _ _ = returned (
        ok (record {
          text = codes "on";
          raw_text = codes "on";
          language = none;
          segments = [];
          words = [];
          truncated = false;
        }))

abbrev candidates : List Text
candidates = codes "w" ∷ codes "bad" ∷ codes "p" ∷ []

abbrev samples : List Text
samples = codes "1" ∷ codes "2" ∷ []

abbrev before : Runner
before = record { loaded = []; run_models = []; results = []; progress = none }

abbrev after : Runner × Result RunOutcome
after = execute display converter (codes "r") [] none loads attempts 0 candidates samples before

-- A candidate that does not load has a row and no results, a failed sample has a result.
run_completes : after.1 ≡ ok completes
unfolding program
run_completes = refl

run_cells :
    map cell after.0.results
    ≡ (codes "w", codes "1")
      ∷ (codes "w", codes "2")
      ∷ (codes "p", codes "1")
      ∷ (codes "p", codes "2")
      ∷ []
unfolding program
run_cells = refl

execute-results_example :
    (rest : List (Text × Text)) × (map cell after.0.results ++ rest
      ≡ covered loads 0 candidates samples)
    × (after.1 ≡ ok completes → rest ≡ [])
execute-results_example =
    execute-results display converter (codes "r") [] none loads attempts candidates samples []

abbrev works : Works
works = record { loads_settings = true; inserts_run = true; sets_samples = true; detail = [] }

abbrev request : RunRequest
request = record { model_ids = candidates; language = none; sample_ids = some (codes "2" ∷ []) }

abbrev with_slot : Slot → Task
with_slot s = record { slot = s; ended = none }

abbrev started : Slot
started = (start works (codes "r") request (ok samples) [] new.slot).0

abbrev stopping : Slot
stopping = (cancel (codes "r") started).0

abbrev finished : Slot
finished = finish_run (codes "r") cancelled true stopping

-- Another run waits until the slot is given back.
one_at_a_time :
    (start works (codes "q") request (ok samples) [] (clear finished)).1 ≡ err eval_run_in_progress
unfolding program
one_at_a_time = refl

is_stopping : stopping.in_flight ≡ some (codes "r", true)
unfolding program
is_stopping = refl

is_named : finished.in_flight ≡ some (codes "r", true)
unfolding program
is_named = refl

Reach-in_flight_example :
    (finished.held ≡ true) × Says (lookup (codes "r") finished.statuses) (some cancelled)
unfolding status_of
Reach-in_flight_example =
    Reach-in_flight (record { slot = finished; ended = some cancelled }) (codes "r") true
      (Reach.next
        (Reach.next
          (Reach.next Reach.here (Step.starts new works (codes "r") request (ok samples) []))
          (Step.cancels (with_slot started) (codes "r")))
        (Step.finishes (with_slot stopping) (codes "r") true (ok cancels) true is_stopping refl))
      is_named
