-- ===== src/History/Tests.antt =====
-- Runs of the history, and the theorems about it at concrete histories (history/mod.rs).
use app_cortex_stt.Common.{
  ℕ, ◌≡◌, refl, Bool, true, false, ◌&&◌, [], ◌∷◌, none, some, codes, lookup, insert, remove, retain,
  text_key, ℕ_discrete, if◌then◌else◌, UniqueKeys,
}
use app_cortex_stt.Errors.{ok}
use app_cortex_stt.Retention.{disk_limit_mb, count}
use app_cortex_stt.History.{
  History, CreateRecord, Io, written, http_api, wav_name, create, delete, delete_many, drop_audios,
  listed,
}
use app_cortex_stt.History.Sweep.{run_retention_sweep}
use app_cortex_stt.History.Files.{is_safe_row}
use app_cortex_stt.History.Paired.{Owned, Claims}
use app_cortex_stt.History.Runs.{Step, Reach, new, Reach-Owned, Reach-Claims}
use app_cortex_stt.History.Deletes.{lookup-delete_many}

program : Unit {0}
unfolding lookup insert remove retain text_key ℕ_discrete create delete delete_many drop_audios
    listed run_retention_sweep
program = tt

-- All goes well, or no removal does.
abbrev works : Io
works = record { removes = λ f. true; reads = true; writes = true; detail = [] }

abbrev locked : Io
locked = record works { removes = λ f. false }

abbrev fields : CreateRecord ℕ
fields = record {
  source = http_api;
  language = none;
  model_id = codes "w";
  quant = none;
  audio_duration_ms = 1200;
  inference_ms = 80;
  model_load_ms = 0;
  pool_wait_ms = 0;
  cold_load_ms = 0;
  text = codes "on";
  raw_text = none;
  segments = [];
  has_error = false;
  error_message = none;
  api_key_id = none;
  device = codes "cpu";
  capture_device = none;
  rms_db = none;
  peak_db = none;
  clip_ratio = none;
}

abbrev saved : History ℕ
saved = (create works (codes "a") (codes "1") fields (some (written 44)) new).0

one_file : saved.files ≡ (codes "a.wav", 44) ∷ []
unfolding program
one_file = refl

-- A file that stays keeps its row.
locked_stays : (delete_many locked (codes "a" ∷ []) saved).0.rows ≡ saved.rows
unfolding program
locked_stays = refl

dropped : (drop_audios works (codes "a" ∷ codes "x" ∷ []) saved).1 ≡ ok 1
unfolding program
dropped = refl

swept :
    run_retention_sweep (λ t. none) (λ now n. none) 0 works works (count 0) (disk_limit_mb 1) saved
    ≡ some (record { rows = []; files = []; notified = 1 }, 1, 0)
unfolding program
swept = refl

a_is_new : lookup (codes "a") (new {F = ℕ}).rows ≡ none
unfolding program
a_is_new = refl

name_is_new : lookup (wav_name (codes "a")) (new {F = ℕ}).files ≡ none
unfolding program
name_is_new = refl

reached : (strict : Bool) → Reach strict new (delete_many locked (codes "a" ∷ []) saved).0
reached strict =
    Reach.next
      (Reach.next Reach.here (
        Step.creates new works (codes "a") (codes "1") fields (some (written 44)) a_is_new
          name_is_new refl refl))
      (Step.deletes_many saved locked (codes "a" ∷ []) (λ st. refl))

abbrev kept : History ℕ
kept = (delete_many locked (codes "a" ∷ []) saved).0

Reach-Owned_example : Owned kept.rows kept.files
Reach-Owned_example = Reach-Owned kept (reached false)

Reach-Claims_example : Claims kept.rows kept.files
Reach-Claims_example = Reach-Claims kept (reached true)

saved-UniqueKeys : UniqueKeys saved.rows
unfolding program
saved-UniqueKeys = (refl, tt)

lookup-delete_many_example :
    lookup (codes "a") (delete_many works (codes "a" ∷ []) saved).0.rows ≡ (
      if listed (codes "a" ∷ []) (codes "a")
        && is_safe_row works saved.files (lookup (codes "a") saved.rows)
      then none
      else lookup (codes "a") saved.rows)
lookup-delete_many_example =
    lookup-delete_many works saved (codes "a" ∷ []) (codes "a") saved-UniqueKeys refl refl
