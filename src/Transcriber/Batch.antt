-- ===== src/Transcriber/Batch.antt =====
-- A transcription of decoded audio (transcriber.rs, `transcribe`), for the synchronous handler and
-- the jobs.
pub mod Written
use app_cortex_stt.Common.{
  ℕ, Bool, true, false, List, [], ◌∷◌, Option, none, some, Text, if◌then◌else◌,
}
use app_cortex_stt.Errors.{AsrError, engine_panic, Result, ok, err, ◌>>=◌}
use app_cortex_stt.Variants.{VariantKey, parse, as_key}
use app_cortex_stt.Rendering.{Config, for_language}
use app_cortex_stt.History.{History, TranscriptionSource}
use app_cortex_stt.Transcriber.{
  Recorder, store, failure_record, success_record, TranscriptionResult, EngineCapabilities,
  AcquireMetrics, AudioStats, TranscribeResponse, RecordMeta, InputLimit, check_batch, from_result,
  Saved, save_to_history, on_failure,
}
use app_cortex_stt.Transcriber.Session.{Call, returned, lost, enforce}

-- `options_language` is the language of the options, `language` that of the record.
pub record TranscribeRequest (F : Type 0) : Type 0 where
  pub model : Text
  pub samples : List F
  pub duration_ms : ℕ
  pub options_language : Option Text
  pub language : Option Text
  pub source : TranscriptionSource
  pub api_key_id : Option Text
  pub capture_device : Option Text

-- The settings that a request reads, if they can be read.
pub record RequestSettings : Type 0 where
  pub timeout_secs : Option ℕ
  pub save_audio : Bool

unfoldable pub load_settings : Result RequestSettings → RequestSettings
load_settings (ok s) = s
load_settings (err e) = record { timeout_secs = none; save_audio = true }

-- Whether the acquire loaded the model tells what the time that it took was spent on.
unfoldable pub metrics_of : Bool → ℕ → AcquireMetrics
metrics_of true elapsed = record { pool_wait_ms = 0; cold_load_ms = elapsed }
metrics_of false elapsed = record { pool_wait_ms = elapsed; cold_load_ms = 0 }

pub record Guard : Type 0 where
  pub cold_load : Bool
  pub elapsed_ms : ℕ
  pub capabilities : Result EngineCapabilities
  pub device : Text

-- What the parts that are called do: the settings, the Variant, the slot, the engine's result and
-- the time that it takes, and whether the deadline passes during either step.
pub record Run (F : Type 0) : Type 0 where
  pub settings : Result RequestSettings
  pub resolved : Result VariantKey
  pub acquired : Result Guard
  pub acquire_late : Bool
  pub inference : Call (TranscriptionResult F)
  pub inference_late : Bool
  pub inference_ms : ℕ

module _ {F : Type 0} where
  unfoldable pub from_request : TranscribeRequest F → RecordMeta
  unfolding parse
  from_request req = record {
    model = (parse req.model).model;
    quant = (parse req.model).quant;
    language = req.language;
    source = req.source;
    api_key_id = req.api_key_id;
    capture_device = req.capture_device;
    duration_ms = req.duration_ms;
  }

-- What a blocking call gives, a lost task being a panic of the engine.
unfoldable pub joined : {A : Type 0} → Call A → Text → Result A
joined (returned r) model = r
joined lost model = err (engine_panic model)

-- `display` is the message of an error, `stats_of` the levels of the samples.
module _ {F : Type 0} (display : AsrError → Text) (stats_of : List F → Option (AudioStats F))
    (converter : Config → Option (Text → Text)) (recorder : Recorder F) where
  unfoldable pub run_inference :
      TranscribeRequest F → Guard → Call (TranscriptionResult F) → ℕ → Result (TranscribeResponse F)
  unfolding joined from_result metrics_of for_language
  run_inference req guard call inference = joined call req.model >>= λ result. ok (
      from_result converter result req.model req.duration_ms inference
        (metrics_of guard.cold_load guard.elapsed_ms) guard.device
        (for_language req.options_language))

  -- Acquire, check and infer, under the one deadline.
  unfoldable pub attempt : TranscribeRequest F → Option ℕ → Run F → Result (TranscribeResponse F)
  unfolding run_inference enforce check_batch
  attempt req timeout run = do
    guard ← enforce timeout run.acquire_late req.model run.acquired
    caps ← guard.capabilities
    checked ← check_batch (record { max_audio_ms = caps.max_audio_ms }) req.model req.duration_ms
    enforce timeout run.inference_late req.model
        (run_inference req guard run.inference run.inference_ms)

  -- What is recorded of a request, and what it answers.
  unfoldable pub settle :
      TranscribeRequest F
      → Bool
      → History F
      → Result (TranscribeResponse F)
      → History F × Result (TranscribeResponse F)
  unfolding save_to_history on_failure from_request
  settle req save_audio rows (ok response) = (
    save_to_history recorder (from_request req) (if save_audio then some req.samples else none)
        (stats_of req.samples) response rows,
    ok response,
  )
  settle req save_audio rows (err e) =
      (on_failure recorder (from_request req) (display e) rows, err e)

  unfoldable pub transcribe :
      TranscribeRequest F → Run F → History F → History F × Result (TranscribeResponse F)
  unfolding load_settings as_key attempt settle
  transcribe req run rows =
      let settings = load_settings run.settings in
      elim run.resolved [
        | err e ↦ settle req settings.save_audio rows (err e)
        | ok key ↦
            let req' = record req { model = as_key key } in
            settle req' settings.save_audio rows (attempt req' settings.timeout_secs run)
      ]
