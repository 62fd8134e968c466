-- ===== src/Eval/Runner.antt =====
-- An evaluation run (cortex-stt/src/eval/runner.rs): the check of a request, the loop over
-- candidates and samples, the end of the run's task, and the request to stop it.
mod Coverage
pub mod Slot
mod Tests
use app_cortex_stt.Common.{
  ℕ, suc, Bool, true, false, ◌&&◌, not, List, [], ◌∷◌, ◌++◌, Option, none, some, Text, codes,
  KeyMap, lookup, insert, text_key, text_eq, trim, is_empty, any, filter, length, if◌then◌else◌,
}
use app_cortex_stt.Errors.{
  AsrError, protocol_error, eval_blocked_by_download, eval_run_in_progress, database_error,
  no_audio, engine_panic, Result, ok, err, ◌>>=◌,
}
use app_cortex_stt.Rendering.{Config, for_language}
use app_cortex_stt.Transcriber.{TranscriptionResult, rendered}
use app_cortex_stt.Transcriber.Session.{Call, returned, lost}
use app_cortex_stt.Eval.{EvalResult}

pub record RunRequest : Type 0 where
  pub model_ids : List Text
  pub language : Option Text
  pub sample_ids : Option (List Text)

pub data RunStatus : Type 0 where
  running : RunStatus
  completed : RunStatus
  cancelled : RunStatus
  failed : RunStatus

pub record RunModel : Type 0 where
  pub model_index : ℕ
  pub quant : Option Text
  pub file_size_bytes : ℕ
  pub cold_load_ms : ℕ
  pub resident_bytes : ℕ
  pub load_failed : Bool
  pub failure_reason : Option Text

pub record RunProgress : Type 0 where
  pub model_index : ℕ
  pub current_model : Text
  pub sample_index : ℕ

pub data RunOutcome : Type 0 where
  completes : RunOutcome
  cancels : RunOutcome

-- The models that are resident, the rows of the run, and the progress that is published.
pub record Runner : Type 0 where
  pub loaded : List Text
  pub run_models : KeyMap Text RunModel
  pub results : List EvalResult
  pub progress : Option RunProgress

-- What happens at one candidate: the flag is set before it, what the catalog says of it, what its
-- load comes to, with its time and memory, which models are resident afterwards, loaded by this or by
-- other requests, and whether its row is stored.
pub record Load : Type 0 where
  pub cancelled : Bool
  pub quant : Option Text
  pub file_size_bytes : ℕ
  pub cold_load_ms : ℕ
  pub acquired : Result ℕ
  pub resident : List Text
  pub stored : Bool

-- What happens at one sample: the flag is set before it, whether its audio is read and decoded,
-- the slot, the engine's answer and its time, which models are resident afterwards, and whether the
-- result is stored.
pub record Attempt (F : Type 0) : Type 0 where
  pub cancelled : Bool
  pub decoded : Result (Unit {0})
  pub acquired : Result (Unit {0})
  pub inference : Call (TranscriptionResult F)
  pub inference_ms : ℕ
  pub resident : List Text
  pub stored : Bool

unfoldable pub pre_render_text : Text → Text → Option Text
unfolding trim
pre_render_text model_text rendered =
    if text_eq (trim model_text) (trim rendered) then none else some model_text

abbrev pub unload : Text → List Text → List Text
unload id ids = filter (λ j. not (text_eq id j)) ids

abbrev pub answer_of :
    {F : Type 0} → Call (TranscriptionResult F) → Text → Result (TranscriptionResult F)
answer_of (returned r) model = r
answer_of lost model = err (engine_panic model)

abbrev pub publish : ℕ → Text → ℕ → Runner → Runner
publish mi model si s = record s {
  progress = some (record { model_index = mi; current_model = model; sample_index = si });
}

abbrev pub insert_result : EvalResult → Runner → Runner
insert_result r s = record s { results = s.results ++ r ∷ [] }

module _ {F : Type 0} (display : AsrError → Text) (converter : Config → Option (Text → Text))
    (run_id detail : Text) (language : Option Text) (loads : ℕ → Load)
    (attempts : ℕ → ℕ → Attempt F) where
  unfoldable pub transcribe_sample : Attempt F → Text → Result (TranscriptionResult F)
  transcribe_sample a model =
      a.decoded >>= λ pcm. a.acquired >>= λ guard. answer_of a.inference model

  unfoldable pub result_of : Attempt F → Text → Text → Result (TranscriptionResult F) → EvalResult
  unfolding pre_render_text for_language
  result_of a model sample (ok r) =
      let text = rendered converter (for_language language) r.text in
      record {
        run_id = run_id;
        sample_id = sample;
        model_id = model;
        text = text;
        raw_text = pre_render_text r.text text;
        inference_ms = a.inference_ms;
        error_message = none;
      }
  result_of a model sample (err e) = record {
    run_id = run_id;
    sample_id = sample;
    model_id = model;
    text = [];
    raw_text = none;
    inference_ms = 0;
    error_message = some (display e);
  }

  -- One sample, and its result, which is not stored yet.
  unfoldable pub execute_sample : ℕ → ℕ → Text → Text → Runner → Runner × EvalResult
  unfolding transcribe_sample result_of
  execute_sample mi si model sample s =
      let a = attempts mi si in
      (
        publish mi model (suc si) (record s { loaded = a.resident }),
        result_of a model sample (transcribe_sample a model),
      )

  -- The samples of one candidate, and whether the run was stopped among them.
  unfoldable pub execute_samples : ℕ → ℕ → Text → List Text → Runner → Runner × Result Bool
  unfolding execute_sample
  execute_samples mi si model [] s = (s, ok false)
  execute_samples mi si model (sample ∷ samples) s =
      let (t, r) = execute_sample mi si model sample s in
      elim (attempts mi si).cancelled [
        | true ↦ (s, ok true)
        | false ↦ elim (attempts mi si).stored [
          | true ↦ execute_samples mi (suc si) model samples (insert_result r t)
          | false ↦ (t, err (database_error detail))
        ]
      ]

  abbrev pub run_model_of : ℕ → Load → RunModel
  run_model_of mi l = elim l.acquired [
    | ok resident ↦ record {
      model_index = mi;
      quant = l.quant;
      file_size_bytes = l.file_size_bytes;
      cold_load_ms = l.cold_load_ms;
      resident_bytes = resident;
      load_failed = false;
      failure_reason = none;
    }
    | err e ↦ record {
      model_index = mi;
      quant = l.quant;
      file_size_bytes = l.file_size_bytes;
      cold_load_ms = l.cold_load_ms;
      resident_bytes = 0;
      load_failed = true;
      failure_reason = some (display e);
    }
  ]

  -- The load of a candidate, once all that is resident is unloaded, and the store of its row.
  unfoldable pub load_candidate : ℕ → Text → Runner → Runner
  load_candidate mi model s =
      let l = loads mi in
      let t = publish mi model 0 s in
      record t {
        loaded = l.resident;
        run_models =
            if l.stored then insert model (run_model_of mi l) s.run_models else s.run_models;
      }

  unfoldable pub execute_candidate : ℕ → Text → List Text → Runner → Runner × Result Bool
  unfolding load_candidate execute_samples
  execute_candidate mi model samples s =
      let t = load_candidate mi model s in
      elim (loads mi).stored [
        | false ↦ (t, err (database_error detail))
        | true ↦ elim (loads mi).acquired [
          | err e ↦ (t, ok false)
          | ok _ ↦
              let (u, r) = execute_samples mi 0 model samples t in
              elim r [
                | err e ↦ (u, err e)
                | ok stopped ↦ (record u { loaded = unload model u.loaded }, ok stopped)
              ]
        ]
      ]

  -- The candidates from the index `mi` on.
  unfoldable pub execute : ℕ → List Text → List Text → Runner → Runner × Result RunOutcome
  unfolding execute_candidate
  execute mi [] samples s = (s, ok completes)
  execute mi (model ∷ models) samples s =
      let (t, r) = execute_candidate mi model samples s in
      elim (loads mi).cancelled [
        | true ↦ (s, ok cancels)
        | false ↦ elim r [
          | err e ↦ (t, err e)
          | ok true ↦ (t, ok cancels)
          | ok false ↦ execute (suc mi) models samples t
        ]
      ]
