-- ===== src/Transcriber/Batch/Written.antt =====
-- What a transcription leaves in the history and answers (transcriber.rs, `transcribe`).
use app_cortex_stt.Common.{
  ℕ, ◌≡◌, refl, ap, ◌∙◌, Bool, true, false, ◌&&◌, not, List, [], Option, none, some, Text, is_some,
  if◌then◌else◌, ltb,
}
use app_cortex_stt.Errors.{AsrError, input_too_long, Result, ok, err, is_ok, ◌>>=◌}
use app_cortex_stt.Variants.{VariantKey, as_key}
use app_cortex_stt.Rendering.{Config}
use app_cortex_stt.History.{History}
use app_cortex_stt.Transcriber.{
  TranscriptionResult, check_batch, EngineCapabilities, Recorder, failure_record, success_record,
  AudioStats, TranscribeResponse, Saved, save_to_history, on_failure,
}
use app_cortex_stt.Transcriber.Opened.{Written}
use app_cortex_stt.Transcriber.Rows.{store-Stored}
use app_cortex_stt.Transcriber.Session.{Call, returned, lost, enforce}
use app_cortex_stt.Transcriber.Batch.{
  TranscribeRequest, RequestSettings, Guard, Run, load_settings, from_request, attempt, settle,
  transcribe, run_inference, joined,
}

-- Whether a step ends before the deadline, if there is one.
abbrev pub in_time : Option ℕ → Bool → Bool
in_time none late = true
in_time (some secs) late = not late

-- The engine has no limit, or the input keeps to it.
abbrev pub within_limit : ℕ → ℕ → Bool
within_limit max duration = not (ltb 0 max && ltb max duration)

abbrev pub admits : Result EngineCapabilities → ℕ → Bool
admits (err e) duration = false
admits (ok caps) duration = within_limit caps.max_audio_ms duration

abbrev pub grants : Result Guard → ℕ → Bool
grants (err e) duration = false
grants (ok guard) duration = admits guard.capabilities duration

abbrev pub answers : {A : Type 0} → Call A → Bool
answers (returned r) = is_ok r
answers lost = false

-- The Variant is found, a slot is there in time, the input is admitted and the engine answers in
-- time.
abbrev pub goes_through : {F : Type 0} → Option ℕ → ℕ → Run F → Bool
goes_through timeout duration run =
    is_ok run.resolved
    && (in_time timeout run.acquire_late
        && (grants run.acquired duration
            && (in_time timeout run.inference_late && answers run.inference)))

abbrev pub message_of : {A : Type 0} → (AsrError → Text) → Result A → Option Text
message_of display (ok a) = none
message_of display (err e) = some (display e)

abbrev pub text_of : {F : Type 0} → Result (TranscribeResponse F) → Text
text_of (ok response) = response.text
text_of (err e) = []

-- What is recorded of a request says what it was answered.
pub record Settled {F : Type 0} (recorder : Recorder F) (display : AsrError → Text) (keeps : Bool)
    (rows rows' : History F) (answer : Result (TranscribeResponse F)) : Type 0 where
  pub written : Written recorder keeps rows rows' (is_ok answer)
  pub message : written.saved.fields.error_message ≡ message_of display answer
  pub text : written.saved.fields.text ≡ text_of answer

module _ {F : Type 0} (display : AsrError → Text) (stats_of : List F → Option (AudioStats F))
    (converter : Config → Option (Text → Text)) (recorder : Recorder F) where
  settle-Settled :
      (req : TranscribeRequest F) (keeps : Bool) (rows : History F)
      (r : Result (TranscribeResponse F))
      → Settled recorder display keeps rows
          (settle display stats_of converter recorder req keeps rows r).0
          (settle display stats_of converter recorder req keeps rows r).1
  unfolding settle save_to_history on_failure success_record failure_record
  settle-Settled req keeps rows (ok response) = record {
    written = record {
      saved = success keeps;
      outcome = store-Stored recorder (success keeps) rows;
      one = refl;
      has_error = refl;
      audio = kept keeps;
    };
    message = refl;
    text = refl;
  }
    where
      success : Bool → Saved F
      success b =
          success_record (from_request req) (if b then some req.samples else none)
            (stats_of req.samples) response

      kept : (b : Bool) → is_some (if b then some req.samples else none) ≡ (true && b)
      kept true = refl
      kept false = refl
  settle-Settled req keeps rows (err e) = record {
    written = record {
      saved = failure_record (from_request req) (display e);
      outcome = store-Stored recorder (failure_record (from_request req) (display e)) rows;
      one = refl;
      has_error = refl;
      audio = refl;
    };
    message = refl;
    text = refl;
  }

  enforce-is_ok :
      {A : Type 0} (timeout : Option ℕ) (late : Bool) (model : Text) (r : Result A)
      → is_ok (enforce timeout late model r) ≡ (in_time timeout late && is_ok r)
  unfolding enforce
  enforce-is_ok none late model r = refl
  enforce-is_ok (some secs) true model r = refl
  enforce-is_ok (some secs) false model r = refl

  run_inference-is_ok :
      (req : TranscribeRequest F) (guard : Guard) (call : Call (TranscriptionResult F)) (ms : ℕ)
      → is_ok (run_inference display stats_of converter recorder req guard call ms) ≡ answers call
  unfolding run_inference joined
  run_inference-is_ok req guard (returned (ok r)) ms = refl
  run_inference-is_ok req guard (returned (err e)) ms = refl
  run_inference-is_ok req guard lost ms = refl

  abbrev then_gives : {A : Type 0} → Result (Unit {0}) → Result A → Result A
  then_gives c r = c >>= λ checked. r

  check_tests-is_ok :
      {A : Type 0} (a b : Bool) (e : AsrError) (r : Result A)
      → is_ok (then_gives (if a then (if b then err e else ok tt) else ok tt) r)
        ≡ (not (a && b) && is_ok r)
  check_tests-is_ok true true e r = refl
  check_tests-is_ok true false e r = refl
  check_tests-is_ok false b e r = refl

  check_batch-is_ok :
      {A : Type 0} (max : ℕ) (model : Text) (duration : ℕ) (r : Result A)
      → is_ok (then_gives (check_batch (record { max_audio_ms = max }) model duration) r)
        ≡ (within_limit max duration && is_ok r)
  unfolding check_batch
  check_batch-is_ok max model duration r =
      check_tests-is_ok (ltb 0 max) (ltb max duration) (input_too_long model max) r

  -- The rest of an attempt, once the slot is asked for.
  granted-is_ok :
      {A : Type 0} (timeout : Option ℕ) (late : Bool) (model : Text) (r : Result Guard)
      (f : Guard → Result A) (duration : ℕ) (rest : Bool)
      → ((guard : Guard) → is_ok (f guard) ≡ (admits guard.capabilities duration && rest))
      → is_ok (enforce timeout late model r >>= f)
        ≡ (in_time timeout late && (grants r duration && rest))
  unfolding enforce
  granted-is_ok none late model (err e) f duration rest h = refl
  granted-is_ok none late model (ok guard) f duration rest h = h guard
  granted-is_ok (some secs) true model r f duration rest h = refl
  granted-is_ok (some secs) false model (err e) f duration rest h = refl
  granted-is_ok (some secs) false model (ok guard) f duration rest h = h guard

  admitted-is_ok :
      {A : Type 0} (caps : Result EngineCapabilities) (model : Text) (duration : ℕ) (r : Result A)
      → is_ok (
          caps >>= λ c.
          then_gives (check_batch (record { max_audio_ms = c.max_audio_ms }) model duration) r)
        ≡ (admits caps duration && is_ok r)
  admitted-is_ok (err e) model duration r = refl
  admitted-is_ok (ok c) model duration r = check_batch-is_ok c.max_audio_ms model duration r

  attempt-is_ok :
      (req : TranscribeRequest F) (timeout : Option ℕ) (run : Run F)
      → is_ok (attempt display stats_of converter recorder req timeout run) ≡ (
          in_time timeout run.acquire_late
          && (grants run.acquired req.duration_ms
              && (in_time timeout run.inference_late && answers run.inference)))
  unfolding attempt
  attempt-is_ok req timeout run =
      granted-is_ok timeout run.acquire_late req.model run.acquired _ req.duration_ms
        (in_time timeout run.inference_late && answers run.inference)
        (λ guard.
          let r =
            run_inference display stats_of converter recorder req guard run.inference
              run.inference_ms in
          admitted-is_ok guard.capabilities req.model req.duration_ms
            (enforce timeout run.inference_late req.model r)
          ∙ ap (λ b. admits guard.capabilities req.duration_ms && b)
              (enforce-is_ok timeout run.inference_late req.model r
                ∙ ap (λ b. in_time timeout run.inference_late && b)
                    (run_inference-is_ok req guard run.inference run.inference_ms)))

  settle-answer :
      (req : TranscribeRequest F) (keeps : Bool) (rows : History F)
      (r : Result (TranscribeResponse F))
      → (settle display stats_of converter recorder req keeps rows r).1 ≡ r
  unfolding settle
  settle-answer req keeps rows (ok response) = refl
  settle-answer req keeps rows (err e) = refl

  -- A transcription hands one record to the history on every path: without audio, marked as an error
  -- and with the error's message if it answers with an error, and else with the text of the answer,
  -- and with the samples if the settings keep them or cannot be read. The history has a row more,
  -- with those fields, if the database can write it under a new id, and no row more if the database
  -- cannot write. And the request is answered with a transcript exactly if the Variant is found, a
  -- slot is there before the deadline, the input is within the engine's limit, and the engine gives
  -- a result before the deadline.
  pub transcribe-Settled :
      (req : TranscribeRequest F) (run : Run F) (rows : History F)
      → let (rows', answer) = transcribe display stats_of converter recorder req run rows in
        Settled recorder display (load_settings run.settings).save_audio rows rows' answer
        × (is_ok answer
            ≡ goes_through (load_settings run.settings).timeout_secs req.duration_ms run)
  unfolding transcribe
  transcribe-Settled req run rows = by_variant run.resolved
    where
      settings : RequestSettings
      settings = load_settings run.settings

      by_variant :
          (r : Result VariantKey)
          → let (rows', answer) = elim r as (λ _. History F × Result (TranscribeResponse F)) [
            | err e ↦
                settle display stats_of converter recorder req settings.save_audio rows (err e)
            | ok key ↦
                let req' = record req { model = as_key key } in
                settle display stats_of converter recorder req' settings.save_audio rows
                  (attempt display stats_of converter recorder req' settings.timeout_secs run)
          ] in
            Settled recorder display settings.save_audio rows rows' answer
            × (is_ok answer ≡ (
                is_ok r
                && (in_time settings.timeout_secs run.acquire_late
                    && (grants run.acquired req.duration_ms
                        && (in_time settings.timeout_secs run.inference_late
                            && answers run.inference)))))
      by_variant (err e) = (
        settle-Settled req settings.save_audio rows (err e),
        ap is_ok (settle-answer req settings.save_audio rows (err e)),
      )
      by_variant (ok key) =
          let req' = record req { model = as_key key } in
          let r = attempt display stats_of converter recorder req' settings.timeout_secs run in
          (
            settle-Settled req' settings.save_audio rows r,
            ap is_ok (settle-answer req' settings.save_audio rows r)
                ∙ attempt-is_ok req' settings.timeout_secs run,
          )
