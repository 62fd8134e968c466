-- ===== src/Errors.antt =====
-- The errors of the server and what the wire says of them (cortex-stt/src/error.rs). A variant of
-- another library's error, `io` and `json`, holds the text of that error.
mod Codes
mod Tests
use app_cortex_stt.Common.{
  ℕ, Bool, true, false, ◌&&◌, Text, String, Option, none, some, leb, if◌then◌else◌,
}

pub data AsrError : Type 0 where
  model_not_found : Text → AsrError
  model_file_not_found : Text → AsrError
  variant_not_installed : Text → Text → AsrError
  variant_required : Text → Text → AsrError
  inference_failed : Text → Text → AsrError
  inference_timeout : Text → ℕ → AsrError
  engine_panic : Text → AsrError
  pool_acquire_timeout : Text → ℕ → AsrError
  model_not_loaded : Text → AsrError
  audio_format_error : Text → AsrError
  input_too_long : Text → ℕ → AsrError
  streaming_unsupported : AsrError
  stream_protocol : Text → AsrError
  protocol_error : Text → AsrError
  database_error : Text → AsrError
  download_failed : Text → Text → AsrError
  auth_required : AsrError
  invalid_api_key : AsrError
  forbidden : Text → AsrError
  download_in_progress : Text → AsrError
  service_unavailable : Text → AsrError
  record_not_found : Text → AsrError
  no_audio : Text → AsrError
  eval_audio_not_lossless : AsrError
  eval_sample_exists : Text → AsrError
  eval_sample_not_found : Text → AsrError
  eval_run_not_found : Text → AsrError
  eval_run_in_progress : AsrError
  eval_run_not_running : Text → AsrError
  eval_blocked_by_download : Text → AsrError
  job_not_found : Text → AsrError
  job_not_complete : Text → AsrError
  job_cancelled : Text → AsrError
  job_failed : Text → AsrError
  not_in_supervisor : AsrError
  no_system_api_key : AsrError
  hostname_lookup : Text → AsrError
  supervisor_rejected : ℕ → Text → AsrError
  supervisor_request_failed : Text → AsrError
  io : Text → AsrError
  json : Text → AsrError

-- A number that `StatusCode::from_u16` takes.
abbrev pub is_status : ℕ → Bool
is_status n = leb 100 n && leb n 999

unfoldable pub status : AsrError → ℕ
status (model_not_found _) = 404
status (model_file_not_found _) = 404
status (variant_not_installed _ _) = 404
status (variant_required _ _) = 409
status (inference_failed _ _) = 500
status (inference_timeout _ _) = 408
status (engine_panic _) = 500
status (pool_acquire_timeout _ _) = 429
status (model_not_loaded _) = 500
status (audio_format_error _) = 400
status (input_too_long _ _) = 413
status streaming_unsupported = 400
status (stream_protocol _) = 400
status (protocol_error _) = 400
status (database_error _) = 500
status (download_failed _ _) = 500
status auth_required = 401
status invalid_api_key = 401
status (forbidden _) = 403
status (download_in_progress _) = 409
status (service_unavailable _) = 503
status (record_not_found _) = 404
status (no_audio _) = 404
status eval_audio_not_lossless = 400
status (eval_sample_exists _) = 409
status (eval_sample_not_found _) = 404
status (eval_run_not_found _) = 404
status eval_run_in_progress = 409
status (eval_run_not_running _) = 409
status (eval_blocked_by_download _) = 409
status (job_not_found _) = 404
status (job_not_complete _) = 409
status (job_cancelled _) = 410
status (job_failed _) = 500
status not_in_supervisor = 503
status no_system_api_key = 412
status (hostname_lookup _) = 500
status (supervisor_rejected code body) = if is_status code then code else 502
status (supervisor_request_failed _) = 500
status (io _) = 500
status (json _) = 500

-- `StatusCode::is_server_error`.
unfoldable pub is_server_error : AsrError → Bool
unfolding status
is_server_error e = leb 500 (status e) && leb (status e) 599

unfoldable pub code : AsrError → String
code (model_not_found _) = "MODEL_NOT_FOUND"
code (model_file_not_found _) = "MODEL_FILE_NOT_FOUND"
code (variant_not_installed _ _) = "VARIANT_NOT_INSTALLED"
code (variant_required _ _) = "VARIANT_REQUIRED"
code (inference_failed _ _) = "INFERENCE_FAILED"
code (inference_timeout _ _) = "INFERENCE_TIMEOUT"
code (engine_panic _) = "ENGINE_PANIC"
code (pool_acquire_timeout _ _) = "POOL_EXHAUSTED"
code (model_not_loaded _) = "MODEL_NOT_LOADED"
code (audio_format_error _) = "AUDIO_FORMAT_ERROR"
code (input_too_long _ _) = "INPUT_TOO_LONG"
code streaming_unsupported = "STREAMING_UNSUPPORTED"
code (stream_protocol _) = "STREAM_PROTOCOL"
code (protocol_error _) = "PROTOCOL_ERROR"
code (database_error _) = "DATABASE_ERROR"
code (download_failed _ _) = "DOWNLOAD_FAILED"
code auth_required = "AUTH_REQUIRED"
code invalid_api_key = "INVALID_API_KEY"
code (forbidden _) = "FORBIDDEN"
code (download_in_progress _) = "DOWNLOAD_IN_PROGRESS"
code (service_unavailable _) = "SERVICE_UNAVAILABLE"
code (record_not_found _) = "RECORD_NOT_FOUND"
code (no_audio _) = "NO_AUDIO"
code eval_audio_not_lossless = "EVAL_AUDIO_NOT_LOSSLESS"
code (eval_sample_exists _) = "EVAL_SAMPLE_EXISTS"
code (eval_sample_not_found _) = "EVAL_SAMPLE_NOT_FOUND"
code (eval_run_not_found _) = "EVAL_RUN_NOT_FOUND"
code eval_run_in_progress = "EVAL_RUN_IN_PROGRESS"
code (eval_run_not_running _) = "EVAL_RUN_NOT_RUNNING"
code (eval_blocked_by_download _) = "EVAL_BLOCKED_BY_DOWNLOAD"
code (job_not_found _) = "JOB_NOT_FOUND"
code (job_not_complete _) = "JOB_NOT_COMPLETE"
code (job_cancelled _) = "JOB_CANCELLED"
code (job_failed _) = "JOB_FAILED"
code not_in_supervisor = "NOT_IN_SUPERVISOR"
code no_system_api_key = "NO_API_KEY"
code (hostname_lookup _) = "HOSTNAME_LOOKUP_FAILED"
code (supervisor_rejected _ _) = "SUPERVISOR_REJECTED"
code (supervisor_request_failed _) = "HTTP_ERROR"
code (io _) = "IO_ERROR"
code (json _) = "JSON_ERROR"

unfoldable pub related_id : AsrError → Option Text
related_id (model_not_found model_id) = some model_id
related_id (model_file_not_found path) = some path
related_id (variant_not_installed model_id _) = some model_id
related_id (variant_required model_id _) = some model_id
related_id (inference_failed model_id _) = some model_id
related_id (inference_timeout model_id _) = some model_id
related_id (engine_panic model_id) = some model_id
related_id (pool_acquire_timeout model_id _) = some model_id
related_id (model_not_loaded model_id) = some model_id
related_id (audio_format_error _) = none
related_id (input_too_long model_id _) = some model_id
related_id streaming_unsupported = none
related_id (stream_protocol _) = none
related_id (protocol_error _) = none
related_id (database_error _) = none
related_id (download_failed model_id _) = some model_id
related_id auth_required = none
related_id invalid_api_key = none
related_id (forbidden _) = none
related_id (download_in_progress model_id) = some model_id
related_id (service_unavailable _) = none
related_id (record_not_found record_id) = some record_id
related_id (no_audio record_id) = some record_id
related_id eval_audio_not_lossless = none
related_id (eval_sample_exists record_id) = some record_id
related_id (eval_sample_not_found sample_id) = some sample_id
related_id (eval_run_not_found run_id) = some run_id
related_id eval_run_in_progress = none
related_id (eval_run_not_running run_id) = some run_id
related_id (eval_blocked_by_download _) = none
related_id (job_not_found job_id) = some job_id
related_id (job_not_complete job_id) = some job_id
related_id (job_cancelled job_id) = some job_id
related_id (job_failed _) = none
related_id not_in_supervisor = none
related_id no_system_api_key = none
related_id (hostname_lookup _) = none
related_id (supervisor_rejected _ _) = none
related_id (supervisor_request_failed _) = none
related_id (io _) = none
related_id (json _) = none

pub data Result {ℓ} (A : Type ℓ) : Type ℓ where
  ok : A → Result A
  err : AsrError → Result A

abbrev pub is_ok {ℓ} : {A : Type ℓ} → Result A → Bool
is_ok (ok a) = true
is_ok (err e) = false

infixl 5 ◌>>=◌
abbrev pub ◌>>=◌ {ℓ κ} : {A : Type ℓ} {B : Type κ} → Result A → (A → Result B) → Result B
ok a >>= f = f a
err e >>= f = err e
