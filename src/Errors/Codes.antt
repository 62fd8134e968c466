-- ===== src/Errors/Codes.antt =====
-- The codes of the errors, `AsrError::code` (error.rs).
use app_cortex_stt.Common.{ℕ, ◌≡◌, refl, ap, String, some, KeyMap, lookup, [], ◌∷◌, string_key}
use app_cortex_stt.Errors.{AsrError, code}

-- The place of an error's variant in the enum.
abbrev pub variant : AsrError → ℕ
variant (AsrError.model_not_found _) = 0
variant (AsrError.model_file_not_found _) = 1
variant (AsrError.variant_not_installed _ _) = 2
variant (AsrError.variant_required _ _) = 3
variant (AsrError.inference_failed _ _) = 4
variant (AsrError.inference_timeout _ _) = 5
variant (AsrError.engine_panic _) = 6
variant (AsrError.pool_acquire_timeout _ _) = 7
variant (AsrError.model_not_loaded _) = 8
variant (AsrError.audio_format_error _) = 9
variant (AsrError.input_too_long _ _) = 10
variant AsrError.streaming_unsupported = 11
variant (AsrError.stream_protocol _) = 12
variant (AsrError.protocol_error _) = 13
variant (AsrError.database_error _) = 14
variant (AsrError.download_failed _ _) = 15
variant AsrError.auth_required = 16
variant AsrError.invalid_api_key = 17
variant (AsrError.forbidden _) = 18
variant (AsrError.download_in_progress _) = 19
variant (AsrError.service_unavailable _) = 20
variant (AsrError.record_not_found _) = 21
variant (AsrError.no_audio _) = 22
variant AsrError.eval_audio_not_lossless = 23
variant (AsrError.eval_sample_exists _) = 24
variant (AsrError.eval_sample_not_found _) = 25
variant (AsrError.eval_run_not_found _) = 26
variant AsrError.eval_run_in_progress = 27
variant (AsrError.eval_run_not_running _) = 28
variant (AsrError.eval_blocked_by_download _) = 29
variant (AsrError.job_not_found _) = 30
variant (AsrError.job_not_complete _) = 31
variant (AsrError.job_cancelled _) = 32
variant (AsrError.job_failed _) = 33
variant AsrError.not_in_supervisor = 34
variant AsrError.no_system_api_key = 35
variant (AsrError.hostname_lookup _) = 36
variant (AsrError.supervisor_rejected _ _) = 37
variant (AsrError.supervisor_request_failed _) = 38
variant (AsrError.io _) = 39
variant (AsrError.json _) = 40

-- The table of the codes, in the order of the enum.
abbrev table : KeyMap String ℕ
table =
    ("MODEL_NOT_FOUND", 0)
    ∷ ("MODEL_FILE_NOT_FOUND", 1)
    ∷ ("VARIANT_NOT_INSTALLED", 2)
    ∷ ("VARIANT_REQUIRED", 3)
    ∷ ("INFERENCE_FAILED", 4)
    ∷ ("INFERENCE_TIMEOUT", 5)
    ∷ ("ENGINE_PANIC", 6)
    ∷ ("POOL_EXHAUSTED", 7)
    ∷ ("MODEL_NOT_LOADED", 8)
    ∷ ("AUDIO_FORMAT_ERROR", 9)
    ∷ ("INPUT_TOO_LONG", 10)
    ∷ ("STREAMING_UNSUPPORTED", 11)
    ∷ ("STREAM_PROTOCOL", 12)
    ∷ ("PROTOCOL_ERROR", 13)
    ∷ ("DATABASE_ERROR", 14)
    ∷ ("DOWNLOAD_FAILED", 15)
    ∷ ("AUTH_REQUIRED", 16)
    ∷ ("INVALID_API_KEY", 17)
    ∷ ("FORBIDDEN", 18)
    ∷ ("DOWNLOAD_IN_PROGRESS", 19)
    ∷ ("SERVICE_UNAVAILABLE", 20)
    ∷ ("RECORD_NOT_FOUND", 21)
    ∷ ("NO_AUDIO", 22)
    ∷ ("EVAL_AUDIO_NOT_LOSSLESS", 23)
    ∷ ("EVAL_SAMPLE_EXISTS", 24)
    ∷ ("EVAL_SAMPLE_NOT_FOUND", 25)
    ∷ ("EVAL_RUN_NOT_FOUND", 26)
    ∷ ("EVAL_RUN_IN_PROGRESS", 27)
    ∷ ("EVAL_RUN_NOT_RUNNING", 28)
    ∷ ("EVAL_BLOCKED_BY_DOWNLOAD", 29)
    ∷ ("JOB_NOT_FOUND", 30)
    ∷ ("JOB_NOT_COMPLETE", 31)
    ∷ ("JOB_CANCELLED", 32)
    ∷ ("JOB_FAILED", 33)
    ∷ ("NOT_IN_SUPERVISOR", 34)
    ∷ ("NO_API_KEY", 35)
    ∷ ("HOSTNAME_LOOKUP_FAILED", 36)
    ∷ ("SUPERVISOR_REJECTED", 37)
    ∷ ("HTTP_ERROR", 38)
    ∷ ("IO_ERROR", 39)
    ∷ ("JSON_ERROR", 40)
    ∷ []

-- A client that reads the code has the variant.
lookup-code : (e : AsrError) → lookup (code e) table ≡ some (variant e)
unfolding lookup code string_key
lookup-code (AsrError.model_not_found _) = refl
lookup-code (AsrError.model_file_not_found _) = refl
lookup-code (AsrError.variant_not_installed _ _) = refl
lookup-code (AsrError.variant_required _ _) = refl
lookup-code (AsrError.inference_failed _ _) = refl
lookup-code (AsrError.inference_timeout _ _) = refl
lookup-code (AsrError.engine_panic _) = refl
lookup-code (AsrError.pool_acquire_timeout _ _) = refl
lookup-code (AsrError.model_not_loaded _) = refl
lookup-code (AsrError.audio_format_error _) = refl
lookup-code (AsrError.input_too_long _ _) = refl
lookup-code AsrError.streaming_unsupported = refl
lookup-code (AsrError.stream_protocol _) = refl
lookup-code (AsrError.protocol_error _) = refl
lookup-code (AsrError.database_error _) = refl
lookup-code (AsrError.download_failed _ _) = refl
lookup-code AsrError.auth_required = refl
lookup-code AsrError.invalid_api_key = refl
lookup-code (AsrError.forbidden _) = refl
lookup-code (AsrError.download_in_progress _) = refl
lookup-code (AsrError.service_unavailable _) = refl
lookup-code (AsrError.record_not_found _) = refl
lookup-code (AsrError.no_audio _) = refl
lookup-code AsrError.eval_audio_not_lossless = refl
lookup-code (AsrError.eval_sample_exists _) = refl
lookup-code (AsrError.eval_sample_not_found _) = refl
lookup-code (AsrError.eval_run_not_found _) = refl
lookup-code AsrError.eval_run_in_progress = refl
lookup-code (AsrError.eval_run_not_running _) = refl
lookup-code (AsrError.eval_blocked_by_download _) = refl
lookup-code (AsrError.job_not_found _) = refl
lookup-code (AsrError.job_not_complete _) = refl
lookup-code (AsrError.job_cancelled _) = refl
lookup-code (AsrError.job_failed _) = refl
lookup-code AsrError.not_in_supervisor = refl
lookup-code AsrError.no_system_api_key = refl
lookup-code (AsrError.hostname_lookup _) = refl
lookup-code (AsrError.supervisor_rejected _ _) = refl
lookup-code (AsrError.supervisor_request_failed _) = refl
lookup-code (AsrError.io _) = refl
lookup-code (AsrError.json _) = refl

-- The codes are one to one with the variants: two errors with the same code are of the same
-- variant.
pub code-injective : (a b : AsrError) → code a ≡ code b → variant a ≡ variant b
code-injective a b h = cc (lookup-code a, lookup-code b, ap (λ s. lookup s table) h)
