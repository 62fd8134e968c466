-- ===== src/Transcriber/Tests.antt =====
-- Transcriptions and stream sessions at concrete inputs (transcriber.rs, api/stream.rs).
use app_cortex_stt.Common.{
  ℕ, ◌≡◌, refl, true, false, List, [], ◌∷◌, Option, none, some, Text, codes, any, text_key,
}
use app_cortex_stt.Errors.{
  AsrError, record_not_found, inference_failed, input_too_long, ok, err, is_ok,
}
use app_cortex_stt.Variants.{VariantKey}
use app_cortex_stt.Rendering.{Config}
use app_cortex_stt.History.{http_api, written}
use app_cortex_stt.History.Runs.{new}
use app_cortex_stt.Transcriber.{
  Recorder, TranscriptionResult, EngineCapabilities, AcquireMetrics, AudioStats, from_result,
}
use app_cortex_stt.Transcriber.Session.{returned, Opening}
use app_cortex_stt.Transcriber.Stream.{
  Frame, binary, finalizes, ping, StartMessage, starts, ServerEvent, ready, final, validate_start,
  handle_socket,
}
use app_cortex_stt.Transcriber.Rows.{is_final}
use app_cortex_stt.Transcriber.Opened.{
  Written, handle_socket-Written, handle_socket-lost, lost_opening,
}
use app_cortex_stt.Transcriber.Batch.{TranscribeRequest, Run, load_settings, transcribe}
use app_cortex_stt.Transcriber.Batch.Written.{Settled, goes_through, transcribe-Settled}

program : Unit {0}
unfolding validate_start handle_socket transcribe load_settings text_key from_result
program = tt

abbrev display : AsrError → Text
display e = codes "failed"

abbrev recorder : Recorder ℕ
recorder = record {
  creates = λ saved. record {
    sys = record { removes = λ f. true; reads = true; writes = true; detail = [] };
    id = codes "n";
    now = codes "1";
    audio = written 4;
  };
  has_runtime = true;
}

abbrev stats_of : List ℕ → Option (AudioStats ℕ)
stats_of l = none

abbrev converter : Config → Option (Text → Text)
converter c = none

abbrev start : StartMessage
start = record {
  model = codes "whisper:q5";
  language = some (codes "en");
  format = some (codes "pcm_s16le");
  sample_rate = some 16000;
  channels = some 1;
  capture_device = none;
}

abbrev caps : EngineCapabilities
caps = record { supports_streaming = true; max_audio_ms = 1000 }

abbrev metrics : AcquireMetrics
metrics = record { pool_wait_ms = 3; cold_load_ms = 0 }

abbrev variant : VariantKey
variant = record { model = codes "whisper"; quant = some (codes "q5") }

abbrev opening : Opening
opening = record {
  save_audio = true;
  timeout_secs = some 60;
  resolved = ok variant;
  acquired = ok metrics;
  late = false;
  capabilities = ok caps;
  device = codes "cpu";
  begun = returned (err (inference_failed (codes "whisper") (codes "no stream")));
}

abbrev result : TranscriptionResult ℕ
result = record {
  text = codes "hi";
  raw_text = codes "hi";
  language = none;
  segments = [];
  words = [];
  truncated = false;
}

abbrev whole : List (Frame ℕ)
whole =
    ping
    ∷ binary (ok (1 ∷ 2 ∷ [])) (returned (err (inference_failed [] []))) true
    ∷ finalizes (returned (ok result)) false 40
    ∷ []

start_is_valid : validate_start start ≡ ok tt
unfolding program
start_is_valid = refl

-- An engine stream that does not begin falls back to the buffer, and the session ends well.
falls_back :
    (handle_socket display stats_of converter recorder (starts start) none opening true whole new).1
    ≡ ready false
      ∷ final (from_result converter result (codes "whisper:q5") 0 40 metrics (codes "cpu") none)
      ∷ []
unfolding program
falls_back = refl

handle_socket-Written_example :
    let (rows', events) =
      handle_socket display stats_of converter recorder
        (starts start)
        none
        opening
        true
        whole
        new in
    Written recorder true new rows' (any is_final events)
handle_socket-Written_example =
    handle_socket-Written display stats_of converter recorder start none opening true whole new
      (err (inference_failed (codes "whisper") (codes "no stream"))) refl start_is_valid refl

handle_socket-lost_example :
    let (rows', events) =
      handle_socket display stats_of converter recorder
        (starts start)
        none
        (lost_opening true (some 60) variant metrics 1000 (codes "cpu"))
        true
        whole
        new in
    (rows' ≡ new) × ((rest : List (ServerEvent ℕ)) × (events ≡ ready false ∷ rest))
handle_socket-lost_example =
    handle_socket-lost display stats_of converter recorder start none true (some 60) variant metrics
      1000 (codes "cpu") whole new start_is_valid

abbrev request : TranscribeRequest ℕ
request = record {
  model = codes "whisper:q5";
  samples = 1 ∷ 2 ∷ [];
  duration_ms = 1200;
  options_language = none;
  language = none;
  source = http_api;
  api_key_id = none;
  capture_device = none;
}

abbrev run : Run ℕ
run = record {
  settings = err (record_not_found (codes "settings"));
  resolved = ok variant;
  acquired =
      ok (record {
        cold_load = true;
        elapsed_ms = 900;
        capabilities = ok caps;
        device = codes "cpu";
      });
  acquire_late = false;
  inference = returned (ok result);
  inference_late = false;
  inference_ms = 40;
}

-- An input over the engine's limit is refused.
too_long :
    (transcribe display stats_of converter recorder request run new).1
    ≡ err (input_too_long (codes "whisper:q5") 1000)
unfolding program
too_long = refl

transcribe-Settled_example :
    let (rows', answer) = transcribe display stats_of converter recorder request run new in
    Settled recorder display (load_settings run.settings).save_audio new rows' answer
    × (is_ok answer ≡ goes_through (load_settings run.settings).timeout_secs 1200 run)
transcribe-Settled_example = transcribe-Settled display stats_of converter recorder request run new

-- A history that cannot write has no row more, and the answer stays the same.
abbrev broken : Recorder ℕ
broken = record {
  creates = λ saved. record {
    sys = record { removes = λ f. true; reads = true; writes = false; detail = [] };
    id = codes "n";
    now = codes "1";
    audio = written 4;
  };
  has_runtime = true;
}

no_row : (transcribe display stats_of converter broken request run new).0.rows ≡ []
unfolding program
no_row = refl

same_answer :
    (transcribe display stats_of converter broken request run new).1
    ≡ err (input_too_long (codes "whisper:q5") 1000)
unfolding program
same_answer = refl
