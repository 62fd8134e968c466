-- ===== src/Transcriber.antt =====
-- The transcription pipeline (cortex-stt/src/transcriber.rs): the requests, the input limit, the
-- response and the history records that both of its surfaces write. A text is its characters, `F`
-- the floating-point numbers.
pub mod Session
pub mod Stream
pub mod Batch
pub mod Rows
mod Socket
pub mod Opened
mod Tests
use app_cortex_stt.Common.{
  ℕ, ◌+◌, ◌*◌, ◌/◌, Bool, true, false, not, List, [], ◌∷◌, map, Option, none, some, Text, codes,
  ltb, if◌then◌else◌, length, trim, text_eq,
}
use app_cortex_stt.Errors.{AsrError, input_too_long, Result, ok, err}
use app_cortex_stt.Variants.{VariantKey, parse}
use app_cortex_stt.Rendering.{Config, s2t, s2tw, s2hk, t2s, render}
use app_cortex_stt.History.{
  TranscriptionSource, RecordSegment, CreateRecord, History, Io, Write, create,
}

pub record TranscriptionResult (F : Type 0) : Type 0 where
  pub text : Text
  pub raw_text : Text
  pub language : Option Text
  pub segments : List (RecordSegment F)
  pub words : List (RecordSegment F)
  pub truncated : Bool

pub record StreamSnapshot : Type 0 where
  pub display : Text
  pub committed : Text
  pub tentative : Text
  pub revision : ℕ

pub record EngineCapabilities : Type 0 where
  pub supports_streaming : Bool
  pub max_audio_ms : ℕ

pub record AcquireMetrics : Type 0 where
  pub pool_wait_ms : ℕ
  pub cold_load_ms : ℕ

-- The levels of the samples, `AudioStats`.
pub record AudioStats (F : Type 0) : Type 0 where
  pub rms_db : F
  pub peak_db : F
  pub clip_ratio : F

pub record TranscribeResponse (F : Type 0) : Type 0 where
  pub text : Text
  pub raw_text : Option Text
  pub language : Option Text
  pub segments : List (RecordSegment F)
  pub words : List (RecordSegment F)
  pub truncated : Bool
  pub model : Text
  pub duration_ms : ℕ
  pub inference_ms : ℕ
  pub model_load_ms : ℕ
  pub pool_wait_ms : ℕ
  pub cold_load_ms : ℕ
  pub device : Text
  pub applied_transforms : List Text

-- What is handed to the history: a record and the samples to keep with it.
pub record Saved (F : Type 0) : Type 0 where
  pub fields : CreateRecord F
  pub samples : Option (List F)

-- What comes of one call of `History::create`: the disk and the database, the new id, the time and
-- the writing of the audio.
pub record Creation : Type 0 where
  pub sys : Io
  pub id : Text
  pub now : Text
  pub audio : Write

-- What comes of each record that is handed to the history, and whether a runtime is there to
-- record the drop of a session.
pub record Recorder (F : Type 0) : Type 0 where
  pub creates : Saved F → Creation
  pub has_runtime : Bool

pub record RecordMeta : Type 0 where
  pub model : Text
  pub quant : Option Text
  pub language : Option Text
  pub source : TranscriptionSource
  pub api_key_id : Option Text
  pub capture_device : Option Text
  pub duration_ms : ℕ

-- What a client says of a request, `model` being the key of a Variant.
pub record StreamMeta : Type 0 where
  pub model : Text
  pub language : Option Text
  pub source : TranscriptionSource
  pub api_key_id : Option Text
  pub capture_device : Option Text

unfoldable pub from_stream : StreamMeta → ℕ → RecordMeta
unfolding parse
from_stream meta duration = record {
  model = (parse meta.model).model;
  quant = (parse meta.model).quant;
  language = meta.language;
  source = meta.source;
  api_key_id = meta.api_key_id;
  capture_device = meta.capture_device;
  duration_ms = duration;
}

abbrev pub sample_rate : ℕ
sample_rate = 16000

abbrev pub max_stream_buffer_ms : ℕ
max_stream_buffer_ms = 30 * 60 * 1000

-- The limit of an engine on its input, 0 being none.
pub record InputLimit : Type 0 where
  pub max_audio_ms : ℕ

unfoldable pub check_batch : InputLimit → Text → ℕ → Result (Unit {0})
check_batch limit model duration =
    if ltb 0 limit.max_audio_ms
    then (if ltb limit.max_audio_ms duration
        then err (input_too_long model limit.max_audio_ms)
        else ok tt)
    else ok tt

unfoldable pub stream_cap_ms : InputLimit → ℕ
stream_cap_ms limit = if ltb 0 limit.max_audio_ms then limit.max_audio_ms else max_stream_buffer_ms

unfoldable pub check_stream : InputLimit → Text → ℕ → Result (Unit {0})
unfolding stream_cap_ms
check_stream limit model total =
    if ltb (stream_cap_ms limit) total
    then err (input_too_long model (stream_cap_ms limit))
    else ok tt

-- What is archived of the model's output, if that says more than the text that is returned.
unfoldable pub raw_text_if_distinct : Text → Text → Text → Option Text
unfolding trim
raw_text_if_distinct [] model_text returned =
    if text_eq (trim model_text) (trim returned) then none else some model_text
raw_text_if_distinct (c ∷ raw) model_text returned =
    if text_eq (trim (c ∷ raw)) (trim returned)
    then (if text_eq (trim model_text) (trim returned) then none else some model_text)
    else some (c ∷ raw)

-- The id of a rendering on the wire.
unfoldable pub transform_id : Config → Text
transform_id s2t = codes "script:s2t"
transform_id s2tw = codes "script:s2tw"
transform_id s2hk = codes "script:s2hk"
transform_id t2s = codes "script:t2s"

abbrev pub rendered : (Config → Option (Text → Text)) → Option Config → Text → Text
rendered converter none text = text
rendered converter (some c) text = render converter c text

abbrev pub transform_ids : Option Config → List Text
transform_ids none = []
transform_ids (some c) = transform_id c ∷ []

module _ {F : Type 0} (converter : Config → Option (Text → Text)) where
  unfoldable pub from_result :
      TranscriptionResult F
      → Text
      → ℕ
      → ℕ
      → AcquireMetrics
      → Text
      → Option Config
      → TranscribeResponse F
  unfolding raw_text_if_distinct render transform_id
  from_result result model duration inference metrics device renderer =
      let text = rendered converter renderer result.text in
      record {
        text = text;
        raw_text = raw_text_if_distinct result.raw_text result.text text;
        language = result.language;
        segments = result.segments;
        words = result.words;
        truncated = result.truncated;
        model = model;
        duration_ms = duration;
        inference_ms = inference;
        model_load_ms = metrics.pool_wait_ms + metrics.cold_load_ms;
        pool_wait_ms = metrics.pool_wait_ms;
        cold_load_ms = metrics.cold_load_ms;
        device = device;
        applied_transforms = transform_ids renderer;
      }

module _ {F : Type 0} where
  unfoldable pub base_record : RecordMeta → CreateRecord F
  base_record meta = record {
    source = meta.source;
    language = meta.language;
    model_id = meta.model;
    quant = meta.quant;
    audio_duration_ms = meta.duration_ms;
    inference_ms = 0;
    model_load_ms = 0;
    pool_wait_ms = 0;
    cold_load_ms = 0;
    text = [];
    raw_text = none;
    segments = [];
    has_error = false;
    error_message = none;
    api_key_id = meta.api_key_id;
    device = [];
    capture_device = meta.capture_device;
    rms_db = none;
    peak_db = none;
    clip_ratio = none;
  }

  abbrev pub level : (AudioStats F → F) → Option (AudioStats F) → Option F
  level get none = none
  level get (some stats) = some (get stats)

  unfoldable pub success_record :
      RecordMeta → Option (List F) → Option (AudioStats F) → TranscribeResponse F → Saved F
  unfolding base_record
  success_record meta samples stats response = record {
    fields = record (base_record meta) {
      audio_duration_ms = response.duration_ms;
      inference_ms = response.inference_ms;
      model_load_ms = response.model_load_ms;
      pool_wait_ms = response.pool_wait_ms;
      cold_load_ms = response.cold_load_ms;
      text = response.text;
      raw_text = response.raw_text;
      segments = response.segments;
      device = response.device;
      rms_db = level (λ s. s.rms_db) stats;
      peak_db = level (λ s. s.peak_db) stats;
      clip_ratio = level (λ s. s.clip_ratio) stats;
    };
    samples = samples;
  }

  -- The record of a failure, with the text of the error. No audio is kept of a failure.
  unfoldable pub failure_record : RecordMeta → Text → Saved F
  unfolding base_record
  failure_record meta message = record {
    fields = record (base_record meta) { has_error = true; error_message = some message };
    samples = none;
  }

  abbrev pub audio_of : Option (List F) → Write → Option Write
  audio_of none w = none
  audio_of (some samples) w = some w

  -- The call of `History::create`; what it answers, an error too, only goes to the log.
  unfoldable pub store : Recorder F → Saved F → History F → History F
  unfolding create
  store recorder saved h =
      let c = recorder.creates saved in
      (create c.sys c.id c.now saved.fields (audio_of saved.samples c.audio) h).0

  unfoldable pub save_to_history :
      Recorder F
      → RecordMeta
      → Option (List F)
      → Option (AudioStats F)
      → TranscribeResponse F
      → History F
      → History F
  unfolding store success_record
  save_to_history recorder meta samples stats response h =
      store recorder (success_record meta samples stats response) h

  unfoldable pub on_failure : Recorder F → RecordMeta → Text → History F → History F
  unfolding store failure_record
  on_failure recorder meta message h = store recorder (failure_record meta message) h
