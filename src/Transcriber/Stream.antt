-- ===== src/Transcriber/Stream.antt =====
-- The socket of a stream session (cortex-stt/src/api/stream.rs): the check of the start message
-- and the loop over the client's frames. The socket's next frame is an argument, with what the
-- session's calls of the engine come to.
use app_cortex_stt.Common.{
  ℕ, Bool, true, false, not, List, [], ◌∷◌, Option, none, some, Text, codes, ◌==◌, text_eq,
  if◌then◌else◌, is_empty, take,
}
use app_cortex_stt.Errors.{AsrError, stream_protocol, Result, ok, err}
use app_cortex_stt.Rendering.{Config}
use app_cortex_stt.History.{History, ws_api}
use app_cortex_stt.Transcriber.{
  Recorder, TranscriptionResult, StreamSnapshot, AudioStats, TranscribeResponse, StreamMeta,
  sample_rate,
}
use app_cortex_stt.Transcriber.Session.{
  Call, StreamSession, Opening, open_stream, feed, finalize, abort, drop_session,
}

pub record StartMessage : Type 0 where
  pub model : Text
  pub language : Option Text
  pub format : Option Text
  pub sample_rate : Option ℕ
  pub channels : Option ℕ
  pub capture_device : Option Text

abbrev pub unless_text : Option Text → Text → Bool
unless_text none t = false
unless_text (some s) t = not (text_eq s t)

abbrev pub unless_number : Option ℕ → ℕ → Bool
unless_number none n = false
unless_number (some m) n = not (m == n)

unfoldable pub validate_start : StartMessage → Result (Unit {0})
validate_start start =
    if unless_text start.format (codes "pcm_s16le")
    then err (stream_protocol (codes "unsupported format (only pcm_s16le)"))
    else if unless_number start.sample_rate sample_rate
    then err (stream_protocol (codes "unsupported sample_rate (only 16000)"))
    else if unless_number start.channels 1
    then err (stream_protocol (codes "unsupported channels (only mono)"))
    else if is_empty start.model
    then err (stream_protocol (codes "model is required"))
    else ok tt

-- `clamp_capture_device` of api/transcribe.rs.
unfoldable pub clamp_capture_device : Option Text → Option Text
clamp_capture_device none = none
clamp_capture_device (some v) = if is_empty (take 128 v) then none else some (take 128 v)

-- What the client does next: nothing for a minute, audio (decoded, with what the engine gives for
-- it and whether the partial result can be sent), the end, another text, a ping, or it is gone.
pub data Frame (F : Type 0) : Type 0 where
  silence : Frame F
  binary : Result (List F) → Call StreamSnapshot → Bool → Frame F
  finalizes : Call (TranscriptionResult F) → Bool → ℕ → Frame F
  other_text : Frame F
  ping : Frame F
  gone : Frame F

pub data ServerEvent (F : Type 0) : Type 0 where
  ready : Bool → ServerEvent F
  partial : StreamSnapshot → ServerEvent F
  final : TranscribeResponse F → ServerEvent F
  error : AsrError → ServerEvent F

abbrev pub idle : AsrError
idle = stream_protocol (codes "no client frames for 60s; closing idle stream")

abbrev pub unexpected : AsrError
unexpected = stream_protocol (codes "unexpected message during active stream")

abbrev pub is_new_revision : Option ℕ → ℕ → Bool
is_new_revision none n = true
is_new_revision (some m) n = not (m == n)

-- What the loop does with a fed frame: to go on, with the last revision, or to end.
pub data Fed (F : Type 0) : Type 0 where
  goes_on : Option ℕ → List (ServerEvent F) → Fed F
  ends : List (ServerEvent F) → Fed F

module _ {F : Type 0} where
  abbrev pub answer : Result (TranscribeResponse F) → ServerEvent F
  answer (ok response) = final response
  answer (err e) = error e

  unfoldable pub after_feed : Option ℕ → Bool → Result (Option StreamSnapshot) → Fed F
  after_feed last delivered (err e) = ends (error e ∷ [])
  after_feed last delivered (ok none) = goes_on last []
  after_feed last delivered (ok (some snapshot)) =
      if is_new_revision last snapshot.revision
      then (if delivered then goes_on (some snapshot.revision) (partial snapshot ∷ []) else ends [])
      else goes_on last []

  abbrev pub sends :
      List (ServerEvent F) → History F × List (ServerEvent F) → History F × List (ServerEvent F)
  sends [] (rows, events) = (rows, events)
  sends (e ∷ es) (rows, events) = (rows, e ∷ events)

module _ {F : Type 0} (display : AsrError → Text) (stats_of : List F → Option (AudioStats F))
    (converter : Config → Option (Text → Text)) (recorder : Recorder F) where
  -- The history's rows and the events that are sent. Where the socket ends, and where the loop
  -- returns with a session, the session is dropped.
  unfoldable pub pump :
      List (Frame F) → Option ℕ → StreamSession F → History F → History F × List (ServerEvent F)
  unfolding feed finalize abort drop_session after_feed
  pump [] last s rows = (drop_session display stats_of converter recorder s rows, [])
  pump (silence ∷ frames) last s rows =
      (abort display stats_of converter recorder idle s rows, error idle ∷ [])
  pump (binary (err e) call delivered ∷ frames) last s rows =
      (abort display stats_of converter recorder e s rows, error e ∷ [])
  pump (binary (ok samples) call delivered ∷ frames) last s rows =
      let (s', rows', r) = feed display stats_of converter recorder s samples call rows in
      elim (after_feed last delivered r) [
        | goes_on last' sent ↦ sends sent (pump frames last' s' rows')
        | ends sent ↦ (drop_session display stats_of converter recorder s' rows', sent)
      ]
  pump (finalizes call late inference ∷ frames) last s rows =
      let (rows', r) = finalize display stats_of converter recorder s call late inference rows in
      (rows', answer r ∷ [])
  pump (other_text ∷ frames) last s rows =
      (abort display stats_of converter recorder unexpected s rows, error unexpected ∷ [])
  pump (ping ∷ frames) last s rows = pump frames last s rows
  pump (gone ∷ frames) last s rows = (drop_session display stats_of converter recorder s rows, [])

-- The first frame that is no ping.
pub data FirstFrame : Type 0 where
  starts : StartMessage → FirstFrame
  not_a_start : FirstFrame
  first_silence : FirstFrame
  leaves : FirstFrame

abbrev pub not_started : AsrError
not_started = stream_protocol (codes "first message must be a start message")

module _ {F : Type 0} (display : AsrError → Text) (stats_of : List F → Option (AudioStats F))
    (converter : Config → Option (Text → Text)) (recorder : Recorder F) where
  -- `delivered` says that the ready event can be sent.
  unfoldable pub serve :
      Bool
      → List (Frame F)
      → History F × Result (StreamSession F)
      → History F × List (ServerEvent F)
  unfolding pump drop_session
  serve delivered frames (rows, err e) = (rows, error e ∷ [])
  serve true frames (rows, ok session) =
      let (rows', events) = pump display stats_of converter recorder frames none session rows in
      (rows', ready session.engine_streaming ∷ events)
  serve false frames (rows, ok session) =
      (drop_session display stats_of converter recorder session rows, [])

  unfoldable pub handle_socket :
      FirstFrame
      → Option Text
      → Opening
      → Bool
      → List (Frame F)
      → History F
      → History F × List (ServerEvent F)
  unfolding validate_start clamp_capture_device open_stream serve
  handle_socket not_a_start key o delivered frames rows = (rows, error not_started ∷ [])
  handle_socket first_silence key o delivered frames rows = (rows, error idle ∷ [])
  handle_socket leaves key o delivered frames rows = (rows, [])
  handle_socket (starts start) key o delivered frames rows =
      let meta : StreamMeta = record {
        model = start.model;
        language = start.language;
        source = ws_api;
        api_key_id = key;
        capture_device = clamp_capture_device start.capture_device;
      } in
      elim (validate_start start) [
        | err e ↦ (rows, error e ∷ [])
        | ok _ ↦
            serve delivered frames
              (open_stream display stats_of converter recorder o meta start.language rows)
      ]
