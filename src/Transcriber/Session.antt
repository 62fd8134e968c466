-- ===== src/Transcriber/Session.antt =====
-- A stream session (transcriber.rs): `open_stream`, `feed`, `finalize`, `abort` and the drop of a
-- session. What an engine call comes to, and whether a deadline passes first, is an argument.
use app_cortex_stt.Common.{
  ℕ, ◌+◌, ◌*◌, ◌/◌, Bool, true, false, List, [], ◌++◌, Option, none, some, Text, codes, length,
  if◌then◌else◌,
}
use app_cortex_stt.Errors.{
  AsrError, stream_protocol, engine_panic, inference_timeout, Result, ok, err,
}
use app_cortex_stt.Variants.{VariantKey, as_key}
use app_cortex_stt.Rendering.{Config, for_language}
use app_cortex_stt.History.{History}
use app_cortex_stt.Transcriber.{
  Recorder, TranscriptionResult, StreamSnapshot, EngineCapabilities, AcquireMetrics, AudioStats,
  TranscribeResponse, StreamMeta, from_stream, sample_rate, InputLimit, check_stream, from_result,
  save_to_history, on_failure,
}

-- A blocking engine call: it returns, or its task is lost, as in a panic that is not caught.
pub data Call (A : Type 0) : Type 0 where
  returned : Result A → Call A
  lost : Call A

-- A session that is open holds a slot of the pool.
pub data SessionState : Type 0 where
  opened : SessionState
  closed : SessionState

pub record StreamSession (F : Type 0) : Type 0 where
  pub meta : StreamMeta
  pub language : Option Text
  pub state : SessionState
  pub engine_streaming : Bool
  pub buffer : List F
  pub save_audio : Bool
  pub timeout_secs : Option ℕ
  pub limit : InputLimit
  pub device : Text
  pub metrics : AcquireMetrics

abbrev pub ms_of : ℕ → ℕ
ms_of samples = samples * 1000 / sample_rate

abbrev pub finished : AsrError
finished = stream_protocol (codes "stream already finished")

module _ {F : Type 0} where
  unfoldable pub buffered_ms : StreamSession F → ℕ
  buffered_ms s = ms_of (length s.buffer)

  abbrev pub put_state : SessionState → StreamSession F → StreamSession F
  put_state state s = record s { state = state }

-- What an open session becomes by a call, and what the call gives.
unfoldable pub call_in : {A : Type 0} → SessionState → Call A → Text → SessionState × Result A
call_in closed call model = (closed, err finished)
call_in opened (returned r) model = (opened, r)
call_in opened lost model = (closed, err (engine_panic model))

-- What a step gives under a deadline, where `late` says that the deadline passes before it ends.
unfoldable pub enforce : {A : Type 0} → Option ℕ → Bool → Text → Result A → Result A
enforce none late model r = r
enforce (some secs) late model r = if late then err (inference_timeout model secs) else r

module _ {F : Type 0} where
  unfoldable pub run_on_engine :
      {A : Type 0} → StreamSession F → Call A → StreamSession F × Result A
  unfolding call_in
  run_on_engine s call =
      let (state, r) = call_in s.state call s.meta.model in (put_state state s, r)

  -- An engine stream that does not begin leaves the session buffering.
  unfoldable pub begin_stream : Bool → Call (Unit {0}) → StreamSession F → StreamSession F
  unfolding run_on_engine
  begin_stream supports call s =
      let (s', r) = run_on_engine s call in
      if supports then elim r [ ok _ ↦ record s' { engine_streaming = true } | err e ↦ s' ] else s

-- What is known of a request for a session: the settings, the Variant, the slot of the pool with
-- its metrics, whether the deadline passed before it, and what the engine says.
pub record Opening : Type 0 where
  pub save_audio : Bool
  pub timeout_secs : Option ℕ
  pub resolved : Result VariantKey
  pub acquired : Result AcquireMetrics
  pub late : Bool
  pub capabilities : Result EngineCapabilities
  pub device : Text
  pub begun : Call (Unit {0})

-- `display` is the message of an error, `stats_of` the levels of the samples.
module _ {F : Type 0} (display : AsrError → Text) (stats_of : List F → Option (AudioStats F))
    (converter : Config → Option (Text → Text)) (recorder : Recorder F) where
  -- The session is closed and the failure recorded.
  unfoldable pub fail : AsrError → StreamSession F → History F → StreamSession F × History F
  unfolding on_failure from_stream buffered_ms
  fail e s rows = (
    put_state closed s,
    on_failure recorder (from_stream s.meta (buffered_ms s)) (display e) rows,
  )

  abbrev pub failing :
      AsrError
      → StreamSession F
      → History F
      → StreamSession F × History F × Result (Option StreamSnapshot)
  failing e s rows = let (s', rows') = fail e s rows in (s', rows', err e)

  -- The end of a feed, once the samples are in the buffer.
  unfoldable pub feed_engine :
      StreamSession F
      → Call StreamSnapshot
      → History F
      → StreamSession F × History F × Result (Option StreamSnapshot)
  unfolding fail run_on_engine
  feed_engine s call rows =
      let (s', r) = run_on_engine s call in
      if s.engine_streaming
      then elim r [ ok snapshot ↦ (s', rows, ok (some snapshot)) | err e ↦ failing e s' rows ]
      else (s, rows, ok none)

  unfoldable pub feed_open :
      StreamSession F
      → List F
      → Call StreamSnapshot
      → History F
      → StreamSession F × History F × Result (Option StreamSnapshot)
  unfolding feed_engine check_stream
  feed_open s samples call rows =
      elim (check_stream s.limit s.meta.model (buffered_ms s + ms_of (length samples))) [
        | err e ↦ failing e s rows
        | ok _ ↦ feed_engine (record s { buffer = s.buffer ++ samples }) call rows
      ]

  unfoldable pub feed :
      StreamSession F
      → List F
      → Call StreamSnapshot
      → History F
      → StreamSession F × History F × Result (Option StreamSnapshot)
  unfolding feed_open
  feed s samples call rows = elim s.state [
    | closed ↦ (s, rows, err finished)
    | opened ↦ feed_open s samples call rows
  ]

  -- The end of a session by its result; `inference` is the time that the engine took.
  unfoldable pub conclude :
      StreamSession F
      → ℕ
      → Result (TranscriptionResult F)
      → History F
      → History F × Result (TranscribeResponse F)
  unfolding from_result save_to_history on_failure from_stream buffered_ms for_language
  conclude s inference (ok result) rows =
      let response =
        from_result converter result s.meta.model (buffered_ms s) inference s.metrics s.device
          (for_language s.language) in
      (
        save_to_history recorder (from_stream s.meta (buffered_ms s))
            (if s.save_audio then some s.buffer else none) (stats_of s.buffer) response rows,
        ok response,
      )
  conclude s inference (err e) rows =
      (on_failure recorder (from_stream s.meta (buffered_ms s)) (display e) rows, err e)

  -- `call` is the engine's end of its stream, or the transcription of the whole buffer.
  unfoldable pub finalize :
      StreamSession F
      → Call (TranscriptionResult F)
      → Bool
      → ℕ
      → History F
      → History F × Result (TranscribeResponse F)
  unfolding conclude enforce run_on_engine
  finalize s call late inference rows = elim s.state [
    | closed ↦ (rows, err finished)
    | opened ↦
        conclude s inference (enforce s.timeout_secs late s.meta.model (run_on_engine s call).1)
          rows
  ]

  unfoldable pub abort : AsrError → StreamSession F → History F → History F
  unfolding fail
  abort e s rows = elim s.state [ closed ↦ rows | opened ↦ (fail e s rows).1 ]

  -- What the drop of a session records.
  unfoldable pub drop_session : StreamSession F → History F → History F
  unfolding on_failure from_stream buffered_ms
  drop_session s rows = elim s.state [
    | closed ↦ rows
    | opened ↦
        if recorder.has_runtime
        then on_failure recorder (from_stream s.meta (buffered_ms s))
            (codes "client disconnected before completion") rows
        else rows
  ]

  abbrev pub refused : StreamMeta → AsrError → History F → History F × Result (StreamSession F)
  refused meta e rows = (on_failure recorder (from_stream meta 0) (display e) rows, err e)

  -- The rest of the opening, once the Variant is found and the slot acquired or not.
  unfoldable pub open_found :
      Opening
      → StreamMeta
      → Option Text
      → History F
      → Result AcquireMetrics
      → Result EngineCapabilities
      → History F × Result (StreamSession F)
  unfolding on_failure from_stream begin_stream
  open_found o meta language rows (err e) capabilities = refused meta e rows
  open_found o meta language rows (ok metrics) (err e) = refused meta e rows
  open_found o meta language rows (ok metrics) (ok caps) = (
    rows,
    ok (
        begin_stream caps.supports_streaming o.begun (record {
          meta = meta;
          language = language;
          state = opened;
          engine_streaming = false;
          buffer = [];
          save_audio = o.save_audio;
          timeout_secs = o.timeout_secs;
          limit = record { max_audio_ms = caps.max_audio_ms };
          device = o.device;
          metrics = metrics;
        })),
  )

  unfoldable pub open_stream :
      Opening → StreamMeta → Option Text → History F → History F × Result (StreamSession F)
  unfolding as_key enforce open_found
  open_stream o meta language rows = elim o.resolved [
    | err e ↦ refused meta e rows
    | ok key ↦
        let meta' = record meta { model = as_key key } in
        open_found o meta' language rows (enforce o.timeout_secs o.late meta'.model o.acquired)
          o.capabilities
  ]
