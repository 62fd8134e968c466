-- ===== src/Transcriber/Opened.antt =====
-- A whole stream session, from its start message on (api/stream.rs, `handle_socket`).
use app_cortex_stt.Common.{
  ℕ, ◌≡◌, refl, sym, ap, subst, Bool, true, false, ◌&&◌, not, List, [], ◌∷◌, Option, none, some,
  Text, arith, length, any, is_some,
}
use app_cortex_stt.Errors.{AsrError, Result, ok, err}
use app_cortex_stt.Rendering.{Config}
use app_cortex_stt.History.{History, ws_api}
use app_cortex_stt.Variants.{VariantKey, as_key}
use app_cortex_stt.Transcriber.{
  Recorder, store, failure_record, AudioStats, AcquireMetrics, EngineCapabilities, StreamMeta,
  Saved, on_failure, from_stream,
}
use app_cortex_stt.Transcriber.Session.{
  Call, lost, returned, StreamSession, opened, closed, Opening, open_stream, open_found,
  begin_stream, refused, enforce,
}
use app_cortex_stt.Transcriber.Stream.{
  Frame, silence, binary, finalizes, other_text, ping, gone, ServerEvent, StartMessage, starts,
  validate_start, clamp_capture_device, error, ready, pump, serve, handle_socket,
}
use app_cortex_stt.Transcriber.Rows.{Stored, store-Stored, is_final, Fits, OneRow}
use app_cortex_stt.Transcriber.Socket.{pump-OneRow, drop_session-OneRow}

-- One record is handed to the history: an error without audio, unless the session is done.
pub record Written {F : Type 0} (recorder : Recorder F) (save_audio : Bool) (rows rows' : History F)
    (done : Bool) : Type 0 where
  pub saved : Saved F
  pub one : rows' ≡ store recorder saved rows
  pub outcome : Stored recorder saved rows rows'
  pub has_error : saved.fields.has_error ≡ not done
  pub audio : is_some saved.samples ≡ (done && save_audio)

abbrev meta_of : StartMessage → Option Text → StreamMeta
meta_of start key = record {
  model = start.model;
  language = start.language;
  source = ws_api;
  api_key_id = key;
  capture_device = clamp_capture_device start.capture_device;
}

-- The engine can stream, and the task that begins its stream is lost.
abbrev pub lost_opening : Bool → Option ℕ → VariantKey → AcquireMetrics → ℕ → Text → Opening
lost_opening save_audio timeout variant metrics max device = record {
  save_audio = save_audio;
  timeout_secs = timeout;
  resolved = ok variant;
  acquired = ok metrics;
  late = false;
  capabilities = ok (record { supports_streaming = true; max_audio_ms = max });
  device = device;
  begun = lost;
}

module _ {F : Type 0} (display : AsrError → Text) (stats_of : List F → Option (AudioStats F))
    (converter : Config → Option (Text → Text)) (recorder : Recorder F) where
  OneRow-Written :
      {save_audio : Bool} {cap : ℕ} {rows rows' : History F} {done : Bool}
      → OneRow recorder save_audio cap rows rows' done
      → Written recorder save_audio rows rows' done
  OneRow-Written {rows = rows} {rows' = rows'} o = record {
    saved = o.saved;
    outcome = subst (Stored recorder o.saved rows) (sym o.one) (store-Stored recorder o.saved rows);
    one = o.one;
    has_error = o.has_error;
    audio = o.audio;
  }

  -- What a request for a session gives.
  abbrev Cases : Bool → Call (Unit {0}) → History F → History F × Result (StreamSession F) → Type 0
  Cases keeps begun rows (rows', err e) = Written recorder keeps rows rows' false
  Cases keeps begun rows (rows', ok s) =
      (rows' ≡ rows)
      × (s.save_audio ≡ keeps)
      × (s.buffer ≡ [])
      × ((r : Result (Unit {0})) → begun ≡ returned r → s.state ≡ opened)

  refused-Cases :
      (keeps : Bool) (begun : Call (Unit {0})) (meta : StreamMeta) (e : AsrError) (rows : History F)
      → Cases keeps begun rows (refused display stats_of converter recorder meta e rows)
  unfolding on_failure failure_record
  refused-Cases keeps begun meta e rows = record {
    saved = failure_record (from_stream meta 0) (display e);
    outcome = store-Stored recorder (failure_record (from_stream meta 0) (display e)) rows;
    one = refl;
    has_error = refl;
    audio = refl;
  }

  begin_stream-Cases :
      (supports : Bool) (begun : Call (Unit {0})) (s : StreamSession F) (rows : History F)
      → s.state ≡ opened
      → s.buffer ≡ []
      → Cases s.save_audio begun rows (rows, ok (begin_stream supports begun s))
  unfolding begin_stream
  begin_stream-Cases false begun s rows h b = (refl, refl, b, λ r e. h)
  begin_stream-Cases true lost s rows h b =
      (refl, ground (arith, h), ground (arith, h, b), λ r e. cc e)
  begin_stream-Cases true (returned (ok r)) s rows h b =
      (refl, ground (arith, h), ground (arith, h, b), λ r' e. ground (arith, h))
  begin_stream-Cases true (returned (err r)) s rows h b =
      (refl, ground (arith, h), ground (arith, h, b), λ r' e. ground (arith, h))

  -- The session that is opened once the Variant is found.
  open_found-Cases :
      (acquired : Result AcquireMetrics) (capabilities : Result EngineCapabilities) (o : Opening)
      (meta : StreamMeta) (language : Option Text) (rows : History F)
      → Cases o.save_audio o.begun rows (
          open_found display stats_of converter recorder o meta language rows acquired capabilities)
  unfolding open_found
  open_found-Cases (err e) capabilities o meta language rows =
      refused-Cases o.save_audio o.begun meta e rows
  open_found-Cases (ok metrics) (err e) o meta language rows =
      refused-Cases o.save_audio o.begun meta e rows
  open_found-Cases (ok metrics) (ok caps) o meta language rows =
      begin_stream-Cases caps.supports_streaming o.begun _ rows refl refl

  open_stream-Cases :
      (o : Opening) (meta : StreamMeta) (language : Option Text) (rows : History F)
      → Cases o.save_audio o.begun rows
          (open_stream display stats_of converter recorder o meta language rows)
  unfolding open_stream
  open_stream-Cases o meta language rows = by_variant o.resolved
    where
      by_variant :
          (r : Result VariantKey)
          → Cases o.save_audio o.begun rows (elim r as (λ _. History F × Result (StreamSession F)) [
            | err e ↦ refused display stats_of converter recorder meta e rows
            | ok key ↦
                let meta' = record meta { model = as_key key } in
                open_found display stats_of converter recorder o meta' language rows
                  (enforce o.timeout_secs o.late meta'.model o.acquired)
                  o.capabilities
          ])
      by_variant (err e) = refused-Cases o.save_audio o.begun meta e rows
      by_variant (ok key) = open_found-Cases _ o.capabilities o _ language rows

  moved :
      {keeps keeps' : Bool} {rows rows' out : History F} {done : Bool}
      → rows' ≡ rows
      → keeps' ≡ keeps
      → Written recorder keeps' rows' out done
      → Written recorder keeps rows out done
  moved {keeps} {keeps'} {rows} {rows'} {out} {done} e k w =
      subst (λ r. Written recorder keeps r out done) e
        (subst (λ b. Written recorder b rows' out done) k w)

  empty-Fits : (s : StreamSession F) → s.buffer ≡ [] → Fits s
  empty-Fits s b = omega (arith, ap length b)

  serve-Written :
      (keeps : Bool) (begun : Call (Unit {0})) (r : Result (Unit {0})) (delivered : Bool)
      (frames : List (Frame F)) (rows : History F) (out : History F × Result (StreamSession F))
      → recorder.has_runtime ≡ true
      → begun ≡ returned r
      → Cases keeps begun rows out
      → let (rows', events) = serve display stats_of converter recorder delivered frames out in
        Written recorder keeps rows rows' (any is_final events)
  unfolding serve
  serve-Written keeps begun r delivered frames rows (rows', err e) live h c = c
  serve-Written keeps begun r true frames rows (rows', ok s) live h c = moved c.0 c.1 (
      OneRow-Written (
        pump-OneRow display stats_of converter recorder live frames none s rows' (c.3 r h)
          (empty-Fits s c.2)))
  serve-Written keeps begun r false frames rows (rows', ok s) live h c = moved c.0 c.1 (
      OneRow-Written (
        drop_session-OneRow display stats_of converter recorder live s rows' (c.3 r h)
          (empty-Fits s c.2)))

  -- A stream session that starts well hands one record to the history, whether the Variant, the
  -- slot or the engine is refused, the client sends what it should or not, or it is gone: an error
  -- without audio, unless a final event was sent, and then with the audio if the settings keep it.
  -- The history has a row more, with the fields of that record, if the database can write it under
  -- a new id, and no row more if the database cannot write. The task that begins the engine's
  -- stream is not lost, and a runtime is there to record the drop of a session.
  pub handle_socket-Written :
      (start : StartMessage) (key : Option Text) (o : Opening) (delivered : Bool)
      (frames : List (Frame F)) (rows : History F) (r : Result (Unit {0}))
      → recorder.has_runtime ≡ true
      → validate_start start ≡ ok tt
      → o.begun ≡ returned r
      → let (rows', events) =
          handle_socket display stats_of converter recorder
            (starts start)
            key
            o
            delivered
            frames
            rows in
        Written recorder o.save_audio rows rows' (any is_final events)
  unfolding handle_socket
  handle_socket-Written start key o delivered frames rows r live valid begun =
      subst
        (λ v.
          let (rows', events) = elim v as (λ _. History F × List (ServerEvent F)) [
            | err e ↦ (rows, error e ∷ [])
            | ok _ ↦ serve display stats_of converter recorder delivered frames (
                open_stream display stats_of converter recorder o (meta_of start key) start.language
                  rows)
          ] in
          Written recorder o.save_audio rows rows' (any is_final events))
        (sym valid)
        (serve-Written o.save_audio o.begun r delivered frames rows
          (open_stream display stats_of converter recorder o (meta_of start key) start.language
            rows)
          live begun (open_stream-Cases o (meta_of start key) start.language rows))

  -- A closed session writes nothing more.
  pump_closed :
      (frames : List (Frame F)) (last : Option ℕ) (s : StreamSession F) (rows : History F)
      → s.state ≡ closed
      → (pump display stats_of converter recorder frames last s rows).0 ≡ rows
  unfolding pump
  pump_closed [] last s rows h = ground (arith, h)
  pump_closed (silence ∷ frames) last s rows h = ground (arith, h)
  pump_closed (binary (err e) call delivered ∷ frames) last s rows h = ground (arith, h)
  pump_closed (binary (ok samples) call delivered ∷ frames) last s rows h = ground (arith, h)
  pump_closed (finalizes call late inference ∷ frames) last s rows h = ground (arith, h)
  pump_closed (other_text ∷ frames) last s rows h = ground (arith, h)
  pump_closed (ping ∷ frames) last s rows h = pump_closed frames last s rows h
  pump_closed (gone ∷ frames) last s rows h = ground (arith, h)

  -- The session that is opened is closed.
  open_stream_lost :
      (save_audio : Bool) (timeout : Option ℕ) (variant : VariantKey) (metrics : AcquireMetrics)
      (max : ℕ) (device : Text) (meta : StreamMeta) (language : Option Text) (rows : History F)
      → (s : StreamSession F) × (open_stream display stats_of converter recorder
            (lost_opening save_audio timeout variant metrics max device)
            meta
            language
            rows
          ≡ (rows, ok s))
        × (s.state ≡ closed)
        × (s.engine_streaming ≡ false)
  unfolding open_stream
  open_stream_lost save_audio none variant metrics max device meta language rows =
      (_, refl, refl, refl)
  open_stream_lost save_audio (some secs) variant metrics max device meta language rows =
      (_, refl, refl, refl)

  -- Where the task that begins the engine's stream is lost, the session is announced as ready all
  -- the same and leaves no row, whatever follows: it does not fall back to a buffer, as after a
  -- beginning that fails.
  pub handle_socket-lost :
      (start : StartMessage) (key : Option Text) (save_audio : Bool) (timeout : Option ℕ)
      (variant : VariantKey) (metrics : AcquireMetrics) (max : ℕ) (device : Text)
      (frames : List (Frame F)) (rows : History F)
      → validate_start start ≡ ok tt
      → let (rows', events) =
          handle_socket display stats_of converter recorder
            (starts start)
            key
            (lost_opening save_audio timeout variant metrics max device)
            true
            frames
            rows in
        (rows' ≡ rows) × ((rest : List (ServerEvent F)) × (events ≡ ready false ∷ rest))
  unfolding handle_socket
  handle_socket-lost start key save_audio timeout variant metrics max device frames rows valid =
      let o = lost_opening save_audio timeout variant metrics max device in
      let (s, e, shut, streaming) =
        open_stream_lost save_audio timeout variant metrics max device (meta_of start key)
          start.language rows in
      subst
        (λ v.
          let (rows', events) = elim v as (λ _. History F × List (ServerEvent F)) [
            | err e ↦ (rows, error e ∷ [])
            | ok _ ↦ serve display stats_of converter recorder true frames (
                open_stream display stats_of converter recorder o (meta_of start key) start.language
                  rows)
          ] in
          (rows' ≡ rows) × ((rest : List (ServerEvent F)) × (events ≡ ready false ∷ rest)))
        (sym valid)
        (subst
          (λ out.
            let (rows', events) = serve display stats_of converter recorder true frames out in
            (rows' ≡ rows) × ((rest : List (ServerEvent F)) × (events ≡ ready false ∷ rest)))
          (sym e)
          ((
            pump_closed frames none s rows shut,
            (
              (pump display stats_of converter recorder frames none s rows).1,
              ap (λ b. ready b ∷ (pump display stats_of converter recorder frames none s rows).1)
                  streaming,
            ),
          )))
