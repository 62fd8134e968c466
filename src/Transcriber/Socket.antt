-- ===== src/Transcriber/Socket.antt =====
-- The one record that a stream session hands to the history (transcriber.rs and api/stream.rs).
use app_cortex_stt.Common.{
  ℕ, ◌≡◌, refl, sym, subst, Bool, true, false, ◌&&◌, List, [], ◌∷◌, Option, none, some, Text, codes,
  arith, any, by_if, is_some, if◌then◌else◌,
}
use app_cortex_stt.Errors.{AsrError, Result, ok, err}
use app_cortex_stt.Rendering.{Config, for_language}
use app_cortex_stt.History.{History}
use app_cortex_stt.Transcriber.{
  Recorder, success_record, TranscriptionResult, StreamSnapshot, AudioStats, TranscribeResponse,
  stream_cap_ms, on_failure, save_to_history, from_result, from_stream,
}
use app_cortex_stt.Transcriber.Session.{
  Call, StreamSession, opened, closed, buffered_ms, feed, finalize, conclude, abort, drop_session,
  fail, run_on_engine, enforce, finished,
}
use app_cortex_stt.Transcriber.Stream.{
  Frame, silence, binary, finalizes, other_text, ping, gone, ServerEvent, pump, answer,
  is_new_revision, idle, unexpected, after_feed, Fed, sends, goes_on, ends, partial,
}
use app_cortex_stt.Transcriber.Rows.{
  is_final, Fits, OneRow, FeedCases, GoesOn, feed-cases, fail-OneRow, buffered_ms-le,
}

module _ {F : Type 0} (display : AsrError → Text) (stats_of : List F → Option (AudioStats F))
    (converter : Config → Option (Text → Text)) (recorder : Recorder F)
    (live : recorder.has_runtime ≡ true) where
  abbrev OneRowOf : StreamSession F → History F → History F × List (ServerEvent F) → Type 0
  OneRowOf s rows (rows', events) =
      OneRow recorder s.save_audio (stream_cap_ms s.limit) rows rows' (any is_final events)

  abbrev disconnected : Text
  disconnected = codes "client disconnected before completion"

  pub drop_session-OneRow :
      (s : StreamSession F) (rows : History F)
      → s.state ≡ opened
      → Fits s
      → OneRow recorder s.save_audio
          (stream_cap_ms s.limit)
          rows
          (drop_session display stats_of converter recorder s rows)
          false
  unfolding drop_session
  drop_session-OneRow s rows h fits =
      subst
        (λ state.
          OneRow recorder s.save_audio (stream_cap_ms s.limit) rows
            (elim state as (λ _. History F) [
              | closed ↦ rows
              | opened ↦
                  if recorder.has_runtime
                  then on_failure recorder (from_stream s.meta (buffered_ms s)) disconnected rows
                  else rows
            ])
            false)
        (sym h)
        (by_if (λ r. OneRow recorder s.save_audio (stream_cap_ms s.limit) rows r false)
          recorder.has_runtime _ _
          (λ t. fail-OneRow display stats_of converter recorder s disconnected rows fits)
          (λ f. cc (f, live)))

  drop_session_closed :
      (s : StreamSession F) (rows : History F)
      → s.state ≡ closed
      → drop_session display stats_of converter recorder s rows ≡ rows
  unfolding drop_session
  drop_session_closed s rows h = ground arith

  abort-OneRow :
      (e : AsrError) (s : StreamSession F) (rows : History F)
      → s.state ≡ opened
      → Fits s
      → OneRow recorder s.save_audio
          (stream_cap_ms s.limit)
          rows
          (abort display stats_of converter recorder e s rows)
          false
  unfolding abort
  abort-OneRow e s rows h fits =
      subst
        (λ state.
          OneRow recorder s.save_audio (stream_cap_ms s.limit) rows
            (elim state as (λ _. History F) [
              | closed ↦ rows
              | opened ↦ (fail display stats_of converter recorder e s rows).1
            ])
            false)
        (sym h) (fail-OneRow display stats_of converter recorder s (display e) rows fits)

  conclude-OneRow :
      (s : StreamSession F) (inference : ℕ) (r : Result (TranscriptionResult F)) (rows : History F)
      → Fits s
      → OneRowOf s rows (
        (conclude display stats_of converter recorder s inference r rows).0,
        answer (conclude display stats_of converter recorder s inference r rows).1 ∷ [],
      )
  unfolding conclude save_to_history success_record from_stream
  conclude-OneRow s inference (ok result) rows fits = record {
    saved =
        success_record (from_stream s.meta (buffered_ms s))
          (if s.save_audio then some s.buffer else none) (stats_of s.buffer)
          (from_result converter result s.meta.model (buffered_ms s) inference s.metrics s.device
            (for_language s.language));
    one = refl;
    has_error = refl;
    audio = kept s.save_audio;
    duration = buffered_ms-le display stats_of converter recorder s fits;
  }
    where
      kept : (keeps : Bool) → is_some (if keeps then some s.buffer else none) ≡ (true && keeps)
      kept true = refl
      kept false = refl
  conclude-OneRow s inference (err e) rows fits =
      fail-OneRow display stats_of converter recorder s (display e) rows fits

  finalize-OneRow :
      (s : StreamSession F) (call : Call (TranscriptionResult F)) (late : Bool) (inference : ℕ)
      (rows : History F)
      → s.state ≡ opened
      → Fits s
      → OneRowOf s rows (
        (finalize display stats_of converter recorder s call late inference rows).0,
        answer (finalize display stats_of converter recorder s call late inference rows).1 ∷ [],
      )
  unfolding finalize
  finalize-OneRow s call late inference rows h fits =
      let r = enforce s.timeout_secs late s.meta.model (run_on_engine s call).1 in
      subst
        (λ state.
          let out = elim state as (λ _. History F × Result (TranscribeResponse F)) [
            | closed ↦ (rows, err finished)
            | opened ↦ conclude display stats_of converter recorder s inference r rows
          ] in
          OneRowOf s rows (out.0, answer out.1 ∷ []))
        (sym h) (conclude-OneRow s inference r rows fits)

  -- The rest of the loop, once a frame is fed.
  abbrev dispatch :
      (Option ℕ → StreamSession F → History F → History F × List (ServerEvent F))
      → StreamSession F
      → History F
      → Fed F
      → History F × List (ServerEvent F)
  dispatch rest s' rows' (goes_on last sent) = sends sent (rest last s' rows')
  dispatch rest s' rows' (ends sent) =
      (drop_session display stats_of converter recorder s' rows', sent)

  abbrev going_on :
      (Option ℕ → StreamSession F → History F → History F × List (ServerEvent F))
      → Option ℕ
      → Bool
      → StreamSession F × History F × Result (Option StreamSnapshot)
      → History F × List (ServerEvent F)
  going_on rest last delivered (s', rows', r) = dispatch rest s' rows' (after_feed last delivered r)

  -- What holds of the session that goes on holds of the one that was fed.
  resumed :
      (s s' : StreamSession F) (rows rows' : History F)
      (rest : History F → History F × List (ServerEvent F))
      → GoesOn display stats_of converter recorder s.limit s.save_audio s' rows rows'
      → OneRowOf s' rows (rest rows)
      → OneRowOf s rows (rest rows')
  resumed s s' rows rows' rest c one =
      subst (λ r. OneRowOf s rows (rest r)) (sym c.rows_eq)
        (subst
          (λ keeps.
            OneRow recorder keeps (stream_cap_ms s.limit) rows (rest rows).0
              (any is_final (rest rows).1))
          c.save_audio
          (subst
            (λ limit.
              OneRow recorder s'.save_audio (stream_cap_ms limit) rows (rest rows).0
                (any is_final (rest rows).1))
            c.limit one))

  going_on-OneRow :
      (rest : Option ℕ → StreamSession F → History F → History F × List (ServerEvent F))
      (s : StreamSession F) (rows : History F)
      → ((last : Option ℕ) (s' : StreamSession F)
          → s'.state ≡ opened
          → Fits s'
          → OneRowOf s' rows (rest last s' rows))
      → (last : Option ℕ) (delivered : Bool)
        (out : StreamSession F × History F × Result (Option StreamSnapshot))
      → FeedCases display stats_of converter recorder s.limit s.save_audio rows out
      → OneRowOf s rows (going_on rest last delivered out)
  unfolding after_feed
  going_on-OneRow rest s rows ih last delivered (s', rows', err e) c =
      subst (λ r. OneRow recorder s.save_audio (stream_cap_ms s.limit) rows r false)
        (sym (drop_session_closed s' rows' c.state)) c.one
  going_on-OneRow rest s rows ih last delivered (s', rows', ok none) c =
      resumed s s' rows rows' (rest last s') c (ih last s' c.state c.fits)
  going_on-OneRow rest s rows ih last delivered (s', rows', ok (some snapshot)) c =
      split (is_new_revision last snapshot.revision) delivered
    where
      split :
          (new sent : Bool)
          → OneRowOf s rows (
              dispatch rest s' rows' (
                if new
                then (if sent
                    then goes_on (some snapshot.revision) (partial snapshot ∷ [])
                    else ends [])
                else goes_on last []))
      split true true =
          resumed s s' rows rows'
            (λ r. sends (partial snapshot ∷ []) (rest (some snapshot.revision) s' r)) c
            (ih (some snapshot.revision) s' c.state c.fits)
      split true false =
          resumed s s' rows rows' (λ r. (drop_session display stats_of converter recorder s' r, []))
            c (drop_session-OneRow s' rows c.state c.fits)
      split false sent = resumed s s' rows rows' (rest last s') c (ih last s' c.state c.fits)

  -- A session that is open ends, whatever the client sends and the engine does, with one
  -- record handed to the history: an error without audio, unless a final event was sent, and then with the audio if
  -- the settings keep it. The audio of the record is at most a millisecond over the limit.
  pub pump-OneRow :
      (frames : List (Frame F)) (last : Option ℕ) (s : StreamSession F) (rows : History F)
      → s.state ≡ opened
      → Fits s
      → OneRowOf s rows (pump display stats_of converter recorder frames last s rows)
  unfolding pump
  pump-OneRow [] last s rows h fits = drop_session-OneRow s rows h fits
  pump-OneRow (silence ∷ frames) last s rows h fits = abort-OneRow idle s rows h fits
  pump-OneRow (binary (err e) call delivered ∷ frames) last s rows h fits =
      abort-OneRow e s rows h fits
  pump-OneRow (binary (ok samples) call delivered ∷ frames) last s rows h fits =
      going_on-OneRow (pump display stats_of converter recorder frames) s rows
        (λ last' s' h' fits'. pump-OneRow frames last' s' rows h' fits') last delivered
        (feed display stats_of converter recorder s samples call rows)
        (feed-cases display stats_of converter recorder s samples call rows h fits)
  pump-OneRow (finalizes call late inference ∷ frames) last s rows h fits =
      finalize-OneRow s call late inference rows h fits
  pump-OneRow (other_text ∷ frames) last s rows h fits = abort-OneRow unexpected s rows h fits
  pump-OneRow (ping ∷ frames) last s rows h fits = pump-OneRow frames last s rows h fits
  pump-OneRow (gone ∷ frames) last s rows h fits = drop_session-OneRow s rows h fits
