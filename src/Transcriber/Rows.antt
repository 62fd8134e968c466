-- ===== src/Transcriber/Rows.antt =====
-- What a stream session leaves in the history (transcriber.rs and api/stream.rs).
use mathlib.Core.Bool.{false≢true}
use app_cortex_stt.Common.{
  ℕ, ◌+◌, ◌*◌, ◌≡◌, ◌≤◌, refl, sym, ap, subst, Bool, true, false, ◌&&◌, not, List, ◌++◌, Option,
  none, some, Text, arith, length, length-append, is_some, if◌then◌else◌, lookup, insert, text_key,
  by_if, ◌∙◌, is_none,
}
use app_cortex_stt.Errors.{AsrError, engine_panic, Result, ok, err}
use app_cortex_stt.Rendering.{Config}
use app_cortex_stt.History.{History, create, save_audio}
use app_cortex_stt.Transcriber.{
  Recorder, store, failure_record, Creation, audio_of, StreamSnapshot, AudioStats, Saved,
  InputLimit, stream_cap_ms, check_stream, on_failure, from_stream,
}
use app_cortex_stt.Transcriber.Session.{
  Call, lost, returned, StreamSession, opened, closed, buffered_ms, ms_of, feed, feed_open,
  feed_engine, fail, run_on_engine, call_in, put_state, failing, finished,
}
use app_cortex_stt.Transcriber.Stream.{ServerEvent, ready, partial, final, error}

module _ {F : Type 0} where
  abbrev pub is_final : ServerEvent F → Bool
  is_final (ready streaming) = false
  is_final (partial snapshot) = false
  is_final (final response) = true
  is_final (error e) = false

  -- The buffer of a session, which may go over the cap by less than two milliseconds: each chunk
  -- is counted in whole milliseconds.
  abbrev pub Fits : StreamSession F → Type 0
  Fits s = length s.buffer ≤ 16 * stream_cap_ms s.limit + 30

  -- What handing a record to the history comes to: a row more, under its new id, if it is stored,
  -- and no row more if it is not.
  pub record Stored (recorder : Recorder F) (saved : Saved F) (rows rows' : History F)
      : Type 0 where
    pub stored :
        (recorder.creates saved).sys.writes ≡ true
        → lookup (recorder.creates saved).id rows.rows ≡ none
        → (path : Option Text) × (rows'.rows
            ≡ insert
                (recorder.creates saved).id
                (record {
                  timestamp = (recorder.creates saved).now;
                  fields = saved.fields;
                  audio_path = path;
                })
                rows.rows)
    pub not_stored : (recorder.creates saved).sys.writes ≡ false → rows'.rows ≡ rows.rows

  pub store-Stored :
      (recorder : Recorder F) (saved : Saved F) (rows : History F)
      → Stored recorder saved rows (store recorder saved rows)
  unfolding store create
  store-Stored recorder saved rows = record {
    stored = λ w absent. (
      path,
      by_if
          (λ (out : History F × Result Text).
            out.0.rows
            ≡ insert c.id (record { timestamp = c.now; fields = saved.fields; audio_path = path })
                rows.rows)
          (c.sys.writes && is_none (lookup c.id rows.rows)) _ _ (λ t. refl)
          (λ f. absurd (
            false≢true
              (sym f ∙ ap (λ b. b && is_none (lookup c.id rows.rows)) w ∙ ap is_none absent))),
    );
    not_stored = λ w.
        by_if (λ (out : History F × Result Text). out.0.rows ≡ rows.rows)
          (c.sys.writes && is_none (lookup c.id rows.rows)) _ _
          (λ t. absurd (false≢true (sym (ap (λ b. b && is_none (lookup c.id rows.rows)) w) ∙ t)))
          (λ f. refl);
  }
    where
      c : Creation
      c = recorder.creates saved

      path : Option Text
      path = (save_audio c.id (audio_of saved.samples c.audio) rows.files).0

  -- One record `saved` is handed to the history `rows`: an error, without audio, if no final event was sent,
  -- and else with the audio if the settings keep it.
  pub record OneRow (recorder : Recorder F) (save_audio : Bool) (cap : ℕ) (rows rows' : History F)
      (done : Bool) : Type 0 where
    pub saved : Saved F
    pub one : rows' ≡ store recorder saved rows
    pub has_error : saved.fields.has_error ≡ not done
    pub audio : is_some saved.samples ≡ (done && save_audio)
    pub duration : saved.fields.audio_duration_ms ≤ cap + 1

module _ {F : Type 0} (display : AsrError → Text) (stats_of : List F → Option (AudioStats F))
    (converter : Config → Option (Text → Text)) (recorder : Recorder F) where
  pub buffered_ms-le : (s : StreamSession F) → Fits s → buffered_ms s ≤ stream_cap_ms s.limit + 1
  unfolding buffered_ms
  buffered_ms-le s fits = omega (arith, fits)

  pub fail-OneRow :
      (s : StreamSession F) (message : Text) (rows : History F)
      → Fits s
      → OneRow recorder s.save_audio
          (stream_cap_ms s.limit)
          rows
          (on_failure recorder (from_stream s.meta (buffered_ms s)) message rows)
          false
  unfolding on_failure failure_record from_stream
  fail-OneRow s message rows fits = record {
    saved = failure_record (from_stream s.meta (buffered_ms s)) message;
    one = refl;
    has_error = refl;
    audio = refl;
    duration = buffered_ms-le s fits;
  }

  -- A feed of an open session leaves it open with its rows, or closed with one row more.
  pub record GoesOn (max : InputLimit) (keeps : Bool) (s' : StreamSession F)
      (rows rows' : History F) : Type 0 where
    pub state : s'.state ≡ opened
    pub rows_eq : rows' ≡ rows
    pub limit : s'.limit ≡ max
    pub save_audio : s'.save_audio ≡ keeps
    pub fits : Fits s'

  pub record Ends (max : InputLimit) (keeps : Bool) (s' : StreamSession F) (rows rows' : History F)
      : Type 0 where
    pub state : s'.state ≡ closed
    pub one : OneRow recorder keeps (stream_cap_ms max) rows rows' false

  abbrev pub FeedCases :
      InputLimit
      → Bool
      → History F
      → StreamSession F × History F × Result (Option StreamSnapshot)
      → Type 0
  FeedCases max keeps rows (s', rows', ok snapshot) = GoesOn max keeps s' rows rows'
  FeedCases max keeps rows (s', rows', err e) = Ends max keeps s' rows rows'

  failing-Ends :
      (max : InputLimit) (keeps : Bool) (s' : StreamSession F) (e : AsrError) (rows : History F)
      → s'.limit ≡ max
      → Fits s'
      → Ends max keeps
          (fail display stats_of converter recorder e s' rows).0
          rows
          (fail display stats_of converter recorder e s' rows).1
  unfolding fail on_failure from_stream
  failing-Ends max keeps s' e rows same fits = record {
    state = refl;
    one = record {
      saved = failure_record (from_stream s'.meta (buffered_ms s')) (display e);
      one = refl;
      has_error = refl;
      audio = refl;
      duration = omega (arith, buffered_ms-le s' fits, ap stream_cap_ms same);
    };
  }

  -- An engine call of an open session: it stays open if the call returns.
  run_on_engine_opened :
      {A : Type 0} (s : StreamSession F) (r : Result A)
      → s.state ≡ opened
      → run_on_engine s (returned r) ≡ (put_state opened s, r)
  unfolding run_on_engine
  run_on_engine_opened s r h =
      ap
        (λ state. (
          put_state (call_in state (returned r) s.meta.model).0 s,
          (call_in state (returned r) s.meta.model).1,
        ))
        h

  run_on_engine_lost :
      {A : Type 0} (s : StreamSession F)
      → s.state ≡ opened
      → run_on_engine {A = A} s lost ≡ (put_state closed s, err (engine_panic s.meta.model))
  unfolding run_on_engine
  run_on_engine_lost {A} s h =
      ap
        (λ state. (
          put_state (call_in {A = A} state lost s.meta.model).0 s,
          (call_in {A = A} state lost s.meta.model).1,
        ))
        h

  abbrev fed :
      Bool
      → StreamSession F
      → History F
      → StreamSession F × Result StreamSnapshot
      → StreamSession F × History F × Result (Option StreamSnapshot)
  fed true s rows (s', ok snapshot) = (s', rows, ok (some snapshot))
  fed true s rows (s', err e) = failing display stats_of converter recorder e s' rows
  fed false s rows p = (s, rows, ok none)

  feed_engine-eq-fed :
      (s : StreamSession F) (call : Call StreamSnapshot) (rows : History F)
      → feed_engine display stats_of converter recorder s call rows
        ≡ fed s.engine_streaming s rows (run_on_engine s call)
  unfolding feed_engine
  feed_engine-eq-fed s call rows = by_cases s.engine_streaming (run_on_engine s call)
    where
      by_cases :
          (b : Bool) (p : StreamSession F × Result StreamSnapshot)
          → (if b
              then elim p.1 as (λ _. StreamSession F × History F × Result (Option StreamSnapshot)) [
                | ok snapshot ↦ (p.0, rows, ok (some snapshot))
                | err e ↦ failing display stats_of converter recorder e p.0 rows
              ]
              else (s, rows, ok none))
            ≡ fed b s rows p
      by_cases true (s', ok snapshot) = refl
      by_cases true (s', err e) = refl
      by_cases false p = refl

  fed-cases :
      (streaming : Bool) (s : StreamSession F) (call : Call StreamSnapshot) (rows : History F)
      → s.state ≡ opened
      → Fits s
      → FeedCases s.limit s.save_audio rows (fed streaming s rows (run_on_engine s call))
  fed-cases false s call rows h fits = record {
    state = h;
    rows_eq = refl;
    limit = refl;
    save_audio = refl;
    fits = fits;
  }
  fed-cases true s (returned (ok snapshot)) rows h fits =
      subst (λ p. FeedCases s.limit s.save_audio rows (fed true s rows p))
        (sym (run_on_engine_opened s (ok snapshot) h))
        (record { state = refl; rows_eq = refl; limit = refl; save_audio = refl; fits = fits })
  fed-cases true s (returned (err e)) rows h fits =
      subst (λ p. FeedCases s.limit s.save_audio rows (fed true s rows p))
        (sym (run_on_engine_opened s (err e) h))
        (failing-Ends s.limit s.save_audio (put_state opened s) e rows refl fits)
  fed-cases true s lost rows h fits =
      subst (λ p. FeedCases s.limit s.save_audio rows (fed true s rows p))
        (sym (run_on_engine_lost s h))
        (failing-Ends s.limit s.save_audio (put_state closed s) (engine_panic s.meta.model) rows
          refl fits)

  check_stream-le :
      (limit : InputLimit) (model : Text) (total : ℕ)
      → check_stream limit model total ≡ ok tt
      → total ≤ stream_cap_ms limit
  unfolding check_stream
  check_stream-le limit model total h = ground arith

  feed_open-cases :
      (s : StreamSession F) (samples : List F) (call : Call StreamSnapshot) (rows : History F)
      → s.state ≡ opened
      → Fits s
      → FeedCases s.limit s.save_audio rows
          (feed_open display stats_of converter recorder s samples call rows)
  unfolding feed_open
  feed_open-cases s samples call rows h fits =
      by_check (check_stream s.limit s.meta.model (buffered_ms s + ms_of (length samples)))
        (λ c. check_stream-le s.limit s.meta.model _ c)
    where
      grown :
          buffered_ms s + ms_of (length samples) ≤ stream_cap_ms s.limit
          → length (s.buffer ++ samples) ≤ 16 * stream_cap_ms s.limit + 30
      grown room = unfold buffered_ms in omega (arith, room, length-append s.buffer samples)

      by_check :
          (r : Result (Unit {0}))
          → (r ≡ ok tt → buffered_ms s + ms_of (length samples) ≤ stream_cap_ms s.limit)
          → FeedCases s.limit s.save_audio rows
              (elim r as (λ _. StreamSession F × History F × Result (Option StreamSnapshot)) [
                | err e ↦ failing display stats_of converter recorder e s rows
                | ok _ ↦
                    feed_engine display stats_of converter recorder
                      (record s { buffer = s.buffer ++ samples })
                      call
                      rows
              ])
      by_check (err e) room = failing-Ends s.limit s.save_audio s e rows refl fits
      by_check (ok done) room =
          let s' = record s { buffer = s.buffer ++ samples } in
          subst (FeedCases s.limit s.save_audio rows) (sym (feed_engine-eq-fed s' call rows))
            (fed-cases s.engine_streaming s' call rows h (grown (room refl)))

  pub feed-cases :
      (s : StreamSession F) (samples : List F) (call : Call StreamSnapshot) (rows : History F)
      → s.state ≡ opened
      → Fits s
      → FeedCases s.limit s.save_audio rows
          (feed display stats_of converter recorder s samples call rows)
  unfolding feed
  feed-cases s samples call rows h fits =
      subst
        (λ state.
          FeedCases s.limit s.save_audio rows
            (elim state as (λ _. StreamSession F × History F × Result (Option StreamSnapshot)) [
              | closed ↦ (s, rows, err finished)
              | opened ↦ feed_open display stats_of converter recorder s samples call rows
            ]))
        (sym h) (feed_open-cases s samples call rows h fits)
