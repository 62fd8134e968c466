-- ===== src/Eval.antt =====
-- The evaluation's samples, their audio and their judgements (cortex-stt/src/eval/mod.rs, with the
-- statements of eval/store.rs). Each statement of a call may fail on its own.
pub mod Samples
pub mod Runner
pub mod Kept
mod Owned
mod Runs
mod Halves
mod Tests
use app_cortex_stt.Common.{
  ℕ, suc, Bool, true, false, ◌&&◌, ◌||◌, not, List, [], ◌∷◌, Option, none, some, Text, codes,
  KeyMap, lookup, insert, remove, text_key, text_eq, trim, is_empty, is_some, is_none, any, filter,
  ltb, if◌then◌else◌,
}
use app_cortex_stt.Errors.{
  AsrError, io, database_error, protocol_error, eval_audio_not_lossless, eval_sample_exists,
  eval_sample_not_found, Result, ok, err,
}
use app_cortex_stt.History.{Write, written, refused, cut_short, wav_name}

pub record PendingCapture : Type 0 where
  pub created_at : Text
  pub audio_path : Text
  pub audio_duration_ms : ℕ
  pub origin_record_id : Option Text
  pub capture_device : Option Text
  pub origin_text : Option Text

pub record EvalSample : Type 0 where
  pub created_at : Text
  pub audio_path : Text
  pub audio_duration_ms : ℕ
  pub reference_transcript : Text
  pub reference_locale : Option Text
  pub origin_record_id : Option Text
  pub capture_device : Option Text

pub record Judgement : Type 0 where
  pub sample_id : Text
  pub output_text : Text
  pub correct : Bool

pub record EvalResult : Type 0 where
  pub run_id : Text
  pub sample_id : Text
  pub model_id : Text
  pub text : Text
  pub raw_text : Option Text
  pub inference_ms : ℕ
  pub error_message : Option Text

-- The tables by their keys, the audio files with their sizes, and the notices that were sent.
pub record Eval : Type 0 where
  pub pending : KeyMap Text PendingCapture
  pub samples : KeyMap Text EvalSample
  pub results : List EvalResult
  pub judgements : List Judgement
  pub run_samples : List (Text × Text)
  pub files : KeyMap Text ℕ
  pub notified : ℕ

-- Whether each statement of a call succeeds, in their order from 0, and whether a file can be
-- removed.
pub record Io : Type 0 where
  pub works : ℕ → Bool
  pub removes : Text → Bool
  pub detail : Text

abbrev pub failed : Io → AsrError
failed sys = database_error sys.detail

abbrev pub notify : Eval → Eval
notify s = record s { notified = suc s.notified }

abbrev pub notify_if : Bool → Eval → Eval
notify_if b s = if b then notify s else s

unfoldable pub remove_audio : Io → Text → Eval → Eval
remove_audio sys path s = if sys.removes path then record s { files = remove path s.files } else s

abbrev pub is_origin : Text → Option Text → Bool
is_origin r none = false
is_origin r (some o) = text_eq o r

-- A sample or a capture was taken from the record, `taken_origin_ids`.
unfoldable pub is_taken : Text → Eval → Bool
is_taken r s =
    any (λ e. is_origin r e.1.origin_record_id) s.samples
    || any (λ e. is_origin r e.1.origin_record_id) s.pending

unfoldable pub check_origin : Io → Option Text → Eval → Result (Unit {0})
unfolding is_taken
check_origin sys none s = ok tt
check_origin sys (some r) s =
    if sys.works 0
    then (if is_taken r s then err (eval_sample_exists r) else ok tt)
    else err (failed sys)

abbrev pub found : {A : Type 0} → Text → Option A → Result A
found id none = err (eval_sample_not_found id)
found id (some a) = ok a

-- A row read again after it was written.
abbrev pub read_back : {A : Type 0} → Io → Bool → Text → Option A → Result A
read_back sys works id row = if works then found id row else err (failed sys)

-- The row of a capture whose file is written.
unfoldable pub insert_pending : Io → Text → PendingCapture → Eval → Eval × Result PendingCapture
unfolding remove_audio
insert_pending sys id p s =
    if sys.works 1 && is_none (lookup id s.pending)
    then (
      notify (record s { pending = insert id p s.pending }),
      read_back sys (sys.works 2) id (lookup id (insert id p s.pending)),
    )
    else (remove_audio sys (wav_name id) s, err (failed sys))

unfoldable pub put_file : Text → ℕ → Eval → Eval
put_file id size s = record s { files = insert (wav_name id) size s.files }

unfoldable pub write_capture :
    Io → Text → PendingCapture → Write → Eval → Eval × Result PendingCapture
unfolding insert_pending put_file
write_capture sys id p refused s = (s, err (io sys.detail))
write_capture sys id p (cut_short size) s = (put_file id size s, err (io sys.detail))
write_capture sys id p (written size) s = insert_pending sys id p (put_file id size s)

unfoldable pub capture_checked :
    Io → Text → PendingCapture → Write → Eval → Result (Unit {0}) → Eval × Result PendingCapture
unfolding write_capture
capture_checked sys id p audio s (err e) = (s, err e)
capture_checked sys id p audio s (ok _) = write_capture sys id p audio s

-- `id` is a new random one, `duration` that of the decoded audio if it can be decoded.
unfoldable pub capture :
    Io
    → Text
    → Text
    → Option ℕ
    → Write
    → Option Text
    → Option Text
    → Option Text
    → Eval
    → Eval × Result PendingCapture
unfolding capture_checked check_origin
capture sys id now none audio origin device text s = (s, err eval_audio_not_lossless)
capture sys id now (some duration) audio origin device text s =
    let p : PendingCapture = record {
      created_at = now;
      audio_path = wav_name id;
      audio_duration_ms = duration;
      origin_record_id = origin;
      capture_device = device;
      origin_text = text;
    } in
    capture_checked sys id p audio s (check_origin sys origin s)

unfoldable pub discard_found : Io → Text → Eval → Option PendingCapture → Eval × Result Bool
unfolding remove_audio
discard_found sys id s none = (s, ok false)
discard_found sys id s (some p) =
    if sys.works 1
    then (
      notify (remove_audio sys p.audio_path (record s { pending = remove id s.pending })),
      ok true,
    )
    else (s, err (failed sys))

unfoldable pub discard_pending : Io → Text → Eval → Eval × Result Bool
unfolding discard_found
discard_pending sys id s =
    if sys.works 0 then discard_found sys id s (lookup id s.pending) else (s, err (failed sys))

abbrev pub sample_of : PendingCapture → Text → Text → Option Text → EvalSample
sample_of p now reference locale = record {
  created_at = now;
  audio_path = p.audio_path;
  audio_duration_ms = p.audio_duration_ms;
  reference_transcript = reference;
  reference_locale = locale;
  origin_record_id = p.origin_record_id;
  capture_device = p.capture_device;
}

-- The sample is stored and the capture deleted, by two statements.
unfoldable pub promote_found :
    Io → Text → Text → Text → Option Text → Eval → Option PendingCapture → Eval × Result EvalSample
promote_found sys id now reference locale s none = (s, err (eval_sample_not_found id))
promote_found sys id now reference locale s (some p) =
    let x = sample_of p now reference locale in
    let t = record s { samples = insert id x s.samples } in
    if sys.works 1 && is_none (lookup id s.samples)
    then (if sys.works 2
        then (
          notify (record t { pending = remove id s.pending }),
          read_back sys (sys.works 3) id (lookup id t.samples),
        )
        else (t, err (failed sys)))
    else (s, err (failed sys))

unfoldable pub promote : Io → Text → Text → Text → Option Text → Eval → Eval × Result EvalSample
unfolding promote_found trim
promote sys id now reference locale s =
    if is_empty (trim reference)
    then (
      s,
      err (
          protocol_error
            (codes "a reference transcript is required to create an evaluation sample")),
    )
    else if sys.works 0
    then promote_found sys id now (trim reference) locale s (lookup id s.pending)
    else (s, err (failed sys))
