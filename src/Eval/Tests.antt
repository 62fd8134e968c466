-- ===== src/Eval/Tests.antt =====
-- Runs of the evaluation's store, and the theorems about it at concrete stores (eval/mod.rs).
use app_cortex_stt.Common.{
  ◌≡◌, ◌≢◌, refl, Bool, true, false, [], none, some, Text, codes, lookup, insert, remove, text_key,
  is_some, Memᴰ, trim, is_empty, ◌==◌, not,
}
use app_cortex_stt.Errors.{err, eval_sample_exists}
use app_cortex_stt.History.{written, wav_name}
use app_cortex_stt.Eval.{
  PendingCapture, EvalSample, Judgement, Eval, Io, capture, discard_pending, promote, sample_of,
}
use app_cortex_stt.Eval.Samples.{judge, delete_sample}
use app_cortex_stt.Eval.Owned.{HasFile}
use app_cortex_stt.Eval.Runs.{Step, Reach, new, Reach-referenced, Reach-paired}
use app_cortex_stt.Eval.Halves.{discard_pending-of_promote}

program : Unit {0}
unfolding lookup insert remove text_key capture discard_pending promote judge delete_sample
program = tt

abbrev works : Io
works = record { works = λ n. true; removes = λ f. true; detail = [] }

-- The third statement fails.
abbrev half : Io
half = record works { works = λ n. not (n == 2) }

abbrev captured : Eval
captured =
    (capture works (codes "a") (codes "1") (some 1200) (written 44) (some (codes "r")) none none
      new).0

abbrev promoted : Eval
promoted = (promote works (codes "a") (codes "2") (codes " on ") none captured).0

abbrev judged : Eval
judged = (judge works (codes "a") (codes "off") false promoted).0

-- A record is taken once.
taken_once :
    (capture works
      (codes "b")
      (codes "3")
      (some 900)
      (written 40)
      (some (codes "r"))
      none
      none
      promoted).1
    ≡ err (eval_sample_exists (codes "r"))
unfolding program
taken_once = refl

deleted : (delete_sample works (codes "a") judged).0 ≡ record new { notified = 4 }
unfolding program
deleted = refl

no_capture : lookup (codes "a") new.pending ≡ none
unfolding program
no_capture = refl

no_sample : lookup (codes "a") new.samples ≡ none
unfolding program
no_sample = refl

reached : (strict : Bool) → Reach strict new judged
reached strict =
    Reach.next
      (Reach.next
        (Reach.next Reach.here (
          Step.captures new works (codes "a") (codes "1") (some 1200) (written 44)
            (some (codes "r")) none none no_capture no_sample))
        (Step.promotes captured works (codes "a") (codes "2") (codes " on ") none (λ st. refl)))
      (Step.judges promoted works (codes "a") (codes "off") false)

Reach-referenced_example :
    ((id : Text) (x : EvalSample) → lookup id judged.samples ≡ some x → x.reference_transcript ≢ [])
    × ((j : Judgement)
        → Memᴰ j judged.judgements
        → is_some (lookup j.sample_id judged.samples) ≡ true)
Reach-referenced_example = Reach-referenced false judged (reached false)

Reach-paired_example :
    ((id : Text) (x : EvalSample)
      → lookup id judged.samples ≡ some x
      → (x.audio_path ≡ wav_name id) × HasFile judged.files id × (lookup id judged.pending ≡ none))
    × ((id : Text) (p : PendingCapture)
        → lookup id judged.pending ≡ some p
        → (p.audio_path ≡ wav_name id) × HasFile judged.files id)
Reach-paired_example = Reach-paired judged (reached true)

abbrev a_capture : PendingCapture
a_capture = record {
  created_at = codes "1";
  audio_path = wav_name (codes "a");
  audio_duration_ms = 1200;
  origin_record_id = some (codes "r");
  capture_device = none;
  origin_text = none;
}

is_captured : lookup (codes "a") captured.pending ≡ some a_capture
unfolding program
is_captured = refl

is_no_sample : lookup (codes "a") captured.samples ≡ none
unfolding program
is_no_sample = refl

is_given : is_empty (trim (codes " on ")) ≡ false
unfolding program trim
is_given = refl

discard_pending-of_promote_example :
    let t =
      (discard_pending works
        (codes "a")
        (promote half (codes "a") (codes "2") (codes " on ") none captured).0).0 in
    (lookup (codes "a") t.samples
      ≡ some (sample_of a_capture (codes "2") (trim (codes " on ")) none))
    × (lookup a_capture.audio_path t.files ≡ none)
discard_pending-of_promote_example =
    discard_pending-of_promote captured (codes "a") (codes "2") (codes " on ") none a_capture half
      works is_captured is_no_sample is_given refl refl refl refl refl refl
