-- ===== src/Eval/Kept.antt =====
-- What each call leaves of the samples and the judgements (eval/mod.rs), whatever fails.
pub mod Edits
pub mod Deletes
use app_cortex_stt.Common.{
  ℕ, ◌≡◌, ◌≢◌, refl, sym, ap, subst, ◌∙◌, Bool, true, false, ◌&&◌, not, List, [], ◌∷◌, Option, none,
  some, Text, KeyMap, lookup, insert, remove, text_key, text_eq, text_eq-false, trim, is_empty,
  is_some, is_none, filter, if◌then◌else◌, by_if, inl, inr, arith, Memᴰ, mem_cases,
  mem_of_mem-filter, lookup_of_insert, is_some-insert, is_some-remove_ne, lookup_of_remove,
}
use app_cortex_stt.Errors.{AsrError, Result, ok, err}
use app_cortex_stt.History.{Write, written, refused, cut_short, wav_name}
use app_cortex_stt.Eval.{
  PendingCapture, EvalSample, Judgement, Eval, Io, notify, notify_if, remove_audio, check_origin,
  insert_pending, put_file, write_capture, capture_checked, capture, discard_found, discard_pending,
  sample_of, promote_found, promote,
}
use app_cortex_stt.Eval.Samples.{
  update_reference, set_reference, delete_sample_rows, delete_found, delete_one, delete_sample,
  delete_each, delete_samples, judge_found, judge, unjudge, is_ruling, count_if,
}

-- Every sample has a reference transcript, every judgement is of a sample, and the file of a row
-- is named for it.
pub record Core (s : Eval) : Type 0 where
  pub references :
      (id : Text) (x : EvalSample) → lookup id s.samples ≡ some x → x.reference_transcript ≢ []
  pub judged : (j : Judgement) → Memᴰ j s.judgements → is_some (lookup j.sample_id s.samples) ≡ true
  pub pending_path :
      (id : Text) (p : PendingCapture) → lookup id s.pending ≡ some p → p.audio_path ≡ wav_name id
  pub sample_path :
      (id : Text) (x : EvalSample) → lookup id s.samples ≡ some x → x.audio_path ≡ wav_name id

abbrev pub Left : {R : Type 0} → (Eval → Type 0) → Eval × R → Type 0
Left P (s, r) = P s

-- Two states with the same tables.
pub same_tables :
    (s t : Eval)
    → s.pending ≡ t.pending
    → s.samples ≡ t.samples
    → s.judgements ≡ t.judgements
    → Core s
    → Core t
same_tables s t p x j c = record {
  references = λ id y e. c.references id y (ap (lookup id) x ∙ e);
  judged = λ i m.
      ap (λ u. is_some (lookup i.sample_id u)) (sym x) ∙ c.judged i (subst (Memᴰ i) (sym j) m);
  pending_path = λ id q e. c.pending_path id q (ap (lookup id) p ∙ e);
  sample_path = λ id y e. c.sample_path id y (ap (lookup id) x ∙ e);
}

pub remove_audio-Core : (sys : Io) (f : Text) (s : Eval) → Core s → Core (remove_audio sys f s)
unfolding remove_audio
remove_audio-Core sys f s c =
    by_if Core (sys.removes f) _ _ (λ t. same_tables s _ refl refl refl c) (λ e. c)

pub notify_if-Core : (b : Bool) (s : Eval) → Core s → Core (notify_if b s)
notify_if-Core true s c = same_tables s (notify s) refl refl refl c
notify_if-Core false s c = c

pub insert_pending-Core :
    (sys : Io) (id : Text) (p : PendingCapture) (s : Eval)
    → p.audio_path ≡ wav_name id
    → Core s
    → Left Core (insert_pending sys id p s)
unfolding insert_pending
insert_pending-Core sys id p s path c =
    by_if (Left Core) _ _ _
      (λ t. record {
        references = c.references;
        judged = c.judged;
        pending_path = λ j q e. elim (lookup_of_insert id j p s.pending e) [
          | inl (k, same) ↦ cc (path, ap wav_name k, ap (λ r. r.audio_path) same)
          | inr (d, old) ↦ c.pending_path j q old
        ];
        sample_path = c.sample_path;
      })
      (λ f. remove_audio-Core sys (wav_name id) s c)

pub put_file-Core : (id : Text) (size : ℕ) (s : Eval) → Core s → Core (put_file id size s)
unfolding put_file
put_file-Core id size s c = same_tables s _ refl refl refl c

pub write_capture-Core :
    (sys : Io) (id : Text) (p : PendingCapture) (audio : Write) (s : Eval)
    → p.audio_path ≡ wav_name id
    → Core s
    → Left Core (write_capture sys id p audio s)
unfolding write_capture
write_capture-Core sys id p refused s path c = c
write_capture-Core sys id p (cut_short size) s path c = put_file-Core id size s c
write_capture-Core sys id p (written size) s path c =
    insert_pending-Core sys id p (put_file id size s) path (put_file-Core id size s c)

pub capture_checked-Core :
    (sys : Io) (id : Text) (p : PendingCapture) (audio : Write) (s : Eval) (r : Result (Unit {0}))
    → p.audio_path ≡ wav_name id
    → Core s
    → Left Core (capture_checked sys id p audio s r)
unfolding capture_checked
capture_checked-Core sys id p audio s (err e) path c = c
capture_checked-Core sys id p audio s (ok done) path c = write_capture-Core sys id p audio s path c

pub capture-Core :
    (sys : Io) (id now : Text) (decoded : Option ℕ) (audio : Write)
    (origin device text : Option Text) (s : Eval)
    → Core s
    → Left Core (capture sys id now decoded audio origin device text s)
unfolding capture
capture-Core sys id now none audio origin device text s c = c
capture-Core sys id now (some duration) audio origin device text s c =
    capture_checked-Core sys id _ audio s (check_origin sys origin s) refl c

pub discard_found-Core :
    (sys : Io) (id : Text) (s : Eval) (o : Option PendingCapture)
    → Core s
    → Left Core (discard_found sys id s o)
unfolding discard_found
discard_found-Core sys id s none c = c
discard_found-Core sys id s (some p) c =
    by_if (Left Core) (sys.works 1) _ _
      (λ t. notify_if-Core true _ (
        remove_audio-Core sys p.audio_path _ (record {
          references = c.references;
          judged = c.judged;
          pending_path = λ j q e. c.pending_path j q (lookup_of_remove id j s.pending e);
          sample_path = c.sample_path;
        })))
      (λ f. c)

pub discard_pending-Core :
    (sys : Io) (id : Text) (s : Eval) → Core s → Left Core (discard_pending sys id s)
unfolding discard_pending
discard_pending-Core sys id s c =
    by_if (Left Core) (sys.works 0) _ _ (λ t. discard_found-Core sys id s (lookup id s.pending) c)
      (λ f. c)

pub insert_sample-Core :
    (s : Eval) (id : Text) (x : EvalSample)
    → x.reference_transcript ≢ []
    → x.audio_path ≡ wav_name id
    → Core s
    → Core (record s { samples = insert id x s.samples })
insert_sample-Core s id x reference path c = record {
  references = λ j y e. elim (lookup_of_insert id j x s.samples e) [
    | inl (k, same) ↦ λ empty. reference (ap (λ r. r.reference_transcript) same ∙ empty)
    | inr (d, old) ↦ c.references j y old
  ];
  judged = λ j m. is_some-insert id j.sample_id x s.samples (c.judged j m);
  pending_path = c.pending_path;
  sample_path = λ j y e. elim (lookup_of_insert id j x s.samples e) [
    | inl (k, same) ↦ cc (path, ap wav_name k, ap (λ r. r.audio_path) same)
    | inr (d, old) ↦ c.sample_path j y old
  ];
}
