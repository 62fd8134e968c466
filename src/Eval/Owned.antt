-- ===== src/Eval/Owned.antt =====
-- The audio of the evaluation's captures and samples (eval/mod.rs): each has its file, and no id is
-- both a capture and a sample, where no statement fails after a file is removed or a sample stored.
pub mod Edits
pub mod Deletes
use app_cortex_stt.Common.{
  ℕ, suc, ◌≡◌, ◌≢◌, refl, sym, ap, subst, ◌∙◌, Bool, true, false, ◌&&◌, not, List, [], ◌∷◌, Option,
  none, some, Text, KeyMap, lookup, insert, remove, text_key, text_eq, trim, is_empty, is_some,
  is_none, filter, if◌then◌else◌, by_if, inl, inr, arith, Memᴰ, lookup_of_insert,
  lookup-insert_self, is_some-insert, is_some-remove_ne, lookup_of_remove, lookup-remove_self,
  lookup-remove_ne, lookup-remove-none, lookup-insert_ne, Option-cases,
}
use app_cortex_stt.Errors.{AsrError, Result, ok, err}
use app_cortex_stt.History.{Write, written, refused, cut_short, wav_name}
use app_cortex_stt.History.Paired.{wav_name-injective}
use app_cortex_stt.Eval.{
  PendingCapture, EvalSample, Judgement, Eval, Io, notify, notify_if, remove_audio, check_origin,
  insert_pending, put_file, write_capture, capture_checked, capture, discard_found, discard_pending,
  sample_of, promote_found, promote,
}
use app_cortex_stt.Eval.Samples.{
  update_reference, set_reference, delete_sample_rows, delete_found, delete_one, delete_sample,
  delete_each, delete_samples, judge_found, judge, unjudge,
}
use app_cortex_stt.Eval.Kept.{Core, Left}
use app_cortex_stt.Eval.Kept.Deletes.{delete_one-Core, delete_each-keeps}

abbrev pub HasFile : KeyMap Text ℕ → Text → Type 0
HasFile files id = is_some (lookup (wav_name id) files) ≡ true

pub record Paired (s : Eval) : Type 0 where
  pub of_pending :
      (id : Text) (p : PendingCapture) → lookup id s.pending ≡ some p → HasFile s.files id
  pub of_sample : (id : Text) (x : EvalSample) → lookup id s.samples ≡ some x → HasFile s.files id
  pub apart :
      (id : Text) (x : EvalSample) → lookup id s.samples ≡ some x → lookup id s.pending ≡ none

pub notify_if-Paired : (b : Bool) (s : Eval) → Paired s → Paired (notify_if b s)
notify_if-Paired true s i = record {
  of_pending = i.of_pending;
  of_sample = i.of_sample;
  apart = i.apart;
}
notify_if-Paired false s i = i

pub put_file-Paired : (id : Text) (size : ℕ) (s : Eval) → Paired s → Paired (put_file id size s)
unfolding put_file
put_file-Paired id size s i = record {
  of_pending = λ j p e. is_some-insert (wav_name id) (wav_name j) size s.files (i.of_pending j p e);
  of_sample = λ j x e. is_some-insert (wav_name id) (wav_name j) size s.files (i.of_sample j x e);
  apart = i.apart;
}

-- A file of no row may go.
pub remove_audio-Paired :
    (sys : Io) (id : Text) (s : Eval)
    → lookup id s.pending ≡ none
    → lookup id s.samples ≡ none
    → Paired s
    → Paired (remove_audio sys (wav_name id) s)
unfolding remove_audio
remove_audio-Paired sys id s p x i =
    by_if Paired (sys.removes (wav_name id)) _ _
      (λ t. record {
        of_pending =
            λ j q e. kept j (λ k. cc (ap (λ i. lookup i s.pending) k, p, e)) (i.of_pending j q e);
        of_sample =
            λ j y e. kept j (λ k. cc (ap (λ i. lookup i s.samples) k, x, e)) (i.of_sample j y e);
        apart = i.apart;
      })
      (λ f. i)
  where
    kept : (j : Text) → id ≢ j → HasFile s.files j → HasFile (remove (wav_name id) s.files) j
    kept j d h =
        is_some-remove_ne (wav_name id) (wav_name j) s.files (λ e. d (wav_name-injective id j e)) h

pub insert_pending-Paired :
    (sys : Io) (id : Text) (p : PendingCapture) (s : Eval)
    → lookup id s.pending ≡ none
    → lookup id s.samples ≡ none
    → HasFile s.files id
    → Paired s
    → Left Paired (insert_pending sys id p s)
unfolding insert_pending
insert_pending-Paired sys id p s absent free file i =
    by_if (Left Paired) (sys.works 1 && is_none (lookup id s.pending)) _ _
      (λ t. record {
        of_pending = λ j q e. elim (lookup_of_insert id j p s.pending e) [
          | inl (k, same) ↦ subst (HasFile s.files) k file
          | inr (d, old) ↦ i.of_pending j q old
        ];
        of_sample = i.of_sample;
        apart = λ j x e.
            lookup-insert_ne id j p s.pending (λ k. cc (ap (λ i. lookup i s.samples) k, free, e))
            ∙ i.apart j x e;
      })
      (λ f. remove_audio-Paired sys id s absent free i)

pub write_capture-Paired :
    (sys : Io) (id : Text) (p : PendingCapture) (audio : Write) (s : Eval)
    → lookup id s.pending ≡ none
    → lookup id s.samples ≡ none
    → Paired s
    → Left Paired (write_capture sys id p audio s)
unfolding write_capture put_file
write_capture-Paired sys id p refused s absent free i = i
write_capture-Paired sys id p (cut_short size) s absent free i = put_file-Paired id size s i
write_capture-Paired sys id p (written size) s absent free i =
    insert_pending-Paired sys id p (put_file id size s) absent free
      (ap is_some (lookup-insert_self (wav_name id) size s.files)) (put_file-Paired id size s i)

pub capture_checked-Paired :
    (sys : Io) (id : Text) (p : PendingCapture) (audio : Write) (s : Eval) (r : Result (Unit {0}))
    → lookup id s.pending ≡ none
    → lookup id s.samples ≡ none
    → Paired s
    → Left Paired (capture_checked sys id p audio s r)
unfolding capture_checked
capture_checked-Paired sys id p audio s (err e) absent free i = i
capture_checked-Paired sys id p audio s (ok done) absent free i =
    write_capture-Paired sys id p audio s absent free i

pub capture-Paired :
    (sys : Io) (id now : Text) (decoded : Option ℕ) (audio : Write)
    (origin device text : Option Text) (s : Eval)
    → lookup id s.pending ≡ none
    → lookup id s.samples ≡ none
    → Paired s
    → Left Paired (capture sys id now decoded audio origin device text s)
unfolding capture
capture-Paired sys id now none audio origin device text s absent free i = i
capture-Paired sys id now (some duration) audio origin device text s absent free i =
    capture_checked-Paired sys id _ audio s (check_origin sys origin s) absent free i

pub discard_found-Paired :
    (sys : Io) (id : Text) (s : Eval) (o : Option PendingCapture)
    → lookup id s.pending ≡ o
    → Core s
    → Paired s
    → Left Paired (discard_found sys id s o)
unfolding discard_found
discard_found-Paired sys id s none h c i = i
discard_found-Paired sys id s (some p) h c i =
    by_if (Left Paired) (sys.works 1) _ _
      (λ t. notify_if-Paired true _ (
        subst (λ f. Paired (remove_audio sys f fewer)) (sym (c.pending_path id p h))
          (remove_audio-Paired sys id fewer (lookup-remove_self id s.pending) free fewer-Paired)))
      (λ f. i)
  where
    fewer : Eval
    fewer = record s { pending = remove id s.pending }

    free : lookup id s.samples ≡ none
    free = elim (Option-cases (lookup id s.samples)) [
      | inl absent ↦ absent
      | inr (x, held) ↦ cc (i.apart id x held, h)
    ]

    fewer-Paired : Paired fewer
    fewer-Paired = record {
      of_pending = λ j q e. i.of_pending j q (lookup_of_remove id j s.pending e);
      of_sample = i.of_sample;
      apart = λ j x e. lookup-remove-none j id s.pending (i.apart j x e);
    }

pub discard_pending-Paired :
    (sys : Io) (id : Text) (s : Eval) → Core s → Paired s → Left Paired (discard_pending sys id s)
unfolding discard_pending
discard_pending-Paired sys id s c i =
    by_if (Left Paired) (sys.works 0) _ _
      (λ t. discard_found-Paired sys id s (lookup id s.pending) refl c i) (λ f. i)
