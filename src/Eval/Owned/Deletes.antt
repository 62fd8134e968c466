-- ===== src/Eval/Owned/Deletes.antt =====
-- The audio over deletions and judgements (eval/mod.rs).
use app_cortex_stt.Common.{
  ℕ, suc, ◌≡◌, ◌≢◌, refl, sym, ap, subst, Bool, true, not, List, Option, none, some, Text, lookup,
  remove, text_key, text_eq, filter, by_if, Memᴰ, is_some-remove_ne, lookup_of_remove,
  lookup-remove_self,
}
use app_cortex_stt.History.{wav_name}
use app_cortex_stt.History.Paired.{wav_name-injective}
use app_cortex_stt.Eval.{EvalSample, Eval, Io, remove_audio}
use app_cortex_stt.Eval.Samples.{
  delete_sample_rows, delete_found, delete_one, delete_sample, delete_samples, judge_found, judge,
  unjudge,
}
use app_cortex_stt.Eval.Kept.{Core, Left}
use app_cortex_stt.Eval.Kept.Deletes.{delete_one-Core, delete_each-keeps}
use app_cortex_stt.Eval.Owned.{HasFile, Paired, notify_if-Paired}

-- The rows after a deletion of which all statements succeed.
abbrev without : Text → Eval → Eval
without id s = record s {
  results = filter (λ r. not (text_eq r.sample_id id)) s.results;
  judgements = filter (λ j. not (text_eq j.sample_id id)) s.judgements;
  run_samples = filter (λ r. not (text_eq r.1 id)) s.run_samples;
  samples = remove id s.samples;
}

pub delete_sample_rows-all :
    (sys : Io) (id : Text) (s : Eval)
    → ((n : ℕ) → sys.works (suc n) ≡ true)
    → (delete_sample_rows sys id s).0 ≡ without id s
unfolding delete_sample_rows
delete_sample_rows-all sys id s all = rw (all 0, all 1, all 2, all 3) refl

pub without-Paired :
    (sys : Io) (id : Text) (s : Eval) (x : EvalSample)
    → lookup id s.samples ≡ some x
    → Paired s
    → Paired (without id (remove_audio sys (wav_name id) s))
unfolding remove_audio
without-Paired sys id s x h i =
    by_if (λ u. Paired (without id u)) (sys.removes (wav_name id)) _ _
      (λ t. record {
        of_pending = λ j p e.
            kept j (λ k. cc (ap (λ l. lookup l s.pending) k, i.apart id x h, e))
              (i.of_pending j p e);
        of_sample =
            λ j y e. kept j (other j y e) (i.of_sample j y (lookup_of_remove id j s.samples e));
        apart = λ j y e. i.apart j y (lookup_of_remove id j s.samples e);
      })
      (λ f. record {
        of_pending = i.of_pending;
        of_sample = λ j y e. i.of_sample j y (lookup_of_remove id j s.samples e);
        apart = λ j y e. i.apart j y (lookup_of_remove id j s.samples e);
      })
  where
    kept : (j : Text) → id ≢ j → HasFile s.files j → HasFile (remove (wav_name id) s.files) j
    kept j d f =
        is_some-remove_ne (wav_name id) (wav_name j) s.files (λ e. d (wav_name-injective id j e)) f

    other : (j : Text) (y : EvalSample) → lookup j (remove id s.samples) ≡ some y → id ≢ j
    other j y e =
        λ k. cc (lookup-remove_self id s.samples, ap (λ l. lookup l (remove id s.samples)) k, e)

-- A sample whose file may be gone is deleted.
pub delete_found-Paired :
    (sys : Io) (id : Text) (s : Eval) (o : Option EvalSample)
    → lookup id s.samples ≡ o
    → ((n : ℕ) → sys.works (suc n) ≡ true)
    → Core s
    → Paired s
    → Left Paired (delete_found sys id s o)
unfolding delete_found
delete_found-Paired sys id s none h all c i = i
delete_found-Paired sys id s (some x) h all c i =
    subst Paired (sym (delete_sample_rows-all sys id (remove_audio sys x.audio_path s) all)) (
      subst (λ f. Paired (without id (remove_audio sys f s))) (sym (c.sample_path id x h))
        (without-Paired sys id s x h i))

pub delete_one-Paired :
    (sys : Io) (id : Text) (s : Eval)
    → ((n : ℕ) → sys.works (suc n) ≡ true)
    → Core s
    → Paired s
    → Left Paired (delete_one sys id s)
unfolding delete_one
delete_one-Paired sys id s all c i =
    by_if (Left Paired) (sys.works 0) _ _
      (λ t. delete_found-Paired sys id s (lookup id s.samples) refl all c i) (λ f. i)

pub delete_sample-Paired :
    (sys : Io) (id : Text) (s : Eval)
    → ((n : ℕ) → sys.works (suc n) ≡ true)
    → Core s
    → Paired s
    → Left Paired (delete_sample sys id s)
unfolding delete_sample
delete_sample-Paired sys id s all c i = notify_if-Paired _ _ (delete_one-Paired sys id s all c i)

pub delete_samples-Paired :
    (ids : List (Text × Io)) (s : Eval)
    → ((id : Text) (sys : Io) → Memᴰ (id, sys) ids → (n : ℕ) → sys.works (suc n) ≡ true)
    → Core s
    → Paired s
    → Left Paired (delete_samples ids s)
unfolding delete_samples
delete_samples-Paired ids s all c i =
    notify_if-Paired _ _
      (delete_each-keeps (λ t. Core t × Paired t) ids 0 s
        (λ id sys t m h.
          (delete_one-Core sys id t h.0, delete_one-Paired sys id t (all id sys m) h.0 h.1))
        (c, i)).1

pub judge_found-Paired :
    (sys : Io) (id text : Text) (correct : Bool) (s : Eval) (o : Option EvalSample)
    → Paired s
    → Left Paired (judge_found sys id text correct s o)
unfolding judge_found
judge_found-Paired sys id text correct s none i = i
judge_found-Paired sys id text correct s (some x) i =
    by_if (Left Paired) (sys.works 1) _ _
      (λ t. record { of_pending = i.of_pending; of_sample = i.of_sample; apart = i.apart }) (λ f. i)

pub judge-Paired :
    (sys : Io) (id text : Text) (correct : Bool) (s : Eval)
    → Paired s
    → Left Paired (judge sys id text correct s)
unfolding judge
judge-Paired sys id text correct s i =
    by_if (Left Paired) (sys.works 0) _ _
      (λ t. judge_found-Paired sys id text correct s (lookup id s.samples) i) (λ f. i)

pub unjudge-Paired :
    (sys : Io) (id text : Text) (s : Eval) → Paired s → Left Paired (unjudge sys id text s)
unfolding unjudge
unjudge-Paired sys id text s i =
    by_if (Left Paired) (sys.works 0) _ _
      (λ t.
        notify_if-Paired _ _
          (record { of_pending = i.of_pending; of_sample = i.of_sample; apart = i.apart }))
      (λ f. i)
