-- ===== src/Eval/Kept/Deletes.antt =====
-- What deletions and judgements leave (eval/mod.rs).
use app_cortex_stt.Common.{
  ℕ, ◌≡◌, ◌≢◌, refl, sym, ap, ◌∙◌, Bool, true, not, List, [], ◌∷◌, Option, none, some, Text, lookup,
  remove, text_key, text_eq, text_eq-false, is_some, filter, by_if, inl, inr, arith, Memᴰ,
  mem_cases, mem_of_mem-filter, is_some-remove_ne, lookup_of_remove,
}
use app_cortex_stt.Errors.{Result, ok, err}
use app_cortex_stt.Eval.{EvalSample, Judgement, Eval, Io}
use app_cortex_stt.Eval.Samples.{
  delete_sample_rows, delete_found, delete_one, delete_sample, delete_each, delete_samples,
  judge_found, judge, unjudge, count_if,
}
use app_cortex_stt.Eval.Kept.{Core, Left, same_tables, remove_audio-Core, notify_if-Core}

pub not_of_other :
    (j : Judgement) (id : Text) → not (text_eq j.sample_id id) ≡ true → id ≢ j.sample_id
not_of_other j id h = λ e. text_eq-false j.sample_id id (ground (arith, h)) (sym e)

pub delete_sample_rows-Core :
    (sys : Io) (id : Text) (s : Eval) → Core s → Left Core (delete_sample_rows sys id s)
unfolding delete_sample_rows
delete_sample_rows-Core sys id s c =
    by_if (Left Core) (sys.works 1) _ _
      (λ a.
        by_if (Left Core) (sys.works 2) _ _
          (λ b.
            by_if (Left Core) (sys.works 3) _ _
              (λ d.
                by_if (Left Core) (sys.works 4) _ _ (λ t. gone)
                  (λ f. same_tables s2 _ refl refl refl ruled))
              (λ f. ruled))
          (λ f. same_tables s _ refl refl refl c))
      (λ f. c)
  where
    unruled : List Judgement
    unruled = filter (λ j. not (text_eq j.sample_id id)) s.judgements

    s2 : Eval
    s2 = record s {
      results = filter (λ r. not (text_eq r.sample_id id)) s.results;
      judgements = filter (λ j. not (text_eq j.sample_id id)) s.judgements;
    }

    ruled : Core s2
    ruled = record {
      references = c.references;
      judged = λ j m. c.judged j (mem_of_mem-filter _ s.judgements m).0;
      pending_path = c.pending_path;
      sample_path = c.sample_path;
    }

    gone : Core (record s2 {
      run_samples = filter (λ r. not (text_eq r.1 id)) s.run_samples;
      samples = remove id s.samples;
    })
    gone = record {
      references = λ j x e. c.references j x (lookup_of_remove id j s.samples e);
      judged = λ j m.
          let (old, other) = mem_of_mem-filter _ s.judgements m in
          is_some-remove_ne id j.sample_id s.samples (not_of_other j id other) (c.judged j old);
      pending_path = c.pending_path;
      sample_path = λ j x e. c.sample_path j x (lookup_of_remove id j s.samples e);
    }

pub delete_found-Core :
    (sys : Io) (id : Text) (s : Eval) (o : Option EvalSample)
    → Core s
    → Left Core (delete_found sys id s o)
unfolding delete_found
delete_found-Core sys id s none c = c
delete_found-Core sys id s (some x) c =
    delete_sample_rows-Core sys id _ (remove_audio-Core sys x.audio_path s c)

pub delete_one-Core : (sys : Io) (id : Text) (s : Eval) → Core s → Left Core (delete_one sys id s)
unfolding delete_one
delete_one-Core sys id s c =
    by_if (Left Core) (sys.works 0) _ _ (λ t. delete_found-Core sys id s (lookup id s.samples) c)
      (λ f. c)

pub delete_sample-Core :
    (sys : Io) (id : Text) (s : Eval) → Core s → Left Core (delete_sample sys id s)
unfolding delete_sample
delete_sample-Core sys id s c = notify_if-Core _ _ (delete_one-Core sys id s c)

pub after_one :
    (P : Eval → Type 0) (ids : List (Text × Io)) (n : ℕ) (t : Eval) (r : Result Bool)
    → ((b : Bool) → P (delete_each ids (count_if b n) t).0)
    → P t
    → P
        (elim r as (λ _. Eval × Result ℕ) [
          | err e ↦ (t, err e)
          | ok b ↦ delete_each ids (count_if b n) t
        ]).0
after_one P ids n t (err e) rest h = h
after_one P ids n t (ok b) rest h = rest b

-- A property that every deletion of one sample keeps is kept by a list of them.
pub delete_each-keeps :
    (P : Eval → Type 0) (ids : List (Text × Io)) (n : ℕ) (s : Eval)
    → ((id : Text) (sys : Io) (t : Eval) → Memᴰ (id, sys) ids → P t → P (delete_one sys id t).0)
    → P s
    → P (delete_each ids n s).0
unfolding delete_each
delete_each-keeps P [] n s k h = h
delete_each-keeps P ((id, sys) ∷ ids) n s k h =
    let h' = k id sys s (Memᴰ.head refl) h in
    after_one P ids n (delete_one sys id s).0 (delete_one sys id s).1
      (λ b.
        delete_each-keeps P ids (count_if b n) (delete_one sys id s).0
          (λ j sys' t m. k j sys' t (Memᴰ.tail m)) h')
      h'

pub delete_samples-Core :
    (ids : List (Text × Io)) (s : Eval) → Core s → Left Core (delete_samples ids s)
unfolding delete_samples
delete_samples-Core ids s c =
    notify_if-Core _ _ (delete_each-keeps Core ids 0 s (λ id sys t m. delete_one-Core sys id t) c)

pub judge_found-Core :
    (sys : Io) (id text : Text) (correct : Bool) (s : Eval) (o : Option EvalSample)
    → lookup id s.samples ≡ o
    → Core s
    → Left Core (judge_found sys id text correct s o)
unfolding judge_found
judge_found-Core sys id text correct s none h c = c
judge_found-Core sys id text correct s (some x) h c =
    by_if (Left Core) (sys.works 1) _ _
      (λ t. record {
        references = c.references;
        judged = λ j m. elim (mem_cases m) [
          | inl e ↦ ap (λ i. is_some (lookup i.sample_id s.samples)) e ∙ ap is_some h
          | inr old ↦ c.judged j (mem_of_mem-filter _ s.judgements old).0
        ];
        pending_path = c.pending_path;
        sample_path = c.sample_path;
      })
      (λ f. c)

pub judge-Core :
    (sys : Io) (id text : Text) (correct : Bool) (s : Eval)
    → Core s
    → Left Core (judge sys id text correct s)
unfolding judge
judge-Core sys id text correct s c =
    by_if (Left Core) (sys.works 0) _ _
      (λ t. judge_found-Core sys id text correct s (lookup id s.samples) refl c) (λ f. c)

pub unjudge-Core :
    (sys : Io) (id text : Text) (s : Eval) → Core s → Left Core (unjudge sys id text s)
unfolding unjudge
unjudge-Core sys id text s c =
    by_if (Left Core) (sys.works 0) _ _
      (λ t. notify_if-Core _ _ (record {
        references = c.references;
        judged = λ j m. c.judged j (mem_of_mem-filter _ s.judgements m).0;
        pending_path = c.pending_path;
        sample_path = c.sample_path;
      }))
      (λ f. c)
