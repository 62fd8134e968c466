-- ===== src/Eval/Samples.antt =====
-- The calls on the samples of an evaluation: a change of the reference, deletions and judgements
-- (cortex-stt/src/eval/mod.rs, with the statements of eval/store.rs).
use app_cortex_stt.Common.{
  ℕ, suc, Bool, false, ◌&&◌, not, List, [], ◌∷◌, Option, none, some, Text, codes, lookup, insert,
  remove, text_key, text_eq, trim, is_empty, is_some, any, filter, ltb, if◌then◌else◌,
}
use app_cortex_stt.Errors.{protocol_error, eval_sample_not_found, Result, ok, err}
use app_cortex_stt.Eval.{EvalSample, Judgement, Eval, Io, failed, notify, notify_if, remove_audio}

unfoldable pub update_reference :
    Text → Text → Option Text → Eval → Option EvalSample → Eval × Result (Unit {0})
update_reference id reference locale s none = (s, err (eval_sample_not_found id))
update_reference id reference locale s (some x) =
    let x' = record x { reference_transcript = reference; reference_locale = locale } in
    (notify (record s { samples = insert id x' s.samples }), ok tt)

unfoldable pub set_reference : Io → Text → Text → Option Text → Eval → Eval × Result (Unit {0})
unfolding update_reference trim
set_reference sys id reference locale s =
    if is_empty (trim reference)
    then (
      s,
      err (
          protocol_error
            (codes "a reference transcript cannot be emptied; delete the sample instead")),
    )
    else if sys.works 0
    then update_reference id (trim reference) locale s (lookup id s.samples)
    else (s, err (failed sys))

-- The statements of `store::delete_sample`; those before a failure are done.
unfoldable pub delete_sample_rows : Io → Text → Eval → Eval × Result Bool
delete_sample_rows sys id s =
    let s1 = record s { results = filter (λ r. not (text_eq r.sample_id id)) s.results } in
    let s2 = record s1 { judgements = filter (λ j. not (text_eq j.sample_id id)) s.judgements } in
    let s3 = record s2 { run_samples = filter (λ r. not (text_eq r.1 id)) s.run_samples } in
    let s4 = record s3 { samples = remove id s.samples } in
    if sys.works 1
    then (if sys.works 2
        then (if sys.works 3
            then (if sys.works 4
                then (s4, ok (is_some (lookup id s.samples)))
                else (s3, err (failed sys)))
            else (s2, err (failed sys)))
        else (s1, err (failed sys)))
    else (s, err (failed sys))

unfoldable pub delete_found : Io → Text → Eval → Option EvalSample → Eval × Result Bool
unfolding remove_audio delete_sample_rows
delete_found sys id s none = (s, ok false)
delete_found sys id s (some x) = delete_sample_rows sys id (remove_audio sys x.audio_path s)

-- A sample's deletion before its notice.
unfoldable pub delete_one : Io → Text → Eval → Eval × Result Bool
unfolding delete_found
delete_one sys id s =
    if sys.works 0 then delete_found sys id s (lookup id s.samples) else (s, err (failed sys))

abbrev pub is_true : Result Bool → Bool
is_true (ok b) = b
is_true (err e) = false

unfoldable pub delete_sample : Io → Text → Eval → Eval × Result Bool
unfolding delete_one
delete_sample sys id s = let (t, r) = delete_one sys id s in (notify_if (is_true r) t, r)

abbrev pub count_if : Bool → ℕ → ℕ
count_if b n = if b then suc n else n

-- Each id with what its statements come to.
unfoldable pub delete_each : List (Text × Io) → ℕ → Eval → Eval × Result ℕ
unfolding delete_one
delete_each [] n s = (s, ok n)
delete_each ((id, sys) ∷ ids) n s =
    let (t, r) = delete_one sys id s in
    elim r [ err e ↦ (t, err e) | ok b ↦ delete_each ids (count_if b n) t ]

abbrev pub is_positive : Result ℕ → Bool
is_positive (ok n) = ltb 0 n
is_positive (err e) = false

unfoldable pub delete_samples : List (Text × Io) → Eval → Eval × Result ℕ
unfolding delete_each
delete_samples ids s = let (t, r) = delete_each ids 0 s in (notify_if (is_positive r) t, r)

abbrev pub is_ruling : Text → Text → Judgement → Bool
is_ruling id text j = text_eq j.sample_id id && text_eq j.output_text text

unfoldable pub judge_found :
    Io → Text → Text → Bool → Eval → Option EvalSample → Eval × Result (Unit {0})
judge_found sys id text correct s none = (s, err (eval_sample_not_found id))
judge_found sys id text correct s (some x) =
    let j : Judgement = record { sample_id = id; output_text = text; correct = correct } in
    if sys.works 1
    then (
      notify (record s { judgements = j ∷ filter (λ i. not (is_ruling id text i)) s.judgements }),
      ok tt,
    )
    else (s, err (failed sys))

unfoldable pub judge : Io → Text → Text → Bool → Eval → Eval × Result (Unit {0})
unfolding judge_found
judge sys id text correct s =
    if sys.works 0
    then judge_found sys id text correct s (lookup id s.samples)
    else (s, err (failed sys))

unfoldable pub unjudge : Io → Text → Text → Eval → Eval × Result Bool
unjudge sys id text s =
    let cleared = any (is_ruling id text) s.judgements in
    let t = record s { judgements = filter (λ i. not (is_ruling id text i)) s.judgements } in
    if sys.works 0 then (notify_if cleared t, ok cleared) else (s, err (failed sys))
