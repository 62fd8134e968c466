-- ===== src/Eval/Runner/Coverage.antt =====
-- Which results a run stores (eval/runner.rs, `execute`).
use mathlib.Core.List.{append_assoc, append-nil}
use app_cortex_stt.Common.{
  ℕ, suc, ◌≡◌, refl, sym, ap, ◌∙◌, Bool, true, false, List, [], ◌∷◌, ◌++◌, map, Option, none, Text,
  by_case, if◌then◌else◌, arith,
}
use app_cortex_stt.Errors.{AsrError, Result, ok, err, is_ok}
use app_cortex_stt.Rendering.{Config}
use app_cortex_stt.Eval.{EvalResult}
use app_cortex_stt.Eval.Runner.{
  Load, Attempt, Runner, RunOutcome, completes, cancels, insert_result, execute_sample,
  execute_samples, load_candidate, execute_candidate, execute, result_of, unload,
}

-- The candidate and the sample of a result.
abbrev pub cell : EvalResult → Text × Text
cell r = (r.model_id, r.sample_id)

abbrev pub cells : Text → List Text → List (Text × Text)
cells model samples = map (λ x. (model, x)) samples

-- Every sample of every candidate that loads, candidate by candidate.
unfoldable pub covered : (ℕ → Load) → ℕ → List Text → List Text → List (Text × Text)
covered loads mi [] samples = []
covered loads mi (model ∷ models) samples =
    (if is_ok (loads mi).acquired then cells model samples else [])
    ++ covered loads (suc mi) models samples

-- The results are `before` and an initial part of `whole`, all of it if the answer is `done`.
pub record Covers {A : Type 0} (before whole : List (Text × Text)) (done : A)
    (out : Runner × Result A) : Type 0 where
  pub rest : List (Text × Text)
  pub all : map cell out.0.results ++ rest ≡ before ++ whole
  pub finished : out.1 ≡ ok done → rest ≡ []

module _ {F : Type 0} (display : AsrError → Text) (converter : Config → Option (Text → Text))
    (run_id detail : Text) (language : Option Text) (loads : ℕ → Load)
    (attempts : ℕ → ℕ → Attempt F) where
  result_of-cell :
      (a : Attempt F) (model sample : Text) (r : Result _)
      → cell (result_of display converter run_id detail language loads attempts a model sample r)
        ≡ (model, sample)
  unfolding result_of
  result_of-cell a model sample (ok r) = refl
  result_of-cell a model sample (err e) = refl

  map-append_one :
      (rs : List EvalResult) (r : EvalResult) → map cell (rs ++ r ∷ []) ≡ map cell rs ++ cell r ∷ []
  map-append_one [] r = refl
  map-append_one (q ∷ rs) r = ap (λ l. cell q ∷ l) (map-append_one rs r)

  -- A run that goes on after `new` more cells.
  after :
      {A : Type 0} (before new whole : List (Text × Text)) (done : A) (s : Runner)
      (out : Runner × Result A)
      → map cell s.results ≡ before ++ new
      → Covers (map cell s.results) whole done out
      → Covers before (new ++ whole) done out
  after before new whole done s out h c = record {
    rest = c.rest;
    all = c.all ∙ ap (λ l. l ++ whole) h ∙ append_assoc before new whole;
    finished = c.finished;
  }

  execute_samples-Covers :
      (mi si : ℕ) (model : Text) (samples : List Text) (s : Runner)
      → Covers (map cell s.results) (cells model samples) false (
          execute_samples display converter run_id detail language loads attempts mi si model
            samples s)
  unfolding execute_samples execute_sample
  execute_samples-Covers mi si model [] s = record { rest = []; all = refl; finished = λ e. refl }
  execute_samples-Covers mi si model (sample ∷ samples) s =
      by_case (Covers (map cell s.results) (cells model (sample ∷ samples)) false)
        (attempts mi si).cancelled _ _
        (λ stops. record {
          rest = cells model (sample ∷ samples);
          all = refl;
          finished = λ e. ground (arith, e);
        })
        (λ goes.
          by_case (Covers (map cell s.results) (cells model (sample ∷ samples)) false)
            (attempts mi si).stored _ _
            (λ stored.
              let (t, r) =
                execute_sample display converter run_id detail language loads attempts mi si model
                  sample s in
              after (map cell s.results) ((model, sample) ∷ []) (cells model samples) false
                (insert_result r t) _
                (map-append_one s.results r
                  ∙ ap (λ c. map cell s.results ++ c ∷ [])
                      (result_of-cell (attempts mi si) model sample _))
                (execute_samples-Covers mi (suc si) model samples (insert_result r t)))
            (λ fails. record {
              rest = cells model (sample ∷ samples);
              all = refl;
              finished = λ e. ground (arith, e);
            }))

  execute_candidate-Covers :
      (mi : ℕ) (model : Text) (samples : List Text) (s : Runner)
      → Covers
          (map cell s.results)
          (if is_ok (loads mi).acquired then cells model samples else [])
          false
          (execute_candidate display converter run_id detail language loads attempts mi model
            samples s)
  unfolding execute_candidate load_candidate
  execute_candidate-Covers mi model samples s =
      by_case
        (Covers (map cell s.results) (if is_ok (loads mi).acquired then cells model samples else [])
          false)
        (loads mi).stored _ _ (λ stored. by_load (loads mi).acquired)
        (λ fails. record {
          rest = if is_ok (loads mi).acquired then cells model samples else [];
          all = refl;
          finished = λ e. ground (arith, e);
        })
    where
      t : Runner
      t = load_candidate display converter run_id detail language loads attempts mi model s

      by_samples :
          (out : Runner × Result Bool)
          → Covers (map cell s.results) (cells model samples) false out
          → Covers
              (map cell s.results)
              (cells model samples)
              false
              (elim out.1 as (λ _. Runner × Result Bool) [
                | err e ↦ (out.0, err e)
                | ok stopped ↦ (record out.0 { loaded = unload model out.0.loaded }, ok stopped)
              ])
      by_samples (u, err e) c = record {
        rest = c.rest;
        all = c.all;
        finished = λ h. ground (arith, h);
      }
      by_samples (u, ok stopped) c = record { rest = c.rest; all = c.all; finished = c.finished }

      by_load :
          (acquired : Result ℕ)
          → Covers
              (map cell s.results)
              (if is_ok acquired then cells model samples else [])
              false
              (elim acquired as (λ _. Runner × Result Bool) [
                | err e ↦ (t, ok false)
                | ok _ ↦
                    let (u, r) =
                      execute_samples display converter run_id detail language loads attempts mi 0
                        model samples t in
                    elim r [
                      | err e ↦ (u, err e)
                      | ok stopped ↦ (record u { loaded = unload model u.loaded }, ok stopped)
                    ]
              ])
      by_load (err e) = record { rest = []; all = refl; finished = λ h. refl }
      by_load (ok resident) = by_samples _ (execute_samples-Covers mi 0 model samples t)

  -- A run that ends within a part of what is to come.
  within :
      (before part more : List (Text × Text)) (out : Runner × Result Bool) (o : Result RunOutcome)
      → Covers before part false out
      → ¬ (o ≡ ok completes)
      → Covers before (part ++ more) completes (out.0, o)
  within before part more out o c d = record {
    rest = c.rest ++ more;
    all =
        sym (append_assoc (map cell out.0.results) c.rest more)
        ∙ ap (λ l. l ++ more) c.all
        ∙ append_assoc before part more;
    finished = λ e. absurd (d e);
  }

  -- The results of a run are those of the candidates in their order, each with every sample in
  -- order, less an end that is empty if the run completes.
  execute-Covers :
      (mi : ℕ) (models samples : List Text) (s : Runner)
      → Covers
          (map cell s.results)
          (covered loads mi models samples)
          completes
          (execute display converter run_id detail language loads attempts mi models samples s)
  unfolding execute covered
  execute-Covers mi [] samples s = record { rest = []; all = refl; finished = λ e. refl }
  execute-Covers mi (model ∷ models) samples s =
      by_case (Covers (map cell s.results) (part ++ more) completes) (loads mi).cancelled _ _
        (λ stops. record { rest = part ++ more; all = refl; finished = λ e. ground (arith, e) })
        (λ goes.
          by_answer
            (execute_candidate display converter run_id detail language loads attempts mi model
              samples s)
            (execute_candidate-Covers mi model samples s)
            (λ t. execute-Covers (suc mi) models samples t))
    where
      part : List (Text × Text)
      part = if is_ok (loads mi).acquired then cells model samples else []

      more : List (Text × Text)
      more = covered loads (suc mi) models samples

      on : Runner → Runner × Result RunOutcome
      on t =
          execute display converter run_id detail language loads attempts (suc mi) models samples t

      by_answer :
          (out : Runner × Result Bool)
          → Covers (map cell s.results) part false out
          → ((t : Runner) → Covers (map cell t.results) more completes (on t))
          → Covers
              (map cell s.results)
              (part ++ more)
              completes
              (elim out.1 as (λ _. Runner × Result RunOutcome) [
                | err e ↦ (out.0, err e)
                | ok true ↦ (out.0, ok cancels)
                | ok false ↦ on out.0
              ])
      by_answer (t, err e) c go =
          within (map cell s.results) part more (t, err e) (err e) c (λ h. ground (arith, h))
      by_answer (t, ok true) c go =
          within (map cell s.results) part more (t, ok true) (ok cancels) c (λ h. ground (arith, h))
      by_answer (t, ok false) c go =
          after (map cell s.results) part more completes t (on t)
            (sym (append-nil (map cell t.results))
              ∙ ap (λ l. map cell t.results ++ l) (sym (c.finished refl))
              ∙ c.all)
            (go t)

  -- A run stores its results candidate by candidate, for each that loads one result per sample in
  -- the samples' order, and for a candidate that does not load none: all of them if it completes,
  -- and an initial part if it is stopped or a row cannot be stored.
  pub execute-results :
      (models samples : List Text) (loaded : List Text)
      → let s : Runner = record {
        loaded = loaded;
        run_models = [];
        results = [];
        progress = none;
      } in
        let (t, r) =
          execute display converter run_id detail language loads attempts 0 models samples s in
        (rest : List (Text × Text)) × (map cell t.results ++ rest ≡ covered loads 0 models samples)
        × (r ≡ ok completes → rest ≡ [])
  execute-results models samples loaded =
      let s : Runner = record { loaded = loaded; run_models = []; results = []; progress = none } in
      let c = execute-Covers 0 models samples s in (c.rest, c.all, c.finished)
