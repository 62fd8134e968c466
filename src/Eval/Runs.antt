-- ===== src/Eval/Runs.antt =====
-- The evaluation's store over any calls (eval/mod.rs), with failures of its statements.
use app_cortex_stt.Common.{
  ℕ, suc, ◌≡◌, ◌≢◌, refl, Bool, true, List, [], Option, none, some, Text, lookup, text_key, is_some,
  Memᴰ,
}
use app_cortex_stt.History.{Write, wav_name}
use app_cortex_stt.Eval.{
  PendingCapture, EvalSample, Judgement, Eval, Io, capture, discard_pending, promote,
}
use app_cortex_stt.Eval.Samples.{set_reference, delete_sample, delete_samples, judge, unjudge}
use app_cortex_stt.Eval.Kept.{Core, capture-Core, discard_pending-Core}
use app_cortex_stt.Eval.Kept.Edits.{promote-Core, set_reference-Core}
use app_cortex_stt.Eval.Kept.Deletes.{
  delete_sample-Core, delete_samples-Core, judge-Core, unjudge-Core,
}
use app_cortex_stt.Eval.Owned.{HasFile, Paired, capture-Paired, discard_pending-Paired}
use app_cortex_stt.Eval.Owned.Edits.{promote-Paired, set_reference-Paired}
use app_cortex_stt.Eval.Owned.Deletes.{
  delete_sample-Paired, delete_samples-Paired, judge-Paired, unjudge-Paired,
}

-- The calls. Ids of captures are new. `strict` says that the deletion of a promoted capture does
-- not fail, and none of the statements of a sample's deletion once it is found.
pub data Step (strict : Bool) : Eval → Eval → Type 0 where
  captures :
      (s : Eval) (sys : Io) (id now : Text) (decoded : Option ℕ) (audio : Write)
      (origin device text : Option Text)
      → lookup id s.pending ≡ none
      → lookup id s.samples ≡ none
      → Step strict s (capture sys id now decoded audio origin device text s).0
  discards : (s : Eval) (sys : Io) (id : Text) → Step strict s (discard_pending sys id s).0
  promotes :
      (s : Eval) (sys : Io) (id now reference : Text) (locale : Option Text)
      → (strict ≡ true → sys.works 2 ≡ true)
      → Step strict s (promote sys id now reference locale s).0
  sets_reference :
      (s : Eval) (sys : Io) (id reference : Text) (locale : Option Text)
      → Step strict s (set_reference sys id reference locale s).0
  deletes :
      (s : Eval) (sys : Io) (id : Text)
      → (strict ≡ true → (n : ℕ) → sys.works (suc n) ≡ true)
      → Step strict s (delete_sample sys id s).0
  deletes_many :
      (s : Eval) (ids : List (Text × Io))
      → (strict ≡ true
          → (id : Text) (sys : Io) → Memᴰ (id, sys) ids
          → (n : ℕ) → sys.works (suc n) ≡ true)
      → Step strict s (delete_samples ids s).0
  judges :
      (s : Eval) (sys : Io) (id text : Text) (correct : Bool)
      → Step strict s (judge sys id text correct s).0
  unjudges : (s : Eval) (sys : Io) (id text : Text) → Step strict s (unjudge sys id text s).0

pub data Reach (strict : Bool) (s : Eval) : Eval → Type 0 where
  here : Reach strict s s
  next : {t u : Eval} → Reach strict s t → Step strict t u → Reach strict s u

abbrev pub new : Eval
new = record {
  pending = [];
  samples = [];
  results = [];
  judgements = [];
  run_samples = [];
  files = [];
  notified = 0;
}

Step-Core : {strict : Bool} {s t : Eval} → Step strict s t → Core s → Core t
Step-Core (Step.captures s sys id now decoded audio origin device text h k) c =
    capture-Core sys id now decoded audio origin device text s c
Step-Core (Step.discards s sys id) c = discard_pending-Core sys id s c
Step-Core (Step.promotes s sys id now reference locale w) c =
    promote-Core sys id now reference locale s c
Step-Core (Step.sets_reference s sys id reference locale) c =
    set_reference-Core sys id reference locale s c
Step-Core (Step.deletes s sys id w) c = delete_sample-Core sys id s c
Step-Core (Step.deletes_many s ids w) c = delete_samples-Core ids s c
Step-Core (Step.judges s sys id text correct) c = judge-Core sys id text correct s c
Step-Core (Step.unjudges s sys id text) c = unjudge-Core sys id text s c

Step-Paired : {s t : Eval} → Step true s t → Core s → Paired s → Paired t
Step-Paired (Step.captures s sys id now decoded audio origin device text h k) c i =
    capture-Paired sys id now decoded audio origin device text s h k i
Step-Paired (Step.discards s sys id) c i = discard_pending-Paired sys id s c i
Step-Paired (Step.promotes s sys id now reference locale w) c i =
    promote-Paired sys id now reference locale s (w refl) i
Step-Paired (Step.sets_reference s sys id reference locale) c i =
    set_reference-Paired sys id reference locale s i
Step-Paired (Step.deletes s sys id w) c i = delete_sample-Paired sys id s (w refl) c i
Step-Paired (Step.deletes_many s ids w) c i = delete_samples-Paired ids s (w refl) c i
Step-Paired (Step.judges s sys id text correct) c i = judge-Paired sys id text correct s i
Step-Paired (Step.unjudges s sys id text) c i = unjudge-Paired sys id text s i

new-Core : Core new
unfolding lookup
new-Core = record {
  references = λ id x e. cc e;
  judged = λ j m. elim m [ ];
  pending_path = λ id p e. cc e;
  sample_path = λ id x e. cc e;
}

new-Paired : Paired new
unfolding lookup
new-Paired = record {
  of_pending = λ id p e. cc e;
  of_sample = λ id x e. cc e;
  apart = λ id x e. cc e;
}

Reach-Core : {strict : Bool} {s t : Eval} → Reach strict s t → Core s → Core t
Reach-Core Reach.here c = c
Reach-Core (Reach.next r step) c = Step-Core step (Reach-Core r c)

Reach-both : {s t : Eval} → Reach true s t → Core s → Paired s → Paired t
Reach-both Reach.here c i = i
Reach-both (Reach.next r step) c i = Step-Paired step (Reach-Core r c) (Reach-both r c i)

-- Over any calls from an empty store, whatever fails, every sample has a reference transcript that
-- is not empty, and every judgement is of a sample that is there.
pub Reach-referenced :
    (strict : Bool) (s : Eval)
    → Reach strict new s
    → ((id : Text) (x : EvalSample) → lookup id s.samples ≡ some x → x.reference_transcript ≢ [])
      × ((j : Judgement) → Memᴰ j s.judgements → is_some (lookup j.sample_id s.samples) ≡ true)
Reach-referenced strict s r = let c = Reach-Core r new-Core in (c.references, c.judged)

-- Over any calls from an empty store, every sample and every capture has its own audio file, and
-- no id is both a sample and a capture, if the statements of a deletion after the first and the
-- deletion of a promoted capture do not fail.
pub Reach-paired :
    (s : Eval)
    → Reach true new s
    → ((id : Text) (x : EvalSample)
        → lookup id s.samples ≡ some x
        → (x.audio_path ≡ wav_name id) × HasFile s.files id × (lookup id s.pending ≡ none))
      × ((id : Text) (p : PendingCapture)
          → lookup id s.pending ≡ some p
          → (p.audio_path ≡ wav_name id) × HasFile s.files id)
Reach-paired s r =
    let c = Reach-Core r new-Core in
    let i = Reach-both r new-Core new-Paired in
    (
      λ id x e. (c.sample_path id x e, i.of_sample id x e, i.apart id x e),
      λ id p e. (c.pending_path id p e, i.of_pending id p e),
    )
