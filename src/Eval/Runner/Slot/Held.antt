-- ===== src/Eval/Runner/Slot/Held.antt =====
-- The run in flight over any calls (eval/runner.rs; eval/mod.rs, `delete_run`).
use app_cortex_stt.Common.{
  ◌≡◌, ◌⊎◌, refl, sym, ap, ◌∙◌, subst, Bool, true, false, List, [], Option, none, some, Text,
  lookup, insert, remove, text_key, text_eq, by_if, lookup-insert_self, lookup-remove_self,
  lookup-remove_ne, if◌then◌else◌, Bool-cases, inl, inr, is_some, ◌&&◌,
}
use app_cortex_stt.Errors.{Result, ok, err, eval_run_in_progress}
use app_cortex_stt.Eval.Runner.{RunRequest, RunOutcome, RunStatus, running}
use app_cortex_stt.Eval.Runner.Slot.{
  Slot, Works, cancel, check_request, start_run, start, status_of, finish_run, clear, release,
  delete_run,
}

-- The slot, and the status that the task of the run in flight has ended with, between the update of
-- its row and the moment when it is named no more.
pub record Task : Type 0 where
  pub slot : Slot
  pub ended : Option RunStatus

-- The steps: a start, a request to stop, the three steps in which the task of the run in flight
-- ends, in their order, the deletion of a run, and the loads and unloads of other requests.
pub data Step : Task → Task → Type 0 where
  starts :
      (t : Task) (w : Works) (id : Text) (req : RunRequest) (samples : Result (List Text))
      (busy : List Text)
      → Step t (record t { slot = (start w id req samples busy t.slot).0 })
  cancels : (t : Task) (id : Text) → Step t (record t { slot = (cancel id t.slot).0 })
  finishes :
      (t : Task) (id : Text) (flag : Bool) (outcome : Result RunOutcome) (updates : Bool)
      → t.slot.in_flight ≡ some (id, flag)
      → t.ended ≡ none
      → Step t (record {
        slot = finish_run id (status_of outcome) updates t.slot;
        ended = some (status_of outcome);
      })
  clears :
      (t : Task) (status : RunStatus)
      → t.ended ≡ some status
      → Step t (record { slot = clear t.slot; ended = none })
  releases :
      (t : Task) (restore : List (Text × List Text))
      → t.slot.in_flight ≡ none
      → t.slot.held ≡ true
      → Step t (record t { slot = release restore t.slot })
  deletes :
      (t : Task) (samples row : Bool) (id : Text)
      → Step t (record t { slot = delete_run samples row id t.slot })
  loads :
      (t : Task) (resident : List Text)
      → Step t (record t { slot = record t.slot { loaded = resident } })

pub data Reach (t : Task) : Task → Type 0 where
  here : Reach t t
  next : {u v : Task} → Reach t u → Step u v → Reach t v

abbrev pub new : Task
new = record {
  slot = record {
    in_flight = none;
    held = false;
    statuses = [];
    run_samples = [];
    loaded = [];
    notified = 0;
  };
  ended = none;
}

-- A row, if there is one, says that the run goes on or what it has ended with.
abbrev pub Says : Option RunStatus → Option RunStatus → Type 0
Says none ended = Unit {0}
Says (some status) ended = (status ≡ running) ⊎ (ended ≡ some status)

pub record Holds (s : Slot) (ended : Option RunStatus) : Type 0 where
  pub idle : s.in_flight ≡ none → ended ≡ none
  pub runs :
      (id : Text) (flag : Bool)
      → s.in_flight ≡ some (id, flag)
      → (s.held ≡ true) × Says (lookup id s.statuses) ended

not_in_flight :
    (s : Slot) (ended : Option RunStatus) → Holds s ended → s.held ≡ false → s.in_flight ≡ none
not_in_flight s ended h f = by_run s.in_flight refl
  where
    by_run : (o : Option (Text × Bool)) → s.in_flight ≡ o → s.in_flight ≡ none
    by_run none e = e
    by_run (some (id, flag)) e = cc ((h.runs id flag e).0, f)

same_row :
    (ended : Option RunStatus) {m m' : Option RunStatus} → m ≡ m' → Says m ended → Says m' ended
same_row ended e h = subst (λ m. Says m ended) e h

start_run-Holds :
    (w : Works) (id : Text) (chosen : List Text) (s : Slot) (ended : Option RunStatus)
    → s.in_flight ≡ none
    → ended ≡ none
    → Holds (start_run w id chosen s).0 ended
unfolding start_run
start_run-Holds w id chosen s ended n idle =
    by_if after w.loads_settings _ _
      (λ a.
        by_if after w.inserts_run _ _
          (λ b.
            by_if after w.sets_samples _ _
              (λ c. record {
                idle = λ e. idle;
                runs = λ j flag e. (
                  refl,
                  same_row ended {m = some running}
                      (sym (cc (lookup-insert_self id running s.statuses, e))) (inl refl),
                );
              })
              (λ f. record { idle = λ e. idle; runs = λ j flag e. cc (n, e) }))
          (λ f. record { idle = λ e. idle; runs = λ j flag e. cc (n, e) }))
      (λ f. record { idle = λ e. idle; runs = λ j flag e. cc (n, e) })
  where
    after : Slot × Result Text → Type 0
    after out = Holds out.0 ended

start-Holds :
    (w : Works) (id : Text) (req : RunRequest) (samples : Result (List Text)) (busy : List Text)
    (s : Slot) (ended : Option RunStatus)
    → Holds s ended
    → Holds (start w id req samples busy s).0 ended
unfolding start
start-Holds w id req samples busy s ended h = by_check (check_request req samples busy)
  where
    by_check :
        (r : Result (List Text))
        → Holds
            (elim r as (λ _. Slot × Result Text) [
              | err e ↦ (s, err e)
              | ok chosen ↦
                  if s.held then (s, err eval_run_in_progress) else start_run w id chosen s
            ]).0
            ended
    by_check (err e) = h
    by_check (ok chosen) =
        by_if (λ out. Holds out.0 ended) s.held (s, err eval_run_in_progress)
          (start_run w id chosen s) (λ t. h)
          (λ f.
            let n = not_in_flight s ended h f in start_run-Holds w id chosen s ended n (h.idle n))

cancel-Holds :
    (id : Text) (s : Slot) (ended : Option RunStatus) → Holds s ended → Holds (cancel id s).0 ended
unfolding cancel
cancel-Holds id s ended h = by_run s.in_flight refl
  where
    by_run :
        (o : Option (Text × Bool))
        → s.in_flight ≡ o
        → Holds
            (elim o as (λ _. Slot × Bool) [
              | none ↦ (s, false)
              | some (run, flag) ↦
                  if text_eq run id
                  then (record s { in_flight = some (run, true) }, true)
                  else (s, false)
            ]).0
            ended
    by_run none e = h
    by_run (some (run, flag)) e = elim (Bool-cases (text_eq run id)) [
      | inl t ↦ rw t (record {
        idle = λ e'. cc e';
        runs = λ j flag' e'.
            let (k, l) = h.runs run flag e in
            (k, subst (λ i. Says (lookup i s.statuses) ended) (cc e') l);
      })
      | inr f ↦ rw f h
    ]

finish_run-Holds :
    (id : Text) (flag : Bool) (status : RunStatus) (updates : Bool) (s : Slot)
    → s.in_flight ≡ some (id, flag)
    → Holds s none
    → Holds (finish_run id status updates s) (some status)
unfolding finish_run
finish_run-Holds id flag status updates s e h = record {
  idle = λ n. cc (n, e);
  runs = λ j flag' e'.
      let (k, l) = h.runs id flag e in
      (
        k,
        subst (λ i. Says (lookup i (finish_run id status updates s).statuses) (some status))
            (cc (e, e'))
            (by_if (λ m. Says (lookup id m) (some status))
              (updates && is_some (lookup id s.statuses)) (insert id status s.statuses) s.statuses
              (λ t.
                same_row (some status) {m = some status}
                  (sym (lookup-insert_self id status s.statuses)) (inr refl))
              (λ f. still (lookup id s.statuses) l)),
      );
}
  where
    still : (m : Option RunStatus) → Says m none → Says m (some status)
    still none h = h
    still (some st) (inl r) = inl r
    still (some st) (inr r) = cc r

delete_run-Holds :
    (samples row : Bool) (id : Text) (s : Slot) (ended : Option RunStatus)
    → Holds s ended
    → Holds (delete_run samples row id s) ended
unfolding delete_run
delete_run-Holds false row id s ended h = h
delete_run-Holds true false id s ended h = record { idle = h.idle; runs = h.runs }
delete_run-Holds true true id s ended h = record {
  idle = h.idle;
  runs = λ j flag e. let (k, l) = h.runs j flag e in (k, without j l);
}
  where
    without :
        (j : Text) → Says (lookup j s.statuses) ended → Says (lookup j (remove id s.statuses)) ended
    without j l = elim (text_key.dec_eq id j) [
      | yes e ↦
          same_row ended {m = none}
            (sym (
              ap (λ i. lookup i (remove id s.statuses)) (sym e) ∙ lookup-remove_self id s.statuses))
            tt
      | no d ↦ same_row ended (sym (lookup-remove_ne id j s.statuses d)) l
    ]

Step-Holds : {t u : Task} → Step t u → Holds t.slot t.ended → Holds u.slot u.ended
unfolding release clear
Step-Holds (Step.starts t w id req samples busy) h =
    start-Holds w id req samples busy t.slot t.ended h
Step-Holds (Step.cancels t id) h = cancel-Holds id t.slot t.ended h
Step-Holds (Step.finishes t id flag outcome updates e n) h =
    finish_run-Holds id flag (status_of outcome) updates t.slot e (subst (Holds t.slot) n h)
Step-Holds (Step.clears t status e) h = record { idle = λ n. refl; runs = λ j flag e'. cc e' }
Step-Holds (Step.releases t restore n k) h = record { idle = h.idle; runs = λ j flag e. cc (n, e) }
Step-Holds (Step.deletes t samples row id) h = delete_run-Holds samples row id t.slot t.ended h
Step-Holds (Step.loads t resident) h = record { idle = h.idle; runs = h.runs }

Reach-Holds : {t u : Task} → Reach t u → Holds t.slot t.ended → Holds u.slot u.ended
Reach-Holds Reach.here h = h
Reach-Holds (Reach.next r step) h = Step-Holds step (Reach-Holds r h)

pub Reach-in_flight :
    (t : Task) (id : Text) (flag : Bool)
    → Reach new t
    → t.slot.in_flight ≡ some (id, flag)
    → (t.slot.held ≡ true) × Says (lookup id t.slot.statuses) t.ended
Reach-in_flight t id flag r e =
    (Reach-Holds r (record { idle = λ n. refl; runs = λ j flag' e'. cc e' })).runs id flag e
