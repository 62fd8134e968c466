-- ===== src/Eval/Runner/Slot.antt =====
-- The slot of the run in flight (eval/runner.rs): `start`, `cancel` and the end of a run's task.
pub mod Held
use app_cortex_stt.Common.{
  ℕ, suc, Bool, true, false, not, List, [], ◌∷◌, ◌++◌, map, Option, none, some, Text, codes, KeyMap,
  lookup, insert, remove, is_some, ◌&&◌, text_key, text_eq, is_empty, any, filter, if◌then◌else◌,
}
use app_cortex_stt.Errors.{
  AsrError, protocol_error, eval_blocked_by_download, eval_run_in_progress, database_error, Result,
  ok, err, ◌>>=◌,
}
use app_cortex_stt.Eval.Runner.{
  RunRequest, RunStatus, running, completed, cancelled, failed, RunOutcome, completes, cancels,
}

-- The run in flight with its flag, whether the slot is held, the rows of the runs and their
-- samples, the models that are resident, and the notices.
pub record Slot : Type 0 where
  pub in_flight : Option (Text × Bool)
  pub held : Bool
  pub statuses : KeyMap Text RunStatus
  pub run_samples : List (Text × Text)
  pub loaded : List Text
  pub notified : ℕ

-- Which statements of `start` succeed.
pub record Works : Type 0 where
  pub loads_settings : Bool
  pub inserts_run : Bool
  pub sets_samples : Bool
  pub detail : Text

unfoldable pub cancel : Text → Slot → Slot × Bool
cancel id s = elim s.in_flight [
  | none ↦ (s, false)
  | some (run, flag) ↦
      if text_eq run id then (record s { in_flight = some (run, true) }, true) else (s, false)
]

-- The samples of a request.
unfoldable pub wanted : Option (List Text) → List Text → List Text
wanted none samples = samples
wanted (some ids) samples = filter (λ x. any (text_eq x) ids) samples

abbrev pub no_samples : Option (List Text) → Text
no_samples none = codes "the evaluation set is empty; add and label samples first"
no_samples (some ids) = codes "none of the selected samples exist"

unfoldable pub join : List Text → Text
join [] = []
join (id ∷ []) = id
join (id ∷ next ∷ ids) = id ++ codes ", " ++ join (next ∷ ids)

-- `busy` are the Variants that are downloaded or wait for it.
unfoldable pub check_request : RunRequest → Result (List Text) → List Text → Result (List Text)
unfolding wanted join
check_request req samples busy =
    if is_empty req.model_ids
    then err (protocol_error (codes "an evaluation run needs at least one candidate model"))
    else samples >>= λ all.
        let chosen = wanted req.sample_ids all in
        if is_empty chosen
        then err (protocol_error (no_samples req.sample_ids))
        else if is_empty busy
        then ok chosen
        else err (eval_blocked_by_download (join busy))

-- What a start does once the slot is taken; an error gives it back.
unfoldable pub start_run : Works → Text → List Text → Slot → Slot × Result Text
start_run w id chosen s =
    let t = record s { loaded = [] } in
    let u = record t { statuses = insert id running s.statuses } in
    if w.loads_settings
    then (if w.inserts_run
        then (if w.sets_samples
            then (
              record u {
                run_samples = map (λ x. (id, x)) chosen ++ s.run_samples;
                in_flight = some (id, false);
                held = true;
              },
              ok id,
            )
            else (u, err (database_error w.detail)))
        else (t, err (database_error w.detail)))
    else (s, err (database_error w.detail))

-- `id` is a new random one.
unfoldable pub start :
    Works → Text → RunRequest → Result (List Text) → List Text → Slot → Slot × Result Text
unfolding check_request start_run
start w id req samples busy s = elim (check_request req samples busy) [
  | err e ↦ (s, err e)
  | ok chosen ↦ if s.held then (s, err eval_run_in_progress) else start_run w id chosen s
]

unfoldable pub status_of : Result RunOutcome → RunStatus
status_of (ok completes) = completed
status_of (ok cancels) = cancelled
status_of (err e) = failed

-- The end of the task of a run, while it still holds the slot: an update, which finds no row if the
-- run is deleted meanwhile, and may fail.
unfoldable pub finish_run : Text → RunStatus → Bool → Slot → Slot
finish_run id status finishes s = record s {
  statuses =
      if finishes && is_some (lookup id s.statuses)
      then insert id status s.statuses
      else s.statuses;
}

-- The run is named no more.
unfoldable pub clear : Slot → Slot
clear s = record s { in_flight = none; notified = suc s.notified }

-- What is resident once the models that the run displaced are acquired again, one by one: each
-- comes with what its acquire leaves resident.
unfoldable pub restore_working_set : List (Text × List Text) → List Text → List Text
restore_working_set [] loaded = loaded
restore_working_set ((id, resident) ∷ ids) loaded = restore_working_set ids resident

unfoldable pub release : List (Text × List Text) → Slot → Slot
unfolding restore_working_set
release restore s = record s { loaded = restore_working_set restore s.loaded; held = false }

-- The deletion of a run, which may be the one in flight. Which of its statements succeed: that on
-- its samples and, after it, that on its row.
unfoldable pub delete_run : Bool → Bool → Text → Slot → Slot
delete_run clears deletes id s =
    let t = record s { run_samples = filter (λ p. not (text_eq p.0 id)) s.run_samples } in
    if clears
    then (if deletes
        then record t {
          statuses = remove id s.statuses;
          notified = if is_some (lookup id s.statuses) then suc s.notified else s.notified;
        }
        else t)
    else s
