-- ===== src/Engine/Pool/Tests.antt =====
-- Runs of a pool, and the theorems about it at concrete pools (engine/pool.rs).
use app_cortex_stt.Common.{ℕ, suc, ◌*◌, ◌≡◌, refl, List, [], ◌∷◌, Option, none, some}
use app_cortex_stt.Engine.Pool.{
  ModelPool, get_elem?, set_elem, with_engine, Call, err, model_not_loaded, returned, panicked,
  acquire, timed_out, new, build, range, take_permit, take_index, return_index, return_permit,
  remove_first, Shared, Step, takes_permit, takes_index, drops, frees_permit, step, run, idle,
}
use app_cortex_stt.Engine.Pool.Exclusive.{Exclusive, run-new-Exclusive}
use app_cortex_stt.Engine.Pool.Panics.{with_engine_of_lost}

program : Unit {0}
unfolding new build range take_permit take_index return_index return_permit remove_first step run
    get_elem? set_elem with_engine acquire
program = tt

-- An engine is a counter of its calls.
abbrev factory : ℕ → Option ℕ
factory k = some (100 * k)

abbrev two : ModelPool ℕ
two = record {
  model_id = b'm' ∷ [];
  instances = some 0 ∷ some 100 ∷ [];
  free_indices = 0 ∷ 1 ∷ [];
  permits = 2;
}

new-two : new factory 2 (b'm' ∷ []) ≡ some two
unfolding program
new-two = refl

-- Two callers take permits before either takes an index, and a third waits.
abbrev steps : List Step
steps =
    takes_permit
    ∷ takes_permit
    ∷ takes_index
    ∷ takes_permit
    ∷ takes_index
    ∷ drops 0
    ∷ frees_permit
    ∷ []

steps-run :
    run (idle two) steps
    ≡ some (record {
      pool = record two { free_indices = 0 ∷ []; permits = 1 };
      taking = 0;
      held = 1 ∷ [];
      returning = 0;
    })
unfolding program
steps-run = refl

acquire_empty : (acquire (record two { permits = 0 })).1 ≡ timed_out
unfolding program
acquire_empty = refl

run-new-Exclusive_example : (s : Shared ℕ) × (run (idle two) steps ≡ some s) × Exclusive 2 s
run-new-Exclusive_example = run-new-Exclusive factory 2 (b'm' ∷ []) two steps new-two

abbrev crash : ℕ → ℕ × Call ℕ
crash n = (suc n, panicked)

abbrev tick : ℕ → ℕ × Call ℕ
tick n = (suc n, returned n)

second : get_elem? two.instances 1 ≡ some (some 100)
unfolding program
second = refl

with_engine_of_lost_example :
    with_engine (with_engine two 1 crash none).0 1 tick (some 7)
    ≡ ((with_engine two 1 crash none).0, err model_not_loaded)
with_engine_of_lost_example = with_engine_of_lost two 1 crash tick 100 (some 7) second refl
