-- ===== src/Engine/Manager/Tests.antt =====
-- Runs of the engine manager, and the theorems about it at concrete managers
-- (engine/manager.rs).
use app_cortex_stt.Common.{
  ℕ, suc, ◌+◌, ◌≡◌, ◌≢◌, ◌≤◌, ◌<◌, ◌⊎◌, refl, true, false, [], ◌∷◌, none, some, String, lookup,
  length, arith, string_key, UniqueKeys, insert, remove,
}
use app_cortex_stt.Engine.Manager.{
  LoadedModel, EngineManager, new, register, load_begin, reserved, load_land, drop_reservation,
  reserve_slot, make_room, lru, remove_model, acquire_traced, touch, load_model, unload, idle_tick,
  idle_models, remove_models,
}
use app_cortex_stt.Engine.Manager.Reserve.{reserve_slot-room, reserve_slot-oldest}
use app_cortex_stt.Engine.Manager.Flight.{InFlight, repeats, Step, Reach, start}
use app_cortex_stt.Engine.Manager.Resident.{Reach-bound}
use app_cortex_stt.Engine.Manager.Acquire.{IsAcquire, acquire_traced-IsAcquire}

program : Unit {0}
unfolding lookup string_key insert remove new register load_begin load_land drop_reservation
    reserve_slot make_room lru remove_model acquire_traced touch load_model unload idle_tick
    idle_models remove_models
program = tt

-- A pool is a number, a factory as well.
abbrev loaded_at : ℕ → LoadedModel ℕ
loaded_at t = record { pool = t; last_used = t }

-- Two models are loaded and two may be; a third is registered.
abbrev full : EngineManager ℕ ℕ
full = record {
  max_loaded_models = 2;
  idle_timeout = some 300;
  factories = ("tiny", 1) ∷ ("base", 2) ∷ ("large", 3) ∷ [];
  pools = ("tiny", loaded_at 50) ∷ ("base", loaded_at 40) ∷ [];
  load_locks = ("tiny", 7) ∷ ("base", 8) ∷ [];
  loading = [];
}

full-UniqueKeys : UniqueKeys full.pools
unfolding program
full-UniqueKeys = (refl, (refl, tt))

evicts_base : (reserve_slot "large" 2 full).0.pools ≡ ("tiny", loaded_at 50) ∷ []
unfolding program
evicts_base = refl

base_held : lookup "base" full.pools ≡ some (loaded_at 40)
unfolding program
base_held = refl

base_gone : lookup "base" (reserve_slot "large" 2 full).0.pools ≡ none
unfolding program
base_gone = refl

reserve_slot-room_example :
    ((length (reserve_slot "large" 2 full).0.pools + length full.loading < 2)
      ⊎ ((j : String) → j ≢ "large" → lookup j (reserve_slot "large" 2 full).0.pools ≡ none))
    × ((reserve_slot "large" 2 full).1 ≡ true
        → 2 ≤ suc (length (reserve_slot "large" 2 full).0.pools + length full.loading))
    × ((reserve_slot "large" 2 full).1 ≡ false → (reserve_slot "large" 2 full).0.pools ≡ full.pools)
    × ((j : String) (v : LoadedModel ℕ)
        → lookup j (reserve_slot "large" 2 full).0.pools ≡ some v
        → lookup j full.pools ≡ some v)
reserve_slot-room_example = reserve_slot-room "large" 2 full full-UniqueKeys

reserve_slot-oldest_example :
    (◌≢◌ {A = String} "base" "large")
    × (lookup "base" (reserve_slot "large" 2 full).0.load_locks ≡ none)
    × ((j : String) (w : LoadedModel ℕ)
        → j ≢ "large"
        → lookup j (reserve_slot "large" 2 full).0.pools ≡ some w
        → 40 ≤ w.last_used)
reserve_slot-oldest_example =
    reserve_slot-oldest "large" 2 full "base" (loaded_at 40) full-UniqueKeys base_held base_gone

large_absent : lookup "large" full.pools ≡ none
unfolding program
large_absent = refl

large_known : lookup "large" full.factories ≡ some 3
unfolding program
large_known = refl

acquire_traced-IsAcquire_example :
    IsAcquire "large" (some 9) 60 full (acquire_traced "large" (some 9) 60 full)
acquire_traced-IsAcquire_example = acquire_traced-IsAcquire "large" (some 9) 60 full

large_is_cold : (acquire_traced "large" (some 9) 60 full).1 ≡ some (9, true)
unfolding program
large_is_cold = refl

failed_load : (acquire_traced "large" none 60 full).1 ≡ none
unfolding program
failed_load = refl

unload_example : (unload "tiny" full).1 ≡ true
unfolding program
unload_example = refl

-- Two loads of one model are under way in a manager of two, after a removal of the model.
abbrev registered : InFlight ℕ ℕ
registered = record {
  manager = register (new 2 none) "tiny" 1;
  building = [];
  landed = [];
  again = 0;
}

abbrev loading_tiny : InFlight ℕ ℕ
loading_tiny = record {
  manager = (load_begin "tiny" registered.manager).0;
  building = "tiny" ∷ [];
  landed = [];
  again = 0 + repeats "tiny" registered.manager.loading;
}

abbrev removed : InFlight ℕ ℕ
removed = record loading_tiny { manager = remove_models ("tiny" ∷ []) loading_tiny.manager }

abbrev loading_twice : InFlight ℕ ℕ
loading_twice = record {
  manager = (load_begin "tiny" removed.manager).0;
  building = "tiny" ∷ "tiny" ∷ [];
  landed = [];
  again = removed.again + repeats "tiny" removed.manager.loading;
}

one_again : loading_twice.again ≡ 1
unfolding program
one_again = refl

tiny_begins : (load_begin "tiny" registered.manager).1 ≡ reserved 1
unfolding program
tiny_begins = refl

tiny_begins_again : (load_begin "tiny" removed.manager).1 ≡ reserved 1
unfolding program
tiny_begins_again = refl

Reach-twice : Reach 2 (start 2 none) loading_twice
Reach-twice =
    Reach.next
      (Reach.next
        (Reach.next (Reach.next Reach.here (Step.registers (start 2 none) "tiny" 1))
          (Step.begins registered "tiny" 1 (omega arith) tiny_begins))
        (Step.removes loading_tiny ("tiny" ∷ [])))
      (Step.begins removed "tiny" 1 (omega arith) tiny_begins_again)

Reach-bound_example :
    length loading_twice.manager.pools + length loading_twice.building ≤ 2 + loading_twice.again
Reach-bound_example = Reach-bound 2 2 2 none loading_twice (omega arith) (omega arith) Reach-twice
