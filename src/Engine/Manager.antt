-- ===== src/Engine/Manager.antt =====
-- The manager of the loaded models (cortex-stt/src/engine/manager.rs). `P` is the type of a pool,
-- `F` that of a factory. A HashMap is a list of entries with no key twice, and the set of the
-- models that are loading is such a map; a lock is known by a number. Time is a number of
-- seconds; `Instant::duration_since` gives 0 for a later instant, as subtraction does here. An
-- event is sent to subscribers exactly where a function here says that something changed.
pub mod Lru
pub mod Reserve
pub mod Shrinks
pub mod Flight
mod Begun
pub mod Resident
pub mod Idle
pub mod Acquire
mod Tests
use app_cortex_stt.Common.{
  ℕ, zero, suc, ◌+◌, ◌-◌, Bool, true, false, List, [], ◌∷◌, Option, none, some, String, KeyMap,
  lookup, insert, remove, length, if◌then◌else◌, ltb, leb, ite, is_some, string_key,
}

pub record LoadedModel (P : Type 0) : Type 0 where
  pub pool : P
  pub last_used : ℕ

pub record EngineManager (P F : Type 0) : Type 0 where
  pub max_loaded_models : ℕ
  pub idle_timeout : Option ℕ
  pub factories : KeyMap String F
  pub pools : KeyMap String (LoadedModel P)
  pub load_locks : KeyMap String ℕ
  pub loading : KeyMap String (Unit {0})

pub data LoadStart (F : Type 0) : Type 0 where
  already_loaded : LoadStart F
  model_not_found : LoadStart F
  reserved : F → LoadStart F

module _ {P : Type 0} where
  -- The model other than `id` that was used least recently, the first of several, with the time
  -- of its last use.
  unfoldable pub lru : String → KeyMap String (LoadedModel P) → Option (String × ℕ)
  lru id [] = none
  lru id ((k, loaded) ∷ m) =
      let rest = lru id m in
      ite (string_key.dec_eq k id) rest (elim rest [
        | none ↦ some (k, loaded.last_used)
        | some (j, t) ↦ if leb loaded.last_used t then some (k, loaded.last_used) else some (j, t)
      ])

  -- The models that have been idle for longer than `timeout`.
  unfoldable pub idle_models : ℕ → ℕ → KeyMap String (LoadedModel P) → List String
  idle_models timeout now [] = []
  idle_models timeout now ((k, loaded) ∷ m) =
      let rest = idle_models timeout now m in
      if ltb timeout (now - loaded.last_used) then k ∷ rest else rest

module _ {P F : Type 0} where
  unfoldable pub new : ℕ → Option ℕ → EngineManager P F
  new max idle = record {
    max_loaded_models = max;
    idle_timeout = idle;
    factories = [];
    pools = [];
    load_locks = [];
    loading = [];
  }

  -- The load lock of a model; `fresh` is the number of the lock that is made if there is none.
  unfoldable pub load_lock_for : EngineManager P F → String → ℕ → EngineManager P F × ℕ
  load_lock_for m id fresh = elim (lookup id m.load_locks) [
    | some lock ↦ (m, lock)
    | none ↦ (record m { load_locks = insert id fresh m.load_locks }, fresh)
  ]

  unfoldable pub register : EngineManager P F → String → F → EngineManager P F
  register m id factory = record m { factories = insert id factory m.factories }

  -- A model goes with its lock.
  unfoldable pub remove_model : String → EngineManager P F → EngineManager P F
  remove_model id m = record m { pools = remove id m.pools; load_locks = remove id m.load_locks }

  -- The loop of `reserve_slot`, on fuel; and whether it evicted a model.
  unfoldable pub make_room : ℕ → String → ℕ → EngineManager P F → EngineManager P F × Bool
  unfolding lru remove_model
  make_room zero id max m = (m, false)
  make_room (suc n) id max m =
      if ltb (length m.pools + length m.loading) max then (m, false) else elim (lru id m.pools) [
        | none ↦ (m, false)
        | some (k, t) ↦ ((make_room n id max (remove_model k m)).0, true)
      ]

  -- The loop has as many turns as there are pools, at most.
  unfoldable pub reserve_slot : String → ℕ → EngineManager P F → EngineManager P F × Bool
  unfolding make_room
  reserve_slot id max m =
      let (m', evicted) = make_room (length m.pools) id max m in
      (record m' { loading = insert id tt m'.loading }, evicted)

  -- The start of a load, under the model's load lock.
  unfoldable pub load_begin : String → EngineManager P F → EngineManager P F × LoadStart F
  unfolding reserve_slot
  load_begin id m =
      if is_some (lookup id m.pools) then (m, already_loaded) else elim (lookup id m.factories) [
        | none ↦ (m, model_not_found)
        | some factory ↦ ((reserve_slot id m.max_loaded_models m).0, reserved factory)
      ]

  -- The pool is built and warm.
  unfoldable pub load_land : String → P → ℕ → EngineManager P F → EngineManager P F
  load_land id pool now m = record m {
    pools = insert id (record { pool = pool; last_used = now }) m.pools;
  }

  -- The drop of the reservation, after the load has landed or failed.
  unfoldable pub drop_reservation : String → EngineManager P F → EngineManager P F
  drop_reservation id m = record m { loading = remove id m.loading }

  -- A loaded model is marked as used and its pool given out.
  unfoldable pub touch : String → ℕ → EngineManager P F → EngineManager P F × Option P
  touch id now m = elim (lookup id m.pools) [
    | none ↦ (m, none)
    | some loaded ↦ (
      record m { pools = insert id (record { pool = loaded.pool; last_used = now }) m.pools },
      some loaded.pool,
    )
  ]

  -- A load with no other call in between, by a factory whose result is `built`; the Boolean says
  -- whether this call built the pool, `none` that it failed.
  unfoldable pub load_model :
      String → Option P → ℕ → EngineManager P F → EngineManager P F × Option Bool
  unfolding load_begin load_land drop_reservation
  load_model id built now m =
      let (m', start) = load_begin id m in
      elim start [
        | already_loaded ↦ (m', some false)
        | model_not_found ↦ (m', none)
        | reserved factory ↦ elim built [
          | none ↦ (drop_reservation id m', none)
          | some pool ↦ (drop_reservation id (load_land id pool now m'), some true)
        ]
      ]

  -- An acquire up to the pool: its pool, and whether this call loaded it.
  unfoldable pub acquire_traced :
      String → Option P → ℕ → EngineManager P F → EngineManager P F × Option (P × Bool)
  unfolding touch load_model
  acquire_traced id built now m =
      let (fast, hit) = touch id now m in
      elim hit [
        | some pool ↦ (fast, some (pool, false))
        | none ↦
            let (m', cold) = load_model id built now m in
            elim cold [
              | none ↦ (m', none)
              | some cold_load ↦
                  let (m'', found) = touch id now m' in
                  elim found [ none ↦ (m'', none) | some pool ↦ (m'', some (pool, cold_load)) ]
            ]
      ]

  unfoldable pub unload : String → EngineManager P F → EngineManager P F × Bool
  unfolding remove_model
  unload id m = if is_some (lookup id m.pools) then (remove_model id m, true) else (m, false)

  unfoldable pub remove_models : List String → EngineManager P F → EngineManager P F
  unfolding remove_model
  remove_models [] m = m
  remove_models (id ∷ rest) m = remove_models rest (remove_model id m)

  -- One tick of the idle watcher, when no other call comes between its look at the pools and its
  -- removal of the idle ones.
  unfoldable pub idle_tick : ℕ → EngineManager P F → EngineManager P F
  unfolding idle_models remove_models
  idle_tick now m = elim m.idle_timeout [
    | none ↦ m
    | some timeout ↦ remove_models (idle_models timeout now m.pools) m
  ]
