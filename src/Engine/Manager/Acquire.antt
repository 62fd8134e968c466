-- ===== src/Engine/Manager/Acquire.antt =====
-- Acquiring a model's pool (engine/manager.rs, `acquire_traced` and `load_model`).
use app_cortex_stt.Common.{
  is_some, Option-cases, inl, inr, ◌⊎◌, sym, subst, ℕ, ◌≡◌, refl, ap, ◌∙◌, Bool, true, false,
  Option, none, some, String, lookup, insert, string_key, lookup-insert_self, lookup-remove_self,
}
use app_cortex_stt.Engine.Manager.{
  LoadedModel, EngineManager, LoadStart, already_loaded, model_not_found, reserved, load_begin,
  load_land, drop_reservation, touch, load_model, acquire_traced, reserve_slot,
}

module _ {P F : Type 0} where
  touch_of_none :
      (id : String) (now : ℕ) (m : EngineManager P F)
      → lookup id m.pools ≡ none
      → touch id now m ≡ (m, none)
  unfolding touch
  touch_of_none id now m absent = rw (absent, touch) refl

  touch_of_some :
      (id : String) (now : ℕ) (m : EngineManager P F) (loaded : LoadedModel P)
      → lookup id m.pools ≡ some loaded
      → touch id now m ≡ (
        record m { pools = insert id (record { pool = loaded.pool; last_used = now }) m.pools },
        some loaded.pool,
      )
  unfolding touch
  touch_of_some id now m loaded held = rw (held, touch) refl

  load_begin_of_factory :
      (id : String) (m : EngineManager P F) (factory : F)
      → lookup id m.pools ≡ none
      → lookup id m.factories ≡ some factory
      → load_begin id m ≡ ((reserve_slot id m.max_loaded_models m).0, reserved factory)
  unfolding load_begin
  load_begin_of_factory id m factory absent known = rw (absent, known, load_begin) refl

  -- The manager after a cold load of `id`.
  abbrev pub loaded_cold : String → P → ℕ → EngineManager P F → EngineManager P F
  loaded_cold id pool now m =
      drop_reservation id (load_land id pool now (reserve_slot id m.max_loaded_models m).0)

  -- A load after its start.
  abbrev after_begin :
      String → Option P → ℕ → EngineManager P F × LoadStart F → EngineManager P F × Option Bool
  after_begin id built now (m', start) = elim start [
    | already_loaded ↦ (m', some false)
    | model_not_found ↦ (m', none)
    | reserved factory ↦ elim built [
      | none ↦ (drop_reservation id m', none)
      | some pool ↦ (drop_reservation id (load_land id pool now m'), some true)
    ]
  ]

  load_model_of_factory :
      (id : String) (m : EngineManager P F) (factory : F) (pool : P) (now : ℕ)
      → lookup id m.pools ≡ none
      → lookup id m.factories ≡ some factory
      → load_model id (some pool) now m ≡ (loaded_cold id pool now m, some true)
  unfolding load_model
  load_model_of_factory id m factory pool now absent known =
      ap (after_begin id (some pool) now) (load_begin_of_factory id m factory absent known)

  -- An acquire after its second look at the pools, after its load, and after its first look.
  abbrev after_touch : Bool → EngineManager P F × Option P → EngineManager P F × Option (P × Bool)
  after_touch cold_load (m, found) = elim found [
    | none ↦ (m, none)
    | some pool ↦ (m, some (pool, cold_load))
  ]

  abbrev after_load :
      String → ℕ → EngineManager P F × Option Bool → EngineManager P F × Option (P × Bool)
  after_load id now (m, cold) = elim cold [
    | none ↦ (m, none)
    | some cold_load ↦ after_touch cold_load (touch id now m)
  ]

  abbrev after_miss :
      String
      → Option P
      → ℕ
      → EngineManager P F
      → EngineManager P F × Option P
      → EngineManager P F × Option (P × Bool)
  after_miss id built now m (fast, hit) = elim hit [
    | some pool ↦ (fast, some (pool, false))
    | none ↦ after_load id now (load_model id built now m)
  ]

  acquire_traced_of_load :
      (id : String) (m m' : EngineManager P F) (loaded : LoadedModel P) (built : Option P) (now : ℕ)
      → lookup id m.pools ≡ none
      → load_model id built now m ≡ (m', some true)
      → lookup id m'.pools ≡ some loaded
      → acquire_traced id built now m ≡ (
        record m' { pools = insert id (record { pool = loaded.pool; last_used = now }) m'.pools },
        some (loaded.pool, true),
      )
  unfolding acquire_traced
  acquire_traced_of_load id m m' loaded built now absent e held =
      ap (after_miss id built now m) (touch_of_none id now m absent)
      ∙ ap (after_load id now) e
      ∙ ap (after_touch true) (touch_of_some id now m' loaded held)

  acquire_traced-hit :
      (id : String) (m : EngineManager P F) (loaded : LoadedModel P) (built : Option P) (now : ℕ)
      → lookup id m.pools ≡ some loaded
      → acquire_traced id built now m ≡ (
        record m { pools = insert id (record { pool = loaded.pool; last_used = now }) m.pools },
        some (loaded.pool, false),
      )
  unfolding acquire_traced
  acquire_traced-hit id m loaded built now held =
      ap (after_miss id built now m) (touch_of_some id now m loaded held)

  load_begin_unknown :
      (id : String) (m : EngineManager P F)
      → lookup id m.pools ≡ none
      → lookup id m.factories ≡ none
      → load_begin id m ≡ (m, model_not_found)
  unfolding load_begin
  load_begin_unknown id m absent unknown = rw (absent, unknown, load_begin) refl

  load_model_unknown :
      (id : String) (m : EngineManager P F) (built : Option P) (now : ℕ)
      → lookup id m.pools ≡ none
      → lookup id m.factories ≡ none
      → load_model id built now m ≡ (m, none)
  unfolding load_model
  load_model_unknown id m built now absent unknown =
      ap (after_begin id built now) (load_begin_unknown id m absent unknown)

  load_model_failed :
      (id : String) (m : EngineManager P F) (factory : F) (now : ℕ)
      → lookup id m.pools ≡ none
      → lookup id m.factories ≡ some factory
      → load_model id none now m
        ≡ (drop_reservation id (reserve_slot id m.max_loaded_models m).0, none)
  unfolding load_model
  load_model_failed id m factory now absent known =
      ap (after_begin id none now) (load_begin_of_factory id m factory absent known)

  acquire_traced_of_failure :
      (id : String) (m m' : EngineManager P F) (built : Option P) (now : ℕ)
      → lookup id m.pools ≡ none
      → load_model id built now m ≡ (m', none)
      → acquire_traced id built now m ≡ (m', none)
  unfolding acquire_traced
  acquire_traced_of_failure id m m' built now absent e =
      ap (after_miss id built now m) (touch_of_none id now m absent) ∙ ap (after_load id now) e

  -- The model is loaded, was used at `now`, and the next acquire of it gives the same pool and
  -- loads nothing, whatever a load would come to.
  pub record Ready (id : String) (now : ℕ) (pool : P) (m : EngineManager P F) : Type 0 where
    pub held : lookup id m.pools ≡ some (record { pool = pool; last_used = now })
    pub again :
        (built : Option P) (later : ℕ) → (acquire_traced id built later m).1 ≡ some (pool, false)

  -- What an acquire comes to, of a manager `m` and with a factory whose result is `built`.
  abbrev pub IsAcquire :
      String → Option P → ℕ → EngineManager P F → EngineManager P F × Option (P × Bool) → Type 0
  IsAcquire id built now m (m', none) =
      (lookup id m.pools ≡ none)
      × (((lookup id m.factories ≡ none) × (m' ≡ m))
          ⊎ ((built ≡ none) × (lookup id m'.loading ≡ none)))
  IsAcquire id built now m (m', some (pool, true)) =
      (lookup id m.pools ≡ none)
      × (is_some (lookup id m.factories) ≡ true)
      × (built ≡ some pool)
      × (lookup id m'.loading ≡ none)
      × Ready id now pool m'
  IsAcquire id built now m (m', some (pool, false)) =
      (is_some (lookup id m.pools) ≡ true) × Ready id now pool m'

  ready :
      (id : String) (now : ℕ) (pool : P) (m : EngineManager P F)
      → lookup id m.pools ≡ some (record { pool = pool; last_used = now })
      → Ready id now pool m
  ready id now pool m h = record {
    held = h;
    again = λ built later. ap (λ out. out.1) (acquire_traced-hit id m _ built later h);
  }

  -- An acquire, up to the pool and not to one of its engines, with no other call in between, of any
  -- model in any manager. It fails exactly if the model is not loaded and is not registered or
  -- cannot be built, and then leaves no reservation of its own, and the manager as it was where the
  -- model is not registered. It tells of a cold load exactly if the model was not loaded, gives the
  -- pool that was built then, and drops the reservation. And whenever it gives a pool, the model is
  -- loaded and marked as used, and the next acquire gives the same pool and loads nothing.
  pub acquire_traced-IsAcquire :
      (id : String) (built : Option P) (now : ℕ) (m : EngineManager P F)
      → IsAcquire id built now m (acquire_traced id built now m)
  unfolding load_land drop_reservation
  acquire_traced-IsAcquire id built now m = elim (Option-cases (lookup id m.pools)) [
    | inr (loaded, held) ↦
        subst (IsAcquire id built now m) (sym (acquire_traced-hit id m loaded built now held))
          ((ap is_some held, ready id now loaded.pool _ (lookup-insert_self id _ m.pools)))
    | inl absent ↦ elim (Option-cases (lookup id m.factories)) [
      | inl unknown ↦
          subst (IsAcquire id built now m)
            (sym (
              acquire_traced_of_failure id m m built now absent
                (load_model_unknown id m built now absent unknown)))
            ((absent, inl (unknown, refl)))
      | inr (factory, known) ↦ by_build factory known absent built
    ]
  ]
    where
      by_build :
          (factory : F)
          → lookup id m.factories ≡ some factory
          → lookup id m.pools ≡ none
          → (b : Option P) → IsAcquire id b now m (acquire_traced id b now m)
      by_build factory known absent none =
          subst (IsAcquire id none now m)
            (sym (
              acquire_traced_of_failure id m _ none now absent
                (load_model_failed id m factory now absent known)))
            ((
              absent,
              inr (refl, lookup-remove_self id (reserve_slot id m.max_loaded_models m).0.loading),
            ))
      by_build factory known absent (some pool) =
          subst (IsAcquire id (some pool) now m)
            (sym (
              acquire_traced_of_load id m (loaded_cold id pool now m)
                (record { pool = pool; last_used = now }) (some pool) now absent
                (load_model_of_factory id m factory pool now absent known)
                (lookup-insert_self id (record { pool = pool; last_used = now })
                  (reserve_slot id m.max_loaded_models m).0.pools)))
            ((
              absent,
              ap is_some known,
              refl,
              lookup-remove_self id (reserve_slot id m.max_loaded_models m).0.loading,
              ready id now pool _ (
                  lookup-insert_self id (record { pool = pool; last_used = now })
                    (loaded_cold id pool now m).pools),
            ))
