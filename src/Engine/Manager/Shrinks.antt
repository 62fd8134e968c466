-- ===== src/Engine/Manager/Shrinks.antt =====
-- Calls that load nothing (engine/manager.rs, `unload`, the idle watcher and the fast path of
-- `acquire_traced`): the map of the pools does not grow.
use app_cortex_stt.Common.{
  ℕ, ◌≡◌, ◌≤◌, refl, ◌∙◌, List, [], ◌∷◌, some, String, lookup, length, is_some, string_key, arith,
  Bool-cases, Option-cases, inl, inr, UniqueKeys, remove-UniqueKeys, insert-UniqueKeys,
  length-remove_le, length-insert_held,
}
use app_cortex_stt.Engine.Manager.{
  LoadedModel, EngineManager, touch, unload, remove_model, remove_models, idle_models, idle_tick,
}

module _ {P F : Type 0} where
  -- What a call that only removes models keeps.
  pub record Shrinks (m m' : EngineManager P F) : Type 0 where
    pub cap : m'.max_loaded_models ≡ m.max_loaded_models
    pub pools : UniqueKeys m.pools → UniqueKeys m'.pools
    pub loading : m'.loading ≡ m.loading
    pub fewer : length m'.pools ≤ length m.pools

  Shrinks-refl : (m : EngineManager P F) → Shrinks m m
  Shrinks-refl m = record { cap = refl; pools = λ u. u; loading = refl; fewer = omega arith }

  remove_model-Shrinks : (id : String) (m : EngineManager P F) → Shrinks m (remove_model id m)
  unfolding remove_model
  remove_model-Shrinks id m = record {
    cap = refl;
    pools = remove-UniqueKeys id m.pools;
    loading = refl;
    fewer = length-remove_le id m.pools;
  }

  pub remove_models-Shrinks :
      (ids : List String) (m : EngineManager P F) → Shrinks m (remove_models ids m)
  unfolding remove_models
  remove_models-Shrinks [] m = Shrinks-refl m
  remove_models-Shrinks (id ∷ rest) m =
      let first = remove_model-Shrinks id m in
      let others = remove_models-Shrinks rest (remove_model id m) in
      record {
        cap = others.cap ∙ first.cap;
        pools = λ u. others.pools (first.pools u);
        loading = others.loading ∙ first.loading;
        fewer = omega (arith, others.fewer, first.fewer);
      }

  pub idle_tick_of_some :
      (now timeout : ℕ) (m : EngineManager P F)
      → m.idle_timeout ≡ some timeout
      → idle_tick now m ≡ remove_models (idle_models timeout now m.pools) m
  unfolding idle_tick
  idle_tick_of_some now timeout m e = ground arith

  pub unload-Shrinks : (id : String) (m : EngineManager P F) → Shrinks m (unload id m).0
  unfolding unload
  unload-Shrinks id m = elim (Bool-cases (is_some (lookup id m.pools))) [
    | inl loaded ↦ rw (loaded, unload) (remove_model-Shrinks id m)
    | inr absent ↦ rw (absent, unload) (Shrinks-refl m)
  ]

  pub touch-Shrinks :
      (id : String) (now : ℕ) (m : EngineManager P F)
      → UniqueKeys m.pools
      → Shrinks m (touch id now m).0
  unfolding touch
  touch-Shrinks id now m u = elim (Option-cases (lookup id m.pools)) [
    | inl absent ↦ rw (absent, touch) (Shrinks-refl m)
    | inr (loaded, e) ↦
        let used : LoadedModel P = record { pool = loaded.pool; last_used = now } in
        rw (e, touch)
          (record {
            cap = refl;
            pools = insert-UniqueKeys id used m.pools;
            loading = refl;
            fewer = omega (arith, length-insert_held id used m.pools u e);
          })
  ]
