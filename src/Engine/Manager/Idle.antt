-- ===== src/Engine/Manager/Idle.antt =====
-- The idle watcher (engine/manager.rs, `spawn_idle_watcher`): what a tick unloads.
use app_cortex_stt.Common.{
  ℕ, ◌-◌, ◌≡◌, refl, ap, ◌∙◌, subst, Bool, true, false, List, [], ◌∷◌, none, some, String, KeyMap,
  lookup, remove, if◌then◌else◌, ltb, string_key, arith, UniqueKeys, any, lookup-remove_self,
  lookup-remove_ne, ite,
}
use app_cortex_stt.Engine.Manager.{
  LoadedModel, EngineManager, remove_model, remove_models, idle_models, idle_tick,
}
use app_cortex_stt.Engine.Manager.Shrinks.{idle_tick_of_some}

abbrev among : String → List String → Bool
among id ids = any (λ k. ite (string_key.dec_eq k id) true false) ids

module _ {P : Type 0} where
  among-idle_models-none :
      (timeout now : ℕ) (m : KeyMap String (LoadedModel P)) (id : String)
      → lookup id m ≡ none
      → among id (idle_models timeout now m) ≡ false
  unfolding idle_models lookup
  among-idle_models-none timeout now [] id h = refl
  among-idle_models-none timeout now ((k, v) ∷ m) id h =
      ground (arith, among-idle_models-none timeout now m id)

  among-idle_models :
      (timeout now : ℕ) (m : KeyMap String (LoadedModel P)) (id : String) (v : LoadedModel P)
      → UniqueKeys m
      → lookup id m ≡ some v
      → among id (idle_models timeout now m) ≡ ltb timeout (now - v.last_used)
  unfolding idle_models lookup
  among-idle_models timeout now [] id v u h = cc
  among-idle_models timeout now ((k, w) ∷ m) id v u h = elim (string_key.dec_eq k id) [
    | yes same ↦
        ground
          (arith, among-idle_models-none timeout now m id (subst (λ x. lookup x m ≡ none) same u.0))
    | no other ↦ ground (arith, among-idle_models timeout now m id v u.1)
  ]

module _ {P F : Type 0} where
  lookup-remove_models :
      (ids : List String) (m : EngineManager P F) (id : String)
      → lookup id (remove_models ids m).pools ≡ (if among id ids then none else lookup id m.pools)
  unfolding remove_models remove_model
  lookup-remove_models [] m id = refl
  lookup-remove_models (k ∷ rest) m id = elim (string_key.dec_eq k id) [
    | yes same ↦ ground (
      arith,
      lookup-remove_models rest (remove_model k m) id,
      subst (λ x. lookup x (remove k m.pools) ≡ none) same (lookup-remove_self k m.pools),
    )
    | no other ↦ ground (
      arith,
      lookup-remove_models rest (remove_model k m) id,
      lookup-remove_ne k id m.pools other,
    )
  ]

  -- A tick unloads the models that have been idle for longer than the timeout, and no others; the
  -- others are unchanged. The map of the pools has no key twice.
  pub lookup-idle_tick :
      (now timeout : ℕ) (m : EngineManager P F) (id : String) (v : LoadedModel P)
      → UniqueKeys m.pools
      → m.idle_timeout ≡ some timeout
      → lookup id m.pools ≡ some v
      → lookup id (idle_tick now m).pools
        ≡ (if ltb timeout (now - v.last_used) then none else some v)
  lookup-idle_tick now timeout m id v u e held =
      ap (λ x. lookup id x.pools) (idle_tick_of_some now timeout m e)
      ∙ lookup-remove_models (idle_models timeout now m.pools) m id
      ∙ ap (λ b. if b then none else lookup id m.pools)
          (among-idle_models timeout now m.pools id v u held)
      ∙ ap (λ o. if ltb timeout (now - v.last_used) then none else o) held
