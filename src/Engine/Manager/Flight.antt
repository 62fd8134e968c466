-- ===== src/Engine/Manager/Flight.antt =====
-- The interleavings of the manager's calls (engine/manager.rs), in which several loads are in flight
-- at once.
use app_cortex_stt.Common.{
  ℕ, ◌+◌, ◌≡◌, ◌<◌, List, [], Option, String, KeyMap, lookup, length, string_key, ◌++◌, ◌∷◌,
  is_some, if◌then◌else◌,
}
use app_cortex_stt.Engine.Manager.{
  EngineManager, reserved, new, load_begin, load_land, drop_reservation, touch, unload,
  remove_models, register,
}

-- The models that are being built, and those whose pool is in place and whose reservation is not
-- dropped yet, one entry for each load; and how many loads have begun while a reservation of the
-- same model was held: `remove_model` drops a load lock that loads may hold or wait for, and the
-- next load of it makes a new lock.
pub record InFlight (P F : Type 0) : Type 0 where
  pub manager : EngineManager P F
  pub building : List String
  pub landed : List String
  pub again : ℕ

-- One if a reservation of the model is held.
abbrev pub repeats : String → KeyMap String (Unit {0}) → ℕ
repeats id loading = if is_some (lookup id loading) then 1 else 0

-- The steps, with at most `width` loads in flight, of the same model or not. Each lands and leaves,
-- or fails, once. The idle watcher removes what it found idle a moment before, which may be any
-- models.
pub data Step {P F : Type 0} (width : ℕ) : InFlight P F → InFlight P F → Type 0 where
  begins :
      (s : InFlight P F) (id : String) (factory : F)
      → length s.building + length s.landed < width
      → (load_begin id s.manager).1 ≡ reserved factory
      → Step width s (record {
        manager = (load_begin id s.manager).0;
        building = id ∷ s.building;
        landed = s.landed;
        again = s.again + repeats id s.manager.loading;
      })
  lands :
      (s : InFlight P F) (id : String) (before after : List String) (pool : P) (now : ℕ)
      → s.building ≡ before ++ id ∷ after
      → Step width s (record s {
        manager = load_land id pool now s.manager;
        building = before ++ after;
        landed = id ∷ s.landed;
      })
  leaves :
      (s : InFlight P F) (id : String) (before after : List String)
      → s.landed ≡ before ++ id ∷ after
      → Step width s
          (record s { manager = drop_reservation id s.manager; landed = before ++ after })
  fails :
      (s : InFlight P F) (id : String) (before after : List String)
      → s.building ≡ before ++ id ∷ after
      → Step width s
          (record s { manager = drop_reservation id s.manager; building = before ++ after })
  touches :
      (s : InFlight P F) (id : String) (now : ℕ)
      → Step width s (record s { manager = (touch id now s.manager).0 })
  unloads :
      (s : InFlight P F) (id : String)
      → Step width s (record s { manager = (unload id s.manager).0 })
  removes :
      (s : InFlight P F) (ids : List String)
      → Step width s (record s { manager = remove_models ids s.manager })
  registers :
      (s : InFlight P F) (id : String) (factory : F)
      → Step width s (record s { manager = register s.manager id factory })

pub data Reach {P F : Type 0} (width : ℕ) (s : InFlight P F) : InFlight P F → Type 0 where
  here : Reach width s s
  next : {t u : InFlight P F} → Reach width s t → Step width t u → Reach width s u

module _ {P F : Type 0} where
  abbrev pub start : ℕ → Option ℕ → InFlight P F
  start max idle = record { manager = new max idle; building = []; landed = []; again = 0 }
