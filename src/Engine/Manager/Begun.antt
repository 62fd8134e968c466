-- ===== src/Engine/Manager/Begun.antt =====
-- What the start of a load does to the counts of the manager (engine/manager.rs, `reserve_slot`).
use app_cortex_stt.Common.{
  ℕ, suc, ◌+◌, ◌≡◌, ◌≢◌, ◌≤◌, ◌<◌, refl, ap, ◌∙◌, List, none, String, KeyMap, lookup, insert,
  remove, length, string_key, arith, Option-cases, inl, inr, UniqueKeys, length-remove,
  length-insert_new, length-insert_held, length_of_absent, remove_absent, length-append, ◌++◌, ◌∷◌,
}
use app_cortex_stt.Engine.Manager.{EngineManager, reserved, load_begin, reserve_slot}
use app_cortex_stt.Engine.Manager.Reserve.{reserve_slot-Made, reserve_slot-room}
use app_cortex_stt.Engine.Manager.Flight.{repeats}

pub length-without :
    (xs before after : List String) (id : String)
    → xs ≡ before ++ id ∷ after
    → length xs ≡ suc (length (before ++ after))
length-without xs before after id e =
    omega (arith, ap length e, length-append before (id ∷ after), length-append before after)

pub length-le_remove :
    (id : String) (m : KeyMap String (Unit {0}))
    → UniqueKeys m
    → length m ≤ suc (length (remove id m))
length-le_remove id m u = elim (Option-cases (lookup id m)) [
  | inl absent ↦ omega (arith, ap length (remove_absent id m absent))
  | inr (v, e) ↦ omega (arith, length-remove id m {v = v} u e)
]

pub insert_and_repeats :
    (id : String) (m : KeyMap String (Unit {0}))
    → UniqueKeys m
    → length (insert id tt m) + repeats id m ≡ suc (length m)
insert_and_repeats id m u = elim (Option-cases (lookup id m)) [
  | inl absent ↦ rw absent (omega (arith, length-insert_new id tt m absent))
  | inr (v, e) ↦ rw e (omega (arith, length-insert_held id tt m {w = v} u e))
]

module _ {P F : Type 0} where
  -- A load that begins has reserved its slot.
  pub load_begin-reserved :
      (id : String) (m : EngineManager P F) (factory : F)
      → (load_begin id m).1 ≡ reserved factory
      → (lookup id m.pools ≡ none)
        × ((load_begin id m).0 ≡ (reserve_slot id m.max_loaded_models m).0)
  unfolding load_begin
  load_begin-reserved id m factory h = elim (Option-cases (lookup id m.pools)) [
    | inr (loaded, e) ↦ ground arith
    | inl absent ↦ elim (Option-cases (lookup id m.factories)) [
      | inl unknown ↦ ground arith
      | inr (f, e) ↦ (absent, rw (absent, e, load_begin) refl)
    ]
  ]

  pub reserve_slot-loading :
      (id : String) (max : ℕ) (m : EngineManager P F)
      → UniqueKeys m.pools
      → (reserve_slot id max m).0.loading ≡ insert id tt m.loading
  unfolding reserve_slot
  reserve_slot-loading id max m u = ap (insert id tt) (reserve_slot-Made id max m u).loading

  pub reserve_slot-pools :
      (id : String) (max : ℕ) (m : EngineManager P F)
      → UniqueKeys m.pools
      → UniqueKeys (reserve_slot id max m).0.pools
  unfolding reserve_slot
  reserve_slot-pools id max m u = (reserve_slot-Made id max m u).unique

  pub reserve_slot-bound :
      (id : String) (max width n flying again : ℕ) (m : EngineManager P F)
      → max ≤ n
      → width ≤ n
      → UniqueKeys m.pools
      → flying < width
      → flying ≤ length m.loading + again
      → lookup id m.pools ≡ none
      → length (reserve_slot id max m).0.pools + suc flying ≤ n + again
  unfolding reserve_slot
  reserve_slot-bound id max width n flying again m hm hw u few held absent =
      elim (reserve_slot-room id max m u).0 [
        | inl room ↦ omega (arith, room, hm, held)
        | inr alone ↦
            omega (arith, few, hw, length_of_absent (reserve_slot id max m).0.pools (nothing alone))
      ]
    where
      nothing :
          ((j : String) → j ≢ id → lookup j (reserve_slot id max m).0.pools ≡ none)
          → (j : String) → lookup j (reserve_slot id max m).0.pools ≡ none
      nothing alone j = elim (string_key.dec_eq j id) [
        | yes same ↦
            ap (λ x. lookup x (reserve_slot id max m).0.pools) same
            ∙ (reserve_slot-Made id max m u).own
            ∙ absent
        | no other ↦ alone j other
      ]

  pub reserve_slot-max :
      (id : String) (max : ℕ) (m : EngineManager P F)
      → UniqueKeys m.pools
      → (reserve_slot id max m).0.max_loaded_models ≡ m.max_loaded_models
  unfolding reserve_slot
  reserve_slot-max id max m u = (reserve_slot-Made id max m u).cap
