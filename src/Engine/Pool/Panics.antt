-- ===== src/Engine/Pool/Panics.antt =====
-- Panics of an engine and the rebuilding of its instance (engine/pool.rs, `with_engine`).
use app_cortex_stt.Common.{
  ℕ, zero, suc, ◌≡◌, ◌≢◌, refl, ap, ◌∙◌, List, [], ◌∷◌, Option, none, some, length,
}
use app_cortex_stt.Engine.Pool.{
  ModelPool, get_elem?, set_elem, with_engine, Call, Result, ok, err, model_not_loaded,
  engine_panic, returned, failed, panicked,
}

module _ {A : Type 0} where
  get_elem-set_self :
      (xs : List A) (i : ℕ) (y : A) {x : A}
      → get_elem? xs i ≡ some x
      → get_elem? (set_elem i y xs) i ≡ some y
  unfolding get_elem? set_elem
  get_elem-set_self [] i y h = cc
  get_elem-set_self (x ∷ xs) zero y h = refl
  get_elem-set_self (x ∷ xs) (suc i) y h = get_elem-set_self xs i y h

  get_elem-set_ne :
      (xs : List A) (i j : ℕ) (y : A) → i ≢ j → get_elem? (set_elem i y xs) j ≡ get_elem? xs j
  unfolding get_elem? set_elem
  get_elem-set_ne [] i j y d = refl
  get_elem-set_ne (x ∷ xs) zero zero y d = elim (d refl) [ ]
  get_elem-set_ne (x ∷ xs) zero (suc j) y d = refl
  get_elem-set_ne (x ∷ xs) (suc i) zero y d = refl
  get_elem-set_ne (x ∷ xs) (suc i) (suc j) y d = get_elem-set_ne xs i j y (λ e. d (ap suc e))

  length-set_elem : (xs : List A) (i : ℕ) (y : A) → length (set_elem i y xs) ≡ length xs
  unfolding set_elem
  length-set_elem [] i y = refl
  length-set_elem (x ∷ xs) zero y = refl
  length-set_elem (x ∷ xs) (suc i) y = ap suc (length-set_elem xs i y)

module _ {E R : Type 0} where
  -- What a call leaves in an instance, and its result.
  abbrev pub outcome : E × Call R → Option E → Option E × Result R
  outcome (engine, returned r) rebuilt = (some engine, ok r)
  outcome (engine, failed e) rebuilt = (some engine, err e)
  outcome (engine, panicked) rebuilt = (rebuilt, err engine_panic)

  with_engine_of_held :
      (p : ModelPool E) (i : ℕ) (f : E → E × Call R) (rebuilt : Option E) (engine : E)
      → get_elem? p.instances i ≡ some (some engine)
      → with_engine p i f rebuilt ≡ (
        record p { instances = set_elem i (outcome (f engine) rebuilt).0 p.instances },
        (outcome (f engine) rebuilt).1,
      )
  unfolding with_engine
  with_engine_of_held p i f rebuilt engine held = by_call (f engine).1 refl
    where
      by_call :
          (c : Call R)
          → (f engine).1 ≡ c
          → with_engine p i f rebuilt ≡ (
            record p { instances = set_elem i (outcome (f engine) rebuilt).0 p.instances },
            (outcome (f engine) rebuilt).1,
          )
      by_call (returned r) e = rw (held, e, with_engine) refl
      by_call (failed r) e = rw (held, e, with_engine) refl
      by_call panicked e = rw (held, e, with_engine) refl

  with_engine_of_none :
      (p : ModelPool E) (i : ℕ) (f : E → E × Call R) (rebuilt : Option E)
      → get_elem? p.instances i ≡ some none
      → with_engine p i f rebuilt ≡ (p, err model_not_loaded)
  unfolding with_engine
  with_engine_of_none p i f rebuilt lost = rw (lost, with_engine) refl

  -- A call of the engine of a guard, on every branch: the instance is as the call leaves it or,
  -- after a panic, as the factory rebuilt it; no other instance changes; the free list and the
  -- permits stay.
  pub with_engine-outcome :
      (p : ModelPool E) (i : ℕ) (f : E → E × Call R) (rebuilt : Option E) (engine : E)
      → get_elem? p.instances i ≡ some (some engine)
      → ((with_engine p i f rebuilt).1 ≡ (outcome (f engine) rebuilt).1)
        × (get_elem? (with_engine p i f rebuilt).0.instances i
            ≡ some (outcome (f engine) rebuilt).0)
        × ((j : ℕ)
            → i ≢ j
            → get_elem? (with_engine p i f rebuilt).0.instances j ≡ get_elem? p.instances j)
        × ((with_engine p i f rebuilt).0.free_indices ≡ p.free_indices)
        × ((with_engine p i f rebuilt).0.permits ≡ p.permits)
  with_engine-outcome p i f rebuilt engine held =
      rw (with_engine_of_held p i f rebuilt engine held) (
        (
          refl,
          get_elem-set_self p.instances i (outcome (f engine) rebuilt).0 held,
          (λ j. get_elem-set_ne p.instances i j (outcome (f engine) rebuilt).0),
          refl,
          refl,
        ))

  -- An instance that a panic left without an engine stays lost: whatever the factory would give
  -- now, every later call on it fails as not loaded and changes nothing.
  pub with_engine_of_lost :
      (p : ModelPool E) (i : ℕ) (f g : E → E × Call R) (engine : E) (rebuilt : Option E)
      → get_elem? p.instances i ≡ some (some engine)
      → (f engine).1 ≡ panicked
      → with_engine (with_engine p i f none).0 i g rebuilt
        ≡ ((with_engine p i f none).0, err model_not_loaded)
  with_engine_of_lost p i f g engine rebuilt held crash =
      with_engine_of_none (with_engine p i f none).0 i g rebuilt (
        (with_engine-outcome p i f none engine held).1
        ∙ ap some (outcome_of_panicked (f engine) crash))
    where
      outcome_of_panicked : (x : E × Call R) → x.1 ≡ panicked → (outcome x none).0 ≡ none
      outcome_of_panicked (engine', returned r) e = cc
      outcome_of_panicked (engine', failed r) e = cc
      outcome_of_panicked (engine', panicked) e = refl
