-- ===== src/Engine/Pool.antt =====
-- A pool of engine instances (cortex-stt/src/engine/pool.rs). The semaphore is its number of free
-- permits. Taking a permit and taking an index are two steps, as are giving back the index and
-- giving back the permit, so that other callers may come in between. `E` is the type of an
-- engine, whose calls change it, succeed, fail or panic.
pub mod Exclusive
pub mod Panics
mod Tests
use app_cortex_stt.Common.{
  ℕ, zero, suc, ◌+◌, ◌-◌, List, [], ◌∷◌, ◌++◌, Option, none, some, Text, length, Bool, true, false,
  if◌then◌else◌, ◌==◌,
}

pub record ModelPool (E : Type 0) : Type 0 where
  pub model_id : Text
  pub instances : List (Option E)
  pub free_indices : List ℕ
  pub permits : ℕ

pub data AsrError : Type 0 where
  pool_acquire_timeout : AsrError
  model_not_loaded : AsrError
  engine_panic : AsrError
  engine_error : AsrError

-- What a call of an engine comes to.
pub data Call (R : Type 0) : Type 0 where
  returned : R → Call R
  failed : AsrError → Call R
  panicked : Call R

pub data Result (R : Type 0) : Type 0 where
  ok : R → Result R
  err : AsrError → Result R

pub data Acquired : Type 0 where
  guard : ℕ → Acquired
  timed_out : Acquired
  empty_free_list : Acquired

-- The numbers from `start` on, `n` of them.
unfoldable pub range : ℕ → ℕ → List ℕ
range start zero = []
range start (suc n) = start ∷ range (suc start) n

unfoldable pub get_elem? : {A : Type 0} → List A → ℕ → Option A
get_elem? [] i = none
get_elem? (x ∷ xs) zero = some x
get_elem? (x ∷ xs) (suc i) = get_elem? xs i

unfoldable pub set_elem : {A : Type 0} → ℕ → A → List A → List A
set_elem i y [] = []
set_elem zero y (x ∷ xs) = y ∷ xs
set_elem (suc i) y (x ∷ xs) = x ∷ set_elem i y xs

module _ {E : Type 0} where
  -- The instances of `n` calls of the factory, of which the first is call `k`; the first failure
  -- ends it.
  unfoldable pub build : (ℕ → Option E) → ℕ → ℕ → Option (List (Option E))
  build factory k zero = some []
  build factory k (suc n) =
      let rest = build factory (suc k) n in
      elim (factory k) [
        | none ↦ none
        | some engine ↦ elim rest [ none ↦ none | some engines ↦ some (some engine ∷ engines) ]
      ]

  unfoldable pub new : (ℕ → Option E) → ℕ → Text → Option (ModelPool E)
  unfolding build range
  new factory size model_id = elim (build factory 0 size) [
    | none ↦ none
    | some engines ↦ some (record {
      model_id = model_id;
      instances = engines;
      free_indices = range 0 size;
      permits = size;
    })
  ]

  -- A permit, if there is one: the caller waits, or gives up, while there is none.
  unfoldable pub take_permit : ModelPool E → Option (ModelPool E)
  take_permit p = elim p.permits [ zero ↦ none | suc n ↦ some (record p { permits = n }) ]

  -- The first free index; `none` stands for the panic on an empty list.
  unfoldable pub take_index : ModelPool E → Option (ℕ × ModelPool E)
  take_index p = elim p.free_indices [
    | [] ↦ none
    | i ∷ rest ↦ some (i, record p { free_indices = rest })
  ]

  -- `acquire`, when no other caller comes in between and no permit comes free before the timeout.
  unfoldable pub acquire : ModelPool E → ModelPool E × Acquired
  unfolding take_permit take_index
  acquire p = elim (take_permit p) [
    | none ↦ (p, timed_out)
    | some p' ↦ elim (take_index p') [
      | none ↦ (p', empty_free_list)
      | some (i, p'') ↦ (p'', guard i)
    ]
  ]

  -- The drop of a guard: its index first, then the permit, as the fields are ordered.
  unfoldable pub return_index : ℕ → ModelPool E → ModelPool E
  return_index i p = record p { free_indices = p.free_indices ++ i ∷ [] }

  unfoldable pub return_permit : ModelPool E → ModelPool E
  return_permit p = record p { permits = suc p.permits }

  -- A call on the instance of a guard. `rebuilt` is what the factory gives if the call panics.
  unfoldable pub with_engine :
      {R : Type 0} → ModelPool E → ℕ → (E → E × Call R) → Option E → ModelPool E × Result R
  unfolding get_elem? set_elem
  with_engine p i f rebuilt = elim (get_elem? p.instances i) [
    | none ↦ (p, err model_not_loaded)
    | some none ↦ (p, err model_not_loaded)
    | some (some engine) ↦
        let (engine', call) = f engine in
        elim call [
          | returned r ↦ (record p { instances = set_elem i (some engine') p.instances }, ok r)
          | failed e ↦ (record p { instances = set_elem i (some engine') p.instances }, err e)
          | panicked ↦ (record p { instances = set_elem i rebuilt p.instances }, err engine_panic)
        ]
  ]

-- A pool and its callers: `taking` have a permit and no index yet, `held` are the indices of the
-- guards, `returning` have given back their index and not yet their permit.
pub record Shared (E : Type 0) : Type 0 where
  pub pool : ModelPool E
  pub taking : ℕ
  pub held : List ℕ
  pub returning : ℕ

pub data Step : Type 0 where
  takes_permit : Step
  takes_index : Step
  drops : ℕ → Step
  frees_permit : Step

unfoldable pub remove_first : ℕ → List ℕ → Option (List ℕ)
remove_first i [] = none
remove_first i (j ∷ js) =
    let rest = remove_first i js in
    if j == i then some js else elim rest [ none ↦ none | some left ↦ some (j ∷ left) ]

module _ {E : Type 0} where
  -- One step of some caller; a step that no caller can take changes nothing, and `none` stands
  -- for the panic of `take_index`.
  unfoldable pub step : Shared E → Step → Option (Shared E)
  unfolding take_permit take_index return_index return_permit remove_first
  step s takes_permit = elim (take_permit s.pool) [
    | none ↦ some s
    | some p ↦ some (record s { pool = p; taking = suc s.taking })
  ]
  step s takes_index = elim s.taking [
    | zero ↦ some s
    | suc n ↦ elim (take_index s.pool) [
      | none ↦ none
      | some (i, p) ↦ some (record s { pool = p; taking = n; held = i ∷ s.held })
    ]
  ]
  step s (drops i) = elim (remove_first i s.held) [
    | none ↦ some s
    | some left ↦
        some (record s { pool = return_index i s.pool; held = left; returning = suc s.returning })
  ]
  step s frees_permit = elim s.returning [
    | zero ↦ some s
    | suc n ↦ some (record s { pool = return_permit s.pool; returning = n })
  ]

  unfoldable pub run : Shared E → List Step → Option (Shared E)
  run s [] = some s
  run s (x ∷ rest) = elim (step s x) [ none ↦ none | some s' ↦ run s' rest ]

  abbrev pub idle : ModelPool E → Shared E
  idle p = record { pool = p; taking = 0; held = []; returning = 0 }
