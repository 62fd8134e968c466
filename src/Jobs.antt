-- ===== src/Jobs.antt =====
-- The store of asynchronous transcription jobs (cortex-stt/src/job.rs). Times are unbounded
-- numbers of nanoseconds, an argument of each call; what a call does under one write lock is
-- one step, and `sweep` is two: its check under the read lock, and `sweep_locked`. The result
-- of a transcription, which the store never looks into, is a type parameter `R`.
pub mod Wellformed
pub mod Evict
pub mod Sweep
pub mod Capacity
pub mod Lifecycle
mod Tests
use app_cortex_stt.Common.{
  ℕ, ◌+◌, ◌-◌, ◌*◌, Bool, true, false, not, ◌||◌, List, [], ◌∷◌, String, Option, none, some, KeyMap,
  lookup, insert as map_insert, remove as map_remove, retain, length, take, filter, any, sort_by,
  ltb, leb, if◌then◌else◌, is_none, string_key,
}

pub data Status (R : Type 0) : Type 0 where
  processing : Status R
  completed : R → Status R
  failed : String → Status R
  cancelled : Status R

unfoldable pub is_terminal : {R : Type 0} → Status R → Bool
is_terminal processing = false
is_terminal (completed r) = true
is_terminal (failed e) = true
is_terminal cancelled = true

pub data CancelOutcome : Type 0 where
  marked_cancelled already_terminal not_found : CancelOutcome

pub record Job (R : Type 0) : Type 0 where
  pub id : String
  pub model : String
  pub status : Status R
  pub created_at : ℕ
  pub completed_at : Option ℕ

abbrev pub Jobs : Type 0 → Type 0
Jobs R = KeyMap String (Job R)

pub record JobStore (R : Type 0) : Type 0 where
  pub jobs : Jobs R
  pub max_jobs : ℕ
  pub completed_ttl : ℕ

abbrev pub by_creation : String × ℕ → String × ℕ → Bool
by_creation a b = leb a.1 b.1

module _ {R : Type 0} where
  unfoldable pub new : ℕ → ℕ → JobStore R
  new max_jobs completed_ttl = record {
    jobs = [];
    max_jobs = max_jobs;
    completed_ttl = completed_ttl;
  }

  -- Six hundred seconds, in nanoseconds.
  unfoldable pub with_defaults : JobStore R
  unfolding new
  with_defaults = new 100 (600 * 1_000_000_000)

  unfoldable pub len : JobStore R → ℕ
  len s = length s.jobs

  unfoldable pub get : JobStore R → String → Option (Job R)
  get s id = lookup id s.jobs

  abbrev pub has_cancelled : Status R → Bool
  has_cancelled cancelled = true
  has_cancelled processing = false
  has_cancelled (completed r) = false
  has_cancelled (failed e) = false

  unfoldable pub is_cancelled : JobStore R → String → Bool
  unfolding get
  is_cancelled s id = elim (get s id) [ none ↦ false | some j ↦ has_cancelled j.status ]

  -- The job after its end, stamped with the time.
  abbrev pub ended : Status R → ℕ → Job R → Job R
  ended terminal now j = record j { status = terminal; completed_at = some now }

  -- A worker's terminal status: only a job that is still processing takes it.
  unfoldable pub finish : JobStore R → String → Status R → ℕ → JobStore R
  unfolding is_terminal
  finish s id terminal now = elim (lookup id s.jobs) [
    | none ↦ s
    | some j ↦
        if is_terminal j.status
        then s
        else record s { jobs = map_insert id (ended terminal now j) s.jobs }
  ]

  unfoldable pub complete : JobStore R → String → R → ℕ → JobStore R
  unfolding finish
  complete s id result now = finish s id (completed result) now

  unfoldable pub fail : JobStore R → String → String → ℕ → JobStore R
  unfolding finish
  fail s id error now = finish s id (failed error) now

  unfoldable pub cancel : JobStore R → String → ℕ → JobStore R × CancelOutcome
  unfolding is_terminal
  cancel s id now = elim (lookup id s.jobs) [
    | none ↦ (s, not_found)
    | some j ↦
        if is_terminal j.status
        then (record s { jobs = map_remove id s.jobs }, already_terminal)
        else (record s { jobs = map_insert id (ended cancelled now j) s.jobs }, marked_cancelled)
  ]

  unfoldable pub remove : JobStore R → String → JobStore R × Bool
  remove s id = (record s { jobs = map_remove id s.jobs }, not (is_none (lookup id s.jobs)))

  -- The terminal jobs with their creation times, in the map's order.
  unfoldable pub terminal_ids : Jobs R → List (String × ℕ)
  unfolding is_terminal
  terminal_ids [] = []
  terminal_ids ((id, j) ∷ m) =
      let rest = terminal_ids m in if is_terminal j.status then (id, j.created_at) ∷ rest else rest

  unfoldable pub evict : List (String × ℕ) → Jobs R → Jobs R
  evict [] m = m
  evict ((id, ts) ∷ ids) m = evict ids (map_remove id m)

  -- The terminal jobs that the capacity pass drops: the oldest of them, as many as are in excess.
  unfoldable pub oldest : ℕ → Jobs R → List (String × ℕ)
  unfolding terminal_ids
  oldest target m = take (length m - target) (sort_by by_creation (terminal_ids m))

  unfoldable pub capacity_pass : ℕ → Jobs R → Jobs R
  unfolding oldest evict
  capacity_pass target m = if ltb target (length m) then evict (oldest target m) m else m

-- `from_std` is chrono's conversion of a `Duration`, which fails on one that is too long.
module _ (from_std : ℕ → Option ℕ) where
  unfoldable pub ttl_span : ℕ → ℕ
  ttl_span ttl = elim (from_std ttl) [ none ↦ 0 | some d ↦ d ]

  module _ {R : Type 0} where
    -- `ts > now - ttl`, without the subtraction.
    unfoldable pub is_fresh : ℕ → ℕ → String → Job R → Bool
    unfolding is_terminal ttl_span
    is_fresh ttl now id j =
        not (is_terminal j.status)
        || elim j.completed_at [ none ↦ true | some ts ↦ ltb now (ts + ttl_span ttl) ]

    unfoldable pub sweep_locked : Jobs R → ℕ → ℕ → ℕ → Jobs R
    unfolding is_fresh capacity_pass
    sweep_locked m target ttl now = capacity_pass target (retain (is_fresh ttl now) m)

    -- The jobs before an insertion: swept, if the store is full, to leave room for one more.
    unfoldable pub make_room : JobStore R → ℕ → Jobs R
    unfolding sweep_locked
    make_room s now =
        if leb s.max_jobs (length s.jobs)
        then sweep_locked s.jobs (s.max_jobs - 1) s.completed_ttl now
        else s.jobs

    unfoldable pub insert : JobStore R → Job R → ℕ → JobStore R
    unfolding make_room
    insert s j now = record s { jobs = map_insert j.id j (make_room s now) }

    -- Whether a job is terminal and past its time to live.
    unfoldable pub is_expired : ℕ → ℕ → Job R → Bool
    unfolding is_terminal ttl_span
    is_expired ttl now j =
        if is_terminal j.status
        then elim j.completed_at [ none ↦ false | some ts ↦ leb (ts + ttl_span ttl) now ]
        else false

    -- The check of `sweep`, under the read lock.
    unfoldable pub needs_work : JobStore R → ℕ → Bool
    unfolding is_expired
    needs_work s now =
        ltb s.max_jobs (length s.jobs) || any (λ e. is_expired s.completed_ttl now e.1) s.jobs

    -- `sweep` with the times of its check and of its write, when nothing comes in between.
    unfoldable pub sweep : JobStore R → ℕ → ℕ → JobStore R
    unfolding needs_work sweep_locked
    sweep s checked now =
        if needs_work s checked
        then record s { jobs = sweep_locked s.jobs s.max_jobs s.completed_ttl now }
        else s

-- The calls that write: each is one critical section. `sweeps` is the write half of `sweep`,
-- which other calls may separate from its check.
pub data Call (R : Type 0) : Type 0 where
  inserts : Job R → Call R
  completes : String → R → Call R
  fails : String → String → Call R
  cancels : String → Call R
  removes : String → Call R
  sweeps : Call R

module _ {R : Type 0} where
  abbrev pub IsCall : (String → Job R → Type 0) → Call R → Type 0
  IsCall P (inserts j) = P j.id j
  IsCall P (completes id r) = Unit
  IsCall P (fails id e) = Unit
  IsCall P (cancels id) = Unit
  IsCall P (removes id) = Unit
  IsCall P sweeps = Unit

  abbrev pub AllCalls : (Call R → Type 0) → List (ℕ × Call R) → Type 0
  AllCalls P [] = Unit
  AllCalls P ((now, c) ∷ cs) = P c × AllCalls P cs

  module _ (from_std : ℕ → Option ℕ) where
    unfoldable pub step : JobStore R → ℕ × Call R → JobStore R
    unfolding insert complete fail cancel remove sweep_locked
    step s (now, inserts j) = insert from_std s j now
    step s (now, completes id r) = complete s id r now
    step s (now, fails id e) = fail s id e now
    step s (now, cancels id) = (cancel s id now).0
    step s (now, removes id) = (remove s id).0
    step s (now, sweeps) = record s {
      jobs = sweep_locked from_std s.jobs s.max_jobs s.completed_ttl now;
    }

    unfoldable pub run : JobStore R → List (ℕ × Call R) → JobStore R
    run s [] = s
    run s (c ∷ cs) = run (step s c) cs
