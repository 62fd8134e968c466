-- ===== src/Downloads.antt =====
-- The coordination of model downloads (cortex-stt/src/model/download_manager.rs): slots, queue,
-- cancellation and the progress board (model/progress.rs). The cancel tokens, which a download's
-- task shares with the manager, are a store of their own, and a request holds a reference into
-- it. What the manager hands on unread (url, sha256, sidecar) is a type parameter `P`; of a
-- progress snapshot the two floats for display (speed, remaining seconds) are left out.
pub mod Manager
pub mod Task
pub mod Tokens
pub mod Waiting
pub mod Queue
pub mod Slots
pub mod Barrier
pub mod Cancel
mod Tests
use app_cortex_stt.Common.{
  ℕ, ◌+◌, Bool, true, false, not, ◌||◌, List, [], ◌∷◌, ◌++◌, Option, none, some, Text, KeyMap,
  lookup, insert, remove, length, any, ltb, if◌then◌else◌, is_some, ite, text_key, nat_key,
}
use app_cortex_stt.Variants.{VariantKey, as_key, variant_dec}

pub data TokenState : Type 0 where
  running cancelled committed : TokenState

-- `CancelToken::cancel`: a compare-exchange from running, which also succeeds if a cancel came
-- before.
unfoldable pub token_cancel : TokenState → TokenState × Bool
token_cancel running = (cancelled, true)
token_cancel cancelled = (cancelled, true)
token_cancel committed = (committed, false)

unfoldable pub token_commit : TokenState → TokenState × Bool
token_commit running = (committed, true)
token_commit cancelled = (cancelled, false)
token_commit committed = (committed, false)

unfoldable pub token_is_cancelled : TokenState → Bool
token_is_cancelled running = false
token_is_cancelled cancelled = true
token_is_cancelled committed = false

pub data DownloadPhase : Type 0 where
  queued downloading verifying completed failed : DownloadPhase

unfoldable pub is_terminal : DownloadPhase → Bool
is_terminal completed = true
is_terminal failed = true
is_terminal queued = false
is_terminal downloading = false
is_terminal verifying = false

pub record DownloadProgress : Type 0 where
  pub model_id : Text
  pub quant : Text
  pub status : DownloadPhase
  pub downloaded_bytes : ℕ
  pub total_bytes : ℕ
  pub error : Option Text

abbrev pub progress_key : DownloadProgress → VariantKey
progress_key p = record { model = p.model_id; quant = some p.quant }

pub record Request (P : Type 0) : Type 0 where
  pub variant : VariantKey
  pub dest_path : Text
  pub cancel_flag : ℕ
  pub payload : P

pub record ActiveDownload : Type 0 where
  pub cancel_flag : ℕ
  pub dest_path : Text

abbrev pub from_request : {P : Type 0} → Request P → ActiveDownload
from_request r = record { cancel_flag = r.cancel_flag; dest_path = r.dest_path }

-- What one lock guards.
pub record DownloadQueue (P : Type 0) : Type 0 where
  pub pending : List (Request P)
  pub active : KeyMap Text ActiveDownload

abbrev pub max_concurrent_downloads : ℕ
max_concurrent_downloads = 3

pub data ClaimOutcome (P : Type 0) : Type 0 where
  claimed : Request P → ClaimOutcome P
  parked : ClaimOutcome P
  already_active : ClaimOutcome P

module _ {P : Type 0} where
  unfoldable pub contains : DownloadQueue P → VariantKey → Bool
  contains q v =
      is_some (lookup (as_key v) q.active)
      || any (λ r. ite (variant_dec r.variant v) true false) q.pending

  -- Promotes the next queued request.
  unfoldable pub claim_next : DownloadQueue P → DownloadQueue P × Option (Request P)
  claim_next q = elim q.pending [
    | [] ↦ (q, none)
    | r ∷ rest ↦ (
      record { pending = rest; active = insert (as_key r.variant) (from_request r) q.active },
      some r,
    )
  ]

  -- The critical section of `try_claim_slot`.
  unfoldable pub claim : DownloadQueue P → Request P → DownloadQueue P × ClaimOutcome P
  unfolding contains
  claim q r =
      if contains q r.variant
      then (q, already_active)
      else if ltb (length q.active) max_concurrent_downloads
      then (record q { active = insert (as_key r.variant) (from_request r) q.active }, claimed r)
      else (record q { pending = q.pending ++ r ∷ [] }, parked)

  -- Releases the slot of a Variant, if it has one, and promotes the next request.
  unfoldable pub finish : DownloadQueue P → VariantKey → DownloadQueue P × Option (Request P)
  unfolding claim_next
  finish q v = elim (lookup (as_key v) q.active) [
    | none ↦ (q, none)
    | some a ↦ claim_next (record q { active = remove (as_key v) q.active })
  ]

  -- Takes the first request for a Variant out of the queue, if there is one.
  unfoldable pub drop_pending : VariantKey → List (Request P) → Option (List (Request P))
  drop_pending v [] = none
  drop_pending v (r ∷ rs) =
      let rest = drop_pending v rs in
      ite (variant_dec r.variant v) (some rs)
        (elim rest [ none ↦ none | some left ↦ some (r ∷ left) ])
