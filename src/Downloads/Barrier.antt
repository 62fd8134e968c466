-- ===== src/Downloads/Barrier.antt =====
-- The barrier that an active entry is (download_manager.rs, `cancel` and `try_claim_slot`).
use app_cortex_stt.Common.{
  KeyMap, ◌≡◌, ◌≢◌, refl, ap, ◌∙◌, true, false, List, [], ◌∷◌, some, Text, lookup, text_key, remove,
  lookup-insert_ne, lookup-remove_ne, length, ltb, arith, Bool-cases, Option-cases, inl, inr,
}
use app_cortex_stt.Variants.{VariantKey, as_key}
use app_cortex_stt.Downloads.{
  Request, ActiveDownload, claim, claim_next, finish, contains, already_active, DownloadQueue,
  from_request, max_concurrent_downloads,
}
use app_cortex_stt.Downloads.Manager.{
  Manager, try_claim_slot, Action, claims, begins_cancel, cleans, releases, commits, publishes,
  clears, step, run,
}
use app_cortex_stt.Downloads.Waiting.{Waiting}
use app_cortex_stt.Downloads.Queue.{Inv}
use app_cortex_stt.Downloads.Slots.{
  IsAction, AllActions, step-Inv, try_claim_slot-queue, clear_completed-queue, cancel_begin-queue,
}

module _ {P : Type 0} where
  -- No action frees the slot of the Variant.
  abbrev pub Keeps : VariantKey → List (Action P) → Type 0
  Keeps v [] = Unit
  Keeps v (releases w ∷ rest) = (as_key w ≢ as_key v) × Keeps v rest
  Keeps v (a ∷ rest) = Keeps v rest

  contains_of_active :
      (q : DownloadQueue P) (v : VariantKey) {a : ActiveDownload}
      → lookup (as_key v) q.active ≡ some a
      → contains q v ≡ true
  unfolding contains
  contains_of_active q v h = ground arith

  claim_of_active :
      (q : DownloadQueue P) (r : Request P) {a : ActiveDownload}
      → lookup (as_key r.variant) q.active ≡ some a
      → claim q r ≡ (q, already_active)
  unfolding claim
  claim_of_active q r h = rw (contains_of_active q r.variant h) refl

  claim-lookup :
      (q : DownloadQueue P) (r : Request P) (k : Text) {a : ActiveDownload}
      → lookup k q.active ≡ some a
      → lookup k (claim q r).0.active ≡ some a
  unfolding claim
  claim-lookup q r k {a} h = elim (Bool-cases (contains q r.variant)) [
    | inl known ↦ rw known h
    | inr new ↦ elim (Bool-cases (ltb (length q.active) max_concurrent_downloads)) [
      | inl room ↦
          rw (new, room)
            (lookup-insert_ne (as_key r.variant) k (from_request r) q.active (λ e. diff new e) ∙ h)
      | inr full ↦ rw (new, full) h
    ]
  ]
    where
      diff : contains q r.variant ≡ false → as_key r.variant ≢ k
      diff new e = cc (contains_of_active q r.variant (ap (λ i. lookup i q.active) e ∙ h), new)

  pub claim_next-lookup :
      (q : DownloadQueue P) (k : Text) (m : KeyMap Text ActiveDownload) (rs : List (Request P))
      {a : ActiveDownload}
      → q.pending ≡ rs
      → Waiting m rs
      → lookup k m ≡ some a
      → lookup k (claim_next q).0.active ≡ lookup k q.active
  unfolding claim_next
  claim_next-lookup q k m [] e w h = rw (e, claim_next) refl
  claim_next-lookup q k m (r ∷ rs) e w h =
      rw (e, claim_next)
        (lookup-insert_ne (as_key r.variant) k (from_request r) q.active not_waiting)
    where
      not_waiting : as_key r.variant ≢ k
      not_waiting same = cc (ap (λ i. lookup i m) same, w.0)

  -- A release leaves every other active download as it is.
  finish-lookup :
      (q : DownloadQueue P) (v : VariantKey) (k : Text) {a : ActiveDownload}
      → Inv q
      → as_key v ≢ k
      → lookup k q.active ≡ some a
      → lookup k (finish q v).0.active ≡ some a
  unfolding finish
  finish-lookup q v k i other h = elim (Option-cases (lookup (as_key v) q.active)) [
    | inl absent ↦ rw (absent, finish) h
    | inr (b, held) ↦
        rw (held, finish)
          (claim_next-lookup (record q { active = remove (as_key v) q.active }) k q.active q.pending
              refl i.waiting h
            ∙ lookup-remove_ne (as_key v) k q.active other
            ∙ h)
  ]

  step-lookup :
      (m : Manager P) (x : Action P) (v : VariantKey) {a : ActiveDownload}
      → Inv m.queue
      → Keeps v (x ∷ [])
      → lookup (as_key v) m.queue.active ≡ some a
      → lookup (as_key v) (step m x).queue.active ≡ some a
  unfolding step
  step-lookup m (claims r) v i keeps h =
      ap (λ q. lookup (as_key v) q.active) (try_claim_slot-queue m r)
      ∙ claim-lookup m.queue r (as_key v) h
  step-lookup m (begins_cancel w) v i keeps h = elim (cancel_begin-queue m w) [
    | inl same ↦ ap (λ q. lookup (as_key v) q.active) same ∙ h
    | inr (left, dropped, e) ↦ ap (λ q. lookup (as_key v) q.active) e ∙ h
  ]
  step-lookup m (cleans w path) v i keeps h = h
  step-lookup m (releases w) v i keeps h = finish-lookup m.queue w (as_key v) i keeps.0 h
  step-lookup m (commits t) v i keeps h = h
  step-lookup m (publishes p) v i keeps h = h
  step-lookup m (clears w) v i keeps h =
      ap (λ q. lookup (as_key v) q.active) (clear_completed-queue m w) ∙ h

  Keeps-cases :
      (v : VariantKey) (x : Action P) (rest : List (Action P))
      → Keeps v (x ∷ rest)
      → Keeps v (x ∷ []) × Keeps v rest
  Keeps-cases v (claims r) rest k = (tt, k)
  Keeps-cases v (begins_cancel w) rest k = (tt, k)
  Keeps-cases v (cleans w path) rest k = (tt, k)
  Keeps-cases v (releases w) rest k = ((k.0, tt), k.1)
  Keeps-cases v (commits t) rest k = (tt, k)
  Keeps-cases v (publishes p) rest k = (tt, k)
  Keeps-cases v (clears w) rest k = (tt, k)

  run-lookup :
      (m : Manager P) (rest : List (Action P)) (v : VariantKey) {a : ActiveDownload}
      → Inv m.queue
      → AllActions IsAction rest
      → Keeps v rest
      → lookup (as_key v) m.queue.active ≡ some a
      → lookup (as_key v) (run m rest).queue.active ≡ some a
  unfolding run
  run-lookup m [] v i named keeps h = h
  run-lookup m (x ∷ rest) v i named keeps h =
      run-lookup (step m x) rest v (step-Inv m x named.0 i) named.1 (Keeps-cases v x rest keeps).1
        (step-lookup m x v i (Keeps-cases v x rest keeps).0 h)

  try_claim_slot-active :
      (m : Manager P) (r : Request P) {a : ActiveDownload}
      → lookup (as_key r.variant) m.queue.active ≡ some a
      → try_claim_slot m r ≡ (m, already_active)
  unfolding try_claim_slot
  try_claim_slot-active m r h = rw (claim_of_active m.queue r h) refl

  -- The barrier: while no action frees the slot of a Variant, whatever else is called, a cancel
  -- of it included, its active entry stays as it is and every new request for it is refused, with
  -- nothing changed. The queue keeps its invariant at the start and the models that are claimed
  -- have no `:` in their names.
  pub run-barrier :
      (m : Manager P) (rest : List (Action P)) (r : Request P) (a : ActiveDownload)
      → Inv m.queue
      → AllActions IsAction rest
      → Keeps r.variant rest
      → lookup (as_key r.variant) m.queue.active ≡ some a
      → (lookup (as_key r.variant) (run m rest).queue.active ≡ some a)
        × (try_claim_slot (run m rest) r ≡ (run m rest, already_active))
  run-barrier m rest r a i named keeps h = (
    run-lookup m rest r.variant i named keeps h,
    try_claim_slot-active (run m rest) r (run-lookup m rest r.variant i named keeps h),
  )
