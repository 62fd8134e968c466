-- ===== src/Downloads/Slots.antt =====
-- The slots and the queue under every interleaving of the manager's critical sections
-- (download_manager.rs).
use app_cortex_stt.Common.{
  subst, ◌≡◌, refl, sym, Bool, List, [], ◌∷◌, some, Text, text_key, arith, Option-cases, inl, inr,
  ◌⊎◌,
}
use app_cortex_stt.Variants.{VariantKey}
use app_cortex_stt.Variants.Keys.{IsNamed}
use app_cortex_stt.Downloads.{Request, claim, drop_pending}
use app_cortex_stt.Downloads.Manager.{
  Manager, new, try_claim_slot, cancel_begin, clear_completed, Action, claims, begins_cancel,
  cleans, releases, commits, publishes, clears, step, run,
}
use app_cortex_stt.Downloads.Queue.{Inv, claim-Inv, finish-Inv, drop_pending-Inv}

module _ {P : Type 0} where
  -- A claim names a Variant whose model has no `:`.
  abbrev pub IsAction : Action P → Type 0
  IsAction (claims r) = IsNamed r.variant
  IsAction (begins_cancel v) = Unit
  IsAction (cleans v path) = Unit
  IsAction (releases v) = Unit
  IsAction (commits t) = Unit
  IsAction (publishes p) = Unit
  IsAction (clears v) = Unit

  abbrev pub AllActions : (Action P → Type 0) → List (Action P) → Type 0
  AllActions Q [] = Unit
  AllActions Q (a ∷ rest) = Q a × AllActions Q rest

  pub try_claim_slot-queue :
      (m : Manager P) (r : Request P) → (try_claim_slot m r).0.queue ≡ (claim m.queue r).0
  unfolding try_claim_slot claim
  try_claim_slot-queue m r = ground arith

  pub clear_completed-queue :
      (m : Manager P) (v : VariantKey) → (clear_completed m v).queue ≡ m.queue
  unfolding clear_completed
  clear_completed-queue m v = ground arith

  -- The first phase of a cancel leaves the queue alone, or takes a waiting request out of it.
  pub cancel_begin-queue :
      (m : Manager P) (v : VariantKey)
      → ((cancel_begin m v).0.queue ≡ m.queue)
        ⊎ ((left : List (Request P)) × (drop_pending v m.queue.pending ≡ some left)
            × ((cancel_begin m v).0.queue ≡ record { pending = left; active = m.queue.active }))
  unfolding cancel_begin
  cancel_begin-queue m v = elim (Option-cases (drop_pending v m.queue.pending)) [
    | inl none_left ↦ inl (ground arith)
    | inr (left, dropped) ↦ inr (left, dropped, ground arith)
  ]

  pub step-Inv : (m : Manager P) (a : Action P) → IsAction a → Inv m.queue → Inv (step m a).queue
  unfolding step
  step-Inv m (claims r) named i =
      subst Inv (sym (try_claim_slot-queue m r)) (claim-Inv m.queue r named i)
  step-Inv m (begins_cancel v) p i = elim (cancel_begin-queue m v) [
    | inl same ↦ subst Inv (sym same) i
    | inr (left, dropped, e) ↦ subst Inv (sym e) (drop_pending-Inv m.queue v left dropped i)
  ]
  step-Inv m (cleans v path) p i = i
  step-Inv m (releases v) p i = finish-Inv m.queue v i
  step-Inv m (commits t) p i = i
  step-Inv m (publishes p) q i = i
  step-Inv m (clears v) p i = subst Inv (sym (clear_completed-queue m v)) i

  run-Inv :
      (m : Manager P) (rest : List (Action P))
      → AllActions IsAction rest
      → Inv m.queue
      → Inv (run m rest).queue
  unfolding run
  run-Inv m [] p i = i
  run-Inv m (a ∷ rest) p i = run-Inv (step m a) rest p.1 (step-Inv m a p.0 i)

  -- Under every interleaving of claims, cancels, releases and tasks, from a new manager on: at
  -- most three downloads are active, a Variant is active or queued once at most, and no request
  -- waits while a slot is free. The models that are claimed have no `:` in their names.
  pub run-new-Inv :
      (files : Text → Bool) (rest : List (Action P))
      → AllActions IsAction rest
      → Inv (run (new files) rest).queue
  unfolding new
  run-new-Inv files rest p =
      run-Inv (new files) rest p
        (record { unique = tt; bounded = omega arith; busy = inl refl; waiting = tt })
