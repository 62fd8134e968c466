-- ===== src/Downloads/Cancel.antt =====
-- A release of a slot, and a cancel with its phases in a row (download_manager.rs, `finish` and
-- `cancel`).
use app_cortex_stt.Common.{
  KeyMap, ◌≡◌, refl, ap, ◌∙◌, false, List, [], ◌∷◌, none, some, Text, lookup, text_key, remove,
  lookup-remove_self, arith, Option-cases, inl, inr, if_neg,
}
use app_cortex_stt.Variants.{VariantKey, as_key, variant_dec}
use app_cortex_stt.Downloads.{
  running, cancelled, token_cancel, Request, ActiveDownload, drop_pending, finish, DownloadQueue,
}
use app_cortex_stt.Downloads.Manager.{
  Manager, cancel, cancel_begin, cancel_clean, release, set_token, settled, teardown, not_found,
  CancelResult, cancelled_ok, model_not_found, remove_part, board_remove, board_contains,
}
use app_cortex_stt.Downloads.Waiting.{Waiting}
use app_cortex_stt.Downloads.Queue.{Inv}
use app_cortex_stt.Downloads.Tokens.{cancel_begin-won, set_token_self}
use app_cortex_stt.Downloads.Barrier.{claim_next-lookup}

module _ {P : Type 0} where
  -- After a release the Variant holds no slot.
  finish-absent :
      (q : DownloadQueue P) (v : VariantKey)
      → Inv q
      → lookup (as_key v) (finish q v).0.active ≡ none
  unfolding finish
  finish-absent q v i = elim (Option-cases (lookup (as_key v) q.active)) [
    | inl absent ↦ rw (absent, finish) absent
    | inr (b, held) ↦
        rw (held, finish)
          (claim_next-lookup (record q { active = remove (as_key v) q.active }) (as_key v) q.active
              q.pending refl i.waiting held
            ∙ lookup-remove_self (as_key v) q.active)
  ]

  finish_of_absent :
      (q : DownloadQueue P) (v : VariantKey)
      → lookup (as_key v) q.active ≡ none
      → finish q v ≡ (q, none)
  unfolding finish
  finish_of_absent q v absent = rw (absent, finish) refl

  -- If the queue keeps its invariant, a second release of a Variant, with nothing in between,
  -- changes nothing and promotes nothing.
  pub release_twice :
      (m : Manager P) (v : VariantKey)
      → Inv m.queue
      → release (release m v).0 v ≡ ((release m v).0, none)
  unfolding release finish
  release_twice m v i =
      ap (λ x. (record (release m v).0 { queue = x.0 }, x.1))
        (finish_of_absent (finish m.queue v).0 v (finish-absent m.queue v i))

  -- An active Variant is not queued.
  drop_pending_of_active :
      (m : KeyMap Text ActiveDownload) (v : VariantKey) (rs : List (Request P)) {a : ActiveDownload}
      → Waiting m rs
      → lookup (as_key v) m ≡ some a
      → drop_pending v rs ≡ none
  unfolding drop_pending
  drop_pending_of_active m v [] w h = refl
  drop_pending_of_active m v (r ∷ rs) w h = elim (variant_dec r.variant v) [
    | yes same ↦ cc (ap (λ i. lookup (as_key i) m) same, w.0, h)
    | no other ↦
        rw (if_neg (variant_dec r.variant v) other, drop_pending_of_active m v rs w.3 h) refl
  ]

  cancel_of_teardown :
      (m m' : Manager P) (v : VariantKey) (path : Text)
      → cancel_begin m v ≡ (m', teardown path)
      → cancel m v ≡ (
        (release (cancel_clean m' v path) v).0,
        cancelled_ok (release (cancel_clean m' v path) v).1,
      )
  unfolding cancel
  cancel_of_teardown m m' v path e =
      ap
        (λ x. elim x.1 as (λ s. Manager P × CancelResult P) [
          | settled ↦ (x.0, cancelled_ok none)
          | not_found ↦ (x.0, model_not_found)
          | teardown path' ↦ (
            (release (cancel_clean x.0 v path') v).0,
            cancelled_ok (release (cancel_clean x.0 v path') v).1,
          )
        ])
        e

  -- A cancel of an active download whose token is running, with its phases in a row, in a queue
  -- that keeps its invariant: the token is cancelled, the snapshot and the `.part` file are gone,
  -- the Variant holds no slot, and the queue and the promoted request are those of a release.
  pub cancel_of_running :
      (m : Manager P) (v : VariantKey) (entry : ActiveDownload)
      → Inv m.queue
      → lookup (as_key v) m.queue.active ≡ some entry
      → m.tokens entry.cancel_flag ≡ running
      → ((cancel m v).1 ≡ cancelled_ok (release m v).1)
        × ((cancel m v).0.queue ≡ (release m v).0.queue)
        × (lookup (as_key v) (cancel m v).0.queue.active ≡ none)
        × (board_contains (cancel m v).0.progress v ≡ false)
        × ((cancel m v).0.part_files entry.dest_path ≡ false)
        × ((cancel m v).0.tokens entry.cancel_flag ≡ cancelled)
  unfolding token_cancel release cancel_clean remove_part board_contains board_remove
  cancel_of_running m v entry i held runs =
      rw (cancel_of_teardown m signalled v entry.dest_path begun) (
        (
          refl,
          refl,
          finish-absent m.queue v i,
          ground (arith, lookup-remove_self (as_key v) m.progress),
          ground arith,
          set_token_self entry.cancel_flag cancelled m.tokens,
        ))
    where
      signalled : Manager P
      signalled = record m { tokens = set_token entry.cancel_flag cancelled m.tokens }

      begun : cancel_begin m v ≡ (signalled, teardown entry.dest_path)
      begun =
          cancel_begin-won m v entry
            (drop_pending_of_active m.queue.active v m.queue.pending i.waiting held) held
            (ap (λ s. (token_cancel s).1) runs)
