-- ===== src/Downloads/Queue.antt =====
-- The invariant of the slots and the queue (download_manager.rs, `DownloadQueue`).
use app_cortex_stt.Common.{
  KeyMap, suc, ◌≡◌, ◌≤◌, ◌<◌, refl, sym, ap, ◌∙◌, true, false, List, [], ◌∷◌, none, some, Text,
  lookup, insert, remove, length, any, ltb, ltb→lt, ltb-false→le, ite, text_key, UniqueKeys,
  insert-UniqueKeys, remove-UniqueKeys, length-remove, length-insert_new, arith, Bool-cases,
  Option-cases, inl, inr, ◌⊎◌,
}
use app_cortex_stt.Variants.{VariantKey, as_key, variant_dec}
use app_cortex_stt.Variants.Keys.{IsNamed}
use app_cortex_stt.Downloads.{
  Request, ActiveDownload, DownloadQueue, from_request, contains, claim, claim_next, finish,
  drop_pending, max_concurrent_downloads,
}
use app_cortex_stt.Downloads.Waiting.{
  Absent, Waiting, Waiting-remove, Waiting-insert, Absent-of_any, Waiting-snoc,
}

module _ {P : Type 0} where
  -- At most three downloads are active, each Variant is active or queued once, and no request
  -- waits while a slot is free.
  pub record Inv (q : DownloadQueue P) : Type 0 where
    pub unique : UniqueKeys q.active
    pub bounded : length q.active ≤ max_concurrent_downloads
    pub busy : (q.pending ≡ []) ⊎ (length q.active ≡ max_concurrent_downloads)
    pub waiting : Waiting q.active q.pending

  not_contained :
      (q : DownloadQueue P) (v : VariantKey)
      → contains q v ≡ false
      → (lookup (as_key v) q.active ≡ none)
        × (any (λ r. ite (variant_dec r.variant v) true false) q.pending ≡ false)
  unfolding contains
  not_contained q v h = ground arith

  -- A claim keeps the invariant, if the request names a Variant whose model has no `:`.
  pub claim-Inv :
      (q : DownloadQueue P) (r : Request P) → IsNamed r.variant → Inv q → Inv (claim q r).0
  unfolding claim
  claim-Inv q r named v = elim (Bool-cases (contains q r.variant)) [
    | inl known ↦ rw known v
    | inr new ↦
        let (inactive, unqueued) = not_contained q r.variant new in
        let absent : Absent (as_key r.variant) q.pending =
          Absent-of_any q.active r.variant q.pending named v.waiting unqueued in
        elim (Bool-cases (ltb (length q.active) max_concurrent_downloads)) [
          | inl room ↦
              rw (new, room)
                (record {
                  unique = insert-UniqueKeys (as_key r.variant) (from_request r) q.active v.unique;
                  bounded = omega (
                    arith,
                    length-insert_new (as_key r.variant) (from_request r) q.active inactive,
                    ltb→lt (length q.active) max_concurrent_downloads room,
                  );
                  busy =
                      inl (none_waiting (ltb→lt (length q.active) max_concurrent_downloads room));
                  waiting =
                      Waiting-insert (as_key r.variant) (from_request r) q.active q.pending absent
                        v.waiting;
                })
          | inr full ↦
              rw (new, full)
                (record {
                  unique = v.unique;
                  bounded = v.bounded;
                  busy = inr (
                      omega (
                        arith,
                        v.bounded,
                        ltb-false→le (length q.active) max_concurrent_downloads full,
                      ));
                  waiting = Waiting-snoc q.active q.pending r v.waiting absent inactive named;
                })
        ]
  ]
    where
      none_waiting : length q.active < max_concurrent_downloads → q.pending ≡ []
      none_waiting room = ground arith

  claim_next-Inv :
      (q : DownloadQueue P) (rs : List (Request P))
      → q.pending ≡ rs
      → UniqueKeys q.active
      → suc (length q.active) ≤ max_concurrent_downloads
      → (rs ≡ []) ⊎ (suc (length q.active) ≡ max_concurrent_downloads)
      → Waiting q.active rs
      → Inv (claim_next q).0
  unfolding claim_next
  claim_next-Inv q [] e u b full w =
      rw (e, claim_next)
        (record { unique = u; bounded = omega arith; busy = inl e; waiting = rw e tt })
  claim_next-Inv q (r ∷ rs) e u b full w =
      rw (e, claim_next)
        (record {
          unique = insert-UniqueKeys (as_key r.variant) (from_request r) q.active u;
          bounded =
              omega (arith, length-insert_new (as_key r.variant) (from_request r) q.active w.0);
          busy = still_full full;
          waiting = Waiting-insert (as_key r.variant) (from_request r) q.active rs w.1 w.3;
        })
    where
      still_full :
          ((r ∷ rs) ≡ []) ⊎ (suc (length q.active) ≡ max_concurrent_downloads)
          → (rs ≡ [])
            ⊎ (length (insert (as_key r.variant) (from_request r) q.active)
                ≡ max_concurrent_downloads)
      still_full (inl none_left) = cc none_left
      still_full (inr at_cap) =
          inr (length-insert_new (as_key r.variant) (from_request r) q.active w.0 ∙ at_cap)

  -- A release keeps the invariant: the slot that it frees goes to the next request, if one waits.
  pub finish-Inv : (q : DownloadQueue P) (v : VariantKey) → Inv q → Inv (finish q v).0
  unfolding finish
  finish-Inv q v i = elim (Option-cases (lookup (as_key v) q.active)) [
    | inl inactive ↦ rw (inactive, finish) i
    | inr (a, held) ↦
        let shorter = length-remove (as_key v) q.active i.unique held in
        rw (held, finish)
          (claim_next-Inv (record q { active = remove (as_key v) q.active }) q.pending refl
            (remove-UniqueKeys (as_key v) q.active i.unique) (omega (arith, shorter, i.bounded))
            (ground (arith, shorter, i.busy))
            (Waiting-remove (as_key v) q.active q.pending i.waiting))
  ]

  drop_pending-nil : (v : VariantKey) → drop_pending {P = P} v [] ≡ none
  unfolding drop_pending
  drop_pending-nil v = refl

  drop_pending_cases :
      (v : VariantKey) (r : Request P) (rs left : List (Request P))
      → drop_pending v (r ∷ rs) ≡ some left
      → (left ≡ rs) ⊎ ((t : List (Request P)) × (drop_pending v rs ≡ some t) × (left ≡ r ∷ t))
  unfolding drop_pending
  drop_pending_cases v r rs left h = elim (Option-cases (drop_pending v rs)) [
    | inl none_left ↦ inl (ground arith)
    | inr (t, dropped) ↦ elim (variant_dec r.variant v) [
      | yes same ↦ inl (ground arith)
      | no other ↦ inr (t, dropped, ground arith)
    ]
  ]

  Absent-drop_pending :
      (k : Text) (v : VariantKey) (rs left : List (Request P))
      → drop_pending v rs ≡ some left
      → Absent k rs
      → Absent k left
  Absent-drop_pending k v [] left h a = cc (drop_pending-nil v, h)
  Absent-drop_pending k v (r ∷ rs) left h a = elim (drop_pending_cases v r rs left h) [
    | inl e ↦ rw e a.1
    | inr (t, dropped, e) ↦ rw e ((a.0, Absent-drop_pending k v rs t dropped a.1))
  ]

  Waiting-drop_pending :
      (v : VariantKey) (m : KeyMap Text ActiveDownload) (rs left : List (Request P))
      → drop_pending v rs ≡ some left
      → Waiting m rs
      → Waiting m left
  Waiting-drop_pending v m [] left h w = cc (drop_pending-nil v, h)
  Waiting-drop_pending v m (r ∷ rs) left h w = elim (drop_pending_cases v r rs left h) [
    | inl e ↦ rw e w.3
    | inr (t, dropped, e) ↦ rw e (
        (
          w.0,
          Absent-drop_pending (as_key r.variant) v rs t dropped w.1,
          w.2,
          Waiting-drop_pending v m rs t dropped w.3,
        ))
  ]

  -- Taking a request out of the queue keeps the invariant.
  pub drop_pending-Inv :
      (q : DownloadQueue P) (v : VariantKey) (left : List (Request P))
      → drop_pending v q.pending ≡ some left
      → Inv q
      → Inv (record { pending = left; active = q.active })
  drop_pending-Inv q v left h i = record {
    unique = i.unique;
    bounded = i.bounded;
    busy = elim i.busy [
      | inl none_waiting ↦ cc (drop_pending-nil v, ap (drop_pending v) (sym none_waiting) ∙ h)
      | inr full ↦ inr full
    ];
    waiting = Waiting-drop_pending v q.active q.pending left h i.waiting;
  }
