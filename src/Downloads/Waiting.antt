-- ===== src/Downloads/Waiting.antt =====
-- The queued requests, none of which is active (download_manager.rs, `DownloadQueue`).
use app_cortex_stt.Common.{
  KeyMap, ◌≡◌, ◌≢◌, sym, ap, ◌∙◌, true, false, List, [], ◌∷◌, ◌++◌, none, Text, lookup, insert,
  remove, any, ite, if_pos, text_key, lookup-insert_ne, lookup-remove-none, arith, ◌||◌,
}
use app_cortex_stt.Variants.{VariantKey, as_key, variant_dec}
use app_cortex_stt.Variants.Keys.{IsNamed, as_key_injective}
use app_cortex_stt.Downloads.{Request, ActiveDownload}

module _ {P : Type 0} where
  -- No request of the list is for the Variant of key `k`.
  abbrev pub Absent : Text → List (Request P) → Type 0
  Absent k [] = Unit
  Absent k (r ∷ rs) = (as_key r.variant ≢ k) × Absent k rs

  -- The queued Variants are distinct and none of them is active.
  abbrev pub Waiting : KeyMap Text ActiveDownload → List (Request P) → Type 0
  Waiting m [] = Unit
  Waiting m (r ∷ rs) =
      (lookup (as_key r.variant) m ≡ none)
      × Absent (as_key r.variant) rs
      × IsNamed r.variant
      × Waiting m rs

  pub Waiting-remove :
      (k : Text) (m : KeyMap Text ActiveDownload) (rs : List (Request P))
      → Waiting m rs
      → Waiting (remove k m) rs
  Waiting-remove k m [] w = tt
  Waiting-remove k m (r ∷ rs) w =
      (lookup-remove-none (as_key r.variant) k m w.0, w.1, w.2, Waiting-remove k m rs w.3)

  pub Waiting-insert :
      (k : Text) (a : ActiveDownload) (m : KeyMap Text ActiveDownload) (rs : List (Request P))
      → Absent k rs
      → Waiting m rs
      → Waiting (insert k a m) rs
  Waiting-insert k a m [] absent w = tt
  Waiting-insert k a m (r ∷ rs) absent w = (
    lookup-insert_ne k (as_key r.variant) a m (λ e. absent.0 (sym e)) ∙ w.0,
    w.1,
    w.2,
    Waiting-insert k a m rs absent.1 w.3,
  )

  pub Absent-snoc :
      (k : Text) (rs : List (Request P)) (r : Request P)
      → Absent k rs
      → as_key r.variant ≢ k
      → Absent k (rs ++ r ∷ [])
  Absent-snoc k [] r a d = (d, tt)
  Absent-snoc k (s ∷ rs) r a d = (a.0, Absent-snoc k rs r a.1 d)

  -- A Variant that no queued request names has a key of its own.
  pub Absent-of_any :
      (m : KeyMap Text ActiveDownload) (v : VariantKey) (rs : List (Request P))
      → IsNamed v
      → Waiting m rs
      → any (λ r. ite (variant_dec r.variant v) true false) rs ≡ false
      → Absent (as_key v) rs
  Absent-of_any m v [] named w h = tt
  Absent-of_any m v (r ∷ rs) named w h = elim (variant_dec r.variant v) [
    | yes same ↦ cc (
        ap (λ b. b || any (λ r. ite (variant_dec r.variant v) true false) rs)
          (if_pos (variant_dec r.variant v) same true false))
    | no other ↦ (
      (λ e. other (as_key_injective r.variant v w.2 named e)),
      Absent-of_any m v rs named w.3 (ground arith),
    )
  ]

  pub Waiting-snoc :
      (m : KeyMap Text ActiveDownload) (rs : List (Request P)) (r : Request P)
      → Waiting m rs
      → Absent (as_key r.variant) rs
      → lookup (as_key r.variant) m ≡ none
      → IsNamed r.variant
      → Waiting m (rs ++ r ∷ [])
  Waiting-snoc m [] r w a h named = (h, tt, named, tt)
  Waiting-snoc m (s ∷ rs) r w a h named = (
    w.0,
    Absent-snoc (as_key s.variant) rs r w.1 (λ e. a.0 (sym e)),
    w.2,
    Waiting-snoc m rs r w.3 a.1 h named,
  )
