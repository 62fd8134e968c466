-- ===== src/Catalog/Infos.antt =====
-- The list of a model's Variants (model/catalog.rs, `variant_infos`).
use app_cortex_stt.Common.{
  ◌≡◌, ◌≢◌, refl, sym, ap, ◌∙◌, subst, Bool, true, false, List, [], ◌∷◌, ◌++◌, map, Option, some,
  Text, any, arith, Bool-cases, inl, inr, ◌⊎◌, Memᴰ, mem-map, mem_of_mem-map, mem-sort_by,
  mem_of_mem-sort_by, if◌then◌else◌,
}
use app_cortex_stt.Downloads.{DownloadProgress}
use app_cortex_stt.Catalog.{CatalogModel, InstalledVariant}
use app_cortex_stt.Catalog.Listing.{
  VariantInfo, downloaded, installed_info, pending_info, shows, add_pending, variant_infos, info_le,
}
use app_cortex_stt.Catalog.Resolve.{quant_eq_iff, quant_eq_refl}

module _ {A : Type 0} where
  mem-append_left : (xs ys : List A) {a : A} → Memᴰ a xs → Memᴰ a (xs ++ ys)
  mem-append_left [] ys m = elim m [ ]
  mem-append_left (x ∷ xs) ys (Memᴰ.head e) = Memᴰ.head e
  mem-append_left (x ∷ xs) ys (Memᴰ.tail m) = Memᴰ.tail (mem-append_left xs ys m)

  mem_of_mem-append : (xs ys : List A) {a : A} → Memᴰ a (xs ++ ys) → Memᴰ a xs ⊎ Memᴰ a ys
  mem_of_mem-append [] ys m = inr m
  mem_of_mem-append (x ∷ xs) ys (Memᴰ.head e) = inl (Memᴰ.head e)
  mem_of_mem-append (x ∷ xs) ys (Memᴰ.tail m) = elim (mem_of_mem-append xs ys m) [
    | inl t ↦ inl (Memᴰ.tail t)
    | inr t ↦ inr t
  ]

  mem-append_right : (xs ys : List A) {a : A} → Memᴰ a ys → Memᴰ a (xs ++ ys)
  mem-append_right [] ys m = m
  mem-append_right (x ∷ xs) ys m = Memᴰ.tail (mem-append_right xs ys m)

  pub any-false : (p : A → Bool) (xs : List A) {a : A} → any p xs ≡ false → Memᴰ a xs → p a ≡ false
  any-false p [] h m = elim m [ ]
  any-false p (x ∷ xs) {a} h (Memᴰ.head e) = ap p e ∙ ground arith
  any-false p (x ∷ xs) {a} h (Memᴰ.tail m) = any-false p xs {a = a} (ground arith) m

  pub any-true : (p : A → Bool) (xs : List A) → any p xs ≡ true → (a : A) × Memᴰ a xs × (p a ≡ true)
  any-true p [] h = cc
  any-true p (x ∷ xs) h = elim (Bool-cases (p x)) [
    | inl t ↦ (x, Memᴰ.head refl, t)
    | inr f ↦ let (a, m, t) = any-true p xs (ground arith) in (a, Memᴰ.tail m, t)
  ]

module _ (model : Option CatalogModel) where
  mem-add_pending :
      (ps : List DownloadProgress) (out : List VariantInfo) (v : VariantInfo)
      → Memᴰ v out
      → Memᴰ v (add_pending model ps out)
  unfolding add_pending
  mem-add_pending [] out v m = m
  mem-add_pending (p ∷ ps) out v m = elim (Bool-cases (any (shows p.quant) out)) [
    | inl shown ↦ rw shown (mem-add_pending ps out v m)
    | inr new ↦
        rw new (mem-add_pending ps (out ++ pending_info model p ∷ []) v (mem-append_left out _ m))
  ]

  -- Each download is shown.
  shown-add_pending :
      (ps : List DownloadProgress) (out : List VariantInfo) (p : DownloadProgress)
      → Memᴰ p ps
      → (i : VariantInfo) × Memᴰ i (add_pending model ps out) × (i.quant ≡ some p.quant)
  unfolding add_pending pending_info
  shown-add_pending [] out p m = elim m [ ]
  shown-add_pending (q ∷ ps) out p (Memᴰ.tail m) =
      shown-add_pending ps
        (if any (shows q.quant) out then out else out ++ pending_info model q ∷ []) p m
  shown-add_pending (q ∷ ps) out p (Memᴰ.head e) = elim (Bool-cases (any (shows q.quant) out)) [
    | inl shown ↦
        let (i, m, t) = any-true (shows q.quant) out shown in
        (
          i,
          rw shown (mem-add_pending ps out i m),
          quant_eq_iff i.quant (some q.quant) t ∙ ap (λ x. some x.quant) (sym e),
        )
    | inr new ↦ (
      pending_info model q,
      rw new (
          mem-add_pending ps (out ++ pending_info model q ∷ []) (pending_info model q)
            (mem-append_right out _ (Memᴰ.head refl))),
      ap (λ x. some x.quant) (sym e),
    )
  ]

  -- What the loop adds is a download of a quant that was not shown.
  added :
      (ps : List DownloadProgress) (out : List VariantInfo) (i : VariantInfo)
      → Memᴰ i (add_pending model ps out)
      → Memᴰ i out
        ⊎ ((p : DownloadProgress) × Memᴰ p ps
            × (i ≡ pending_info model p)
            × ((j : VariantInfo) → Memᴰ j out → j.quant ≢ some p.quant))
  unfolding add_pending
  added [] out i m = inl m
  added (p ∷ ps) out i m = elim (Bool-cases (any (shows p.quant) out)) [
    | inl shown ↦ elim (added ps out i (subst (Memᴰ i) (rw (shown, add_pending) refl) m)) [
      | inl old ↦ inl old
      | inr (q, k, e, apart) ↦ inr (q, Memᴰ.tail k, e, apart)
    ]
    | inr new ↦
        elim (added ps (out ++ pending_info model p ∷ []) i
          (subst (Memᴰ i) (rw (new, add_pending) refl) m)) [
            | inr (q, k, e, apart) ↦ inr (
              q,
              Memᴰ.tail k,
              e,
              (λ j n. apart j (mem-append_left out (pending_info model p ∷ []) n)),
            )
            | inl old ↦ elim (mem_of_mem-append out (pending_info model p ∷ []) old) [
              | inl before ↦ inl before
              | inr last ↦ inr (p, Memᴰ.head refl, only last, (λ j n same. unshown new j n same))
            ]
          ]
  ]
    where
      only : Memᴰ i (pending_info model p ∷ []) → i ≡ pending_info model p
      only (Memᴰ.head e) = e
      only (Memᴰ.tail t) = elim t [ ]

      unshown :
          any (shows p.quant) out ≡ false → (j : VariantInfo) → Memᴰ j out → j.quant ≢ some p.quant
      unshown new j n same =
          cc
            (any-false (shows p.quant) out {a = j} new n, quant_eq_refl j.quant (some p.quant) same)

module _ (catalog : List CatalogModel) where
  -- The list of a model's Variants: each installed Variant is shown, as downloaded, whatever its
  -- download does; each download is shown; and whatever is shown is an installed Variant, or a
  -- download of a quant that is not installed.
  pub record IsListing (model : Option CatalogModel) (mine : List InstalledVariant)
      (progress : List DownloadProgress) (loaded : Text → Bool) (infos : List VariantInfo)
      : Type 0 where
    pub every_installed :
        (v : InstalledVariant) → Memᴰ v mine → Memᴰ (installed_info catalog progress loaded v) infos
    pub as_downloaded :
        (v : InstalledVariant)
        → Memᴰ v mine
        → (installed_info catalog progress loaded v).status ≡ downloaded
    pub every_download :
        (p : DownloadProgress)
        → Memᴰ p progress
        → (i : VariantInfo) × Memᴰ i infos × (i.quant ≡ some p.quant)
    pub nothing_else :
        (i : VariantInfo)
        → Memᴰ i infos
        → ((v : InstalledVariant) × Memᴰ v mine × (i ≡ installed_info catalog progress loaded v))
          ⊎ ((p : DownloadProgress) × Memᴰ p progress
              × (i ≡ pending_info model p)
              × ((v : InstalledVariant) → Memᴰ v mine → v.key.quant ≢ some p.quant))

  -- `variant_infos` lists each installed Variant, as downloaded, whatever its download does; it
  -- lists each download; and what it lists is an installed Variant, or a download of a quant that
  -- is not installed.
  pub variant_infos-IsListing :
      (model : Option CatalogModel) (mine : List InstalledVariant)
      (progress : List DownloadProgress) (loaded : Text → Bool)
      → IsListing model mine progress loaded (variant_infos catalog model mine progress loaded)
  unfolding variant_infos installed_info
  variant_infos-IsListing model mine progress loaded = record {
    every_installed = λ v m. mem-sort_by (info_le model) listed (
        mem-add_pending model progress shown (installed_info catalog progress loaded v)
          (mem-map (installed_info catalog progress loaded) mine m));
    as_downloaded = λ v m. refl;
    every_download = λ p m.
        let (i, k, e) = shown-add_pending model progress shown p m in
        (i, mem-sort_by (info_le model) listed k, e);
    nothing_else = λ i m.
        elim (added model progress shown i (mem_of_mem-sort_by (info_le model) listed m)) [
          | inl old ↦ inl (mem_of_mem-map (installed_info catalog progress loaded) mine old)
          | inr (p, k, e, apart) ↦ inr (
            p,
            k,
            e,
            (λ v n.
                apart (installed_info catalog progress loaded v)
                  (mem-map (installed_info catalog progress loaded) mine n)),
          )
        ];
  }
    where
      shown : List VariantInfo
      shown = map (installed_info catalog progress loaded) mine

      listed : List VariantInfo
      listed = add_pending model progress shown
