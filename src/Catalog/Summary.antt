-- ===== src/Catalog/Summary.antt =====
-- A model's summary, drawn from the list of its Variants (model/types.rs, `summarise`, as
-- model/catalog.rs calls it).
use app_cortex_stt.Common.{
  ℕ, ◌+◌, ◌%◌, ◌≡◌, ◌↔◌, refl, ap, Bool, true, false, List, [], ◌∷◌, Option, Text, filter, any,
  if◌then◌else◌, arith, Bool-cases, inl, inr, Memᴰ,
}
use app_cortex_stt.Downloads.{DownloadProgress, DownloadPhase}
use app_cortex_stt.Catalog.{CatalogModel, InstalledVariant}
use app_cortex_stt.Catalog.Listing.{
  VariantInfo, VariantStatus, installed_info, pending_info, status_of, variant_infos,
}
use app_cortex_stt.Catalog.Infos.{any-true, any-false, IsListing, variant_infos-IsListing}

pub data ModelStatus : Type 0 where
  available queued downloading downloaded custom error : ModelStatus

-- The fields that the summary sets.
pub record Summary : Type 0 where
  pub size_mb : ℕ
  pub status : ModelStatus
  pub disk_usage_bytes : ℕ
  pub is_loaded : Bool

abbrev pub is_downloaded : VariantInfo → Bool
is_downloaded v = elim v.status [ VariantStatus.downloaded ↦ true | _ ↦ false ]

abbrev pub is_downloading : VariantInfo → Bool
is_downloading v = elim v.status [ VariantStatus.downloading ↦ true | _ ↦ false ]

abbrev pub is_queued : VariantInfo → Bool
is_queued v = elim v.status [ VariantStatus.queued ↦ true | _ ↦ false ]

abbrev pub is_error : VariantInfo → Bool
is_error v = elim v.status [ VariantStatus.error ↦ true | _ ↦ false ]

-- What an installed model is: a Custom one stays one.
abbrev pub usable : ModelStatus → ModelStatus
usable custom = custom
usable available = downloaded
usable queued = downloaded
usable downloading = downloaded
usable downloaded = downloaded
usable error = downloaded

-- The sum as a `u64`, which wraps.
unfoldable pub total_disk_usage : List VariantInfo → ℕ
total_disk_usage [] = 0
total_disk_usage (v ∷ vs) = (v.disk_usage_bytes + total_disk_usage vs) % 18446744073709551616

unfoldable pub summary_status : ModelStatus → List VariantInfo → ModelStatus
summary_status idle vs =
    if any is_downloaded vs
    then usable idle
    else if any is_downloading vs
    then downloading
    else if any is_queued vs
    then queued
    else if any is_error vs
    then error
    else idle

-- `size` is the size of the model before, which stays unless one Variant alone is installed.
unfoldable pub summarise : ModelStatus → ℕ → List VariantInfo → Summary
unfolding total_disk_usage summary_status
summarise idle size vs = record {
  size_mb = elim (filter is_downloaded vs) [
    | [] ↦ size
    | v ∷ rest ↦ elim rest [ [] ↦ v.size_mb | w ∷ others ↦ size ]
  ];
  status = summary_status idle vs;
  disk_usage_bytes = total_disk_usage vs;
  is_loaded = any (λ v. v.is_loaded) vs;
}

any_of_mem :
    (p : VariantInfo → Bool) (vs : List VariantInfo) (v : VariantInfo)
    → Memᴰ v vs
    → p v ≡ true
    → any p vs ≡ true
any_of_mem p vs v m t = elim (Bool-cases (any p vs)) [
  | inl found ↦ found
  | inr absent ↦ cc (any-false p vs {a = v} absent m, t)
]

pending-not-downloaded :
    (model : Option CatalogModel) (p : DownloadProgress)
    → is_downloaded (pending_info model p) ≡ false
unfolding pending_info
pending-not-downloaded model p = by_phase p.status
  where
    by_phase :
        (s : DownloadPhase)
        → elim (status_of s) as (λ x. Bool) [ VariantStatus.downloaded ↦ true | _ ↦ false ] ≡ false
    by_phase DownloadPhase.queued = refl
    by_phase DownloadPhase.downloading = refl
    by_phase DownloadPhase.verifying = refl
    by_phase DownloadPhase.completed = refl
    by_phase DownloadPhase.failed = refl

summary_status-downloaded :
    (vs : List VariantInfo) → summary_status available vs ≡ downloaded → any is_downloaded vs ≡ true
unfolding summary_status
summary_status-downloaded vs h = ground arith

summary_status_of_any :
    (vs : List VariantInfo) → any is_downloaded vs ≡ true → summary_status available vs ≡ downloaded
unfolding summary_status
summary_status_of_any vs h = ground arith

module _ (catalog : List CatalogModel) where
  -- A catalog model is shown as downloaded exactly if one of its Variants is installed, whatever
  -- its downloads do: an update never makes it disappear, and a download that is not installed
  -- yet never makes it appear.
  pub summarise-downloaded :
      (model : Option CatalogModel) (mine : List InstalledVariant)
      (progress : List DownloadProgress) (loaded : Text → Bool) (size : ℕ)
      → ((summarise available size (variant_infos catalog model mine progress loaded)).status
          ≡ downloaded)
        ↔ ((v : InstalledVariant) × Memᴰ v mine)
  unfolding summarise
  summarise-downloaded model mine progress loaded size = (
    (λ h. installed_one (any-true is_downloaded infos (summary_status-downloaded infos h))),
    (λ found. summary_status_of_any infos (
        any_of_mem is_downloaded infos (installed_info catalog progress loaded found.0)
          (listing.every_installed found.0 found.1)
          (ap downloaded_status (listing.as_downloaded found.0 found.1)))),
  )
    where
      infos : List VariantInfo
      infos = variant_infos catalog model mine progress loaded

      listing : IsListing catalog model mine progress loaded infos
      listing = variant_infos-IsListing catalog model mine progress loaded

      downloaded_status : VariantStatus → Bool
      downloaded_status s = elim s [ VariantStatus.downloaded ↦ true | _ ↦ false ]

      installed_one :
          ((i : VariantInfo) × Memᴰ i infos × (is_downloaded i ≡ true))
          → (v : InstalledVariant) × Memᴰ v mine
      installed_one (i, m, t) = elim (listing.nothing_else i m) [
        | inl (v, n, e) ↦ (v, n)
        | inr (p, n, e, apart) ↦ cc (pending-not-downloaded model p, ap is_downloaded e, t)
      ]
