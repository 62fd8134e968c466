-- ===== src/Catalog/Listing.antt =====
-- The list of a model's Variants as shown to clients (model/catalog.rs, `variant_infos`, and
-- model/types.rs).
use app_cortex_stt.Common.{
  ℕ, suc, ◌/◌, Bool, true, false, ◌&&◌, ◌||◌, not, List, [], ◌∷◌, ◌++◌, map, Option, none, some,
  Text, any, sort_by, if◌then◌else◌, ltb, leb, text_key,
}
use app_cortex_stt.Retention.{text_le}
use app_cortex_stt.Variants.{as_key}
use app_cortex_stt.Downloads.{DownloadPhase, DownloadProgress, is_terminal}
use app_cortex_stt.Catalog.{
  quant_eq, find, QuantFile, CatalogModel, quant_of, InstalledVariant, is_retired, update_available,
}

pub data VariantStatus : Type 0 where
  queued downloading downloaded error : VariantStatus

pub record VariantInfo : Type 0 where
  pub quant : Option Text
  pub status : VariantStatus
  pub size_mb : ℕ
  pub disk_usage_bytes : ℕ
  pub is_loaded : Bool
  pub update_available : Bool
  pub updating : Bool
  pub retired : Bool
  pub installed_at : Option ℕ
  pub download_error : Option Text

abbrev pub to_mb : ℕ → ℕ
to_mb bytes = bytes / 1048576

-- The status of a Variant of which there is only a download.
abbrev pub status_of : DownloadPhase → VariantStatus
status_of DownloadPhase.queued = queued
status_of DownloadPhase.failed = error
status_of DownloadPhase.downloading = downloading
status_of DownloadPhase.verifying = downloading
status_of DownloadPhase.completed = downloading

abbrev pub no_quant_limit : ℕ
no_quant_limit = 18446744073709551615

-- Where a quant stands in a list of them.
unfoldable pub position : Option Text → List QuantFile → ℕ → ℕ
position quant [] n = no_quant_limit
position quant (q ∷ qs) n =
    let rest = position quant qs (suc n) in if quant_eq (some q.quant) quant then n else rest

unfoldable pub order : Option CatalogModel → VariantInfo → ℕ
unfolding position
order none v = no_quant_limit
order (some m) v = position v.quant m.quants 0

abbrev pub quant_le : Option Text → Option Text → Bool
quant_le none q = true
quant_le (some s) none = false
quant_le (some s) (some t) = text_le s t

unfoldable pub info_le : Option CatalogModel → VariantInfo → VariantInfo → Bool
unfolding order text_le
info_le model v w =
    ltb (order model v) (order model w)
    || leb (order model v) (order model w) && quant_le v.quant w.quant

unfoldable pub phase_of : List DownloadProgress → Option Text → Option DownloadProgress
unfolding find
phase_of progress quant = find (λ p. quant_eq (some p.quant) quant) progress

-- A Variant of which nothing is on disk.
unfoldable pub pending_info : Option CatalogModel → DownloadProgress → VariantInfo
unfolding find
pending_info model p = record {
  quant = some p.quant;
  status = status_of p.status;
  size_mb = elim model [
    | none ↦ 0
    | some m ↦ elim (quant_of m p.quant) [ none ↦ 0 | some q ↦ to_mb q.size_bytes ]
  ];
  disk_usage_bytes = 0;
  is_loaded = false;
  update_available = false;
  updating = false;
  retired = false;
  installed_at = none;
  download_error = p.error;
}

abbrev pub shows : Text → VariantInfo → Bool
shows q v = quant_eq v.quant (some q)

-- The loop over the downloads.
unfoldable pub add_pending :
    Option CatalogModel → List DownloadProgress → List VariantInfo → List VariantInfo
unfolding pending_info
add_pending model [] out = out
add_pending model (p ∷ ps) out =
    add_pending model ps (if any (shows p.quant) out then out else out ++ pending_info model p ∷ [])

module _ (catalog : List CatalogModel) where
  unfoldable pub installed_info :
      List DownloadProgress → (Text → Bool) → InstalledVariant → VariantInfo
  unfolding phase_of is_terminal as_key is_retired update_available
  installed_info progress loaded v =
      let p = phase_of progress v.key.quant in
      record {
        quant = v.key.quant;
        status = downloaded;
        size_mb = to_mb v.file_bytes;
        disk_usage_bytes = v.file_bytes;
        is_loaded = loaded (as_key v.key);
        update_available = update_available catalog v;
        updating = elim p [ none ↦ false | some q ↦ not (is_terminal q.status) ];
        retired = is_retired catalog v;
        installed_at = some v.installed_at;
        download_error = elim p [ none ↦ none | some q ↦ q.error ];
      }

  unfoldable pub variant_infos :
      Option CatalogModel
      → List InstalledVariant
      → List DownloadProgress
      → (Text → Bool)
      → List VariantInfo
  unfolding installed_info add_pending info_le sort_by
  variant_infos model mine progress loaded =
      sort_by (info_le model)
        (add_pending model progress (map (installed_info progress loaded) mine))
