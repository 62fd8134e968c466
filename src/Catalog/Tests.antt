-- ===== src/Catalog/Tests.antt =====
-- The theorems about the catalog at concrete models (model/catalog.rs).
use app_cortex_stt.Common.{
  ℕ, ◌≡◌, refl, List, [], ◌∷◌, none, some, Text, true, false, Bool, text_key, split_once,
  ℕ_discrete, lookup,
}
use app_cortex_stt.Variants.{as_key, parse, variant_dec}
use app_cortex_stt.Downloads.{DownloadProgress, DownloadPhase, is_terminal}
use app_cortex_stt.Downloads.Manager.{board_get}
use app_cortex_stt.Catalog.{
  update_available, InstalledVariant, CatalogModel, found, variant_not_installed, variant_required,
  resolve_variant, resolve_in, only_of, of_model, find, delete_variant, download_in_progress,
  deleted, drop_first, pinned, find_model, same_ignoring_case,
}
use app_cortex_stt.Catalog.Listing.{variant_infos}
use app_cortex_stt.Catalog.Resolve.{IsResolution, resolve_variant-IsResolution}
use app_cortex_stt.Catalog.Infos.{IsListing, variant_infos-IsListing}

program : Unit {0}
unfolding resolve_variant resolve_in only_of of_model find as_key parse split_once text_key
    ℕ_discrete delete_variant drop_first board_get lookup is_terminal variant_dec update_available
    pinned find_model same_ignoring_case
program = tt

-- A Variant of the model `w` and a one-letter quant.
abbrev installed : ℕ → InstalledVariant
installed q = record {
  key = record { model = b'w' ∷ []; quant = some (q ∷ []) };
  path = b'w' ∷ b'/' ∷ q ∷ [];
  file_bytes = 2097152;
  sha256 = some (b'a' ∷ b'0' ∷ []);
  installed_at = 100;
}

abbrev disk : List InstalledVariant
disk = installed b'4' ∷ installed b'8' ∷ []

named : resolve_variant disk (b'w' ∷ b':' ∷ b'8' ∷ []) ≡ found (installed b'8')
unfolding program
named = refl

ambiguous :
    resolve_variant disk (b'w' ∷ [])
    ≡ variant_required ((b'w' ∷ b':' ∷ b'4' ∷ []) ∷ (b'w' ∷ b':' ∷ b'8' ∷ []) ∷ [])
unfolding program
ambiguous = refl

only_one : resolve_variant (installed b'4' ∷ []) (b'w' ∷ []) ≡ found (installed b'4')
unfolding program
only_one = refl

not_there : resolve_variant disk (b'w' ∷ b':' ∷ b'5' ∷ []) ≡ variant_not_installed (b'5' ∷ [])
unfolding program
not_there = refl

resolve_variant-IsResolution_example :
    IsResolution disk
      (parse (b'w' ∷ b':' ∷ b'8' ∷ []))
      (resolve_variant disk (b'w' ∷ b':' ∷ b'8' ∷ []))
resolve_variant-IsResolution_example = resolve_variant-IsResolution disk (b'w' ∷ b':' ∷ b'8' ∷ [])

-- The catalog offers the quants `4` and `5`; `4` was republished.
abbrev model : CatalogModel
model = record {
  id = b'w' ∷ [];
  quants =
      record {
        quant = b'4' ∷ [];
        filename = b'4' ∷ [];
        sha256 = b'B' ∷ b'0' ∷ [];
        size_bytes = 2097152;
      }
      ∷ record {
        quant = b'5' ∷ [];
        filename = b'5' ∷ [];
        sha256 = b'C' ∷ b'0' ∷ [];
        size_bytes = 3145728;
      }
      ∷ [];
  default_quant = b'4' ∷ [];
}

republished : update_available (model ∷ []) (installed b'4') ≡ true
unfolding program
republished = refl

abbrev download : ℕ → DownloadPhase → DownloadProgress
download q phase = record {
  model_id = b'w' ∷ [];
  quant = q ∷ [];
  status = phase;
  downloaded_bytes = 0;
  total_bytes = 0;
  error = none;
}

busy_delete :
    (delete_variant
      ((b'w' ∷ b':' ∷ b'4' ∷ [], download b'4' DownloadPhase.downloading) ∷ [])
      disk
      (installed b'4').key).1
    ≡ download_in_progress
unfolding program
busy_delete = refl

free_delete : delete_variant [] disk (installed b'4').key ≡ (installed b'8' ∷ [], deleted)
unfolding program
free_delete = refl

abbrev nothing_loaded : Text → Bool
nothing_loaded key = false

abbrev downloads : List DownloadProgress
downloads = download b'4' DownloadPhase.downloading ∷ download b'5' DownloadPhase.queued ∷ []

variant_infos-IsListing_example :
    IsListing
      (model ∷ [])
      (some model)
      disk
      downloads
      nothing_loaded
      (variant_infos (model ∷ []) (some model) disk downloads nothing_loaded)
variant_infos-IsListing_example =
    variant_infos-IsListing (model ∷ []) (some model) disk downloads nothing_loaded
