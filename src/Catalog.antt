-- ===== src/Catalog.antt =====
-- The view of all models (cortex-stt/src/model): the vendored catalog's lookups
-- (catalog_data.rs), what an installed Variant says of itself (installed.rs), the resolution of
-- a Variant key and the list of a model's Variants (catalog.rs) with its summary (types.rs). Text
-- is its bytes. The catalog, which is data, is the parameter `catalog`; a file is given with its
-- length. Fields that are only copied for display (names, descriptions, languages) are left out.
pub mod Resolve
pub mod Listing
pub mod Infos
pub mod Summary
mod Tests
use app_cortex_stt.Common.{
  text_eq, ℕ, zero, suc, ◌+◌, ◌/◌, ◌*◌, Bool, true, false, ◌&&◌, ◌||◌, not, List, [], ◌∷◌, ◌++◌,
  map, Option, none, some, Text, KeyMap, length, filter, any, sort_by, if◌then◌else◌, ltb, leb,
  is_some, is_none, ite, text_key,
}
use app_cortex_stt.Retention.{text_le}
use app_cortex_stt.Variants.{VariantKey, parse, as_key, variant_dec}
use app_cortex_stt.Downloads.{DownloadPhase, DownloadProgress, is_terminal}
use app_cortex_stt.Downloads.Manager.{Board, board_get}

abbrev pub quant_eq : Option Text → Option Text → Bool
quant_eq none none = true
quant_eq none (some t) = false
quant_eq (some s) none = false
quant_eq (some s) (some t) = text_eq s t

unfoldable pub find : {A : Type 0} → (A → Bool) → List A → Option A
find p [] = none
find p (x ∷ xs) = let rest = find p xs in if p x then some x else rest

abbrev pub to_lower : ℕ → ℕ
to_lower c = if leb b'A' c && leb c b'Z' then c + 32 else c

-- `eq_ignore_ascii_case`.
unfoldable pub same_ignoring_case : Text → Text → Bool
same_ignoring_case [] [] = true
same_ignoring_case [] (d ∷ t) = false
same_ignoring_case (c ∷ s) [] = false
same_ignoring_case (c ∷ s) (d ∷ t) =
    let rest = same_ignoring_case s t in text_eq (to_lower c ∷ []) (to_lower d ∷ []) && rest

pub record QuantFile : Type 0 where
  pub quant : Text
  pub filename : Text
  pub sha256 : Text
  pub size_bytes : ℕ

pub record CatalogModel : Type 0 where
  pub id : Text
  pub quants : List QuantFile
  pub default_quant : Text

abbrev pub quant_of : CatalogModel → Text → Option QuantFile
quant_of m name = find (λ q. text_eq q.quant name) m.quants

pub record InstalledVariant : Type 0 where
  pub key : VariantKey
  pub path : Text
  pub file_bytes : ℕ
  pub sha256 : Option Text
  pub installed_at : ℕ

-- The installed Variants of one model.
unfoldable pub of_model : List InstalledVariant → Text → List InstalledVariant
of_model installed id = filter (λ v. text_eq v.key.model id) installed

pub data Resolution : Type 0 where
  found : InstalledVariant → Resolution
  model_not_found : Resolution
  variant_not_installed : Text → Resolution
  variant_required : List Text → Resolution

abbrev pub has_quant : Text → InstalledVariant → Bool
has_quant q v = quant_eq v.key.quant (some q)

-- The one Variant that a bare id may name.
unfoldable pub only_of : List InstalledVariant → Resolution
unfolding as_key
only_of [] = model_not_found
only_of (v ∷ []) = found v
only_of (v ∷ w ∷ vs) = variant_required (map (λ u. as_key u.key) (v ∷ w ∷ vs))

unfoldable pub resolve_in : Option Text → List InstalledVariant → Resolution
unfolding only_of find
resolve_in quant [] = model_not_found
resolve_in none (v ∷ vs) = only_of (v ∷ vs)
resolve_in (some q) (v ∷ vs) = elim (find (has_quant q) (v ∷ vs)) [
  | some w ↦ found w
  | none ↦ variant_not_installed q
]

unfoldable pub resolve_variant : List InstalledVariant → Text → Resolution
unfolding resolve_in of_model parse
resolve_variant installed name =
    let key = parse name in resolve_in key.quant (of_model installed key.model)

pub data Deletion : Type 0 where
  deleted : Deletion
  download_in_progress : Deletion
  not_installed : Deletion

abbrev pub is_variant : VariantKey → InstalledVariant → Bool
is_variant key v = ite (variant_dec v.key key) true false

-- Takes the first entry that passes a test off the list.
unfoldable pub drop_first : {A : Type 0} → (A → Bool) → List A → List A
drop_first p [] = []
drop_first p (x ∷ xs) = let rest = drop_first p xs in if p x then xs else x ∷ rest

-- The files of the first Variant of this key are removed, unless a download of it is under way.
unfoldable pub delete_variant :
    Board → List InstalledVariant → VariantKey → List InstalledVariant × Deletion
unfolding board_get is_terminal find drop_first
delete_variant board installed key =
    let busy : Bool = elim (board_get board key) [
      | none ↦ false
      | some p ↦ not (is_terminal p.status)
    ] in
    if busy then (installed, download_in_progress) else elim (find (is_variant key) installed) [
      | none ↦ (installed, not_installed)
      | some v ↦ (drop_first (is_variant key) installed, deleted)
    ]

module _ (catalog : List CatalogModel) where
  unfoldable pub find_model : Text → Option CatalogModel
  unfolding find
  find_model id = find (λ m. text_eq m.id id) catalog

  -- The catalog's entry for a Variant.
  unfoldable pub pinned : VariantKey → Option QuantFile
  unfolding find_model
  pinned key = elim key.quant [
    | none ↦ none
    | some q ↦ elim (find_model key.model) [ none ↦ none | some m ↦ quant_of m q ]
  ]

  unfoldable pub is_retired : InstalledVariant → Bool
  unfolding pinned
  is_retired v = is_some v.key.quant && is_none (pinned v.key)

  unfoldable pub update_available : InstalledVariant → Bool
  unfolding pinned same_ignoring_case
  update_available v = elim (pinned v.key) [
    | none ↦ false
    | some q ↦ elim v.sha256 [ none ↦ false | some sha ↦ not (same_ignoring_case sha q.sha256) ]
  ]
