-- ===== src/History/Paths.antt =====
-- Which rows forget their files in `drop_audios` (history/mod.rs, and `null_audio_paths` of
-- history/store.rs).
use app_cortex_stt.Common.{
  ℕ, ◌≡◌, refl, sym, ap, ◌∙◌, Bool, false, ◌&&◌, ◌||◌, List, [], ◌∷◌, Option, none, some, Text,
  KeyMap, lookup, is_some, text_key, text_eq, arith, if◌then◌else◌, UniqueKeys,
}
use app_cortex_stt.History.{
  Row, Io, remove_files, listed, all_audio_paths, with_audio, null_audio_paths, forget_path,
}
use app_cortex_stt.History.Files.{is_safe, after, is_safe-after, listed_step, left_step}

pub remove_files-with_audio :
    (sys : Io) (pairs : List (Text × Option Text)) (files : KeyMap Text ℕ)
    → (remove_files sys (with_audio pairs) files).2 ≡ (remove_files sys pairs files).2
unfolding with_audio
remove_files-with_audio sys [] files = refl
remove_files-with_audio sys ((k, none) ∷ pairs) files =
    remove_files-with_audio sys pairs files ∙ sym (left_step sys k none pairs files)
remove_files-with_audio sys ((k, some name) ∷ pairs) files =
    left_step sys k (some name) (with_audio pairs) files
    ∙ remove_files-with_audio sys pairs (after sys (some name) files)
    ∙ sym (left_step sys k (some name) pairs files)

listed-with_audio :
    (sys : Io) (k : Text) (path : Option Text) (pairs : List (Text × Option Text))
    (files : KeyMap Text ℕ) (id : Text)
    → listed (remove_files sys (with_audio ((k, path) ∷ pairs)) files).0 id ≡ (
        (text_eq k id && (is_some path && is_safe sys files path))
        || listed (remove_files sys (with_audio pairs) (after sys path files)).0 id)
unfolding with_audio
listed-with_audio sys k none pairs files id = ground arith
listed-with_audio sys k (some name) pairs files id =
    listed_step sys k (some name) (with_audio pairs) files id

module _ {F : Type 0} where
  -- A row whose file was removed, or was missing.
  abbrev pub is_gone_row : Io → KeyMap Text ℕ → Option (Row F) → Bool
  is_gone_row sys files none = false
  is_gone_row sys files (some row) = is_some row.audio_path && is_safe sys files row.audio_path

  is_gone_row-after :
      (sys : Io) (path : Option Text) (files : KeyMap Text ℕ) (row : Option (Row F))
      → is_gone_row sys (after sys path files) row ≡ is_gone_row sys files row
  is_gone_row-after sys path files none = refl
  is_gone_row-after sys path files (some row) =
      ap (λ b. is_some row.audio_path && b) (is_safe-after sys path row.audio_path files)

  -- The rows whose paths are forgotten are those with a file that is missing or can be removed.
  pub listed-gone :
      (sys : Io) (rows : KeyMap Text (Row F)) (files : KeyMap Text ℕ) (id : Text)
      → UniqueKeys rows
      → listed (remove_files sys (with_audio (all_audio_paths rows)) files).0 id
        ≡ is_gone_row sys files (lookup id rows)
  unfolding all_audio_paths lookup
  listed-gone sys [] files id u = nothing
    where
      nothing : listed (remove_files sys (with_audio []) files).0 id ≡ false
      nothing = unfold remove_files listed with_audio in refl
  listed-gone sys ((k, row) ∷ rows) files id u =
      listed-with_audio sys k row.audio_path (all_audio_paths rows) files id
      ∙ ap
          (λ b. (text_eq k id && (is_some row.audio_path && is_safe sys files row.audio_path)) || b)
          (listed-gone sys rows (after sys row.audio_path files) id u.1
            ∙ is_gone_row-after sys row.audio_path files (lookup id rows))
      ∙ elim (text_key.dec_eq k id) [
        | yes e ↦ ground (arith, e, u.0, ap (λ j. lookup j rows) e)
        | no d ↦ ground (arith, d)
      ]

  abbrev pub forget_if : Bool → Option (Row F) → Option (Row F)
  forget_if b none = none
  forget_if b (some row) = some (if b && is_some row.audio_path then forget_path row else row)

  pub lookup-null_audio_paths :
      (ids : List Text) (rows : KeyMap Text (Row F)) (id : Text)
      → lookup id (null_audio_paths ids rows).0 ≡ forget_if (listed ids id) (lookup id rows)
  unfolding null_audio_paths lookup
  lookup-null_audio_paths ids [] id = refl
  lookup-null_audio_paths ids ((k, row) ∷ rows) id = elim (text_key.dec_eq k id) [
    | yes e ↦ ground (arith, e, ap (listed ids) e)
    | no d ↦ ground (arith, d, lookup-null_audio_paths ids rows id)
  ]

  pub null_audio_paths-UniqueKeys :
      (ids : List Text) (rows : KeyMap Text (Row F))
      → UniqueKeys rows
      → UniqueKeys (null_audio_paths ids rows).0
  unfolding null_audio_paths
  null_audio_paths-UniqueKeys ids [] u = tt
  null_audio_paths-UniqueKeys ids ((k, row) ∷ rows) u =
      ground
        (arith, u.0, lookup-null_audio_paths ids rows k, null_audio_paths-UniqueKeys ids rows u.1)
