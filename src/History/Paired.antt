-- ===== src/History/Paired.antt =====
-- The pairing of rows and audio files (history/mod.rs): no file without a row, no row that names a
-- file that is gone.
use mathlib.Core.List.{append_cancel_right}
use app_cortex_stt.Common.{
  ℕ, ◌≡◌, refl, sym, ap, ◌∙◌, true, false, ◌&&◌, not, List, [], ◌∷◌, Option, none, some, Text,
  KeyMap, lookup, is_some, text_key, arith, if◌then◌else◌, Bool-cases, Option-cases, inl, inr,
  UniqueKeys, lookup-retain, lookup_of_retain,
}
use app_cortex_stt.History.{
  Row, Io, remove_files, listed, all_audio_paths, delete_rows, wav_name, null_audio_paths,
  with_audio,
}
use app_cortex_stt.History.Paths.{is_gone_row, listed-gone, forget_if, lookup-null_audio_paths}
use app_cortex_stt.History.Files.{
  is_safe_row, named, lookup-remove_files, listed-remove_files, named_of_lookup, lookup_of_named,
}

module _ {F : Type 0} where
  -- Some row names the file.
  abbrev pub Owner : KeyMap Text (Row F) → Text → Type 0
  Owner rows f =
      (id : Text) × (row : Row F) × (lookup id rows ≡ some row) × (row.audio_path ≡ some f)

  abbrev pub Owned : KeyMap Text (Row F) → KeyMap Text ℕ → Type 0
  Owned rows files = (f : Text) (size : ℕ) → lookup f files ≡ some size → Owner rows f

  -- A row that names a file has it, and the name is the row's own.
  abbrev pub Claims : KeyMap Text (Row F) → KeyMap Text ℕ → Type 0
  Claims rows files =
      (id : Text) (row : Row F) (f : Text)
      → lookup id rows ≡ some row
      → row.audio_path ≡ some f
      → is_some (lookup f files) ≡ true

  abbrev pub OwnNames : KeyMap Text (Row F) → Type 0
  OwnNames rows =
      (id : Text) (row : Row F) (f : Text)
      → lookup id rows ≡ some row
      → row.audio_path ≡ some f
      → f ≡ wav_name id

pub wav_name-injective : (a b : Text) → wav_name a ≡ wav_name b → a ≡ b
wav_name-injective a b e = append_cancel_right a b (b'.' ∷ b'w' ∷ b'a' ∷ b'v' ∷ []) e

-- The removal of the files of `selected`, which are rows of the table.
module _ {F : Type 0} (sys : Io) (rows selected : KeyMap Text (Row F)) (files : KeyMap Text ℕ)
    (unique : UniqueKeys selected)
    (sub : (id : Text) (row : Row F)
      → lookup id selected ≡ some row
      → lookup id rows ≡ some row) where
  abbrev left : KeyMap Text ℕ
  left = (remove_files sys (all_audio_paths selected) files).2

  -- The row of a file that is left is not safe to forget.
  pub not_safe_of_left :
      (id : Text) (row : Row F) (f : Text) (size : ℕ)
      → lookup id rows ≡ some row
      → row.audio_path ≡ some f
      → lookup f left ≡ some size
      → is_safe_row sys files (lookup id selected) ≡ false
  not_safe_of_left id row f size e p there = elim (Option-cases (lookup id selected)) [
    | inl other ↦ rw other refl
    | inr (row', e') ↦ ground (
      arith,
      lookup-remove_files sys (all_audio_paths selected) files f,
      named_of_lookup selected id row' f e',
      sub id row' e',
      e,
      p,
      there,
      e',
    )
  ]

  abbrev safe : List Text
  safe = (remove_files sys (all_audio_paths selected) files).0

  pub lookup-delete_rows :
      (id : Text) (row : Row F)
      → UniqueKeys rows
      → lookup id rows ≡ some row
      → lookup id (delete_rows safe rows)
        ≡ (if is_safe_row sys files (lookup id selected) then none else some row)
  unfolding delete_rows
  lookup-delete_rows id row u e =
      lookup-retain (λ j r. not (listed safe j)) id rows row u e
      ∙ ground (arith, listed-remove_files sys selected files id unique)

  pub deleted-Owned : UniqueKeys rows → Owned rows files → Owned (delete_rows safe rows) left
  deleted-Owned u owned f size there =
      let was : lookup f files ≡ some size =
        ground (arith, lookup-remove_files sys (all_audio_paths selected) files f, there) in
      let (id, row, e, p) = owned f size was in
      (
        id,
        row,
        lookup-delete_rows id row u e ∙ rw (not_safe_of_left id row f size e p there) refl,
        p,
      )

  -- A row that is left was in the table, and is not safe to forget.
  pub lookup_of_deleted :
      (id : Text) (row : Row F)
      → UniqueKeys rows
      → lookup id (delete_rows safe rows) ≡ some row
      → (lookup id rows ≡ some row) × (is_safe_row sys files (lookup id selected) ≡ false)
  unfolding delete_rows
  lookup_of_deleted id row u e =
      let (was, kept) = lookup_of_retain (λ j r. not (listed safe j)) id rows u e in
      (was, ground (arith, listed-remove_files sys selected files id unique, kept))

  -- The file of a row that is left, if its name is its own.
  pub left_of_not_safe :
      (id : Text) (row : Row F) (f : Text)
      → OwnNames rows
      → Claims rows files
      → lookup id rows ≡ some row
      → row.audio_path ≡ some f
      → is_safe_row sys files (lookup id selected) ≡ false
      → is_some (lookup f left) ≡ true
  left_of_not_safe id row f own claims e p unsafe =
      elim (Bool-cases (named (all_audio_paths selected) f && sys.removes f)) [
        | inr stays ↦ ground (
          arith,
          lookup-remove_files sys (all_audio_paths selected) files f,
          stays,
          claims id row f e p,
        )
        | inl goes ↦
            let (id', row', e', p') = lookup_of_named selected f unique (ground (arith, goes)) in
            let same : id' ≡ id =
              wav_name-injective id' id
                (sym (own id' row' f (sub id' row' e') p') ∙ own id row f e p) in
            ground (arith, ap (λ j. lookup j selected) same, e', p', unsafe, goes)
      ]

  -- What a table keeps when the paths of the safe rows are forgotten.
  abbrev gone : List Text
  gone = (remove_files sys (with_audio (all_audio_paths selected)) files).0

  lookup-dropped :
      (id : Text)
      → lookup id (null_audio_paths gone rows).0
        ≡ forget_if (is_gone_row sys files (lookup id selected)) (lookup id rows)
  lookup-dropped id =
      lookup-null_audio_paths gone rows id
      ∙ ap (λ b. forget_if b (lookup id rows)) (listed-gone sys selected files id unique)

  not_gone_of_not_safe :
      (row : Option (Row F)) → is_safe_row sys files row ≡ false → is_gone_row sys files row ≡ false
  not_gone_of_not_safe none h = refl
  not_gone_of_not_safe (some row) h = ground (arith, h)

  pub dropped-Owned : Owned rows files → Owned (null_audio_paths gone rows).0 left
  dropped-Owned owned f size there =
      let was : lookup f files ≡ some size =
        ground (arith, lookup-remove_files sys (all_audio_paths selected) files f, there) in
      let (id, row, e, p) = owned f size was in
      let stays = not_gone_of_not_safe _ (not_safe_of_left id row f size e p there) in
      (id, row, lookup-dropped id ∙ rw (stays, e) refl, p)

  not_safe_of_not_gone :
      (chosen : Option (Row F)) (row : Row F) (f : Text)
      → ((r : Row F) → chosen ≡ some r → r ≡ row)
      → row.audio_path ≡ some f
      → is_gone_row sys files chosen ≡ false
      → is_safe_row sys files chosen ≡ false
  not_safe_of_not_gone none row f h p stays = refl
  not_safe_of_not_gone (some r) row f h p stays = ground (arith, h r refl, p, stays)

  -- A row that still names a file was in the table, and its file is not safe to forget.
  pub lookup_of_dropped :
      (id : Text) (row : Row F) (f : Text)
      → lookup id (null_audio_paths gone rows).0 ≡ some row
      → row.audio_path ≡ some f
      → (lookup id rows ≡ some row) × (is_safe_row sys files (lookup id selected) ≡ false)
  lookup_of_dropped id row f e p = elim (Option-cases (lookup id rows)) [
    | inl absent ↦ ground (arith, lookup-dropped id, absent, e)
    | inr (was, held) ↦
        let same : was ≡ row = ground (arith, lookup-dropped id, held, e, p) in
        let stays : is_gone_row sys files (lookup id selected) ≡ false =
          ground (arith, lookup-dropped id, held, e, p) in
        (
          held ∙ ap (λ r. some r) same,
          not_safe_of_not_gone (lookup id selected) row f (λ r h. cc (sub id r h, held, same)) p
              stays,
        )
  ]
