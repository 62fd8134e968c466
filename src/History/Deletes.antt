-- ===== src/History/Deletes.antt =====
-- What `delete_many` deletes (history/mod.rs).
use app_cortex_stt.Common.{
  ◌≡◌, refl, ap, ◌∙◌, true, ◌&&◌, List, [], ◌∷◌, none, Text, KeyMap, lookup, retain, text_key,
  arith, if◌then◌else◌, Option-cases, inl, inr, UniqueKeys, retain-UniqueKeys, lookup_of_retain,
  lookup-retain, lookup-retain-none,
}
use app_cortex_stt.History.{
  Row, History, Io, all_audio_paths, delete_many, listed, delete_rows, remove_files,
}
use app_cortex_stt.History.Files.{is_safe_row}
use app_cortex_stt.History.Paired.{lookup-delete_rows}

module _ {F : Type 0} where
  lookup-chosen :
      (s : History F) (ids : List Text) (id : Text)
      → UniqueKeys s.rows
      → lookup id (retain (λ j row. listed ids j) s.rows)
        ≡ (if listed ids id then lookup id s.rows else none)
  lookup-chosen s ids id u = elim (Option-cases (lookup id s.rows)) [
    | inl absent ↦
        ground (arith, absent, lookup-retain-none (λ j row. listed ids j) id s.rows absent)
    | inr (row, e) ↦ ground (arith, e, lookup-retain (λ j row. listed ids j) id s.rows row u e)
  ]

  abbrev chosen : History F → List Text → KeyMap Text (Row F)
  chosen s ids = retain (λ j row. listed ids j) s.rows

  rows-delete_many :
      (sys : Io) (s : History F) (first : Text) (rest : List Text)
      → sys.reads ≡ true
      → sys.writes ≡ true
      → (delete_many sys (first ∷ rest) s).0.rows
        ≡ delete_rows
            (remove_files sys (all_audio_paths (chosen s (first ∷ rest))) s.files).0
            s.rows
  unfolding delete_many
  rows-delete_many sys s first rest r w = ground (arith, r, w)

  -- A batch deletion, where the database works, deletes exactly the rows that are asked for and
  -- whose files are missing or can be removed: the row of a file that stays is kept for the next
  -- attempt, and no other row changes.
  pub lookup-delete_many :
      (sys : Io) (s : History F) (ids : List Text) (id : Text)
      → UniqueKeys s.rows
      → sys.reads ≡ true
      → sys.writes ≡ true
      → lookup id (delete_many sys ids s).0.rows ≡ (
          if listed ids id && is_safe_row sys s.files (lookup id s.rows)
          then none
          else lookup id s.rows)
  lookup-delete_many sys s [] id u r w = nothing
    where
      nothing : lookup id (delete_many sys [] s).0.rows ≡ (
          if listed [] id && is_safe_row sys s.files (lookup id s.rows)
          then none
          else lookup id s.rows)
      nothing = unfold delete_many listed in refl
  lookup-delete_many sys s (first ∷ rest) id u r w =
      ap (lookup id) (rows-delete_many sys s first rest r w)
      ∙ elim (Option-cases (lookup id s.rows)) [
        | inl absent ↦ ground (arith, absent, gone absent)
        | inr (row, e) ↦ ground (
          arith,
          e,
          lookup-delete_rows sys s.rows (chosen s (first ∷ rest)) s.files
              (retain-UniqueKeys _ s.rows u) (λ j v h. (lookup_of_retain _ j s.rows u h).0) id row u
              e,
          lookup-chosen s (first ∷ rest) id u,
        )
      ]
    where
      gone :
          lookup id s.rows ≡ none
          → lookup id (
              delete_rows
                (remove_files sys (all_audio_paths (chosen s (first ∷ rest))) s.files).0
                s.rows)
            ≡ none
      gone absent = unfold delete_rows in lookup-retain-none _ id s.rows absent
