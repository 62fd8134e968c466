-- ===== src/History/Files.antt =====
-- What `remove_files` does (history/mod.rs): which files go and which ids are safe.
use app_cortex_stt.Common.{
  ℕ, ◌≡◌, refl, ap, ◌∙◌, Bool, true, false, ◌&&◌, ◌||◌, List, [], ◌∷◌, Option, none, some, Text,
  KeyMap, lookup, any, is_none, text_key, text_eq, text_eq-true, text_eq_refl, arith, if◌then◌else◌,
  Bool-cases, inl, inr, lookup_head, lookup_tail, UniqueKeys, lookup-remove_self, lookup-remove_ne,
}
use app_cortex_stt.Errors.{is_ok}
use app_cortex_stt.History.{Row, Io, try_remove_audio, remove_files, listed, all_audio_paths}

-- A file that is missing, or that can be removed.
abbrev pub is_clear : Io → KeyMap Text ℕ → Text → Bool
is_clear sys files name = is_none (lookup name files) || sys.removes name

abbrev pub is_safe : Io → KeyMap Text ℕ → Option Text → Bool
is_safe sys files none = true
is_safe sys files (some name) = is_clear sys files name

abbrev pub names : Option Text → Text → Bool
names none f = false
names (some name) f = text_eq name f

abbrev pub named : List (Text × Option Text) → Text → Bool
named pairs f = any (λ p. names p.1 f) pairs

-- A removal that does not fail leaves no file of that name, and the others alone.
pub lookup-try_remove_audio :
    (sys : Io) (name f : Text) (files : KeyMap Text ℕ)
    → lookup f (try_remove_audio sys name files).1
      ≡ (if text_eq name f && sys.removes name then none else lookup f files)
unfolding try_remove_audio
lookup-try_remove_audio sys name f files = elim (text_key.dec_eq name f) [
  | yes e ↦ ground (arith, e, lookup-remove_self f files)
  | no d ↦ ground (arith, d, lookup-remove_ne name f files d)
]

pub is_ok-try_remove_audio :
    (sys : Io) (name : Text) (files : KeyMap Text ℕ)
    → is_ok (try_remove_audio sys name files).0 ≡ is_clear sys files name
unfolding try_remove_audio
is_ok-try_remove_audio sys name files = ground arith

is_safe-try_remove_audio :
    (sys : Io) (name : Text) (files : KeyMap Text ℕ) (path : Option Text)
    → is_safe sys (try_remove_audio sys name files).1 path ≡ is_safe sys files path
is_safe-try_remove_audio sys name files none = refl
is_safe-try_remove_audio sys name files (some f) = elim (text_key.dec_eq name f) [
  | yes e ↦ ground (arith, e, lookup-try_remove_audio sys name f files)
  | no d ↦ ground (arith, d, lookup-try_remove_audio sys name f files)
]

-- The files once that of a path is gone, where it can be removed.
abbrev pub after : Io → Option Text → KeyMap Text ℕ → KeyMap Text ℕ
after sys none files = files
after sys (some name) files = (try_remove_audio sys name files).1

pub lookup-after :
    (sys : Io) (path : Option Text) (f : Text) (files : KeyMap Text ℕ)
    → lookup f (after sys path files)
      ≡ (if names path f && sys.removes f then none else lookup f files)
lookup-after sys none f files = refl
lookup-after sys (some name) f files = elim (text_key.dec_eq name f) [
  | yes e ↦ ground (arith, lookup-try_remove_audio sys name f files, e, ap sys.removes e)
  | no d ↦ ground (arith, lookup-try_remove_audio sys name f files, d)
]

pub is_safe-after :
    (sys : Io) (path p : Option Text) (files : KeyMap Text ℕ)
    → is_safe sys (after sys path files) p ≡ is_safe sys files p
is_safe-after sys none p files = refl
is_safe-after sys (some name) p files = is_safe-try_remove_audio sys name files p

pub listed_step :
    (sys : Io) (k : Text) (path : Option Text) (pairs : List (Text × Option Text))
    (files : KeyMap Text ℕ) (id : Text)
    → listed (remove_files sys ((k, path) ∷ pairs) files).0 id ≡ (
        (text_eq k id && is_safe sys files path)
        || listed (remove_files sys pairs (after sys path files)).0 id)
unfolding remove_files listed
listed_step sys k none pairs files id = ground arith
listed_step sys k (some name) pairs files id = ground (arith, is_ok-try_remove_audio sys name files)

pub left_step :
    (sys : Io) (k : Text) (path : Option Text) (pairs : List (Text × Option Text))
    (files : KeyMap Text ℕ)
    → (remove_files sys ((k, path) ∷ pairs) files).2
      ≡ (remove_files sys pairs (after sys path files)).2
unfolding remove_files
left_step sys k none pairs files = refl
left_step sys k (some name) pairs files = ground arith

-- A file is left exactly if it was there and no pair names it or it cannot be removed.
pub lookup-remove_files :
    (sys : Io) (pairs : List (Text × Option Text)) (files : KeyMap Text ℕ) (f : Text)
    → lookup f (remove_files sys pairs files).2
      ≡ (if named pairs f && sys.removes f then none else lookup f files)
unfolding remove_files
lookup-remove_files sys [] files f = refl
lookup-remove_files sys ((k, path) ∷ pairs) files f =
    ap (lookup f) (left_step sys k path pairs files)
    ∙ ground (
      arith,
      lookup-remove_files sys pairs (after sys path files) f,
      lookup-after sys path f files,
    )

pub names-true : (path : Option Text) (f : Text) → names path f ≡ true → path ≡ some f
names-true none f h = cc
names-true (some name) f h = ap (λ t. some t) (text_eq-true name f h)

module _ {F : Type 0} where
  abbrev pub is_safe_row : Io → KeyMap Text ℕ → Option (Row F) → Bool
  is_safe_row sys files none = false
  is_safe_row sys files (some row) = is_safe sys files row.audio_path

  is_safe_row-after :
      (sys : Io) (path : Option Text) (files : KeyMap Text ℕ) (row : Option (Row F))
      → is_safe_row sys (after sys path files) row ≡ is_safe_row sys files row
  is_safe_row-after sys path files none = refl
  is_safe_row-after sys path files (some row) = is_safe-after sys path row.audio_path files

  -- The ids that are safe are those of the rows whose files are missing or can be removed.
  pub listed-remove_files :
      (sys : Io) (rows : KeyMap Text (Row F)) (files : KeyMap Text ℕ) (id : Text)
      → UniqueKeys rows
      → listed (remove_files sys (all_audio_paths rows) files).0 id
        ≡ is_safe_row sys files (lookup id rows)
  unfolding all_audio_paths lookup
  listed-remove_files sys [] files id u = nothing
    where
      nothing : listed (remove_files sys [] files).0 id ≡ false
      nothing = unfold remove_files listed in refl
  listed-remove_files sys ((k, row) ∷ rows) files id u =
      listed_step sys k row.audio_path (all_audio_paths rows) files id
      ∙ ap (λ b. (text_eq k id && is_safe sys files row.audio_path) || b)
          (listed-remove_files sys rows (after sys row.audio_path files) id u.1
            ∙ is_safe_row-after sys row.audio_path files (lookup id rows))
      ∙ elim (text_key.dec_eq k id) [
        | yes e ↦ ground (arith, e, u.0, ap (λ j. lookup j rows) e)
        | no d ↦ ground (arith, d)
      ]

  -- A row's file is named by the pairs of its table.
  pub named_of_lookup :
      (rows : KeyMap Text (Row F)) (id : Text) (row : Row F) (f : Text)
      → lookup id rows ≡ some row
      → row.audio_path ≡ some f
      → named (all_audio_paths rows) f ≡ true
  unfolding all_audio_paths lookup
  named_of_lookup [] id row f h p = cc
  named_of_lookup ((k, r) ∷ rows) id row f h p = elim (text_key.dec_eq k id) [
    | yes e ↦ ground (arith, e, h, p, text_eq_refl f, ap (λ (x : Row F). x.audio_path))
    | no d ↦ ground (arith, d, named_of_lookup rows id row f, p)
  ]

  -- And what they name is some row's file.
  pub lookup_of_named :
      (rows : KeyMap Text (Row F)) (f : Text)
      → UniqueKeys rows
      → named (all_audio_paths rows) f ≡ true
      → (id : Text) × (row : Row F) × (lookup id rows ≡ some row) × (row.audio_path ≡ some f)
  unfolding all_audio_paths lookup
  lookup_of_named [] f u h = cc
  lookup_of_named ((k, r) ∷ rows) f u h = elim (Bool-cases (names r.audio_path f)) [
    | inl own ↦ (k, r, lookup_head k r rows, names-true r.audio_path f own)
    | inr other ↦
        let (id, row, e, p) = lookup_of_named rows f u.1 (ground (arith, h, other)) in
        (
          id,
          row,
          lookup_tail k id r rows (λ same. cc (u.0, e, ap (λ j. lookup j rows) same)) ∙ e,
          p,
        )
  ]
