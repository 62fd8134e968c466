-- ===== src/History/Batch.antt =====
-- The deletion and the dropping of many files (history/mod.rs), and what every history has.
use app_cortex_stt.Common.{
  is_empty, ℕ, ◌≡◌, Bool, true, false, ◌||◌, List, Option, some, Text, KeyMap, lookup, text_key,
  arith, Bool-cases, inl, inr, UniqueKeys, retain-UniqueKeys,
}
use app_cortex_stt.History.{
  Row, History, Io, remove_files, all_audio_paths, delete_rows, delete_pairs, null_audio_paths,
  with_audio, drop_pairs,
}
use app_cortex_stt.History.Files.{is_safe_row, lookup-remove_files}
use app_cortex_stt.History.Paths.{remove_files-with_audio, null_audio_paths-UniqueKeys}
use app_cortex_stt.History.Paired.{
  Owned, Claims, OwnNames, left_of_not_safe, deleted-Owned, lookup_of_deleted, dropped-Owned,
  lookup_of_dropped,
}

-- What every history has; `strict` says that no statement failed.
pub record Inv {F : Type 0} (strict : Bool) (s : History F) : Type 0 where
  pub unique : UniqueKeys s.rows
  pub owned : Owned s.rows s.files
  pub own : OwnNames s.rows
  pub claims : strict ≡ true → Claims s.rows s.files

module _ {F : Type 0} (sys : Io) (strict : Bool) where
  -- The rows stay and only a file may have gone.
  pub files_only :
      (s : History F) (files : KeyMap Text ℕ)
      → ((f : Text) (n : ℕ) → lookup f files ≡ some n → lookup f s.files ≡ some n)
      → (strict ≡ true → Claims s.rows files)
      → Inv strict s
      → Inv strict (record s { files = files })
  files_only s files fewer claims i = record {
    unique = i.unique;
    owned = λ f n h. i.owned f n (fewer f n h);
    own = i.own;
    claims = claims;
  }

  pub delete_pairs-Inv :
      (s : History F) (selected : KeyMap Text (Row F))
      → UniqueKeys selected
      → ((id : Text) (row : Row F) → lookup id selected ≡ some row → lookup id s.rows ≡ some row)
      → (strict ≡ true → sys.writes ≡ true)
      → Inv strict s
      → Inv strict (delete_pairs sys (all_audio_paths selected) s).0
  unfolding delete_pairs
  delete_pairs-Inv s selected u sub w i =
      elim (Bool-cases (sys.writes || is_empty (remove_files sys pairs s.files).0)) [
        | inl done ↦
            rw (done, delete_pairs)
              (record {
                unique = retain-UniqueKeys _ s.rows i.unique;
                owned = deleted-Owned sys s.rows selected s.files u sub i.unique i.owned;
                own = λ id row f e p. i.own id row f (kept id row e).0 p;
                claims = λ st id row f e p.
                    left_of_not_safe sys s.rows selected s.files u sub id row f i.own (i.claims st)
                      (kept id row e).0 p (kept id row e).1;
              })
        | inr failed ↦
            rw (failed, delete_pairs)
              (files_only s (remove_files sys pairs s.files).2 fewer
                (λ st. ground (arith, w st, failed)) i)
      ]
    where
      pairs : List (Text × Option Text)
      pairs = all_audio_paths selected

      kept :
          (id : Text) (row : Row F)
          → lookup id (delete_rows (remove_files sys pairs s.files).0 s.rows) ≡ some row
          → (lookup id s.rows ≡ some row) × (is_safe_row sys s.files (lookup id selected) ≡ false)
      kept id row e = lookup_of_deleted sys s.rows selected s.files u sub id row i.unique e

      fewer :
          (f : Text) (n : ℕ)
          → lookup f (remove_files sys pairs s.files).2 ≡ some n
          → lookup f s.files ≡ some n
      fewer f n h = ground (arith, lookup-remove_files sys pairs s.files f, h)

  pub drop_pairs-Inv :
      (s : History F) (selected : KeyMap Text (Row F))
      → UniqueKeys selected
      → ((id : Text) (row : Row F) → lookup id selected ≡ some row → lookup id s.rows ≡ some row)
      → (strict ≡ true → sys.writes ≡ true)
      → Inv strict s
      → Inv strict (drop_pairs sys (all_audio_paths selected) s).0
  unfolding drop_pairs
  drop_pairs-Inv s selected u sub w i =
      elim (Bool-cases (sys.writes || is_empty (remove_files sys (with_audio pairs) s.files).0)) [
        | inl done ↦
            rw (done, drop_pairs, same_files)
              (record {
                unique = null_audio_paths-UniqueKeys _ s.rows i.unique;
                owned = dropped-Owned sys s.rows selected s.files u sub i.owned;
                own = λ id row f e p. i.own id row f (kept id row f e p).0 p;
                claims = λ st id row f e p.
                    left_of_not_safe sys s.rows selected s.files u sub id row f i.own (i.claims st)
                      (kept id row f e p).0 p (kept id row f e p).1;
              })
        | inr failed ↦
            rw (failed, drop_pairs, same_files)
              (files_only s (remove_files sys pairs s.files).2 fewer
                (λ st. ground (arith, w st, failed)) i)
      ]
    where
      pairs : List (Text × Option Text)
      pairs = all_audio_paths selected

      same_files :
          (remove_files sys (with_audio pairs) s.files).2 ≡ (remove_files sys pairs s.files).2
      same_files = remove_files-with_audio sys pairs s.files

      kept :
          (id : Text) (row : Row F) (f : Text)
          → lookup id (null_audio_paths (remove_files sys (with_audio pairs) s.files).0 s.rows).0
            ≡ some row
          → row.audio_path ≡ some f
          → (lookup id s.rows ≡ some row) × (is_safe_row sys s.files (lookup id selected) ≡ false)
      kept id row f e p = lookup_of_dropped sys s.rows selected s.files u sub id row f e p

      fewer :
          (f : Text) (n : ℕ)
          → lookup f (remove_files sys pairs s.files).2 ≡ some n
          → lookup f s.files ≡ some n
      fewer f n h = ground (arith, lookup-remove_files sys pairs s.files f, h)
