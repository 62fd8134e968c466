-- ===== src/History/Single.antt =====
-- The deletion of one record (history/mod.rs, `delete`).
use app_cortex_stt.Common.{
  ℕ, ◌≡◌, refl, sym, ap, ◌∙◌, subst, Bool, true, false, Option, none, some, Text, KeyMap, lookup,
  remove, text_key, text_eq_refl, arith, if◌then◌else◌, Bool-cases, Option-cases, inl, inr,
  remove-UniqueKeys, lookup-remove_self, lookup-remove_ne, lookup_of_remove,
}
use app_cortex_stt.Errors.{AsrError, Result, ok, err, is_ok}
use app_cortex_stt.History.{
  Row, History, Io, try_remove_audio, delete, delete_row, delete_with_audio,
}
use app_cortex_stt.History.Files.{
  after, lookup-after, names, names-true, is_safe, is_ok-try_remove_audio,
}
use app_cortex_stt.History.Paired.{Owner, Claims, wav_name-injective}
use app_cortex_stt.History.Batch.{Inv, files_only}

after_fewer :
    (sys : Io) (path : Option Text) (files : KeyMap Text ℕ) (f : Text) (n : ℕ)
    → lookup f (after sys path files) ≡ some n
    → lookup f files ≡ some n
after_fewer sys path files f n h = ground (arith, lookup-after sys path f files, h)

lookup-after_self :
    (sys : Io) (files : KeyMap Text ℕ) (f : Text)
    → is_safe sys files (some f) ≡ true
    → lookup f (after sys (some f) files) ≡ none
lookup-after_self sys files f h =
    ground (arith, lookup-after sys (some f) f files, text_eq_refl f, h)

module _ {F : Type 0} (sys : Io) (strict : Bool) where
  removed-Owner :
      (s : History F) (id : Text) (row : Row F) (f : Text) (n : ℕ)
      → Inv strict s
      → lookup id s.rows ≡ some row
      → is_safe sys s.files row.audio_path ≡ true
      → lookup f (after sys row.audio_path s.files) ≡ some n
      → Owner (remove id s.rows) f
  removed-Owner s id row f n i e safe h =
      let (id', row', e', p) = i.owned f n (after_fewer sys row.audio_path s.files f n h) in
      elim (text_key.dec_eq id id') [
        | no d ↦ (id', row', lookup-remove_ne id id' s.rows d ∙ e', p)
        | yes same ↦ own_row row' (cc (e, e', ap (λ j. lookup j s.rows) same)) p
      ]
    where
      own_row : (row' : Row F) → row ≡ row' → row'.audio_path ≡ some f → Owner (remove id s.rows) f
      own_row row' same p =
          let path : row.audio_path ≡ some f = ap (λ (r : Row F). r.audio_path) same ∙ p in
          cc (
            h,
            ap (λ q. lookup f (after sys q s.files)) path,
            lookup-after_self sys s.files f (sym (ap (is_safe sys s.files) path) ∙ safe),
          )

  removed-Claims :
      (s : History F) (id : Text) (row : Row F)
      → Inv strict s
      → lookup id s.rows ≡ some row
      → strict ≡ true
      → Claims (remove id s.rows) (after sys row.audio_path s.files)
  removed-Claims s id row i e st id' row' f e' p = elim (text_key.dec_eq id id') [
    | yes same ↦ cc (lookup-remove_self id s.rows, e', ap (λ j. lookup j (remove id s.rows)) same)
    | no d ↦ elim (Bool-cases (names row.audio_path f)) [
      | inr other ↦ ground (
        arith,
        lookup-after sys row.audio_path f s.files,
        other,
        i.claims st id' row' f (lookup_of_remove id id' s.rows e') p,
      )
      | inl own ↦ absurd (
          d (
            wav_name-injective id id' (
              sym (i.own id row f e (names-true row.audio_path f own))
              ∙ i.own id' row' f (lookup_of_remove id id' s.rows e') p)))
    ]
  ]

  pub by_test :
      {R : Type 0} (b : Bool) (x y : History F × R)
      → (b ≡ true → Inv strict x.0)
      → (b ≡ false → Inv strict y.0)
      → Inv strict (if b then x else y).0
  by_test true x y h k = h refl
  by_test false x y h k = k refl

  by_outcome :
      {R : Type 0} (outcome : Result (Unit {0})) (x : History F × R) (g : AsrError → History F × R)
      → (is_ok outcome ≡ true → Inv strict x.0)
      → ((e : AsrError) → is_ok outcome ≡ false → Inv strict (g e).0)
      → Inv strict (elim outcome as (λ _. History F × R) [ ok _ ↦ x | err e ↦ g e ]).0
  by_outcome (ok done) x g h k = h refl
  by_outcome (err e) x g h k = k e refl

  delete_row-Inv :
      (s : History F) (id : Text) (row : Row F)
      → (strict ≡ true → sys.writes ≡ true)
      → lookup id s.rows ≡ some row
      → is_safe sys s.files row.audio_path ≡ true
      → Inv strict s
      → Inv strict (delete_row sys id (after sys row.audio_path s.files) s).0
  unfolding delete_row
  delete_row-Inv s id row w e safe i =
      by_test sys.writes _ _
        (λ done. record {
          unique = remove-UniqueKeys id s.rows i.unique;
          owned = λ f n h. removed-Owner s id row f n i e safe h;
          own = λ id' row' f e' p. i.own id' row' f (lookup_of_remove id id' s.rows e') p;
          claims = removed-Claims s id row i e;
        })
        (λ failed.
          files_only sys strict s (after sys row.audio_path s.files)
            (after_fewer sys row.audio_path s.files) (λ st. cc (w st, failed)) i)

  -- A file that cannot be removed keeps its row.
  refused-Inv :
      (s : History F) (id name : Text)
      → is_safe sys s.files (some name) ≡ false
      → Inv strict s
      → Inv strict (record s { files = after sys (some name) s.files })
  refused-Inv s id name unsafe i =
      files_only sys strict s (after sys (some name) s.files) (after_fewer sys (some name) s.files)
        (λ st id row f e p.
          ground (arith, lookup-after sys (some name) f s.files, unsafe, i.claims st id row f e p))
        i

  pub delete-Inv :
      (s : History F) (id : Text)
      → (strict ≡ true → sys.writes ≡ true)
      → Inv strict s
      → Inv strict (delete sys id s).0
  unfolding delete
  delete-Inv s id w i =
      by_test sys.reads _ _
        (λ read. elim (Option-cases (lookup id s.rows)) [
          | inl absent ↦ rw absent i
          | inr (row, e) ↦ rw e (of_path row row.audio_path e refl)
        ])
        (λ failed. i)
    where
      of_path :
          (row : Row F) (path : Option Text)
          → lookup id s.rows ≡ some row
          → row.audio_path ≡ path
          → Inv strict (delete_with_audio sys id path s).0
      of_path row none e p =
          subst (λ q. Inv strict (delete_row sys id (after sys q s.files) s).0) p
            (delete_row-Inv s id row w e (rw p refl) i)
      of_path row (some name) e p =
          by_outcome (try_remove_audio sys name s.files).0
            (delete_row sys id (after sys (some name) s.files) s)
            (λ problem. (record s { files = after sys (some name) s.files }, err problem))
            (λ done.
              subst (λ q. Inv strict (delete_row sys id (after sys q s.files) s).0) p
                (delete_row-Inv s id row w e
                  (ap (is_safe sys s.files) p
                    ∙ sym (is_ok-try_remove_audio sys name s.files)
                    ∙ done)
                  i))
            (λ problem failed.
              refused-Inv s id name (sym (is_ok-try_remove_audio sys name s.files) ∙ failed) i)
