-- ===== src/History/Created.antt =====
-- The creation of a record (history/mod.rs, `create`).
use app_cortex_stt.Common.{
  ℕ, suc, ◌≡◌, ◌≢◌, sym, ap, ◌∙◌, Bool, true, false, ◌||◌, Option, none, some, Text, lookup, insert,
  is_some, text_key, arith, ◌⊎◌, inl, inr, insert-UniqueKeys, lookup-insert_self, lookup-insert_ne,
}
use app_cortex_stt.History.{
  Row, CreateRecord, History, Io, Write, written, refused, cut_short, wav_name, create,
}
use app_cortex_stt.History.Files.{after, lookup-after}
use app_cortex_stt.History.Paired.{Owner, wav_name-injective}
use app_cortex_stt.History.Single.{by_test}
use app_cortex_stt.History.Batch.{Inv, files_only}

-- A file that is written whole, or none.
abbrev pub is_whole : Option Write → Bool
is_whole none = true
is_whole (some (written size)) = true
is_whole (some refused) = true
is_whole (some (cut_short size)) = false

-- A record that is created under a new id.
module _ {F : Type 0} (sys : Io) (strict : Bool) (s : History F) (id now : Text)
    (fields : CreateRecord F) (i : Inv strict s) (fresh : lookup id s.rows ≡ none) where
  abbrev row_of : Option Text → Row F
  row_of name = record { timestamp = now; fields = fields; audio_path = name }

  lookup_of_inserted :
      (name : Option Text) (id' : Text) (row : Row F)
      → lookup id' (insert id (row_of name) s.rows) ≡ some row
      → ((id ≡ id') × (row_of name ≡ row)) ⊎ ((id ≢ id') × (lookup id' s.rows ≡ some row))
  lookup_of_inserted name id' row e = elim (text_key.dec_eq id id') [
    | yes same ↦ inl (
      same,
      cc (
        lookup-insert_self id (row_of name) s.rows,
        e,
        ap (λ j. lookup j (insert id (row_of name) s.rows)) same,
      ),
    )
    | no d ↦ inr (d, sym (lookup-insert_ne id id' (row_of name) s.rows d) ∙ e)
  ]

  kept-Owner :
      (name : Option Text) (f : Text) → Owner s.rows f → Owner (insert id (row_of name) s.rows) f
  kept-Owner name f (id', row, e, p) =
      let d : id ≢ id' = λ same. cc (fresh, e, ap (λ j. lookup j s.rows) same) in
      (id', row, lookup-insert_ne id id' (row_of name) s.rows d ∙ e, p)

  without_audio-Inv :
      Inv strict (record {
        rows = insert id (row_of none) s.rows;
        files = s.files;
        notified = suc s.notified;
      })
  without_audio-Inv = record {
    unique = insert-UniqueKeys id (row_of none) s.rows i.unique;
    owned = λ f n h. kept-Owner none f (i.owned f n h);
    own = λ id' row f e p. elim (lookup_of_inserted none id' row e) [
      | inl (same, r) ↦ cc (ap (λ (x : Row F). x.audio_path) r, p)
      | inr (d, was) ↦ i.own id' row f was p
    ];
    claims = λ st id' row f e p. elim (lookup_of_inserted none id' row e) [
      | inl (same, r) ↦ cc (ap (λ (x : Row F). x.audio_path) r, p)
      | inr (d, was) ↦ i.claims st id' row f was p
    ];
  }

  with_audio-Inv :
      (size : ℕ)
      → Inv strict (record {
        rows = insert id (row_of (some (wav_name id))) s.rows;
        files = insert (wav_name id) size s.files;
        notified = suc s.notified;
      })
  with_audio-Inv size = record {
    unique = insert-UniqueKeys id (row_of name) s.rows i.unique;
    owned = λ f n h. elim (text_key.dec_eq (wav_name id) f) [
      | yes same ↦
          (id, row_of name, lookup-insert_self id (row_of name) s.rows, ap (λ t. some t) same)
      | no d ↦
          kept-Owner name f
            (i.owned f n (sym (lookup-insert_ne (wav_name id) f size s.files d) ∙ h))
    ];
    own = λ id' row f e p. elim (lookup_of_inserted name id' row e) [
      | inl (same, r) ↦ ground (arith, ap (λ (x : Row F). x.audio_path) r, p, ap wav_name same)
      | inr (d, was) ↦ i.own id' row f was p
    ];
    claims = λ st id' row f e p. elim (lookup_of_inserted name id' row e) [
      | inl (same, r) ↦ ground (
        arith,
        ap (λ (x : Row F). x.audio_path) r,
        p,
        lookup-insert_self (wav_name id) size s.files,
      )
      | inr (d, was) ↦ ground (
        arith,
        i.claims st id' row f was p,
        i.own id' row f was p,
        lookup-insert_ne (wav_name id) f size s.files
            (λ same. d (wav_name-injective id id' (same ∙ i.own id' row f was p))),
      )
    ];
  }
    where
      name : Option Text
      name = some (wav_name id)

  cleaned :
      (size : ℕ)
      → lookup (wav_name id) s.files ≡ none
      → sys.removes (wav_name id) ≡ true
      → (f : Text)
      → lookup f (after sys (some (wav_name id)) (insert (wav_name id) size s.files))
        ≡ lookup f s.files
  cleaned size new removes f =
      lookup-after sys (some (wav_name id)) f (insert (wav_name id) size s.files)
      ∙ elim (text_key.dec_eq (wav_name id) f) [
        | yes same ↦ ground (arith, same, removes, new, ap (λ t. lookup t s.files) same)
        | no d ↦ ground (arith, d, lookup-insert_ne (wav_name id) f size s.files d)
      ]

  pub create-Inv :
      (audio : Option Write)
      → lookup (wav_name id) s.files ≡ none
      → is_whole audio ≡ true
      → (sys.writes || sys.removes (wav_name id)) ≡ true
      → Inv strict (create sys id now fields audio s).0
  unfolding create
  create-Inv none new whole cleans = by_test sys strict _ _ _ (λ _. without_audio-Inv) (λ _. i)
  create-Inv (some (written size)) new whole cleans =
      by_test sys strict _ _ _ (λ _. with_audio-Inv size)
        (λ failed.
          let gone = cleaned size new (ground (arith, failed, cleans, fresh)) in
          files_only sys strict s _ (λ f n h. sym (gone f) ∙ h)
            (λ st id' row f e p. ap is_some (gone f) ∙ i.claims st id' row f e p) i)
  create-Inv (some refused) new whole cleans =
      by_test sys strict _ _ _ (λ _. without_audio-Inv) (λ _. i)
  create-Inv (some (cut_short size)) new whole cleans = cc
