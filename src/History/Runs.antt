-- ===== src/History/Runs.antt =====
-- The history over any calls (history/mod.rs), with failures of the disk and the database.
use app_cortex_stt.Common.{
  ℕ, ◌≡◌, refl, sym, subst, ◌⊎◌, Bool, true, false, ◌||◌, List, [], ◌∷◌, Option, none, some, Text,
  lookup, retain, text_key, inl, inr, retain-UniqueKeys, lookup_of_retain,
}
use app_cortex_stt.Retention.{RetentionPolicy}
use app_cortex_stt.History.{
  CreateRecord, History, Io, Write, wav_name, create, delete, delete_many, delete_all, drop_audios,
  listed,
}
use app_cortex_stt.History.Sweep.{run_retention_sweep}
use app_cortex_stt.History.Swept.{run_retention_sweep-states}
use app_cortex_stt.History.Batch.{Inv, delete_pairs-Inv, drop_pairs-Inv}
use app_cortex_stt.History.Single.{delete-Inv, by_test}
use app_cortex_stt.History.Created.{create-Inv, is_whole}
use app_cortex_stt.History.Paired.{Owned, Claims}

-- The calls. Ids are new, a WAV file is written whole or not at all, and a failed insertion can
-- remove the file that it wrote; all else may fail. `strict` says that no statement that changes
-- rows fails after a removal.
pub data Step {F : Type 0} (strict : Bool) : History F → History F → Type 0 where
  creates :
      (s : History F) (sys : Io) (id now : Text) (fields : CreateRecord F) (audio : Option Write)
      → lookup id s.rows ≡ none
      → lookup (wav_name id) s.files ≡ none
      → is_whole audio ≡ true
      → (sys.writes || sys.removes (wav_name id)) ≡ true
      → Step strict s (create sys id now fields audio s).0
  deletes :
      (s : History F) (sys : Io) (id : Text)
      → (strict ≡ true → sys.writes ≡ true)
      → Step strict s (delete sys id s).0
  deletes_many :
      (s : History F) (sys : Io) (ids : List Text)
      → (strict ≡ true → sys.writes ≡ true)
      → Step strict s (delete_many sys ids s).0
  deletes_all :
      (s : History F) (sys : Io)
      → (strict ≡ true → sys.writes ≡ true)
      → Step strict s (delete_all sys s).0
  drops :
      (s : History F) (sys : Io) (ids : List Text)
      → (strict ≡ true → sys.writes ≡ true)
      → Step strict s (drop_audios sys ids s).0
  sweeps :
      (s t : History F) (parse_timestamp : List ℕ → Option ℕ) (minus_days : ℕ → ℕ → Option ℕ)
      (now : ℕ) (sys sys' : Io) (record_policy audio_policy : RetentionPolicy) (deleted dropped : ℕ)
      → (strict ≡ true → sys.writes ≡ true)
      → (strict ≡ true → sys'.writes ≡ true)
      → run_retention_sweep parse_timestamp minus_days now sys sys' record_policy audio_policy s
        ≡ some (t, deleted, dropped)
      → Step strict s t

pub data Reach {F : Type 0} (strict : Bool) (s : History F) : History F → Type 0 where
  here : Reach strict s s
  next : {t u : History F} → Reach strict s t → Step strict t u → Reach strict s u

module _ {F : Type 0} where
  abbrev pub new : History F
  new = record { rows = []; files = []; notified = 0 }

  delete_many-Inv :
      (sys : Io) (strict : Bool) (s : History F) (ids : List Text)
      → (strict ≡ true → sys.writes ≡ true)
      → Inv strict s
      → Inv strict (delete_many sys ids s).0
  unfolding delete_many
  delete_many-Inv sys strict s [] w i = i
  delete_many-Inv sys strict s (id ∷ ids) w i =
      by_test sys strict sys.reads _ _
        (λ read.
          delete_pairs-Inv sys strict s (retain (λ j row. listed (id ∷ ids) j) s.rows)
            (retain-UniqueKeys _ s.rows i.unique)
            (λ j row e. (lookup_of_retain _ j s.rows i.unique e).0) w i)
        (λ failed. i)

  delete_all-Inv :
      (sys : Io) (strict : Bool) (s : History F)
      → (strict ≡ true → sys.writes ≡ true)
      → Inv strict s
      → Inv strict (delete_all sys s).0
  unfolding delete_all
  delete_all-Inv sys strict s w i =
      by_test sys strict sys.reads _ _
        (λ read. delete_pairs-Inv sys strict s s.rows i.unique (λ id row e. e) w i) (λ failed. i)

  drop_audios-Inv :
      (sys : Io) (strict : Bool) (s : History F) (ids : List Text)
      → (strict ≡ true → sys.writes ≡ true)
      → Inv strict s
      → Inv strict (drop_audios sys ids s).0
  unfolding drop_audios
  drop_audios-Inv sys strict s [] w i = i
  drop_audios-Inv sys strict s (id ∷ ids) w i =
      by_test sys strict sys.reads _ _
        (λ read.
          drop_pairs-Inv sys strict s (retain (λ j row. listed (id ∷ ids) j) s.rows)
            (retain-UniqueKeys _ s.rows i.unique)
            (λ j row e. (lookup_of_retain _ j s.rows i.unique e).0) w i)
        (λ failed. i)

  Step-Inv : {strict : Bool} {s t : History F} → Step strict s t → Inv strict s → Inv strict t
  Step-Inv {strict} (creates s sys id now fields audio fresh name whole cleans) i =
      create-Inv sys strict s id now fields i fresh audio name whole cleans
  Step-Inv {strict} (deletes s sys id w) i = delete-Inv sys strict s id w i
  Step-Inv {strict} (deletes_many s sys ids w) i = delete_many-Inv sys strict s ids w i
  Step-Inv {strict} (deletes_all s sys w) i = delete_all-Inv sys strict s w i
  Step-Inv {strict} (drops s sys ids w) i = drop_audios-Inv sys strict s ids w i
  Step-Inv {strict} (sweeps s u parse_timestamp minus_days now sys sys' rp policy n m w w' h) i =
      let (t, first, second) =
        run_retention_sweep-states parse_timestamp minus_days now sys sys' rp policy s u n m h in
      second_branch t second (first_branch t first)
    where
      first_branch :
          (t : History F)
          → (t ≡ s) ⊎ ((ids : List Text) × (t ≡ (delete_many sys ids s).0))
          → Inv strict t
      first_branch t (inl e) = subst (Inv strict) (sym e) i
      first_branch t (inr (ids, e)) =
          subst (Inv strict) (sym e) (delete_many-Inv sys strict s ids w i)

      second_branch :
          (t : History F)
          → (u ≡ t) ⊎ ((ids : List Text) × (u ≡ (drop_audios sys' ids t).0))
          → Inv strict t
          → Inv strict u
      second_branch t (inl e) j = subst (Inv strict) (sym e) j
      second_branch t (inr (ids, e)) j =
          subst (Inv strict) (sym e) (drop_audios-Inv sys' strict t ids w' j)

  pub Reach-Inv : {strict : Bool} {s t : History F} → Reach strict s t → Inv strict s → Inv strict t
  Reach-Inv here i = i
  Reach-Inv (next r st) i = Step-Inv st (Reach-Inv r i)

  pub new-Inv : (strict : Bool) → Inv strict new
  unfolding lookup
  new-Inv strict = record {
    unique = tt;
    owned = λ f n h. cc;
    own = λ id row f e p. cc;
    claims = λ st id row f e p. cc;
  }

  -- No orphan: after any calls on a new history, whatever removals, queries and statements
  -- failed, every audio file is named by a row. Ids are new, files are written whole or not at
  -- all, and a failed insertion can remove the file that it wrote.
  pub Reach-Owned : (s : History F) → Reach false new s → Owned s.rows s.files
  Reach-Owned s r = (Reach-Inv r (new-Inv false)).owned

  -- No dangling path: if no statement that changes rows fails after a removal, then after any
  -- calls on a new history every row that names an audio file has it, whatever removals and
  -- queries failed.
  pub Reach-Claims : (s : History F) → Reach true new s → Claims s.rows s.files
  Reach-Claims s r = (Reach-Inv r (new-Inv true)).claims refl
