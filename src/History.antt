-- ===== src/History.antt =====
-- The transcription history (cortex-stt/src/history/mod.rs and history/store.rs): rows of a table,
-- each with an optional audio file. The table is its rows in the order of insertion, and a
-- statement does to it what SQL says. `F` stands for the floating-point numbers, which are only
-- stored, and a file is its size in bytes.
mod Files
mod Paths
pub mod Paired
mod Swept
mod Batch
mod Single
mod Created
pub mod Runs
mod Deletes
pub mod Sweep
mod Tests
use app_cortex_stt.Common.{
  is_empty, text_eq, ℕ, suc, ◌+◌, ◌-◌, Bool, true, false, ◌&&◌, ◌||◌, not, List, [], ◌∷◌, ◌++◌, map,
  Option, none, some, Text, KeyMap, lookup, insert, remove, retain, length, any, is_some, is_none,
  text_key, if◌then◌else◌, sort_by,
}
use app_cortex_stt.Errors.{AsrError, database_error, io, record_not_found, Result, ok, err, is_ok}
use app_cortex_stt.Retention.{Candidate, RetentionPolicy, text_le, select_to_delete}

pub data TranscriptionSource : Type 0 where
  http_api : TranscriptionSource
  ws_api : TranscriptionSource

pub record RecordSegment (F : Type 0) : Type 0 where
  pub start : F
  pub end : F
  pub text : Text

pub record CreateRecord (F : Type 0) : Type 0 where
  pub source : TranscriptionSource
  pub language : Option Text
  pub model_id : Text
  pub quant : Option Text
  pub audio_duration_ms : ℕ
  pub inference_ms : ℕ
  pub model_load_ms : ℕ
  pub pool_wait_ms : ℕ
  pub cold_load_ms : ℕ
  pub text : Text
  pub raw_text : Option Text
  pub segments : List (RecordSegment F)
  pub has_error : Bool
  pub error_message : Option Text
  pub api_key_id : Option Text
  pub device : Text
  pub capture_device : Option Text
  pub rms_db : Option F
  pub peak_db : Option F
  pub clip_ratio : Option F

-- A row of the table: the columns of the record, the time of the insertion and the file's name.
pub record Row (F : Type 0) : Type 0 where
  pub timestamp : Text
  pub fields : CreateRecord F
  pub audio_path : Option Text

-- `notified` counts the events of the broadcast channel.
pub record History (F : Type 0) : Type 0 where
  pub rows : KeyMap Text (Row F)
  pub files : KeyMap Text ℕ
  pub notified : ℕ

-- What the file system and the database do during a call: which removals of a file that is there
-- go through, whether a query does, whether a statement that changes rows does, and the text of
-- an error.
pub record Io : Type 0 where
  pub removes : Text → Bool
  pub reads : Bool
  pub writes : Bool
  pub detail : Text

-- What comes of writing a file: a file of some size, nothing, or a file that is cut short.
pub data Write : Type 0 where
  written : ℕ → Write
  refused : Write
  cut_short : ℕ → Write

abbrev pub wav_name : Text → Text
wav_name id = id ++ b'.' ∷ b'w' ∷ b'a' ∷ b'v' ∷ []

-- A file that is missing counts as removed.
unfoldable pub try_remove_audio : Io → Text → KeyMap Text ℕ → Result (Unit {0}) × KeyMap Text ℕ
try_remove_audio sys name files = elim (lookup name files) [
  | none ↦ (ok tt, files)
  | some size ↦
      if sys.removes name then (ok tt, remove name files) else (err (io sys.detail), files)
]

-- The ids whose rows are free of a file, how many had one, and the files that are left.
unfoldable pub remove_files :
    Io → List (Text × Option Text) → KeyMap Text ℕ → List Text × ℕ × KeyMap Text ℕ
unfolding try_remove_audio
remove_files sys [] files = ([], 0, files)
remove_files sys ((id, none) ∷ pairs) files =
    let (safe, removed, left) = remove_files sys pairs files in (id ∷ safe, removed, left)
remove_files sys ((id, some name) ∷ pairs) files =
    let (outcome, files') = try_remove_audio sys name files in
    let (safe, removed, left) = remove_files sys pairs files' in
    if is_ok outcome then (id ∷ safe, suc removed, left) else (safe, removed, left)

-- The pairs that name a file.
unfoldable pub with_audio : List (Text × Option Text) → List (Text × Option Text)
with_audio [] = []
with_audio ((id, none) ∷ pairs) = with_audio pairs
with_audio ((id, some name) ∷ pairs) = (id, some name) ∷ with_audio pairs

unfoldable pub listed : List Text → Text → Bool
listed ids id = any (λ j. text_eq j id) ids

abbrev pub failed : Io → AsrError
failed sys = database_error sys.detail

-- The name for the row, and the files, once the audio is written.
unfoldable pub save_audio : Text → Option Write → KeyMap Text ℕ → Option Text × KeyMap Text ℕ
save_audio id none files = (none, files)
save_audio id (some (written size)) files = (some (wav_name id), insert (wav_name id) size files)
save_audio id (some refused) files = (none, files)
save_audio id (some (cut_short size)) files = (none, insert (wav_name id) size files)

-- What a failed insertion does with the file that it wrote.
unfoldable pub clean_audio : Io → Option Text → KeyMap Text ℕ → KeyMap Text ℕ
unfolding try_remove_audio
clean_audio sys none files = files
clean_audio sys (some name) files = (try_remove_audio sys name files).1

module _ {F : Type 0} where
  unfoldable pub all_audio_paths : KeyMap Text (Row F) → List (Text × Option Text)
  all_audio_paths [] = []
  all_audio_paths ((id, row) ∷ rows) = (id, row.audio_path) ∷ all_audio_paths rows

  unfoldable pub lookup_audio_paths : List Text → KeyMap Text (Row F) → List (Text × Option Text)
  unfolding listed all_audio_paths
  lookup_audio_paths ids rows = all_audio_paths (retain (λ id row. listed ids id) rows)

  unfoldable pub delete_rows : List Text → KeyMap Text (Row F) → KeyMap Text (Row F)
  unfolding listed
  delete_rows ids rows = retain (λ id row. not (listed ids id)) rows

  abbrev pub forget_path : Row F → Row F
  forget_path row = record row { audio_path = none }

  unfoldable pub null_audio_paths : List Text → KeyMap Text (Row F) → KeyMap Text (Row F) × ℕ
  unfolding listed
  null_audio_paths ids [] = ([], 0)
  null_audio_paths ids ((id, row) ∷ rows) =
      let (rows', n) = null_audio_paths ids rows in
      if listed ids id && is_some row.audio_path
      then ((id, forget_path row) ∷ rows', suc n)
      else ((id, row) ∷ rows', n)

  -- `id` is a new random one, `now` the time of the insertion, `audio` what comes of writing the
  -- file. The key of a row is unique in the table.
  unfoldable pub create :
      Io → Text → Text → CreateRecord F → Option Write → History F → History F × Result Text
  unfolding save_audio clean_audio
  create sys id now fields audio s =
      let (name, files) = save_audio id audio s.files in
      let row : Row F = record { timestamp = now; fields = fields; audio_path = name } in
      if sys.writes && is_none (lookup id s.rows)
      then (record { rows = insert id row s.rows; files = files; notified = suc s.notified }, ok id)
      else (record s { files = clean_audio sys name files }, err (failed sys))

  -- The `DELETE` of one row, after its file.
  unfoldable pub delete_row : Io → Text → KeyMap Text ℕ → History F → History F × Result Bool
  delete_row sys id files s =
      if sys.writes
      then (record s { rows = remove id s.rows; files = files }, ok (is_some (lookup id s.rows)))
      else (record s { files = files }, err (failed sys))

  unfoldable pub delete_with_audio : Io → Text → Option Text → History F → History F × Result Bool
  unfolding try_remove_audio delete_row
  delete_with_audio sys id none s = delete_row sys id s.files s
  delete_with_audio sys id (some name) s =
      let (outcome, files) = try_remove_audio sys name s.files in
      elim outcome [
        | ok _ ↦ delete_row sys id files s
        | err e ↦ (record s { files = files }, err e)
      ]

  unfoldable pub delete : Io → Text → History F → History F × Result Bool
  unfolding delete_with_audio
  delete sys id s =
      if sys.reads
      then elim (lookup id s.rows) [
        | none ↦ (s, ok false)
        | some row ↦ delete_with_audio sys id row.audio_path s
      ]
      else (s, err (failed sys))

  -- The rows of `pairs` go with their files.
  unfoldable pub delete_pairs :
      Io → List (Text × Option Text) → History F → History F × Result (ℕ × ℕ)
  unfolding remove_files delete_rows
  delete_pairs sys pairs s =
      let (safe, removed, files) = remove_files sys pairs s.files in
      let rows = delete_rows safe s.rows in
      if sys.writes || is_empty safe
      then (record s { rows = rows; files = files }, ok (length s.rows - length rows, removed))
      else (record s { files = files }, err (failed sys))

  unfoldable pub delete_many : Io → List Text → History F → History F × Result ℕ
  unfolding lookup_audio_paths delete_pairs
  delete_many sys [] s = (s, ok 0)
  delete_many sys (id ∷ ids) s =
      let (s', outcome) = delete_pairs sys (lookup_audio_paths (id ∷ ids) s.rows) s in
      if sys.reads
      then (s', elim outcome [ ok n ↦ ok n.0 | err e ↦ err e ])
      else (s, err (failed sys))

  -- The rows and the files that are gone.
  unfoldable pub delete_all : Io → History F → History F × Result (ℕ × ℕ)
  unfolding all_audio_paths delete_pairs
  delete_all sys s =
      if sys.reads then delete_pairs sys (all_audio_paths s.rows) s else (s, err (failed sys))

  -- The paths are set to NULL of those rows whose files are gone.
  unfoldable pub drop_pairs : Io → List (Text × Option Text) → History F → History F × Result ℕ
  unfolding with_audio remove_files null_audio_paths
  drop_pairs sys pairs s =
      let (gone, removed, files) = remove_files sys (with_audio pairs) s.files in
      let (rows, n) = null_audio_paths gone s.rows in
      if sys.writes || is_empty gone
      then (record s { rows = rows; files = files }, ok n)
      else (record s { files = files }, err (failed sys))

  unfoldable pub drop_audios : Io → List Text → History F → History F × Result ℕ
  unfolding lookup_audio_paths drop_pairs
  drop_audios sys [] s = (s, ok 0)
  drop_audios sys (id ∷ ids) s =
      if sys.reads
      then drop_pairs sys (lookup_audio_paths (id ∷ ids) s.rows) s
      else (s, err (failed sys))
