-- ===== src/History/Sweep.antt =====
-- The retention sweep (history/mod.rs and the candidates of history/store.rs): gather, select and
-- apply, for the records and for the audio files.
use app_cortex_stt.Common.{
  ℕ, List, [], ◌∷◌, ◌++◌, Option, none, some, Bool, Text, KeyMap, lookup, text_key, sort_by,
  if◌then◌else◌,
}
use app_cortex_stt.Errors.{Result, ok, err}
use app_cortex_stt.Retention.{Candidate, RetentionPolicy, text_le, select_to_delete}
use app_cortex_stt.History.{Row, History, Io, failed, delete_many, drop_audios}

-- By the time of insertion, the earliest first.
abbrev pub older : Candidate → Candidate → Bool
older a b = text_le a.created_at b.created_at

-- A file that is missing has the size 0.
abbrev pub size_on_disk : Text → KeyMap Text ℕ → ℕ
size_on_disk name files = elim (lookup name files) [ none ↦ 0 | some size ↦ size ]

abbrev pub count_or_zero : Result ℕ → ℕ
count_or_zero (ok n) = n
count_or_zero (err e) = 0

module _ {F : Type 0} where
  unfoldable pub record_candidates : KeyMap Text (Row F) → List Candidate
  record_candidates [] = []
  record_candidates ((id, row) ∷ rows) =
      record { id = id; created_at = row.timestamp; size_bytes = none } ∷ record_candidates rows

  abbrev pub audio_candidate : Text → Row F → KeyMap Text ℕ → List Candidate
  audio_candidate id row files = elim row.audio_path [
    | none ↦ []
    | some name ↦
        record { id = id; created_at = row.timestamp; size_bytes = some (size_on_disk name files) }
        ∷ []
  ]

  unfoldable pub audio_candidates : KeyMap Text (Row F) → KeyMap Text ℕ → List Candidate
  audio_candidates [] files = []
  audio_candidates ((id, row) ∷ rows) files =
      audio_candidate id row files ++ audio_candidates rows files

  unfoldable pub list_record_candidates : Io → History F → Result (List Candidate)
  unfolding record_candidates text_le sort_by
  list_record_candidates sys s =
      if sys.reads then ok (sort_by older (record_candidates s.rows)) else err (failed sys)

  unfoldable pub list_audio_candidates : Io → History F → Result (List Candidate)
  unfolding audio_candidates text_le sort_by
  list_audio_candidates sys s =
      if sys.reads then ok (sort_by older (audio_candidates s.rows s.files)) else err (failed sys)

  -- `now` and the reading of a timestamp are those of chrono; `none` is the panic of a policy.
  module _ (parse_timestamp : List ℕ → Option ℕ) (minus_days : ℕ → ℕ → Option ℕ) (now : ℕ) where
    unfoldable pub sweep_records : Io → RetentionPolicy → History F → Option (History F × ℕ)
    unfolding list_record_candidates select_to_delete delete_many
    sweep_records sys policy s = elim (list_record_candidates sys s) [
      | err e ↦ some (s, 0)
      | ok candidates ↦ elim (select_to_delete parse_timestamp minus_days candidates policy now) [
        | none ↦ none
        | some ids ↦ let (s', deleted) = delete_many sys ids s in some (s', count_or_zero deleted)
      ]
    ]

    unfoldable pub sweep_audios : Io → RetentionPolicy → History F → Option (History F × ℕ)
    unfolding list_audio_candidates select_to_delete drop_audios
    sweep_audios sys policy s = elim (list_audio_candidates sys s) [
      | err e ↦ some (s, 0)
      | ok candidates ↦ elim (select_to_delete parse_timestamp minus_days candidates policy now) [
        | none ↦ none
        | some ids ↦ let (s', dropped) = drop_audios sys ids s in some (s', count_or_zero dropped)
      ]
    ]

    -- The records that are deleted and the audio files that are dropped. The two branches may find
    -- the disk and the database in different states.
    unfoldable pub run_retention_sweep :
        Io → Io → RetentionPolicy → RetentionPolicy → History F → Option (History F × ℕ × ℕ)
    unfolding sweep_records sweep_audios
    run_retention_sweep sys sys' record_policy audio_policy s =
        elim (sweep_records sys record_policy s) [
          | none ↦ none
          | some (s', deleted) ↦ elim (sweep_audios sys' audio_policy s') [
            | none ↦ none
            | some (s'', dropped) ↦ some (s'', deleted, dropped)
          ]
        ]
