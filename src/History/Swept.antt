-- ===== src/History/Swept.antt =====
-- A retention sweep in terms of the calls that it makes (history/mod.rs, `run_retention_sweep`).
use app_cortex_stt.Common.{
  ℕ, ◌≡◌, ap, ◌∙◌, List, Option, none, some, Text, arith, Option-cases, ◌⊎◌, inl, inr,
}
use app_cortex_stt.Errors.{Result, ok, err}
use app_cortex_stt.Retention.{RetentionPolicy, Candidate, select_to_delete}
use app_cortex_stt.History.{History, Io, delete_many, drop_audios}
use app_cortex_stt.History.Sweep.{
  run_retention_sweep, sweep_records, sweep_audios, list_record_candidates, list_audio_candidates,
  count_or_zero,
}

module _ {F : Type 0} where
  -- A branch of the sweep, by what it found, selected and did.
  abbrev branch :
      Result (List Candidate)
      → (List Candidate → Option (List Text))
      → (List Text → History F × Result ℕ)
      → History F
      → Option (History F × ℕ)
  branch found select apply s = elim found [
    | err e ↦ some (s, 0)
    | ok candidates ↦ elim (select candidates) [
      | none ↦ none
      | some ids ↦ let (s', n) = apply ids in some (s', count_or_zero n)
    ]
  ]

  branch-state :
      (found : Result (List Candidate)) (select : List Candidate → Option (List Text))
      (apply : List Text → History F × Result ℕ) (s t : History F) (n : ℕ)
      → branch found select apply s ≡ some (t, n)
      → (t ≡ s) ⊎ ((ids : List Text) × (t ≡ (apply ids).0))
  branch-state (err e) select apply s t n h = inl (cc)
  branch-state (ok candidates) select apply s t n h = elim (Option-cases (select candidates)) [
    | inl panics ↦ ground (arith, h, panics)
    | inr (ids, e) ↦ inr (ids, ground (arith, h, e))
  ]

  module _ (parse_timestamp : List ℕ → Option ℕ) (minus_days : ℕ → ℕ → Option ℕ) (now : ℕ) where
    sweep_records-state :
        (sys : Io) (policy : RetentionPolicy) (s t : History F) (n : ℕ)
        → sweep_records parse_timestamp minus_days now sys policy s ≡ some (t, n)
        → (t ≡ s) ⊎ ((ids : List Text) × (t ≡ (delete_many sys ids s).0))
    unfolding sweep_records
    sweep_records-state sys policy s t n h =
        branch-state (list_record_candidates sys s)
          (λ cs. select_to_delete parse_timestamp minus_days cs policy now)
          (λ ids. delete_many sys ids s) s t n h

    sweep_audios-state :
        (sys : Io) (policy : RetentionPolicy) (s t : History F) (n : ℕ)
        → sweep_audios parse_timestamp minus_days now sys policy s ≡ some (t, n)
        → (t ≡ s) ⊎ ((ids : List Text) × (t ≡ (drop_audios sys ids s).0))
    unfolding sweep_audios
    sweep_audios-state sys policy s t n h =
        branch-state (list_audio_candidates sys s)
          (λ cs. select_to_delete parse_timestamp minus_days cs policy now)
          (λ ids. drop_audios sys ids s) s t n h

    -- The two branches, one after the other.
    pub run_retention_sweep-states :
        (sys sys' : Io) (record_policy audio_policy : RetentionPolicy) (s u : History F) (n m : ℕ)
        → run_retention_sweep parse_timestamp minus_days now sys sys' record_policy audio_policy s
          ≡ some (u, n, m)
        → (t : History F) × ((t ≡ s) ⊎ ((ids : List Text) × (t ≡ (delete_many sys ids s).0)))
          × ((u ≡ t) ⊎ ((ids : List Text) × (u ≡ (drop_audios sys' ids t).0)))
    unfolding run_retention_sweep
    run_retention_sweep-states sys sys' rp policy s u n m h =
        elim (Option-cases (sweep_records parse_timestamp minus_days now sys rp s)) [
          | inl panics ↦ ground (arith, h, panics)
          | inr (first, e) ↦
              elim (Option-cases
                (sweep_audios parse_timestamp minus_days now sys' policy first.0)) [
                  | inl panics ↦ ground (arith, h, e, panics)
                  | inr (second, e') ↦
                      let same : second.0 ≡ u = ground (arith, h, e, e') in
                      (
                        first.0,
                        sweep_records-state sys rp s first.0 first.1 e,
                        sweep_audios-state sys' policy first.0 u second.1
                            (e' ∙ ap (λ x. some (x, second.1)) same),
                      )
                ]
        ]
