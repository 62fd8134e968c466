-- ===== src/Downloads/Tokens.antt =====
-- The cancel tokens of the downloads (download_manager.rs, `CancelToken`) under the manager's
-- actions: cancel and commit race for a token, and the first of them decides it.
use app_cortex_stt.Common.{
  ℕ, ◌≡◌, ◌≢◌, refl, sym, ap, ◌∙◌, true, false, List, [], ◌∷◌, none, some, Text, lookup, text_key,
  arith, Bool-cases, Option-cases, inl, inr, ◌⊎◌, ℕ_discrete,
}
use app_cortex_stt.Variants.{VariantKey, as_key}
use app_cortex_stt.Downloads.{
  TokenState, running, cancelled, committed, token_cancel, token_commit, Request, ActiveDownload,
  drop_pending,
}
use app_cortex_stt.Downloads.Manager.{
  Manager, try_claim_slot, cancel_begin, commit, clear_completed, set_token, settled, teardown,
  Action, claims, begins_cancel, cleans, releases, commits, publishes, clears, step, run,
}

pub set_token_self : (t : ℕ) (s : TokenState) (f : ℕ → TokenState) → set_token t s f t ≡ s
unfolding set_token
set_token_self t s f = ground arith

set_token-ne : (t u : ℕ) (s : TokenState) (f : ℕ → TokenState) → u ≢ t → set_token t s f u ≡ f u
unfolding set_token
set_token-ne t u s f d = ground arith

-- What cancel and commit make of a token that is decided.
abbrev pub IsDecided : TokenState → Type 0
IsDecided s = s ≢ running

token_cancel-decided : (s : TokenState) → IsDecided s → (token_cancel s).0 ≡ s
unfolding token_cancel
token_cancel-decided running d = elim (d refl) [ ]
token_cancel-decided cancelled d = refl
token_cancel-decided committed d = refl

token_commit-decided : (s : TokenState) → IsDecided s → (token_commit s).0 ≡ s
unfolding token_commit
token_commit-decided running d = elim (d refl) [ ]
token_commit-decided cancelled d = refl
token_commit-decided committed d = refl

token_cancel-won : (s : TokenState) → (token_cancel s).1 ≡ true → (token_cancel s).0 ≡ cancelled
unfolding token_cancel
token_cancel-won running h = refl
token_cancel-won cancelled h = refl
token_cancel-won committed h = cc

token_commit-won : (s : TokenState) → (token_commit s).1 ≡ true → (token_commit s).0 ≡ committed
unfolding token_commit
token_commit-won running h = refl
token_commit-won cancelled h = cc
token_commit-won committed h = cc

cancel_of_committed : (s : TokenState) → s ≡ committed → (token_cancel s).1 ≡ false
unfolding token_cancel
cancel_of_committed s e = ap (λ s. (token_cancel s).1) e

module _ {P : Type 0} where
  try_claim_slot-tokens : (m : Manager P) (r : Request P) → (try_claim_slot m r).0.tokens ≡ m.tokens
  unfolding try_claim_slot
  try_claim_slot-tokens m r = ground arith

  clear_completed-tokens :
      (m : Manager P) (v : VariantKey) → (clear_completed m v).tokens ≡ m.tokens
  unfolding clear_completed
  clear_completed-tokens m v = ground arith

  -- The first phase of a cancel leaves the tokens alone, or cancels the active download's.
  pub cancel_begin-tokens :
      (m : Manager P) (v : VariantKey)
      → ((cancel_begin m v).0.tokens ≡ m.tokens)
        ⊎ ((entry : ActiveDownload) × (lookup (as_key v) m.queue.active ≡ some entry)
            × ((token_cancel (m.tokens entry.cancel_flag)).1 ≡ true)
            × ((cancel_begin m v).0.tokens ≡ set_token entry.cancel_flag cancelled m.tokens))
  unfolding cancel_begin
  cancel_begin-tokens m v = elim (Option-cases (drop_pending v m.queue.pending)) [
    | inr (left, dropped) ↦ inl (ground arith)
    | inl kept ↦ elim (Option-cases (lookup (as_key v) m.queue.active)) [
      | inl absent ↦ inl (ground arith)
      | inr (entry, held) ↦ elim (Bool-cases (token_cancel (m.tokens entry.cancel_flag)).1) [
        | inl won ↦ inr (
          entry,
          held,
          won,
          rw (kept, held, won, token_cancel-won (m.tokens entry.cancel_flag) won, cancel_begin)
              refl,
        )
        | inr lost ↦ inl (rw (kept, held, lost, cancel_begin) refl)
      ]
    ]
  ]

  step-decided :
      (m : Manager P) (a : Action P) (t : ℕ)
      → IsDecided (m.tokens t)
      → (step m a).tokens t ≡ m.tokens t
  unfolding step
  step-decided m (claims r) t d = ap (λ f. f t) (try_claim_slot-tokens m r)
  step-decided m (begins_cancel v) t d = elim (cancel_begin-tokens m v) [
    | inl same ↦ ap (λ f. f t) same
    | inr (entry, held, won, e) ↦ ap (λ f. f t) e ∙ (elim (ℕ_discrete t entry.cancel_flag) [
      | no other ↦ set_token-ne entry.cancel_flag t cancelled m.tokens other
      | yes same ↦
          ap (set_token entry.cancel_flag cancelled m.tokens) same
          ∙ set_token_self entry.cancel_flag cancelled m.tokens
          ∙ sym (token_cancel-won (m.tokens entry.cancel_flag) won)
          ∙ ap (λ u. (token_cancel (m.tokens u)).0) (sym same)
          ∙ token_cancel-decided (m.tokens t) d
    ])
  ]
  step-decided m (cleans v path) t d = refl
  step-decided m (releases v) t d = refl
  step-decided m (commits u) t d = elim (ℕ_discrete t u) [
    | no other ↦ set_token-ne u t (token_commit (m.tokens u)).0 m.tokens other
    | yes same ↦
        ap (set_token u (token_commit (m.tokens u)).0 m.tokens) same
        ∙ set_token_self u (token_commit (m.tokens u)).0 m.tokens
        ∙ ap (λ i. (token_commit (m.tokens i)).0) (sym same)
        ∙ token_commit-decided (m.tokens t) d
  ]
  step-decided m (publishes p) t d = refl
  step-decided m (clears v) t d = ap (λ f. f t) (clear_completed-tokens m v)

  -- Whatever actions follow, under any interleaving, a decided token keeps its state.
  pub run-decided :
      (m : Manager P) (rest : List (Action P)) (t : ℕ)
      → IsDecided (m.tokens t)
      → (run m rest).tokens t ≡ m.tokens t
  unfolding run
  run-decided m [] t d = refl
  run-decided m (a ∷ rest) t d =
      run-decided (step m a) rest t (λ e. d (sym (step-decided m a t d) ∙ e)) ∙ step-decided m a t d

  commit-outcome : (m : Manager P) (t : ℕ) → (commit m t).1 ≡ (token_commit (m.tokens t)).1
  unfolding commit
  commit-outcome m t = refl

  commit-tokens :
      (m : Manager P) (t : ℕ)
      → (commit m t).0.tokens ≡ set_token t (token_commit (m.tokens t)).0 m.tokens
  unfolding commit
  commit-tokens m t = refl

  -- The first phase of a cancel of an active download, as its token decides.
  pub cancel_begin-won :
      (m : Manager P) (v : VariantKey) (entry : ActiveDownload)
      → drop_pending v m.queue.pending ≡ none
      → lookup (as_key v) m.queue.active ≡ some entry
      → (token_cancel (m.tokens entry.cancel_flag)).1 ≡ true
      → cancel_begin m v ≡ (
        record m { tokens = set_token entry.cancel_flag cancelled m.tokens },
        teardown entry.dest_path,
      )
  unfolding cancel_begin
  cancel_begin-won m v entry kept held won =
      rw (kept, held, won, token_cancel-won (m.tokens entry.cancel_flag) won, cancel_begin) refl

  pub cancel_begin-lost :
      (m : Manager P) (v : VariantKey) (entry : ActiveDownload)
      → drop_pending v m.queue.pending ≡ none
      → lookup (as_key v) m.queue.active ≡ some entry
      → (token_cancel (m.tokens entry.cancel_flag)).1 ≡ false
      → cancel_begin m v ≡ (m, settled)
  unfolding cancel_begin
  cancel_begin-lost m v entry kept held lost = rw (kept, held, lost, cancel_begin) refl

  -- What a teardown says of the active entry and of its token.
  cancel_begin-teardown :
      (m : Manager P) (v : VariantKey) (path : Text)
      → (cancel_begin m v).1 ≡ teardown path
      → (entry : ActiveDownload) × (lookup (as_key v) m.queue.active ≡ some entry)
        × (entry.dest_path ≡ path)
        × ((cancel_begin m v).0.tokens entry.cancel_flag ≡ cancelled)
  unfolding cancel_begin
  cancel_begin-teardown m v path h = elim (Option-cases (drop_pending v m.queue.pending)) [
    | inr (left, dropped) ↦ ground arith
    | inl kept ↦ elim (Option-cases (lookup (as_key v) m.queue.active)) [
      | inl absent ↦ ground arith
      | inr (entry, held) ↦ elim (Bool-cases (token_cancel (m.tokens entry.cancel_flag)).1) [
        | inl won ↦ (
          entry,
          held,
          ground (arith, cancel_begin-won m v entry kept held won),
          ap (λ x. x.0.tokens entry.cancel_flag) (cancel_begin-won m v entry kept held won)
              ∙ set_token_self entry.cancel_flag cancelled m.tokens,
        )
        | inr lost ↦ ground (arith, cancel_begin-lost m v entry kept held lost)
      ]
    ]
  ]

  commit_of_cancelled : (m : Manager P) (t : ℕ) → m.tokens t ≡ cancelled → (commit m t).1 ≡ false
  unfolding token_commit
  commit_of_cancelled m t e = commit-outcome m t ∙ ap (λ s. (token_commit s).1) e

  -- After a cancel that went on to tear a download down, no commit of that download's token wins,
  -- whatever actions came in between: a cancelled download is not installed.
  pub cancel_before_commit :
      (m : Manager P) (v : VariantKey) (path : Text) (entry : ActiveDownload)
      (rest : List (Action P))
      → lookup (as_key v) m.queue.active ≡ some entry
      → (cancel_begin m v).1 ≡ teardown path
      → (commit (run (cancel_begin m v).0 rest) entry.cancel_flag).1 ≡ false
  cancel_before_commit m v path entry rest held torn =
      let (e, held', path_of, state) = cancel_begin-teardown m v path torn in
      let same : entry ≡ e = cc in
      let state' : (cancel_begin m v).0.tokens entry.cancel_flag ≡ cancelled =
        ap (λ i. (cancel_begin m v).0.tokens i.cancel_flag) same ∙ state in
      commit_of_cancelled (run (cancel_begin m v).0 rest) entry.cancel_flag
        (run-decided (cancel_begin m v).0 rest entry.cancel_flag (decided state') ∙ state')
    where
      decided : {s : TokenState} → s ≡ cancelled → IsDecided s
      decided e d = cc

  -- After a commit that won, no cancel tears that download down, whatever actions came in
  -- between: while the download's entry is active and no request for its Variant is queued, a
  -- cancel reports that it is settled and changes nothing.
  pub commit_before_cancel :
      (m : Manager P) (v : VariantKey) (entry : ActiveDownload) (rest : List (Action P))
      → (commit m entry.cancel_flag).1 ≡ true
      → lookup (as_key v) (run (commit m entry.cancel_flag).0 rest).queue.active ≡ some entry
      → drop_pending v (run (commit m entry.cancel_flag).0 rest).queue.pending ≡ none
      → cancel_begin (run (commit m entry.cancel_flag).0 rest) v
        ≡ (run (commit m entry.cancel_flag).0 rest, settled)
  commit_before_cancel m v entry rest won held kept =
      cancel_begin-lost (run (commit m entry.cancel_flag).0 rest) v entry kept held (
        cancel_of_committed _ (
          run-decided (commit m entry.cancel_flag).0 rest entry.cancel_flag (decided state)
          ∙ state))
    where
      state : (commit m entry.cancel_flag).0.tokens entry.cancel_flag ≡ committed
      state =
          ap (λ f. f entry.cancel_flag) (commit-tokens m entry.cancel_flag)
          ∙ set_token_self entry.cancel_flag (token_commit (m.tokens entry.cancel_flag)).0 m.tokens
          ∙ token_commit-won (m.tokens entry.cancel_flag)
              (sym (commit-outcome m entry.cancel_flag) ∙ won)

      decided : {s : TokenState} → s ≡ committed → IsDecided s
      decided e d = cc
