-- ===== src/Downloads/Tests.antt =====
-- Runs of the download manager, and the theorems about it at concrete managers
-- (download_manager.rs).
use app_cortex_stt.Common.{
  subst, ap, ℕ, ◌≡◌, ◌≢◌, refl, true, false, Bool, List, [], ◌∷◌, none, some, Text, lookup, arith,
  text_key, ℕ_discrete, contains as text_contains, insert, remove,
}
use app_cortex_stt.Variants.{VariantKey, as_key, variant_dec}
use app_cortex_stt.Downloads.{
  Request, ActiveDownload, from_request, drop_pending, token_cancel, token_commit, running,
  already_active, claim, finish, claim_next, contains,
}
use app_cortex_stt.Downloads.Manager.{
  Manager, new, try_claim_slot, cancel, cancel_begin, release, commit, settled, teardown,
  cancelled_ok, Action, claims, begins_cancel, releases, step, run, set_token, board_contains,
  board_remove, board_set, cancel_clean, clear_completed, remove_part, board_get,
}
use app_cortex_stt.Downloads.Tokens.{cancel_before_commit, commit_before_cancel}
use app_cortex_stt.Downloads.Queue.{Inv}
use app_cortex_stt.Downloads.Slots.{AllActions, IsAction, run-new-Inv}
use app_cortex_stt.Downloads.Barrier.{Keeps, run-barrier}

program : Unit {0}
unfolding lookup text_key run step try_claim_slot cancel_begin release commit claim finish
    claim_next new insert remove drop_pending token_cancel token_commit set_token variant_dec as_key
    contains text_contains ℕ_discrete board_set board_remove board_contains cancel_clean
    clear_completed board_get remove_part cancel
program = tt

-- A request for the Variant of a one-letter model at no quant, with a token of its own.
abbrev request : ℕ → Request ℕ
request m = record {
  variant = record { model = m ∷ []; quant = none };
  dest_path = m ∷ b'/' ∷ [];
  cancel_flag = m;
  payload = 0;
}

abbrev variant : ℕ → VariantKey
variant m = record { model = m ∷ []; quant = none }

abbrev no_files : Text → Bool
no_files path = false

-- Four requests: three are active, `d` waits.
abbrev four_claims : List (Action ℕ)
four_claims =
    claims (request b'a')
    ∷ claims (request b'b')
    ∷ claims (request b'c')
    ∷ claims (request b'd')
    ∷ []

four_claims-AllActions : AllActions IsAction four_claims
unfolding program
four_claims-AllActions = (refl, (refl, (refl, (refl, tt))))

run-new-Inv_example : Inv (run (new no_files) four_claims).queue
run-new-Inv_example = run-new-Inv no_files four_claims four_claims-AllActions

abbrev crowded : Manager ℕ
crowded = record {
  queue = record {
    pending = request b'd' ∷ [];
    active =
        (b'c' ∷ [], from_request (request b'c'))
        ∷ (b'b' ∷ [], from_request (request b'b'))
        ∷ (b'a' ∷ [], from_request (request b'a'))
        ∷ [];
  };
  progress = [];
  tokens = λ t. running;
  part_files = no_files;
}

crowded_queue : (run (new no_files) four_claims).queue ≡ crowded.queue
unfolding program
crowded_queue = refl

abbrev entry : ℕ → ActiveDownload
entry m = from_request (request m)

crowded-Inv : Inv crowded.queue
crowded-Inv = subst Inv crowded_queue (run-new-Inv no_files four_claims four_claims-AllActions)

cancel_promotes : (cancel crowded (variant b'a')).1 ≡ cancelled_ok (some (request b'd'))
unfolding program
cancel_promotes = refl

active_a : lookup (as_key (variant b'a')) crowded.queue.active ≡ some (entry b'a')
unfolding program
active_a = refl

torn_a : (cancel_begin crowded (variant b'a')).1 ≡ teardown (b'a' ∷ b'/' ∷ [])
unfolding program
torn_a = refl

won_a : (commit crowded b'a').1 ≡ true
unfolding program
won_a = refl

still_active :
    lookup
      (as_key (variant b'a'))
      (run (commit crowded b'a').0 (releases (variant b'b') ∷ [])).queue.active
    ≡ some (entry b'a')
unfolding program
still_active = refl

not_queued :
    drop_pending
      (variant b'a')
      (run (commit crowded b'a').0 (releases (variant b'b') ∷ [])).queue.pending
    ≡ none
unfolding program
not_queued = refl

abbrev first_byte : Text → ℕ
first_byte [] = 0
first_byte (c ∷ s) = c

kept_slots :
    Keeps {P = ℕ} (variant b'a') (begins_cancel (variant b'a') ∷ releases (variant b'b') ∷ [])
unfolding program
kept_slots = (other, tt)
  where
    other : as_key (variant b'b') ≢ as_key (variant b'a')
    other e = omega (arith, ap first_byte e)

cancel_before_commit_example :
    (commit (run (cancel_begin crowded (variant b'a')).0 (releases (variant b'b') ∷ [])) b'a').1
    ≡ false
cancel_before_commit_example =
    cancel_before_commit crowded (variant b'a') (b'a' ∷ b'/' ∷ []) (entry b'a')
      (releases (variant b'b') ∷ []) active_a torn_a

commit_before_cancel_example :
    cancel_begin (run (commit crowded b'a').0 (releases (variant b'b') ∷ [])) (variant b'a')
    ≡ (run (commit crowded b'a').0 (releases (variant b'b') ∷ []), settled)
commit_before_cancel_example =
    commit_before_cancel crowded (variant b'a') (entry b'a') (releases (variant b'b') ∷ []) won_a
      still_active not_queued

abbrev cancel_and_release : List (Action ℕ)
cancel_and_release = begins_cancel (variant b'a') ∷ releases (variant b'b') ∷ []

run-barrier_example :
    (lookup (as_key (variant b'a')) (run crowded cancel_and_release).queue.active
      ≡ some (entry b'a'))
    × (try_claim_slot (run crowded cancel_and_release) (request b'a')
        ≡ (run crowded cancel_and_release, already_active))
run-barrier_example =
    run-barrier crowded cancel_and_release (request b'a') (entry b'a') crowded-Inv (tt, (tt, tt))
      kept_slots active_a
