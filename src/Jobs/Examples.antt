-- ===== src/Jobs/Examples.antt =====
-- core/job_claims.py: two machines and a window of the sweep.
use ctrlrelay.Base.{
  delete, any, find, ℕ, ◌≡◌, refl, String, Option, none, some, [], ◌∷◌, false, true, distinct,
  str_eq, if◌then◌else◌,
}
use ctrlrelay.Jobs.Claimer.{Luck, owner_name, ref_owner, claim, create_ref, prune}
use ctrlrelay.Jobs.Once.{Attempt, claim_by, after_claims, won_by_one}

abbrev fine : Luck
fine = record {
  blob_fails = none;
  create_fails = none;
  answer_lost = none;
  owner_fails = false;
  list_fails = false;
  delete_fails = λ _. false;
}

-- The answer to the first creation is lost; the second claim finds the ref with its own name.
abbrev unlucky : Luck
unlucky = record {
  blob_fails = none;
  create_fails = none;
  answer_lost = some "TimeoutError";
  owner_fails = false;
  list_fails = false;
  delete_fails = λ _. false;
}

abbrev minute_of : String → Option ℕ
minute_of window =
    if str_eq window "20260101T0600Z"
    then some 0
    else if str_eq window "20260301T0600Z"
    then some 84960
    else none

abbrev alpha : Luck → Attempt
alpha luck = record { luck = luck; claimant = "alpha"; job = "secops"; window = "20260101T0600Z" }

abbrev beta : String → Attempt
beta window = record { luck = fine; claimant = "beta"; job = "secops"; window = window }

beta_loses :
    (claim_by minute_of (beta "20260101T0600Z") (claim_by minute_of (alpha fine) []).1).0
    ≡ record { won = false; owner = some "alpha"; error = none }
unfolding claim create_ref ref_owner owner_name find any prune delete
beta_loses = refl

alpha_wins_after_all :
    (claim_by minute_of (alpha fine) (claim_by minute_of (alpha unlucky) []).1).0.won ≡ true
unfolding claim create_ref ref_owner owner_name find any prune delete
alpha_wins_after_all = refl

won_by_one_example : (alpha fine).claimant ≡ (alpha fine).claimant
unfolding claim create_ref ref_owner owner_name find any prune delete after_claims
won_by_one_example =
    won_by_one minute_of (alpha fine) (alpha fine) (beta "20260101T0600Z" ∷ []) [] refl refl refl
      refl (distinct refl) (distinct refl) (refl, tt) refl refl
