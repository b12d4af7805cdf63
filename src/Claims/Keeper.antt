-- ===== src/Claims/Keeper.antt =====
-- core/claims.py: `ClaimKeeper`, which refreshes a claim that was won while the run works, and then
-- holds it. The refresh task is a flag, each turn of its loop one call; the retries of a hold in the
-- background are left out.
use ctrlrelay.Base.{
  ℕ, Bool, true, false, String, Option, none, some, List, [], ◌∷◌, str_eq, any, if◌then◌else◌,
}
use ctrlrelay.Claims.Records.{Comment, Claim, ClaimSettings}
use ctrlrelay.Claims.Reading.{working, held, parse_claims}
use ctrlrelay.Claims.Acquire.{
  Issue, list_issue_comments, edit_issue_comment, claim_attrs, rewritten_claim,
}

pub record Keeper : Type 0 where
  pub claim : Claim
  pub claim_id : String
  pub run : String
  pub is_running : Bool
  pub taken_over_by : Option String
  pub confirmed_at : ℕ

-- Where the edit was refused, the keeper is as it was.
abbrev pub confirmed : Keeper → ℕ → Option (Unit {0}) × Issue → Bool × Keeper × Issue
confirmed k now (none, i) = (false, k, i)
confirmed k now (some u, i) = (true, record k { confirmed_at = now }, i)

-- `_write`.
unfoldable pub write_state : ClaimSettings → ℕ → String → Keeper → Issue → Bool × Keeper × Issue
unfolding edit_issue_comment
write_state settings now state k i = confirmed k now (
    edit_issue_comment k.claim.comment_id
      (rewritten_claim now (claim_attrs settings.node k.claim_id state now k.claim.replaces k.run))
      i)

-- The machine whose claim names ours.
unfoldable pub taker_of : String → List Claim → Option String
taker_of id [] = none
taker_of id (c ∷ cs) =
    let rest = taker_of id cs in if any (str_eq id) c.replaces then some c.node else rest

-- `_taken_over`: `none` where the comments could not be read.
abbrev pub takers :
    ClaimSettings → Keeper → Option (List Comment) × Issue → Option (Option String) × Issue
takers settings k (none, i) = (none, i)
takers settings k (some comments, i) =
    (some (taker_of k.claim_id (parse_claims comments settings.account)), i)

unfoldable pub taken_over : ClaimSettings → Keeper → Issue → Option (Option String) × Issue
unfolding list_issue_comments
taken_over settings k i = takers settings k (list_issue_comments i)

abbrev pub after_check :
    ClaimSettings → ℕ → Keeper → Option (Option String) × Issue → Keeper × Issue
after_check settings now k (none, i) = (k, i)
after_check settings now k (some (some taker), i) =
    (record k { taken_over_by = some taker; is_running = false }, i)
after_check settings now k (some none, i) =
    let (_, k', i') = write_state settings now working k i in (k', i')

-- One turn of `_loop`, after its sleep.
unfoldable pub refresh : ClaimSettings → ℕ → Keeper → Issue → Keeper × Issue
unfolding taken_over
refresh settings now k i =
    if k.is_running then after_check settings now k (taken_over settings k i) else (k, i)

abbrev pub or_retry :
    Bool × Keeper × Issue → (Keeper → Issue → Bool × Keeper × Issue) → Bool × Keeper × Issue
or_retry (true, k, i) again = (true, k, i)
or_retry (false, k, i) again = again k i

-- The attempts of a hold, at the times that the clock shows.
unfoldable pub hold_attempts : ClaimSettings → List ℕ → Keeper → Issue → Bool × Keeper × Issue
hold_attempts settings [] k i = (false, k, i)
hold_attempts settings (now ∷ times) k i =
    or_retry (write_state settings now held k i) (hold_attempts settings times)

abbrev pub unless_taken :
    Option String → Bool × Keeper × Issue → Bool × Keeper × Issue → Bool × Keeper × Issue
unless_taken (some taker) left done = left
unless_taken none left done = done

-- `hold`.
unfoldable pub hold : ClaimSettings → List ℕ → Keeper → Issue → Bool × Keeper × Issue
hold settings times k i =
    let stopped = record k { is_running = false } in
    unless_taken k.taken_over_by (false, stopped, i) (hold_attempts settings times stopped i)

abbrev pub restarted : Bool × Keeper × Issue → Bool × Keeper × Issue
restarted (written, k, i) = (written, record k { is_running = true }, i)

-- `resume_working`.
unfoldable pub resume_working : ClaimSettings → ℕ → Keeper → Issue → Bool × Keeper × Issue
resume_working settings now k i =
    unless_taken k.taken_over_by (false, k, i) (restarted (write_state settings now working k i))
