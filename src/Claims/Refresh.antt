-- ===== src/Claims/Refresh.antt =====
-- core/claims.py: what the keeper of a claim writes, and when it stops.
use ctrlrelay.Base.{
  ℕ, ◌≡◌, refl, sym, ap, ◌∙◌, Bool, true, not, ◌&&◌, String, some, List, [], ◌∷◌, arith, any,
  is_some,
}
use ctrlrelay.Claims.Records.{Claim, ClaimSettings}
use ctrlrelay.Claims.Reading.{parse_claims, replaced_ids}
use ctrlrelay.Claims.Acquire.{Issue, list_issue_comments}
use ctrlrelay.Claims.Replaced.{names, names-cons}
use ctrlrelay.Claims.Keeper.{Keeper, taker_of, taken_over, refresh, hold, resume_working}

pub taker-names : (id : String) (cs : List Claim) → names id cs ≡ is_some (taker_of id cs)
unfolding taker_of replaced_ids any
taker-names id [] = refl
taker-names id (c ∷ cs) = ground (arith, names-cons id c cs, taker-names id cs)

-- What the run of a claim does with its keeper.
pub data KeeperOp : Type 0 where
  tick : (now : ℕ) → KeeperOp
  pause : (times : List ℕ) → KeeperOp
  go_on : (now : ℕ) → KeeperOp

unfoldable pub step_keeper : ClaimSettings → KeeperOp → Keeper → Issue → Keeper × Issue
step_keeper settings (tick now) k i = refresh settings now k i
step_keeper settings (pause times) k i = let (_, k', i') = hold settings times k i in (k', i')
step_keeper settings (go_on now) k i = let (_, k', i') = resume_working settings now k i in (k', i')

unfoldable pub run_keeper : ClaimSettings → List KeeperOp → Keeper → Issue → Keeper × Issue
run_keeper settings [] k i = (k, i)
run_keeper settings (op ∷ ops) k i =
    let (k', i') = step_keeper settings op k i in run_keeper settings ops k' i'

-- The keeper knows that its claim was taken, and does not refresh.
abbrev is_out : Keeper → Bool
is_out k = is_some k.taken_over_by && not k.is_running

step-out :
    (settings : ClaimSettings) (op : KeeperOp) (k : Keeper) (i : Issue)
    → is_out k ≡ true
    → (is_out (step_keeper settings op k i).0 ≡ true) × ((step_keeper settings op k i).1 ≡ i)
unfolding step_keeper refresh hold resume_working
step-out settings (tick now) k i h = ground (arith, h)
step-out settings (pause times) k i h = ground (arith, h)
step-out settings (go_on now) k i h = ground (arith, h)

run-out :
    (settings : ClaimSettings) (ops : List KeeperOp) (k : Keeper) (i : Issue)
    → is_out k ≡ true
    → (is_out (run_keeper settings ops k i).0 ≡ true) × ((run_keeper settings ops k i).1 ≡ i)
unfolding run_keeper
run-out settings [] k i h = (h, refl)
run-out settings (op ∷ ops) k i h =
    let (h', same) = step-out settings op k i h in
    let (h'', same') =
      run-out settings ops (step_keeper settings op k i).0 (step_keeper settings op k i).1 h' in
    (h'', same' ∙ same)

tick-out :
    (settings : ClaimSettings) (now : ℕ) (k : Keeper) (i : Issue)
    → k.is_running ≡ true
    → is_some (taker_of k.claim_id (parse_claims i.comments settings.account)) ≡ true
    → (list_issue_comments i).0 ≡ some i.comments
    → (is_out (refresh settings now k i).0 ≡ true)
      × ((refresh settings now k i).1.comments ≡ i.comments)
unfolding refresh taken_over list_issue_comments
tick-out settings now k i running taken read = ground arith

-- A claim that was taken over is left alone. Where a refreshing keeper reads, at one of its turns,
-- a claim that names its own as taken over, that turn writes nothing, and whatever the run does with
-- the keeper afterwards writes nothing either: no refresh, no hold and no return to work puts the
-- old claim back.
pub taken_claim_left_alone :
    (settings : ClaimSettings) (now : ℕ) (ops : List KeeperOp) (k : Keeper) (i : Issue)
    → k.is_running ≡ true
    → names k.claim_id (parse_claims i.comments settings.account) ≡ true
    → (list_issue_comments i).0 ≡ some i.comments
    → (run_keeper settings (tick now ∷ ops) k i).1.comments ≡ i.comments
unfolding run_keeper step_keeper
taken_claim_left_alone settings now ops k i running taken read =
    let (out, same) =
      tick-out settings now k i running
        (sym (taker-names k.claim_id (parse_claims i.comments settings.account)) ∙ taken) read in
    let (_, left) =
      run-out settings ops (refresh settings now k i).0 (refresh settings now k i).1 out in
    ap (λ (x : Issue). x.comments) left ∙ same
