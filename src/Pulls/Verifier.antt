-- ===== src/Pulls/Verifier.antt =====
-- core/pr_verifier.py: the wait for the checks of a pull request, and the verdict before it is handed
-- to people.
use ctrlrelay.Base.{
  ◌+◌, ℕ, zero, suc, Bool, true, false, not, ◌&&◌, ◌||◌, String, Option, none, some, List, [], ◌∷◌,
  leb, text_is, select, any, if◌then◌else◌, or_else,
}

pub record Check : Type 0 where
  pub name : Option String
  pub bucket : Option String

abbrev pub is_pending : Check → Bool
is_pending c = text_is c.bucket "pending"

abbrev pub is_passing : Check → Bool
is_passing c = text_is c.bucket "pass" || text_is c.bucket "skipping"

abbrev pub is_failing : Check → Bool
is_failing c = not (is_pending c) && not (is_passing c)

-- What a call of `get_pr_checks` does: the checks, an error that the loop catches, or another one.
pub data Read : Type 0 where
  checks_are : List Check → Read
  transient : String → Read
  fails : String → Read

abbrev pub empty_checks_confirm_polls : ℕ
empty_checks_confirm_polls = 2

-- The loop's variables.
pub record Seen : Type 0 where
  pub checks : List Check
  pub empty_streak : ℕ
  pub had_successful_read : Bool
  pub last_transient_error : Option String

abbrev pub nothing_seen : Seen
nothing_seen = record {
  checks = [];
  empty_streak = 0;
  had_successful_read = false;
  last_transient_error = none;
}

pub data ChecksOutcome : Type 0 where
  returned : List Check → ChecksOutcome
  raised : String → ChecksOutcome
  spent : ChecksOutcome

pub data ChecksPoll : Type 0 where
  ends : ChecksOutcome → ChecksPoll
  goes_on : Seen → ChecksPoll

abbrev pub read_empty : ℕ → ChecksPoll
read_empty streak =
    if leb empty_checks_confirm_polls streak
    then ends (returned [])
    else goes_on record {
      checks = [];
      empty_streak = streak;
      had_successful_read = true;
      last_transient_error = none;
    }

abbrev pub read_some : List Check → ChecksPoll
read_some checks =
    if any is_pending checks
    then goes_on record {
      checks = checks;
      empty_streak = 0;
      had_successful_read = true;
      last_transient_error = none;
    }
    else ends (returned checks)

-- One pass through the `try` statement.
unfoldable pub poll_checks : Read → Seen → ChecksPoll
poll_checks (checks_are []) s = read_empty (suc s.empty_streak)
poll_checks (checks_are (c ∷ cs)) s = read_some (c ∷ cs)
poll_checks (transient e) s = goes_on record {
  checks = s.checks;
  empty_streak = s.empty_streak;
  had_successful_read = s.had_successful_read;
  last_transient_error = some e;
}
poll_checks (fails e) s = ends (raised e)

-- At the deadline: it fails closed where every poll_checks failed.
abbrev pub give_up : Bool → Option String → List Check → ChecksOutcome
give_up false (some e) checks = raised e
give_up false none checks = returned checks
give_up true e checks = returned checks

-- `reads k` is the answer to the `k`-th call, `now k` the loop's clock after it.
module _ (reads : ℕ → Read) (now : ℕ → ℕ) (deadline : ℕ) where
  abbrev pub after_checks : ChecksPoll → (Seen → ChecksOutcome) → ℕ → ChecksOutcome
  after_checks (ends outcome) later k = outcome
  after_checks (goes_on s) later k =
      if leb deadline (now k)
      then give_up s.had_successful_read s.last_transient_error s.checks
      else later s

  unfoldable pub checks_loop : ℕ → ℕ → Seen → ChecksOutcome
  checks_loop zero k s = spent
  checks_loop (suc fuel) k s = after_checks (poll_checks (reads k) s) (checks_loop fuel (suc k)) k

-- `start` is the clock at the call.
unfoldable pub wait_for_checks :
    (reads : ℕ → Read) (now : ℕ → ℕ) → ℕ → ℕ → ℕ → Option ℕ → ChecksOutcome
wait_for_checks reads now fuel start check_timeout timeout =
    checks_loop reads now (start + or_else timeout check_timeout) fuel 0 nothing_seen

-- The texts of the reasons, before they are formatted.
pub data VerdictReason : Type 0 where
  no_reason : VerdictReason
  checks_failing : List Check → VerdictReason
  still_running : List Check → VerdictReason
  has_conflicts : VerdictReason
  state_unresolved : Option String → VerdictReason
  is_behind : VerdictReason

pub record VerificationResult : Type 0 where
  pub ready : Bool
  pub reason : VerdictReason
  pub failing_checks : List Check
  pub pending_checks : List Check
  pub timed_out : Bool
  pub mergeable : Option String
  pub merge_state_status : Option String

-- The answer to `get_pr_state`, or what it raises.
pub data StateRead : Type 0 where
  state_is : Option String → Option String → StateRead
  state_fails : String → StateRead

pub data Verified : Type 0 where
  verdict : VerificationResult → Verified
  error : String → Verified
  unfinished : Verified

abbrev pub is_terminal : Option String → Bool
is_terminal mergeable = text_is mergeable "MERGEABLE" || text_is mergeable "CONFLICTING"

abbrev pub settled : Option String → Option String → VerdictReason → Bool → VerificationResult
settled mergeable merge_state reason ready = record {
  ready = ready;
  reason = reason;
  failing_checks = [];
  pending_checks = [];
  timed_out = false;
  mergeable = mergeable;
  merge_state_status = merge_state;
}

unfoldable pub judge : Option String → Option String → VerificationResult
judge mergeable merge_state =
    if text_is mergeable "CONFLICTING"
    then settled mergeable merge_state has_conflicts false
    else if not (text_is mergeable "MERGEABLE")
    then settled mergeable merge_state (state_unresolved mergeable) false
    else if text_is merge_state "BEHIND"
    then settled mergeable merge_state is_behind false
    else settled mergeable merge_state no_reason true

module _ (states : ℕ → StateRead) where
  abbrev pub after_state : StateRead → (Option String → Option String → Verified) → Verified
  after_state (state_fails e) later = error e
  after_state (state_is mergeable merge_state) later =
      if is_terminal mergeable
      then verdict (judge mergeable merge_state)
      else later mergeable merge_state

  -- `attempts` more reads, the next one the `k`-th, and the values that were read last.
  unfoldable pub poll_mergeable : ℕ → ℕ → Option String → Option String → Verified
  poll_mergeable zero k mergeable merge_state = verdict (judge mergeable merge_state)
  poll_mergeable (suc attempts) k mergeable merge_state =
      after_state (states k) (poll_mergeable attempts (suc k))

abbrev pub broken : List Check → List Check → VerificationResult
broken failing pending = record {
  ready = false;
  reason = checks_failing failing;
  failing_checks = failing;
  pending_checks = pending;
  timed_out = false;
  mergeable = none;
  merge_state_status = none;
}

abbrev pub slow : List Check → VerificationResult
slow pending = record {
  ready = false;
  reason = still_running pending;
  failing_checks = [];
  pending_checks = pending;
  timed_out = true;
  mergeable = none;
  merge_state_status = none;
}

-- The lists of failing and of pending checks decide, in this order.
abbrev pub by_checks : List Check → List Check → Verified → Verified
by_checks (c ∷ failing) pending rest = verdict (broken (c ∷ failing) pending)
by_checks [] (c ∷ pending) rest = verdict (slow (c ∷ pending))
by_checks [] [] rest = rest

abbrev pub after_wait : ChecksOutcome → (List Check → Verified) → Verified
after_wait (returned checks) rest = rest checks
after_wait (raised e) rest = error e
after_wait spent rest = unfinished

unfoldable pub verify :
    (reads : ℕ → Read) (now : ℕ → ℕ) (states : ℕ → StateRead) → ℕ → ℕ → ℕ → ℕ → Option ℕ → Verified
verify reads now states fuel start mergeable_poll_attempts check_timeout timeout =
    after_wait (wait_for_checks reads now fuel start check_timeout timeout) λ checks.
      by_checks (select is_failing checks) (select is_pending checks)
        (poll_mergeable states mergeable_poll_attempts 0 none none)
