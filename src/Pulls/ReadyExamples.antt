-- ===== src/Pulls/ReadyExamples.antt =====
-- core/pr_verifier.py: the wait for the checks and the verdict at concrete answers.
use ctrlrelay.Base.{
  ℕ, zero, suc, ◌*◌, ◌+◌, String, none, some, ◌≡◌, ◌≢◌, refl, [], ◌∷◌, any, select, arith,
}
use ctrlrelay.Pulls.Verifier.{
  Check, Read, checks_are, transient, StateRead, state_is, wait_for_checks, checks_loop,
  poll_checks, poll_mergeable, verify, verdict, judge, spent,
}
use ctrlrelay.Pulls.Checked.{Source, deadline_of, wait_for_checks-ends}
use ctrlrelay.Pulls.Ready.{Grounds, verify-Grounds}

abbrev check : String → Check
check bucket = record { name = some "tests"; bucket = some bucket }

-- Pending, then an error, then passed.
abbrev reads : ℕ → Read
reads zero = checks_are (check "pending" ∷ [])
reads (suc zero) = transient "GitHubError"
reads k = checks_are (check "pass" ∷ check "skipping" ∷ [])

abbrev clock : ℕ → ℕ
clock k = 100 + 30 * k

abbrev states : ℕ → StateRead
states zero = state_is (some "UNKNOWN") none
states k = state_is (some "MERGEABLE") (some "BLOCKED")

verifies :
    verify reads clock states 61 100 10 1800 none
    ≡ verdict (judge (some "MERGEABLE") (some "BLOCKED"))
unfolding verify wait_for_checks checks_loop poll_checks poll_mergeable any select judge
verifies = refl

-- One empty answer and the deadline: the pull request counts as one without checks.
abbrev empty_once : ℕ → Read
empty_once zero = checks_are []
empty_once k = transient "GitHubError"

verifies_without_checks :
    verify empty_once clock states 61 100 10 1800 (some 15)
    ≡ verdict (judge (some "MERGEABLE") (some "BLOCKED"))
unfolding verify wait_for_checks checks_loop poll_checks poll_mergeable any select judge
verifies_without_checks = refl

wait_for_checks-ends_example :
    (wait_for_checks reads clock 61 100 1800 none ≢ spent)
    × Source reads clock (deadline_of 100 1800 none) (wait_for_checks reads clock 61 100 1800 none)
wait_for_checks-ends_example = wait_for_checks-ends reads clock 100 1800 none 60 (omega arith)

verify-Grounds_example :
    Grounds reads clock states 100 10 1800 none (judge (some "MERGEABLE") (some "BLOCKED"))
verify-Grounds_example =
    verify-Grounds reads clock states 100 10 1800 none 61
      (judge (some "MERGEABLE") (some "BLOCKED")) verifies
