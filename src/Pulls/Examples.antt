-- ===== src/Pulls/Examples.antt =====
-- core/pr_watcher.py: the wait for a merge at concrete answers.
use ctrlrelay.Base.{suc, arith, ℕ, String, Option, none, some, ◌≡◌, refl, zero}
use ctrlrelay.Pulls.Watcher.{
  try_poll, wait_loop, Answer, state_is, transient, wait_for_merge, merged,
}
use ctrlrelay.Pulls.Merged.{EndsInTime, HasReason, wait_for_merge-ends}

-- Open, then an error, then merged.
abbrev answers : ℕ → Answer
answers zero = state_is (some "OPEN")
answers (suc zero) = transient "TimeoutError"
answers n = state_is (some "MERGED")

abbrev quiet : ℕ → Option String
quiet k = none

merges : wait_for_merge 300 answers quiet 2000 ≡ record { outcome = merged; polls = 3 }
unfolding wait_for_merge wait_loop try_poll
merges = refl

wait_for_merge-ends_example :
    EndsInTime 300 answers quiet 2000 (wait_for_merge 300 answers quiet 2000)
    × HasReason 300 answers quiet 2000 (wait_for_merge 300 answers quiet 2000)
wait_for_merge-ends_example = wait_for_merge-ends 300 answers quiet 2000 (omega arith)
