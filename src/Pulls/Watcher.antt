-- ===== src/Pulls/Watcher.antt =====
-- core/pr_watcher.py: the loop that polls a pull request until it is merged.
use ctrlrelay.Base.{
  ℕ, zero, suc, ◌+◌, Bool, String, Option, none, some, ltb, leb, text_is, if◌then◌else◌,
}

-- What the call of `get_pr_state` does: its "state", one of the errors that the loop catches, or any
-- other exception, a cancellation included.
pub data Answer : Type 0 where
  state_is : Option String → Answer
  transient : String → Answer
  fails : String → Answer

-- `_TRANSIENT_FAILURE_CAP`.
abbrev pub transient_failure_cap : ℕ
transient_failure_cap = 60

-- How the wait ends. `spent` is a loop that the fuel has not brought to its end.
pub data WaitOutcome : Type 0 where
  merged : WaitOutcome
  timed_out : WaitOutcome
  abandoned : String → WaitOutcome
  raised : String → WaitOutcome
  spent : WaitOutcome

abbrev pub check_merged : Option String → Bool
check_merged pr_state = text_is pr_state "MERGED"

pub data Poll : Type 0 where
  ends : WaitOutcome → Poll
  goes_on : ℕ → Poll

-- One pass through the `try` statement, with the failures in a row so far.
unfoldable pub try_poll : Answer → ℕ → Poll
try_poll (state_is pr_state) failures = if check_merged pr_state then ends merged else goes_on 0
try_poll (transient e) failures =
    if leb transient_failure_cap (suc failures) then ends (abandoned e) else goes_on (suc failures)
try_poll (fails e) failures = ends (raised e)

-- How the wait ended, and how many times it asked.
pub record Waited : Type 0 where
  pub outcome : WaitOutcome
  pub polls : ℕ

-- `pauses k` is what `on_poll` and the sleep after the `k`-th poll raise: none, or a cancellation.
module _ (poll_interval : ℕ) (answers : ℕ → Answer) (pauses : ℕ → Option String) (timeout : ℕ) where
  abbrev pub paused : Option String → Waited → ℕ → Waited
  paused none later k = later
  paused (some e) later k = record { outcome = raised e; polls = suc k }

  abbrev pub after_poll : Poll → (ℕ → Waited) → ℕ → Waited
  after_poll (ends outcome) later k = record { outcome = outcome; polls = suc k }
  after_poll (goes_on failures) later k = paused (pauses k) (later failures) k

  unfoldable pub wait_loop : ℕ → ℕ → ℕ → ℕ → Waited
  wait_loop zero k elapsed failures = record { outcome = spent; polls = k }
  wait_loop (suc fuel) k elapsed failures =
      let later : ℕ → Waited = wait_loop fuel (suc k) (elapsed + poll_interval) in
      if ltb elapsed timeout
      then after_poll (try_poll (answers k) failures) later k
      else record { outcome = timed_out; polls = k }

  unfoldable pub wait_for_merge : Waited
  unfolding wait_loop
  wait_for_merge = wait_loop (suc timeout) 0 0 0
