-- ===== src/Pulls/Merged.antt =====
-- core/pr_watcher.py: the wait for a merge ends, and for which reasons.
use ctrlrelay.Base.{
  subst, ℕ, zero, suc, ◌+◌, ◌*◌, ◌-◌, ◌≤◌, ◌<◌, ◌≡◌, ◌≢◌, ◌⊎◌, inl, inr, refl, Bool, true, false,
  not, ◌&&◌, String, Option, some, ltb, leb, arith, Bool-cases, Option-cases,
}
use ctrlrelay.Pulls.Runs.{all_from}
use ctrlrelay.Pulls.Watcher.{
  Answer, state_is, transient, fails, WaitOutcome, merged, timed_out, abandoned, raised, spent,
  check_merged, Poll, ends, goes_on, try_poll, Waited, after_poll, wait_loop, wait_for_merge,
  transient_failure_cap,
}

abbrev pub is_merge : Answer → Bool
is_merge (state_is pr_state) = check_merged pr_state
is_merge a = false

abbrev pub is_failure : Answer → Bool
is_failure (transient e) = true
is_failure a = false

-- The answers `first` to `first + n - 1` are failures; the first `n` tell of no merge.
abbrev pub all_failed : (ℕ → Answer) → ℕ → ℕ → Bool
all_failed answers = all_from (λ k. is_failure (answers k))

unfoldable pub no_merge : (ℕ → Answer) → ℕ → Bool
no_merge answers zero = true
no_merge answers (suc n) = no_merge answers n && not (is_merge (answers n))

module _ (poll_interval : ℕ) (answers : ℕ → Answer) (pauses : ℕ → Option String) (timeout : ℕ) where
  -- Ended, and with fewer than `timeout / poll_interval + 1` calls.
  abbrev pub EndsInTime : Waited → Type 0
  EndsInTime w = (w.outcome ≢ spent) × (w.polls * poll_interval < timeout + poll_interval)

  ends_now :
      (p : Poll) (k : ℕ) (later : ℕ → Waited)
      → k * poll_interval < timeout
      → p ≢ ends spent
      → ((failures : ℕ) → EndsInTime (later failures))
      → EndsInTime (after_poll poll_interval answers pauses timeout p later k)
  ends_now (ends outcome) k later early going rest = (λ e. going (rw e refl), omega arith)
  ends_now (goes_on failures) k later early going rest = elim (Option-cases (pauses k)) [
    | inl e ↦ rw e (rest failures)
    | inr (x, e) ↦ rw e (λ h. cc, omega arith)
  ]

  try_poll-ends : (a : Answer) (failures : ℕ) → try_poll a failures ≢ ends spent
  unfolding try_poll
  try_poll-ends (state_is s) failures = elim (Bool-cases (check_merged s)) [
    | inl e ↦ rw e (λ h. cc)
    | inr e ↦ rw e (λ h. cc)
  ]
  try_poll-ends (transient s) failures =
      elim (Bool-cases (leb transient_failure_cap (suc failures))) [
        | inl e ↦ rw e (λ h. cc)
        | inr e ↦ rw e (λ h. cc)
      ]
  try_poll-ends (fails s) failures = λ h. cc

  wait_loop-EndsInTime :
      (fuel k elapsed failures : ℕ)
      → 0 < poll_interval
      → elapsed ≡ k * poll_interval
      → elapsed < timeout + poll_interval
      → timeout - elapsed < fuel
      → EndsInTime (wait_loop poll_interval answers pauses timeout fuel k elapsed failures)
  unfolding wait_loop
  wait_loop-EndsInTime zero k elapsed failures pos at near enough = absurd (omega arith)
  wait_loop-EndsInTime (suc fuel) k elapsed failures pos at near enough =
      elim (Bool-cases (ltb elapsed timeout)) [
        | inr over ↦ rw over (λ h. cc, rw (← at) near)
        | inl early ↦ rw early (
            ends_now (try_poll (answers k) failures) k _ (ground arith)
              (try_poll-ends (answers k) failures)
              λ f.
                wait_loop-EndsInTime fuel (suc k) (elapsed + poll_interval) f pos (ground arith)
                  (ground arith) (ground arith))
      ]

  -- What stands behind each end.
  abbrev pub EndReason : WaitOutcome → ℕ → Type 0
  EndReason merged polls =
      (last : ℕ) × (polls ≡ suc last)
      × (is_merge (answers last) ≡ true)
      × (no_merge answers last ≡ true)
      × (last * poll_interval < timeout)
  EndReason timed_out polls = (no_merge answers polls ≡ true) × (timeout ≤ polls * poll_interval)
  EndReason (abandoned e) polls =
      (first : ℕ) × (polls ≡ first + transient_failure_cap)
      × (all_failed answers first transient_failure_cap ≡ true)
      × (no_merge answers polls ≡ true)
  EndReason (raised e) polls =
      (last : ℕ) × (polls ≡ suc last)
      × (no_merge answers polls ≡ true)
      × (answers last ≡ fails e ⊎ pauses last ≡ some e)
  EndReason spent polls = Unit

  abbrev pub HasReason : Waited → Type 0
  HasReason w = EndReason w.outcome w.polls

  -- What the loop knows before the `k`-th call.
  abbrev Knows : ℕ → ℕ → Type 0
  Knows k failures =
      (no_merge answers k ≡ true)
      × (failures < transient_failure_cap)
      × ((first : ℕ) × (k ≡ first + failures) × (all_failed answers first failures ≡ true))

  -- ... and what a call adds to it, whose answer is `a`.
  abbrev Learns : ℕ → Poll → Type 0
  Learns k (ends outcome) = EndReason outcome (suc k)
  Learns k (goes_on failures) = Knows (suc k) failures

  try_poll-Learns :
      (k failures : ℕ) (a : Answer)
      → answers k ≡ a
      → k * poll_interval < timeout
      → Knows k failures
      → Learns k (try_poll a failures)
  unfolding try_poll no_merge all_from
  try_poll-Learns k failures (state_is s) now early (none_yet, _, _) =
      elim (Bool-cases (check_merged s)) [
        | inl e ↦
            let here : is_merge (answers k) ≡ true = rw now e in
            rw e (k, refl, here, none_yet, early)
        | inr e ↦
            let here : is_merge (answers k) ≡ false = rw now e in
            rw e (rw (none_yet, here) refl, omega arith, (suc k, omega arith, refl))
      ]
  try_poll-Learns k failures (transient e) now early (none_yet, few, (first, at, row)) =
      let no_more : no_merge answers (suc k) ≡ true = rw (none_yet, now) refl in
      let again : all_failed answers first (suc failures) ≡ true = rw (row, ← at, now) refl in
      elim (Bool-cases (leb transient_failure_cap (suc failures))) [
        | inl full ↦
            let cap : suc failures ≡ transient_failure_cap = ground arith in
            rw full (
              first,
              omega arith,
              subst (λ n. all_failed answers first n ≡ true) cap again,
              no_more,
            )
        | inr room ↦ rw room (no_more, ground arith, (first, omega arith, again))
      ]
  try_poll-Learns k failures (fails e) now early (none_yet, _, _) =
      (k, refl, rw (none_yet, now) refl, inl now)

  after_poll-HasReason :
      (p : Poll) (k : ℕ) (later : ℕ → Waited)
      → Learns k p
      → ((failures : ℕ) → Knows (suc k) failures → HasReason (later failures))
      → HasReason (after_poll poll_interval answers pauses timeout p later k)
  after_poll-HasReason (ends outcome) k later learned rest = learned
  after_poll-HasReason (goes_on failures) k later learned rest = elim (Option-cases (pauses k)) [
    | inl e ↦ rw e (rest failures learned)
    | inr (x, e) ↦ rw e (k, refl, learned.0, inr e)
  ]

  wait_loop-HasReason :
      (fuel k elapsed failures : ℕ)
      → elapsed ≡ k * poll_interval
      → Knows k failures
      → HasReason (wait_loop poll_interval answers pauses timeout fuel k elapsed failures)
  unfolding wait_loop
  wait_loop-HasReason zero k elapsed failures at known = tt
  wait_loop-HasReason (suc fuel) k elapsed failures at known =
      elim (Bool-cases (ltb elapsed timeout)) [
        | inr over ↦ rw over (known.0, ground arith)
        | inl early ↦ rw early (
            after_poll-HasReason (try_poll (answers k) failures) k _
              (try_poll-Learns k failures (answers k) refl (ground arith) known)
              λ f. wait_loop-HasReason fuel (suc k) (elapsed + poll_interval) f (ground arith))
      ]

  -- Where the interval is positive, a wait ends, whatever is answered: the fuel is never spent, and
  -- the pull request is asked for fewer than `timeout / poll_interval + 1` times. It ends as merged
  -- where the last answer, and none before it, told of the merge, in time; as timed out where no answer
  -- of the whole time told of it; as abandoned where the last 60 answers all were errors; and with an
  -- exception only where that call or the pause after it raised it.
  pub wait_for_merge-ends :
      0 < poll_interval
      → EndsInTime (wait_for_merge poll_interval answers pauses timeout)
        × HasReason (wait_for_merge poll_interval answers pauses timeout)
  unfolding wait_for_merge no_merge all_from
  wait_for_merge-ends pos = (
    wait_loop-EndsInTime (suc timeout) 0 0 0 pos (omega arith) (omega arith) (omega arith),
    wait_loop-HasReason (suc timeout) 0 0 0 (omega arith) (refl, omega arith, (0, refl, refl)),
  )
