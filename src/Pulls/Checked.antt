-- ===== src/Pulls/Checked.antt =====
-- core/pr_verifier.py: where the list of checks comes from that the wait returns, and that it ends.
use ctrlrelay.Base.{
  ℕ, zero, suc, ◌+◌, ◌≤◌, ◌≡◌, ◌≢◌, refl, ◌⊎◌, inl, inr, Bool, true, false, String, Option, none,
  some, List, [], ◌∷◌, leb, any, arith, Bool-cases, or_else, subst,
}
use ctrlrelay.Pulls.Runs.{all_from}
use ctrlrelay.Pulls.Verifier.{
  Check, Read, checks_are, transient, fails, is_pending, ChecksOutcome, returned, raised, spent,
  ChecksPoll, ends, goes_on, Seen, poll_checks, empty_checks_confirm_polls, give_up, after_checks,
  checks_loop, wait_for_checks, nothing_seen,
}

abbrev pub is_failure : Read → Bool
is_failure (transient e) = true
is_failure r = false

-- The list was read, and every call since, up to the `k`-th, failed.
abbrev pub IsLastRead : (ℕ → Read) → ℕ → List Check → Type 0
IsLastRead reads k checks =
    (j : ℕ) × (n : ℕ) × (k ≡ j + n)
    × (reads j ≡ checks_are checks)
    × (all_from (λ i. is_failure (reads i)) (suc j) n ≡ true)

module _ (reads : ℕ → Read) (now : ℕ → ℕ) (deadline : ℕ) where
  abbrev pub Source : ChecksOutcome → Type 0
  Source (returned checks) =
      (k : ℕ) × IsLastRead reads k checks × (any is_pending checks ≡ false ⊎ deadline ≤ now k)
  Source (raised e) =
      (k : ℕ) × (reads k ≡ fails e
        ⊎ (reads k ≡ transient e)
          × (all_from (λ i. is_failure (reads i)) 0 (suc k) ≡ true)
          × (deadline ≤ now k))
  Source spent = Unit

  -- What the variables say after the `k`-th call, by whether any call was answered.
  abbrev Known : ℕ → List Check → Option String → Bool → Type 0
  Known k checks error true = IsLastRead reads k checks
  Known k checks error false =
      (e : String) × (error ≡ some e)
      × (reads k ≡ transient e)
      × (all_from (λ i. is_failure (reads i)) 0 (suc k) ≡ true)

  abbrev Knows : ℕ → Seen → Type 0
  Knows k s = Known k s.checks s.last_transient_error s.had_successful_read

  -- ... and before it.
  abbrev Knew : ℕ → Seen → Type 0
  Knew k s = ((k ≡ 0) × (s.had_successful_read ≡ false)) ⊎ ((j : ℕ) × (k ≡ suc j) × Knows j s)

  abbrev Learns : ℕ → ChecksPoll → Type 0
  Learns k (ends outcome) = Source outcome
  Learns k (goes_on s) = Knows k s

  again :
      (p : ℕ → Bool) (first n k : ℕ)
      → first + n ≡ k
      → p k ≡ true
      → all_from p first n ≡ true
      → all_from p first (suc n) ≡ true
  unfolding all_from
  again p first n k at here row = rw (row, at, here) refl

  Known-again :
      (j : ℕ) (checks : List Check) (error : Option String) (had : Bool) (e : String)
      → reads (suc j) ≡ transient e
      → Known j checks error had
      → Known (suc j) checks (some e) had
  Known-again j checks error true e now_fails (i, n, at, read, row) =
      (i, suc n, omega arith, read, again _ (suc i) n (suc j) (omega arith) (rw now_fails refl) row)
  Known-again j checks error false e now_fails (_, _, _, row) =
      (e, refl, now_fails, again _ 0 (suc j) (suc j) (omega arith) (rw now_fails refl) row)

  poll_checks-Learns :
      (k : ℕ) (s : Seen) (r : Read) → reads k ≡ r → Knew k s → Learns k (poll_checks r s)
  unfolding poll_checks all_from any
  poll_checks-Learns k s (checks_are []) e knew =
      elim (Bool-cases (leb empty_checks_confirm_polls (suc s.empty_streak))) [
        | inl twice ↦ rw twice (k, (k, 0, omega arith, e, refl), inl refl)
        | inr once ↦ rw once (k, 0, omega arith, e, refl)
      ]
  poll_checks-Learns k s (checks_are (c ∷ cs)) e knew =
      elim (Bool-cases (any is_pending (c ∷ cs))) [
        | inl running ↦ rw running (k, 0, omega arith, e, refl)
        | inr done ↦ rw done (k, (k, 0, omega arith, e, refl), inl done)
      ]
  poll_checks-Learns k s (transient x) e (inl (at, blind)) =
      let first : reads 0 ≡ transient x = rw (← at) e in
      rw (blind, at) (x, refl, first, rw first refl)
  poll_checks-Learns k s (transient x) e (inr (j, at, known)) =
      rw at
        (Known-again j s.checks s.last_transient_error s.had_successful_read x (rw (← at) e) known)
  poll_checks-Learns k s (fails x) e knew = (k, inl e)

  give_up-Source :
      (k : ℕ) (had : Bool) (error : Option String) (checks : List Check)
      → deadline ≤ now k
      → Known k checks error had
      → Source (give_up had error checks)
  give_up-Source k false (some x) checks late (e, same, read, row) =
      let same' : x ≡ e = cc in (k, inr (rw same' read, row, late))
  give_up-Source k false none checks late (e, same, _, _) = cc
  give_up-Source k true error checks late known = (k, known, inr late)

  after_checks-Source :
      (p : ChecksPoll) (k : ℕ) (later : Seen → ChecksOutcome)
      → Learns k p
      → ((s : Seen) → Knows k s → Source (later s))
      → Source (after_checks reads now deadline p later k)
  after_checks-Source (ends outcome) k later learned rest = learned
  after_checks-Source (goes_on s) k later learned rest = elim (Bool-cases (leb deadline (now k))) [
    | inl late ↦ rw late (
        give_up-Source k s.had_successful_read s.last_transient_error s.checks (ground arith)
          learned)
    | inr early ↦ rw early (rest s learned)
  ]

  checks_loop-Source :
      (fuel k : ℕ) (s : Seen) → Knew k s → Source (checks_loop reads now deadline fuel k s)
  unfolding checks_loop
  checks_loop-Source zero k s knew = tt
  checks_loop-Source (suc fuel) k s knew =
      after_checks-Source (poll_checks (reads k) s) k _ (poll_checks-Learns k s (reads k) refl knew)
        λ s' known. checks_loop-Source fuel (suc k) s' (inr (k, refl, known))

  give_up-ends :
      (had : Bool) (error : Option String) (checks : List Check) → give_up had error checks ≢ spent
  give_up-ends false (some x) checks = λ h. cc
  give_up-ends false none checks = λ h. cc
  give_up-ends true error checks = λ h. cc

  poll_checks-ends : (r : Read) (s : Seen) → poll_checks r s ≢ ends spent
  unfolding poll_checks
  poll_checks-ends (checks_are []) s =
      elim (Bool-cases (leb empty_checks_confirm_polls (suc s.empty_streak))) [
        | inl e ↦ rw e (λ h. cc)
        | inr e ↦ rw e (λ h. cc)
      ]
  poll_checks-ends (checks_are (c ∷ cs)) s = elim (Bool-cases (any is_pending (c ∷ cs))) [
    | inl e ↦ rw e (λ h. cc)
    | inr e ↦ rw e (λ h. cc)
  ]
  poll_checks-ends (transient x) s = λ h. cc
  poll_checks-ends (fails x) s = λ h. cc

  after_checks-ends :
      (p : ChecksPoll) (k : ℕ) (later : Seen → ChecksOutcome)
      → p ≢ ends spent
      → (leb deadline (now k) ≡ false → (s : Seen) → later s ≢ spent)
      → after_checks reads now deadline p later k ≢ spent
  after_checks-ends (ends outcome) k later not_spent rest = λ e. not_spent (rw e refl)
  after_checks-ends (goes_on s) k later not_spent rest = elim (Bool-cases (leb deadline (now k))) [
    | inl late ↦ rw late (give_up-ends s.had_successful_read s.last_transient_error s.checks)
    | inr early ↦ rw early (rest early s)
  ]

  checks_loop-ends :
      (m k : ℕ) (s : Seen)
      → deadline ≤ now (k + m)
      → checks_loop reads now deadline (suc m) k s ≢ spent
  unfolding checks_loop
  checks_loop-ends zero k s reached =
      let at : k + 0 ≡ k = omega arith in
      let late : deadline ≤ now k = subst (λ i. deadline ≤ now i) at reached in
      after_checks-ends (poll_checks (reads k) s) k _ (poll_checks-ends (reads k) s)
        λ early s'. absurd (ground arith)
  checks_loop-ends (suc m) k s reached =
      let at : k + suc m ≡ suc k + m = omega arith in
      after_checks-ends (poll_checks (reads k) s) k _ (poll_checks-ends (reads k) s)
        λ early s'. checks_loop-ends m (suc k) s' (subst (λ i. deadline ≤ now i) at reached)

abbrev pub deadline_of : ℕ → ℕ → Option ℕ → ℕ
deadline_of start check_timeout timeout = start + or_else timeout check_timeout

module _ (reads : ℕ → Read) (now : ℕ → ℕ) (start check_timeout : ℕ) (timeout : Option ℕ) where
  pub wait_for_checks-Source :
      (fuel : ℕ)
      → Source reads now
          (deadline_of start check_timeout timeout)
          (wait_for_checks reads now fuel start check_timeout timeout)
  unfolding wait_for_checks
  wait_for_checks-Source fuel =
      checks_loop-Source reads now (deadline_of start check_timeout timeout) fuel 0 nothing_seen
        (inl (refl, refl))

  -- The wait for the checks ends when the clock has reached the deadline after some call, whatever
  -- is answered. The list that it returns is the one that GitHub answered last, and none of its checks
  -- is pending before the deadline. It fails closed: it raises an error that the loop catches only at
  -- the deadline, after no call was answered, so that no list stands for a GitHub that is away.
  pub wait_for_checks-ends :
      (n : ℕ)
      → deadline_of start check_timeout timeout ≤ now n
      → (wait_for_checks reads now (suc n) start check_timeout timeout ≢ spent)
        × Source reads now
            (deadline_of start check_timeout timeout)
            (wait_for_checks reads now (suc n) start check_timeout timeout)
  unfolding wait_for_checks
  wait_for_checks-ends n reached =
      let at : n ≡ 0 + n = omega arith in
      (
        checks_loop-ends reads now (deadline_of start check_timeout timeout) n 0 nothing_seen
            (subst (λ i. deadline_of start check_timeout timeout ≤ now i) at reached),
        wait_for_checks-Source (suc n),
      )
