-- ===== src/Pulls/Ready.antt =====
-- core/pr_verifier.py: what a verdict on a pull request rests on.
use ctrlrelay.Base.{
  ℕ, zero, suc, ◌+◌, ◌≤◌, ◌<◌, ◌≡◌, ◌≢◌, refl, ◌⊎◌, inl, inr, Bool, true, false, String, Option,
  none, some, List, [], ◌∷◌, any, select, arith, Bool-cases, text_is, text_is-some, text_is_self,
  or_else, subst, sym,
}
use ctrlrelay.Pulls.Verifier.{
  Check, Read, is_pending, is_failing, ChecksOutcome, returned, raised, spent, wait_for_checks,
  verify, Verified, verdict, VerificationResult, judge, poll_mergeable, after_state, StateRead,
  state_is, state_fails, by_checks, after_wait, is_terminal, broken, slow,
}
use ctrlrelay.Pulls.Checked.{IsLastRead, Source, wait_for_checks-Source}

-- A state of the pull request that was read among the first `n`, that can be merged, and that is not behind its base.
abbrev pub IsMergeable : (ℕ → StateRead) → ℕ → Type 0
IsMergeable states n =
    (j : ℕ) × (merge_state : Option String) × (j < n)
    × (states j ≡ state_is (some "MERGEABLE") merge_state)
    × (merge_state ≢ some "BEHIND")

-- What `judge` says of the two values: ready exactly where they can be merged and are not behind.
data Judged (m s : Option String) (r : VerificationResult) : Type 0 where
  judged_ready : r.ready ≡ true → m ≡ some "MERGEABLE" → s ≢ some "BEHIND" → Judged m s r
  judged_not : r.ready ≡ false → Judged m s r

judge-Judged :
    (m s : Option String)
    → Judged m s (judge m s) × ((judge m s).timed_out ≡ false) × ((judge m s).failing_checks ≡ [])
unfolding judge
judge-Judged m s = elim (Bool-cases (text_is m "CONFLICTING")) [
  | inl e ↦ rw e (judged_not refl, refl, refl)
  | inr e ↦ elim (Bool-cases (text_is m "MERGEABLE")) [
    | inr f ↦ rw (e, f) (judged_not refl, refl, refl)
    | inl f ↦ elim (Bool-cases (text_is s "BEHIND")) [
      | inl g ↦ rw (e, f, g) (judged_not refl, refl, refl)
      | inr g ↦
          rw (e, f, g)
            (
              judged_ready refl (text_is-some m "MERGEABLE" f) (text_is_self s "BEHIND" g),
              refl,
              refl,
            )
    ]
  ]
]

module _ (states : ℕ → StateRead) (b : ℕ) where
  -- A verdict after the checks: ready only with such a state.
  abbrev Settled : VerificationResult → Type 0
  Settled r =
      ((r.ready ≡ true × IsMergeable states b) ⊎ (r.ready ≡ false))
      × (r.timed_out ≡ false)
      × (r.failing_checks ≡ [])

  -- The values that the loop holds were read, if any call was made.
  abbrev WereRead : Option String → Option String → Type 0
  WereRead m s = (m ≡ none) ⊎ ((j : ℕ) × (j < b) × (states j ≡ state_is m s))

  judge-Settled : (m s : Option String) → WereRead m s → Settled (judge m s)
  judge-Settled m s were =
      let (how, quick, failing) = judge-Judged m s in (by how were, quick, failing)
    where
      by :
          Judged m s (judge m s)
          → WereRead m s
          → (((judge m s).ready ≡ true) × IsMergeable states b) ⊎ ((judge m s).ready ≡ false)
      by (judged_not e) were = inr e
      by (judged_ready e mm ss) (inl none_read) = cc
      by (judged_ready e mm ss) (inr (j, early, read)) = inl (e, (j, s, early, rw mm at read, ss))

  same_verdict : {q r : VerificationResult} → verdict q ≡ verdict r → Settled q → Settled r
  same_verdict {q} {r} e h = let same : q ≡ r = cc in subst Settled same h

  after_state-Settled :
      (k : ℕ) (later : Option String → Option String → Verified) (a : StateRead)
      {r : VerificationResult}
      → k < b
      → states k ≡ a
      → ((m s : Option String) → WereRead m s → later m s ≡ verdict r → Settled r)
      → after_state states a later ≡ verdict r
      → Settled r
  after_state-Settled k later (state_fails x) early read rest e = cc
  after_state-Settled k later (state_is m s) {r} early read rest e =
      elim (Bool-cases (is_terminal m)) [
        | inl final ↦ same_verdict (rw final at e) (judge-Settled m s (inr (k, early, read)))
        | inr open_yet ↦ rest m s (inr (k, early, read)) (rw open_yet at e)
      ]

  poll_mergeable-Settled :
      (n k : ℕ) (m s : Option String) {r : VerificationResult}
      → k + n ≡ b
      → WereRead m s
      → poll_mergeable states n k m s ≡ verdict r
      → Settled r
  unfolding poll_mergeable
  poll_mergeable-Settled zero k m s at were e = same_verdict e (judge-Settled m s were)
  poll_mergeable-Settled (suc n) k m s at were e =
      after_state-Settled k _ (states k) (omega arith) refl
        (λ m' s' were'. poll_mergeable-Settled n (suc k) m' s' (omega arith) were') e

-- A list of the checks that a test picks is empty exactly where the test holds of none.
any-select_nil : (p : Check → Bool) (xs : List Check) → select p xs ≡ [] → any p xs ≡ false
unfolding any select
any-select_nil p [] e = refl
any-select_nil p (x ∷ xs) e = ground (arith, any-select_nil p xs)

any-select_cons :
    (p : Check → Bool) (xs : List Check) {c : Check} {cs : List Check}
    → select p xs ≡ c ∷ cs
    → any p xs ≡ true
unfolding any select
any-select_cons p [] e = cc
any-select_cons p (x ∷ xs) {c} {cs} e = ground (arith, any-select_cons p xs {c = c} {cs = cs})

module _ (now : ℕ → ℕ) (states : ℕ → StateRead) (deadline attempts k : ℕ)
    (checks : List Check) where
  -- The three kinds of verdict on a list of checks, by what they tell the caller to do.
  abbrev pub Kind : VerificationResult → Type 0
  Kind r =
      (r.ready ≡ true)
        × (any is_failing checks ≡ false)
        × (any is_pending checks ≡ false)
        × IsMergeable states attempts
      ⊎ (r.ready ≡ false)
        × (r.timed_out ≡ true)
        × (any is_failing checks ≡ false)
        × (any is_pending checks ≡ true)
        × (deadline ≤ now k)
      ⊎ (r.ready ≡ false)
        × (r.timed_out ≡ false)
        × (any is_failing checks ≡ true ⊎ any is_pending checks ≡ false)

  by_checks-Kind :
      (failing pending : List Check) (rest : Verified) {r : VerificationResult}
      → select is_failing checks ≡ failing
      → select is_pending checks ≡ pending
      → (any is_pending checks ≡ false ⊎ deadline ≤ now k)
      → (rest ≡ verdict r → Settled states attempts r)
      → by_checks failing pending rest ≡ verdict r
      → Kind r × (r.failing_checks ≡ select is_failing checks)
  by_checks-Kind (c ∷ failing) pending rest {r} ef ep late settles e =
      let same : broken (c ∷ failing) pending ≡ r = cc in
      subst (λ r. Kind r × (r.failing_checks ≡ select is_failing checks)) same
        (inr (inr (refl, refl, inl (any-select_cons is_failing checks ef))), sym ef)
  by_checks-Kind [] (c ∷ pending) rest {r} ef ep late settles e =
      let same : slow (c ∷ pending) ≡ r = cc in
      subst (λ r. Kind r × (r.failing_checks ≡ select is_failing checks)) same
        (
          inr (inl (refl, refl, any-select_nil is_failing checks ef, running, at_deadline late)),
          sym ef,
        )
    where
      running : any is_pending checks ≡ true
      running = any-select_cons is_pending checks ep

      at_deadline : any is_pending checks ≡ false ⊎ deadline ≤ now k → deadline ≤ now k
      at_deadline (inl none_pending) = ground (arith, running)
      at_deadline (inr l) = l
  by_checks-Kind [] [] rest {r} ef ep late settles e =
      let (how, quick, failing) = settles e in (kind how quick, rw (failing, ef) refl)
    where
      quiet : any is_pending checks ≡ false
      quiet = any-select_nil is_pending checks ep

      kind :
          ((r.ready ≡ true) × IsMergeable states attempts) ⊎ (r.ready ≡ false)
          → r.timed_out ≡ false
          → Kind r
      kind (inl (ready, m)) quick = inl (ready, any-select_nil is_failing checks ef, quiet, m)
      kind (inr e) quick = inr (inr (e, quick, inr quiet))

module _ (reads : ℕ → Read) (now : ℕ → ℕ) (states : ℕ → StateRead)
    (start attempts check_timeout : ℕ) (timeout : Option ℕ) where
  abbrev pub deadline : ℕ
  deadline = start + or_else timeout check_timeout

  -- The list of checks that the verdict is about, and its kind.
  abbrev pub Grounds : VerificationResult → Type 0
  Grounds r =
      (checks : List Check) × (k : ℕ) × IsLastRead reads k checks
      × Kind now states deadline attempts k checks r
      × (r.failing_checks ≡ select is_failing checks)

  after_wait-Grounds :
      (o : ChecksOutcome) (r : VerificationResult)
      → Source reads now deadline o
      → after_wait o (λ checks.
        by_checks
          (select is_failing checks)
          (select is_pending checks)
          (poll_mergeable states attempts 0 none none))
        ≡ verdict r
      → Grounds r
  after_wait-Grounds (returned checks) r (k, last, late) e =
      let (kind, failing) =
        by_checks-Kind now states deadline attempts k checks _ _ _ refl refl late
          (λ e'.
            poll_mergeable-Settled states attempts attempts 0 none none (omega arith) (inl refl) e')
          e in
      (checks, k, last, kind, failing)
  after_wait-Grounds (raised x) r source e = cc
  after_wait-Grounds spent r source e = cc

  -- A verdict rests on the list of checks that GitHub answered last. It is ready only where none of
  -- them failed or is pending and a state that was read says that the pull request can be merged and is
  -- not behind its base. It tells of a time-out only where none failed but some are pending at the
  -- deadline, and so a failing check is never taken for a slow one.
  pub verify-Grounds :
      (fuel : ℕ) (r : VerificationResult)
      → verify reads now states fuel start attempts check_timeout timeout ≡ verdict r
      → Grounds r
  unfolding verify
  verify-Grounds fuel r e =
      after_wait-Grounds (wait_for_checks reads now fuel start check_timeout timeout) r
        (wait_for_checks-Source reads now start check_timeout timeout fuel) e
