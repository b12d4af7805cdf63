-- ===== src/Poller/Next.antt =====
-- core/poller.py: an issue that is not seen is handed out by the next poll that finds it.
use mathlib.Core.List.{Memᴰ}
use ctrlrelay.Base.{
  ℕ, ◌≡◌, inl, inr, sym, subst, ◌∙◌, Bool, true, false, String, Option, none, some, List, [], ◌∷◌,
  All, any, arith, ltb, str_eq, eq_iff, eq_refl, Bool-cases, ap, ◌==◌,
}
use ctrlrelay.Base.Keyed.{count-pos_any}
use ctrlrelay.Poller.Events.{Settings}
use ctrlrelay.Poller.Issue.{PolledIssue}
use ctrlrelay.Poller.Book.{Key, Book, is_key}
use ctrlrelay.Poller.Searches.{Intake, any_candidate, issues_in, is_number}
use ctrlrelay.Poller.Order.{order_batch, count-order_batch}
use ctrlrelay.Poller.Poll.{
  consider_number, Answers, PollState, with_book, consider, poll_issues, poll_candidates, poll_repo,
  poll_repos, poll,
}
use ctrlrelay.Poller.Fresh.{IsFresh, any_candidate-IsFresh}
use ctrlrelay.Poller.Candidates.{numbered, any_candidate-found}
use ctrlrelay.Poller.Awaits.{is_for, Picked, Awaits, number-grows, number-hit, number-Awaits}

module _ (s : Settings) (intake : Intake) (answers : Answers) (k : Key) where
  -- A row that stands for another issue, or that the poll is to hand out.
  abbrev pub IsPicked : String → PolledIssue → Type 0
  IsPicked repo i = Picked s intake answers k repo i i.number

  issues-Awaits :
      (repo : String) (is : List PolledIssue) (r : PollState)
      → All (IsPicked repo) is
      → Awaits s intake answers k r
      → Awaits s intake answers k (poll_issues s intake answers repo is r)
  unfolding poll_issues consider
  issues-Awaits repo [] r p a = a
  issues-Awaits repo (i ∷ is) r (p, ps) a =
      issues-Awaits repo is (consider s intake answers repo i r) ps
        (number-Awaits s intake answers k i.number repo i r p a)

  issues-grows :
      (repo : String) (is : List PolledIssue) (r : PollState)
      → any (is_for s intake answers k) r.batch ≡ true
      → any (is_for s intake answers k) (poll_issues s intake answers repo is r).batch ≡ true
  unfolding poll_issues consider
  issues-grows repo [] r h = h
  issues-grows repo (i ∷ is) r h =
      issues-grows repo is (consider s intake answers repo i r)
        (number-grows s intake answers k i.number repo i r h)

  own-key : (m : ℕ) → (m == k.1) ≡ true → is_key k (k.0, m) ≡ true
  own-key m h = rw (eq_refl k.0) h

  issues-hit :
      (is : List PolledIssue) (r : PollState)
      → All (IsPicked k.0) is
      → any (numbered k.1) is ≡ true
      → Awaits s intake answers k r
      → any (is_for s intake answers k) (poll_issues s intake answers k.0 is r).batch ≡ true
  unfolding poll_issues consider any
  issues-hit [] r p h a = cc
  issues-hit (i ∷ is) r (p, ps) h a = elim (Bool-cases (numbered k.1 i)) [
    | inl own ↦ issues-grows k.0 is (consider s intake answers k.0 i r) (at_number i.number own p)
    | inr other ↦
        issues-hit is (consider s intake answers k.0 i r) ps (ground (arith, other, h))
          (number-Awaits s intake answers k i.number k.0 i r p a)
  ]
    where
      at_number :
          (o : Option ℕ)
          → is_number k.1 o ≡ true
          → Picked s intake answers k k.0 i o
          → any (is_for s intake answers k) (consider_number s intake answers o k.0 i r).batch
            ≡ true
      at_number none own p = cc
      at_number (some m) own p = number-hit s intake answers k k.0 i m r (own-key m own) p a

  book-Awaits :
      (b : Book) (r : PollState)
      → (IsFresh k answers.now r.book → IsFresh k answers.now b)
      → Awaits s intake answers k r
      → Awaits s intake answers k (with_book b r)
  book-Awaits b r keeps (inl f) = inl (keeps f)
  book-Awaits b r keeps (inr h) = inr h

  repo-Awaits :
      (repo : String) (r : PollState)
      → All (IsPicked repo) (issues_in s intake repo)
      → Awaits s intake answers k r
      → Awaits s intake answers k (poll_repo s intake answers repo r)
  repo-Awaits repo r p a =
      by_candidates (any_candidate repo answers.now (intake.assigned repo) _ r.book)
        (λ f. any_candidate-IsFresh k answers.now repo (intake.assigned repo) _ r.book f)
    where
      by_candidates :
          (c : Bool × Book)
          → (IsFresh k answers.now r.book → IsFresh k answers.now c.1)
          → Awaits s intake answers k (poll_candidates s intake answers c repo r)
      by_candidates (false, b) keeps = book-Awaits b r keeps a
      by_candidates (true, b) keeps = elim (Bool-cases (answers.archived repo)) [
        | inl gone ↦ rw gone (book-Awaits b r keeps a)
        | inr live ↦ rw live (issues-Awaits repo _ (with_book b r) p (book-Awaits b r keeps a))
      ]

  repo-grows :
      (repo : String) (r : PollState)
      → any (is_for s intake answers k) r.batch ≡ true
      → any (is_for s intake answers k) (poll_repo s intake answers repo r).batch ≡ true
  repo-grows repo r h =
      by_candidates (any_candidate repo answers.now (intake.assigned repo) _ r.book)
    where
      by_candidates :
          (c : Bool × Book)
          → any (is_for s intake answers k) (poll_candidates s intake answers c repo r).batch ≡ true
      by_candidates (false, b) = h
      by_candidates (true, b) = elim (Bool-cases (answers.archived repo)) [
        | inl gone ↦ rw gone h
        | inr live ↦ rw live (issues-grows repo _ (with_book b r) h)
      ]

  repo-hit :
      (r : PollState)
      → answers.archived k.0 ≡ false
      → any (numbered k.1) (issues_in s intake k.0) ≡ true
      → All (IsPicked k.0) (issues_in s intake k.0)
      → Awaits s intake answers k r
      → any (is_for s intake answers k) (poll_repo s intake answers k.0 r).batch ≡ true
  repo-hit r live there p (inr h) = repo-grows k.0 r h
  repo-hit r live there p (inl f) =
      by_candidates (any_candidate k.0 answers.now (intake.assigned k.0) _ r.book)
        (any_candidate-found k.1 s intake k.0 answers.now r.book f there)
        (any_candidate-IsFresh k answers.now k.0 (intake.assigned k.0) _ r.book f)
    where
      by_candidates :
          (c : Bool × Book)
          → c.0 ≡ true
          → IsFresh k answers.now c.1
          → any (is_for s intake answers k) (poll_candidates s intake answers c k.0 r).batch ≡ true
      by_candidates (false, b) h f = cc
      by_candidates (true, b) h f = rw live (issues-hit _ (with_book b r) p there (inl f))

  -- The rows of another repository stand for other issues.
  IsPicked-in :
      (repo : String)
      → All (IsPicked k.0) (issues_in s intake k.0)
      → All (IsPicked repo) (issues_in s intake repo)
  IsPicked-in repo p = elim (Bool-cases (str_eq k.0 repo)) [
    | inl same ↦ subst (λ x. All (IsPicked x) (issues_in s intake x)) ((eq_iff k.0 repo).0 same) p
    | inr other ↦ others (issues_in s intake repo) other
  ]
    where
      apart :
          (o : Option ℕ) (i : PolledIssue)
          → str_eq k.0 repo ≡ false
          → Picked s intake answers k repo i o
      apart none i h = tt
      apart (some m) i h = inl (ground (arith, eq_iff k.0 repo, eq_iff repo k.0, h))

      others : (is : List PolledIssue) → str_eq k.0 repo ≡ false → All (IsPicked repo) is
      others [] h = tt
      others (i ∷ is) h = (apart i.number i h, others is h)

  repos-grows :
      (repos : List String) (r : PollState)
      → any (is_for s intake answers k) r.batch ≡ true
      → any (is_for s intake answers k) (poll_repos s intake answers repos r).batch ≡ true
  unfolding poll_repos
  repos-grows [] r h = h
  repos-grows (repo ∷ repos) r h =
      repos-grows repos (poll_repo s intake answers repo r) (repo-grows repo r h)

  repos-hit :
      (repos : List String) (r : PollState)
      → Memᴰ k.0 repos
      → answers.archived k.0 ≡ false
      → any (numbered k.1) (issues_in s intake k.0) ≡ true
      → All (IsPicked k.0) (issues_in s intake k.0)
      → Awaits s intake answers k r
      → any (is_for s intake answers k) (poll_repos s intake answers repos r).batch ≡ true
  unfolding poll_repos
  repos-hit [] r m live there p a = elim m [ ]
  repos-hit (repo ∷ repos) r (Memᴰ.head e) live there p a =
      repos-grows repos (poll_repo s intake answers repo r) (
        subst (λ x. any (is_for s intake answers k) (poll_repo s intake answers x r).batch ≡ true) e
          (repo-hit r live there p a))
  repos-hit (repo ∷ repos) r (Memᴰ.tail m) live there p a =
      repos-hit repos (poll_repo s intake answers repo r) m live there p
        (repo-Awaits repo r (IsPicked-in repo p) a)

  -- A poll that finds the issue, in a repository that is not archived, hands it out where it is not
  -- seen, no time before which to leave it alone is still to come, and it is judged so.
  pub poll-offers :
      (priority_labels repos : List String) (b : Book)
      → IsFresh k answers.now b
      → Memᴰ k.0 repos
      → answers.archived k.0 ≡ false
      → any (numbered k.1) (issues_in s intake k.0) ≡ true
      → All (IsPicked k.0) (issues_in s intake k.0)
      → any (is_for s intake answers k) (poll s intake answers priority_labels repos b).batch ≡ true
  unfolding poll
  poll-offers priority_labels repos b f m live there p =
      let r : PollState = poll_repos s intake answers repos record { book = b; batch = [] } in
      let hit : any (is_for s intake answers k) r.batch ≡ true =
        repos-hit repos record { book = b; batch = [] } m live there p (inl f) in
      sym (count-pos_any (is_for s intake answers k) (order_batch s priority_labels r.batch))
      ∙ ap (ltb 0) (count-order_batch (is_for s intake answers k) s priority_labels r.batch)
      ∙ count-pos_any (is_for s intake answers k) r.batch
      ∙ hit
