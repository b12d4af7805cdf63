-- ===== src/Poller/HandedOut.antt =====
-- core/poller.py: what holds of the issues that a poll hands out.
use ctrlrelay.Base.{
  ℕ, ◌≤◌, ◌≡◌, ◌⊎◌, refl, sym, subst, ◌∙◌, Bool, true, false, String, Option, none, some, List, [],
  ◌∷◌, ◌++◌, count, All, Bool-cases, inl, inr, arith,
}
use ctrlrelay.Base.Members.{All-append, count-append}
use ctrlrelay.Poller.Events.{Settings, accepted, is_self_assigned, label_added_by_self, lowered}
use ctrlrelay.Poller.Issue.{PolledIssue, Act, leave, mark, hand_out, matched_include_labels}
use ctrlrelay.Poller.Book.{Key, Book, is_key, is_seen, mark_seen, recheck_due, entry}
use ctrlrelay.Poller.Searches.{Intake, any_candidate}
use ctrlrelay.Poller.Order.{Entry, All-order_batch, count-order_batch}
use ctrlrelay.Poller.Poll.{
  Answers, PollState, with_book, clear_if, act_on, judge_issue, judge_if_due, consider_number,
  consider, poll_issues, poll_candidates, poll_repo, poll_repos, poll,
}
use ctrlrelay.Poller.Trust.{
  key_of, IsTrusted, IsWanted, is_self_assigned-accepted, judge_new-hand_out,
}
use ctrlrelay.Poller.Kept.{
  is_seen_same, Keeps, same-Keeps, mark_seen-Keeps, is_seen-mark_seen, due_at-seen,
  any_candidate-seen, clear_if-Keeps, is_key-eq,
}

module _ (s : Settings) (answers : Answers) (before : Book) where
  -- What holds of an item that was handed out, by the book as it is now.
  abbrev pub IsHandedOut : Book → Entry → Type 0
  IsHandedOut now e =
      (is_seen (key_of e) before ≡ false) × (is_seen (key_of e) now ≡ true) × IsWanted s answers e

module _ (s : Settings) (intake : Intake) (answers : Answers) (before : Book) (k : Key) where
  abbrev is_for : Entry → Bool
  is_for e = is_key k (key_of e)

  record Inv (r : PollState) : Type 0 where
    kept : Keeps before r.book
    items : All (IsHandedOut s answers before r.book) r.batch
    once : ((is_seen k r.book ≡ true) × (count is_for r.batch ≤ 1)) ⊎ (count is_for r.batch ≡ 0)

  later-All :
      (b c : Book) (es : List Entry)
      → Keeps b c
      → All (IsHandedOut s answers before b) es
      → All (IsHandedOut s answers before c) es
  later-All b c [] keeps h = tt
  later-All b c (e ∷ es) keeps ((was, now, w), hs) =
      ((was, keeps (key_of e) now, w), later-All b c es keeps hs)

  with_book-Inv : (c : Book) (r : PollState) → Keeps r.book c → Inv r → Inv (with_book c r)
  with_book-Inv c r keeps i = record {
    kept = λ j h. keeps j (i.kept j h);
    items = later-All r.book c r.batch keeps i.items;
    once = later i.once;
  }
    where
      later :
          ((is_seen k r.book ≡ true) × (count is_for r.batch ≤ 1)) ⊎ (count is_for r.batch ≡ 0)
          → ((is_seen k c ≡ true) × (count is_for r.batch ≤ 1)) ⊎ (count is_for r.batch ≡ 0)
      later (inl (seen, one)) = inl (keeps k seen, one)
      later (inr none_yet) = inr none_yet

  hand_out-Inv :
      (clears : Bool) (e : Entry) (r : PollState)
      → is_seen (key_of e) r.book ≡ false
      → IsWanted s answers e
      → Inv r
      → Inv (act_on hand_out clears e r)
  hand_out-Inv clears e r fresh w i = record {
    kept = λ j h. keeps j (i.kept j h);
    items =
        All-append (IsHandedOut s answers before after) r.batch e
          (later-All r.book after r.batch keeps i.items)
          (was (Bool-cases (is_seen (key_of e) before)), now, w);
    once = at (Bool-cases (is_for e)) i.once;
  }
    where
      after : Book
      after = clear_if clears (key_of e) (mark_seen (key_of e) r.book)

      keeps : Keeps r.book after
      keeps j h =
          clear_if-Keeps clears (key_of e) (mark_seen (key_of e) r.book) j
            (mark_seen-Keeps (key_of e) r.book j h)

      now : is_seen (key_of e) after ≡ true
      now =
          clear_if-Keeps clears (key_of e) (mark_seen (key_of e) r.book) (key_of e)
            (is_seen-mark_seen (key_of e) r.book)

      at :
          (is_for e ≡ true) ⊎ (is_for e ≡ false)
          → ((is_seen k r.book ≡ true) × (count is_for r.batch ≤ 1)) ⊎ (count is_for r.batch ≡ 0)
          → ((is_seen k after ≡ true) × (count is_for (r.batch ++ e ∷ []) ≤ 1))
            ⊎ (count is_for (r.batch ++ e ∷ []) ≡ 0)
      at (inl mine) (inl (seen, one)) =
          let same : key_of e ≡ k = is_key-eq k e.repo e.number mine in
          let no : true ≡ false = sym (rw (← same) at seen) ∙ fresh in cc
      at (inl mine) (inr none_yet) =
          let same : key_of e ≡ k = is_key-eq k e.repo e.number mine in
          inl (
            subst (λ j. is_seen j after ≡ true) same now,
            rw (count-append is_for r.batch e, none_yet, mine) (omega arith),
          )
      at (inr other) (inl (seen, one)) =
          inl (keeps k seen, rw (count-append is_for r.batch e, other) (omega arith))
      at (inr other) (inr none_yet) = inr (rw (count-append is_for r.batch e, other, none_yet) refl)

      was :
          (is_seen (key_of e) before ≡ true) ⊎ (is_seen (key_of e) before ≡ false)
          → is_seen (key_of e) before ≡ false
      was (inl seen) = let no : true ≡ false = sym (i.kept (key_of e) seen) ∙ fresh in cc
      was (inr new) = new

  carry_out-Inv :
      (a : Act) (clears : Bool) (e : Entry) (r : PollState)
      → is_seen (key_of e) r.book ≡ false
      → (a ≡ hand_out → IsWanted s answers e)
      → Inv r
      → Inv (act_on a clears e r)
  carry_out-Inv leave clears e r fresh w i =
      with_book-Inv _ r (clear_if-Keeps clears (key_of e) r.book) i
  carry_out-Inv mark clears e r fresh w i =
      with_book-Inv _ r
        (λ j h.
          clear_if-Keeps clears (key_of e) (mark_seen (key_of e) r.book) j
            (mark_seen-Keeps (key_of e) r.book j h))
        i
  carry_out-Inv hand_out clears e r fresh w i = hand_out-Inv clears e r fresh (w refl) i

  judged-IsWanted :
      (e : Entry) (b : Book)
      → answers.archived e.repo ≡ false
      → (judge_issue s intake answers e b).act ≡ hand_out
      → IsWanted s answers e
  judged-IsWanted e b live h =
      let (wanted, how) = judge_new-hand_out s e.repo e.issue _ _ _ _ h in
      (trusted how, wanted, live)
    where
      trusted :
          (label_added_by_self s e.repo
                (matched_include_labels s e.issue (lowered s (s.include_labels e.repo)))
                (answers.labellings e.repo e.number)
              ≡ true)
            ⊎ (is_self_assigned s e.repo (answers.assignments e.repo e.number) ≡ accepted)
          → IsTrusted s answers e
      trusted (inl label) = inl label
      trusted (inr own) =
          inr (is_self_assigned-accepted s e.repo (answers.assignments e.repo e.number) own)

  consider-Inv :
      (repo : String) (issue : PolledIssue) (r : PollState)
      → answers.archived repo ≡ false
      → Inv r
      → Inv (consider s intake answers repo issue r)
  unfolding consider recheck_due
  consider-Inv repo issue r live i = by_number issue.number
    where
      due :
          (n : ℕ) (c : Bool × Book)
          → is_seen (repo, n) r.book ≡ false
          → c.1.seen_issues ≡ r.book.seen_issues
          → Inv
              (judge_if_due s intake answers c record { repo = repo; number = n; issue = issue } r)
      due n (false, b) fresh same = with_book-Inv b r (same-Keeps r.book b same) i
      due n (true, b) fresh same =
          carry_out-Inv _ _ record { repo = repo; number = n; issue = issue } (with_book b r)
            (rw (is_seen_same (repo, n) r.book b same) fresh)
            (judged-IsWanted record { repo = repo; number = n; issue = issue } b live)
            (with_book-Inv b r (same-Keeps r.book b same) i)

      by_number : (o : Option ℕ) → Inv (consider_number s intake answers o repo issue r)
      by_number none = i
      by_number (some n) = elim (Bool-cases (is_seen (repo, n) r.book)) [
        | inl seen ↦ rw seen i
        | inr fresh ↦ rw fresh (
            due n (recheck_due (repo, n) answers.now r.book) fresh
              (due_at-seen (entry (repo, n) r.book.recheck_after) (repo, n) answers.now r.book))
      ]

  poll_issues-Inv :
      (repo : String) (is : List PolledIssue) (r : PollState)
      → answers.archived repo ≡ false
      → Inv r
      → Inv (poll_issues s intake answers repo is r)
  unfolding poll_issues
  poll_issues-Inv repo [] r live i = i
  poll_issues-Inv repo (x ∷ is) r live i =
      poll_issues-Inv repo is (consider s intake answers repo x r) live
        (consider-Inv repo x r live i)

  poll_repo-Inv : (repo : String) (r : PollState) → Inv r → Inv (poll_repo s intake answers repo r)
  poll_repo-Inv repo r i =
      candidates (any_candidate repo answers.now (intake.assigned repo) _ r.book)
        (any_candidate-seen repo answers.now (intake.assigned repo) _ r.book)
    where
      candidates :
          (c : Bool × Book)
          → c.1.seen_issues ≡ r.book.seen_issues
          → Inv (poll_candidates s intake answers c repo r)
      candidates (false, b) same = with_book-Inv b r (same-Keeps r.book b same) i
      candidates (true, b) same = elim (Bool-cases (answers.archived repo)) [
        | inl gone ↦ rw gone (with_book-Inv b r (same-Keeps r.book b same) i)
        | inr live ↦ rw live (
            poll_issues-Inv repo _ (with_book b r) live
              (with_book-Inv b r (same-Keeps r.book b same) i))
      ]

  poll_repos-Inv :
      (repos : List String) (r : PollState) → Inv r → Inv (poll_repos s intake answers repos r)
  unfolding poll_repos
  poll_repos-Inv [] r i = i
  poll_repos-Inv (repo ∷ repos) r i =
      poll_repos-Inv repos (poll_repo s intake answers repo r) (poll_repo-Inv repo r i)

  -- A poll hands out an issue only where it was not seen before, is seen from then on (so that no later
  -- poll hands it out again until it is unmarked), carries no excluding label, stands in a repository
  -- that is not archived, and was handed over by an account that may: it added a trigger label, or
  -- made the operator's last assignment, where the repository does not take every one. And it hands
  -- out each issue at most once, however often the searches return it.
  pub poll-IsHandedOut :
      (priority_labels repos : List String)
      → All
          (IsHandedOut s answers before (poll s intake answers priority_labels repos before).book)
          (poll s intake answers priority_labels repos before).batch
        × (count is_for (poll s intake answers priority_labels repos before).batch ≤ 1)
  unfolding poll count
  poll-IsHandedOut priority_labels repos =
      let start : PollState = record { book = before; batch = [] } in
      let r : PollState = poll_repos s intake answers repos start in
      let i : Inv r =
        poll_repos-Inv repos start record { kept = λ j h. h; items = tt; once = inr refl } in
      (
        All-order_batch (IsHandedOut s answers before r.book) s priority_labels r.batch i.items,
        rw (count-order_batch is_for s priority_labels r.batch) (bound r i.once),
      )
    where
      bound :
          (r : PollState)
          → ((is_seen k r.book ≡ true) × (count is_for r.batch ≤ 1)) ⊎ (count is_for r.batch ≡ 0)
          → count is_for r.batch ≤ 1
      bound r (inl (_, one)) = one
      bound r (inr none_yet) = omega arith
