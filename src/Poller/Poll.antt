-- ===== src/Poller/Poll.antt =====
-- core/poller.py: one poll.
use ctrlrelay.Base.{
  ℕ, Bool, true, false, String, Option, none, some, List, [], ◌∷◌, ◌++◌, if◌then◌else◌,
}
use ctrlrelay.Poller.Events.{Settings, Assignment, Labelling, EventsRead}
use ctrlrelay.Poller.Issue.{PolledIssue, Act, leave, mark, hand_out, Judgement, judge_new}
use ctrlrelay.Poller.Book.{Key, Book, is_seen, mark_seen, recheck_due, is_held, clear_blocked}
use ctrlrelay.Poller.Searches.{Intake, labeled_rows, any_candidate, issues_in, in_query}
use ctrlrelay.Poller.Order.{Entry, order_batch}

-- What GitHub answers during the poll, and its time.
pub record Answers : Type 0 where
  pub now : ℕ
  pub archived : String → Bool
  pub labellings : String → ℕ → EventsRead Labelling
  pub assignments : String → ℕ → EventsRead Assignment

-- The book, and the issues handed out so far.
pub record PollState : Type 0 where
  pub book : Book
  pub batch : List Entry

abbrev pub with_book : Book → PollState → PollState
with_book b r = record { book = b; batch = r.batch }

abbrev pub clear_if : Bool → Key → Book → Book
clear_if true k b = clear_blocked k b
clear_if false k b = b

abbrev pub act_on : Act → Bool → Entry → PollState → PollState
act_on leave clears e r = with_book (clear_if clears (e.repo, e.number) r.book) r
act_on mark clears e r =
    with_book (clear_if clears (e.repo, e.number) (mark_seen (e.repo, e.number) r.book)) r
act_on hand_out clears e r = record {
  book = clear_if clears (e.repo, e.number) (mark_seen (e.repo, e.number) r.book);
  batch = r.batch ++ e ∷ [];
}

module _ (s : Settings) (intake : Intake) (answers : Answers) where
  abbrev pub judge_issue : Entry → Book → Judgement
  judge_issue e b =
      judge_new s e.repo e.issue (in_query intake e.repo e.number) (is_held (e.repo, e.number) b)
        (answers.labellings e.repo e.number) (answers.assignments e.repo e.number)

  abbrev pub judge_if_due : Bool × Book → Entry → PollState → PollState
  judge_if_due (false, b) e r = with_book b r
  judge_if_due (true, b) e r =
      act_on (judge_issue e b).act (judge_issue e b).clears e (with_book b r)

  abbrev pub consider_number : Option ℕ → String → PolledIssue → PollState → PollState
  consider_number none repo i r = r
  consider_number (some n) repo i r =
      if is_seen (repo, n) r.book
      then r
      else judge_if_due (recheck_due (repo, n) answers.now r.book)
          record { repo = repo; number = n; issue = i } r

  unfoldable pub consider : String → PolledIssue → PollState → PollState
  consider repo i r = consider_number i.number repo i r

  unfoldable pub poll_issues : String → List PolledIssue → PollState → PollState
  poll_issues repo [] r = r
  poll_issues repo (i ∷ is) r = poll_issues repo is (consider repo i r)

  abbrev pub poll_candidates : Bool × Book → String → PollState → PollState
  poll_candidates (false, b) repo r = with_book b r
  poll_candidates (true, b) repo r =
      if answers.archived repo
      then with_book b r
      else poll_issues repo (issues_in s intake repo) (with_book b r)

  abbrev pub poll_repo : String → PollState → PollState
  poll_repo repo r =
      poll_candidates
        (any_candidate repo answers.now (intake.assigned repo)
          (labeled_rows s intake repo (s.include_labels repo)) r.book)
        repo r

  unfoldable pub poll_repos : List String → PollState → PollState
  poll_repos [] r = r
  poll_repos (repo ∷ repos) r = poll_repos repos (poll_repo repo r)

  -- `poll`, over the repositories that have issues enabled, after the searches answered.
  unfoldable pub poll : List String → List String → Book → PollState
  unfolding poll_repos
  poll priority_labels repos b =
      let r = poll_repos repos record { book = b; batch = [] } in
      record { book = r.book; batch = order_batch s priority_labels r.batch }
