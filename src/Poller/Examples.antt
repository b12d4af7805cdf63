-- ===== src/Poller/Examples.antt =====
-- core/poller.py: a poll of two repositories.
use mathlib.Core.List.{Memᴰ}
use ctrlrelay.Base.{
  inr, ◌≤◌, ◌≡◌, refl, false, String, none, some, List, [], ◌∷◌, count, All, any, find, delete,
  select, str_eq, if◌then◌else◌,
}
use ctrlrelay.Poller.Events.{
  Settings, events, label_added_by_self, after_last, is_allowed, is_self_assigned, last_of,
}
use ctrlrelay.Poller.Issue.{
  PolledIssue, judge_new, matched_label, matched_include_labels, issue_is_assigned_to,
}
use ctrlrelay.Poller.Book.{
  Book, is_key, clear_blocked, drop_entry, entry, is_held, is_seen, mark_seen, recheck_due,
}
use ctrlrelay.Poller.Searches.{
  Intake, found, labeled_rows, any_fresh, issues_in, issues_of, add_labels, all_labeled,
  all_assigned, put_row,
}
use ctrlrelay.Poller.Poll.{Answers, poll, poll_issues, poll_repos, consider}
use ctrlrelay.Poller.Order.{
  order_batch, best_rank, count_labels, insert_entry, is_before, priority_rank, rank_in,
  sort_entries,
}
use ctrlrelay.Poller.Trust.{key_of}
use ctrlrelay.Poller.Dispatch.{
  Live, live_is, Blockers, blockers_are, recheck_before_dispatch, hold_if_blocked,
}
use ctrlrelay.Poller.Offered.{NextPoll, Rechecked, Unblocked, start_or_offer}
use ctrlrelay.Poller.HandedOut.{IsHandedOut, poll-IsHandedOut}

-- One repository with a trigger label; any assignment needs the operator.
abbrev settings : Settings
settings = record {
  lower = λ t. t;
  username = "operator";
  allowed_accounts = λ repo. [];
  accepts_foreign = λ repo. false;
  exclude_labels = λ repo. "manual" ∷ [];
  include_labels = λ repo. if str_eq repo "a/one" then "agent" ∷ [] else [];
  require_labels = λ repo. [];
}

abbrev labelled : PolledIssue
labelled = record { number = some 7; created_at = some 50; labels = "agent" ∷ []; assignees = [] }

abbrev assigned : PolledIssue
assigned = record {
  number = some 3;
  created_at = some 40;
  labels = [];
  assignees = "operator" ∷ [];
}

abbrev excluded : PolledIssue
excluded = record { number = some 4; created_at = none; labels = "manual" ∷ []; assignees = [] }

abbrev intake : Intake
intake = record {
  assigned = λ repo. if str_eq repo "a/two" then assigned ∷ excluded ∷ assigned ∷ [] else [];
  labeled = λ label. found (λ repo. if str_eq repo "a/one" then labelled ∷ [] else []);
}

abbrev answers : Answers
answers = record {
  now = 100;
  archived = λ repo. false;
  labellings = λ repo n. events (record { label = some "agent"; actor = some "operator" } ∷ []);
  assignments =
      λ repo n. events (record { assignee = some "operator"; assigner = some "operator" } ∷ []);
}

abbrev empty_book : Book
empty_book = record {
  seen_issues = [];
  recheck_after = [];
  blocked = [];
  pre_dispatch_failures = [];
  publish_failures = [];
}

abbrev repos : List String
repos = "a/one" ∷ "a/two" ∷ []

-- The older issue first, and the repeated row once.
hands_out :
    (poll settings intake answers [] repos empty_book).batch
    ≡ record { repo = "a/two"; number = 3; issue = assigned }
      ∷ record { repo = "a/one"; number = 7; issue = labelled }
      ∷ []
unfolding poll order_batch labeled_rows any_fresh any find poll_issues issues_in issues_of
    add_labels all_labeled all_assigned consider judge_new matched_label label_added_by_self
    matched_include_labels delete select clear_blocked drop_entry entry is_held is_seen mark_seen
    recheck_due after_last is_allowed is_self_assigned last_of issue_is_assigned_to best_rank
    count_labels insert_entry is_before priority_rank rank_in sort_entries poll_repos put_row
hands_out = refl

poll-IsHandedOut_example :
    All
      (IsHandedOut settings answers empty_book
        (poll settings intake answers [] repos empty_book).book)
      (poll settings intake answers [] repos empty_book).batch
    × (count
          (λ e. is_key ("a/two", 3) (key_of e))
          (poll settings intake answers [] repos empty_book).batch
        ≤ 1)
poll-IsHandedOut_example = poll-IsHandedOut settings intake answers empty_book ("a/two", 3) [] repos

abbrev still_labelled : Live
still_labelled = live_is "open" ("agent" ∷ []) []

abbrev waits_for : Blockers
waits_for =
    blockers_are
      (record { ref = "#5"; state = "closed" } ∷ record { ref = "a/two#6"; state = "open" } ∷ [])

-- The same searches, two minutes later.
abbrev next : NextPoll
next = record {
  intake = intake;
  answers = record {
    now = 220;
    archived = answers.archived;
    labellings = answers.labellings;
    assignments = answers.assignments;
  };
  priority_labels = [];
  repos = repos;
}

abbrev waited_book : Book
waited_book = record {
  seen_issues = ("a/one", 7) ∷ [];
  recheck_after = (("a/one", 7), 150) ∷ [];
  blocked = [];
  pre_dispatch_failures = [];
  publish_failures = [];
}

start_or_offer_example :
    Rechecked settings "a/one" 7 next still_labelled labelled empty_book
      (recheck_before_dispatch settings "a/one" still_labelled 7 labelled empty_book)
    × Unblocked settings "a/one" 7 next waits_for
        (hold_if_blocked waits_for ("a/one", 7) waited_book)
unfolding issues_in issues_of add_labels all_labeled all_assigned put_row labeled_rows any entry
    judge_new matched_label matched_include_labels label_added_by_self is_allowed find select
    last_of
start_or_offer_example =
    start_or_offer settings "a/one" 7 next still_labelled waits_for labelled empty_book waited_book
      record { visits = Memᴰ.head refl; live = refl; there = refl; picked = (inr (refl, refl), tt) }
      refl refl
