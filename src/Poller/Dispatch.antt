-- ===== src/Poller/Dispatch.antt =====
-- core/poller.py and core/blockers.py: the checks of an issue just before it is started.
use ctrlrelay.Base.{
  ℕ, Bool, not, ◌&&◌, String, Option, none, some, List, [], ◌∷◌, map, select, str_eq, is_some,
  is_none, if◌then◌else◌, ◌||◌,
}
use ctrlrelay.Poller.Events.{Settings, contains, lowered, is_no_text}
use ctrlrelay.Poller.Issue.{PolledIssue, matched_label, lacks_required}
use ctrlrelay.Poller.Book.{
  Key, Book, unmark_seen, clear_blocked, note_blocked, note_blockers_unreadable,
}

-- What `get_issue_gate` answers.
pub data Live : Type 0 where
  live_is : String → List String → List String → Live
  unknown : Live

abbrev pub with_live : PolledIssue → List String → List String → PolledIssue
with_live issue labels assignees = record {
  number = issue.number;
  created_at = issue.created_at;
  labels = labels;
  assignees = assignees;
}

module _ (s : Settings) (repo : String) where
  -- Assigned to the operator, with a required label where one is needed.
  abbrev pub still_assigned : PolledIssue → Bool
  still_assigned fresh =
      not (is_no_text (s.lower s.username))
      && contains (s.lower s.username) (lowered s fresh.assignees)
      && not (lacks_required s repo fresh)

  -- Whether the issue, as it is now, may start.
  abbrev pub may_start : String → PolledIssue → Bool
  may_start state fresh =
      str_eq (s.lower state) "open"
      && is_none (matched_label s fresh (lowered s (s.exclude_labels repo)))
      && (still_assigned fresh
          || is_some (matched_label s fresh (lowered s (s.include_labels repo))))

  abbrev pub recheck_live : Live → ℕ → PolledIssue → Book → Option PolledIssue × Book
  recheck_live unknown n issue b = (none, unmark_seen (repo, n) b)
  recheck_live (live_is state labels assignees) n issue b =
      if may_start state (with_live issue labels assignees)
      then (some (with_live issue labels assignees), b)
      else (none, clear_blocked (repo, n) (unmark_seen (repo, n) b))

  unfoldable pub recheck_before_dispatch : Live → ℕ → PolledIssue → Book → Option PolledIssue × Book
  recheck_before_dispatch live n issue b = recheck_live live n issue b

-- What `list_blocked_by` answers: the state of each blocker and its reference, or an error.
pub record Blocker : Type 0 where
  pub ref : String
  pub state : String

pub data Blockers : Type 0 where
  blockers_are : List Blocker → Blockers
  blockers_unreadable : Blockers

-- Why an issue is not started, and whether the chat is told; the texts before they are formatted.
pub data BlockerHold : Type 0 where
  unreadable_hold : Bool → BlockerHold
  blocked_hold : List String → Bool → BlockerHold

unfoldable pub still_open : List Blocker → List String
still_open blockers = map (λ b. b.ref) (select (λ b. str_eq b.state "open") blockers)

abbrev pub unreadable_by : Bool × Book → Option BlockerHold × Book
unreadable_by (news, b) = (some (unreadable_hold news), b)

abbrev pub blocked_by : List String → Bool × Book → Option BlockerHold × Book
blocked_by refs (news, b) = (some (blocked_hold refs news), b)

abbrev pub hold_on : List String → Key → Book → Option BlockerHold × Book
hold_on [] k b = (none, clear_blocked k b)
hold_on (r ∷ refs) k b = blocked_by (r ∷ refs) (note_blocked k (r ∷ refs) b)

unfoldable pub hold_if_blocked : Blockers → Key → Book → Option BlockerHold × Book
hold_if_blocked blockers_unreadable k b = unreadable_by (note_blockers_unreadable k b)
hold_if_blocked (blockers_are bs) k b = hold_on (still_open bs) k b
