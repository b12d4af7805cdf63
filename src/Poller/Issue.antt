-- ===== src/Poller/Issue.antt =====
-- core/poller.py: the labels and assignees of an issue, and what a poll does with it.
use ctrlrelay.Base.{
  ℕ, Bool, true, false, not, ◌&&◌, ◌||◌, String, Option, none, List, [], ◌∷◌, select, find, is_some,
  if◌then◌else◌,
}
use ctrlrelay.Poller.Events.{
  Settings, Assignment, Labelling, EventsRead, contains, lowered, is_no_text, AssignmentCheck,
  accepted, foreign, check_failed, is_self_assigned, label_added_by_self,
}

-- A row of a search: its number and the time at which it was made, none where it cannot be read, and
-- the names of its labels and assignees.
pub record PolledIssue : Type 0 where
  pub number : Option ℕ
  pub created_at : Option ℕ
  pub labels : List String
  pub assignees : List String

abbrev pub is_match : Settings → List String → String → Bool
is_match s wanted name = not (is_no_text name) && contains (s.lower name) wanted

-- `_matched_exclude_label`, `_matched_include_label` and `_matched_require_label`.
unfoldable pub matched_label : Settings → PolledIssue → List String → Option String
matched_label s issue [] = none
matched_label s issue (w ∷ wanted) = find (is_match s (w ∷ wanted)) issue.labels

unfoldable pub matched_include_labels : Settings → PolledIssue → List String → List String
matched_include_labels s issue wanted = select (λ name. contains (s.lower name) wanted) issue.labels

unfoldable pub issue_is_assigned_to : PolledIssue → String → Bool
issue_is_assigned_to issue username = not (is_no_text username) && contains username issue.assignees

abbrev pub is_set : List String → Bool
is_set [] = false
is_set (t ∷ ts) = true

-- What is done with an issue: it stays as it is, is marked seen, or is handed out (and marked seen).
pub data Act : Type 0 where
  leave : Act
  mark : Act
  hand_out : Act

-- ... and whether an earlier hold on it is forgotten.
pub record Judgement : Type 0 where
  pub act : Act
  pub clears : Bool

abbrev pub only : Act → Judgement
only act = record { act = act; clears = false }

abbrev pub mark_if : Bool → Act
mark_if true = mark
mark_if false = leave

-- The assignment-only path, with whether the repository has trigger labels and the issue is held.
abbrev pub by_assignment : Bool → Bool → AssignmentCheck → Judgement
by_assignment has_include held accepted = only hand_out
by_assignment has_include held check_failed = only (mark_if (not held))
by_assignment has_include held foreign = record { act = mark_if (not has_include); clears = true }

module _ (s : Settings) (repo : String) where
  abbrev pub lacks_required : PolledIssue → Bool
  lacks_required issue =
      is_set (s.require_labels repo)
      && not (is_some (matched_label s issue (lowered s (s.require_labels repo))))

  abbrev pub label_match : PolledIssue → Bool
  label_match issue = is_some (matched_label s issue (lowered s (s.include_labels repo)))

  -- Whether the assignment counts; `in_query` says whether the assignee search returned the issue.
  abbrev pub counts_assigned : Bool → PolledIssue → Bool
  counts_assigned in_query issue =
      if is_set (s.include_labels repo)
      then (in_query || issue_is_assigned_to issue s.username) && not (lacks_required issue)
      else not (lacks_required issue)

  abbrev pub by_label : Bool → Bool → Judgement → Judgement
  by_label true is_assigned rest = only hand_out
  by_label false true rest = rest
  by_label false false rest = only leave

  abbrev pub by_trigger : PolledIssue → Bool → Bool → EventsRead Labelling → Judgement → Judgement
  by_trigger issue true is_assigned labellings rest =
      by_label
        (label_added_by_self s repo
          (matched_include_labels s issue (lowered s (s.include_labels repo))) labellings)
        is_assigned rest
  by_trigger issue false true labellings rest = rest
  by_trigger issue false false labellings rest = only leave

  -- What `poll` does with an issue that is new to it.
  unfoldable pub judge_new :
      PolledIssue → Bool → Bool → EventsRead Labelling → EventsRead Assignment → Judgement
  judge_new issue in_query held labellings assignments =
      if is_some (matched_label s issue (lowered s (s.exclude_labels repo)))
      then only mark
      else by_trigger issue (label_match issue) (counts_assigned in_query issue) labellings (
          by_assignment (is_set (s.include_labels repo)) held (is_self_assigned s repo assignments))
