-- ===== src/Poller/Searches.antt =====
-- core/poller.py: the issues that the searches of one poll returned, by repository.
use ctrlrelay.Base.{
  ℕ, Bool, true, false, String, Option, none, some, List, [], ◌∷◌, ◌++◌, any, ◌==◌, if◌then◌else◌,
}
use ctrlrelay.Poller.Events.{Settings}
use ctrlrelay.Poller.Issue.{PolledIssue, is_set}
use ctrlrelay.Poller.Book.{Book, is_seen, recheck_due}

-- What the search for a trigger label came to: the issues by repository, or an error.
pub data Search : Type 0 where
  found : (String → List PolledIssue) → Search
  search_failed : Search

-- `_Intake`, by repository and by label in lower case.
pub record Intake : Type 0 where
  pub assigned : String → List PolledIssue
  pub labeled : String → Search

abbrev pub joined : Search → String → Option (List PolledIssue) → Option (List PolledIssue)
joined search_failed repo rest = none
joined (found by_repo) repo none = none
joined (found by_repo) repo (some rows) = some (by_repo repo ++ rows)

module _ (s : Settings) (intake : Intake) where
  -- The rows of the trigger labels; none where a search failed.
  unfoldable pub labeled_rows : String → List String → Option (List PolledIssue)
  labeled_rows repo [] = some []
  labeled_rows repo (label ∷ labels) =
      joined (intake.labeled (s.lower label)) repo (labeled_rows repo labels)

abbrev pub or_fresh : Bool × Book → (Book → Bool × Book) → Bool × Book
or_fresh (true, b) rest = (true, b)
or_fresh (false, b) rest = rest b

abbrev pub is_fresh : String → ℕ → Option ℕ → Book → Bool × Book
is_fresh repo now none b = (true, b)
is_fresh repo now (some n) b =
    if is_seen (repo, n) b then (false, b) else recheck_due (repo, n) now b

-- Whether a row is malformed or new: `has_candidates`, with `fresh` as `poll` gives it.
unfoldable pub any_fresh : String → ℕ → List PolledIssue → Book → Bool × Book
unfolding is_seen recheck_due
any_fresh repo now [] b = (false, b)
any_fresh repo now (row ∷ rows) b =
    or_fresh (is_fresh repo now row.number b) (any_fresh repo now rows)

abbrev pub any_candidate :
    String → ℕ → List PolledIssue → Option (List PolledIssue) → Book → Bool × Book
any_candidate repo now assigned none b = (true, b)
any_candidate repo now assigned (some labeled) b = any_fresh repo now (assigned ++ labeled) b

-- `by_number`: the rows by their number, in the order in which the numbers first came.
unfoldable pub put_row : ℕ → PolledIssue → List (ℕ × PolledIssue) → List (ℕ × PolledIssue)
put_row n i [] = (n, i) ∷ []
put_row n i ((m, j) ∷ rows) =
    let rest = put_row n i rows in if m == n then (n, i) ∷ rows else (m, j) ∷ rest

abbrev pub has_row : ℕ → List (ℕ × PolledIssue) → Bool
has_row n rows = any (λ r. r.0 == n) rows

abbrev pub add_assigned : Option ℕ → PolledIssue → List (ℕ × PolledIssue) → List (ℕ × PolledIssue)
add_assigned none i rows = rows
add_assigned (some n) i rows = put_row n i rows

abbrev pub add_labeled : Option ℕ → PolledIssue → List (ℕ × PolledIssue) → List (ℕ × PolledIssue)
add_labeled none i rows = rows
add_labeled (some n) i rows = if has_row n rows then rows else rows ++ (n, i) ∷ []

unfoldable pub all_assigned : List PolledIssue → List (ℕ × PolledIssue) → List (ℕ × PolledIssue)
all_assigned [] rows = rows
all_assigned (i ∷ is) rows = all_assigned is (add_assigned i.number i rows)

unfoldable pub all_labeled : List PolledIssue → List (ℕ × PolledIssue) → List (ℕ × PolledIssue)
all_labeled [] rows = rows
all_labeled (i ∷ is) rows = all_labeled is (add_labeled i.number i rows)

abbrev pub add_search : Search → String → List (ℕ × PolledIssue) → List (ℕ × PolledIssue)
add_search search_failed repo rows = rows
add_search (found by_repo) repo rows = all_labeled (by_repo repo) rows

unfoldable pub issues_of : List (ℕ × PolledIssue) → List PolledIssue
issues_of [] = []
issues_of ((n, i) ∷ rows) = i ∷ issues_of rows

unfoldable pub add_labels :
    Settings → Intake → String → List String → List (ℕ × PolledIssue) → List (ℕ × PolledIssue)
add_labels s intake repo [] rows = rows
add_labels s intake repo (label ∷ labels) rows =
    add_labels s intake repo labels (add_search (intake.labeled (s.lower label)) repo rows)

unfoldable pub issues_in : Settings → Intake → String → List PolledIssue
issues_in s intake repo =
    if is_set (s.include_labels repo)
    then issues_of
        (add_labels s intake repo (s.include_labels repo) (all_assigned (intake.assigned repo) []))
    else intake.assigned repo

abbrev pub is_number : ℕ → Option ℕ → Bool
is_number n none = false
is_number n (some m) = m == n

-- `number in assignee_trigger_numbers`.
abbrev pub in_query : Intake → String → ℕ → Bool
in_query intake repo n = any (λ i. is_number n i.number) (intake.assigned repo)
