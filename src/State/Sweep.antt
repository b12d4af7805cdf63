-- ===== src/State/Sweep.antt =====
-- core/state.py: what the sweeper, the bridge and the issue watcher read of `pending_resumes`, and
-- how they close a row.
use ctrlrelay.Base.{
  ℕ, Bool, true, false, ◌&&◌, ◌||◌, String, Option, none, some, List, [], ◌∷◌, str_eq, leb, find,
  count, delete, select, is_none, is_some, max, or_else, num_is, sort_by,
}
use ctrlrelay.Sqlite.{M, ◌>>=◌, ◌>>◌, pure, write, commit}
use ctrlrelay.State.Rows.{Pending, Db}
use ctrlrelay.State.Pending.{is_row, is_open, update_row, changed}

-- SQL's `a IS b` on texts: NULL is NULL.
abbrev pub is_same : Option String → Option String → Bool
is_same none none = true
is_same none (some b) = false
is_same (some a) none = false
is_same (some a) (some b) = str_eq a b

abbrev pub may_resume : Option ℕ → Option String → Pending → Bool
may_resume none answer r = is_some r.answered_at
may_resume (some t) answer r = num_is r.answered_at t && is_same r.answer answer

abbrev pub resumed : ℕ → Pending → Pending
resumed now r = record r { resumed_at = some now }

unfoldable pub mark_pending_resume_resumed : ℕ → String → Option ℕ → Option String → M Db Bool
mark_pending_resume_resumed now session_id answered_at answer =
    changed (update_row session_id (may_resume answered_at answer) (resumed now))

-- Answered, not yet resumed, and not expired.
abbrev pub is_to_execute : Pending → Bool
is_to_execute r = is_some r.answered_at && is_none r.resumed_at && is_none r.expired_at

unfoldable pub list_pending_resumes_to_execute : Db → List Pending
list_pending_resumes_to_execute d =
    sort_by (λ r. or_else r.answered_at 0) (select is_to_execute d.pending_resumes)

unfoldable pub list_unanswered_pending_resumes : Db → List Pending
list_unanswered_pending_resumes d = sort_by (λ r. r.created_at) (select is_open d.pending_resumes)

abbrev first : List Pending → Option Pending
first [] = none
first (r ∷ rs) = some r

abbrev is_of_pipeline : Option String → Pending → Bool
is_of_pipeline none r = true
is_of_pipeline (some p) r = str_eq r.pipeline p

unfoldable pub get_oldest_unanswered_pending_resume : Option String → Db → Option Pending
get_oldest_unanswered_pending_resume pipeline d = first (
    sort_by (λ r. r.created_at)
      (select (λ r. is_open r && is_of_pipeline pipeline r) d.pending_resumes))

unfoldable pub get_pending_resume : String → Db → Option Pending
get_pending_resume session_id d = find (is_row session_id) d.pending_resumes

unfoldable pub list_expirable_pending_resumes : ℕ → Db → List Pending
list_expirable_pending_resumes older_than_ts d =
    sort_by (λ r. r.created_at)
      (select (λ r. is_open r && leb r.created_at older_than_ts) d.pending_resumes)

unfoldable pub list_pending_resumes_for_repo : String → Db → List Pending
list_pending_resumes_for_repo repo d =
    sort_by (λ r. r.created_at) (select (λ r. str_eq r.repo repo) d.pending_resumes)

abbrev pub last_activity : Pending → ℕ
last_activity r =
    max (max r.created_at (or_else r.answered_at 0))
      (max (or_else r.resumed_at 0) (or_else r.expired_at 0))

abbrev pub is_prunable : ℕ → Pending → Bool
is_prunable older_than_ts r =
    (is_some r.expired_at || is_some r.resumed_at) && leb (last_activity r) older_than_ts

unfoldable pub prune_rows : ℕ → Db → Option (ℕ × Db)
prune_rows older_than_ts d =
    let p = is_prunable older_than_ts in
    some (count p d.pending_resumes, record d { pending_resumes = delete p d.pending_resumes })

unfoldable pub prune_finished_pending_resumes : ℕ → M Db ℕ
unfolding prune_rows
prune_finished_pending_resumes older_than_ts = do
  n ← write (prune_rows older_than_ts)
  commit
  pure n

abbrev pub asked_on_issue : ℕ → ℕ → ℕ → Pending → Pending
asked_on_issue issue_number comment_id asked_at r = record r {
  issue_number = some issue_number;
  issue_comment_id = some comment_id;
  issue_asked_at = some asked_at;
}

unfoldable pub record_issue_question : String → ℕ → ℕ → ℕ → M Db Bool
record_issue_question session_id issue_number comment_id asked_at =
    changed (update_row session_id is_open (asked_on_issue issue_number comment_id asked_at))

unfoldable pub list_issue_questions_to_watch : Db → List Pending
list_issue_questions_to_watch d =
    sort_by (λ r. r.created_at)
      (select (λ r. is_open r && is_some r.issue_comment_id) d.pending_resumes)

abbrev pub may_note : ℕ → Pending → Bool
may_note answered_at r = num_is r.answered_at answered_at && is_none r.answer_noted_at

abbrev pub noted : Option ℕ → Pending → Pending
noted t r = record r { answer_noted_at = t }

unfoldable pub mark_answer_noted : ℕ → String → ℕ → M Db Bool
mark_answer_noted now session_id answered_at =
    changed (update_row session_id (may_note answered_at) (noted (some now)))

unfoldable pub release_answer_noted : String → ℕ → M Db (Unit {0})
release_answer_noted session_id answered_at = do
  write (update_row session_id (λ r. num_is r.answered_at answered_at) (noted none))
  commit
