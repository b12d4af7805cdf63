-- ===== src/State/Lifecycle.antt =====
-- core/state.py: the methods that write `pending_resumes`, as the steps of a trace. Several daemons
-- run them in any order, and the database may be locked under any of them.
pub mod Steps
pub mod Stable
pub mod Kept
pub mod Routable
use ctrlrelay.Base.{ℕ, Bool, Option, List, [], ◌∷◌, String}
use ctrlrelay.Sqlite.{Conn}
use ctrlrelay.State.Rules.{after}
use ctrlrelay.State.Rows.{Db}
use ctrlrelay.State.Pending.{
  add_pending_resume, park_blocked_question, take_parked_answer, expire_pending_resume,
  answer_pending_resume,
}
use ctrlrelay.State.Sweep.{
  mark_pending_resume_resumed, prune_finished_pending_resumes, record_issue_question,
  mark_answer_noted, release_answer_noted,
}

-- The calls, each with the time that it reads from the clock.
pub data Op : Type 0 where
  ask :
      (now : ℕ) (session_id pipeline repo question : String) (held_until : Option ℕ)
      (posted : Option Bool)
      → Op
  park : (now : ℕ) (session_id pipeline repo question : String) → Op
  answer : (now : ℕ) (session_id text : String) (source by : Option String) (ref : Option ℕ) → Op
  take : (now : ℕ) (session_id text : String) → Op
  expire : (now : ℕ) (session_id reason : String) → Op
  resume : (now : ℕ) (session_id : String) (answered_at : Option ℕ) (text : Option String) → Op
  prune : (older_than_ts : ℕ) → Op
  note_issue : (session_id : String) (issue_number comment_id asked_at : ℕ) → Op
  note_answer : (now : ℕ) (session_id : String) (answered_at : ℕ) → Op
  unnote_answer : (session_id : String) (answered_at : ℕ) → Op

unfoldable pub step : Op → Conn Db → Conn Db
step (ask now sid pipeline repo question held_until posted) =
    after (add_pending_resume now sid pipeline repo question held_until posted)
step (park now sid pipeline repo question) =
    after (park_blocked_question now sid pipeline repo question)
step (answer now sid text source by ref) = after (answer_pending_resume now sid text source by ref)
step (take now sid text) = after (take_parked_answer now sid text)
step (expire now sid reason) = after (expire_pending_resume now sid reason)
step (resume now sid answered_at text) =
    after (mark_pending_resume_resumed now sid answered_at text)
step (prune older_than_ts) = after (prune_finished_pending_resumes older_than_ts)
step (note_issue sid issue_number comment_id asked_at) =
    after (record_issue_question sid issue_number comment_id asked_at)
step (note_answer now sid answered_at) = after (mark_answer_noted now sid answered_at)
step (unnote_answer sid answered_at) = after (release_answer_noted sid answered_at)

unfoldable pub run : List Op → Conn Db → Conn Db
run [] c = c
run (op ∷ ops) c = run ops (step op c)
