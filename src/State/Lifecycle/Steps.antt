-- ===== src/State/Lifecycle/Steps.antt =====
-- core/state.py: a fact about the database through every call that writes `pending_resumes`, from
-- what each of its statements keeps.
use ctrlrelay.Base.{
  num_is, ℕ, Bool, true, ◌&&◌, Option, none, some, List, [], ◌∷◌, String, is_none, All,
}
use ctrlrelay.Sqlite.{Conn, ◌>>◌, write, commit}
use ctrlrelay.State.Rows.{Db}
use ctrlrelay.State.Rules.{
  Keeps, Both, Rule, changed-Rule, written-Rule, update_then-Rule, bind-Rule, on_error-Rule,
  write-Both, commit-Both, undo_if-Rule, pure-Rule,
}
use ctrlrelay.State.Pending.{
  update_row, is_open, new_row, upsert_row, answered, taken, expired, add_pending_resume,
  park_blocked_question, take_parked_answer, expire_pending_resume, answer_pending_resume,
}
use ctrlrelay.State.Sweep.{
  may_note, may_resume, resumed, noted, asked_on_issue, mark_pending_resume_resumed, prune_rows,
  prune_finished_pending_resumes, record_issue_question, mark_answer_noted, release_answer_noted,
}
use ctrlrelay.State.Sessions.{has_status, update_sessions, set_status, undo_if}
use ctrlrelay.State.Lifecycle.{
  Op, ask, park, answer, take, expire, resume, prune, note_issue, note_answer, unnote_answer, step,
  run,
}

-- The statements of a call keep the fact.
abbrev pub Preserved : (Db → Type 0) → Op → Type 0
Preserved P (ask now k pipeline repo question held posted) =
    Keeps P (upsert_row (new_row now k pipeline repo question held posted))
Preserved P (park now k pipeline repo question) =
    Keeps P (update_sessions (has_status k "running") (set_status "blocked"))
    × Keeps P (upsert_row (new_row now k pipeline repo question none none))
Preserved P (answer now k text source by ref) =
    Keeps P (update_row k is_open (answered now text source by ref))
Preserved P (take now k text) =
    Keeps P (update_row k (λ r. is_open r && is_none r.resumed_at) (taken now text))
    × Keeps P (update_sessions (has_status k "blocked") (set_status "running"))
Preserved P (expire now k reason) = Keeps P (update_row k is_open (expired now reason))
Preserved P (resume now k at given) = Keeps P (update_row k (may_resume at given) (resumed now))
Preserved P (prune ts) = Keeps P (prune_rows ts)
Preserved P (note_issue k n comment at) =
    Keeps P (update_row k is_open (asked_on_issue n comment at))
Preserved P (note_answer now k at) = Keeps P (update_row k (may_note at) (noted (some now)))
Preserved P (unnote_answer k at) =
    Keeps P (update_row k (λ r. num_is r.answered_at at) (noted none))

module _ (P : Db → Type 0) where
  ask-Rule :
      (now : ℕ) (k pipeline repo question : String) (held : Option ℕ) (posted : Option Bool)
      → Keeps P (upsert_row (new_row now k pipeline repo question held posted))
      → Rule P (add_pending_resume now k pipeline repo question held posted)
  unfolding add_pending_resume
  ask-Rule now k pipeline repo question held posted keep = written-Rule P _ keep

  park-Rule :
      (now : ℕ) (k pipeline repo question : String)
      → Preserved P (park now k pipeline repo question)
      → Rule P (park_blocked_question now k pipeline repo question)
  unfolding park_blocked_question
  park-Rule now k pipeline repo question (keep, keep') =
      let blocked = update_sessions (has_status k "running") (set_status "blocked") in
      let asked = add_pending_resume now k pipeline repo question none none in
      on_error-Rule P (do write blocked; asked) (undo_if true)
        (bind-Rule {B = Unit {0}} P (write blocked) (λ _. asked) (λ c. write-Both P blocked c keep)
          (λ _. ask-Rule now k pipeline repo question none none keep'))
        (undo_if-Rule P true)

  prune-Rule : (ts : ℕ) → Keeps P (prune_rows ts) → Rule P (prune_finished_pending_resumes ts)
  unfolding prune_finished_pending_resumes
  prune-Rule ts keep =
      bind-Rule {B = ℕ} P (write (prune_rows ts)) _ (λ c. write-Both P (prune_rows ts) c keep)
        (λ n. bind-Rule {B = ℕ} P commit _ (commit-Both P) (λ _. pure-Rule P n))

  pub step-Both : (op : Op) → Preserved P op → (c : Conn Db) → Both P c → Both P (step op c)
  unfolding step answer_pending_resume take_parked_answer expire_pending_resume
      mark_pending_resume_resumed record_issue_question mark_answer_noted release_answer_noted
  step-Both (ask now k pipeline repo question held posted) keep =
      ask-Rule now k pipeline repo question held posted keep
  step-Both (park now k pipeline repo question) keep = park-Rule now k pipeline repo question keep
  step-Both (answer now k text source by ref) keep = changed-Rule P _ keep
  step-Both (take now k text) (keep, keep') = update_then-Rule P _ _ keep keep'
  step-Both (expire now k reason) keep = changed-Rule P _ keep
  step-Both (resume now k at given) keep = changed-Rule P _ keep
  step-Both (prune ts) keep = prune-Rule ts keep
  step-Both (note_issue k n comment at) keep = changed-Rule P _ keep
  step-Both (note_answer now k at) keep = changed-Rule P _ keep
  step-Both (unnote_answer k at) keep = written-Rule P _ keep

  pub run-Both :
      (ops : List Op) → All (Preserved P) ops → (c : Conn Db) → Both P c → Both P (run ops c)
  unfolding run
  run-Both [] h c b = b
  run-Both (op ∷ ops) (h, hs) c b = run-Both ops hs (step op c) (step-Both op h c b)
