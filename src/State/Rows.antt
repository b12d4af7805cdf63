-- ===== src/State/Rows.antt =====
-- The tables of the state database (SCHEMA of core/state.py), as far as the modelled methods read
-- or write them. A column that may be NULL is an `Option`; a time is in whole seconds.
use ctrlrelay.Base.{ℕ, Bool, String, Option, List}

-- `sessions`: the columns of a run's life.
pub record Session : Type 0 where
  pub id : String
  pub pipeline : String
  pub repo : String
  pub issue_number : Option ℕ
  pub status : String
  pub started_at : ℕ
  pub ended_at : Option ℕ
  pub summary : Option String
  pub agent_session_id : Option String
  pub interrupted : Bool
  pub resumed_by : Option String
  pub owner_pid : Option ℕ
  pub owner_run : Option String
  pub worktree_path : Option String
  pub claim_id : Option ℕ

-- `repo_locks`.
pub record Lock : Type 0 where
  pub repo : String
  pub session_id : String
  pub acquired_at : ℕ

-- `pending_resumes`.
pub record Pending : Type 0 where
  pub session_id : String
  pub pipeline : String
  pub repo : String
  pub question : String
  pub created_at : ℕ
  pub answer : Option String
  pub answered_at : Option ℕ
  pub resumed_at : Option ℕ
  pub expired_at : Option ℕ
  pub expired_reason : Option String
  pub held_until : Option ℕ
  pub posted : Option Bool
  pub last_answered_at : Option ℕ
  pub issue_number : Option ℕ
  pub issue_comment_id : Option ℕ
  pub issue_asked_at : Option ℕ
  pub answer_source : Option String
  pub answer_by : Option String
  pub answer_ref : Option ℕ
  pub answer_noted_at : Option ℕ

-- `dispatch_health`: one row at most.
pub record Health : Type 0 where
  pub consecutive_failures : ℕ
  pub alerted_at : Option ℕ
  pub alert_claim_token : Option String
  pub alert_delivered_at : Option ℕ
  pub last_failure_at : Option ℕ
  pub last_success_at : Option ℕ

-- `issue_finishes`.
pub record Finish : Type 0 where
  pub repo : String
  pub issue_number : ℕ
  pub pr_number : ℕ
  pub finished_at : ℕ
  pub session_id : Option String
  pub reopened_at : Option ℕ

-- `pr_watches`.
pub record Watch : Type 0 where
  pub repo : String
  pub pr_number : ℕ
  pub session_id : Option String
  pub issue_number : ℕ
  pub pr_url : Option String
  pub started_at : ℕ
  pub cleanup_phase : Option String

pub record Db : Type 0 where
  pub sessions : List Session
  pub repo_locks : List Lock
  pub pending_resumes : List Pending
  pub dispatch_health : Option Health
  pub issue_finishes : List Finish
  pub pr_watches : List Watch
