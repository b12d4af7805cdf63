-- ===== src/State/Pending.antt =====
-- core/state.py: the questions of blocked sessions that wait for an operator's answer
-- (`pending_resumes`). A method takes the time that it reads from the clock as `now`.
use ctrlrelay.Base.{
  ℕ, Bool, true, ◌&&◌, String, Option, none, some, [], ◌∷◌, ◌++◌, if◌then◌else◌, str_eq, ltb, any,
  update, count, is_none, coalesce,
}
use ctrlrelay.Sqlite.{M, ◌>>=◌, ◌>>◌, pure, write, commit, on_error}
use ctrlrelay.State.Rows.{Pending, Db}
use ctrlrelay.State.Sessions.{has_status, update_sessions, set_status, undo_if, update_then}

abbrev pub is_row : String → Pending → Bool
is_row session_id r = str_eq r.session_id session_id

-- `answered_at IS NULL AND expired_at IS NULL`.
abbrev pub is_open : Pending → Bool
is_open r = is_none r.answered_at && is_none r.expired_at

-- One UPDATE of the rows of a session that a guard holds of.
abbrev pub update_row : String → (Pending → Bool) → (Pending → Pending) → Db → Option (ℕ × Db)
update_row session_id guard f d =
    let p = λ (r : Pending). is_row session_id r && guard r in
    some (count p d.pending_resumes, record d { pending_resumes = update p f d.pending_resumes })

abbrev pub changed : (Db → Option (ℕ × Db)) → M Db Bool
changed statement = do n ← write statement; commit; pure (ltb 0 n)

abbrev pub new_row : ℕ → String → String → String → String → Option ℕ → Option Bool → Pending
new_row now session_id pipeline repo question held_until posted = record {
  session_id = session_id;
  pipeline = pipeline;
  repo = repo;
  question = question;
  created_at = now;
  answer = none;
  answered_at = none;
  resumed_at = none;
  expired_at = none;
  expired_reason = none;
  held_until = held_until;
  posted = posted;
  last_answered_at = none;
  issue_number = none;
  issue_comment_id = none;
  issue_asked_at = none;
  answer_source = none;
  answer_by = none;
  answer_ref = none;
  answer_noted_at = none;
}

-- ON CONFLICT(session_id) DO UPDATE: the new row, with the time of the answer that it clears.
abbrev pub rewritten : Pending → Pending → Pending
rewritten new old = record new { last_answered_at = coalesce old.answered_at old.last_answered_at }

unfoldable pub upsert_row : Pending → Db → Option (ℕ × Db)
upsert_row new d =
    let rows = d.pending_resumes in
    some (
      1,
      record d {
        pending_resumes =
            if any (is_row new.session_id) rows
            then update (is_row new.session_id) (rewritten new) rows
            else rows ++ new ∷ [];
      },
    )

unfoldable pub add_pending_resume :
    ℕ → String → String → String → String → Option ℕ → Option Bool → M Db (Unit {0})
unfolding upsert_row
add_pending_resume now session_id pipeline repo question held_until posted = do
  write (upsert_row (new_row now session_id pipeline repo question held_until posted))
  commit

unfoldable pub park_blocked_question : ℕ → String → String → String → String → M Db (Unit {0})
unfolding add_pending_resume
park_blocked_question now session_id pipeline repo question =
    on_error
      (do
        write (update_sessions (has_status session_id "running") (set_status "blocked"))
        add_pending_resume now session_id pipeline repo question none none)
      (undo_if true)

abbrev pub answered : ℕ → String → Option String → Option String → Option ℕ → Pending → Pending
answered now answer source by ref r = record r {
  answer = some answer;
  answered_at = some now;
  answer_source = source;
  answer_by = by;
  answer_ref = ref;
}

abbrev pub taken : ℕ → String → Pending → Pending
taken now answer r = record r {
  answer = some answer;
  answered_at = some now;
  resumed_at = some now;
}

unfoldable pub take_parked_answer : ℕ → String → String → M Db Bool
take_parked_answer now session_id answer =
    update_then (update_row session_id (λ r. is_open r && is_none r.resumed_at) (taken now answer))
      (update_sessions (has_status session_id "blocked") (set_status "running"))

unfoldable pub has_open_pending_resume : String → String → Db → Bool
has_open_pending_resume session_id question d =
    any
      (λ r.
        is_row session_id r
        && str_eq r.question question
        && is_none r.resumed_at
        && is_none r.expired_at)
      d.pending_resumes

abbrev pub expired : ℕ → String → Pending → Pending
expired now reason r = record r { expired_at = some now; expired_reason = some reason }

unfoldable pub expire_pending_resume : ℕ → String → String → M Db Bool
expire_pending_resume now session_id reason =
    changed (update_row session_id is_open (expired now reason))

unfoldable pub answer_pending_resume :
    ℕ → String → String → Option String → Option String → Option ℕ → M Db Bool
answer_pending_resume now session_id answer source by ref =
    changed (update_row session_id is_open (answered now answer source by ref))
