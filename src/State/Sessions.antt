-- ===== src/State/Sessions.antt =====
-- core/state.py: the session rows, and the methods that clear up after a run that died.
use ctrlrelay.Base.{
  ℕ, Bool, true, not, ◌&&◌, String, Option, none, some, List, [], ◌∷◌, if◌then◌else◌, str_eq, ltb,
  any, find, update, count, select, is_none,
}
use ctrlrelay.Sqlite.{
  M, ◌>>=◌, ◌>>◌, pure, write, commit, rollback, is_in_transaction, on_error, when,
}
use ctrlrelay.State.Rows.{Session, Lock, Db}
use ctrlrelay.State.Locks.{is_held_by, delete_locks}

abbrev pub is_session : String → Session → Bool
is_session id s = str_eq s.id id

abbrev pub has_status : String → String → Session → Bool
has_status id status s = str_eq s.id id && str_eq s.status status

abbrev pub update_sessions : (Session → Bool) → (Session → Session) → Db → Option (ℕ × Db)
update_sessions p f d = some (count p d.sessions, record d { sessions = update p f d.sessions })

abbrev pub set_status : String → Session → Session
set_status status s = record s { status = status }

-- `if ours and in_transaction: rollback()` of the methods that join a caller's transaction.
abbrev pub undo_if : Bool → M Db (Unit {0})
undo_if ours = do open_now ← is_in_transaction; when (ours && open_now) rollback

-- The body of the `try` of such a method: a change, where it touched a row a second one, and the
-- commit unless a caller's transaction was joined.
abbrev pub second_change : (Db → Option (ℕ × Db)) → M Db (Unit {0})
second_change second = do write second; pure tt

abbrev pub settle : Bool → ℕ → M Db Bool
settle joined n = do when (not joined) commit; pure (ltb 0 n)

abbrev pub follow : Bool → (Db → Option (ℕ × Db)) → ℕ → M Db Bool
follow joined second n = do when (ltb 0 n) (second_change second); settle joined n

abbrev pub both_changes : Bool → (Db → Option (ℕ × Db)) → (Db → Option (ℕ × Db)) → M Db Bool
both_changes joined first second = do n ← write first; follow joined second n

abbrev pub update_then : (Db → Option (ℕ × Db)) → (Db → Option (ℕ × Db)) → M Db Bool
update_then first second c =
    on_error (both_changes c.in_transaction first second) (undo_if (not c.in_transaction)) c

abbrev pub mark_failed : ℕ → String → Session → Session
mark_failed now summary s = record s {
  status = "failed";
  summary = some summary;
  ended_at = some now;
  interrupted = true;
}

unfoldable pub fail_orphaned_session : ℕ → String → String → M Db Bool
fail_orphaned_session now session_id summary =
    update_then (update_sessions (has_status session_id "running") (mark_failed now summary))
      (delete_locks (is_held_by session_id))

unfoldable pub mark_session_running : String → M Db (Unit {0})
mark_session_running session_id = do
  write (update_sessions (has_status session_id "blocked") (set_status "running"))
  commit

-- `mark_resumed`: guarded on `resumed_by IS NULL`.
unfoldable pub mark_resumed : String → String → M Db Bool
mark_resumed session_id resumed_by = do
  n ← write (
      update_sessions (λ s. is_session session_id s && is_none s.resumed_by)
        (λ s. record s { resumed_by = some resumed_by }))
  commit
  pure (ltb 0 n)

unfoldable pub list_running_sessions : Db → List Session
list_running_sessions d = select (λ s. str_eq s.status "running") d.sessions

abbrev pub joined_row : Option Session → List Session → List Session
joined_row none rest = rest
joined_row (some s) rest = if str_eq s.status "blocked" then s ∷ rest else rest

-- The sessions that a lock joins, in the order of the locks.
unfoldable pub joined_blocked : List Session → List Lock → List Session
joined_blocked sessions [] = []
joined_blocked sessions (l ∷ ls) =
    let rest = joined_blocked sessions ls in
    joined_row (find (is_session l.session_id) sessions) rest

unfoldable pub list_blocked_sessions_holding_locks : Db → List Session
unfolding joined_blocked
list_blocked_sessions_holding_locks d = joined_blocked d.sessions d.repo_locks

unfoldable pub delete_blocked_lock : String → Db → Option (ℕ × Db)
delete_blocked_lock session_id d =
    let blocked = any (has_status session_id "blocked") d.sessions in
    delete_locks (λ l. is_held_by session_id l && blocked) d

unfoldable pub release_blocked_session_lock : String → M Db Bool
unfolding delete_blocked_lock
release_blocked_session_lock session_id = do
  n ← write (delete_blocked_lock session_id)
  commit
  pure (ltb 0 n)
