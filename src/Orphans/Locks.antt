-- ===== src/Orphans/Locks.antt =====
-- core/orphans.py: `release_dead_blocked_locks`, and what the poller's start makes of both clean-ups.
use ctrlrelay.Base.{ℕ, Bool, true, false, String, List, [], ◌∷◌, ◌++◌, if◌then◌else◌}
use ctrlrelay.Sqlite.{Outcome, Conn, ok, raised}
use ctrlrelay.State.Rows.{Session, Db}
use ctrlrelay.State.Sessions.{release_blocked_session_lock, list_blocked_sessions_holding_locks}
use ctrlrelay.Orphans.World.{World, owner_may_live}
use ctrlrelay.Orphans.Reap.{Reaped, with_conn, reap_orphaned_sessions}

abbrev pub after_release : String → List String → Outcome Bool × Conn Db → List String × Conn Db
after_release id released (ok true, c) = (released ++ id ∷ [], c)
after_release id released (ok false, c) = (released, c)
after_release id released (raised e, c) = (released, c)

unfoldable pub release_row : World → Session → List String × Conn Db → List String × Conn Db
unfolding release_blocked_session_lock
release_row w s (released, c) =
    if owner_may_live w s
    then (released, c)
    else after_release s.id released (release_blocked_session_lock s.id c)

unfoldable pub release_rows : World → List Session → List String × Conn Db → List String × Conn Db
unfolding release_row
release_rows w [] r = r
release_rows w (s ∷ ss) r = release_rows w ss (release_row w s r)

unfoldable pub release_dead_blocked_locks : World → Conn Db → List String × Conn Db
unfolding release_rows list_blocked_sessions_holding_locks
release_dead_blocked_locks w c =
    release_rows w (list_blocked_sessions_holding_locks c.current) ([], c)

-- What the poller does before its first poll.
unfoldable pub clear_up : World → ℕ → Reaped → List String × Reaped
unfolding reap_orphaned_sessions release_dead_blocked_locks
clear_up w now r =
    let reaped = reap_orphaned_sessions w now r in
    let released = release_dead_blocked_locks w reaped.conn in
    (released.0, with_conn released.1 reaped)
