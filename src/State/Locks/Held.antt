-- ===== src/State/Locks/Held.antt =====
-- core/state.py: the calls that write `repo_locks`, and what keeps a lock with its session.
use ctrlrelay.Base.{
  update, ℕ, ◌≡◌, ◌≢◌, refl, ◌⊎◌, Bool, true, false, List, [], ◌∷◌, ◌++◌, arith, String, eq_iff,
  All, any, count, delete, Bool-cases, inl, inr,
}
use ctrlrelay.Base.Keyed.{
  row, holds, IsUnique, holds-delete, holds-append, delete-IsUnique, append-IsUnique,
}
use ctrlrelay.Sqlite.{Error, raised, Conn, Outcome, ok, write, commit}
use ctrlrelay.State.Rows.{Db, Lock, Session}
use ctrlrelay.State.Rules.{
  Both, Keeps, KeepsOrFails, Rule, after, bind-Rule, pure-Rule, write-Both_or_fails, commit-Both,
  changed-Rule, update_then-Rule,
}
use ctrlrelay.State.Locks.{
  refused_if_integrity, is_repo, is_lock_of, is_held_by, insert_lock, delete_locks, acquire_lock,
  release_lock,
}
use ctrlrelay.State.Sessions.{
  has_status, update_sessions, mark_failed, fail_orphaned_session, delete_blocked_lock,
  release_blocked_session_lock,
}

-- The calls that write `repo_locks`.
pub data LockOp : Type 0 where
  acquire : (now : ℕ) (repo session_id : String) → LockOp
  release : (repo session_id : String) → LockOp
  orphan : (now : ℕ) (session_id summary : String) → LockOp
  unblock : (session_id : String) → LockOp

pub step_locks : LockOp → Conn Db → Conn Db
step_locks (acquire now repo sid) = after (acquire_lock now repo sid)
step_locks (release repo sid) = after (release_lock repo sid)
step_locks (orphan now sid summary) = after (fail_orphaned_session now sid summary)
step_locks (unblock sid) = after (release_blocked_session_lock sid)

pub run_locks : List LockOp → Conn Db → Conn Db
run_locks [] c = c
run_locks (op ∷ ops) c = run_locks ops (step_locks op c)

abbrev pub repo_key : Lock → String
repo_key l = l.repo

-- One lock for a repository at most, and this session holds the one of `repo`.
pub record Held (repo sid : String) (d : Db) : Type 0 where
  pub unique : IsUnique repo_key d.repo_locks
  pub holder : holds (is_held_by sid) (row repo_key repo d.repo_locks) ≡ true

-- A call that does not give this session's lock of the repository back. Anyone may try to take it.
abbrev pub Respects : String → String → LockOp → Type 0
Respects repo sid (acquire _ _ _) = Unit
Respects repo sid (release r s) = (r ≢ repo) ⊎ (s ≢ sid)
Respects repo sid (orphan _ s _) = s ≢ sid
Respects repo sid (unblock s) = s ≢ sid

module _ (repo sid : String) where
  insert_lock-Keeps : (now : ℕ) (r s : String) → KeepsOrFails (Held repo sid) (insert_lock now r s)
  unfolding insert_lock
  insert_lock-Keeps now r s d h = elim (Bool-cases (any (is_repo r) d.repo_locks)) [
    | inl taken ↦ inl (rw taken)
    | inr free ↦
        let new : Lock = record { repo = r; session_id = s; acquired_at = now } in
        inr (
          1,
          record d { repo_locks = d.repo_locks ++ new ∷ [] },
          rw free,
          record {
            unique = append-IsUnique repo_key new d.repo_locks free h.unique;
            holder = holds-append repo_key (is_held_by sid) repo new d.repo_locks h.holder;
          },
        )
  ]

  delete_locks-Keeps :
      (p : Lock → Bool)
      → ((l : Lock) → l.repo ≡ repo → is_held_by sid l ≡ true → p l ≡ false)
      → Keeps (Held repo sid) (delete_locks p)
  delete_locks-Keeps p keep d h = (
    count p d.repo_locks,
    record d { repo_locks = delete p d.repo_locks },
    refl,
    record {
      unique = delete-IsUnique repo_key p d.repo_locks h.unique;
      holder = holds-delete repo_key (is_held_by sid) repo p d.repo_locks h.unique keep h.holder;
    },
  )

  update_sessions-Keeps :
      (p : Session → Bool) (f : Session → Session) → Keeps (Held repo sid) (update_sessions p f)
  update_sessions-Keeps p f d h = (
    count p d.sessions,
    record d { sessions = update p f d.sessions },
    refl,
    record { unique = h.unique; holder = h.holder },
  )

  other_session :
      (s : String) (l : Lock) → s ≢ sid → is_held_by sid l ≡ true → is_held_by s l ≡ false
  other_session s l ne h = ground (arith, eq_iff l.session_id sid, eq_iff l.session_id s)

  other_lock :
      (r s : String) (l : Lock)
      → (r ≢ repo) ⊎ (s ≢ sid)
      → l.repo ≡ repo
      → is_held_by sid l ≡ true
      → is_lock_of r s l ≡ false
  other_lock r s l ne e h =
      ground (arith, eq_iff l.session_id sid, eq_iff l.session_id s, eq_iff l.repo r)

  unblock-Keeps : (s : String) → s ≢ sid → Keeps (Held repo sid) (delete_blocked_lock s)
  unfolding delete_blocked_lock
  unblock-Keeps s ne d = delete_locks-Keeps _ (λ l _ h. ground (arith, other_session s l ne h)) d

  refused_same :
      (r : Outcome Bool × Conn Db)
      → Both (Held repo sid) r.1
      → Both (Held repo sid) (refused_if_integrity r).1
  refused_same (ok b, c) h = h
  refused_same (raised Error.operational, c) h = h
  refused_same (raised Error.integrity, c) h = h
  refused_same (raised Error.value_error, c) h = h

  acquire-Rule : (now : ℕ) (r s : String) → Rule (Held repo sid) (acquire_lock now r s)
  unfolding acquire_lock
  acquire-Rule now r s c b = refused_same _ (
      bind-Rule {B = Bool} (Held repo sid) (write (insert_lock now r s)) _
        (λ c. write-Both_or_fails (Held repo sid) _ c (insert_lock-Keeps now r s))
        (λ _.
          bind-Rule {B = Bool} (Held repo sid) commit _ (commit-Both (Held repo sid))
            (λ _. pure-Rule (Held repo sid) true))
        c b)

  step-Held :
      (op : LockOp) → Respects repo sid op → Rule (Held repo sid) (λ c. (ok tt, step_locks op c))
  unfolding step_locks release_lock fail_orphaned_session release_blocked_session_lock
  step-Held (acquire now r s) _ = acquire-Rule now r s
  step-Held (release r s) ne =
      changed-Rule (Held repo sid) (delete_locks (is_lock_of r s))
        (delete_locks-Keeps (is_lock_of r s) (λ l. other_lock r s l ne))
  step-Held (orphan now s summary) ne =
      update_then-Rule (Held repo sid)
        (update_sessions (has_status s "running") (mark_failed now summary))
        (delete_locks (is_held_by s)) (update_sessions-Keeps _ _)
        (delete_locks-Keeps (is_held_by s) (λ l _. other_session s l ne))
  step-Held (unblock s) ne =
      changed-Rule (Held repo sid) (delete_blocked_lock s) (unblock-Keeps s ne)

  pub run-Held :
      (ops : List LockOp)
      → All (Respects repo sid) ops
      → (c : Conn Db) → Both (Held repo sid) c
      → Both (Held repo sid) (run_locks ops c)
  unfolding run_locks
  run-Held [] h c b = b
  run-Held (op ∷ ops) (h, hs) c b = run-Held ops hs (step_locks op c) (step-Held op h c b)
