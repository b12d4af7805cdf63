-- ===== src/State/Locks/Exclusive.antt =====
-- core/state.py: a repository lock has one holder, who keeps it until it is given back.
use ctrlrelay.Base.{
  subst, ℕ, ◌≡◌, ◌≢◌, sym, true, false, Option, none, some, List, [], ◌∷◌, ◌++◌, arith, String,
  eq_iff, eq_refl, All, any, find,
}
use ctrlrelay.Base.Keyed.{
  count-pos_any, row-any-false, row-append, row, holds, IsUnique, append-IsUnique,
}
use ctrlrelay.Sqlite.{rollback, Conn, ok, write, commit}
use ctrlrelay.State.Rows.{Db, Lock}
use ctrlrelay.State.Rules.{Both}
use ctrlrelay.State.Locks.{is_repo, is_held_by, acquire_lock, get_lock_holder}
use ctrlrelay.State.Sessions.{has_status, fail_orphaned_session}
use ctrlrelay.State.Locks.Held.{LockOp, run_locks, repo_key, Held, Respects, run-Held}

module _ (repo sid : String) where
  holder-Held : (d : Db) → Held repo sid d → get_lock_holder repo d ≡ some sid
  unfolding get_lock_holder row
  holder-Held d h = at_row (find (is_repo repo) d.repo_locks) h.holder
    where
      at_row :
          (o : Option Lock)
          → holds (is_held_by sid) o ≡ true
          → (elim o [ none ↦ none | some l ↦ some l.session_id ]) ≡ some sid
      at_row none h = cc
      at_row (some l) h = ground (arith, eq_iff l.session_id sid)

  taken-Held : (d : Db) → Held repo sid d → any (is_repo repo) d.repo_locks ≡ true
  unfolding row find any
  taken-Held d h = at_rows d.repo_locks h.holder
    where
      at_rows :
          (xs : List Lock)
          → holds (is_held_by sid) (find (is_repo repo) xs) ≡ true
          → any (is_repo repo) xs ≡ true
      at_rows [] h = cc
      at_rows (x ∷ xs) h = ground (arith, at_rows xs)

  abbrev with_lock : ℕ → Db → Db
  with_lock now d = record d {
    repo_locks = d.repo_locks ++ record { repo = repo; session_id = sid; acquired_at = now } ∷ [];
  }

  acquire_ok :
      (now : ℕ) (c : Conn Db)
      → (acquire_lock now repo sid c).0 ≡ ok true
      → (any (is_repo repo) c.current.repo_locks ≡ false)
        × ((acquire_lock now repo sid c).1.saved ≡ with_lock now c.current)
        × ((acquire_lock now repo sid c).1.current ≡ with_lock now c.current)
  unfolding acquire_lock write commit
  acquire_ok now c h = ground arith

  with_lock-Held :
      (now : ℕ) (d : Db)
      → IsUnique repo_key d.repo_locks
      → any (is_repo repo) d.repo_locks ≡ false
      → Held repo sid (with_lock now d)
  with_lock-Held now d u free =
      let new : Lock = record { repo = repo; session_id = sid; acquired_at = now } in
      record {
        unique = append-IsUnique repo_key new d.repo_locks free u;
        holder =
            rw
              (
                row-append repo_key repo new d.repo_locks,
                row-any-false repo_key repo d.repo_locks free,
              )
              (ground (arith, eq_refl repo, eq_refl sid));
      }

  acquire-Held :
      (now : ℕ) (c : Conn Db)
      → IsUnique repo_key c.current.repo_locks
      → (acquire_lock now repo sid c).0 ≡ ok true
      → Both (Held repo sid) (acquire_lock now repo sid c).1
  acquire-Held now c u h =
      let (free, saved, current) = acquire_ok now c h in
      let held = with_lock-Held now c.current u free in
      record {
        saved = subst (Held repo sid) (sym saved) held;
        current = subst (Held repo sid) (sym current) held;
      }

  refused-Held :
      (now : ℕ) (other : String) (c : Conn Db)
      → Held repo sid c.current
      → (acquire_lock now repo other c).0 ≢ ok true
  unfolding acquire_lock write commit
  refused-Held now other c h = ground (arith, taken-Held c.current h)

-- Once `acquire_lock` reported that a session took the lock of a repository, then after any further
-- calls of any sessions, under any locks of the database, that do not give this lock back, that
-- session is its holder, in the file and in the connection, and nobody else is told to have it.
pub lock_exclusive :
    (now : ℕ) (repo sid : String) (c : Conn Db) (ops : List LockOp) (now' : ℕ) (other : String)
    → IsUnique repo_key c.current.repo_locks
    → (acquire_lock now repo sid c).0 ≡ ok true
    → All (Respects repo sid) ops
    → let c' = run_locks ops (acquire_lock now repo sid c).1 in
      (get_lock_holder repo c'.saved ≡ some sid)
      × (get_lock_holder repo c'.current ≡ some sid)
      × ((acquire_lock now' repo other c').0 ≢ ok true)
lock_exclusive now repo sid c ops now' other u h respected =
    let c' = run_locks ops (acquire_lock now repo sid c).1 in
    let b = run-Held repo sid ops respected _ (acquire-Held repo sid now c u h) in
    (
      holder-Held repo sid c'.saved b.saved,
      holder-Held repo sid c'.current b.current,
      refused-Held repo sid now' other c' b.current,
    )

-- A refused `acquire_lock` leaves its transaction open: with an idle database, nothing is held
-- back before the call, and the lock taken, the call reports the refusal; a method that joins an
-- open transaction, as `fail_orphaned_session` does, then reports its change as done, and the file
-- still has neither it nor an end of the transaction.
pub refused_lock_leaves_transaction :
    (now : ℕ) (repo sid : String) (c : Conn Db) (now' : ℕ) (orphan_id summary : String)
    → c.busy ≡ []
    → c.in_transaction ≡ false
    → any (is_repo repo) c.current.repo_locks ≡ true
    → any (has_status orphan_id "running") c.current.sessions ≡ true
    → let refused = acquire_lock now repo sid c in
      let joined = fail_orphaned_session now' orphan_id summary refused.1 in
      (refused.0 ≡ ok false)
      × (refused.1.in_transaction ≡ true)
      × (joined.0 ≡ ok true)
      × (joined.1.saved ≡ c.saved)
      × (joined.1.in_transaction ≡ true)
unfolding acquire_lock fail_orphaned_session write commit rollback
refused_lock_leaves_transaction now repo sid c now' orphan_id summary idle closed taken running =
    ground (arith, count-pos_any (has_status orphan_id "running") c.current.sessions)
