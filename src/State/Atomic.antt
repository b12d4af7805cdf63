-- ===== src/State/Atomic.antt =====
-- core/state.py: what a method leaves behind when the database is locked under it, at any of its
-- statements or at its commit.
use ctrlrelay.Base.Keyed.{count-pos_any}
use ctrlrelay.Base.Changes.{any-delete_self, any-update_off, update-none}
use ctrlrelay.State.Locks.{is_held_by}
use ctrlrelay.Base.{
  refl, delete, ap, update, count, inr, Bool, inl, Bool-cases, any, true, String, ℕ, ◌≡◌, ◌≢◌, ◌⊎◌,
  false, Option, some, arith, ltb,
}
use ctrlrelay.Sqlite.{ok, Conn, write, commit, rollback}
use ctrlrelay.State.Rows.{Session, Db}
use ctrlrelay.State.Sessions.{mark_failed, has_status, fail_orphaned_session, update_then}

-- Nothing is pending: other connections see what this one sees.
pub record IsSettled (c : Conn Db) : Type 0 where
  pub closed : c.in_transaction ≡ false
  pub same : c.current ≡ c.saved

-- Called with no transaction open, two statements leave none, and both are published or neither is.
-- The report says which it was, where a first change of no row is no change.
pub update_then-atomic :
    (first second : Db → Option (ℕ × Db)) (c : Conn Db) (n m : ℕ) (d₁ d₂ : Db)
    → IsSettled c
    → first c.current ≡ some (n, d₁)
    → (ltb 0 n ≡ false → d₁ ≡ c.current)
    → second d₁ ≡ some (m, d₂)
    → let r = update_then first second c in
      IsSettled r.1
      × (((r.0 ≡ ok true) × (ltb 0 n ≡ true) × (r.1.saved ≡ d₂))
          ⊎ ((r.0 ≢ ok true) × (r.1.saved ≡ c.saved)))
unfolding write commit rollback
update_then-atomic first second c n m d₁ d₂ s h none_changed k = elim (Bool-cases (ltb 0 n)) [
  | inl some_changed ↦ ground (arith, some_changed)
  | inr e ↦ ground (arith, e, none_changed e)
]

-- However the database fails under it, `fail_orphaned_session` never shows a reader half of its
-- work: called with no transaction open, it leaves none, and either it reports `True` and the saved
-- session is not running and holds no lock, or the saved database is as it was.
pub fail_orphaned_session-atomic :
    (now : ℕ) (sid summary : String) (c : Conn Db)
    → IsSettled c
    → let r = fail_orphaned_session now sid summary c in
      IsSettled r.1
      × (((r.0 ≡ ok true)
            × (any (has_status sid "running") r.1.saved.sessions ≡ false)
            × (any (is_held_by sid) r.1.saved.repo_locks ≡ false))
          ⊎ ((r.0 ≢ ok true) × (r.1.saved ≡ c.saved)))
unfolding fail_orphaned_session
fail_orphaned_session-atomic now sid summary c s =
    let (settled, ends) =
      update_then-atomic _ _ c _ _ _ _ s refl
        (λ e. same_sessions c.current (count-pos_any running c.current.sessions) e) refl in
    (
      settled,
      elim ends [
        | inl (done, _, saved) ↦ inl (done, rw saved stopped, rw saved freed)
        | inr kept ↦ inr kept
      ],
    )
  where
    running : Session → Bool
    running = has_status sid "running"

    failed : Session → Session
    failed = mark_failed now summary

    same_sessions :
        (d : Db)
        → ltb 0 (count running d.sessions) ≡ any running d.sessions
        → ltb 0 (count running d.sessions) ≡ false
        → record d { sessions = update running failed d.sessions } ≡ d
    same_sessions d e h =
        ap (λ xs. record d { sessions = xs }) (update-none running failed d.sessions (rw (← e) h))

    stopped : any running (update running failed c.current.sessions) ≡ false
    stopped = any-update_off running failed c.current.sessions (λ x h. ground arith)

    freed : any (is_held_by sid) (delete (is_held_by sid) c.current.repo_locks) ≡ false
    freed = any-delete_self (is_held_by sid) c.current.repo_locks
