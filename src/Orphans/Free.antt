-- ===== src/Orphans/Free.antt =====
-- core/orphans.py: the update of a run's row and what follows it, where the database is free.
use ctrlrelay.Base.{
  delete, count, num_is, update, ◌&&◌, ℕ, ◌≡◌, ◌≢◌, inl, inr, refl, ◌∙◌, sym, Bool, true, false,
  ◌||◌, String, Option, none, some, List, [], ◌∷◌, arith, any, select, str_eq, ap, ltb, Bool-cases,
  eq_iff,
}
use ctrlrelay.Base.Keyed.{count-pos_any}
use ctrlrelay.Base.Members.{any-append}
use ctrlrelay.Sqlite.{Conn, Outcome, ok, raised, write, commit, rollback}
use ctrlrelay.State.Rows.{Session, Db}
use ctrlrelay.State.Locks.{delete_locks, is_held_by}
use ctrlrelay.State.Sessions.{
  update_sessions, mark_failed, is_session, has_status, update_then, fail_orphaned_session,
}
use ctrlrelay.Base.Changes.{update-none}
use ctrlrelay.State.Atomic.{update_then-atomic, IsSettled, fail_orphaned_session-atomic}
use ctrlrelay.State.Rules.{Both}
use ctrlrelay.Orphans.Kept.{Untouched, any-select, fail-Untouched}
use ctrlrelay.Orphans.Reap.{Reaped, SettledRun, with_conn, after_update, settle_run, settle_by}
use ctrlrelay.Orphans.World.{World, is_issue_pipeline}

-- No transaction is open, and the database is free.
pub record IsCalm (c : Conn Db) : Type 0 where
  pub settled : IsSettled c
  pub free : c.busy ≡ []

update_then-free :
    (first second : Db → Option (ℕ × Db)) (c : Conn Db) (n m : ℕ) (d₁ d₂ : Db)
    → c.busy ≡ []
    → first c.current ≡ some (n, d₁)
    → second d₁ ≡ some (m, d₂)
    → let r = update_then first second c in (r.0 ≡ ok (ltb 0 n)) × (r.1.busy ≡ [])
unfolding write commit rollback
update_then-free first second c n m d₁ d₂ free h k = elim (Bool-cases (ltb 0 n)) [
  | inl hit ↦ elim (Bool-cases c.in_transaction) [
    | inl joined ↦ ground (arith, hit, joined)
    | inr own ↦ ground (arith, hit, own)
  ]
  | inr miss ↦ elim (Bool-cases c.in_transaction) [
    | inl joined ↦ ground (arith, miss, joined)
    | inr own ↦ ground (arith, miss, own)
  ]
]

any-select_self : {A : Type 0} (p : A → Bool) (xs : List A) → any p xs ≡ any p (select p xs)
unfolding any select
any-select_self p [] = refl
any-select_self p (x ∷ xs) = ground (arith, any-select_self p xs)

pub fail-IsCalm :
    (now : ℕ) (s summary : String) (c : Conn Db)
    → IsCalm c
    → let o = fail_orphaned_session now s summary c in
      IsCalm o.1 × (o.0 ≡ ok (any (has_status s "running") c.saved.sessions))
unfolding fail_orphaned_session
fail-IsCalm now s summary c calm =
    let (settled, _) = fail_orphaned_session-atomic now s summary c calm.settled in
    let (outcome, free) = update_then-free _ _ c _ _ _ _ calm.free refl refl in
    (
      record { settled = settled; free = free },
      outcome
          ∙ ap ok (count-pos_any (has_status s "running") c.current.sessions)
          ∙ ap (λ d. ok (any (has_status s "running") d.sessions)) calm.settled.same,
    )

-- A run that failed at this time, cut short.
abbrev pub ended_failed : ℕ → Session → Bool
ended_failed now s = str_eq s.status "failed" && num_is s.ended_at now && s.interrupted

abbrev pub failed_at : ℕ → String → Session → Bool
failed_at now sid s = is_session sid s && ended_failed now s

any-update_on :
    {A : Type 0} (p q : A → Bool) (f : A → A) (xs : List A)
    → ((x : A) → p x ≡ true → q (f x) ≡ true)
    → ltb 0 (count p xs) ≡ true
    → any q (update p f xs) ≡ true
unfolding any update count
any-update_on p q f [] on h = cc
any-update_on p q f (x ∷ xs) on h = ground (arith, on x, any-update_on p q f xs on)

-- Where the update reports a change, the row is failed.
pub fail-failed :
    (now : ℕ) (s summary : String) (c : Conn Db)
    → IsCalm c
    → let o = fail_orphaned_session now s summary c in
      o.0 ≡ ok true → any (failed_at now s) o.1.saved.sessions ≡ true
unfolding fail_orphaned_session
fail-failed now s summary c calm done =
    let (_, ends) =
      update_then-atomic (update_sessions running failed) (delete_locks (is_held_by s)) c
        (count running c.current.sessions) _ (failed_rows c.current)
        (record (failed_rows c.current) { repo_locks = delete (is_held_by s) c.current.repo_locks })
        calm.settled refl
        (λ e. same_sessions c.current (count-pos_any running c.current.sessions) e) refl in
    elim ends [
      | inl (_, hit, saved) ↦ rw saved (
          any-update_on running (failed_at now s) failed c.current.sessions (λ x h. ground arith)
            hit)
      | inr (undone, _) ↦ elim (undone done) [ ]
    ]
  where
    running : Session → Bool
    running = has_status s "running"

    failed : Session → Session
    failed = mark_failed now summary

    failed_rows : Db → Db
    failed_rows d = record d { sessions = update running failed d.sessions }

    same_sessions :
        (d : Db)
        → ltb 0 (count running d.sessions) ≡ any running d.sessions
        → ltb 0 (count running d.sessions) ≡ false
        → record d { sessions = update running failed d.sessions } ≡ d
    same_sessions d e h =
        ap (λ xs. record d { sessions = xs }) (update-none running failed d.sessions (rw (← e) h))

module _ (sid : String) where
  abbrev pub is_of : SettledRun → Bool
  is_of e = str_eq e.session_id sid

  running-same :
      (d e : Db)
      → Untouched sid (select (is_session sid) d.sessions) (select (is_held_by sid) d.repo_locks) e
      → (any (has_status sid "running") e.sessions ≡ any (has_status sid "running") d.sessions)
        × (any (is_held_by sid) e.repo_locks ≡ any (is_held_by sid) d.repo_locks)
        × ((q : Session → Bool)
            → any (λ s. is_session sid s && q s) e.sessions
              ≡ any (λ s. is_session sid s && q s) d.sessions)
  running-same d e u = (
    any-select (is_session sid) (λ s. str_eq s.status "running") e.sessions
        ∙ ap (any (λ s. str_eq s.status "running")) u.rows
        ∙ sym (any-select (is_session sid) (λ s. str_eq s.status "running") d.sessions),
    any-select_self (is_held_by sid) e.repo_locks
        ∙ ap (any (is_held_by sid)) u.locks
        ∙ sym (any-select_self (is_held_by sid) d.repo_locks),
    λ q.
        any-select (is_session sid) q e.sessions
        ∙ ap (any q) u.rows
        ∙ sym (any-select (is_session sid) q d.sessions),
  )

  pub fail-other :
      (now : ℕ) (s summary : String) (c : Conn Db)
      → s ≢ sid
      → IsCalm c
      → let d = (fail_orphaned_session now s summary c).1.saved in
        (any (has_status sid "running") d.sessions
          ≡ any (has_status sid "running") c.saved.sessions)
        × (any (is_held_by sid) d.repo_locks ≡ any (is_held_by sid) c.saved.repo_locks)
        × ((q : Session → Bool)
            → any (λ s. is_session sid s && q s) d.sessions
              ≡ any (λ s. is_session sid s && q s) c.saved.sessions)
  fail-other now s summary c ne calm =
      let rs = select (is_session sid) c.saved.sessions in
      let ls = select (is_held_by sid) c.saved.repo_locks in
      let start : Both (Untouched sid rs ls) c = record {
        saved = record { rows = refl; locks = refl };
        current = record {
          rows = ap (λ d. select (is_session sid) d.sessions) calm.settled.same;
          locks = ap (λ d. select (is_held_by sid) d.repo_locks) calm.settled.same;
        };
      } in
      running-same c.saved _ (fail-Untouched sid rs ls now s summary ne c start).saved

module _ (w : World) (sid : String) where
  -- The reports only grow, and name the run that was settled.
  settle_by-adds :
      (s : Session) (branch : Option String) (o : Option ℕ) (r : Reaped)
      → let r' = settle_by w s branch o r in
        (r'.conn ≡ r.conn)
        × (any (is_of sid) r'.settled ≡ (any (is_of sid) r.settled || str_eq s.id sid))
  unfolding any
  settle_by-adds s branch none r = (refl, any-append (is_of sid) r.settled _ ∙ ground arith)
  settle_by-adds s branch (some issue) r = elim (Bool-cases (is_issue_pipeline s.pipeline)) [
    | inl ours ↦ rw ours (refl, any-append (is_of sid) r.settled _ ∙ ground arith)
    | inr other ↦ rw other (refl, any-append (is_of sid) r.settled _ ∙ ground arith)
  ]

  pub after_update-adds :
      (s : Session) (o : Outcome Bool × Conn Db) (r : Reaped)
      → let r' = after_update w s o r in
        (r'.conn ≡ o.1)
        × (any (is_of sid) r.settled ≡ true → any (is_of sid) r'.settled ≡ true)
        × (o.0 ≡ ok true → s.id ≡ sid → any (is_of sid) r'.settled ≡ true)
  unfolding settle_run
  after_update-adds s (ok true, c) r =
      let (conn, adds) = settle_by-adds s _ s.issue_number (with_conn c r) in
      (conn, λ h. ground (arith, adds, h), λ _ e. ground (arith, adds, eq_iff s.id sid, e))
  after_update-adds s (ok false, c) r = (refl, λ h. h, λ no. cc)
  after_update-adds s (raised e, c) r = (refl, λ h. h, λ no. cc)
