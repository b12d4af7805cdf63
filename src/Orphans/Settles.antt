-- ===== src/Orphans/Settles.antt =====
-- core/orphans.py: that a run whose process is gone is settled.
use ctrlrelay.Base.{
  ℕ, ◌≡◌, ◌⊎◌, inl, inr, ◌∙◌, sym, Bool, true, false, ◌&&◌, not, String, List, [], ◌∷◌, arith, any,
  select, str_eq, ap, Bool-cases, eq_iff, subst, distinct,
}
use ctrlrelay.Sqlite.{Conn, Outcome, ok}
use ctrlrelay.State.Rows.{Session, Db}
use ctrlrelay.State.Locks.{is_held_by}
use ctrlrelay.State.Sessions.{is_session, has_status, list_running_sessions, fail_orphaned_session}
use ctrlrelay.State.Atomic.{IsSettled, fail_orphaned_session-atomic}
use ctrlrelay.Poller.Book.{Book}
use ctrlrelay.Orphans.Free.{
  ended_failed, fail-failed, failed_at, IsCalm, is_of, fail-IsCalm, fail-other, after_update-adds,
}
use ctrlrelay.Orphans.Reap.{
  Reaped, after_update, reap_row, reap_rows, reap_orphaned_sessions, nothing_reaped,
}
use ctrlrelay.Orphans.World.{World, left_alone}

module _ {A : Type 0} (p r q : A → Bool) where
  any-both :
      (xs : List A) → any (λ x. (p x && r x) && q x) xs ≡ true → any (λ x. p x && r x) xs ≡ true
  unfolding any
  any-both [] h = cc
  any-both (x ∷ xs) h = ground (arith, any-both xs)

  any-select-both :
      (xs : List A)
      → any (λ x. (p x && r x) && q x) xs ≡ true
      → any (λ x. p x && q x) (select r xs) ≡ true
  unfolding any select
  any-select-both [] h = cc
  any-select-both (x ∷ xs) h = ground (arith, any-select-both xs)

module _ (w : World) (sid : String) (now : ℕ) where
  abbrev IsRunning : Db → Type 0
  IsRunning d = any (has_status sid "running") d.sessions ≡ true

  record IsDone (r : Reaped) : Type 0 where
    stopped : any (has_status sid "running") r.conn.saved.sessions ≡ false
    failed : any (failed_at now sid) r.conn.saved.sessions ≡ true
    unlocked : any (is_held_by sid) r.conn.saved.repo_locks ≡ false
    reported : any (is_of sid) r.settled ≡ true

  -- Calm, and the run is either still running or done with.
  record Inv (r : Reaped) : Type 0 where
    calm : IsCalm r.conn
    phase : IsRunning r.conn.saved ⊎ IsDone r

  module _ (s : Session) (r : Reaped) (calm : IsCalm r.conn) where
    abbrev updated : Outcome Bool × Conn Db
    updated = fail_orphaned_session now s.id (w.summary s) r.conn

    abbrev next : Reaped
    next = after_update w s updated r

    next-IsCalm : IsCalm next.conn
    next-IsCalm =
        let (conn, _, _) = after_update-adds w sid s updated r in
        subst IsCalm (sym conn) (fail-IsCalm now s.id (w.summary s) r.conn calm).0

    done-by :
        any (has_status sid "running") updated.1.saved.sessions ≡ false
        → any (failed_at now sid) updated.1.saved.sessions ≡ true
        → any (is_held_by sid) updated.1.saved.repo_locks ≡ false
        → any (is_of sid) next.settled ≡ true
        → IsDone next
    done-by stopped failed unlocked reported =
        let (conn, _, _) = after_update-adds w sid s updated r in
        record {
          stopped = ap (λ c. any (has_status sid "running") c.saved.sessions) conn ∙ stopped;
          failed = ap (λ c. any (failed_at now sid) c.saved.sessions) conn ∙ failed;
          unlocked = ap (λ c. any (is_held_by sid) c.saved.repo_locks) conn ∙ unlocked;
          reported = reported;
        }

    own_stopped :
        s.id ≡ sid
        → any (has_status s.id "running") updated.1.saved.sessions ≡ false
        → any (has_status sid "running") updated.1.saved.sessions ≡ false
    own_stopped e h = subst (λ k. any (has_status k "running") updated.1.saved.sessions ≡ false) e h

    own_failed :
        s.id ≡ sid
        → any (failed_at now s.id) updated.1.saved.sessions ≡ true
        → any (failed_at now sid) updated.1.saved.sessions ≡ true
    own_failed e h = subst (λ k. any (failed_at now k) updated.1.saved.sessions ≡ true) e h

    own_unlocked :
        s.id ≡ sid
        → any (is_held_by s.id) updated.1.saved.repo_locks ≡ false
        → any (is_held_by sid) updated.1.saved.repo_locks ≡ false
    own_unlocked e h = subst (λ k. any (is_held_by k) updated.1.saved.repo_locks ≡ false) e h

    next-IsDone : IsDone r → IsDone next
    next-IsDone d = elim (Bool-cases (str_eq s.id sid)) [
      | inl own ↦
          let e : s.id ≡ sid = (eq_iff s.id sid).0 own in
          let (_, grows, _) = after_update-adds w sid s updated r in
          elim (fail_orphaned_session-atomic now s.id (w.summary s) r.conn calm.settled).1 [
            | inl (done, stopped, unlocked) ↦
                done-by (own_stopped e stopped)
                  (own_failed e (fail-failed now s.id (w.summary s) r.conn calm done))
                  (own_unlocked e unlocked) (grows d.reported)
            | inr (_, same) ↦
                done-by (ap (λ d. any (has_status sid "running") d.sessions) same ∙ d.stopped)
                  (ap (λ d. any (failed_at now sid) d.sessions) same ∙ d.failed)
                  (ap (λ d. any (is_held_by sid) d.repo_locks) same ∙ d.unlocked) (grows d.reported)
          ]
      | inr other ↦
          let (stopped, unlocked, alike) =
            fail-other sid now s.id (w.summary s) r.conn (distinct other) calm in
          let (_, grows, _) = after_update-adds w sid s updated r in
          done-by (stopped ∙ d.stopped) (alike (ended_failed now) ∙ d.failed)
            (unlocked ∙ d.unlocked) (grows d.reported)
    ]

    next-hit : s.id ≡ sid → IsRunning r.conn.saved → IsDone next
    next-hit e running =
        let (_, _, reports) = after_update-adds w sid s updated r in
        let changed : updated.0 ≡ ok true =
          (fail-IsCalm now s.id (w.summary s) r.conn calm).1
          ∙ ap (λ k. ok (any (has_status k "running") r.conn.saved.sessions)) e
          ∙ ap ok running in
        elim (fail_orphaned_session-atomic now s.id (w.summary s) r.conn calm.settled).1 [
          | inl (done, stopped, unlocked) ↦
              done-by (own_stopped e stopped)
                (own_failed e (fail-failed now s.id (w.summary s) r.conn calm done))
                (own_unlocked e unlocked) (reports changed e)
          | inr (unchanged, _) ↦ elim (unchanged changed) [ ]
        ]

    next-phase : IsRunning r.conn.saved ⊎ IsDone r → IsRunning next.conn.saved ⊎ IsDone next
    next-phase (inr d) = inr (next-IsDone d)
    next-phase (inl running) = elim (Bool-cases (str_eq s.id sid)) [
      | inl own ↦ inr (next-hit ((eq_iff s.id sid).0 own) running)
      | inr other ↦
          let (conn, _, _) = after_update-adds w sid s updated r in
          let (same, _, _) = fail-other sid now s.id (w.summary s) r.conn (distinct other) calm in
          inl (ap (λ c. any (has_status sid "running") c.saved.sessions) conn ∙ same ∙ running)
    ]

  reap_row-Inv : (s : Session) (r : Reaped) → Inv r → Inv (reap_row w now s r)
  unfolding reap_row
  reap_row-Inv s r i = elim (Bool-cases (left_alone w s)) [
    | inl alone ↦ rw alone i
    | inr dead ↦
        rw dead (record { calm = next-IsCalm s r i.calm; phase = next-phase s r i.calm i.phase })
  ]

  reap_row-hit :
      (s : Session) (r : Reaped)
      → (is_session sid s && not (left_alone w s)) ≡ true
      → Inv r
      → IsDone (reap_row w now s r)
  unfolding reap_row
  reap_row-hit s r h i =
      let dead : left_alone w s ≡ false = ground arith in
      let own : s.id ≡ sid = ground (arith, eq_iff s.id sid) in
      rw dead (elim i.phase [
        | inl running ↦ next-hit s r i.calm own running
        | inr d ↦ next-IsDone s r i.calm d
      ])

  reap_row-IsDone :
      (s : Session) (r : Reaped) → IsCalm r.conn → IsDone r → IsDone (reap_row w now s r)
  unfolding reap_row
  reap_row-IsDone s r calm d = elim (Bool-cases (left_alone w s)) [
    | inl alone ↦ rw alone d
    | inr dead ↦ rw dead (next-IsDone s r calm d)
  ]

  rows-IsDone : (ss : List Session) (r : Reaped) → Inv r → IsDone r → IsDone (reap_rows w now ss r)
  unfolding reap_rows
  rows-IsDone [] r i d = d
  rows-IsDone (s ∷ ss) r i d =
      rows-IsDone ss (reap_row w now s r) (reap_row-Inv s r i) (reap_row-IsDone s r i.calm d)

  rows-hit :
      (ss : List Session) (r : Reaped)
      → any (λ s. is_session sid s && not (left_alone w s)) ss ≡ true
      → Inv r
      → IsDone (reap_rows w now ss r)
  unfolding reap_rows any
  rows-hit [] r h i = cc
  rows-hit (s ∷ ss) r h i = elim (Bool-cases (is_session sid s && not (left_alone w s))) [
    | inl hit ↦ rows-IsDone ss (reap_row w now s r) (reap_row-Inv s r i) (reap_row-hit s r hit i)
    | inr miss ↦ rows-hit ss (reap_row w now s r) (ground (arith, miss)) (reap_row-Inv s r i)
  ]

-- A run that died with its process is settled. Where no transaction is open and the database is free,
-- and a running session of an id has a process that is gone and no worktree that may be in use, the
-- clean-up ends with no session of that id running, one that failed at that time and was cut short,
-- and no lock held by it, as other connections see it, and reports it.
pub reap-settles :
    (w : World) (now : ℕ) (sid : String) (c : Conn Db) (book : Book)
    → IsSettled c
    → c.busy ≡ []
    → any (λ s. has_status sid "running" s && not (left_alone w s)) c.saved.sessions ≡ true
    → let r = reap_orphaned_sessions w now (nothing_reaped c book) in
      (any (has_status sid "running") r.conn.saved.sessions ≡ false)
      × (any (failed_at now sid) r.conn.saved.sessions ≡ true)
      × (any (is_held_by sid) r.conn.saved.repo_locks ≡ false)
      × (any (λ e. str_eq e.session_id sid) r.settled ≡ true)
unfolding reap_orphaned_sessions list_running_sessions
reap-settles w now sid c book s free dead =
    let running : Session → Bool = λ s. str_eq s.status "running" in
    let left : Session → Bool = λ s. not (left_alone w s) in
    let listed : any (λ s. is_session sid s && left s) (select running c.current.sessions) ≡ true =
      any-select-both (is_session sid) running left c.current.sessions
        (ap (λ d. any (λ s. (is_session sid s && running s) && left s) d.sessions) s.same ∙ dead) in
    let d : IsDone w sid now (reap_orphaned_sessions w now (nothing_reaped c book)) =
      rows-hit w sid now _ (nothing_reaped c book) listed record {
        calm = record { settled = s; free = free };
        phase = inl (any-both (is_session sid) running left c.saved.sessions dead);
      } in
    (d.stopped, d.failed, d.unlocked, d.reported)
