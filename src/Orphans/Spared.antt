-- ===== src/Orphans/Spared.antt =====
-- core/orphans.py: what the poller's start leaves alone.
use ctrlrelay.Base.{
  ℕ, ◌≡◌, ◌⊎◌, inl, inr, refl, ◌∙◌, sym, Bool, true, false, ◌&&◌, ◌||◌, not, String, Option, none,
  some, List, [], ◌∷◌, All, arith, any, find, select, str_eq, ap, Bool-cases, eq_iff,
}
use ctrlrelay.Sqlite.{Conn}
use ctrlrelay.State.Rows.{Session, Lock, Db}
use ctrlrelay.State.Locks.{is_held_by}
use ctrlrelay.State.Sessions.{
  is_session, list_running_sessions, list_blocked_sessions_holding_locks, joined_blocked,
  joined_row,
}
use ctrlrelay.State.Atomic.{IsSettled}
use ctrlrelay.State.Rules.{Both}
use ctrlrelay.Poller.Book.{Key, Book, is_seen}
use ctrlrelay.Orphans.World.{World, owner_may_live, worktree_may_be_busy, left_alone}
use ctrlrelay.Orphans.Reap.{reap_orphaned_sessions, nothing_reaped}
use ctrlrelay.Orphans.Locks.{release_dead_blocked_locks, clear_up}
use ctrlrelay.Orphans.Kept.{release_rows-Untouched, Untouched, any-select}
use ctrlrelay.Orphans.Rows.{hands_back, IsJust, Inv, reap_rows-Inv}

-- A run that may still be alive: its process may be, or it is running in a worktree that a process
-- may be working in.
abbrev pub may_live : World → Session → Bool
may_live w s =
    owner_may_live w s || (str_eq s.status "running" && worktree_may_be_busy w s.worktree_path)

-- No session of this id is known to be dead.
abbrev pub may_all_live : World → String → List Session → Bool
may_all_live w sid ss = not (any (λ s. is_session sid s && not (may_live w s)) ss)

not-true : (b : Bool) → not b ≡ true → b ≡ false
not-true b h = ground arith

weaker : (a o r b : Bool) → (a && not (o || (r && b))) ≡ false → (a && not (o || b)) ≡ false
weaker a o r b h = ground arith

stronger : (a o r b : Bool) → r ≡ false → (a && not (o || (r && b))) ≡ false → (a && not o) ≡ false
stronger a o r b e h = ground (arith, e)

not_running : (s : Session) → str_eq s.status "blocked" ≡ true → str_eq s.status "running" ≡ false
not_running s h = ap (λ t. str_eq t "running") ((eq_iff s.status "blocked").0 h)

any-select-false :
    {A : Type 0} (q g p : A → Bool) (xs : List A)
    → ((x : A) → g x ≡ false → q x ≡ false)
    → any g xs ≡ false
    → any q (select p xs) ≡ false
unfolding any select
any-select-false q g p [] imp h = refl
any-select-false q g p (x ∷ xs) imp h = ground (arith, imp x, any-select-false q g p xs imp)

module _ (w : World) (sid : String) where
  same_live :
      (ss ts : List Session)
      → select (is_session sid) ss ≡ select (is_session sid) ts
      → may_all_live w sid ss ≡ may_all_live w sid ts
  same_live ss ts e = ap not (
      any-select (is_session sid) (λ s. not (may_live w s)) ss
      ∙ ap (any (λ s. not (may_live w s))) e
      ∙ sym (any-select (is_session sid) (λ s. not (may_live w s)) ts))

  running_spared :
      (ss : List Session)
      → may_all_live w sid ss ≡ true
      → any
          (λ s. is_session sid s && not (left_alone w s))
          (select (λ s. str_eq s.status "running") ss)
        ≡ false
  running_spared ss h =
      any-select-false _ _ (λ s. str_eq s.status "running") ss
        (λ s.
          weaker (is_session sid s) (owner_may_live w s) (str_eq s.status "running")
            (worktree_may_be_busy w s.worktree_path))
        (not-true _ h)

  found :
      (g p : Session → Bool) (ss : List Session) (s : Session)
      → find p ss ≡ some s
      → any g ss ≡ false
      → g s ≡ false
  unfolding any find
  found g p [] s e h = cc
  found g p (t ∷ ss) s e h = ground (arith, found g p ss s)

  row_spared :
      (o : Option Session) (rest : List Session)
      → ((s : Session) → o ≡ some s → (is_session sid s && not (may_live w s)) ≡ false)
      → any (λ s. is_session sid s && not (owner_may_live w s)) rest ≡ false
      → any (λ s. is_session sid s && not (owner_may_live w s)) (joined_row o rest) ≡ false
  unfolding any
  row_spared none rest live h = h
  row_spared (some s) rest live h = elim (Bool-cases (str_eq s.status "blocked")) [
    | inr other ↦ rw other h
    | inl blocked ↦
        let own : (is_session sid s && not (owner_may_live w s)) ≡ false =
          stronger _ _ (str_eq s.status "running") (worktree_may_be_busy w s.worktree_path)
            (not_running s blocked) (live s refl) in
        rw blocked (rw own h)
  ]

  blocked_spared :
      (ss : List Session) (ls : List Lock)
      → may_all_live w sid ss ≡ true
      → any (λ s. is_session sid s && not (owner_may_live w s)) (joined_blocked ss ls) ≡ false
  unfolding any joined_blocked
  blocked_spared ss [] h = refl
  blocked_spared ss (l ∷ ls) h =
      row_spared (find (is_session l.session_id) ss) (joined_blocked ss ls)
        (λ s e. found _ (is_session l.session_id) ss s e (not-true _ h)) (blocked_spared ss ls h)

-- What the poller's start clears up does not touch a run that may still be alive, and gives no issue
-- away. Where no transaction is open, no session of an id is known to be dead, and an issue is seen:
-- whatever writes the locked database refuses, the saved rows and locks of that id are as they were
-- and it is not reported; an issue is handed back only where no open pull request was found for its
-- branch, or the one that the run itself had saved; and the issue stays seen unless a reported run
-- hands it back.
pub clear_up-spares :
    (w : World) (now : ℕ) (sid : String) (k : Key) (c : Conn Db) (book : Book)
    → IsSettled c
    → may_all_live w sid c.saved.sessions ≡ true
    → is_seen k book ≡ true
    → let r = (clear_up w now (nothing_reaped c book)).1 in
      (select (is_session sid) r.conn.saved.sessions ≡ select (is_session sid) c.saved.sessions)
      × (select (is_held_by sid) r.conn.saved.repo_locks
          ≡ select (is_held_by sid) c.saved.repo_locks)
      × (any (λ e. str_eq e.session_id sid) r.settled ≡ false)
      × All (IsJust w) r.settled
      × ((is_seen k r.book ≡ true) ⊎ (any (hands_back k) r.settled ≡ true))
unfolding clear_up reap_orphaned_sessions release_dead_blocked_locks list_running_sessions
    list_blocked_sessions_holding_locks any
clear_up-spares w now sid k c book s live seen =
    let rs = select (is_session sid) c.saved.sessions in
    let ls = select (is_held_by sid) c.saved.repo_locks in
    let start : Both (Untouched sid rs ls) c = record {
      saved = record { rows = refl; locks = refl };
      current = record {
        rows = ap (λ d. select (is_session sid) d.sessions) s.same;
        locks = ap (λ d. select (is_held_by sid) d.repo_locks) s.same;
      };
    } in
    let reaped = reap_orphaned_sessions w now (nothing_reaped c book) in
    let i : Inv w sid k rs ls reaped =
      reap_rows-Inv w sid k rs ls now _ _
        (running_spared w sid c.current.sessions (same_live w sid _ _ start.current.rows ∙ live))
        record { kept = start; own = refl; just = tt; seen = inl seen } in
    let end : Both (Untouched sid rs ls) (release_dead_blocked_locks w reaped.conn).1 =
      release_rows-Untouched w sid rs ls _ ([], reaped.conn)
        (blocked_spared w sid reaped.conn.current.sessions reaped.conn.current.repo_locks
          (same_live w sid _ _ i.kept.current.rows ∙ live))
        i.kept in
    (end.saved.rows, end.saved.locks, i.own, i.just, i.seen)
