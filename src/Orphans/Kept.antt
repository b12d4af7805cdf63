-- ===== src/Orphans/Kept.antt =====
-- core/orphans.py: what the two clean-ups leave of the rows and the locks of another session.
use ctrlrelay.Sqlite.{raised, ok, Outcome, Conn}
use ctrlrelay.Orphans.Locks.{after_release, release_rows, release_row}
use ctrlrelay.Orphans.World.{owner_may_live, World}
use ctrlrelay.Base.{
  inr, inl, Bool-cases, not, ℕ, ◌≡◌, ◌≢◌, refl, ◌∙◌, Bool, true, false, ◌&&◌, String, List, [], ◌∷◌,
  arith, eq_iff, any, select, update, count, delete,
}
use ctrlrelay.State.Rows.{Session, Lock, Db}
use ctrlrelay.State.Locks.{is_held_by, delete_locks}
use ctrlrelay.State.Sessions.{
  is_session, has_status, update_sessions, mark_failed, fail_orphaned_session, delete_blocked_lock,
  release_blocked_session_lock,
}
use ctrlrelay.State.Rules.{Both, Keeps, Rule, update_then-Rule, changed-Rule}

module _ {A : Type 0} (q p : A → Bool) where
  pub select-update :
      (f : A → A) (xs : List A)
      → ((x : A) → q x ≡ true → p x ≡ false)
      → ((x : A) → p x ≡ true → q (f x) ≡ false)
      → select q (update p f xs) ≡ select q xs
  unfolding select update
  select-update f [] apart off = refl
  select-update f (x ∷ xs) apart off = ground (arith, apart x, off x, select-update f xs apart off)

  pub select-delete :
      (xs : List A) → ((x : A) → q x ≡ true → p x ≡ false) → select q (delete p xs) ≡ select q xs
  unfolding select delete
  select-delete [] apart = refl
  select-delete (x ∷ xs) apart = ground (arith, apart x, select-delete xs apart)

  -- A test on the rows that pass another depends on those rows alone.
  pub any-select : (xs : List A) → any (λ x. q x && p x) xs ≡ any p (select q xs)
  unfolding any select
  any-select [] = refl
  any-select (x ∷ xs) = ground (arith, any-select xs)

-- The rows and the locks of a session are these.
pub record Untouched (sid : String) (rs : List Session) (ls : List Lock) (d : Db) : Type 0 where
  pub rows : select (is_session sid) d.sessions ≡ rs
  pub locks : select (is_held_by sid) d.repo_locks ≡ ls

module _ (sid : String) (rs : List Session) (ls : List Lock) where
  delete_locks-Keeps :
      (p : Lock → Bool)
      → ((l : Lock) → is_held_by sid l ≡ true → p l ≡ false)
      → Keeps (Untouched sid rs ls) (delete_locks p)
  delete_locks-Keeps p apart d h = (
    count p d.repo_locks,
    record d { repo_locks = delete p d.repo_locks },
    refl,
    record { rows = h.rows; locks = select-delete (is_held_by sid) p d.repo_locks apart ∙ h.locks },
  )

  fail-Keeps :
      (now : ℕ) (s summary : String)
      → s ≢ sid
      → Keeps
          (Untouched sid rs ls)
          (update_sessions (has_status s "running") (mark_failed now summary))
  fail-Keeps now s summary ne d h = (
    count (has_status s "running") d.sessions,
    record d { sessions = update (has_status s "running") (mark_failed now summary) d.sessions },
    refl,
    record {
      rows =
          select-update (is_session sid) (has_status s "running") (mark_failed now summary)
            d.sessions (λ x own. ground (arith, eq_iff x.id sid, eq_iff x.id s))
            (λ x hit. ground (arith, eq_iff x.id sid, eq_iff x.id s))
          ∙ h.rows;
      locks = h.locks;
    },
  )

  other_session :
      (s : String) (l : Lock) → s ≢ sid → is_held_by sid l ≡ true → is_held_by s l ≡ false
  other_session s l ne h = ground (arith, eq_iff l.session_id sid, eq_iff l.session_id s)

  pub fail-Untouched :
      (now : ℕ) (s summary : String)
      → s ≢ sid
      → Rule (Untouched sid rs ls) (fail_orphaned_session now s summary)
  unfolding fail_orphaned_session
  fail-Untouched now s summary ne =
      update_then-Rule (Untouched sid rs ls)
        (update_sessions (has_status s "running") (mark_failed now summary))
        (delete_locks (is_held_by s)) (fail-Keeps now s summary ne)
        (delete_locks-Keeps (is_held_by s) (λ l. other_session s l ne))

  unblock-Keeps : (s : String) → s ≢ sid → Keeps (Untouched sid rs ls) (delete_blocked_lock s)
  unfolding delete_blocked_lock
  unblock-Keeps s ne d = delete_locks-Keeps _ (λ l h. ground (arith, other_session s l ne h)) d

  pub release-Untouched :
      (s : String) → s ≢ sid → Rule (Untouched sid rs ls) (release_blocked_session_lock s)
  unfolding release_blocked_session_lock
  release-Untouched s ne =
      changed-Rule (Untouched sid rs ls) (delete_blocked_lock s) (unblock-Keeps s ne)

module _ (w : World) (sid : String) (rs : List Session) (ls : List Lock) where
  release_row-Untouched :
      (s : Session) (released : List String) (c : Conn Db)
      → (is_session sid s && not (owner_may_live w s)) ≡ false
      → Both (Untouched sid rs ls) c
      → Both (Untouched sid rs ls) (release_row w s (released, c)).1
  unfolding release_row
  release_row-Untouched s released c spared b = elim (Bool-cases (owner_may_live w s)) [
    | inl alone ↦ rw alone b
    | inr dead ↦ rw dead (freed (ground (arith, dead, eq_iff s.id sid)))
  ]
    where
      same :
          (o : Outcome Bool × Conn Db)
          → Both (Untouched sid rs ls) o.1
          → Both (Untouched sid rs ls) (after_release s.id released o).1
      same (ok true, c) b = b
      same (ok false, c) b = b
      same (raised e, c) b = b

      freed :
          s.id ≢ sid
          → Both
              (Untouched sid rs ls)
              (after_release s.id released (release_blocked_session_lock s.id c)).1
      freed ne =
          same (release_blocked_session_lock s.id c) (release-Untouched sid rs ls s.id ne c b)

  pub release_rows-Untouched :
      (ss : List Session) (r : List String × Conn Db)
      → any (λ s. is_session sid s && not (owner_may_live w s)) ss ≡ false
      → Both (Untouched sid rs ls) r.1
      → Both (Untouched sid rs ls) (release_rows w ss r).1
  unfolding release_rows any
  release_rows-Untouched [] r h b = b
  release_rows-Untouched (s ∷ ss) (released, c) h b =
      release_rows-Untouched ss (release_row w s (released, c)) (ground arith)
        (release_row-Untouched s released c (ground arith) b)
