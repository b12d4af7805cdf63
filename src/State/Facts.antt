-- ===== src/State/Facts.antt =====
-- core/state.py: how each statement on `pending_resumes` keeps a fact about the row of one session.
use ctrlrelay.Base.{
  ℕ, ◌≡◌, ◌≢◌, refl, sym, ◌∙◌, Bool, true, false, ◌&&◌, List, [], ◌∷◌, arith, String, eq_iff, any,
  update, Bool-cases, inl, inr, count, delete, ◌++◌,
}
use ctrlrelay.Base.Keyed.{
  row, IsUnique, holds, holds-update, holds-delete, holds-append, update-IsUnique, delete-IsUnique,
  append-IsUnique,
}
use ctrlrelay.State.Rows.{Db, Pending, Session}
use ctrlrelay.State.Rules.{Keeps}
use ctrlrelay.State.Sessions.{update_sessions}
use ctrlrelay.State.Pending.{is_row, update_row, upsert_row, rewritten}
use ctrlrelay.State.Sweep.{is_prunable, prune_rows}

abbrev pub session_key : Pending → String
session_key r = r.session_id

-- Session ids are a primary key, and the row of `sid` is there and passes the test.
pub record Fact (q : Pending → Bool) (sid : String) (d : Db) : Type 0 where
  pub unique : IsUnique session_key d.pending_resumes
  pub found : holds q (row session_key sid d.pending_resumes) ≡ true

module _ (q : Pending → Bool) (sid : String) where
  pub update_row-Keeps :
      (k : String) (g : Pending → Bool) (f : Pending → Pending)
      → ((x : Pending) → (f x).session_id ≡ x.session_id)
      → ((x : Pending) → x.session_id ≡ sid → k ≡ sid → q x ≡ true → g x ≡ true → q (f x) ≡ true)
      → Keeps (Fact q sid) (update_row k g f)
  update_row-Keeps k g f same keep d h = (
    count p rows,
    record d { pending_resumes = update p f rows },
    refl,
    record {
      unique = update-IsUnique session_key p f rows (λ x _. same x) h.unique;
      found = holds-update session_key q sid p f rows (λ x _. same x) at_sid h.found;
    },
  )
    where
      rows : List Pending
      rows = d.pending_resumes

      p : Pending → Bool
      p r = is_row k r && g r

      at_sid : (x : Pending) → x.session_id ≡ sid → q x ≡ true → p x ≡ true → q (f x) ≡ true
      at_sid x e ok hit = keep x e (ground (arith, eq_iff x.session_id k)) ok (ground arith)

  pub update_sessions-Keeps :
      (p : Session → Bool) (f : Session → Session) → Keeps (Fact q sid) (update_sessions p f)
  update_sessions-Keeps p f d h = (
    count p d.sessions,
    record d { sessions = update p f d.sessions },
    refl,
    record { unique = h.unique; found = h.found },
  )

  -- A question asked of another session.
  pub upsert_row-Keeps :
      (new : Pending) → new.session_id ≢ sid → Keeps (Fact q sid) (upsert_row new)
  unfolding upsert_row
  upsert_row-Keeps new ne d h = elim (Bool-cases (any (is_row new.session_id) d.pending_resumes)) [
    | inl there ↦ (
      1,
      record d {
        pending_resumes = update (is_row new.session_id) (rewritten new) d.pending_resumes;
      },
      rw there,
      record {
        unique =
            update-IsUnique session_key (is_row new.session_id) (rewritten new) d.pending_resumes
              same h.unique;
        found =
            holds-update session_key q sid (is_row new.session_id) (rewritten new) d.pending_resumes
              same other h.found;
      },
    )
    | inr absent ↦ (
      1,
      record d { pending_resumes = d.pending_resumes ++ new ∷ [] },
      rw absent,
      record {
        unique = append-IsUnique session_key new d.pending_resumes absent h.unique;
        found = holds-append session_key q sid new d.pending_resumes h.found;
      },
    )
  ]
    where
      same : (x : Pending) → is_row new.session_id x ≡ true → new.session_id ≡ x.session_id
      same x e = sym ((eq_iff x.session_id new.session_id).0 e)

      other :
          (x : Pending)
          → x.session_id ≡ sid
          → q x ≡ true
          → is_row new.session_id x ≡ true
          → q (rewritten new x) ≡ true
      other x e ok hit = absurd (ne (same x hit ∙ e))

  pub prune_rows-Keeps :
      (older_than_ts : ℕ)
      → ((x : Pending) → q x ≡ true → is_prunable older_than_ts x ≡ false)
      → Keeps (Fact q sid) (prune_rows older_than_ts)
  unfolding prune_rows
  prune_rows-Keeps ts keep d h = (
    count (is_prunable ts) d.pending_resumes,
    record d { pending_resumes = delete (is_prunable ts) d.pending_resumes },
    refl,
    record {
      unique = delete-IsUnique session_key (is_prunable ts) d.pending_resumes h.unique;
      found =
          holds-delete session_key q sid (is_prunable ts) d.pending_resumes h.unique (λ x _. keep x)
            h.found;
    },
  )
