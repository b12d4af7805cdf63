-- ===== src/State/Parked.antt =====
-- core/state.py: a question saved before the wait for its answer, and the answer taken in process.
use ctrlrelay.State.Sweep.{is_same}
use ctrlrelay.State.Facts.{session_key}
use ctrlrelay.State.Lifecycle.Routable.{asks}
use ctrlrelay.Base.Keyed.{
  count-pos_any, any-row, IsUnique, row-any-false, row-append, key-row, row-update, guarded,
  row-any-true, row, holds,
}
use ctrlrelay.State.Sessions.{set_status, has_status, undo_if}
use ctrlrelay.State.Atomic.{update_then-atomic, IsSettled}
use ctrlrelay.State.Pending.{
  taken, is_open, take_parked_answer, new_row, is_row, rewritten, add_pending_resume,
  park_blocked_question, upsert_row,
}
use ctrlrelay.Sqlite.{Conn, ok, write, commit, rollback, on_error, ◌>>◌}
use ctrlrelay.Base.{
  ap, ◌∙◌, count, ltb, is_none, ◌&&◌, is_some, [], ◌∷◌, ◌++◌, inr, inl, Bool-cases, eq_refl, update,
  eq_iff, none, sym, arith, ◌≢◌, false, List, ◌⊎◌, any, true, some, String, ◌≡◌, Bool, ℕ, Option,
  refl,
}
use ctrlrelay.State.Rows.{Db, Pending, Session}
use ctrlrelay.Base.Changes.{update-none, any-update_off}
use mathlib.Core.Option

two_writes-atomic :
    (first second : Db → Option (ℕ × Db)) (c : Conn Db) (n m : ℕ) (d₁ d₂ : Db)
    → IsSettled c
    → first c.current ≡ some (n, d₁)
    → second d₁ ≡ some (m, d₂)
    → let r = on_error (do write first; write second; commit) (undo_if true) c in
      IsSettled r.1 × (((r.0 ≡ ok tt) × (r.1.saved ≡ d₂)) ⊎ ((r.0 ≢ ok tt) × (r.1.saved ≡ c.saved)))
unfolding write commit rollback
two_writes-atomic first second c n m d₁ d₂ s h k = ground arith

-- The row of a session after its question was written.
row-upsert_row :
    (new : Pending) (d : Db) (q : Pending → Bool)
    → q new ≡ true
    → ((old : Pending) → q (rewritten new old) ≡ true)
    → (n : ℕ) × (rows : List Pending) × (upsert_row new d
        ≡ some (n, record d { pending_resumes = rows }))
      × (holds q (row session_key new.session_id rows) ≡ true)
unfolding upsert_row
row-upsert_row new d q fresh again = elim (Bool-cases (any (is_row new.session_id) rows)) [
  | inl there ↦ (
    1,
    update (is_row new.session_id) (rewritten new) rows,
    rw there,
    rw (row-update session_key new.session_id (is_row new.session_id) (rewritten new) rows same) (
        at_row (row session_key new.session_id rows) (λ x. key-row session_key new.session_id rows)
          (found there)),
  )
  | inr absent ↦ (
    1,
    rows ++ new ∷ [],
    rw absent,
    rw
        (
          row-append session_key new.session_id new rows,
          row-any-false session_key new.session_id rows absent,
        )
        (ground (arith, eq_refl new.session_id)),
  )
]
  where
    rows : List Pending
    rows = d.pending_resumes

    same : (x : Pending) → is_row new.session_id x ≡ true → new.session_id ≡ x.session_id
    same x e = sym ((eq_iff x.session_id new.session_id).0 e)

    found : any (is_row new.session_id) rows ≡ true → row session_key new.session_id rows ≢ none
    found there = row-any-true session_key new.session_id rows there

    at_row :
        (o : Option Pending)
        → ((x : Pending) → o ≡ some x → x.session_id ≡ new.session_id)
        → o ≢ none
        → holds q (Option.map (guarded (is_row new.session_id) (rewritten new)) o) ≡ true
    at_row none k ne = absurd (ne refl)
    at_row (some x) k ne = ground (arith, eq_iff x.session_id new.session_id, k x refl, again x)

-- However the database fails under it, `park_blocked_question` never leaves a session blocked with
-- no question saved, nor a question saved for a session that still counts as running: called with
-- no transaction open, it leaves none, and either it returns and both are saved, the question open
-- for replies, or it raises and the saved database is as it was.
pub park_blocked_question-atomic :
    (now : ℕ) (sid pipeline repo question : String) (c : Conn Db)
    → IsSettled c
    → let r = park_blocked_question now sid pipeline repo question c in
      IsSettled r.1
      × (((r.0 ≡ ok tt)
            × (any (has_status sid "running") r.1.saved.sessions ≡ false)
            × (holds (asks question) (row session_key sid r.1.saved.pending_resumes) ≡ true))
          ⊎ ((r.0 ≢ ok tt) × (r.1.saved ≡ c.saved)))
unfolding park_blocked_question add_pending_resume
park_blocked_question-atomic now sid pipeline repo question c s =
    let (n, rows, e, found) =
      row-upsert_row new blocked (asks question) (ground (arith, eq_refl question))
        (λ old. ground (arith, eq_refl question)) in
    let (settled, ends) = two_writes-atomic _ (upsert_row new) c _ n _ _ s refl e in
    (
      settled,
      elim ends [
        | inl (done, saved) ↦ inl (done, rw saved stopped, rw saved found)
        | inr kept ↦ inr kept
      ],
    )
  where
    new : Pending
    new = new_row now sid pipeline repo question none none

    running : Session → Bool
    running = has_status sid "running"

    blocked : Db
    blocked = record c.current {
      sessions = update running (set_status "blocked") c.current.sessions;
    }

    stopped : any running blocked.sessions ≡ false
    stopped = any-update_off running (set_status "blocked") c.current.sessions (λ x h. ground arith)

-- The row was executed with this answer.
abbrev pub executed_with : String → Pending → Bool
executed_with text r = is_same r.answer (some text) && is_some r.answered_at && is_some r.resumed_at

-- However the database fails under it, `take_parked_answer` moves the question and its session
-- together: called with no transaction open on a table with one row a session, it leaves none, and
-- either it reports `True`, the question was open, and now carries the answer as executed while the
-- session no longer counts as blocked, or the saved database is as it was.
pub take_parked_answer-atomic :
    (now : ℕ) (sid text : String) (c : Conn Db)
    → IsSettled c
    → IsUnique session_key c.current.pending_resumes
    → let r = take_parked_answer now sid text c in
      IsSettled r.1
      × (((r.0 ≡ ok true)
            × (holds is_open (row session_key sid c.saved.pending_resumes) ≡ true)
            × (holds (executed_with text) (row session_key sid r.1.saved.pending_resumes) ≡ true)
            × (any (has_status sid "blocked") r.1.saved.sessions ≡ false))
          ⊎ ((r.0 ≢ ok true) × (r.1.saved ≡ c.saved)))
unfolding take_parked_answer
take_parked_answer-atomic now sid text c s u =
    let (settled, ends) =
      update_then-atomic _ _ c _ _ _ _ s refl
        (λ e.
          ap (λ xs. record c.current { pending_resumes = xs })
            (update-none p f rows (sym (count-pos_any p rows) ∙ e)))
        refl in
    (
      settled,
      elim ends [
        | inl (done, some_row, saved) ↦ inl (
          done,
          rw (← s.same) (was_open some_row),
          rw saved (executed some_row),
          rw saved unblocked,
        )
        | inr kept ↦ inr kept
      ],
    )
  where
    rows : List Pending
    rows = c.current.pending_resumes

    guard : Pending → Bool
    guard r = is_open r && is_none r.resumed_at

    p : Pending → Bool
    p r = is_row sid r && guard r

    f : Pending → Pending
    f = taken now text

    guarded_row : ltb 0 (count p rows) ≡ true → holds guard (row session_key sid rows) ≡ true
    guarded_row h = sym (any-row session_key sid guard rows u) ∙ sym (count-pos_any p rows) ∙ h

    opened : (o : Option Pending) → holds guard o ≡ true → holds is_open o ≡ true
    opened none h = cc
    opened (some x) h = ground arith

    was_open : ltb 0 (count p rows) ≡ true → holds is_open (row session_key sid rows) ≡ true
    was_open h = opened (row session_key sid rows) (guarded_row h)

    at_row :
        (o : Option Pending)
        → ((x : Pending) → o ≡ some x → x.session_id ≡ sid)
        → holds guard o ≡ true
        → holds (executed_with text) (Option.map (guarded p f) o) ≡ true
    at_row none k h = cc
    at_row (some x) k h =
        let hit : p x ≡ true = ground (arith, eq_iff x.session_id sid, k x refl) in
        ground (arith, hit, eq_refl text)

    executed :
        ltb 0 (count p rows) ≡ true
        → holds (executed_with text) (row session_key sid (update p f rows)) ≡ true
    executed h =
        rw (row-update session_key sid p f rows (λ x _. refl))
          (at_row (row session_key sid rows) (λ x. key-row session_key sid rows) (guarded_row h))

    blocked : Session → Bool
    blocked = has_status sid "blocked"

    unblocked : any blocked (update blocked (set_status "running") c.current.sessions) ≡ false
    unblocked =
        any-update_off blocked (set_status "running") c.current.sessions (λ x h. ground arith)
