-- ===== src/State/Answers.antt =====
-- core/state.py: what the methods on one question report, and that the first answer stands.
use ctrlrelay.State.Sweep.{list_pending_resumes_to_execute}
use ctrlrelay.State.WellFormed.{row-IsWellFormed, IsWellFormed, IsSound}
use mathlib.Core.Option
use mathlib.Core.List.{Memᴰ}
use ctrlrelay.Base.{
  eq_refl, ℕ, ◌≡◌, ◌≢◌, refl, sym, ◌∙◌, Bool, true, ◌&&◌, Option, none, some, List, arith, String,
  eq_iff, All, ltb, update, subst,
}
use ctrlrelay.Base.Keyed.{
  key-row, row, holds, IsUnique, count-pos_any, any-row, guarded, row-update, update-IsUnique,
}
use ctrlrelay.Sqlite.{Conn, ok, write, commit}
use ctrlrelay.State.Rows.{Db, Pending}
use ctrlrelay.State.Rules.{Both}
use ctrlrelay.State.Facts.{Fact, session_key}
use ctrlrelay.State.Pending.{
  is_row, is_open, update_row, changed, answer_pending_resume, expire_pending_resume, answered,
}
use ctrlrelay.State.Lifecycle.{Op, run}
use ctrlrelay.State.Lifecycle.Kept.{awaits, Spares, run-awaits, answer_kept}

changed_ok :
    (s : Db → Option (ℕ × Db)) (c : Conn Db) (n : ℕ) (d : Db) (b : Bool)
    → s c.current ≡ some (n, d)
    → (changed s c).0 ≡ ok b
    → (b ≡ ltb 0 n) × ((changed s c).1.saved ≡ d) × ((changed s c).1.current ≡ d)
unfolding write commit
changed_ok s c n d b e h = ground arith

-- What a guarded update of one row reports: whether the guard held of the row.
pub update_row_reports :
    (sid : String) (g : Pending → Bool) (f : Pending → Pending) (c : Conn Db) (b : Bool)
    → IsUnique session_key c.current.pending_resumes
    → (changed (update_row sid g f) c).0 ≡ ok b
    → b ≡ holds g (row session_key sid c.current.pending_resumes)
update_row_reports sid g f c b u h =
    (changed_ok (update_row sid g f) c _ _ b refl h).0
    ∙ count-pos_any _ c.current.pending_resumes
    ∙ any-row session_key sid g c.current.pending_resumes u

-- An answer that was taken is on the row, in the file and in the connection.
answer-awaits :
    (now : ℕ) (sid text : String) (source by : Option String) (ref : Option ℕ) (c : Conn Db)
    → IsSound c.current
    → (answer_pending_resume now sid text source by ref c).0 ≡ ok true
    → Both (Fact (awaits now text) sid) (answer_pending_resume now sid text source by ref c).1
unfolding answer_pending_resume
answer-awaits now sid text source by ref c sound h =
    let (yields, saved, current) = changed_ok (update_row sid is_open f) c _ _ true refl h in
    record {
      saved = subst (Fact q sid) (sym saved) fact;
      current = subst (Fact q sid) (sym current) fact;
    }
  where
    f : Pending → Pending
    f = answered now text source by ref

    q : Pending → Bool
    q = awaits now text

    p : Pending → Bool
    p r = is_row sid r && is_open r

    rows : List Pending
    rows = c.current.pending_resumes

    was_open : true ≡ holds is_open (row session_key sid rows)
    was_open = update_row_reports sid is_open f c true sound.unique h

    at_row :
        (o : Option Pending)
        → ((x : Pending) → o ≡ some x → x.session_id ≡ sid)
        → ((x : Pending) → o ≡ some x → IsWellFormed x)
        → true ≡ holds is_open o
        → holds q (Option.map (guarded p f) o) ≡ true
    at_row none k w e = cc
    at_row (some x) k w e =
        let hit : p x ≡ true = ground (arith, eq_iff x.session_id sid, k x refl) in
        ground (arith, hit, eq_refl text, w x refl)

    well : (x : Pending) → row session_key sid rows ≡ some x → IsWellFormed x
    well x e = row-IsWellFormed sid c.current sound e

    fact : Fact q sid (record c.current { pending_resumes = update p f rows })
    fact = record {
      unique = update-IsUnique session_key p f rows (λ x _. refl) sound.unique;
      found =
          rw (row-update session_key sid p f rows (λ x _. refl))
            (at_row (row session_key sid rows) (λ x. key-row session_key sid rows) well was_open);
    }

not-open :
    (t : ℕ) (text : String) (o : Option Pending)
    → holds (awaits t text) o ≡ true
    → true ≢ holds is_open o
not-open t text none h e = cc
not-open t text (some x) h e = ground arith

-- The first answer wins. Once `answer_pending_resume` reported that it took an answer, then after
-- any calls, under any locks, that neither ask the session a new question nor mark this answer
-- executed, a second answer and an expiry of the question are not reported as done, and the first
-- answer is still handed to the sweeper.
pub first_answer_stands :
    (now : ℕ) (sid text : String) (source by : Option String) (ref : Option ℕ) (c : Conn Db)
    (ops : List Op) (now' : ℕ) (text' : String) (source' by' : Option String) (ref' : Option ℕ)
    (reason : String)
    → IsSound c.current
    → (answer_pending_resume now sid text source by ref c).0 ≡ ok true
    → All (Spares now text sid) ops
    → let c' = run ops (answer_pending_resume now sid text source by ref c).1 in
      ((answer_pending_resume now' sid text' source' by' ref' c').0 ≢ ok true)
      × ((expire_pending_resume now' sid reason c').0 ≢ ok true)
      × ((r : Pending) × Memᴰ r (list_pending_resumes_to_execute c'.saved)
          × (r.session_id ≡ sid)
          × (r.answer ≡ some text))
unfolding answer_pending_resume expire_pending_resume
first_answer_stands now sid text source by ref c ops now' text' source' by' ref' reason sound h
      spared =
    let b = answer-awaits now sid text source by ref c sound h in
    let c' = run ops (answer_pending_resume now sid text source by ref c).1 in
    let after = run-awaits now text sid ops spared _ b in
    let shut = not-open now text _ after.current.found in
    (
      λ e. shut (update_row_reports sid is_open _ c' true after.current.unique e),
      λ e. shut (update_row_reports sid is_open _ c' true after.current.unique e),
      (answer_kept now text sid ops _ b spared).0,
    )
