-- ===== src/State/Lifecycle/Routable.antt =====
-- core/state.py: an open question stays routable. What every call but a new question, an answer or
-- an expiry of the same session leaves of an open row.
use mathlib.Core.List.{Memᴰ}
use ctrlrelay.Base.{
  is_none, ◌≡◌, ◌≢◌, refl, Bool, true, ◌&&◌, Option, none, some, List, [], ◌∷◌, arith, String,
  eq_iff, str_eq, All, select,
}
use ctrlrelay.Base.Keyed.{row, holds}
use ctrlrelay.Base.Members.{mem-find, mem-select, mem-sort_by}
use ctrlrelay.Sqlite.{Conn}
use ctrlrelay.State.Rows.{Db, Pending}
use ctrlrelay.State.Rules.{Both}
use ctrlrelay.State.Facts.{Fact, session_key}
use ctrlrelay.State.Pending.{is_open}
use ctrlrelay.State.Sweep.{list_unanswered_pending_resumes}
use ctrlrelay.State.Lifecycle.Stable.{Stable, run-Fact}
use ctrlrelay.State.Lifecycle.{
  Op, ask, park, answer, take, expire, resume, prune, note_issue, note_answer, unnote_answer, run,
}

-- The row is open, was never executed, and asks this question.
abbrev pub asks : String → Pending → Bool
asks question r = is_open r && is_none r.resumed_at && str_eq r.question question

-- A call that neither asks nor answers nor expires a question of the session.
abbrev pub LeavesOpen : String → Op → Type 0
LeavesOpen sid (ask _ k _ _ _ _ _) = k ≢ sid
LeavesOpen sid (park _ k _ _ _) = k ≢ sid
LeavesOpen sid (answer _ k _ _ _ _) = k ≢ sid
LeavesOpen sid (take _ k _) = k ≢ sid
LeavesOpen sid (expire _ k _) = k ≢ sid
LeavesOpen sid _ = Unit

LeavesOpen-Stable :
    (question sid : String) (op : Op) → LeavesOpen sid op → Stable (asks question) sid op
LeavesOpen-Stable question sid (ask now k pipeline repo _ held posted) h = h
LeavesOpen-Stable question sid (park now k pipeline repo _) h = h
LeavesOpen-Stable question sid (answer now k _ source by ref) h = λ x e w g. absurd (h e)
LeavesOpen-Stable question sid (take now k _) h = λ x e w g. absurd (h e)
LeavesOpen-Stable question sid (expire now k _) h = λ x e w g. absurd (h e)
LeavesOpen-Stable question sid (resume now k none given) h = λ x e w g. ground arith
LeavesOpen-Stable question sid (resume now k (some at) given) h = λ x e w g. ground arith
LeavesOpen-Stable question sid (prune ts) h = λ x w. ground arith
LeavesOpen-Stable question sid (note_issue k _ _ _) h = λ x w. w
LeavesOpen-Stable question sid (note_answer now k _) h = λ x w. w
LeavesOpen-Stable question sid (unnote_answer k _) h = λ x w. w

LeavesOpen-All :
    (question sid : String) (ops : List Op)
    → All (LeavesOpen sid) ops
    → All (Stable (asks question) sid) ops
LeavesOpen-All question sid [] h = tt
LeavesOpen-All question sid (op ∷ ops) (h, hs) =
    (LeavesOpen-Stable question sid op h, LeavesOpen-All question sid ops hs)

-- Such a row is among those that a reply is routed to.
mem-unanswered :
    (question sid : String) (d : Db)
    → Fact (asks question) sid d
    → (r : Pending) × Memᴰ r (list_unanswered_pending_resumes d)
      × (r.session_id ≡ sid)
      × (r.question ≡ question)
unfolding list_unanswered_pending_resumes row
mem-unanswered question sid d h = at_row (row session_key sid d.pending_resumes) refl h.found
  where
    at_row :
        (o : Option Pending)
        → row session_key sid d.pending_resumes ≡ o
        → holds (asks question) o ≡ true
        → (r : Pending) × Memᴰ r (list_unanswered_pending_resumes d)
          × (r.session_id ≡ sid)
          × (r.question ≡ question)
    at_row none e h = cc
    at_row (some r) e h =
        let (m, same) = mem-find (λ x. str_eq x.session_id sid) d.pending_resumes r e in
        let waits : is_open r ≡ true = ground arith in
        (
          r,
          mem-sort_by (λ x. x.created_at) (select is_open d.pending_resumes)
              (mem-select is_open d.pending_resumes m waits),
          (eq_iff r.session_id sid).0 same,
          ground (arith, eq_iff r.question question),
        )

-- A session's open question stays in the list that replies are routed by, in the file and in the
-- connection, after any calls that neither ask, answer nor expire a question of that session: a
-- mark that an earlier answer was executed does not hide the new question, and no prune drops it.
pub question_stays_routable :
    (question sid : String) (ops : List Op) (c : Conn Db)
    → Both (Fact (asks question) sid) c
    → All (LeavesOpen sid) ops
    → ((r : Pending) × Memᴰ r (list_unanswered_pending_resumes (run ops c).saved)
        × (r.session_id ≡ sid)
        × (r.question ≡ question))
      × ((r : Pending) × Memᴰ r (list_unanswered_pending_resumes (run ops c).current)
          × (r.session_id ≡ sid)
          × (r.question ≡ question))
question_stays_routable question sid ops c b left =
    let after = run-Fact (asks question) sid ops (LeavesOpen-All question sid ops left) c b in
    (
      mem-unanswered question sid (run ops c).saved after.saved,
      mem-unanswered question sid (run ops c).current after.current,
    )
