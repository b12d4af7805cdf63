-- ===== src/State/Lifecycle/Kept.antt =====
-- core/state.py: an operator's answer is not lost. What every call but a new question of the same
-- session, and the mark that its answer was executed, leaves of an answered row.
use mathlib.Core.List.{Memᴰ}
use ctrlrelay.Base.{
  ◌⊎◌, ℕ, ◌≡◌, ◌≢◌, refl, Bool, true, ◌&&◌, Option, none, some, List, [], ◌∷◌, arith, String,
  eq_iff, str_eq, num_is, is_none, All, select, or_else,
}
use ctrlrelay.Base.Keyed.{row, holds}
use ctrlrelay.Base.Members.{mem-find, mem-select, mem-sort_by}
use ctrlrelay.Sqlite.{Conn}
use ctrlrelay.State.Rows.{Db, Pending}
use ctrlrelay.State.Rules.{Both}
use ctrlrelay.State.Facts.{Fact, session_key}
use ctrlrelay.State.Sweep.{is_same, is_to_execute, list_pending_resumes_to_execute}
use ctrlrelay.State.Lifecycle.Stable.{Stable, run-Fact}
use ctrlrelay.State.Lifecycle.{
  Op, ask, park, answer, take, expire, resume, prune, note_issue, note_answer, unnote_answer, run,
}

-- The row carries this answer, given at this time, and waits to be executed.
abbrev pub awaits : ℕ → String → Pending → Bool
awaits t text r =
    num_is r.answered_at t
    && is_same r.answer (some text)
    && is_none r.resumed_at
    && is_none r.expired_at

-- A call that neither asks a new question of the session nor marks this very answer executed.
abbrev pub Spares : ℕ → String → String → Op → Type 0
Spares t text sid (ask _ k _ _ _ _ _) = k ≢ sid
Spares t text sid (park _ k _ _ _) = k ≢ sid
Spares t text sid (resume _ k none given) = k ≢ sid
Spares t text sid (resume _ k (some at) given) = (k ≢ sid) ⊎ (at ≢ t) ⊎ (given ≢ some text)
Spares t text sid _ = Unit

Spares-Stable :
    (t : ℕ) (text sid : String) (op : Op) → Spares t text sid op → Stable (awaits t text) sid op
Spares-Stable t text sid (ask now k pipeline repo question held posted) h = h
Spares-Stable t text sid (park now k pipeline repo question) h = h
Spares-Stable t text sid (answer now k _ source by ref) h = λ x _ w g. ground arith
Spares-Stable t text sid (take now k _) h = λ x _ w g. ground arith
Spares-Stable t text sid (expire now k _) h = λ x _ w g. ground arith
Spares-Stable t text sid (resume now k none given) h = λ x e w g. absurd (h e)
Spares-Stable t text sid (resume now k (some at) none) h = λ x e w g. ground arith
Spares-Stable t text sid (resume now k (some at) (some other)) h =
    λ x e w g. ground (arith, eq_iff (or_else x.answer "") text, eq_iff (or_else x.answer "") other)
Spares-Stable t text sid (prune ts) h = λ x w. ground arith
Spares-Stable t text sid (note_issue k _ _ _) h = λ x w. w
Spares-Stable t text sid (note_answer now k _) h = λ x w. w
Spares-Stable t text sid (unnote_answer k _) h = λ x w. w

Spares-All :
    (t : ℕ) (text sid : String) (ops : List Op)
    → All (Spares t text sid) ops
    → All (Stable (awaits t text) sid) ops
Spares-All t text sid [] h = tt
Spares-All t text sid (op ∷ ops) (h, hs) =
    (Spares-Stable t text sid op h, Spares-All t text sid ops hs)

pub run-awaits :
    (t : ℕ) (text sid : String) (ops : List Op)
    → All (Spares t text sid) ops
    → (c : Conn Db) → Both (Fact (awaits t text) sid) c
    → Both (Fact (awaits t text) sid) (run ops c)
run-awaits t text sid ops spared =
    run-Fact (awaits t text) sid ops (Spares-All t text sid ops spared)

-- The rows handed to the sweeper are the rows of the table that wait to be executed.
mem-to_execute :
    (t : ℕ) (text sid : String) (d : Db)
    → Fact (awaits t text) sid d
    → (r : Pending) × Memᴰ r (list_pending_resumes_to_execute d)
      × (r.session_id ≡ sid)
      × (r.answer ≡ some text)
unfolding list_pending_resumes_to_execute row
mem-to_execute t text sid d h = at_row (row session_key sid d.pending_resumes) refl h.found
  where
    at_row :
        (o : Option Pending)
        → row session_key sid d.pending_resumes ≡ o
        → holds (awaits t text) o ≡ true
        → (r : Pending) × Memᴰ r (list_pending_resumes_to_execute d)
          × (r.session_id ≡ sid)
          × (r.answer ≡ some text)
    at_row none e h = cc
    at_row (some r) e h =
        let (m, same) = mem-find (λ x. str_eq x.session_id sid) d.pending_resumes r e in
        let waits : is_to_execute r ≡ true = ground arith in
        let given : r.answer ≡ some text = ground (arith, eq_iff (or_else r.answer "") text) in
        (
          r,
          mem-sort_by (λ x. or_else x.answered_at 0) (select is_to_execute d.pending_resumes)
              (mem-select is_to_execute d.pending_resumes m waits),
          (eq_iff r.session_id sid).0 same,
          given,
        )

-- Once a session's question has an answer that was not yet executed, then after any calls of the
-- bridge, the sweeper, the expiry and the prune, in any order and whatever statements the locked
-- database refuses, the answer is still in the list that the sweeper executes, in the file and in
-- the connection: unless one of the calls asks the session a new question or marks this very
-- answer (or, naming none, whichever stands) executed.
pub answer_kept :
    (t : ℕ) (text sid : String) (ops : List Op) (c : Conn Db)
    → Both (Fact (awaits t text) sid) c
    → All (Spares t text sid) ops
    → ((r : Pending) × Memᴰ r (list_pending_resumes_to_execute (run ops c).saved)
        × (r.session_id ≡ sid)
        × (r.answer ≡ some text))
      × ((r : Pending) × Memᴰ r (list_pending_resumes_to_execute (run ops c).current)
          × (r.session_id ≡ sid)
          × (r.answer ≡ some text))
answer_kept t text sid ops c b spared =
    let after = run-awaits t text sid ops spared c b in
    (
      mem-to_execute t text sid (run ops c).saved after.saved,
      mem-to_execute t text sid (run ops c).current after.current,
    )
