-- ===== src/State/Examples.antt =====
-- core/state.py: the theorems at concrete tables, and runs of the methods.
use mathlib.Core.List.{Memᴰ}
use ctrlrelay.Base.{
  ◌≡◌, ◌≢◌, ◌⊎◌, refl, Bool, true, false, none, some, List, [], ◌∷◌, arith, any, count, find,
  distinct, inl, inr, All,
}
use ctrlrelay.Base.Keyed.{row, holds}
use ctrlrelay.Sqlite.{Conn, ok, write, commit}
use ctrlrelay.State.Rows.{Db, Session, Lock, Pending}
use ctrlrelay.State.Rules.{Both}
use ctrlrelay.State.Facts.{Fact, session_key}
use ctrlrelay.State.Locks.{acquire_lock, get_lock_holder, insert_lock, is_held_by}
use ctrlrelay.State.Locks.Held.{acquire, release, orphan, run_locks}
use ctrlrelay.State.Locks.Exclusive.{lock_exclusive, refused_lock_leaves_transaction}
use ctrlrelay.State.Sessions.{fail_orphaned_session, has_status}
use ctrlrelay.State.Pending.{
  new_row, answered, is_open, answer_pending_resume, expire_pending_resume, park_blocked_question,
  take_parked_answer,
}
use ctrlrelay.State.Sweep.{list_pending_resumes_to_execute, list_unanswered_pending_resumes}
use ctrlrelay.State.Lifecycle.{Op, park, answer, expire, resume, prune, run}
use ctrlrelay.State.Lifecycle.Kept.{awaits, answer_kept}
use ctrlrelay.State.Lifecycle.Routable.{asks, question_stays_routable}
use ctrlrelay.State.WellFormed.{IsSound, run-InOnePhase, InOnePhase}
use ctrlrelay.State.Answers.{first_answer_stands}
use ctrlrelay.State.Atomic.{IsSettled, fail_orphaned_session-atomic}
use ctrlrelay.State.Parked.{executed_with, park_blocked_question-atomic, take_parked_answer-atomic}

-- A dev run that waits for an operator, and another that is under way.
abbrev blocked_run : Session
blocked_run = record {
  id = "dev-1";
  pipeline = "dev";
  repo = "org/app";
  issue_number = some 7;
  status = "blocked";
  started_at = 100;
  ended_at = none;
  summary = none;
  agent_session_id = none;
  interrupted = false;
  resumed_by = none;
  owner_pid = some 40;
  owner_run = some "run-1";
  worktree_path = some "/w/dev-1";
  claim_id = none;
}

abbrev running_run : Session
running_run = record blocked_run { id = "dev-2"; repo = "org/site"; status = "running" }

abbrev site_lock : Lock
site_lock = record { repo = "org/site"; session_id = "dev-2"; acquired_at = 110 }

abbrev asked : Pending
asked = new_row 120 "dev-1" "dev" "org/app" "Which branch?" none none

abbrev open_db : Db
open_db = record {
  sessions = blocked_run ∷ running_run ∷ [];
  repo_locks = site_lock ∷ [];
  pending_resumes = asked ∷ [];
  dispatch_health = none;
  issue_finishes = [];
  pr_watches = [];
}

abbrev answered_db : Db
answered_db = record open_db { pending_resumes = answered 130 "main" none none none asked ∷ [] }

abbrev conn_of : Db → List Bool → Conn Db
conn_of d busy = record { saved = d; current = d; in_transaction = false; busy = busy }

-- Another run's question, a prune, a late expiry, the mark of an older answer, a second answer.
abbrev later_calls : List Op
later_calls =
    park 140 "dev-2" "dev" "org/site" "Deploy?"
    ∷ expire 150 "dev-1" "too late"
    ∷ resume 160 "dev-1" (some 125) (some "develop")
    ∷ answer 170 "dev-1" "other" none none none
    ∷ prune 165
    ∷ []

lock_exclusive_example :
    let ops =
      acquire 4 "org/app" "dev-2" ∷ orphan 5 "dev-2" "died" ∷ release "org/app" "dev-2" ∷ [] in
    let c' = run_locks ops (acquire_lock 3 "org/app" "dev-1" (conn_of open_db [])).1 in
    (get_lock_holder "org/app" c'.saved ≡ some "dev-1")
    × (get_lock_holder "org/app" c'.current ≡ some "dev-1")
    × ((acquire_lock 6 "org/app" "dev-2" c').0 ≢ ok true)
unfolding acquire_lock write commit insert_lock any
lock_exclusive_example =
    lock_exclusive 3 "org/app" "dev-1" (conn_of open_db [])
      (acquire 4 "org/app" "dev-2" ∷ orphan 5 "dev-2" "died" ∷ release "org/app" "dev-2" ∷ []) 6
      "dev-2" (refl, tt) refl (tt, (distinct refl, (inr (distinct refl), tt)))

refused_lock_example :
    let refused = acquire_lock 3 "org/site" "dev-1" (conn_of open_db []) in
    let joined = fail_orphaned_session 4 "dev-2" "died" refused.1 in
    (refused.0 ≡ ok false)
    × (refused.1.in_transaction ≡ true)
    × (joined.0 ≡ ok true)
    × (joined.1.saved ≡ open_db)
    × (joined.1.in_transaction ≡ true)
unfolding any
refused_lock_example =
    refused_lock_leaves_transaction 3 "org/site" "dev-1" (conn_of open_db []) 4 "dev-2" "died" refl
      refl refl refl

fail_orphaned_session_example :
    let c = conn_of open_db (false ∷ false ∷ true ∷ []) in
    let r = fail_orphaned_session 4 "dev-2" "died" c in
    IsSettled r.1
    × (((r.0 ≡ ok true)
          × (any (has_status "dev-2" "running") r.1.saved.sessions ≡ false)
          × (any (is_held_by "dev-2") r.1.saved.repo_locks ≡ false))
        ⊎ ((r.0 ≢ ok true) × (r.1.saved ≡ open_db)))
fail_orphaned_session_example =
    fail_orphaned_session-atomic 4 "dev-2" "died" (conn_of open_db (false ∷ false ∷ true ∷ []))
      (record { closed = refl; same = refl })

park_blocked_question_example :
    let r = park_blocked_question 4 "dev-2" "dev" "org/site" "Deploy?" (conn_of open_db []) in
    IsSettled r.1
    × (((r.0 ≡ ok tt)
          × (any (has_status "dev-2" "running") r.1.saved.sessions ≡ false)
          × (holds (asks "Deploy?") (row session_key "dev-2" r.1.saved.pending_resumes) ≡ true))
        ⊎ ((r.0 ≢ ok tt) × (r.1.saved ≡ open_db)))
park_blocked_question_example =
    park_blocked_question-atomic 4 "dev-2" "dev" "org/site" "Deploy?" (conn_of open_db [])
      (record { closed = refl; same = refl })

take_parked_answer_example :
    let r = take_parked_answer 4 "dev-1" "main" (conn_of open_db []) in
    IsSettled r.1
    × (((r.0 ≡ ok true)
          × (holds is_open (row session_key "dev-1" open_db.pending_resumes) ≡ true)
          × (holds (executed_with "main") (row session_key "dev-1" r.1.saved.pending_resumes)
              ≡ true)
          × (any (has_status "dev-1" "blocked") r.1.saved.sessions ≡ false))
        ⊎ ((r.0 ≢ ok true) × (r.1.saved ≡ open_db)))
unfolding any
take_parked_answer_example =
    take_parked_answer-atomic 4 "dev-1" "main" (conn_of open_db [])
      (record { closed = refl; same = refl }) (refl, tt)

answered-Fact : Fact (awaits 130 "main") "dev-1" answered_db
unfolding any row find
answered-Fact = record { unique = (refl, tt); found = refl }

open-Fact : Fact (asks "Which branch?") "dev-1" open_db
unfolding any row find
open-Fact = record { unique = (refl, tt); found = refl }

open-IsSound : IsSound open_db
unfolding any
open-IsSound = record { unique = (refl, tt); rows = ((refl, λ e. refl, λ e. cc), tt) }

answer_kept_example :
    let c = conn_of answered_db (false ∷ true ∷ []) in
    ((r : Pending) × Memᴰ r (list_pending_resumes_to_execute (run later_calls c).saved)
      × (r.session_id ≡ "dev-1")
      × (r.answer ≡ some "main"))
    × ((r : Pending) × Memᴰ r (list_pending_resumes_to_execute (run later_calls c).current)
        × (r.session_id ≡ "dev-1")
        × (r.answer ≡ some "main"))
answer_kept_example =
    answer_kept 130 "main" "dev-1" later_calls (conn_of answered_db (false ∷ true ∷ []))
      (record { saved = answered-Fact; current = answered-Fact })
      (distinct refl, (tt, (inr (inl (ground arith)), (tt, (tt, tt)))))

first_answer_stands_example :
    let taken = answer_pending_resume 130 "dev-1" "main" none none none (conn_of open_db []) in
    let c' = run later_calls taken.1 in
    ((answer_pending_resume 180 "dev-1" "other" none none none c').0 ≢ ok true)
    × ((expire_pending_resume 180 "dev-1" "late" c').0 ≢ ok true)
    × ((r : Pending) × Memᴰ r (list_pending_resumes_to_execute c'.saved)
        × (r.session_id ≡ "dev-1")
        × (r.answer ≡ some "main"))
unfolding answer_pending_resume write commit count
first_answer_stands_example =
    first_answer_stands 130 "dev-1" "main" none none none (conn_of open_db []) later_calls 180
      "other" none none none "late" open-IsSound refl
      (distinct refl, (tt, (inr (inl (ground arith)), (tt, (tt, tt)))))

question_stays_routable_example :
    let ops = resume 140 "dev-1" (some 125) (some "develop") ∷ prune 500 ∷ [] in
    let c = conn_of open_db [] in
    ((r : Pending) × Memᴰ r (list_unanswered_pending_resumes (run ops c).saved)
      × (r.session_id ≡ "dev-1")
      × (r.question ≡ "Which branch?"))
    × ((r : Pending) × Memᴰ r (list_unanswered_pending_resumes (run ops c).current)
        × (r.session_id ≡ "dev-1")
        × (r.question ≡ "Which branch?"))
question_stays_routable_example =
    question_stays_routable "Which branch?" "dev-1"
      (resume 140 "dev-1" (some 125) (some "develop") ∷ prune 500 ∷ []) (conn_of open_db [])
      (record { saved = open-Fact; current = open-Fact }) (tt, (tt, tt))

run-InOnePhase_example :
    let c = conn_of open_db (false ∷ true ∷ []) in
    Both IsSound (run later_calls c)
    × All (InOnePhase (run later_calls c).current) (run later_calls c).current.pending_resumes
run-InOnePhase_example =
    run-InOnePhase later_calls (conn_of open_db (false ∷ true ∷ []))
      (record { saved = open-IsSound; current = open-IsSound })
