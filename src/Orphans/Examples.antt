-- ===== src/Orphans/Examples.antt =====
-- core/orphans.py: a start of the poller after its machine was restarted.
use ctrlrelay.Orphans.Free.{failed_at}
use ctrlrelay.Base.{
  map, if◌then◌else◌, ◌≡◌, ◌⊎◌, refl, true, false, none, some, [], ◌∷◌, All, any, select, str_eq,
  ◌==◌, count, delete, find, update,
}
use ctrlrelay.Sqlite.{Conn, write, commit}
use ctrlrelay.State.Rows.{Session, Lock, Db}
use ctrlrelay.State.Locks.{is_held_by}
use ctrlrelay.State.Sessions.{has_status, is_session}
use ctrlrelay.Poller.Book.{Book, is_seen}
use ctrlrelay.Orphans.Owner.{Signal, Host, owner_is_alive}
use ctrlrelay.Orphans.World.{World}
use ctrlrelay.Orphans.Reap.{reap_orphaned_sessions, Reaped, nothing_reaped}
use ctrlrelay.Orphans.Locks.{clear_up}
use ctrlrelay.Orphans.Rows.{hands_back, IsJust}
use ctrlrelay.Orphans.Settles.{reap-settles}
use ctrlrelay.Orphans.Spared.{clear_up-spares}

-- Process 40 is gone; 41 is a run started by hand; 42 is an editor that got the pid of a dead run.
abbrev host : Host
host = record {
  own_pid = 50;
  signal = λ pid. if pid == 40 then Signal.no_process else Signal.reached;
  signal_again = λ _. Signal.reached;
  command_line =
      λ pid. if pid == 41 then some ("python" ∷ "-m" ∷ "ctrlrelay.cli" ∷ []) else some ("vi" ∷ []);
  basename = λ path. path;
}

gone : owner_is_alive host 40 ≡ false
unfolding owner_is_alive
gone = refl

by_hand : owner_is_alive host 41 ≡ true
unfolding owner_is_alive
by_hand = refl

reused : owner_is_alive host 42 ≡ false
unfolding owner_is_alive
reused = refl

abbrev dead : Session
dead = record {
  id = "dev-1";
  pipeline = "dev";
  repo = "org/app";
  issue_number = some 7;
  status = "running";
  started_at = 100;
  ended_at = none;
  summary = none;
  agent_session_id = none;
  interrupted = false;
  resumed_by = none;
  owner_pid = some 40;
  owner_run = some "run-1";
  worktree_path = some "/w/dev-1";
  claim_id = some 900;
}

abbrev under_way : Session
under_way = record dead {
  id = "dev-2";
  repo = "org/site";
  issue_number = some 8;
  owner_pid = some 41;
}

abbrev site_lock : Lock
site_lock = record { repo = "org/site"; session_id = "dev-2"; acquired_at = 110 }

abbrev app_lock : Lock
app_lock = record { repo = "org/app"; session_id = "dev-1"; acquired_at = 105 }

abbrev restarted : Conn Db
restarted =
    let db : Db = record {
      sessions = dead ∷ under_way ∷ [];
      repo_locks = app_lock ∷ site_lock ∷ [];
      pending_resumes = [];
      dispatch_health = none;
      issue_finishes = [];
      pr_watches = [];
    } in
    record { saved = db; current = db; in_transaction = false; busy = [] }

abbrev world : World
world = record {
  process_run = "run-2";
  is_alive = owner_is_alive host;
  exists = λ path. str_eq path "/w/dev-1";
  exists_after = λ path. str_eq path "/w/dev-1";
  in_use = λ _. some false;
  detach = λ _ _. some "fix/7";
  list_prs = λ _ _. some [];
  run_steps_for = λ _. some [];
  lower = λ text. text;
  partition = λ repo. (repo, "");
  summary = λ _. "Run stopped";
}

abbrev book : Book
book = record {
  seen_issues = ("org/app", 7) ∷ ("org/site", 8) ∷ [];
  recheck_after = [];
  blocked = [];
  pre_dispatch_failures = [];
  publish_failures = [];
}

-- The dead run is failed, its lock is dropped and its issue is offered again.
dead_settled :
    (map (λ s. s.status) (clear_up world 200 (nothing_reaped restarted book)).1.conn.saved.sessions
      ≡ "failed" ∷ "running" ∷ [])
    × ((clear_up world 200 (nothing_reaped restarted book)).1.conn.saved.repo_locks
        ≡ site_lock ∷ [])
    × ((clear_up world 200 (nothing_reaped restarted book)).1.book.seen_issues
        ≡ ("org/site", 8) ∷ [])
unfolding clear_up select owner_is_alive write count commit delete find update
dead_settled = (refl, refl, refl)

abbrev after : Reaped
after = (clear_up world 200 (nothing_reaped restarted book)).1

clear_up-spares_example :
    (select (is_session "dev-2") after.conn.saved.sessions ≡ under_way ∷ [])
    × (select (is_held_by "dev-2") after.conn.saved.repo_locks ≡ site_lock ∷ [])
    × (any (λ e. str_eq e.session_id "dev-2") after.settled ≡ false)
    × All (IsJust world) after.settled
    × ((is_seen ("org/site", 8) after.book ≡ true)
        ⊎ (any (hands_back ("org/site", 8)) after.settled ≡ true))
unfolding select is_seen any owner_is_alive
clear_up-spares_example =
    clear_up-spares world 200 "dev-2" ("org/site", 8) restarted book
      record { closed = refl; same = refl } refl refl

reap-settles_example :
    let r = reap_orphaned_sessions world 200 (nothing_reaped restarted book) in
    (any (has_status "dev-1" "running") r.conn.saved.sessions ≡ false)
    × (any (failed_at 200 "dev-1") r.conn.saved.sessions ≡ true)
    × (any (is_held_by "dev-1") r.conn.saved.repo_locks ≡ false)
    × (any (λ e. str_eq e.session_id "dev-1") r.settled ≡ true)
unfolding any owner_is_alive
reap-settles_example =
    reap-settles world 200 "dev-1" restarted book record { closed = refl; same = refl } refl refl
