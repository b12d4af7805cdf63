-- ===== src/Orphans/Reap.antt =====
-- core/orphans.py: `reap_orphaned_sessions`, which settles the running sessions whose process is gone.
-- The texts for people are left out, but for the summary that is saved.
use ctrlrelay.Base.{
  ℕ, Bool, true, false, not, ◌||◌, String, Option, none, some, List, [], ◌∷◌, ◌++◌, str_eq, ◌==◌,
  if◌then◌else◌,
}
use ctrlrelay.Sqlite.{Outcome, Conn, ok, raised}
use ctrlrelay.State.Rows.{Session, Db}
use ctrlrelay.State.Sessions.{fail_orphaned_session, list_running_sessions}
use ctrlrelay.Orphans.World.{
  World, left_alone, is_path, open_pr_for, may_hand_back, is_issue_pipeline,
}
use ctrlrelay.Poller.Book.{Book, unmark_seen}

-- The arguments of `reconcile_claim_on_failure`.
pub record Retraction : Type 0 where
  pub repo : String
  pub issue_number : ℕ
  pub session_id : String
  pub pr_number : Option ℕ
  pub claim_id : Option ℕ
  pub will_retry : Bool

pub record SettledRun : Type 0 where
  pub session_id : String
  pub repo : String
  pub issue_number : Option ℕ
  pub worktree_path : Option String
  pub branch_freed : Option String
  pub pr_number : Option ℕ
  pub handed_back : Bool

pub record Reaped : Type 0 where
  pub conn : Conn Db
  pub book : Book
  pub retracted : List Retraction
  pub settled : List SettledRun

abbrev branch_freed : World → Session → Option String
branch_freed w s = elim s.worktree_path [
  | none ↦ none
  | some path ↦ if is_path w.exists_after (some path) then w.detach s.repo path else none
]

abbrev pub report : Session → Option String → Option ℕ → Bool → SettledRun
report s branch pr handed_back = record {
  session_id = s.id;
  repo = s.repo;
  issue_number = s.issue_number;
  worktree_path = s.worktree_path;
  branch_freed = branch;
  pr_number = pr;
  handed_back = handed_back;
}

abbrev retraction : Session → ℕ → Option ℕ → Bool → Retraction
retraction s issue pr handed_back = record {
  repo = s.repo;
  issue_number = issue;
  session_id = s.id;
  pr_number = pr;
  claim_id = s.claim_id;
  will_retry = handed_back;
}

-- `pipeline == "dev" or claim_id`: an id of 0 counts as none.
abbrev has_claim : Session → Bool
has_claim s =
    str_eq s.pipeline "dev" || (elim s.claim_id [ none ↦ false | some id ↦ not (id == 0) ])

-- The issue of a settled run.
abbrev pub settle_issue : World → Session → Option String → ℕ → Reaped → Reaped
settle_issue w s branch issue r =
    let pr = open_pr_for w s.repo branch in
    let back = may_hand_back w s pr in
    record {
      conn = r.conn;
      book = if back then unmark_seen (s.repo, issue) r.book else r.book;
      retracted =
          if has_claim s then r.retracted ++ retraction s issue pr back ∷ [] else r.retracted;
      settled = r.settled ++ report s branch pr back ∷ [];
    }

abbrev pub settle_no_issue : Session → Option String → Reaped → Reaped
settle_no_issue s branch r = record {
  conn = r.conn;
  book = r.book;
  retracted = r.retracted;
  settled = r.settled ++ report s branch none false ∷ [];
}

abbrev pub settle_by : World → Session → Option String → Option ℕ → Reaped → Reaped
settle_by w s branch none r = settle_no_issue s branch r
settle_by w s branch (some issue) r =
    if is_issue_pipeline s.pipeline
    then settle_issue w s branch issue r
    else settle_no_issue s branch r

-- What follows the update of a row.
unfoldable pub settle_run : World → Session → Reaped → Reaped
unfolding may_hand_back unmark_seen
settle_run w s r = settle_by w s (branch_freed w s) s.issue_number r

abbrev pub with_conn : Conn Db → Reaped → Reaped
with_conn c r = record { conn = c; book = r.book; retracted = r.retracted; settled = r.settled }

abbrev pub after_update : World → Session → Outcome Bool × Conn Db → Reaped → Reaped
after_update w s (ok true, c) r = settle_run w s (with_conn c r)
after_update w s (ok false, c) r = with_conn c r
after_update w s (raised e, c) r = with_conn c r

-- One turn of the loop.
unfoldable pub reap_row : World → ℕ → Session → Reaped → Reaped
unfolding settle_run fail_orphaned_session
reap_row w now s r =
    if left_alone w s
    then r
    else after_update w s (fail_orphaned_session now s.id (w.summary s) r.conn) r

unfoldable pub reap_rows : World → ℕ → List Session → Reaped → Reaped
unfolding reap_row
reap_rows w now [] r = r
reap_rows w now (s ∷ ss) r = reap_rows w now ss (reap_row w now s r)

unfoldable pub reap_orphaned_sessions : World → ℕ → Reaped → Reaped
unfolding reap_rows list_running_sessions
reap_orphaned_sessions w now r = reap_rows w now (list_running_sessions r.conn.current) r

-- The start of the loop.
abbrev pub nothing_reaped : Conn Db → Book → Reaped
nothing_reaped c book = record { conn = c; book = book; retracted = []; settled = [] }
