-- ===== src/Lib.antt =====
-- ctrlrelay runs coding agents on the issues of several repositories. A poller takes an issue, runs
-- an agent, and when the agent needs an operator it saves the question, asks it in chat, and
-- resumes the run with the answer. Several daemons (the poller, the bridge, the dashboard) share
-- one SQLite file through src/ctrlrelay/core/state.py. A path of the form core/… below, and in the
-- other files, is under src/ctrlrelay.
--
-- Sqlite: one connection of Python's sqlite3 module, as documented: the first write opens a
--   transaction, which stays open, also after an error, until `commit` or `rollback`. The list
--   `busy` of a connection says which of the next writes and commits find the database locked;
--   a theorem for every connection is one for every pattern of locking. The saved contents are what
--   other connections see. The steps of several daemons are a sequence of calls on one file; what
--   interleaves inside one call of another process is excluded by the write lock.
-- State.Rows: the tables, with the columns that the modelled methods use (SCHEMA).
-- State.Locks, State.Sessions: acquire_lock, release_lock, get_lock_holder, fail_orphaned_session,
--   release_blocked_session_lock, the session transitions.
-- State.Pending, State.Sweep: the methods on pending_resumes; each function has the method's name,
--   and takes the clock's time as its first argument where the method reads it.
-- State.Health: dispatch_health, the failure run and the lease on one alert. The random token of a
--   claim is an argument.
-- State.Rules, State.Triples, State.Facts: how a fact about the tables goes through a method,
--   whichever of its statements fails.
-- State.Lifecycle, State.WellFormed, State.Answers: any sequence of the calls that write
--   pending_resumes (`Op`, `run`), and what it keeps.
-- State.Atomic, State.Parked: what a method leaves behind when the database is locked under it.
-- State.Examples, State.Health.Examples: the theorems at concrete tables.
-- Claims.Records, Claims.Reading: core/claims.py, the claims that several machines on one GitHub
--   account write as comments on an issue. A comment stands for what the searches for the markers
--   find in its text: the regular expressions are not modelled. `replaces` is the list between the
--   commas; a sorted set of ids is a list, which may name one twice.
-- Claims.Acquire: acquire_claim, over an issue whose calls may each be refused, and whose comments
--   other machines may change in any way during the wait of the race. A refused call changes
--   nothing. Claims.Keeper: ClaimKeeper, one turn of its loop a call.
-- Claims.Kept, Claims.Replaced, Claims.Standing: what a reading keeps of a claim. Claims.Exclusive,
--   Claims.Takeover, Claims.Foreign, Claims.Refresh, Claims.Fresh: the theorems. Claims.Won:
--   what the winner of a claim has left. Claims.Shown, Claims.Ours, Claims.Final: a claim whose
--   keeper writes while others comment.
--   Claims.Examples: the theorems at concrete issues.
-- Questions.History, Questions.Hold: core/question_expiry.py, the earlier asks of a question since
--   its last answer and how long it is held back. The numbers that a text cites and its normal form
--   (regular expressions) are an argument, any two functions. Questions.Silence,
--   Questions.Answered: the theorems, at concrete tables in Questions.Examples.
-- Slots.Semaphore, Slots.Agent: core/slots.py over the counts of an asyncio.Semaphore. A task that
--   a release wakes runs on only later, and any other call may come in between; a call of release is
--   made by a run that holds a slot. Slots.Limit: the theorems, with examples in Slots.Examples.
-- Alerts.Dispatch: core/dispatch_health.py, DispatchHealth over State.Health, without the text of an
--   alert. Alerts.Silent, Alerts.Backed: the theorems, at concrete tables in Alerts.Examples.
-- Budget.Gate: core/github_budget.py, a bucket's state, blocked_until and is_low. `low_at` is a
--   fraction. Example in Budget.Examples.
-- Pulls.Watcher, Pulls.Merged: core/pr_watcher.py, the wait for a merge. What GitHub answers to the
--   k-th call is an argument; the loop's fuel is the timeout and one more, since every round takes at
--   least a second. Examples in Pulls.Examples.
-- Pulls.Verifier, Pulls.Checked, Pulls.Ready: core/pr_verifier.py, the wait for the checks and the
--   verdict. The clock is an argument, and the fuel is one more than the call after which it has
--   reached the deadline. Pulls.Runs: stretches of answers. Examples in Pulls.ReadyExamples.
-- Stuck.Calls, Stuck.Loop, Stuck.Failures: core/stuck.py, the calls of a transcript, whose lines are
--   taken as json.loads gives them, the loops found in it and the kind of a CI round. The regular
--   expressions are arguments. Stuck.Tail, Stuck.Alike, Stuck.Circles: the theorems on the loops, at a
--   concrete transcript in Stuck.Examples.
-- Jobs.Claimer, Jobs.Once: core/job_claims.py, the claim of a scheduled job's window by a git ref. A
--   sha stands for the text of its blob; a call may fail before or after GitHub has done it. Examples
--   in Jobs.Examples.
-- Intake.Files, Intake.Hold: core/intake_hold.py, the hold on new work, its file and that of the
--   acknowledgement, after the parsing of their JSON. Intake.Quiet: the steps of the updaters and the
--   poller, and the theorems, with examples in Intake.Examples.
-- Poller.Events, Poller.Issue, Poller.Searches, Poller.Order, Poller.Poll: core/poller.py, one poll: who
--   handed an issue over, what is done with it, the issues that the searches returned, the order of the
--   batch. The answers of GitHub and str.lower are arguments. Poller.Book: what the poller remembers,
--   without the file that it is saved in. Poller.Dispatch: the check before a start, and
--   core/blockers.py. Poller.Trust, Poller.Kept, Poller.HandedOut: what is handed out. Poller.Labels,
--   Poller.Startable, Poller.Fresh, Poller.Candidates, Poller.Awaits, Poller.Next, Poller.Offered:
--   what may start, and what the next poll offers. Examples in Poller.Examples.
-- Orphans.Owner, Orphans.World, Orphans.Reap, Orphans.Locks: core/orphans.py, the test of a process
--   and what the poller's start does about the runs that died with theirs; what the machine, git and
--   GitHub answer is an argument. Orphans.Kept, Orphans.Rows, Orphans.Spared: what it leaves alone. Orphans.Free,
--   Orphans.Settles: what it settles. A restart in Orphans.Examples.
--
-- A time is in whole seconds, as `int(time.time())` gives it. Only the loops of Pulls have fuel; every
-- other modelled method ends. Logging is left out. The order of rows with the same sort key is left as it was,
-- where SQLite promises nothing. Not modelled: the schema migration, the event feed and the other
-- append-only tables; the pipelines and the dispatcher, the worktrees, the configuration, the budgets of
-- money and usage, the chat bridge and the web page; and everything that is network, process or file
-- input and output.
pub mod Base
pub mod Sqlite
pub mod State
pub mod Claims
pub mod Questions
pub mod Slots
pub mod Alerts
pub mod Budget
pub mod Pulls
pub mod Stuck
pub mod Jobs
pub mod Intake
pub mod Poller
pub mod Orphans
