-- ===== src/Pulls.antt =====
-- core/pr_watcher.py and core/pr_verifier.py: the wait for a pull request's merge, and the verdict on
-- its checks before it is handed to people.
pub mod Runs
pub mod Watcher
pub mod Merged
pub mod Verifier
pub mod Checked
pub mod Ready
mod Examples
mod ReadyExamples
