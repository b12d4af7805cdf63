-- ===== src/Budget.antt =====
-- core/github_budget.py: the GitHub API budget that the account has left.
pub mod Gate
mod Examples
