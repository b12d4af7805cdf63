-- ===== src/Jobs.antt =====
-- core/job_claims.py: a scheduled job runs on one machine of those that share an account.
pub mod Claimer
pub mod Once
mod Examples
