-- ===== src/Questions.antt =====
-- core/question_expiry.py: questions that come back, and when one is asked again.
pub mod History
pub mod Hold
pub mod Silence
pub mod Answered
mod Examples
