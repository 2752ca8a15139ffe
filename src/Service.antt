-- ===== src/Service.antt =====
-- app/main.py: how a job is let in, run and reported, and how summaries are answered.
pub mod Job
pub mod Admission
pub mod Summaries
