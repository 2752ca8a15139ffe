-- ===== src/Eval.antt =====
-- eval: the statistics that are counted from the sessions.
pub mod Tables
pub mod SegmentStats
