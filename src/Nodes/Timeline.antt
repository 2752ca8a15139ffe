-- ===== src/Nodes/Timeline.antt =====
-- app/nodes/agent_nodes.py, the timetable: the visits of each day, `build_timeline` and
-- `fit_time_budget`.
pub mod Visits
pub mod Build
pub mod Fit
pub mod Overlap
pub mod Trim
pub mod Outcome
pub mod Guards
pub mod Stays
pub mod Fitted
