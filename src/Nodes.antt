-- ===== src/Nodes.antt =====
-- app/nodes/agent_nodes.py: the state that the nodes of the recommendation pass on, and the nodes.
pub mod State
pub mod Input
pub mod Route
pub mod Timeline
pub mod Strategy
pub mod Reason
pub mod Payload
pub mod Candidates
pub mod Search
pub mod Affinity
pub mod Rank
pub mod Reviews
pub mod Given
pub mod Select
