-- ===== src/Quorum.antt =====
-- crates/rf-core/src/quorum.rs: the micro-quorum, a Raft for one replicated object. A method that
-- takes `&mut self` returns the new state and the actions; u64 sums that the code leaves unchecked
-- wrap, as in the release profile.
pub mod State
pub mod Leading
pub mod Handling
pub mod Frames
pub mod Votes
pub mod LogShape
pub mod Commit
pub mod Absorbing
pub mod Appending
pub mod Cluster
pub mod Quiet
pub mod Steady
pub mod Ballots
pub mod Campaign
pub mod Election
pub mod ElectionSteps
pub mod Moves
pub mod Safety
pub mod Overclaim
pub mod Heartbeat
pub mod Unheld
pub mod Rendezvous
mod LogTests
mod Tests
