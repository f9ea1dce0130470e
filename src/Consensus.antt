-- ===== src/Consensus.antt =====
-- consensus/consensus_state.go and consensus/round_state.go: the state machine of the consensus. The
-- child modules hold its state, the steps of a round, the end of a height, the messages, and what
-- holds of them.
mod Examples
pub mod State
pub mod Steps
pub mod Append
pub mod Messages
pub mod Locks
pub mod StepLocks
pub mod RoundLocks
pub mod AppendLocks
pub mod MessageLocks
pub mod Reach
pub mod Decided
