-- ===== src/Transcription.antt =====
-- app/services/transcription.py: submission, collection and recovery.
pub mod Rows
pub mod Settled
pub mod Safety
pub mod Submit
pub mod Outcomes
pub mod Attempt
pub mod Claim
pub mod Collect
pub mod Persist
pub mod Acks
pub mod Stores
pub mod Sweep
pub mod Delivery
pub mod Raises
pub mod Invariants
pub mod Frame
pub mod Drains
pub mod Race
pub mod Plan
pub mod Refines
pub mod Progress
pub mod Replay
