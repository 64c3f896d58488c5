-- ===== src/Work.antt =====
-- Durable work: internal/biz/work and the statements of internal/data/postgres behind it.
pub mod Table
pub mod Claim
pub mod Settle
pub mod History
pub mod Rows
pub mod Invariants
pub mod Scheduled
pub mod Liveness
pub mod Fence
pub mod Keys
pub mod Held
pub mod Exclusive
pub mod Notified
pub mod Worker
pub mod Store
pub mod Recover
pub mod Listed
pub mod Recovered
pub mod Appended
pub mod Repaired
pub mod Restored
pub mod Loop
pub mod Ended
pub mod Completion
pub mod Pass
