-- ===== src/Command.antt =====
-- internal/data/postgres/command_usecase.go: the transaction that accepts a lifecycle command.
pub mod Database
pub mod Model
pub mod Accept
pub mod Rows
pub mod Stages
pub mod Prepare
pub mod Accepted
pub mod Outcome
pub mod Promise
pub mod Results
pub mod Repeats
pub mod Fence
