-- ===== src/Runner.antt =====
-- internal/biz/inference/runner.go.
pub mod State
pub mod World
pub mod Ports
pub mod Quota
mod Inversion
pub mod Release
pub mod Provision
pub mod Expose
pub mod Teardown
pub mod Execute
pub mod Leads
pub mod Successor
pub mod Discipline
pub mod StepCalls
pub mod Loaded
pub mod Evidence
pub mod Retry
pub mod Moves
