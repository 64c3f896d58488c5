-- ===== src/Examples.antt =====
-- Concrete inputs: a world whose ports answer, an operation, and the theorems at these.
mod Fixtures
mod Lifecycle
mod Queue
mod Worker
mod Recovery
mod Operations
mod Gpus
mod Reconciled
pub mod Keys
mod Commands
mod Scopes
mod Journals
mod Policies
mod Quantities
