-- ===== src/Controllers.antt =====
-- The controller of Benchmarks: controllers/*.go.
pub mod Completion
pub mod Create
pub mod Containers
pub mod Prepare
pub mod Actions
pub mod Routines
mod Quiet
pub mod Reconcile
