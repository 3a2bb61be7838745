-- ===== src/Controllers/Quiet.antt =====
-- Which requests the actions below Reconcile make: all of them but a write of the status.
mod Create
mod Containers
mod Actions
mod Routines
pub use Create.*
pub use Containers.*
pub use Actions.*
pub use Routines.*
