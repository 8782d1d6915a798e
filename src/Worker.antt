-- ===== src/Worker.antt =====
-- apps/worker/src: the effect jobs, which execute, reconcile and compensate effects.
pub mod Errors
pub mod Connector
pub mod World
pub mod Store
pub mod Runtime
pub mod Ensures
pub mod Safety
pub mod Examples
pub mod Manual
pub mod Jobs
pub mod Backoff
