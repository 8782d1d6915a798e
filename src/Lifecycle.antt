-- ===== src/Lifecycle.antt =====
-- packages/lifecycle: the rules by which outputs, evidence and effects change state.
pub mod Policy
pub mod Machine
pub mod Effects
pub mod Examples
