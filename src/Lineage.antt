-- ===== src/Lineage.antt =====
-- packages/lineage/src: which versions a change reaches, and what is invalidated by it.
pub mod Selectors
pub mod Impact
pub mod Invalidation
mod Examples
