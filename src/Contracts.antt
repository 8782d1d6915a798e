-- ===== src/Contracts.antt =====
-- packages/contracts: the records that the components exchange, their schemas, their errors and
-- content digests.
pub mod Errors
pub mod Primitives
pub mod Trimmed
pub mod Digest
pub mod Output
pub mod Evidence
pub mod Effect
pub mod Lineage
pub mod Remediation
