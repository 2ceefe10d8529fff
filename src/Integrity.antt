-- ===== src/Integrity.antt =====
-- The integrity layer of the block store, src/blockstore/implementations/integrity.
pub mod KnownBlockVersions
pub mod Store
