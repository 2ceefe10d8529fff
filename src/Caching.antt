-- ===== src/Caching.antt =====
-- The cache in front of a block store, src/blockstore/implementations/caching.
pub mod Queue
pub mod Cache
pub mod Store
pub mod Coherent
pub mod Pushing
pub mod Refinement
pub mod Storing
pub mod Removing
pub mod Creating
pub mod Flushing
pub mod QueueMap
pub mod Chain
pub mod Unchain
pub mod QueueRefinement
pub mod Links
