-- ===== src/Nodes.antt =====
-- The nodes of the trees of blocks, src/blobstore/implementations/onblocks/datanodestore.
pub mod View
pub mod Leaf
pub mod Inner
pub mod Image
pub mod LeafRuns
pub mod LeafBytes
pub mod Children
pub mod ChildList
pub mod Created
pub mod Load
pub mod Convert
