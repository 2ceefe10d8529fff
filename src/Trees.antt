-- ===== src/Trees.antt =====
-- The trees of nodes, src/blobstore/implementations/onblocks/datatreestore, and the node store below
-- them.
pub mod Math
pub mod NodeStore
pub mod Subtree
pub mod Traverse
pub mod Root
pub mod DataTree
pub mod Bytes
pub mod Resize
pub mod Stored
pub mod Loading
pub mod Loop
pub mod Ranges
pub mod Visit
pub mod VisitChild
pub mod VisitLeaves
pub mod VisitNodes
pub mod VisitRuns
pub mod VisitTree
pub mod Content
pub mod LeafStores
pub mod WriteRuns
pub mod WriteLeaf
pub mod WriteBorder
pub mod Renewed
pub mod StoredRenewed
pub mod Written
pub mod Rewritten
pub mod Writing
pub mod WriteVisits
pub mod ReadLeaf
pub mod Target
pub mod Reading
pub mod Read
pub mod SizeRuns
pub mod Size
pub mod Tree
pub mod ReadBytes
pub mod ReadRuns
pub mod Reads
pub mod Wrote
pub mod Writes
