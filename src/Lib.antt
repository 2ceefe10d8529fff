-- ===== src/Lib.antt =====
-- A verification library for libcryfs.
--
-- libcryfs keeps a file system in encrypted blocks. A stack of block stores (blockstore/interface,
-- `BlockStore2`) maps block ids to byte strings: at the bottom a store on a disk or in memory, over it
-- encryption, integrity checks, compression and caching. On the blocks stand blobs, trees of blocks
-- (blobstore), and on the blobs files and directories (cryfs, fspp). The library models these parts:
--
-- - Common: lists, results, byte strings, memory, association lists; an error is a constructor of
--   `Error`, `undefined` stands for an access outside of an object's memory. `encode` and `decode` are
--   the copies of unsigned numbers to and from memory (src/cpp-utils/data/SerializationHelper.h), on a
--   machine that stores the low byte first.
-- - Serialization: src/cpp-utils/data/Serializer.h and Deserializer.h, state passed explicitly. `_write`
--   and `_read` are `write_uint` and `read_uint` with the number of bytes. The signed variants, which
--   copy the same bytes, are left out. Serialization/Fields.antt drives the writers and the readers by
--   a list of fields.
-- - BlockStore: the interface `BlockStore2` as a record of operations, `IsLawful`, what a layer may
--   rely on, and the store in memory (src/blockstore/implementations/inmemory/InMemoryBlockStore2.cpp),
--   which has it.
-- - Encrypted: src/blockstore/implementations/encrypted/EncryptedBlockStore2.h. The cipher is a
--   parameter, a record of what the store calls; that it decrypts what it encrypts is a hypothesis.
-- - Integrity: src/blockstore/implementations/integrity. Integrity/KnownBlockVersions.antt is
--   KnownBlockVersions.{h,cpp}, its child StateFile the file between two runs, Rollback the attacks with
--   old blocks: a step relation with the operations of the class. Integrity/Store.antt is
--   IntegrityBlockStore2.{h,cpp} over any `BlockStore2`, which is a section parameter. Of its
--   children, Refinement is about a lawful store below and Attacks about changed blocks.
-- - Compressing: src/blockstore/implementations/compressing/compressors/RunLengthEncoding.cpp. The two
--   loops run on fuel, one more than the length of the input, since each round of `Compress` takes a
--   byte or more and each round of `Decompress` two or more.
-- - OpenFiles: src/fspp/impl/IdList.h and FuseOpenFileList.h. OpenFiles/Pending.antt is the step relation
--   of threads that open, load and close files.
-- - Directory: src/cryfs/impl/filesystem/fsblobstore/utils/DirEntry.{h,cpp} (Entry) and
--   DirEntryList.{h,cpp} (EntryList). The position where a search starts is computed in floating point
--   and is the parameter `start`. The callback `onOverwritten` is a function on a state of its own,
--   which may throw, and what it has changed stays where an exception follows. Serialized is the form in
--   memory; its loop that reads runs on fuel, one more than the length of the input, since each entry
--   takes a byte or more.
-- - Caching: src/blockstore/implementations/caching. Caching/QueueMap.antt is cache/QueueMap.h, a chain of
--   entries whose addresses are their keys; Queue is what the cache uses of it, an interface.
--   Cache is cache/Cache.h and cache/CacheEntry.h over any queue, and
--   Store is CachingBlockStore2.{h,cpp} over any `BlockStore2` and any queue. The loops that delete
--   entries run on fuel, the number of entries, since each round takes one away; a push makes room for
--   one entry, for which one round is enough.
-- - Nodes: src/blobstore/implementations/onblocks/datanodestore. View is DataNodeView.h on a block, which
--   is its id and its content; Leaf is DataLeafNode.cpp and Inner is DataInnerNode.cpp. The creation of a
--   node returns the content with which the block store is called, and takes the memory of the new
--   objects as `allocated`; the checks of a constructor are `open_leaf` and `open_inner`. Load is what
--   DataNodeStore.cpp and DataNode.cpp do with one block. Image, LeafRuns and Children say which bytes a
--   node is, and LeafBytes, ChildList, Created and Convert are about the operations.
-- - Blocks: src/blockstore/implementations/low2highlevel, open blocks over any `BlockStore2`, and
--   src/blockstore/interface/BlockStore.h. The random ids are the parameter `ids`, of which a creation
--   takes the first ones until one is free.
-- - Trees: the trees of nodes that blobs are, over any `BlockStore2`. NodeStore is DataNodeStore.cpp on
--   the store of blocks; Subtree and Traverse are impl/LeafTraverser.cpp below the root and Root is what
--   it does with the root; DataTree, Bytes and Resize are DataTree.cpp, and Resize is DataTreeStore.cpp
--   too. All of them stand in src/blobstore/implementations/onblocks. A node that is open is its block,
--   and a change of it is stored at once: the program stores it when the block is closed, and gives all
--   who load the node in the meantime the same open block. The logarithm in floating point of a check
--   is the parameter `ceil_log`. Levels are structural recursion. A tree gets a level more at most 32
--   times, since 2 ^ 32 leaves at two children a node need 32 levels; the loops that go down from a root
--   run on 2 ^ 8 levels, since a level stands in 8 bits. Stored, Content and Tree say which tree the
--   blocks of a store are and which bytes it has. VisitLeaves, VisitNodes and VisitTree are about a
--   traversal of leaves that are in the tree, for any invariant that the callbacks keep. Of the other
--   modules, those of Size are about the size cache, those of Read about reads, and those of Write,
--   Written, Renewed and Rewritten about writes: a write takes each leaf to its new bytes, and the inner
--   nodes are kept since their content is not that of a leaf.
-- - Tests: the definitions at concrete inputs, and each theorem at one.
--
-- The hash maps are association lists, of which an operation sees the entries only. Sizes and versions
-- wrap around at 2 ^ 64 where the source adds a `size_t` or a `uint64_t`, and at 2 ^ 32 where it keeps
-- an `unsigned int` or a `uint32_t`. Memory that the allocator
-- returns is the parameter `allocate`, with the hypothesis that a block has the size that is asked for;
-- its content is arbitrary. Loops over an association list or a number of entries are structural
-- recursion, so that no fuel is needed.
--
-- Not modelled: mutexes (each operation of a class is one step), logging, files and paths (a file is
-- its bytes), the loop over the store of `migrateFromBlockstoreWithoutVersionNumbers` with its progress
-- output, and the parts of the program that are not named above: blobs, which pass their calls on to
-- trees, the counting of references to open blobs and blocks (src/parallelaccessstore), the file system
-- on the blobs (src/cryfs, src/fspp), configuration files, and the bindings to FUSE and Java. Writes
-- that make a tree grow and changes of its size are modelled and run by a test; no theorem is about
-- them.
pub mod Common
pub mod Serialization
pub mod BlockStore
pub mod Integrity
pub mod Compressing
pub mod OpenFiles
pub mod Directory
pub mod Encrypted
pub mod Caching
pub mod Nodes
pub mod Blocks
pub mod Trees
pub mod Tests
