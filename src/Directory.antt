-- ===== src/Directory.antt =====
-- The entries of a directory (src/cryfs/impl/filesystem/fsblobstore/utils/DirEntry.{h,cpp} and
-- DirEntryList.{h,cpp}). A system call that asks for the time is an argument `now`, the same for
-- one operation.
pub mod Entry
pub mod EntryList
pub mod Search
pub mod Names
pub mod Serialized
pub mod Sorted
pub mod Operations
pub mod Renaming
