-- ===== src/Tests.antt =====
-- Tests of the definitions, and the theorems at concrete inputs.
mod Known
mod Store
mod Serial
mod OpenFiles
mod Compressing
mod Directory
mod Encrypted
mod Caching
mod Nodes
mod Trees
mod Writes
