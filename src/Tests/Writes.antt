-- ===== src/Tests/Writes.antt =====
-- Writes to the tree of two leaves over the store in memory.
use libcryfs.Common.{◌≡◌, refl, ◌++◌, [], ◌∷◌, replicate, arith, length-replicate}
use libcryfs.Common.Result.{ok}
use libcryfs.BlockStore.InMemory.Lawful.{in_memory_block_store, contents, in_memory-IsLawful}
use libcryfs.Trees.DataTree.{DataTree}
use libcryfs.Trees.NodeStore.{Store}
use libcryfs.Trees.Bytes.{read_bytes, write_bytes}
use libcryfs.Trees.StoredRenewed.{Distinct}
use libcryfs.Trees.Wrote.{Wrote}
use libcryfs.Trees.Writes.{write_bytes-Wrote, read_bytes-write_bytes}
use libcryfs.Tests.Trees.{
  memory, block_size, no_log, look, tree, two, two_leaves, tree-IsTree, two_leaves-Same,
}

two-Distinct : Distinct two
two-Distinct = (((λ same. absurd (cc (same))), tt), (tt, tt))

-- Two bytes of each leaf.
write_bytes-Wrote_example :
    (nodes' : Store in_memory_block_store) × (write_bytes in_memory_block_store memory block_size
        no_log tree
        (1 ∷ 2 ∷ 3 ∷ 4 ∷ [])
        30
        two_leaves
      ≡ ok (tree, nodes'))
    × Wrote block_size 1 look
        (contents nodes'.base)
        tree
        two
        (replicate 30 5 ++ 1 ∷ 2 ∷ 3 ∷ 4 ∷ 8 ∷ [])
write_bytes-Wrote_example =
    write_bytes-Wrote in_memory-IsLawful memory block_size (omega arith) (omega arith) look no_log 1
      two tree (1 ∷ 2 ∷ 3 ∷ 4 ∷ []) 30 two_leaves tree-IsTree two-Distinct two_leaves-Same
      (λ n. length-replicate n 7) (omega arith)

read_bytes-write_bytes_example :
    (nodes1 nodes2 : Store in_memory_block_store) × (t : DataTree) × (write_bytes
        in_memory_block_store memory block_size no_log tree
        (1 ∷ 2 ∷ 3 ∷ 4 ∷ [])
        30
        two_leaves
      ≡ ok (tree, nodes1))
    × (read_bytes in_memory_block_store memory block_size no_log tree (replicate 4 0) 30 4 nodes1
        ≡ ok (1 ∷ 2 ∷ 3 ∷ 4 ∷ [], t, nodes2))
read_bytes-write_bytes_example =
    read_bytes-write_bytes in_memory-IsLawful memory block_size (omega arith) (omega arith) look
      no_log 1 two tree (1 ∷ 2 ∷ 3 ∷ 4 ∷ []) (replicate 4 0) 30 two_leaves tree-IsTree two-Distinct
      two_leaves-Same (λ n. length-replicate n 7) (omega arith) refl
