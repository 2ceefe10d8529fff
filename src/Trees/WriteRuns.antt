-- ===== src/Trees/WriteRuns.antt =====
-- The steps of a write (`_traverseLeavesByByteIndices` and `writeBytes` of DataTree.cpp) at one leaf.
use libcryfs.Common.{
  ℕ, ◌+◌, ◌^◌, ◌≤◌, ◌<◌, ◌≡◌, refl, true, false, ◌&&◌, length, take, drop, arith, ltb, leb, le→leb,
}
use libcryfs.Common.Equality.{◌==◌, nat_eq}
use libcryfs.Common.Result.{ok}
use libcryfs.Common.Bytes.{Data, BlockId}
use libcryfs.Common.Memory.{add64, sub64, read_memory}
use libcryfs.BlockStore.{BlockStore2}
use libcryfs.Nodes.View.{Block, max_bytes_per_leaf}
use libcryfs.Nodes.Leaf.{write, resize, num_bytes}
use libcryfs.Nodes.LeafRuns.{resized}
use libcryfs.Trees.NodeStore.{Store, save, overwrite_leaf}
use libcryfs.Trees.Subtree.{State, handle_node}
use libcryfs.Trees.Bytes.{Growing, grown, grow_border_leaf, write_callbacks}

read_memory-inside :
    (source : Data) (offset size : ℕ)
    → offset + size ≤ length source
    → read_memory source offset size ≡ ok (take size (drop offset source))
unfolding read_memory
read_memory-inside source offset size fits = rw (le→leb _ _ fits) refl

module _ (S : BlockStore2) (allocate : ℕ → Data) (block_size : ℕ) (ceil_log : ℕ → ℕ → ℕ) where
  module _ (source : Data) (offset first data_begin data_count position : ℕ) (id : BlockId)
      (s : State S (Growing (Unit {0}))) (nodes' : Store S)
      (place : first + data_begin ≡ offset + position)
      (inside : position + data_count ≤ length source)
      (small : offset + length source < 2 ^ 64) where
    here : add64 (sub64 first offset) data_begin ≡ position
    here = omega (arith, place, inside, small)

    behind : leb offset (add64 first data_begin) ≡ true
    behind = le→leb _ _ (omega (arith, place, inside, small))

    within : leb position (length source) ≡ true
    within = le→leb _ _ (omega (arith, inside))

    ends : leb (add64 position data_count) (length source) ≡ true
    ends = le→leb _ _ (omega (arith, inside, small))

    pub write_part-run :
        (block written : Block) (nodes : Store S)
        → ((data_begin == 0) && (data_count == max_bytes_per_leaf block_size)) ≡ false
        → handle_node S allocate block_size id s.nodes ≡ ok (block, nodes)
        → write (take data_count (drop position source)) data_begin block ≡ ok written
        → save S allocate block_size written nodes ≡ ok nodes'
        → (write_callbacks S allocate block_size ceil_log source offset
              (length source)).on_existing_leaf
            first id data_begin data_count s
          ≡ ok (record s { nodes = nodes' })
    write_part-run block written nodes part loaded writing saved =
        rw
          (
            here,
            behind,
            within,
            ends,
            part,
            here,
            read_memory-inside source position data_count inside,
            loaded,
            writing,
            saved,
          )
          refl

    pub write_whole-run :
        (opened : Block)
        → ((data_begin == 0) && (data_count == max_bytes_per_leaf block_size)) ≡ true
        → sub64 first offset ≡ position
        → overwrite_leaf S allocate block_size id (take data_count (drop position source)) s.nodes
          ≡ ok (opened, nodes')
        → (write_callbacks S allocate block_size ceil_log source offset
              (length source)).on_existing_leaf
            first id data_begin data_count s
          ≡ ok (record s { nodes = nodes' })
    write_whole-run opened whole start overwritten =
        rw
          (
            here,
            behind,
            within,
            ends,
            whole,
            start,
            read_memory-inside source position data_count inside,
            overwritten,
          )
          refl

  pub grow_border_leaf-grows :
      (id : BlockId) (data_end n : ℕ) (block resized : Block) (s : State S (Growing (Unit {0})))
      (nodes nodes' : Store S)
      → handle_node S allocate block_size id s.nodes ≡ ok (block, nodes)
      → num_bytes block ≡ ok n
      → ltb n data_end ≡ true
      → resize data_end block ≡ ok resized
      → save S allocate block_size resized nodes ≡ ok nodes'
      → grow_border_leaf S allocate block_size ceil_log id data_end s
        ≡ ok (grown (record s { nodes = nodes' }))
  unfolding grow_border_leaf
  grow_border_leaf-grows id data_end n block resized s nodes nodes' loaded count more grow saved =
      ground (arith, loaded, count, more, grow, saved)
