-- ===== src/Trees/ReadLeaf.antt =====
-- The callback of a read (`_traverseLeavesByByteIndices` and `_doReadBytes` of DataTree.cpp) at one
-- leaf.
use libcryfs.Common.{
  ℕ, suc, ◌+◌, ◌-◌, ◌*◌, ◌%◌, ◌^◌, ◌≤◌, ◌<◌, ◌≡◌, refl, true, false, arith, min, ltb, leb, lt→ltb,
  le→ltb, le→leb,
}
use libcryfs.Common.Equality.{◌==◌, nat_eq}
use libcryfs.Common.Result.{ok}
use libcryfs.Common.Bytes.{Data, BlockId}
use libcryfs.Common.Memory.{add64, sub64, write_memory}
use libcryfs.BlockStore.{BlockStore2}
use libcryfs.Nodes.View.{Block, max_bytes_per_leaf}
use libcryfs.Nodes.Leaf.{num_bytes, read}
use libcryfs.Trees.NodeStore.{Store}
use libcryfs.Trees.Math.{max_zero_subtraction}
use libcryfs.Trees.Subtree.{State, handle_node}
use libcryfs.Trees.Bytes.{
  Growing, ByteCallbacks, grow_border_leaf, on_existing_leaf, read_callbacks,
}

module _ (S : BlockStore2) (allocate : ℕ → Data) (block_size : ℕ) (ceil_log : ℕ → ℕ → ℕ) where
  pub read_callback-run :
      (offset count first data_begin data_count position : ℕ) (id : BlockId) (block : Block)
      (bytes target : Data) (s : State S (Growing Data)) (nodes : Store S)
      → handle_node S allocate block_size id s.nodes ≡ ok (block, nodes)
      → read data_begin data_count block ≡ ok bytes
      → write_memory s.own.user position bytes ≡ ok target
      → first + data_begin ≡ offset + position
      → position + data_count ≤ count
      → offset + count < 2 ^ 64
      → (read_callbacks S allocate block_size ceil_log offset count).on_existing_leaf first id
          data_begin data_count s
        ≡ ok (record { own = record s.own { user = target }; nodes = nodes })
  read_callback-run offset count first data_begin data_count position id block bytes target s nodes
        loaded reading writing place inside small =
      let here : add64 (sub64 first offset) data_begin ≡ position =
        omega (arith, place, inside, small) in
      let behind : leb offset (add64 first data_begin) ≡ true =
        le→leb _ _ (omega (arith, place, inside, small)) in
      let within : leb position count ≡ true = le→leb _ _ (omega (arith, inside)) in
      let ends : leb (add64 position data_count) count ≡ true =
        le→leb _ _ (omega (arith, inside, small)) in
      rw (here, behind, within, ends, loaded, reading, writing) refl

  pub grow_border_leaf-run :
      {X : Type 0} (id : BlockId) (data_end n : ℕ) (block : Block) (s : State S (Growing X))
      (nodes : Store S)
      → handle_node S allocate block_size id s.nodes ≡ ok (block, nodes)
      → num_bytes block ≡ ok n
      → data_end ≤ n
      → grow_border_leaf S allocate block_size ceil_log id data_end s
        ≡ ok (record s { nodes = nodes })
  unfolding grow_border_leaf
  grow_border_leaf-run id data_end n block s nodes loaded count inside =
      let enough : ltb n data_end ≡ false = le→ltb n data_end inside in
      ground (arith, loaded, count, enough)

  module _ {X : Type 0} (cb : ByteCallbacks S X)
      (begin_byte end_byte end_leaf leaf_index data_begin data_end : ℕ) (id : BlockId)
      (first_small : leaf_index * max_bytes_per_leaf block_size < end_byte)
      (end_small : end_byte < 2 ^ 64)
      (begin_is : data_begin ≡ begin_byte - leaf_index * max_bytes_per_leaf block_size)
      (end_is : data_end
        ≡ min
            (max_bytes_per_leaf block_size)
            (end_byte - leaf_index * max_bytes_per_leaf block_size))
      (order : data_begin ≤ data_end) (width : data_end < 2 ^ 32) where
    first_eq :
        (leaf_index * max_bytes_per_leaf block_size) % 2 ^ 64
        ≡ leaf_index * max_bytes_per_leaf block_size
    first_eq = omega (arith, first_small, end_small)

    begin_eq :
        max_zero_subtraction begin_byte (leaf_index * max_bytes_per_leaf block_size) % 2 ^ 32
        ≡ data_begin
    begin_eq =
        let difference : max_zero_subtraction begin_byte
              (leaf_index * max_bytes_per_leaf block_size)
            ≡ begin_byte - leaf_index * max_bytes_per_leaf block_size =
          ground arith in
        omega (arith, difference, begin_is, order, width)

    end_eq :
        min (max_bytes_per_leaf block_size) (end_byte - leaf_index * max_bytes_per_leaf block_size)
          % 2 ^ 32
        ≡ data_end
    end_eq = omega (arith, end_is, width)

    count_eq : (data_end + 2 ^ 32 - data_begin) % 2 ^ 32 ≡ data_end - data_begin
    count_eq = omega (arith, order, width)

    not_behind : ltb (leaf_index * max_bytes_per_leaf block_size) end_byte ≡ true
    not_behind = lt→ltb _ _ first_small

    pub on_existing_leaf-run :
        (s : State S (Growing X))
        → on_existing_leaf S allocate block_size ceil_log cb begin_byte end_byte end_leaf leaf_index
            false id s
          ≡ cb.on_existing_leaf
              (leaf_index * max_bytes_per_leaf block_size)
              id
              data_begin
              (data_end - data_begin)
              s
    unfolding on_existing_leaf
    on_existing_leaf-run s = rw (first_eq, not_behind, begin_eq, end_eq, count_eq) refl

    pub on_border_leaf-run :
        (s s1 : State S (Growing X))
        → grow_border_leaf S allocate block_size ceil_log id data_end s ≡ ok s1
        → suc leaf_index ≡ end_leaf
        → end_leaf < 2 ^ 32
        → on_existing_leaf S allocate block_size ceil_log cb begin_byte end_byte end_leaf leaf_index
            true id s
          ≡ cb.on_existing_leaf
              (leaf_index * max_bytes_per_leaf block_size)
              id
              data_begin
              (data_end - data_begin)
              s1
    unfolding on_existing_leaf
    on_border_leaf-run s s1 grown border small =
        let last : (leaf_index == ((end_leaf + (2 ^ 32 - 1)) % 2 ^ 32)) ≡ true =
          ground (arith, border, small) in
        rw (first_eq, not_behind, begin_eq, end_eq, count_eq, last, grown) refl
