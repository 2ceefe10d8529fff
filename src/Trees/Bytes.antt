-- ===== src/Trees/Bytes.antt =====
-- The operations of `DataTree` on bytes
-- (src/blobstore/implementations/onblocks/datatreestore/DataTree.cpp).
use libcryfs.Common.{
  ℕ, ◌+◌, ◌-◌, ◌*◌, ◌/◌, ◌%◌, ◌^◌, Bool, true, false, not, ◌&&◌, ◌||◌, some, ◌++◌, length, min, ltb,
  leb, replicate, if◌then◌else◌,
}
use libcryfs.Common.Equality.{◌==◌, nat_eq}
use libcryfs.Common.Result.{Result, ok, err, guard, assert_failed, runtime_error, ◌>>=◌, ◌>>◌}
use libcryfs.Common.Bytes.{Data, BlockId}
use libcryfs.Common.Memory.{add64, sub64, read_memory, write_memory}
use libcryfs.BlockStore.{BlockStore2}
use libcryfs.Nodes.View.{max_bytes_per_leaf}
use libcryfs.Nodes.Leaf
use libcryfs.Nodes.Leaf.{num_bytes, resize}
use libcryfs.Trees.Math.{max_zero_subtraction}
use libcryfs.Trees.NodeStore
use libcryfs.Trees.NodeStore.{Store}
use libcryfs.Trees.Subtree.{State, handle_node}
use libcryfs.Trees.DataTree
use libcryfs.Trees.DataTree.{DataTree, SizeCache, ceil_division64}

-- The state of the callbacks, and `blobIsGrowingFromThisTraversal`.
pub record Growing (X : Type 0) : Type 0 where
  pub user : X
  pub growing : Bool

pub record ByteCallbacks (S : BlockStore2) (X : Type 0) : Type 0 where
  pub on_existing_leaf : ℕ → BlockId → ℕ → ℕ → State S (Growing X) → Result (State S (Growing X))
  pub on_create_leaf : ℕ → ℕ → State S (Growing X) → Result (Data × State S (Growing X))

abbrev pub grown : {S : BlockStore2} {X : Type 0} → State S (Growing X) → State S (Growing X)
grown s = record s { own = record s.own { growing = true } }

-- The smaller signed number, where both stand in 64 bits.
abbrev pub signed_less : ℕ → ℕ → Bool
signed_less a b = ltb ((a + 2 ^ 63) % 2 ^ 64) ((b + 2 ^ 63) % 2 ^ 64)

-- `realCount` of `_tryReadBytes`
unfoldable pub real_count : ℕ → ℕ → ℕ → ℕ
real_count count size offset =
    let left = sub64 size offset in
    let least = if signed_less left count then left else count in
    if signed_less 0 least then least else 0

module _ (S : BlockStore2) (allocate : ℕ → Data) (block_size : ℕ) (ceil_log : ℕ → ℕ → ℕ) where
  -- Resize of a leaf at the right border that is too small.
  unfoldable pub grow_border_leaf :
      {X : Type 0} → BlockId → ℕ → State S (Growing X) → Result (State S (Growing X))
  grow_border_leaf block_id data_end s = do
    (block, nodes) ← handle_node S allocate block_size block_id s.nodes
    n ← num_bytes block
    elim (ltb n data_end) [
      | false ↦ ok (record s { nodes = nodes })
      | true ↦ do
        resized ← resize data_end block
        nodes' ← NodeStore.save S allocate block_size resized nodes
        ok (grown (record s { nodes = nodes' }))
    ]

  unfoldable pub on_existing_leaf :
      {X : Type 0}
      → ByteCallbacks S X
      → ℕ
      → ℕ
      → ℕ
      → ℕ
      → Bool
      → BlockId
      → State S (Growing X)
      → Result (State S (Growing X))
  on_existing_leaf cb begin_byte end_byte end_leaf leaf_index right block_id s = do
    let most = max_bytes_per_leaf block_size
    let first = (leaf_index * most) % 2 ^ 64
    guard (ltb first end_byte) assert_failed
    let data_begin = max_zero_subtraction begin_byte first % 2 ^ 32
    let data_end = min most (end_byte - first) % 2 ^ 32
    s1 ← (elim right [
      | false ↦ ok s
      | true ↦ do
        guard (leaf_index == ((end_leaf + (2 ^ 32 - 1)) % 2 ^ 32)) assert_failed
        grow_border_leaf block_id data_end s
    ])
    cb.on_existing_leaf first block_id data_begin ((data_end + 2 ^ 32 - data_begin) % 2 ^ 32) s1

  unfoldable pub on_create_leaf :
      {X : Type 0}
      → ByteCallbacks S X
      → Bool
      → ℕ
      → ℕ
      → ℕ
      → ℕ
      → ℕ
      → State S (Growing X)
      → Result (Data × State S (Growing X))
  on_create_leaf cb read_only begin_byte first_leaf end_byte end_leaf leaf_index s = do
    guard (not read_only) assert_failed
    let most = max_bytes_per_leaf block_size
    let first = (leaf_index * most) % 2 ^ 64
    guard (ltb first end_byte) assert_failed
    let data_begin = max_zero_subtraction begin_byte first % 2 ^ 32
    let data_end = min most (end_byte - first) % 2 ^ 32
    guard ((leaf_index == first_leaf) || (data_begin == 0)) assert_failed
    guard ((leaf_index == ((end_leaf + (2 ^ 32 - 1)) % 2 ^ 32)) || (data_end == most)) assert_failed
    let count = (data_end + 2 ^ 32 - data_begin) % 2 ^ 32
    (content, s1) ← cb.on_create_leaf (add64 first data_begin) count (grown s)
    guard (length content == count) assert_failed
    ok (if data_begin == 0 then content else replicate data_begin 0 ++ content, s1)

  -- `_traverseLeavesByByteIndices`
  unfoldable pub traverse_leaves_by_byte_indices :
      {X : Type 0}
      → DataTree
      → ℕ
      → ℕ
      → Bool
      → ByteCallbacks S X
      → X
      → Store S
      → Result (X × DataTree × Store S)
  traverse_leaves_by_byte_indices t begin_byte size_bytes read_only cb own nodes =
      elim (size_bytes == 0) [
        | true ↦ ok (own, t, nodes)
        | false ↦ do
          let end_byte = add64 begin_byte size_bytes
          let first_leaf = (begin_byte / max_bytes_per_leaf block_size) % 2 ^ 32
          let end_leaf = ceil_division64 end_byte (max_bytes_per_leaf block_size) % 2 ^ 32
          s' ←
              DataTree.traverse_leaves_by_leaf_indices S allocate block_size ceil_log t first_leaf
                end_leaf read_only
                (record {
                  on_existing_leaf = on_existing_leaf cb begin_byte end_byte end_leaf;
                  on_create_leaf =
                      on_create_leaf cb read_only begin_byte first_leaf end_byte end_leaf;
                  on_backtrack_from_subtree = λ block s. ok s;
                })
                (record { own = record { user = own; growing = false }; nodes = nodes })
          guard (not read_only || not s'.own.growing) assert_failed
          ok (
            s'.own.user,
            if s'.own.growing
                then record t {
                  size_cache = some (record { num_leaves = end_leaf; num_bytes = end_byte });
                }
                else t,
            s'.nodes,
          )
      ]

  -- `_doReadBytes`: the target is memory of `count` bytes.
  abbrev pub read_callbacks : ℕ → ℕ → ByteCallbacks S Data
  read_callbacks offset count = record {
    on_existing_leaf = λ first block_id leaf_offset leaf_count s. do
      let position = add64 (sub64 first offset) leaf_offset
      guard
          (leb offset (add64 first leaf_offset)
            && leb position count
            && leb (add64 position leaf_count) count)
          assert_failed
      (block, nodes) ← handle_node S allocate block_size block_id s.nodes
      bytes ← Leaf.read leaf_offset leaf_count block
      target ← write_memory s.own.user position bytes
      ok (record { own = record s.own { user = target }; nodes = nodes });
    on_create_leaf = λ begin_byte n s. err assert_failed;
  }

  unfoldable pub do_read_bytes :
      DataTree → Data → ℕ → ℕ → Store S → Result (Data × DataTree × Store S)
  do_read_bytes t target offset count nodes =
      traverse_leaves_by_byte_indices t offset count true (read_callbacks offset count) target nodes

  -- `_tryReadBytes`: the bytes that were read, and their number.
  unfoldable pub try_read_bytes :
      DataTree → Data → ℕ → ℕ → Store S → Result (ℕ × Data × DataTree × Store S)
  try_read_bytes t target offset count nodes = do
    (size, t1, nodes1) ← DataTree.tree_num_bytes S allocate block_size ceil_log t nodes
    let n = real_count count size offset
    (target', t2, nodes2) ← do_read_bytes t1 target offset n nodes1
    ok (n, target', t2, nodes2)

  unfoldable pub read_bytes : DataTree → Data → ℕ → ℕ → Store S → Result (Data × DataTree × Store S)
  read_bytes t target offset count nodes = do
    (size, t1, nodes1) ← DataTree.tree_num_bytes S allocate block_size ceil_log t nodes
    guard (leb offset size && leb (add64 offset count) size) runtime_error
    (n, target', t2, nodes2) ← try_read_bytes t1 target offset count nodes1
    guard (n == count) runtime_error
    ok (target', t2, nodes2)

  unfoldable pub read_all_bytes : DataTree → Store S → Result (Data × DataTree × Store S)
  read_all_bytes t nodes = do
    (size, t1, nodes1) ← DataTree.tree_num_bytes S allocate block_size ceil_log t nodes
    do_read_bytes t1 (allocate size) 0 size nodes1

  -- `writeBytes`
  abbrev pub write_callbacks : Data → ℕ → ℕ → ByteCallbacks S (Unit {0})
  write_callbacks source offset count = record {
    on_existing_leaf = λ first block_id leaf_offset leaf_count s. do
      let position = add64 (sub64 first offset) leaf_offset
      guard
          (leb offset (add64 first leaf_offset)
            && leb position count
            && leb (add64 position leaf_count) count)
          assert_failed
      elim ((leaf_offset == 0) && (leaf_count == max_bytes_per_leaf block_size)) [
        | true ↦ do
          bytes ← read_memory source (sub64 first offset) leaf_count
          (block, nodes) ← NodeStore.overwrite_leaf S allocate block_size block_id bytes s.nodes
          ok (record s { nodes = nodes })
        | false ↦ do
          bytes ← read_memory source position leaf_count
          (block, nodes) ← handle_node S allocate block_size block_id s.nodes
          written ← Leaf.write bytes leaf_offset block
          nodes' ← NodeStore.save S allocate block_size written nodes
          ok (record s { nodes = nodes' })
      ];
    on_create_leaf = λ begin_byte n s. do
      guard
          (leb offset begin_byte
            && leb (sub64 begin_byte offset) count
            && leb (add64 (sub64 begin_byte offset) n) count)
          assert_failed
      bytes ← read_memory source (sub64 begin_byte offset) n
      ok (bytes, s);
  }

  unfoldable pub write_bytes : DataTree → Data → ℕ → Store S → Result (DataTree × Store S)
  write_bytes t source offset nodes = do
    (own, t', nodes') ←
        traverse_leaves_by_byte_indices t offset (length source) false
          (write_callbacks source offset (length source)) tt nodes
    ok (t', nodes')
