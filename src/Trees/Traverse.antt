-- ===== src/Trees/Traverse.antt =====
-- `_traverseExistingSubtree` of `LeafTraverser`
-- (src/blobstore/implementations/onblocks/datatreestore/impl/LeafTraverser.cpp).
use libcryfs.Common.{
  ℕ, zero, suc, ◌+◌, ◌-◌, ◌*◌, ◌/◌, ◌%◌, ◌^◌, Bool, true, false, not, ◌&&◌, ◌||◌, none, some, min,
  ltb, leb, if◌then◌else◌,
}
use libcryfs.Common.Equality.{◌==◌, nat_eq}
use libcryfs.Common.Result.{
  Result, ok, err, guard, assert_failed, runtime_error, undefined, ◌>>=◌, ◌>>◌,
}
use libcryfs.Common.Bytes.{Data, BlockId}
use libcryfs.BlockStore.{BlockStore2}
use libcryfs.Nodes.View.{Block, depth, max_children_per_inner_node, max_bytes_per_leaf}
use libcryfs.Nodes.Leaf.{num_bytes, resize}
use libcryfs.Nodes.Inner.{num_children, read_child, read_last_child, add_child}
use libcryfs.Nodes.Load.{leaf, inner}
use libcryfs.Trees.Math.{for_range, max_zero_subtraction}
use libcryfs.Trees.NodeStore
use libcryfs.Trees.NodeStore.{Store, block_of}
use libcryfs.Trees.Subtree.{
  State, Callbacks, no_callbacks, ceil_division32, max_leaves_for_tree_depth, handle_node,
  create_max_size_leaf, create_new_subtree,
}

module _ (S : BlockStore2) (allocate : ℕ → Data) (block_size : ℕ) (ceil_log : ℕ → ℕ → ℕ)
    (read_only : Bool) (X : Type 0) where
  -- A child that is in the tree: `subtree` traverses those of the level below.
  unfoldable pub traverse_child :
      (Callbacks S X → BlockId → ℕ → ℕ → ℕ → Bool → Bool → Bool → State S X → Result (State S X))
      → Callbacks S X
      → ℕ
      → ℕ
      → ℕ
      → ℕ
      → ℕ
      → ℕ
      → Bool
      → Bool
      → Bool
      → Block
      → ℕ
      → State S X
      → Result (State S X)
  traverse_child subtree cb leaves_per_child children end_child begin end leaf_offset left right
        grow root child_index s =
      do
        child ← read_child child_index root
        let child_offset = (child_index * leaves_per_child) % 2 ^ 32
        let local_begin = max_zero_subtraction begin child_offset
        let local_end = min leaves_per_child ((end + 2 ^ 32 - child_offset) % 2 ^ 32)
        let is_first = child_index == begin / leaves_per_child
        let is_last_existing = child_index == ((children + (2 ^ 32 - 1)) % 2 ^ 32)
        let is_last = is_last_existing && (children == end_child)
        guard (leb local_end leaves_per_child) assert_failed
        subtree cb child local_begin local_end ((leaf_offset + child_offset) % 2 ^ 32)
            (left && is_first) (right && is_last) (grow && is_last_existing) s

  -- The last old child is filled where the traversal is to the right of it.
  unfoldable pub fill_last_child :
      (Callbacks S X → BlockId → ℕ → ℕ → ℕ → Bool → Bool → Bool → State S X → Result (State S X))
      → ℕ
      → ℕ
      → Block
      → State S X
      → Result (State S X)
  fill_last_child subtree leaves_per_child children root s = do
    guard (ltb 0 children) assert_failed
    child ← read_last_child root
    let child_offset = ((children + (2 ^ 32 - 1)) * leaves_per_child) % 2 ^ 32
    subtree no_callbacks child leaves_per_child leaves_per_child child_offset true false true s

  -- A child that is added.
  unfoldable pub add_new_child :
      Callbacks S X → ℕ → ℕ → ℕ → ℕ → ℕ → ℕ → Block × State S X → Result (Block × State S X)
  add_new_child cb level leaves_per_child begin end leaf_offset child_index (root, s) = do
    guard (not read_only) assert_failed
    let child_offset = (child_index * leaves_per_child) % 2 ^ 32
    let on_create =
        if ltb child_index (begin / leaves_per_child)
        then create_max_size_leaf S allocate block_size ceil_log read_only X
        else cb.on_create_leaf
    (child, s1) ←
        create_new_subtree S allocate block_size ceil_log read_only X level
          (min leaves_per_child (max_zero_subtraction begin child_offset))
          (min leaves_per_child ((end + 2 ^ 32 - child_offset) % 2 ^ 32))
          ((leaf_offset + child_offset) % 2 ^ 32) on_create cb.on_backtrack_from_subtree s
    root' ← add_child child root
    nodes ← NodeStore.save S allocate block_size root' s1.nodes
    ok (root', record s1 { nodes = nodes })

  -- `_traverseExistingSubtree` of an inner node
  unfoldable pub traverse_inner :
      (Callbacks S X → BlockId → ℕ → ℕ → ℕ → Bool → Bool → Bool → State S X → Result (State S X))
      → ℕ
      → Callbacks S X
      → Block
      → ℕ
      → ℕ
      → ℕ
      → Bool
      → Bool
      → Bool
      → State S X
      → Result (State S X)
  traverse_inner subtree level cb root begin end leaf_offset left right grow s = do
    guard (leb begin end) assert_failed
    let leaves_per_child = max_leaves_for_tree_depth block_size level
    -- A division by zero, where the number of leaves is cut to 0.
    guard (ltb 0 leaves_per_child) undefined
    let begin_child = begin / leaves_per_child
    let end_child = ceil_division32 end leaves_per_child
    guard (leb end_child (max_children_per_inner_node block_size)) assert_failed
    children ← num_children root
    guard (not grow || leb children end_child) assert_failed
    guard (not read_only || leb end_child children) assert_failed
    s1 ← (elim (left && leb children begin_child) [
      | true ↦ fill_last_child subtree leaves_per_child children root s
      | false ↦ ok s
    ])
    s2 ←
        for_range
          (traverse_child subtree cb leaves_per_child children end_child begin end leaf_offset left
            right (grow || ltb children end_child) root)
          (min end_child children - begin_child) begin_child s1
    (root', s3) ←
        for_range (add_new_child cb level leaves_per_child begin end leaf_offset)
          (end_child - children) children (root, s2)
    elim (ltb begin end) [ true ↦ cb.on_backtrack_from_subtree root' s3 | false ↦ ok s3 ]

  -- `_traverseExistingSubtree` of an id
  unfoldable pub traverse_existing_subtree :
      ℕ → Callbacks S X → BlockId → ℕ → ℕ → ℕ → Bool → Bool → Bool → State S X → Result (State S X)
  traverse_existing_subtree zero cb block_id begin end leaf_offset left right grow s = do
    guard (leb begin 1 && leb end 1) assert_failed
    s1 ← (elim grow [
      | false ↦ ok s
      | true ↦ do
        (block, nodes) ← handle_node S allocate block_size block_id s.nodes
        n ← num_bytes block
        elim (n == max_bytes_per_leaf block_size) [
          | true ↦ ok (record s { nodes = nodes })
          | false ↦ do
            guard (not read_only) assert_failed
            resized ← resize (max_bytes_per_leaf block_size % 2 ^ 32) block
            nodes' ← NodeStore.save S allocate block_size resized nodes
            ok (record s { nodes = nodes' })
        ]
    ])
    elim ((begin == 0) && (end == 1)) [
      | true ↦ cb.on_existing_leaf leaf_offset right block_id s1
      | false ↦ ok s1
    ]
  traverse_existing_subtree (suc level) cb block_id begin end leaf_offset left right grow s = do
    (loaded, nodes) ← NodeStore.load S allocate block_size block_id s.nodes
    elim loaded [
      | none ↦ err runtime_error
      | some node ↦ elim node [
        | leaf _ ↦ err assert_failed
        | inner root ↦ do
          d ← depth root
          guard (d == suc level) assert_failed
          traverse_inner (traverse_existing_subtree level) level cb root begin end leaf_offset left
              right grow (record s { nodes = nodes })
      ]
    ]
