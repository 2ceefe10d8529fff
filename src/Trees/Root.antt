-- ===== src/Trees/Root.antt =====
-- `LeafTraverser::traverseAndUpdateRoot`
-- (src/blobstore/implementations/onblocks/datatreestore/impl/LeafTraverser.cpp): the root of a tree,
-- which keeps its id while the tree grows and shrinks. The root is loaded where the source has it open.
use libcryfs.Common.{
  ℕ, zero, suc, ◌-◌, ◌%◌, ◌^◌, Bool, true, false, not, ◌&&◌, ◌||◌, none, some, min, ltb, leb,
  if◌then◌else◌,
}
use libcryfs.Common.Equality.{◌==◌, nat_eq}
use libcryfs.Common.Result.{Result, ok, err, guard, assert_failed, undefined, ◌>>=◌, ◌>>◌}
use libcryfs.Common.Bytes.{Data, BlockId, block_id_length}
use libcryfs.BlockStore.{BlockStore2}
use libcryfs.Nodes.View.{Block, depth, max_bytes_per_leaf}
use libcryfs.Nodes.Leaf.{num_bytes, resize}
use libcryfs.Nodes.Inner.{num_children, read_child}
use libcryfs.Nodes.Load.{DataNode, leaf, inner, convert_to_new_inner_node}
use libcryfs.Trees.NodeStore
use libcryfs.Trees.NodeStore.{Store, block_of}
use libcryfs.Trees.Traverse
use libcryfs.Trees.Subtree.{State, Callbacks, max_leaves_for_tree_depth}

module _ (S : BlockStore2) (allocate : ℕ → Data) (block_size : ℕ) (ceil_log : ℕ → ℕ → ℕ)
    (read_only : Bool) (X : Type 0) where
  -- A node that has to be there.
  unfoldable pub load_existing : BlockId → State S X → Result (DataNode × State S X)
  load_existing block_id s = do
    (loaded, nodes) ← NodeStore.load S allocate block_size block_id s.nodes
    elim loaded [ none ↦ err assert_failed | some node ↦ ok (node, record s { nodes = nodes }) ]

  -- `_increaseTreeDepth`
  unfoldable pub increase_tree_depth : Block → State S X → Result (State S X)
  increase_tree_depth root s = do
    guard (not read_only) assert_failed
    (copy, nodes) ← NodeStore.create_new_node_as_copy_from S allocate block_size root s.nodes
    root' ←
        convert_to_new_inner_node (allocate block_id_length) (allocate block_size) root block_size
          (block_of copy)
    nodes' ← NodeStore.save S allocate block_size root' nodes
    ok (record s { nodes = nodes' })

  -- `_whileRootHasOnlyOneChildRemoveRootReturnChild`. `rounds` bounds the levels that are left; where
  -- they are used up, the nodes form a cycle and the source does not return.
  unfoldable pub remove_root_return_child : ℕ → BlockId → State S X → Result (DataNode × State S X)
  remove_root_return_child zero block_id s = err undefined
  remove_root_return_child (suc rounds) block_id s = do
    guard (not read_only) assert_failed
    (current, s1) ← load_existing block_id s
    elim current [
      | leaf block ↦ ok (leaf block, s1)
      | inner block ↦ do
        n ← num_children block
        elim (n == 1) [
          | false ↦ ok (inner block, s1)
          | true ↦ do
            child ← read_child 0 block
            (result, s2) ← remove_root_return_child rounds child s1
            nodes ← NodeStore.remove S allocate block_size block.block_id s2.nodes
            ok (result, record s2 { nodes = nodes })
        ]
    ]

  -- `_whileRootHasOnlyOneChildReplaceRootWithItsChild`. A level stands in 8 bits.
  unfoldable pub replace_root_with_its_child : BlockId → State S X → Result (State S X)
  replace_root_with_its_child root_id s = do
    (root, s1) ← load_existing root_id s
    elim root [
      | leaf _ ↦ ok s1
      | inner block ↦ do
        n ← num_children block
        elim (n == 1) [
          | false ↦ ok s1
          | true ↦ do
            guard (not read_only) assert_failed
            child ← read_child 0 block
            (new_root, s2) ← remove_root_return_child (2 ^ 8) child s1
            (overwritten, nodes) ←
                NodeStore.overwrite_node_with S allocate block_size block (block_of new_root)
                  s2.nodes
            nodes' ← NodeStore.remove S allocate block_size (block_of new_root).block_id nodes
            ok (record s2 { nodes = nodes' })
        ]
    ]

  -- What is traversed below the root at its depth.
  unfoldable pub traverse_root :
      DataNode → Callbacks S X → ℕ → ℕ → Bool → ℕ → Bool → State S X → Result (State S X)
  traverse_root (leaf block) cb begin end left max_leaves increase s = do
    n ← num_bytes block
    s1 ← (elim (increase && not (n == max_bytes_per_leaf block_size)) [
      | false ↦ ok s
      | true ↦ do
        resized ← resize (max_bytes_per_leaf block_size % 2 ^ 32) block
        nodes ← NodeStore.save S allocate block_size resized s.nodes
        ok (record s { nodes = nodes })
    ])
    elim ((begin == 0) && leb 1 end) [
      | true ↦ cb.on_existing_leaf 0 (end == 1) block.block_id s1
      | false ↦ ok s1
    ]
  traverse_root (inner block) cb begin end left max_leaves increase s = do
    d ← depth block
    Traverse.traverse_inner S allocate block_size ceil_log read_only X
        (Traverse.traverse_existing_subtree S allocate block_size ceil_log read_only X (d - 1))
        (d - 1) cb block (min begin max_leaves) (min end max_leaves) 0 left (not increase) increase
        s

  -- `_traverseAndUpdateRoot`. `rounds` bounds how often the tree gets a level more.
  unfoldable pub traverse_and_update_root :
      ℕ → BlockId → Callbacks S X → ℕ → ℕ → Bool → State S X → Result (State S X)
  traverse_and_update_root zero root_id cb begin end left s = err undefined
  traverse_and_update_root (suc rounds) root_id cb begin end left s = do
    guard (leb begin end) assert_failed
    (root, s1) ← load_existing root_id s
    d ← depth (block_of root)
    let max_leaves = max_leaves_for_tree_depth block_size d
    let increase = ltb max_leaves end
    guard (not read_only || not increase) assert_failed
    s2 ← traverse_root root cb begin end left max_leaves increase s1
    elim increase [
      | false ↦ replace_root_with_its_child root_id s2
      | true ↦ do
        guard (not read_only) assert_failed
        (grown, s3) ← load_existing root_id s2
        s4 ← increase_tree_depth (block_of grown) s3
        traverse_and_update_root rounds root_id cb
            (if ltb begin max_leaves then max_leaves else begin) end false s4
    ]
