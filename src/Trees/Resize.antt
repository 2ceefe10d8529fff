-- ===== src/Trees/Resize.antt =====
-- `DataTree::resizeNumBytes` and `numNodes`
-- (src/blobstore/implementations/onblocks/datatreestore/DataTree.cpp), and `DataTreeStore`
-- (src/blobstore/implementations/onblocks/datatreestore/DataTreeStore.cpp).
use libcryfs.Common.{
  ℕ, zero, suc, ◌+◌, ◌-◌, ◌*◌, ◌%◌, ◌^◌, true, false, Option, none, some, [], ltb, leb, replicate,
  if◌then◌else◌,
}
use libcryfs.Common.Equality.{◌==◌, nat_eq}
use libcryfs.Common.Result.{Result, ok, err, guard, assert_failed, undefined, ◌>>=◌, ◌>>◌}
use libcryfs.Common.Bytes.{Data, BlockId}
use libcryfs.Common.Memory.{sub64}
use libcryfs.BlockStore.{BlockStore2}
use libcryfs.Nodes.View.{Block, depth, max_children_per_inner_node, max_bytes_per_leaf}
use libcryfs.Nodes.Leaf.{num_bytes, resize}
use libcryfs.Nodes.Inner.{num_children, read_last_child, remove_last_child}
use libcryfs.Trees.Math.{int_pow}
use libcryfs.Trees.NodeStore
use libcryfs.Trees.NodeStore.{Store, block_of}
use libcryfs.Trees.Subtree.{State, handle_node, ceil_division32}
use libcryfs.Trees.DataTree
use libcryfs.Trees.DataTree.{DataTree, SizeCache, ceil_division64}

module _ (S : BlockStore2) (allocate : ℕ → Data) (block_size : ℕ) (ceil_log : ℕ → ℕ → ℕ) where
  -- The loop that removes the children on the right, with the number of those to remove.
  unfoldable pub remove_children : ℕ → Block → State S (Unit {0}) → Result (State S (Unit {0}))
  remove_children zero node s = ok s
  remove_children (suc n) node s = do
    d ← depth node
    child ← read_last_child node
    nodes ← NodeStore.remove_subtree S allocate block_size (d - 1) child s.nodes
    node' ← remove_last_child node
    nodes' ← NodeStore.save S allocate block_size node' nodes
    remove_children n node' (record s { nodes = nodes' })

  -- `onBacktrackFromSubtree` of `resizeNumBytes`
  unfoldable pub remove_needless_children :
      ℕ → Block → State S (Unit {0}) → Result (State S (Unit {0}))
  remove_needless_children new_num_leaves node s = do
    d ← depth node
    let most = max_children_per_inner_node block_size % 2 ^ 32
    let per_child = int_pow most ((d + (2 ^ 64 - 1)) % 2 ^ 64) % 2 ^ 32
    -- A division by zero, where the number of leaves is cut to 0.
    guard (ltb 0 per_child) undefined
    let needed_nodes = ceil_division32 new_num_leaves per_child
    let needed_siblings = ceil_division32 needed_nodes most
    let needed =
        (needed_nodes + 2 ^ 32 * 2 ^ 32 - ((needed_siblings + (2 ^ 32 - 1)) % 2 ^ 32) * most)
        % 2 ^ 32
    n ← num_children node
    guard (leb needed n) assert_failed
    remove_children (n - needed) node s

  unfoldable pub resize_num_bytes : DataTree → ℕ → Store S → Result (DataTree × Store S)
  resize_num_bytes t new_num_bytes nodes = do
    let most = max_bytes_per_leaf block_size
    let wanted = ceil_division64 new_num_bytes most
    let new_num_leaves = (if ltb 1 wanted then wanted else 1) % 2 ^ 32
    let new_last_leaf_size =
        (sub64 new_num_bytes ((((new_num_leaves + (2 ^ 32 - 1)) % 2 ^ 32) * most) % 2 ^ 64))
        % 2 ^ 32
    s ←
        DataTree.traverse_leaves_by_leaf_indices S allocate block_size ceil_log t
          ((new_num_leaves + (2 ^ 32 - 1)) % 2 ^ 32) new_num_leaves false
          (record {
            on_existing_leaf = λ index right block_id s. do
              (block, nodes1) ← handle_node S allocate block_size block_id s.nodes
              n ← num_bytes block
              elim (n == new_last_leaf_size) [
                | true ↦ ok (record s { nodes = nodes1 })
                | false ↦ do
                  resized ← resize new_last_leaf_size block
                  nodes2 ← NodeStore.save S allocate block_size resized nodes1
                  ok (record s { nodes = nodes2 })
              ];
            on_create_leaf = λ index s. ok (replicate new_last_leaf_size 0, s);
            on_backtrack_from_subtree = remove_needless_children new_num_leaves;
          })
          (record { own = tt; nodes = nodes })
    ok (
      record t {
        size_cache = some (record { num_leaves = new_num_leaves; num_bytes = new_num_bytes });
      },
      s.nodes,
    )

  -- The loop of `numNodes`, with the levels that are left.
  abbrev pub add_levels : ℕ → ℕ → ℕ → ℕ
  add_levels zero level total = total
  add_levels (suc levels) level total =
      let above = ceil_division32 level (max_children_per_inner_node block_size % 2 ^ 32) in
      add_levels levels above ((total + above) % 2 ^ 32)

  unfoldable pub num_nodes : DataTree → Store S → Result (ℕ × DataTree × Store S)
  num_nodes t nodes = do
    (leaves, t1, nodes1) ← DataTree.num_leaves S allocate block_size ceil_log t nodes
    (loaded, nodes2) ← NodeStore.load S allocate block_size t1.root_id nodes1
    elim loaded [
      | none ↦ err assert_failed
      | some root ↦ do d ← depth (block_of root); ok (add_levels d leaves leaves, t1, nodes2)
    ]

  -- `DataTreeStore`
  unfoldable pub load_tree : BlockId → Store S → Result (Option DataTree × Store S)
  load_tree block_id nodes = do
    (loaded, nodes1) ← NodeStore.load S allocate block_size block_id nodes
    ok (
      elim loaded [
        | none ↦ none
        | some root ↦ some (record { root_id = (block_of root).block_id; size_cache = none })
      ],
      nodes1,
    )

  unfoldable pub create_new_tree : Store S → Result (DataTree × Store S)
  create_new_tree nodes = do
    (leaf, nodes1) ← NodeStore.create_new_leaf_node S allocate block_size [] nodes
    ok (record { root_id = leaf.block_id; size_cache = none }, nodes1)

  unfoldable pub remove_tree : DataTree → Store S → Result (Store S)
  remove_tree t nodes = do
    (loaded, nodes1) ← NodeStore.load S allocate block_size t.root_id nodes
    elim loaded [
      | none ↦ err assert_failed
      | some root ↦ NodeStore.remove_subtree_of S allocate block_size root nodes1
    ]

  unfoldable pub remove_tree_by_id : BlockId → Store S → Result (Store S)
  remove_tree_by_id block_id nodes = do
    (loaded, nodes1) ← load_tree block_id nodes
    elim loaded [ none ↦ err assert_failed | some t ↦ remove_tree t nodes1 ]
