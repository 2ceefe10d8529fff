-- ===== src/Trees/NodeStore.antt =====
-- `DataNodeStore` (src/blobstore/implementations/onblocks/datanodestore/DataNodeStore.cpp). A node that
-- is open is its block; each change of it is stored at once, by `save`, so that whoever loads the node
-- next sees the change. `allocate` is the memory of a new `Data` object of a given size.
use libcryfs.Common.{ℕ, zero, suc, ◌-◌, ◌*◌, true, Option, none, some, List, length}
use libcryfs.Common.Equality.{◌==◌, nat_eq}
use libcryfs.Common.Result.{Result, ok, err, guard, assert_failed, ◌>>=◌, ◌>>◌}
use libcryfs.Common.Bytes.{Data, BlockId, block_id_length}
use libcryfs.BlockStore.{BlockStore2}
use libcryfs.Blocks
use libcryfs.Nodes.View
use libcryfs.Nodes.View.{Block, depth, copy_to}
use libcryfs.Nodes.Leaf
use libcryfs.Nodes.Leaf.{create_leaf, open_leaf}
use libcryfs.Nodes.Inner.{create_new_node, open_inner, num_children, read_child}
use libcryfs.Nodes.Load
use libcryfs.Nodes.Load.{DataNode, leaf, inner}
use libcryfs.Trees.Math.{for_range}

-- The block store below, and the random ids to come.
pub record Store (S : BlockStore2) : Type 0 where
  pub base : S.State
  pub ids : List BlockId

abbrev pub block_of : DataNode → Block
block_of (leaf block) = block
block_of (inner block) = block

module _ (S : BlockStore2) (allocate : ℕ → Data) (block_size : ℕ) where
  unfoldable pub save : Block → Store S → Result (Store S)
  save block s = do
    base ← Blocks.destroy S (record { block = block; data_changed = true }) s.base
    ok (record s { base = base })

  unfoldable pub create_block : Data → Store S → Result (Block × Store S)
  create_block content s = do
    (b, ids, base) ← Blocks.create S s.ids content s.base
    ok (b.block, record { base = base; ids = ids })

  unfoldable pub create_new_inner_node : ℕ → List BlockId → Store S → Result (Block × Store S)
  create_new_inner_node depth_value children s = do
    content ←
        create_new_node (allocate (block_id_length * length children)) (allocate block_size)
          block_size depth_value children
    (block, s') ← create_block content s
    opened ← open_inner block
    ok (opened, s')

  unfoldable pub create_new_leaf_node : Data → Store S → Result (Block × Store S)
  create_new_leaf_node source s = do
    content ← create_leaf (allocate block_size) block_size source
    (block, s') ← create_block content s
    opened ← open_leaf block
    ok (opened, s')

  unfoldable pub overwrite_leaf : BlockId → Data → Store S → Result (Block × Store S)
  overwrite_leaf block_id source s = do
    content ← Leaf.overwrite_leaf (allocate block_size) block_size source
    (b, base) ← Blocks.overwrite S block_id content s.base
    opened ← open_leaf b.block
    ok (opened, record s { base = base })

  -- `load` of an id
  unfoldable pub load : BlockId → Store S → Result (Option DataNode × Store S)
  load block_id s = do
    (loaded, base) ← Blocks.load S block_id s.base
    elim loaded [
      | none ↦ ok (none, record s { base = base })
      | some b ↦ do
        guard (length b.block.content == block_size) assert_failed
        node ← Load.load b.block
        ok (some node, record s { base = base })
    ]

  unfoldable pub create_new_node_as_copy_from : Block → Store S → Result (DataNode × Store S)
  create_new_node_as_copy_from source s = do
    own ← View.layout source
    guard (own == block_size) assert_failed
    (block, s') ← create_block source.content s
    node ← Load.load block
    ok (node, s')

  unfoldable pub overwrite_node_with : Block → Block → Store S → Result (DataNode × Store S)
  overwrite_node_with target source s = do
    own ← View.layout target
    guard (own == block_size) assert_failed
    other ← View.layout source
    guard (other == block_size) assert_failed
    copied ← copy_to source target
    s' ← save copied s
    node ← Load.load copied
    ok (node, s')

  unfoldable pub remove : BlockId → Store S → Result (Store S)
  remove block_id s = do base ← Blocks.remove S block_id s.base; ok (record s { base = base })

  -- The node of an id, where it has to be an inner one.
  unfoldable pub load_inner : BlockId → Store S → Result (Block × Store S)
  load_inner block_id s = do
    (loaded, s') ← load block_id s
    elim loaded [
      | none ↦ err assert_failed
      | some node ↦ elim node [ leaf _ ↦ err assert_failed | inner block ↦ ok (block, s') ]
    ]

  -- `removeSubtree` of a depth and an id
  unfoldable pub remove_subtree : ℕ → BlockId → Store S → Result (Store S)
  remove_subtree zero block_id s = remove block_id s
  remove_subtree (suc level) block_id s = do
    (block, s1) ← load_inner block_id s
    d ← depth block
    guard (d == suc level) assert_failed
    n ← num_children block
    s2 ← for_range (λ i t. do child ← read_child i block; remove_subtree level child t) n 0 s1
    remove block_id s2

  -- `removeSubtree` of a node
  unfoldable pub remove_subtree_of : DataNode → Store S → Result (Store S)
  remove_subtree_of (leaf block) s = remove block.block_id s
  remove_subtree_of (inner block) s = do
    n ← num_children block
    s2 ←
        for_range
          (λ i t. do d ← depth block; child ← read_child i block; remove_subtree (d - 1) child t) n
          0 s
    remove block.block_id s2

  unfoldable pub num_nodes : Store S → ℕ
  num_nodes s = Blocks.num_blocks S s.base

  unfoldable pub for_each_node : Store S → List BlockId
  for_each_node s = Blocks.for_each_block S s.base
