-- ===== src/Nodes/Load.antt =====
-- A block that is taken for a node, `DataNodeStore::load`
-- (src/blobstore/implementations/onblocks/datanodestore/DataNodeStore.cpp), and
-- `DataNode::convertToNewInnerNode` (src/blobstore/implementations/onblocks/datanodestore/DataNode.cpp).
use libcryfs.Common.{ℕ, ◌+◌, ◌^◌, ◌%◌, ◌≤◌, ◌<◌, ◌≡◌, [], ◌∷◌, arith, leb, length, List}
use libcryfs.Common.Equality.{◌==◌, nat_eq}
use libcryfs.Common.Result.{Result, ok, err, runtime_error, ◌>>=◌}
use libcryfs.Common.Bytes.{Data, BlockId}
use libcryfs.Nodes.View.{Block, depth, fill_with_zeroes, format_version}
use libcryfs.Nodes.Leaf.{open_leaf}
use libcryfs.Nodes.Inner.{open_inner, initialize_new_node}
use libcryfs.Nodes.Image.{Node, node_block, depth-image, format_version-image}
use libcryfs.Nodes.LeafRuns.{leaf_block, leaf_node}
use libcryfs.Nodes.LeafBytes.{open_leaf-eq}
use libcryfs.Nodes.Children.{inner_block, inner_node}
use libcryfs.Common.{◌-◌, true, false}

pub data DataNode : Type 0 where
  leaf inner : Block → DataNode

abbrev pub max_depth : ℕ
max_depth = 10

unfoldable pub load : Block → Result DataNode
load block = do
  d ← depth block
  elim (d == 0) [
    | true ↦ (do opened ← open_leaf block; ok (leaf opened))
    | false ↦ elim (leb d max_depth) [
      | true ↦ (do opened ← open_inner block; ok (inner opened))
      | false ↦ err runtime_error
    ]
  ]

-- `convertToNewInnerNode`; `allocated1` and `allocated2` are the memory of the new `Data` objects.
unfoldable pub convert_to_new_inner_node : Data → Data → Block → ℕ → Block → Result Block
convert_to_new_inner_node allocated1 allocated2 node block_size first_child = do
  cleared ← fill_with_zeroes node
  d ← depth first_child
  initialize_new_node allocated1 allocated2 cleared block_size ((d + 1) % 2 ^ 8)
      (first_child.block_id ∷ [])

load-run_leaf :
    (block : Block) → depth block ≡ ok 0 → open_leaf block ≡ ok block → load block ≡ ok (leaf block)
unfolding load
load-run_leaf block level opened = ground (arith, level, opened)

load-run_inner :
    (block : Block) (d : ℕ)
    → depth block ≡ ok d
    → 0 < d
    → d ≤ max_depth
    → format_version block ≡ ok 0
    → load block ≡ ok (inner block)
unfolding load open_inner
load-run_inner block d level low high version = ground (arith, level, low, high, version)

load-run_deep :
    (block : Block) (d : ℕ) → depth block ≡ ok d → max_depth < d → load block ≡ err runtime_error
unfolding load
load-run_deep block d level deep = ground (arith, level, deep)

-- The block of a leaf is loaded as a leaf.
pub load-leaf :
    (id : BlockId) (unused : ℕ) (bytes : Data) (padding : ℕ)
    → 32 ≤ length bytes + padding
    → length bytes + padding < 2 ^ 32 - 8
    → load (leaf_block id unused bytes padding) ≡ ok (leaf (leaf_block id unused bytes padding))
load-leaf id unused bytes padding room small =
    load-run_leaf _ (depth-image id (leaf_node unused bytes padding) (omega arith))
      (open_leaf-eq id unused bytes padding room small)

-- The block of an inner node is loaded as an inner node where its level is at most 10.
pub load-inner :
    (id : BlockId) (unused level : ℕ) (children : List BlockId) (rest : Data)
    → 0 < level
    → level ≤ max_depth
    → load (inner_block id unused level children rest)
      ≡ ok (inner (inner_block id unused level children rest))
load-inner id unused level children rest low high =
    load-run_inner _ level
      (depth-image id (inner_node unused level children rest) (omega (arith, high))) low high
      (format_version-image id (inner_node unused level children rest) (omega arith))

-- Above that a block is refused, whatever else it holds.
pub load_deep :
    (id : BlockId) (n : Node)
    → max_depth < n.depth
    → n.depth < 256
    → load (node_block id n) ≡ err runtime_error
load_deep id n deep fits = load-run_deep _ n.depth (depth-image id n fits) deep
