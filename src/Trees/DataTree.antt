-- ===== src/Trees/DataTree.antt =====
-- `DataTree` (src/blobstore/implementations/onblocks/datatreestore/DataTree.cpp). The locks are not
-- modelled: an operation is one step.
use libcryfs.Common.{
  ℕ, zero, suc, ◌+◌, ◌-◌, ◌*◌, ◌%◌, ◌^◌, Bool, true, false, Option, none, some, leb,
}
use libcryfs.Common.Equality.{nat_eq}
use libcryfs.Common.Result.{Result, ok, err, assert_failed, undefined, ◌>>=◌}
use libcryfs.Common.Bytes.{Data, BlockId}
use libcryfs.Common.Memory.{add64}
use libcryfs.BlockStore.{BlockStore2}
use libcryfs.Nodes.View.{Block, depth, max_children_per_inner_node, max_bytes_per_leaf}
use libcryfs.Nodes.Leaf.{num_bytes}
use libcryfs.Nodes.Inner.{num_children, read_last_child}
use libcryfs.Nodes.Load.{DataNode, leaf, inner}
use libcryfs.Trees.Math.{int_pow, ceil_division}
use libcryfs.Trees.NodeStore
use libcryfs.Trees.NodeStore.{Store, block_of}
use libcryfs.Trees.Subtree.{State, Callbacks}
use libcryfs.Trees.Root

pub record SizeCache : Type 0 where
  pub num_leaves : ℕ
  pub num_bytes : ℕ

pub record DataTree : Type 0 where
  pub root_id : BlockId
  pub size_cache : Option SizeCache

-- The rounds in which a tree grows: 2 ^ 32 leaves at two children a node take 32.
abbrev pub growth_rounds : ℕ
growth_rounds = 33

abbrev pub ceil_division64 : ℕ → ℕ → ℕ
ceil_division64 = ceil_division (2 ^ 64)

module _ (S : BlockStore2) (allocate : ℕ → Data) (block_size : ℕ) (ceil_log : ℕ → ℕ → ℕ) where
  -- `_leavesPerFullChild`, cut to 32 bits.
  unfoldable pub leaves_per_full_child : Block → Result ℕ
  leaves_per_full_child root = do
    d ← depth root
    ok (int_pow (max_children_per_inner_node block_size) ((d + (2 ^ 64 - 1)) % 2 ^ 64) % 2 ^ 32)

  -- `_computeSizeCache`. `rounds` bounds the levels of the tree.
  unfoldable pub compute_size_cache : ℕ → DataNode → Store S → Result (SizeCache × Store S)
  compute_size_cache rounds (leaf block) s = do
    n ← num_bytes block
    ok (record { num_leaves = 1; num_bytes = n }, s)
  compute_size_cache zero (inner block) s = err undefined
  compute_size_cache (suc rounds) (inner block) s = do
    n ← num_children block
    per_child ← leaves_per_full_child block
    let left = (((n + (2 ^ 32 - 1)) % 2 ^ 32) * per_child) % 2 ^ 32
    child ← read_last_child block
    (last_child, s1) ← NodeStore.load S allocate block_size child s
    elim last_child [
      | none ↦ err assert_failed
      | some node ↦ do
        (right, s2) ← compute_size_cache rounds node s1
        ok (
          record {
            num_leaves = (left + right.num_leaves) % 2 ^ 32;
            num_bytes = add64 ((left * max_bytes_per_leaf block_size) % 2 ^ 64) right.num_bytes;
          },
          s2,
        )
    ]

  -- `_getOrComputeSizeCache`
  unfoldable pub get_or_compute_size_cache :
      DataTree → Store S → Result (SizeCache × DataTree × Store S)
  get_or_compute_size_cache t s = elim t.size_cache [
    | some cache ↦ ok (cache, t, s)
    | none ↦ do
      (loaded, s1) ← NodeStore.load S allocate block_size t.root_id s
      elim loaded [
        | none ↦ err undefined
        | some root ↦ do
          (cache, s2) ← compute_size_cache (2 ^ 8) root s1
          ok (cache, record t { size_cache = some cache }, s2)
      ]
  ]

  unfoldable pub num_leaves : DataTree → Store S → Result (ℕ × DataTree × Store S)
  num_leaves t s = do (cache, t', s') ← get_or_compute_size_cache t s; ok (cache.num_leaves, t', s')

  unfoldable pub tree_num_bytes : DataTree → Store S → Result (ℕ × DataTree × Store S)
  tree_num_bytes t s = do
    (cache, t', s') ← get_or_compute_size_cache t s
    ok (cache.num_bytes, t', s')

  unfoldable pub force_compute_num_leaves : DataTree → Store S → Result (ℕ × DataTree × Store S)
  force_compute_num_leaves t s = num_leaves (record t { size_cache = none }) s

  -- `_traverseLeavesByLeafIndices`
  unfoldable pub traverse_leaves_by_leaf_indices :
      {X : Type 0} → DataTree → ℕ → ℕ → Bool → Callbacks S X → State S X → Result (State S X)
  traverse_leaves_by_leaf_indices {X} t begin end read_only cb s = elim (leb end begin) [
    | true ↦ ok s
    | false ↦
        Root.traverse_and_update_root S allocate block_size ceil_log read_only X growth_rounds
          t.root_id cb begin end true s
  ]
