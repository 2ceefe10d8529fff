-- ===== src/Trees/Subtree.antt =====
-- What a traversal of leaves works on, and the creation of a subtree
-- (src/blobstore/implementations/onblocks/datatreestore/impl/LeafTraverser.cpp). A callback changes the
-- node store and a state `X` of its own. A leaf handle is the id of the leaf.
use libcryfs.Common.{
  ℕ, zero, suc, ◌+◌, ◌-◌, ◌*◌, ◌/◌, ◌%◌, ◌^◌, Bool, true, false, not, ◌&&◌, none, some, [], ◌∷◌,
  ◌++◌, length, min, ltb, leb, replicate,
}
use libcryfs.Common.Equality.{◌==◌, nat_eq}
use libcryfs.Common.Result.{Result, ok, err, guard, assert_failed, undefined, ◌>>=◌, ◌>>◌}
use libcryfs.Common.Bytes.{Data, BlockId}
use libcryfs.BlockStore.{BlockStore2}
use libcryfs.Nodes.View.{Block, depth, max_children_per_inner_node, max_bytes_per_leaf}
use libcryfs.Nodes.Load.{leaf, inner}
use libcryfs.Trees.Math.{for_range, int_pow, ceil_division, max_zero_subtraction}
use libcryfs.Trees.NodeStore
use libcryfs.Trees.NodeStore.{Store, block_of}

abbrev pub ceil_division32 : ℕ → ℕ → ℕ
ceil_division32 = ceil_division (2 ^ 32)

-- `_maxLeavesForTreeDepth`; the result is cut to 32 bits.
unfoldable pub max_leaves_for_tree_depth : ℕ → ℕ → ℕ
max_leaves_for_tree_depth block_size level =
    int_pow (max_children_per_inner_node block_size) level % 2 ^ 32

-- The node store, and what the callbacks change beside it.
pub record State (S : BlockStore2) (X : Type 0) : Type 0 where
  pub own : X
  pub nodes : Store S

pub record Callbacks (S : BlockStore2) (X : Type 0) : Type 0 where
  pub on_existing_leaf : ℕ → Bool → BlockId → State S X → Result (State S X)
  pub on_create_leaf : ℕ → State S X → Result (Data × State S X)
  pub on_backtrack_from_subtree : Block → State S X → Result (State S X)

-- The callbacks with "We don't actually traverse any leaves."
abbrev pub no_callbacks : {S : BlockStore2} {X : Type 0} → Callbacks S X
no_callbacks = record {
  on_existing_leaf = λ index right id s. err assert_failed;
  on_create_leaf = λ index s. err assert_failed;
  on_backtrack_from_subtree = λ block s. err assert_failed;
}

-- The node of a leaf handle.
unfoldable pub handle_node :
    (S : BlockStore2) (allocate : ℕ → Data) (block_size : ℕ)
    → BlockId
    → Store S
    → Result (Block × Store S)
handle_node S allocate block_size block_id s = do
  (loaded, s') ← NodeStore.load S allocate block_size block_id s
  elim loaded [
    | none ↦ err assert_failed
    | some node ↦ elim node [ inner _ ↦ err assert_failed | leaf block ↦ ok (block, s') ]
  ]

module _ (S : BlockStore2) (allocate : ℕ → Data) (block_size : ℕ) (ceil_log : ℕ → ℕ → ℕ)
    (read_only : Bool) (X : Type 0) where
  unfoldable pub create_max_size_leaf : ℕ → State S X → Result (Data × State S X)
  create_max_size_leaf index s = do
    guard (not read_only) assert_failed
    ok (replicate (max_bytes_per_leaf block_size) 0, s)

  -- A new subtree of one level: `subtree` creates those of the level below.
  unfoldable pub create_children :
      (ℕ
        → ℕ
        → ℕ
        → (ℕ → State S X → Result (Data × State S X))
        → (Block → State S X → Result (State S X))
        → State S X
        → Result (Block × State S X))
      → ℕ
      → ℕ
      → ℕ
      → ℕ
      → (ℕ → State S X → Result (Data × State S X))
      → (Block → State S X → Result (State S X))
      → State S X
      → Result (Block × State S X)
  create_children subtree begin end leaf_offset level on_create_leaf on_backtrack s = do
    guard (leb (ceil_log (max_children_per_inner_node block_size) end % 2 ^ 8) (suc level))
        assert_failed
    let leaves_per_child = max_leaves_for_tree_depth block_size level
    -- A division by zero, where the number of leaves is cut to 0.
    guard (ltb 0 leaves_per_child) undefined
    let begin_child = begin / leaves_per_child
    let end_child = ceil_division32 end leaves_per_child
    -- Gap children.
    (children1, s1) ←
        for_range
          (λ child_index (children, t). do
            (child, t') ←
                subtree leaves_per_child leaves_per_child
                  ((leaf_offset + child_index * leaves_per_child) % 2 ^ 32)
                  (λ index u. err assert_failed) (λ block u. ok u) t
            d ← depth child
            guard (d == level) assert_failed
            ok (children ++ child.block_id ∷ [], t'))
          begin_child 0 ([], s)
    -- Children that are traversed.
    (children2, s2) ←
        for_range
          (λ child_index (children, t). do
            let child_offset = (child_index * leaves_per_child) % 2 ^ 32
            (child, t') ←
                subtree (max_zero_subtraction begin child_offset)
                  (min leaves_per_child ((end + 2 ^ 32 - child_offset) % 2 ^ 32))
                  ((leaf_offset + child_offset) % 2 ^ 32) on_create_leaf on_backtrack t
            d ← depth child
            guard (d == level) assert_failed
            ok (children ++ child.block_id ∷ [], t'))
          (end_child - begin_child) begin_child (children1, s1)
    guard (ltb 0 (length children2)) assert_failed
    (node, nodes) ←
        NodeStore.create_new_inner_node S allocate block_size (suc level) children2 s2.nodes
    let s3 : State S X = record s2 { nodes = nodes }
    s4 ← (elim (ltb begin end) [ true ↦ on_backtrack node s3 | false ↦ ok s3 ])
    ok (node, s4)

  -- `_createNewSubtree`
  unfoldable pub create_new_subtree :
      ℕ
      → ℕ
      → ℕ
      → ℕ
      → (ℕ → State S X → Result (Data × State S X))
      → (Block → State S X → Result (State S X))
      → State S X
      → Result (Block × State S X)
  create_new_subtree zero begin end leaf_offset on_create_leaf on_backtrack s = do
    guard (not read_only) assert_failed
    guard (leb begin end) assert_failed
    guard (leb begin 1 && (end == 1)) assert_failed
    (content, s1) ← (elim (begin == 0) [
      | true ↦ on_create_leaf leaf_offset s
      | false ↦ create_max_size_leaf leaf_offset s
    ])
    (block, nodes) ← NodeStore.create_new_leaf_node S allocate block_size content s1.nodes
    ok (block, record s1 { nodes = nodes })
  create_new_subtree (suc level) begin end leaf_offset on_create_leaf on_backtrack s = do
    guard (not read_only) assert_failed
    guard (leb begin end) assert_failed
    create_children (create_new_subtree level) begin end leaf_offset level on_create_leaf
        on_backtrack s
