-- ===== src/Trees/VisitRuns.antt =====
-- The steps of `traverseAndUpdateRoot` (LeafTraverser.cpp) where the tree does not grow.
use libcryfs.Common.{
  ℕ, zero, suc, ◌-◌, ◌*◌, ◌^◌, ◌≤◌, ◌<◌, ◌≡◌, refl, Bool, true, false, not, ◌||◌, some, length,
  arith, min, ltb, leb, le→ltb, le→leb,
}
use libcryfs.Common.Equality.{◌==◌, nat_eq}
use libcryfs.Common.Result.{ok}
use libcryfs.Common.Bytes.{Data, BlockId}
use libcryfs.BlockStore.{BlockStore2}
use libcryfs.Nodes.View.{Block, depth}
use libcryfs.Nodes.Leaf.{num_bytes}
use libcryfs.Nodes.Inner.{num_children}
use libcryfs.Nodes.LeafRuns.{leaf_node, leaf_block}
use libcryfs.Nodes.Image.{size-image}
use libcryfs.Nodes.Load.{DataNode, leaf, inner}
use libcryfs.Trees.NodeStore
use libcryfs.Trees.NodeStore.{Store, block_of}
use libcryfs.Trees.Subtree.{State, Callbacks, max_leaves_for_tree_depth}
use libcryfs.Trees.Traverse.{traverse_inner, traverse_existing_subtree}
use libcryfs.Trees.Root.{
  load_existing, traverse_root, replace_root_with_its_child, traverse_and_update_root,
}

module _ (S : BlockStore2) (allocate : ℕ → Data) (block_size : ℕ) (ceil_log : ℕ → ℕ → ℕ)
    (read_only : Bool) (X : Type 0) (cb : Callbacks S X) where
  pub load_existing-run :
      (id : BlockId) (s : State S X) (node : DataNode) (nodes : Store S)
      → NodeStore.load S allocate block_size id s.nodes ≡ ok (some node, nodes)
      → load_existing S allocate block_size ceil_log read_only X id s
        ≡ ok (node, record s { nodes = nodes })
  unfolding load_existing
  load_existing-run id s node nodes run = rw run refl

  -- A traversal that does not go beyond the tree.
  pub traverse_and_update_root-run :
      (rounds : ℕ) (root_id : BlockId) (begin end d most : ℕ) (root : DataNode)
      (s s1 s2 s3 : State S X)
      → load_existing S allocate block_size ceil_log read_only X root_id s ≡ ok (root, s1)
      → depth (block_of root) ≡ ok d
      → max_leaves_for_tree_depth block_size d ≡ most
      → begin ≤ end
      → end ≤ most
      → traverse_root S allocate block_size ceil_log read_only X root cb begin end true most false
          s1
        ≡ ok s2
      → replace_root_with_its_child S allocate block_size ceil_log read_only X root_id s2 ≡ ok s3
      → traverse_and_update_root S allocate block_size ceil_log read_only X
          (suc rounds)
          root_id
          cb
          begin
          end
          true
          s
        ≡ ok s3
  unfolding traverse_and_update_root
  traverse_and_update_root-run rounds root_id begin end d most root s s1 s2 s3 loaded level_ok
        cap_ok low high run trimmed =
      let ordered : leb begin end ≡ true = le→leb begin end low in
      let inside : ltb most end ≡ false = le→ltb most end high in
      let allowed : (not read_only || not false) ≡ true = ground arith in
      rw (ordered, loaded, level_ok, cap_ok, inside, allowed, run, trimmed) refl

  pub replace_root-leaf :
      (root_id : BlockId) (s s1 : State S X) (block : Block)
      → load_existing S allocate block_size ceil_log read_only X root_id s ≡ ok (leaf block, s1)
      → replace_root_with_its_child S allocate block_size ceil_log read_only X root_id s ≡ ok s1
  unfolding replace_root_with_its_child
  replace_root-leaf root_id s s1 block run = rw run refl

  pub replace_root-inner :
      (root_id : BlockId) (s s1 : State S X) (block : Block) (n : ℕ)
      → load_existing S allocate block_size ceil_log read_only X root_id s ≡ ok (inner block, s1)
      → num_children block ≡ ok n
      → 1 < n
      → replace_root_with_its_child S allocate block_size ceil_log read_only X root_id s ≡ ok s1
  unfolding replace_root_with_its_child
  replace_root-inner root_id s s1 block n run count some_children =
      let several : (n == 1) ≡ false = ground (arith, some_children) in
      ground (arith, run, count, several)

  pub traverse_root-inner :
      (block : Block) (begin end level most : ℕ) (s t : State S X)
      → depth block ≡ ok (suc level)
      → begin ≤ end
      → end ≤ most
      → traverse_inner S allocate block_size ceil_log read_only X
          (traverse_existing_subtree S allocate block_size ceil_log read_only X level)
          level
          cb
          block
          begin
          end
          0
          true
          true
          false
          s
        ≡ ok t
      → traverse_root S allocate block_size ceil_log read_only X
          (inner block)
          cb
          begin
          end
          true
          most
          false
          s
        ≡ ok t
  unfolding traverse_root
  traverse_root-inner block begin end level most s t level_ok low high run =
      let below : suc level - 1 ≡ level = omega arith in
      let first : min begin most ≡ begin = omega (arith, low, high) in
      let last : min end most ≡ end = omega (arith, high) in rw (level_ok, below, first, last) run

  pub traverse_root-leaf :
      (block : Block) (n begin end most : ℕ) (s t : State S X)
      → num_bytes block ≡ ok n
      → begin ≡ 0
      → end ≡ 1
      → cb.on_existing_leaf 0 true block.block_id s ≡ ok t
      → traverse_root S allocate block_size ceil_log read_only X
          (leaf block)
          cb
          begin
          end
          true
          most
          false
          s
        ≡ ok t
  unfolding traverse_root
  traverse_root-leaf block n begin end most s t count first last run =
      rw (count, first, last, last) run

pub size-leaf_block :
    (id : BlockId) (unused : ℕ) (bytes : Data) (padding : ℕ)
    → length bytes < 2 ^ 32
    → num_bytes (leaf_block id unused bytes padding) ≡ ok (length bytes)
size-leaf_block id unused bytes padding small = size-image id (leaf_node unused bytes padding) small

-- More leaves than one child can have are below two children or more.
pub several_children : (n cap leaves : ℕ) → leaves ≤ n * cap → cap < leaves → 1 < n
several_children zero cap leaves total more = omega (arith, total, more)
several_children (suc zero) cap leaves total more = omega (arith, total, more)
several_children (suc (suc n)) cap leaves total more = omega arith
