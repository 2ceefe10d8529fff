-- ===== src/Trees/Visit.antt =====
-- `_traverseExistingSubtree` (LeafTraverser.cpp) over leaves that are all in the tree.
use libcryfs.Common.{
  ℕ, ◌+◌, ◌-◌, ◌*◌, ◌/◌, ◌%◌, ◌^◌, ◌≤◌, ◌<◌, ◌≡◌, refl, Bool, true, false, not, ◌&&◌, ◌||◌, arith,
  min, ltb, leb, lt→ltb, le→ltb, le→leb,
}
use libcryfs.Common.Equality.{◌==◌, nat_eq}
use libcryfs.Common.Result.{Result, ok}
use libcryfs.Common.Bytes.{Data, BlockId}
use libcryfs.BlockStore.{BlockStore2}
use libcryfs.Nodes.View.{Block, max_children_per_inner_node}
use libcryfs.Nodes.Inner.{num_children, read_child}
use libcryfs.Trees.Math.{for_range, max_zero_subtraction}
use libcryfs.Trees.Subtree.{State, Callbacks, ceil_division32, max_leaves_for_tree_depth}
use libcryfs.Trees.Traverse.{traverse_child, traverse_inner}

module _ (S : BlockStore2) (allocate : ℕ → Data) (block_size : ℕ) (ceil_log : ℕ → ℕ → ℕ)
    (read_only : Bool) (X : Type 0) (cb : Callbacks S X) where
  pub traverse_child-run :
      (subtree : Callbacks S X
        → BlockId
        → ℕ
        → ℕ
        → ℕ
        → Bool
        → Bool
        → Bool
        → State S X
        → Result (State S X))
      (cap children end_child begin end leaf_offset : ℕ) (left right : Bool) (root : Block) (k : ℕ)
      (child : BlockId) (s : State S X)
      → read_child k root ≡ ok child
      → k * cap < end
      → end < 2 ^ 32
      → leaf_offset + end < 2 ^ 32
      → 0 < children
      → children < 2 ^ 32
      → traverse_child S allocate block_size ceil_log read_only X subtree cb cap children end_child
          begin end leaf_offset left right false root k s
        ≡ subtree cb child
            (begin - k * cap)
            (min cap (end - k * cap))
            (leaf_offset + k * cap)
            (left && (k == begin / cap))
            (right && ((k == children - 1) && (children == end_child)))
            false
            s
  unfolding traverse_child
  traverse_child-run subtree cap children end_child begin end leaf_offset left right root k child s
        run low small fits some_child many =
      let here : (k * cap) % 2 ^ 32 ≡ k * cap = omega (arith, low, small) in
      let rest : (end + 2 ^ 32 - k * cap) % 2 ^ 32 ≡ end - k * cap = omega (arith, low, small) in
      let offset : (leaf_offset + k * cap) % 2 ^ 32 ≡ leaf_offset + k * cap =
        omega (arith, low, fits) in
      let previous : (children + (2 ^ 32 - 1)) % 2 ^ 32 ≡ children - 1 =
        omega (arith, some_child, many) in
      let zero_sub : max_zero_subtraction begin (k * cap) ≡ begin - k * cap = ground arith in
      let within : leb (min cap (end - k * cap)) cap ≡ true = le→leb _ _ (omega arith) in
      rw (run, here, rest, offset, previous, zero_sub, within) refl

  pub traverse_inner-run :
      (subtree : Callbacks S X
        → BlockId
        → ℕ
        → ℕ
        → ℕ
        → Bool
        → Bool
        → Bool
        → State S X
        → Result (State S X))
      (level cap children begin end leaf_offset : ℕ) (left right : Bool) (root : Block)
      (s t : State S X)
      → max_leaves_for_tree_depth block_size level ≡ cap
      → 0 < cap
      → begin < end
      → begin / cap < children
      → num_children root ≡ ok children
      → ceil_division32 end cap ≤ children
      → children ≤ max_children_per_inner_node block_size
      → for_range
          (traverse_child S allocate block_size ceil_log read_only X subtree cb cap children
            (ceil_division32 end cap)
            begin
            end
            leaf_offset
            left
            right
            false
            root)
          (ceil_division32 end cap - begin / cap)
          (begin / cap)
          s
        ≡ ok t
      → cb.on_backtrack_from_subtree root t ≡ ok t
      → traverse_inner S allocate block_size ceil_log read_only X subtree level cb root begin end
          leaf_offset left right false s
        ≡ ok t
  unfolding traverse_inner for_range
  traverse_inner-run subtree level cap children begin end leaf_offset left right root s t most
        positive low begin_in count end_in few loop quiet =
      let ordered : leb begin end ≡ true = le→leb begin end (omega (arith, low)) in
      let some_leaf : ltb 0 cap ≡ true = lt→ltb 0 cap positive in
      let room : leb (ceil_division32 end cap) (max_children_per_inner_node block_size) ≡ true =
        le→leb _ _ (omega (arith, end_in, few)) in
      let in_tree : leb (ceil_division32 end cap) children ≡ true = le→leb _ _ end_in in
      let no_more : ltb children (ceil_division32 end cap) ≡ false = le→ltb _ _ end_in in
      let not_behind : leb children (begin / cap) ≡ false = ground (arith, begin_in) in
      let to_end : min (ceil_division32 end cap) children ≡ ceil_division32 end cap =
        omega (arith, end_in) in
      let none_new : ceil_division32 end cap - children ≡ 0 = omega (arith, end_in) in
      let behind : (left && leb children (begin / cap)) ≡ false = ground (arith, not_behind) in
      let allowed : (not read_only || leb (ceil_division32 end cap) children) ≡ true =
        ground (arith, in_tree) in
      let onward : ltb begin end ≡ true = lt→ltb begin end low in
      rw
        (
          most, ordered, some_leaf, room, count, allowed, behind, to_end, no_more, none_new, loop,
          onward, quiet,
        )
        refl
