-- ===== src/Trees/VisitNodes.antt =====
-- A traversal (LeafTraverser.cpp) of leaves that are all in the tree: inner nodes and whole subtrees.
use libcryfs.Common.{
  ℕ, zero, suc, ◌+◌, ◌-◌, ◌*◌, ◌/◌, ◌^◌, ◌≤◌, ◌<◌, ◌≡◌, ◌∙◌, ap, subst, Bool, true, false, Option,
  some, List, [], ◌++◌, length, length-append, arith,
}
use libcryfs.Common.Equality.{◌==◌, nat_eq}
use libcryfs.Common.Result.{ok}
use libcryfs.Common.Bytes.{Data, BlockId}
use libcryfs.BlockStore.{BlockStore2}
use libcryfs.Nodes.View.{Block, depth, max_children_per_inner_node}
use libcryfs.Nodes.Children.{inner_node, inner_block}
use libcryfs.Trees.Subtree.{State, Callbacks, ceil_division32}
use libcryfs.Trees.Traverse.{traverse_child, traverse_inner, traverse_existing_subtree}
use libcryfs.Trees.Stored.{Leaf, InnerAt, Stored, capacity, Forest-child, length-Forest}
use libcryfs.Trees.Loop.{for_range-keeps}
use libcryfs.Trees.Ranges.{
  begin_child-upper, end_child-upper, capacity-positive, capacity-grows, max_leaves-capacity,
}
use libcryfs.Trees.Visit.{traverse_inner-run}
use libcryfs.Trees.VisitChild.{InnerAt-few, some_child, place, place-end}
use libcryfs.Nodes.Image.{size-image, depth-image}
use libcryfs.Nodes.View.{data_size}
use libcryfs.Nodes.Load.{inner}
use libcryfs.Trees.NodeStore
use libcryfs.Trees.NodeStore.{Store}
use libcryfs.Trees.Ranges.{children-range}
use libcryfs.Trees.VisitLeaves.{Loads, Visits, Quiet, Traverses, traverse-leaf, child-visits}

module _ (S : BlockStore2) (allocate : ℕ → Data) (block_size : ℕ) (room : 40 ≤ block_size)
    (small : block_size < 2 ^ 32) (look : BlockId → Option Data) (ceil_log : ℕ → ℕ → ℕ)
    (read_only : Bool) (X : Type 0) (cb : Callbacks S X) (all : List Leaf)
    (Holds : ℕ → State S X → Type 0) (origin limit : ℕ) where
  module _ (level : ℕ) (fits : length all < 2 ^ 31) where
    node-run :
        (id : BlockId) (begin end n : ℕ) (left right : Bool) (root : Block) (nodes : Store S)
        (s t : State S X)
        → NodeStore.load S allocate block_size id s.nodes ≡ ok (some (inner root), nodes)
        → depth root ≡ ok (suc level)
        → traverse_inner S allocate block_size ceil_log read_only X
            (traverse_existing_subtree S allocate block_size ceil_log read_only X level)
            level
            cb
            root
            begin
            end
            n
            left
            right
            false
            (record s { nodes = nodes })
          ≡ ok t
        → traverse_existing_subtree S allocate block_size ceil_log read_only X
            (suc level)
            cb
            id
            begin
            end
            n
            left
            right
            false
            s
          ≡ ok t
    unfolding traverse_existing_subtree
    node-run id begin end n left right root nodes s t loaded level_ok run =
        let equal : (suc level == suc level) ≡ true = ground arith in
        rw (loaded, level_ok, equal) run

    module _
        (quiet : Quiet S allocate block_size room small look ceil_log read_only X cb all Holds
          origin limit)
        (below : Traverses S allocate block_size room small look ceil_log read_only X cb all Holds
          origin limit level)
        (shallow : level < 10)
        (few : capacity (max_children_per_inner_node block_size) (suc level) < 2 ^ 31)
        (id : BlockId) (leaves pre post : List Leaf) (left right : Bool) (s : State S X)
        (begin end : ℕ)
        (i : InnerAt block_size look
          (Stored block_size (max_children_per_inner_node block_size) look level)
          (capacity (max_children_per_inner_node block_size) level)
          (suc level)
          id
          leaves)
        (split : all ≡ pre ++ (leaves ++ post)) (last : right ≡ true → post ≡ [])
        (low : begin < end) (high : end ≤ length leaves) (after : origin ≤ length pre + begin)
        (in_limit : length pre + end ≤ limit) where
      pub traverse-inner :
          Holds (length pre + begin) s
          → (t : State S X) × (traverse_inner S allocate block_size ceil_log read_only X
                (traverse_existing_subtree S allocate block_size ceil_log read_only X level)
                level
                cb
                (inner_block id i.unused (suc level) i.children i.rest)
                begin
                end
                (length pre)
                left
                right
                false
                s
              ≡ ok t)
            × Holds (length pre + end) t
      unfolding data_size
      traverse-inner holds =
          let fan = max_children_per_inner_node block_size in
          let some_fan : 0 < fan = some_child block_size room small in
          let cap = capacity fan level in
          let positive : 0 < cap = capacity-positive fan level some_fan in
          let small_cap : cap < 2 ^ 31 = omega (arith, capacity-grows fan level some_fan, few) in
          let n = length i.children in
          let root = inner_block id i.unused (suc level) i.children i.rest in
          let n_fan : n ≤ fan = InnerAt-few room small i in
          let total : length all ≡ length pre + (length leaves + length post) =
            ap length split
            ∙ length-append pre (leaves ++ post)
            ∙ ap (λ n. length pre + n) (length-append leaves post) in
          let bits : end + cap ≤ 2 ^ 32 = omega (arith, total, fits, high, small_cap) in
          let (begin_in, end_in, ordered, covers, lower) =
            children-range positive begin end n low (omega (arith, high, length-Forest i.below))
              bits in
          let (t, loop, holds') =
            for_range-keeps (λ k b. Holds (length pre + place begin end (k * cap)) b)
              (traverse_child S allocate block_size ceil_log read_only X
                (traverse_existing_subtree S allocate block_size ceil_log read_only X level) cb cap
                n (ceil_division32 end cap) begin end (length pre) left right false root)
              (ceil_division32 end cap - begin / cap) (begin / cap) s
              (λ k b k_low k_high holds.
                let inside : k < ceil_division32 end cap = omega (arith, k_high, ordered) in
                let k_in : k < n = omega (arith, inside, end_in) in
                child-visits S allocate block_size room small look ceil_log read_only X cb all Holds
                  origin limit level fits below id leaves pre post i.children i.unused i.rest
                  (ceil_division32 end cap) begin end cap left right k b k_in i.ids i.sized
                  (Forest-child positive i.below k k_in) split last low high after in_limit
                  (begin_child-upper positive begin k k_low)
                  (end_child-upper positive end k bits inside) holds)
              (subst (λ m. Holds m s) (omega (arith, low, lower)) holds) in
          (
            t,
            traverse_inner-run S allocate block_size ceil_log read_only X cb
                (traverse_existing_subtree S allocate block_size ceil_log read_only X level) level
                cap n begin end (length pre) left right root s t
                (max_leaves-capacity block_size level (omega (arith, small_cap)) some_fan) positive
                low begin_in
                (size-image id (inner_node i.unused (suc level) i.children i.rest)
                  (omega (arith, n_fan, small)))
                end_in n_fan loop (quiet root t),
            subst (λ m. Holds m t)
                (ap (λ m. length pre + m)
                  (place-end begin end _ low
                    (subst (λ m. end ≤ m * cap) (omega (arith, ordered)) covers)))
                holds',
          )

    traverse-node :
        Loads S allocate block_size room small look ceil_log read_only X cb all Holds origin limit
        → Quiet S allocate block_size room small look ceil_log read_only X cb all Holds origin limit
        → Traverses S allocate block_size room small look ceil_log read_only X cb all Holds origin
            limit level
        → level < 10
        → capacity (max_children_per_inner_node block_size) (suc level) < 2 ^ 31
        → Traverses S allocate block_size room small look ceil_log read_only X cb all Holds origin
            limit
            (suc level)
    unfolding Stored
    traverse-node loads quiet below shallow few id leaves pre post left right s begin end i split
          last low high after in_limit holds =
        let (nodes, loaded, holds1) =
          loads (length pre + begin) s id i.unused (suc level) i.children i.rest i.stored i.sized
            (omega arith) (omega (arith, shallow)) holds in
        let (t, run, holds2) =
          traverse-inner quiet below shallow few id leaves pre post left right
            (record s { nodes = nodes }) begin end i split last low high after in_limit holds1 in
        (
          t,
          node-run id begin end (length pre) left right
              (inner_block id i.unused (suc level) i.children i.rest) nodes s t loaded
              (depth-image id (inner_node i.unused (suc level) i.children i.rest)
                (omega (arith, shallow)))
              run,
          holds2,
        )

  -- A traversal of leaves that are all in the tree.
  pub traverse_existing_subtree-visits :
      Loads S allocate block_size room small look ceil_log read_only X cb all Holds origin limit
      → Visits S allocate block_size room small look ceil_log read_only X cb all Holds origin limit
      → Quiet S allocate block_size room small look ceil_log read_only X cb all Holds origin limit
      → (level : ℕ) → level ≤ 10
      → capacity (max_children_per_inner_node block_size) level < 2 ^ 31
      → length all < 2 ^ 31
      → Traverses S allocate block_size room small look ceil_log read_only X cb all Holds origin
          limit level
  traverse_existing_subtree-visits loads visits quiet zero shallow few fits =
      traverse-leaf S allocate block_size room small look ceil_log read_only X cb all Holds origin
        limit visits
  traverse_existing_subtree-visits loads visits quiet (suc level) shallow few fits =
      traverse-node level fits loads quiet
        (traverse_existing_subtree-visits loads visits quiet level (omega (arith, shallow))
          (omega (
            arith,
            capacity-grows (max_children_per_inner_node block_size) level
                (some_child block_size room small),
            few,
          ))
          fits)
        (omega (arith, shallow)) few
