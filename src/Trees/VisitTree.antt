-- ===== src/Trees/VisitTree.antt =====
-- `traverseAndUpdateRoot` (LeafTraverser.cpp) over leaves that are all in the tree.
use native.Mathlib.Nat.{mul-le-mul_right}
use libcryfs.Common.{
  ℕ, zero, suc, ◌+◌, ◌-◌, ◌^◌, ◌≤◌, ◌<◌, ◌≡◌, refl, sym, ap, subst, Bool, true, Option, some, List,
  [], length, arith, append-nil,
}
use libcryfs.Common.Equality.{nat_eq}
use libcryfs.Common.Result.{ok}
use libcryfs.Common.Bytes.{Data, BlockId}
use libcryfs.BlockStore.{BlockStore2}
use libcryfs.Nodes.View.{max_children_per_inner_node}
use libcryfs.Nodes.LeafRuns.{leaf_node, leaf_block}
use libcryfs.Nodes.Children.{inner_node, inner_block}
use libcryfs.Trees.NodeStore
use libcryfs.Trees.NodeStore.{Store}
use libcryfs.Nodes.Image.{size-image, depth-image}
use libcryfs.Nodes.Load.{leaf, inner}
use libcryfs.Trees.Subtree.{State, Callbacks}
use libcryfs.Trees.Root.{traverse_and_update_root}
use libcryfs.Trees.Stored.{Leaf, LeafAt, InnerAt, Stored, IsTrimmed, capacity, length-Forest}
use libcryfs.Trees.Ranges.{capacity-grows, max_leaves-capacity}
use libcryfs.Trees.VisitChild.{InnerAt-few, InnerAt-count, some_child}
use libcryfs.Trees.VisitLeaves.{Visits, Quiet, Loads}
use libcryfs.Trees.VisitNodes.{traverse-inner, traverse_existing_subtree-visits}
use libcryfs.Trees.VisitRuns.{
  load_existing-run, traverse_and_update_root-run, replace_root-leaf, replace_root-inner,
  traverse_root-inner, traverse_root-leaf, size-leaf_block, several_children,
}

module _ (S : BlockStore2) (allocate : ℕ → Data) (block_size : ℕ) (room : 40 ≤ block_size)
    (small : block_size < 2 ^ 32) (look : BlockId → Option Data) (ceil_log : ℕ → ℕ → ℕ)
    (read_only : Bool) (X : Type 0) (cb : Callbacks S X) (all : List Leaf)
    (Holds : ℕ → State S X → Type 0) (origin limit : ℕ) where
  -- Where the invariant holds, a leaf that is the root can be loaded, whatever bytes it has by then.
  abbrev pub LoadsLeaf : Type 0
  LoadsLeaf =
      (n : ℕ) (s : State S X) (id : BlockId)
      → LeafAt block_size look id all
      → Holds n s
      → (unused : ℕ) × (bytes : Data) × (padding : ℕ) × (nodes : Store S) × (length bytes + padding
          ≡ block_size - 8)
        × (NodeStore.load S allocate block_size id s.nodes
            ≡ ok (some (leaf (leaf_block id unused bytes padding)), nodes))
        × Holds n (record s { nodes = nodes })

  module _
      (loads : Loads S allocate block_size room small look ceil_log read_only X cb all Holds origin
        limit)
      (loads_leaf : LoadsLeaf)
      (visits : Visits S allocate block_size room small look ceil_log read_only X cb all Holds
        origin limit)
      (quiet : Quiet S allocate block_size room small look ceil_log read_only X cb all Holds origin
        limit) where
    leaf_root-visits :
        (root_id : BlockId) (rounds begin end : ℕ) (s : State S X)
        → LeafAt block_size look root_id all
        → begin < end
        → end ≤ length all
        → origin ≤ begin
        → end ≤ limit
        → Holds begin s
        → (t : State S X) × (traverse_and_update_root S allocate block_size ceil_log read_only X
              (suc rounds)
              root_id
              cb
              begin
              end
              true
              s
            ≡ ok t)
          × Holds end t
    leaf_root-visits root_id rounds begin end s l low high after in_limit holds =
        let one : length all ≡ 1 = ap length l.one in
        let first : begin ≡ 0 = omega (arith, low, high, one) in
        let only : end ≡ 1 = omega (arith, low, high, one) in
        let (unused, bytes, padding, nodes, sized, loaded, holds1) =
          loads_leaf begin s root_id l holds in
        let block = leaf_block root_id unused bytes padding in
        let s1 : State S X = record s { nodes = nodes } in
        let (t, run, holds2) =
          visits [] (record { id = root_id; bytes = l.bytes }) [] true s1 l.one
            (record {
              unused = l.unused;
              bytes = l.bytes;
              padding = l.padding;
              stored = l.stored;
              sized = l.sized;
              one = refl;
            })
            (λ h. refl) (omega (arith, after, first)) (omega (arith, in_limit, only))
            (subst (λ n. Holds n s1) first holds1) in
        let (unused', bytes', padding', nodes', sized', loaded', holds3) =
          loads_leaf 1 t root_id l holds2 in
        (
          record t { nodes = nodes' },
          traverse_and_update_root-run S allocate block_size ceil_log read_only X cb rounds root_id
              begin end 0 1 (leaf block) s s1 t (record t { nodes = nodes' })
              (load_existing-run S allocate block_size ceil_log read_only X cb root_id s
                (leaf block) nodes loaded)
              (depth-image root_id (leaf_node unused bytes padding) (omega arith))
              (max_leaves-capacity block_size 0 (omega arith) (some_child block_size room small))
              (omega (arith, low)) (omega (arith, only))
              (traverse_root-leaf S allocate block_size ceil_log read_only X cb block (length bytes)
                begin end 1 s1 t
                (size-leaf_block root_id unused bytes padding (omega (arith, sized, small))) first
                only run)
              (replace_root-leaf S allocate block_size ceil_log read_only X cb root_id t
                (record t { nodes = nodes' }) (leaf_block root_id unused' bytes' padding')
                (load_existing-run S allocate block_size ceil_log read_only X cb root_id t
                  (leaf (leaf_block root_id unused' bytes' padding')) nodes' loaded')),
          subst (λ n. Holds n (record t { nodes = nodes' })) (sym only) holds3,
        )

    inner_root-visits :
        (level : ℕ) (root_id : BlockId) (rounds begin end : ℕ) (s : State S X)
        → level < 10
        → capacity (max_children_per_inner_node block_size) (suc level) < 2 ^ 31
        → InnerAt block_size look
            (Stored block_size (max_children_per_inner_node block_size) look level)
            (capacity (max_children_per_inner_node block_size) level)
            (suc level)
            root_id
            all
        → capacity (max_children_per_inner_node block_size) level < length all
        → begin < end
        → end ≤ length all
        → origin ≤ begin
        → end ≤ limit
        → Holds begin s
        → (t : State S X) × (traverse_and_update_root S allocate block_size ceil_log read_only X
              (suc rounds)
              root_id
              cb
              begin
              end
              true
              s
            ≡ ok t)
          × Holds end t
    inner_root-visits level root_id rounds begin end s shallow few i trimmed low high after in_limit
          holds =
        let fan = max_children_per_inner_node block_size in
        let cap = capacity fan level in
        let n = length i.children in
        let block = inner_block root_id i.unused (suc level) i.children i.rest in
        let n_fan : n ≤ fan = InnerAt-few room small i in
        let (total, least) = length-Forest i.below in
        let several : 1 < n = several_children n cap (length all) total trimmed in
        let most : length all ≤ capacity fan (suc level) =
          omega (arith, total, mul-le-mul_right cap n_fan) in
        let (nodes, loaded, holds1) =
          loads begin s root_id i.unused (suc level) i.children i.rest i.stored i.sized
            (omega arith) (omega (arith, shallow)) holds in
        let s1 : State S X = record s { nodes = nodes } in
        let fits : length all < 2 ^ 31 = omega (arith, most, few) in
        let below =
          traverse_existing_subtree-visits S allocate block_size room small look ceil_log read_only
            X cb all Holds origin limit loads visits quiet level (omega (arith, shallow))
            (omega (arith, few, capacity-grows fan level (some_child block_size room small)))
            fits in
        let (t, run, holds2) =
          traverse-inner S allocate block_size room small look ceil_log read_only X cb all Holds
            origin limit level fits quiet below shallow few root_id all [] [] true true s1 begin end
            i (sym (append-nil all)) (λ h. refl) low high (omega (arith, after))
            (omega (arith, in_limit)) (subst (λ m. Holds m s1) (omega arith) holds1) in
        let (nodes', loaded', holds3) =
          loads end t root_id i.unused (suc level) i.children i.rest i.stored i.sized (omega arith)
            (omega (arith, shallow)) (subst (λ m. Holds m t) (omega arith) holds2) in
        let level_ok =
          depth-image root_id (inner_node i.unused (suc level) i.children i.rest)
            (omega (arith, shallow)) in
        (
          record t { nodes = nodes' },
          traverse_and_update_root-run S allocate block_size ceil_log read_only X cb rounds root_id
              begin end (suc level) (capacity fan (suc level)) (inner block) s s1 t
              (record t { nodes = nodes' })
              (load_existing-run S allocate block_size ceil_log read_only X cb root_id s
                (inner block) nodes loaded)
              level_ok
              (max_leaves-capacity block_size (suc level) (omega (arith, few))
                (some_child block_size room small))
              (omega (arith, low)) (omega (arith, high, most))
              (traverse_root-inner S allocate block_size ceil_log read_only X cb block begin end
                level (capacity fan (suc level)) s1 t level_ok (omega (arith, low))
                (omega (arith, high, most)) run)
              (replace_root-inner S allocate block_size ceil_log read_only X cb root_id t
                (record t { nodes = nodes' }) block n
                (load_existing-run S allocate block_size ceil_log read_only X cb root_id t
                  (inner block) nodes' loaded')
                (size-image root_id (inner_node i.unused (suc level) i.children i.rest)
                  (InnerAt-count small i))
                (omega (arith, several))),
          holds3,
        )

    pub traverse_and_update_root-visits :
        (level : ℕ) (root_id : BlockId) (rounds begin end : ℕ) (s : State S X)
        → level ≤ 10
        → capacity (max_children_per_inner_node block_size) level < 2 ^ 31
        → Stored block_size (max_children_per_inner_node block_size) look level root_id all
        → IsTrimmed (max_children_per_inner_node block_size) level (length all)
        → begin < end
        → end ≤ length all
        → origin ≤ begin
        → end ≤ limit
        → Holds begin s
        → (t : State S X) × (traverse_and_update_root S allocate block_size ceil_log read_only X
              (suc rounds)
              root_id
              cb
              begin
              end
              true
              s
            ≡ ok t)
          × Holds end t
    unfolding Stored
    traverse_and_update_root-visits zero root_id rounds begin end s shallow few stored trimmed low
          high after in_limit holds =
        leaf_root-visits root_id rounds begin end s stored low high after in_limit holds
    traverse_and_update_root-visits (suc level) root_id rounds begin end s shallow few stored
          trimmed low high after in_limit holds =
        inner_root-visits level root_id rounds begin end s (omega (arith, shallow)) few stored
          trimmed low high after in_limit holds
