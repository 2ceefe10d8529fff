-- ===== src/Trees/VisitLeaves.antt =====
-- A traversal (LeafTraverser.cpp) of leaves that are all in the tree calls back for each of them, from
-- left to right: a leaf, and one child of an inner node.
use libcryfs.Common.{
  ℕ, zero, suc, ◌+◌, ◌-◌, ◌*◌, ◌/◌, ◌^◌, ◌≤◌, ◌<◌, ◌≡◌, refl, ◌∙◌, sym, ap, subst, Bool, true,
  false, ◌&&◌, Option, some, List, [], ◌∷◌, ◌++◌, length, length-append, arith, min, append_assoc,
}
use libcryfs.Common.Equality.{◌==◌, nat_eq}
use libcryfs.Common.Result.{ok}
use libcryfs.Common.Bytes.{Data, BlockId}
use libcryfs.BlockStore.{BlockStore2}
use libcryfs.Nodes.View.{Block, max_children_per_inner_node}
use libcryfs.Nodes.Inner.{read_child}
use libcryfs.Nodes.Children.{joined, AreIds, inner_node, inner_block, length-joined}
use libcryfs.Trees.Subtree.{State, Callbacks}
use libcryfs.Trees.Traverse.{traverse_child, traverse_existing_subtree}
use libcryfs.Trees.Stored.{Leaf, LeafAt, Stored, ChildAt}
use libcryfs.Trees.Visit.{traverse_child-run}
use libcryfs.Trees.VisitChild.{place, read_child-at, child_range, last_child-flags}
use libcryfs.Nodes.Image.{image}
use libcryfs.Nodes.Load.{inner}
use libcryfs.Trees.NodeStore
use libcryfs.Trees.NodeStore.{Store}

module _ (S : BlockStore2) (allocate : ℕ → Data) (block_size : ℕ) (room : 40 ≤ block_size)
    (small : block_size < 2 ^ 32) (look : BlockId → Option Data) (ceil_log : ℕ → ℕ → ℕ)
    (read_only : Bool) (X : Type 0) (cb : Callbacks S X) (all : List Leaf)
    (Holds : ℕ → State S X → Type 0) (origin limit : ℕ) where
  -- Where the invariant holds, an inner node can be loaded, and the invariant holds again.
  abbrev pub Loads : Type 0
  Loads =
      (n : ℕ) (s : State S X) (id : BlockId) (unused level : ℕ) (children : List BlockId)
      (rest : Data)
      → look id ≡ some (image (inner_node unused level children rest))
      → length (joined children ++ rest) ≡ block_size - 8
      → 0 < level
      → level ≤ 10
      → Holds n s
      → (nodes : Store S) × (NodeStore.load S allocate block_size id s.nodes
          ≡ ok (some (inner (inner_block id unused level children rest)), nodes))
        × Holds n (record s { nodes = nodes })

  -- The callback for leaf `n` succeeds where the invariant holds for `n` leaves.
  abbrev pub Visits : Type 0
  Visits =
      (pre : List Leaf) (l : Leaf) (post : List Leaf) (right : Bool) (s : State S X)
      → all ≡ pre ++ l ∷ post
      → LeafAt block_size look l.id (l ∷ [])
      → (right ≡ true → post ≡ [])
      → origin ≤ length pre
      → length pre < limit
      → Holds (length pre) s
      → (t : State S X) × (cb.on_existing_leaf (length pre) right l.id s ≡ ok t)
        × Holds (length pre + 1) t

  abbrev pub Quiet : Type 0
  Quiet = (block : Block) (s : State S X) → cb.on_backtrack_from_subtree block s ≡ ok s

  abbrev pub Traverses : ℕ → Type 0
  Traverses level =
      (id : BlockId) (leaves pre post : List Leaf) (left right : Bool) (s : State S X)
      (begin end : ℕ)
      → Stored block_size (max_children_per_inner_node block_size) look level id leaves
      → all ≡ pre ++ (leaves ++ post)
      → (right ≡ true → post ≡ [])
      → begin < end
      → end ≤ length leaves
      → origin ≤ length pre + begin
      → length pre + end ≤ limit
      → Holds (length pre + begin) s
      → (t : State S X) × (traverse_existing_subtree S allocate block_size ceil_log read_only X
            level cb id begin end (length pre) left right false s
          ≡ ok t)
        × Holds (length pre + end) t

  traverse_leaf-run :
      (id : BlockId) (begin end n : ℕ) (left right : Bool) (s t : State S X)
      → begin ≡ 0
      → end ≡ 1
      → cb.on_existing_leaf n right id s ≡ ok t
      → traverse_existing_subtree S allocate block_size ceil_log read_only X zero cb id begin end n
          left right false s
        ≡ ok t
  unfolding traverse_existing_subtree
  traverse_leaf-run id begin end n left right s t first only run = rw (first, only, run) refl

  pub traverse-leaf : Visits → Traverses zero
  unfolding Stored
  traverse-leaf visits id leaves pre post left right s begin end stored split last low high after
        in_limit holds =
      let one : length leaves ≡ 1 = ap length stored.one in
      let first : begin ≡ 0 = omega (arith, low, high, one) in
      let only : end ≡ 1 = omega (arith, low, high, one) in
      let (t, run, holds') =
        visits pre (record { id = id; bytes = stored.bytes }) post right s
          (split ∙ ap (λ l. pre ++ (l ++ post)) stored.one)
          (record {
            unused = stored.unused;
            bytes = stored.bytes;
            padding = stored.padding;
            stored = stored.stored;
            sized = stored.sized;
            one = refl;
          })
          last (omega (arith, after, first)) (omega (arith, in_limit, only))
          (subst (λ n. Holds n s) (omega (arith, first)) holds) in
      (
        t,
        traverse_leaf-run id begin end (length pre) left right s t first only run,
        subst (λ n. Holds (length pre + n) t) (sym only) holds',
      )

  module _ (level : ℕ) (fits : length all < 2 ^ 31) where
    pub child-visits :
        Traverses level
        → (id : BlockId) (leaves pre post : List Leaf) (children : List BlockId) (unused : ℕ)
          (rest : Data) (end_child begin end cap : ℕ) (left right : Bool) (k : ℕ) (s : State S X)
        → k < length children
        → AreIds children
        → length (joined children ++ rest) ≡ block_size - 8
        → ChildAt
            (Stored block_size (max_children_per_inner_node block_size) look level)
            cap
            children
            leaves
            k
        → all ≡ pre ++ (leaves ++ post)
        → (right ≡ true → post ≡ [])
        → begin < end
        → end ≤ length leaves
        → origin ≤ length pre + begin
        → length pre + end ≤ limit
        → begin < k * cap + cap
        → k * cap < end
        → Holds (length pre + place begin end (k * cap)) s
        → (t : State S X) × (traverse_child S allocate block_size ceil_log read_only X
              (traverse_existing_subtree S allocate block_size ceil_log read_only X level)
              cb
              cap
              (length children)
              end_child
              begin
              end
              (length pre)
              left
              right
              false
              (inner_block id unused (suc level) children rest)
              k
              s
            ≡ ok t)
          × Holds (length pre + place begin end ((k + 1) * cap)) t
    child-visits below id leaves pre post children unused rest end_child begin end cap left right k
          s within ids sized c split last low high after in_limit from to holds =
        let total : length all ≡ length pre + (length leaves + length post) =
          ap length split
          ∙ length-append pre (leaves ++ post)
          ∙ ap (λ n. length pre + n) (length-append leaves post) in
        let inside : length leaves ≡ k * cap + (length c.part + length c.after) =
          ap length c.leaves_split
          ∙ length-append c.before (c.part ++ c.after)
          ∙ omega (arith, c.in_front, length-append c.part c.after) in
        let offset = length-append pre c.before in
        let regroup : all ≡ (pre ++ c.before) ++ (c.part ++ (c.after ++ post)) =
          split
          ∙ ap (λ l. pre ++ (l ++ post)) c.leaves_split
          ∙ ap (λ l. pre ++ l)
              (append_assoc c.before (c.part ++ c.after) post
                ∙ ap (λ l. c.before ++ l) (append_assoc c.part c.after post))
          ∙ sym (append_assoc pre c.before (c.part ++ (c.after ++ post))) in
        let reading : read_child k (inner_block id unused (suc level) children rest) ≡ ok c.child =
          read_child-at id unused (suc level) k children c.pre c.post c.child rest c.split
            c.position ids (omega (arith, sized, small)) in
        let reach : min cap (end - k * cap) ≤ length c.part =
          child_range (length children) k (length c.part) (length c.after) cap (length leaves) end
            within c.full (λ h. ap length (c.at_end h)) inside high in
        let (t, run, holds') =
          below c.child c.part (pre ++ c.before) (c.after ++ post) (left && (k == begin / cap))
            (right && ((k == length children - 1) && (length children == end_child))) s
            (begin - k * cap) (min cap (end - k * cap)) c.holds regroup
            (λ h.
              let (r, e) =
                last_child-flags right k (length children) end_child (omega (arith, within)) h in
              rw (c.at_end e, last r) refl)
            (omega (arith, from, to, low)) reach (omega (arith, offset, c.in_front, after))
            (omega (arith, offset, c.in_front, in_limit, to))
            (subst (λ n. Holds n s) (omega (arith, offset, c.in_front, to, from, low)) holds) in
        (
          t,
          traverse_child-run S allocate block_size ceil_log read_only X cb
                (traverse_existing_subtree S allocate block_size ceil_log read_only X level) cap
                (length children) end_child begin end (length pre) left right _ k c.child s reading
                to (omega (arith, high, total, fits)) (omega (arith, high, total, fits))
                (omega (arith, within))
                (omega (
                  arith,
                  length-joined children ids,
                  length-append (joined children) rest,
                  sized,
                  small,
                ))
              ∙ subst
                  (λ n.
                    traverse_existing_subtree S allocate block_size ceil_log read_only X level cb
                      c.child (begin - k * cap) (min cap (end - k * cap)) n
                      (left && (k == begin / cap))
                      (right && ((k == length children - 1) && (length children == end_child)))
                      false s
                    ≡ ok t)
                  (omega (arith, offset, c.in_front)) run,
          subst (λ n. Holds n t) (omega (arith, offset, c.in_front, to, from, low)) holds',
        )
