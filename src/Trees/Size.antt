-- ===== src/Trees/Size.antt =====
-- `_computeSizeCache` and `_getOrComputeSizeCache` (DataTree.cpp) return the number of leaves and of bytes.
use native.Mathlib.Nat.{mul-le-mul_right}
use libcryfs.Common.{
  ℕ, zero, suc, ◌+◌, ◌-◌, ◌*◌, ◌^◌, ◌≤◌, ◌<◌, ◌≡◌, ◌∙◌, sym, ap, subst, Option, some, List, [],
  length, length-append, arith, append-nil,
}
use libcryfs.Common.Result.{ok}
use libcryfs.Common.Bytes.{Data, BlockId}
use libcryfs.BlockStore.{BlockStore2, IsLawful}
use libcryfs.Nodes.View.{max_children_per_inner_node, max_bytes_per_leaf, data_size}
use libcryfs.Nodes.LeafRuns.{leaf_node, leaf_block}
use libcryfs.Nodes.Children.{inner_node, inner_block}
use libcryfs.Nodes.Image.{size-image, depth-image}
use libcryfs.Nodes.Load.{DataNode, leaf, inner}
use libcryfs.Trees.NodeStore
use libcryfs.Trees.NodeStore.{Store}
use libcryfs.Trees.DataTree.{compute_size_cache}
use libcryfs.Trees.Stored.{Leaf, Stored, capacity, Forest-some_child, length-Forest}
use libcryfs.Trees.Content.{content, Filled, content-append, Filled-front, length-content_most}
use libcryfs.Trees.Loading.{Same, load_inner-Same, load_leaf-Same}
use libcryfs.Trees.Ranges.{capacity-grows, capacity-positive, int_pow-capacity}
use libcryfs.Trees.VisitChild.{InnerAt-few, InnerAt-count, some_child, read_child-at}
use libcryfs.Trees.SizeRuns.{
  size_of, size_of-eq, read_last_child-run, leaves_per_full_child-run, compute_size_cache-leaf,
  compute_size_cache-inner, Forest-LastChild,
}

module _ {S : BlockStore2} {contents : S.State → BlockId → Option Data} (L : IsLawful S contents)
    (allocate : ℕ → Data) (block_size : ℕ) (room : 40 ≤ block_size) (small : block_size < 2 ^ 32)
    (look : BlockId → Option Data) (ceil_log : ℕ → ℕ → ℕ) where
  -- The node of a subtree is there, and its size is computed.
  abbrev pub Measures : ℕ → Type 0
  Measures level =
      (id : BlockId) (leaves : List Leaf) (rounds : ℕ) (s : Store S)
      → Stored block_size (max_children_per_inner_node block_size) look level id leaves
      → Filled (max_bytes_per_leaf block_size) leaves
      → level ≤ rounds
      → Same L allocate block_size room small look s
      → (node : DataNode) × (s1 : Store S) × (s2 : Store S) × (NodeStore.load S allocate block_size
            id s
          ≡ ok (some node, s1))
        × (compute_size_cache S allocate block_size ceil_log rounds node s1
            ≡ ok (size_of leaves, s2))
        × Same L allocate block_size room small look s2

  Measures-leaf : Measures zero
  unfolding Stored
  Measures-leaf id leaves rounds s l filled enough same =
      let (t, loaded, same') =
        load_leaf-Same L allocate block_size room small look id s l.unused l.bytes l.padding same
          l.stored l.sized in
      (
        leaf (leaf_block id l.unused l.bytes l.padding),
        t,
        t,
        loaded,
        compute_size_cache-leaf S allocate block_size ceil_log rounds (length l.bytes) _ t
              (size-image id (leaf_node l.unused l.bytes l.padding) (omega (arith, l.sized, small)))
            ∙ ap (λ b. ok (record { num_leaves = 1; num_bytes = length b }, t))
                (sym (append-nil l.bytes))
            ∙ ap (λ a. ok (size_of a, t)) (sym l.one),
        same',
      )

  Measures-inner :
      (level : ℕ)
      → level < 10
      → capacity (max_children_per_inner_node block_size) (suc level) < 2 ^ 31
      → Measures level
      → Measures (suc level)
  unfolding Stored data_size
  Measures-inner level shallow few below id leaves zero s i filled enough same =
      absurd (omega (arith, enough))
  Measures-inner level shallow few below id leaves (suc rounds) s i filled enough same =
      let fan = max_children_per_inner_node block_size in
      let most = max_bytes_per_leaf block_size in
      let cap = capacity fan level in
      let n = length i.children in
      let root = inner_block id i.unused (suc level) i.children i.rest in
      let some_fan : 0 < fan = some_child block_size room small in
      let positive : 0 < cap = capacity-positive fan level some_fan in
      let c = Forest-LastChild positive i.below in
      let (nodes, loaded, same1) =
        load_inner-Same L allocate block_size room small look id s i.unused (suc level) i.children
          i.rest same i.stored i.sized (omega arith) (omega (arith, shallow)) in
      let (front, back) =
        Filled-front most c.before c.part (subst (Filled most) c.leaves_split filled) c.some_leaf in
      let (node, s1, s2, loaded_child, size_ok, same2) =
        below c.child c.part rounds nodes c.holds back (omega (arith, enough)) same1 in
      let some_children = Forest-some_child i.below in
      let small_cap : cap < 2 ^ 31 = omega (arith, capacity-grows fan level some_fan, few) in
      let number : length leaves ≡ (n - 1) * cap + length c.part =
        ap length c.leaves_split
        ∙ length-append c.before c.part
        ∙ ap (λ m. m + length c.part) c.in_front in
      let bytes : length (content leaves) ≡ (n - 1) * cap * most + length (content c.part) =
        ap (λ l. length (content l)) c.leaves_split
        ∙ ap length (content-append c.before c.part)
        ∙ length-append (content c.before) (content c.part)
        ∙ ap (λ m. m + length (content c.part)) (front ∙ ap (λ m. m * most) c.in_front) in
      let in_cap : length leaves < 2 ^ 31 =
        omega (
          arith,
          (length-Forest i.below).0,
          mul-le-mul_right cap (InnerAt-few room small i),
          few,
        ) in
      let bounded =
        mul-le-mul_right {m = length leaves} {n = 2 ^ 31} most (omega (arith, in_cap)) in
      (
        inner root,
        nodes,
        s2,
        loaded,
        compute_size_cache-inner S allocate block_size ceil_log rounds n cap root c.child node
              (length c.part) (length (content c.part)) nodes s1 s2
              (size-image id (inner_node i.unused (suc level) i.children i.rest)
                (InnerAt-count small i))
              (leaves_per_full_child-run S allocate block_size ceil_log root level cap
                (depth-image id (inner_node i.unused (suc level) i.children i.rest)
                  (omega (arith, shallow)))
                shallow (int_pow-capacity fan level (omega (arith, small_cap)) some_fan) small_cap)
              (read_last_child-run root n c.child
                (size-image id (inner_node i.unused (suc level) i.children i.rest)
                  (InnerAt-count small i))
                some_children (InnerAt-count small i)
                (read_child-at id i.unused (suc level) (n - 1) i.children c.pre [] c.child i.rest
                  c.split c.position i.ids (omega (arith, i.sized, small))))
              loaded_child size_ok some_children (InnerAt-count small i)
              (omega (arith, number, in_cap))
              (omega (arith, bytes, bounded, length-content_most most leaves filled))
            ∙ ap (λ c. ok (c, s2)) (size_of-eq _ _ leaves (sym number) (sym bytes)),
        same2,
      )

  pub Measures-level :
      (level : ℕ)
      → level ≤ 10
      → capacity (max_children_per_inner_node block_size) level < 2 ^ 31
      → Measures level
  Measures-level zero shallow few = Measures-leaf
  Measures-level (suc level) shallow few = Measures-inner level (omega (arith, shallow)) few (
      Measures-level level (omega (arith, shallow)) (
        omega (
          arith,
          few,
          capacity-grows (max_children_per_inner_node block_size) level
              (some_child block_size room small),
        )))
