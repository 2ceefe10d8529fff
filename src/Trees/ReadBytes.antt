-- ===== src/Trees/ReadBytes.antt =====
-- Reads of the bytes of a tree (DataTree.cpp).
use native.Mathlib.Nat.{mul-le-mul_right, div-mul-le_self}
use libcryfs.Common.{
  ℕ, zero, suc, ◌+◌, ◌-◌, ◌*◌, ◌/◌, ◌%◌, ◌^◌, ◌≤◌, ◌<◌, ◌≡◌, refl, ◌∙◌, ap, true, false, Option,
  List, length, arith, leb,
}
use libcryfs.Common.Equality.{◌==◌, nat_eq}
use libcryfs.Common.Result.{ok}
use libcryfs.Common.Bytes.{Data, BlockId}
use libcryfs.Common.Memory.{add64}
use libcryfs.BlockStore.{BlockStore2, IsLawful}
use libcryfs.Nodes.View.{max_bytes_per_leaf, data_size}
use libcryfs.Trees.NodeStore.{Store}
use libcryfs.Trees.Subtree.{State}
use libcryfs.Trees.Root
use libcryfs.Trees.DataTree
use libcryfs.Trees.DataTree.{DataTree, ceil_division64, growth_rounds}
use libcryfs.Trees.Bytes
use libcryfs.Trees.Bytes.{Growing, real_count, read_callbacks, do_read_bytes}
use libcryfs.Trees.Stored.{Leaf}
use libcryfs.Trees.Content.{content, length-content_most}
use libcryfs.Trees.Loading.{Same}
use libcryfs.Trees.Ranges.{
  begin_child-upper, begin_child-below, ceil-below, ceil-upper, ceil-covers, ceil_division64-eq,
}
use libcryfs.Trees.VisitTree.{traverse_and_update_root-visits}
use libcryfs.Trees.Target.{progress, target_at}
use libcryfs.Trees.Read.{read-Visits}
use libcryfs.Trees.Reading.{reading, Reading, read-Loads, read-LoadsLeaf}
use libcryfs.Trees.Tree.{IsTree, IsTree-fits, Returns}

abbrev pub first_of : ℕ → ℕ → ℕ
first_of most offset = (offset / most) % 2 ^ 32

abbrev pub end_of : ℕ → ℕ → ℕ → ℕ
end_of most offset count = ceil_division64 (add64 offset count) most % 2 ^ 32

-- The range of leaves of a range of bytes.
pub record LeafRange (most offset count leaves first_leaf end_leaf : ℕ) : Type 0 where
  pub begins : first_leaf ≡ offset / most
  pub not_empty : first_leaf < end_leaf
  pub in_tree : end_leaf ≤ leaves
  pub before : first_leaf * most ≤ offset
  pub covers : offset + count ≤ end_leaf * most
  pub upper : (n : ℕ) → n < end_leaf → n * most < offset + count

pub end_of-LeafRange :
    (most offset count leaves : ℕ)
    → 0 < most
    → most < 2 ^ 32
    → 0 < count
    → offset + count ≤ leaves * most
    → leaves < 2 ^ 31
    → LeafRange most offset count leaves (first_of most offset) (end_of most offset count)
end_of-LeafRange most offset count leaves positive narrow some_byte inside fits =
    let wide = mul-le-mul_right {m = leaves} {n = 2 ^ 31} most (omega (arith, fits)) in
    let end_is : add64 offset count ≡ offset + count = omega (arith, wide, inside, narrow) in
    let ceil : ceil_division64 (add64 offset count) most ≡ (offset + count + most - 1) / most =
      ap (λ e. ceil_division64 e most) end_is
      ∙ ceil_division64-eq positive (offset + count) (omega (arith, wide, inside, narrow)) in
    let in_tree = ceil-below positive (offset + count) leaves inside in
    let covers = ceil-covers positive (offset + count) in
    let low = begin_child-below positive offset leaves (omega (arith, inside, some_byte)) in
    let first : (offset / most) % 2 ^ 32 ≡ offset / most = omega (arith, low, fits) in
    let last : ceil_division64 (add64 offset count) most % 2 ^ 32
        ≡ (offset + count + most - 1) / most =
      omega (arith, ceil, in_tree, fits) in
    rw (first, last)
      (record {
        begins = refl;
        not_empty = begin_child-below positive offset _ (omega (arith, covers, some_byte));
        in_tree = in_tree;
        before = div-mul-le_self offset most;
        covers = covers;
        upper = λ n h. ceil-upper positive (offset + count) n h;
      })

pub not_back : (a b : ℕ) → a < b → leb b a ≡ false
not_back a b low = ground (arith, low)

module _ (S : BlockStore2) (allocate : ℕ → Data) (block_size : ℕ) (ceil_log : ℕ → ℕ → ℕ) where
  do_read_bytes-run :
      (t : DataTree) (target : Data) (offset count : ℕ) (nodes : Store S)
      (s' : State S (Growing Data))
      → 0 < count
      → first_of (max_bytes_per_leaf block_size) offset
        < end_of (max_bytes_per_leaf block_size) offset count
      → Root.traverse_and_update_root S allocate block_size ceil_log true
          (Growing Data)
          growth_rounds
          t.root_id
          (reading S allocate block_size ceil_log offset count
            (first_of (max_bytes_per_leaf block_size) offset)
            (add64 offset count)
            (end_of (max_bytes_per_leaf block_size) offset count))
          (first_of (max_bytes_per_leaf block_size) offset)
          (end_of (max_bytes_per_leaf block_size) offset count)
          true
          (record { own = record { user = target; growing = false }; nodes = nodes })
        ≡ ok s'
      → s'.own.growing ≡ false
      → do_read_bytes S allocate block_size ceil_log t target offset count nodes
        ≡ ok (s'.own.user, t, s'.nodes)
  unfolding do_read_bytes Bytes.traverse_leaves_by_byte_indices
      DataTree.traverse_leaves_by_leaf_indices
  do_read_bytes-run t target offset count nodes s' some_byte low run still =
      let some_count : (count == 0) ≡ false = ground (arith, some_byte) in
      let onward : leb (end_of (max_bytes_per_leaf block_size) offset count)
            (first_of (max_bytes_per_leaf block_size) offset)
          ≡ false =
        not_back _ _ low in
      rw
        (
          some_count, onward, run, still, do_read_bytes, Bytes.traverse_leaves_by_byte_indices,
          DataTree.traverse_leaves_by_leaf_indices,
        )
        refl

  do_read_bytes-none :
      (t : DataTree) (target : Data) (offset : ℕ) (nodes : Store S)
      → do_read_bytes S allocate block_size ceil_log t target offset 0 nodes ≡ ok (target, t, nodes)
  unfolding do_read_bytes Bytes.traverse_leaves_by_byte_indices
  do_read_bytes-none t target offset nodes = refl

module _ {S : BlockStore2} {contents : S.State → BlockId → Option Data} (L : IsLawful S contents)
    (allocate : ℕ → Data) (block_size : ℕ) (room : 40 ≤ block_size) (small : block_size < 2 ^ 32)
    (look : BlockId → Option Data) (ceil_log : ℕ → ℕ → ℕ) (level : ℕ) (all : List Leaf) where
  pub target-Returns :
      (t : DataTree) (target : Data) (offset count : ℕ) (nodes : Store S)
      → IsTree block_size look level t all
      → Same L allocate block_size room small look nodes
      → (0 < count → offset + count ≤ length (content all))
      → count ≤ length target
      → Returns L allocate block_size room small look ceil_log level all
          (target_at (content all) target offset count)
          (do_read_bytes S allocate block_size ceil_log t target offset count nodes)
  unfolding data_size
  target-Returns t target offset zero nodes tree same inside long = (
    t,
    nodes,
    do_read_bytes-none S allocate block_size ceil_log t target offset nodes,
    tree,
    same,
  )
  target-Returns t target offset (suc count) nodes tree same within long =
      let inside = within (omega arith) in
      let most = max_bytes_per_leaf block_size in
      let first = first_of most offset in
      let end = end_of most offset (suc count) in
      let positive : 0 < most = omega (arith, room, small) in
      let fits = IsTree-fits room small tree in
      let bounded = length-content_most most all tree.filled in
      let wide = mul-le-mul_right {m = length all} {n = 2 ^ 31} most (omega (arith, fits)) in
      let end_is : add64 offset (suc count) ≡ offset + suc count =
        omega (arith, wide, inside, bounded) in
      let r =
        end_of-LeafRange most offset (suc count) (length all) positive (omega arith) (omega arith)
          (omega (arith, inside, bounded)) fits in
      let visits =
        read-Visits L allocate block_size room small look ceil_log all target offset (suc count)
          first (add64 offset (suc count)) end tree.filled end_is (omega (arith, end_is, inside))
          long (omega arith)
          (λ n h. begin_child-upper positive offset n (omega (arith, h, r.begins)))
          (λ n h. omega (arith, end_is, r.upper n h)) r.in_tree fits in
      let start : 0 ≡ progress most offset (suc count) first = omega (arith, r.before) in
      let finish : progress most offset (suc count) end ≡ suc count = omega (arith, r.covers) in
      let (s, run, filled) =
        traverse_and_update_root-visits S allocate block_size room small look ceil_log true
          (Growing Data)
          (reading S allocate block_size ceil_log offset (suc count) first
            (add64 offset (suc count)) end)
          all (Reading L allocate block_size room small look ceil_log all target offset (suc count))
          first end
          (read-Loads L allocate block_size room small look ceil_log all target offset (suc count)
            first (add64 offset (suc count)) end)
          (read-LoadsLeaf L allocate block_size room small look ceil_log all target offset
            (suc count) first (add64 offset (suc count)) end)
          visits (λ block s. refl) level t.root_id 32 first end
          (record { own = record { user = target; growing = false }; nodes = nodes }) tree.shallow
          tree.few tree.stored tree.trimmed r.not_empty r.in_tree (omega arith) (omega arith)
          (same, (ap (target_at (content all) target offset) start, refl)) in
      (
        t,
        s.nodes,
        do_read_bytes-run S allocate block_size ceil_log t target offset (suc count) nodes s
              (omega arith) r.not_empty run filled.1.1
            ∙ ap (λ u. ok (u, t, s.nodes)) filled.1.0
            ∙ ap (λ n. ok (target_at (content all) target offset n, t, s.nodes)) finish,
        tree,
        filled.0,
      )
