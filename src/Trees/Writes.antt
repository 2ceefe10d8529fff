-- ===== src/Trees/Writes.antt =====
-- `writeBytes` (DataTree.cpp) inside of the bytes of a tree.
use native.Mathlib.Nat.{mul-le-mul_right}
use libcryfs.Common.{
  ℕ, ◌+◌, ◌^◌, ◌≤◌, ◌<◌, ◌≡◌, refl, ◌∙◌, sym, ap, subst, true, false, Option, List, [], ◌∷◌, length,
  take, drop, ◌++◌, length-take, drop-append, take-append, arith, leb,
}
use libcryfs.Common.Equality.{◌==◌, nat_eq}
use libcryfs.Common.Result.{ok}
use libcryfs.Common.Bytes.{Data, BlockId}
use libcryfs.Common.Memory.{add64, replaced}
use libcryfs.BlockStore.{BlockStore2, IsLawful}
use libcryfs.Nodes.View.{max_bytes_per_leaf, data_size}
use libcryfs.Nodes.LeafRuns.{length-replaced}
use libcryfs.Trees.NodeStore.{Store}
use libcryfs.Trees.Subtree.{State}
use libcryfs.Trees.Root
use libcryfs.Trees.DataTree
use libcryfs.Trees.DataTree.{DataTree, growth_rounds}
use libcryfs.Trees.Bytes
use libcryfs.Trees.Bytes.{Growing, read_bytes, write_bytes}
use libcryfs.Trees.Stored.{Leaf}
use libcryfs.Trees.Content.{content, length-content_most}
use libcryfs.Trees.Loading.{Same}
use libcryfs.Trees.Ranges.{begin_child-upper}
use libcryfs.Trees.VisitTree.{traverse_and_update_root-visits}
use libcryfs.Trees.Tree.{IsTree, IsTree-fits}
use libcryfs.Trees.ReadBytes.{first_of, end_of, end_of-LeafRange, not_back}
use libcryfs.Trees.Reads.{read_bytes-eq}
use libcryfs.Trees.Renewed.{replaced-none}
use libcryfs.Trees.StoredRenewed.{Distinct}
use libcryfs.Trees.Written.{Written-start}
use libcryfs.Trees.WriteVisits.{write-Visits}
use libcryfs.Trees.Writing.{writing, Writing, write-Loads, write-LoadsLeaf}
use libcryfs.Trees.Wrote.{Wrote, Written-Wrote}

module _ (S : BlockStore2) (allocate : ℕ → Data) (block_size : ℕ) (ceil_log : ℕ → ℕ → ℕ) where
  write_bytes-run :
      (t : DataTree) (source : Data) (offset : ℕ) (nodes : Store S)
      (s' : State S (Growing (Unit {0})))
      → 0 < length source
      → first_of (max_bytes_per_leaf block_size) offset
        < end_of (max_bytes_per_leaf block_size) offset (length source)
      → add64 offset (length source) ≡ offset + length source
      → Root.traverse_and_update_root S allocate block_size ceil_log false
          (Growing (Unit {0}))
          growth_rounds
          t.root_id
          (writing S allocate block_size ceil_log source offset
            (first_of (max_bytes_per_leaf block_size) offset)
            (offset + length source)
            (end_of (max_bytes_per_leaf block_size) offset (length source)))
          (first_of (max_bytes_per_leaf block_size) offset)
          (end_of (max_bytes_per_leaf block_size) offset (length source))
          true
          (record { own = record { user = tt; growing = false }; nodes = nodes })
        ≡ ok s'
      → s'.own.growing ≡ false
      → write_bytes S allocate block_size ceil_log t source offset nodes ≡ ok (t, s'.nodes)
  unfolding write_bytes Bytes.traverse_leaves_by_byte_indices
      DataTree.traverse_leaves_by_leaf_indices
  write_bytes-run t source offset nodes s' some_byte low exact run still =
      let some_count : (length source == 0) ≡ false = ground (arith, some_byte) in
      let onward : leb (end_of (max_bytes_per_leaf block_size) offset (length source))
            (first_of (max_bytes_per_leaf block_size) offset)
          ≡ false =
        not_back _ _ low in
      let run_exact =
        subst
          (λ e.
            Root.traverse_and_update_root S allocate block_size ceil_log false (Growing (Unit {0}))
              growth_rounds t.root_id
              (writing S allocate block_size ceil_log source offset
                (first_of (max_bytes_per_leaf block_size) offset) e
                (end_of (max_bytes_per_leaf block_size) offset (length source)))
              (first_of (max_bytes_per_leaf block_size) offset)
              (end_of (max_bytes_per_leaf block_size) offset (length source)) true
              (record { own = record { user = tt; growing = false }; nodes = nodes })
            ≡ ok s')
          (sym exact) run in
      rw
        (
          some_count, onward, run_exact, still, write_bytes, Bytes.traverse_leaves_by_byte_indices,
          DataTree.traverse_leaves_by_leaf_indices,
        )
        refl

  write_bytes-none :
      (t : DataTree) (offset : ℕ) (nodes : Store S)
      → write_bytes S allocate block_size ceil_log t [] offset nodes ≡ ok (t, nodes)
  unfolding write_bytes Bytes.traverse_leaves_by_byte_indices
  write_bytes-none t offset nodes = refl

module _ {S : BlockStore2} {contents : S.State → BlockId → Option Data} (L : IsLawful S contents)
    (allocate : ℕ → Data) (block_size : ℕ) (room : 40 ≤ block_size) (small : block_size < 2 ^ 32)
    (look : BlockId → Option Data) (ceil_log : ℕ → ℕ → ℕ) (level : ℕ) (all : List Leaf) where
  -- `writeBytes` inside of the bytes of a tree of any depth succeeds, and the tree then has the
  -- bytes that it had with those from the offset on replaced by the source. It is a tree with the
  -- same root and levels again, its size cache is empty or right, its leaves are different blocks,
  -- and each block that was no leaf is as it was. No block is two leaves of the tree, and memory
  -- that is allocated has the size that is asked for. The tree is in a store without faults, has at
  -- most ten levels, which have room for less than 2 ^ 31 leaves, and a block has 40 bytes or more
  -- and less than 2 ^ 32.
  pub write_bytes-Wrote :
      (t : DataTree) (source : Data) (offset : ℕ) (nodes : Store S)
      → IsTree block_size look level t all
      → Distinct all
      → Same L allocate block_size room small look nodes
      → ((n : ℕ) → length (allocate n) ≡ n)
      → offset + length source ≤ length (content all)
      → (nodes' : Store S) × (write_bytes S allocate block_size ceil_log t source offset nodes
          ≡ ok (t, nodes'))
        × Wrote block_size level look
            (contents nodes'.base)
            t
            all
            (replaced (content all) offset source)
  unfolding data_size
  write_bytes-Wrote t [] offset nodes tree distinct same sizes inside =
      let now : contents nodes.base ≡ look = λ i a. same a i in
      (
        nodes,
        write_bytes-none S allocate block_size ceil_log t offset nodes,
        record {
          leaves = all;
          tree = subst (λ f. IsTree block_size f level t all) (sym now) tree;
          distinct = distinct;
          holds = sym (replaced-none offset (content all));
          others = λ a other. same a;
        },
      )
  write_bytes-Wrote t (c ∷ rest) offset nodes tree distinct same sizes inside =
      let source = c ∷ rest in
      let most = max_bytes_per_leaf block_size in
      let first = first_of most offset in
      let end = end_of most offset (length source) in
      let positive : 0 < most = omega (arith, room, small) in
      let fits = IsTree-fits room small tree in
      let bounded = length-content_most most all tree.filled in
      let wide = mul-le-mul_right {m = length all} {n = 2 ^ 31} most (omega (arith, fits)) in
      let exact : add64 offset (length source) ≡ offset + length source =
        omega (arith, wide, inside, bounded) in
      let r =
        end_of-LeafRange most offset (length source) (length all) positive (omega arith)
          (omega arith) (omega (arith, inside, bounded)) fits in
      let visits =
        write-Visits L allocate block_size room small look ceil_log all source offset first distinct
          (offset + length source) end sizes tree.filled refl inside
          (omega (arith, wide, inside, bounded))
          (λ n h. begin_child-upper positive offset n (omega (arith, h, r.begins)))
          (λ n h. omega (arith, r.upper n h)) r.in_tree fits in
      let (s, run, (w, still)) =
        traverse_and_update_root-visits S allocate block_size room small look ceil_log false
          (Growing (Unit {0}))
          (writing S allocate block_size ceil_log source offset first (offset + length source) end)
          all (Writing L allocate block_size room small look ceil_log all source offset first) first
          end
          (write-Loads L allocate block_size room small look ceil_log all source offset first
            (offset + length source) end)
          (write-LoadsLeaf L allocate block_size room small look ceil_log all source offset first
            distinct (offset + length source) end)
          visits (λ block s. refl) level t.root_id 32 first end
          (record { own = record { user = tt; growing = false }; nodes = nodes }) tree.shallow
          tree.few tree.stored tree.trimmed r.not_empty r.in_tree (omega arith) (omega arith)
          (
            Written-start block_size look all source offset first (contents nodes.base) same,
            refl,
          ) in
      (
        s.nodes,
        write_bytes-run S allocate block_size ceil_log t source offset nodes s (omega arith)
            r.not_empty exact run still,
        Written-Wrote block_size room small look (contents s.nodes.base) level all distinct t tree
            source offset first end inside w
            (λ k low.
              omega (
                arith,
                mul-le-mul_right {m = k + 1} {n = first} most (omega (arith, low)),
                r.before,
              ))
            (λ k high. omega (arith, mul-le-mul_right {m = end} {n = k} most high, r.covers)),
      )

  -- `writeBytes` inside of the bytes of a tree and then `readBytes` from the same offset and of the
  -- same length succeed, and the read returns what was written. The target of the read has as many
  -- bytes as were written. No block is two leaves of the tree, and memory that is allocated has the
  -- size that is asked for. The tree is in a store without faults, has at most ten levels, which
  -- have room for less than 2 ^ 31 leaves, and a block has 40 bytes or more and less than 2 ^ 32.
  pub read_bytes-write_bytes :
      (t : DataTree) (source target : Data) (offset : ℕ) (nodes : Store S)
      → IsTree block_size look level t all
      → Distinct all
      → Same L allocate block_size room small look nodes
      → ((n : ℕ) → length (allocate n) ≡ n)
      → offset + length source ≤ length (content all)
      → length target ≡ length source
      → (nodes1 nodes2 : Store S) × (t' : DataTree) × (write_bytes S allocate block_size ceil_log t
            source offset nodes
          ≡ ok (t, nodes1))
        × (read_bytes S allocate block_size ceil_log t target offset (length source) nodes1
            ≡ ok (source, t', nodes2))
  read_bytes-write_bytes t source target offset nodes tree distinct same sizes inside long =
      let (nodes1, run, w) =
        write_bytes-Wrote t source offset nodes tree distinct same sizes inside in
      let front : length (take offset (content all)) ≡ offset =
        omega (arith, length-take offset (content all), inside) in
      let behind = drop (offset + length source) (content all) in
      let size : length (content w.leaves) ≡ length (content all) =
        ap length w.holds ∙ length-replaced (content all) source offset inside in
      let here : take (length source) (drop offset (content w.leaves)) ≡ source =
        ap (λ b. take (length source) (drop offset b)) w.holds
        ∙ ap (λ n. take (length source) (drop n (replaced (content all) offset source))) (sym front)
        ∙ ap (take (length source)) (drop-append (take offset (content all)) (source ++ behind))
        ∙ take-append source behind in
      let (t', nodes2, read, tree2, same2) =
        read_bytes-eq L allocate block_size room small (contents nodes1.base) ceil_log level
          w.leaves t target offset (length source) nodes1 w.tree (λ a. refl)
          (omega (arith, size, inside)) long in
      (nodes1, nodes2, t', run, read ∙ ap (λ b. ok (b, t', nodes2)) here)
