-- ===== src/Trees/WriteVisits.antt =====
-- `writeBytes` (DataTree.cpp) at each leaf of a range.
use libcryfs.Common.{
  ℕ, ◌+◌, ◌-◌, ◌*◌, ◌^◌, ◌≤◌, ◌<◌, ◌≡◌, refl, ◌∙◌, sym, ap, subst, Bool, true, false, Option, some,
  List, [], ◌∷◌, ◌++◌, length, length-append, length-drop, get_elem?, arith, min, take, drop,
  le→ltb, ◌||◌, replicate,
}
use libcryfs.Common.Result.{ok}
use libcryfs.Common.Bytes.{Data, BlockId}
use libcryfs.Common.Memory.{replaced}
use libcryfs.BlockStore.{BlockStore2, IsLawful, changed}
use libcryfs.Nodes.View.{max_bytes_per_leaf, data_size}
use libcryfs.Nodes.Image.{image}
use libcryfs.Nodes.LeafRuns.{leaf_node}
use libcryfs.Trees.Subtree.{State}
use libcryfs.Trees.Bytes
use libcryfs.Trees.Bytes.{Growing, write_callbacks}
use libcryfs.Trees.Stored.{Leaf, LeafAt}
use libcryfs.Trees.Content.{content, Filled, leaf_range}
use libcryfs.Trees.VisitLeaves.{Visits}
use libcryfs.Trees.ReadRuns.{take-min}
use libcryfs.Trees.WriteLeaf.{extended-none}
use libcryfs.Trees.WriteBorder.{on_existing_leaf-HoldsLeaf}
use libcryfs.Trees.Renewed.{new_bytes, length-new_bytes}
use libcryfs.Trees.StoredRenewed.{Distinct}
use libcryfs.Trees.Written.{Written-other, Written-step}
use libcryfs.Trees.Writing.{Writing, writing, get_elem?-split}

-- The bytes that a leaf is left with.
written_bytes-eq :
    (most offset k data_end : ℕ) (bytes source : Data)
    → data_end ≡ min most (offset + length source - k * most)
    → data_end ≤ length bytes
    → length bytes ≤ most
    → k * most < offset + length source
    → offset < k * most + most
    → replaced
        (bytes ++ replicate (data_end - length bytes) 0)
        (offset - k * most)
        (take (data_end - (offset - k * most)) (drop (k * most - offset) source))
      ≡ new_bytes most offset source k bytes
written_bytes-eq most offset k data_end bytes source end_is enough bounded upper lower =
    let begin = offset - k * most in
    let left = length source - (k * most - offset) in
    let count : data_end - begin ≡ min (length bytes - begin) left =
      omega (arith, end_is, enough, bounded, upper, lower) in
    ap (λ b. replaced b begin (take (data_end - begin) (drop (k * most - offset) source)))
      (extended-none data_end bytes enough)
    ∙ ap (replaced bytes begin) (
        ap (λ n. take n (drop (k * most - offset) source)) count
        ∙ take-min (length bytes - begin) (drop (k * most - offset) source) left
            (length-drop (k * most - offset) source))

module _ {S : BlockStore2} {contents : S.State → BlockId → Option Data} (L : IsLawful S contents)
    (allocate : ℕ → Data) (block_size : ℕ) (room : 40 ≤ block_size) (small : block_size < 2 ^ 32)
    (look : BlockId → Option Data) (ceil_log : ℕ → ℕ → ℕ) (all : List Leaf) (source : Data)
    (offset first_leaf : ℕ) where
  module _ (distinct : Distinct all) (end_byte end_leaf : ℕ)
      (sizes : (n : ℕ) → length (allocate n) ≡ n)
      (filled : Filled (max_bytes_per_leaf block_size) all)
      (end_is : end_byte ≡ offset + length source) (inside : end_byte ≤ length (content all))
      (bits : end_byte < 2 ^ 64)
      (lower : (n : ℕ)
        → first_leaf ≤ n
        → offset < n * max_bytes_per_leaf block_size + max_bytes_per_leaf block_size)
      (upper : (n : ℕ) → n < end_leaf → n * max_bytes_per_leaf block_size < end_byte)
      (in_tree : end_leaf ≤ length all) (fits : length all < 2 ^ 31) where
    write_leaf-Writing :
        (pre : List Leaf) (l : Leaf) (post : List Leaf) (right : Bool)
        (s : State S (Growing (Unit {0})))
        → all ≡ pre ++ l ∷ post
        → (x : LeafAt block_size look l.id (l ∷ [])) → x.bytes ≡ l.bytes
        → (right ≡ true → post ≡ [])
        → first_leaf ≤ length pre
        → length pre < end_leaf
        → Writing L allocate block_size room small look ceil_log all source offset first_leaf
            (length pre)
            s
        → (t : State S (Growing (Unit {0}))) × (Bytes.on_existing_leaf S allocate block_size
              ceil_log
              (write_callbacks S allocate block_size ceil_log source offset (length source))
              offset
              (offset + length source)
              end_leaf
              (length pre)
              right
              l.id
              s
            ≡ ok t)
          × Writing L allocate block_size room small look ceil_log all source offset first_leaf
              (length pre + 1)
              t
    unfolding data_size
    write_leaf-Writing pre l post right s split x own last low high (w, still) =
        let most = max_bytes_per_leaf block_size in
        let k = length pre in
        let now = contents s.nodes.base in
        let there : get_elem? all k ≡ some l =
          ap (λ xs. get_elem? xs k) split ∙ get_elem?-split pre l post in
        let (front, ends, bounded) =
          leaf_range most pre l post end_byte (subst (Filled most) split filled)
            (subst (λ a. end_byte ≤ length (content a)) split inside) in
        let data_end = min most (offset + length source - k * most) in
        let enough : data_end ≤ length l.bytes = omega (arith, ends, end_is) in
        let above : k * most < offset + length source = omega (arith, upper k high, end_is) in
        let (t, run, (unused, padding, sized, view), growing) =
          on_existing_leaf-HoldsLeaf L allocate block_size room small now ceil_log l.id x.unused
            l.bytes x.padding source offset end_leaf k (offset - k * most) data_end right s sizes
            (λ a. refl)
            (Written-other block_size look all source offset first_leaf distinct k now k l w there
                (λ h. omega arith)
              ∙ x.stored
              ∙ ap (λ b. some (image (leaf_node x.unused b x.padding))) own)
            (ap (λ b. length b + x.padding) (sym own) ∙ x.sized) (omega (arith, bits, end_is))
            (omega (arith, in_tree, fits)) above (lower k low) refl refl
            (λ h. omega (
              arith,
              ap length split,
              length-append pre (l ∷ post),
              ap length (last h),
              in_tree,
              high,
            ))
            (λ h. enough) in
        let bytes =
          written_bytes-eq most offset k data_end l.bytes source refl enough bounded above
            (lower k low) in
        (
          t,
          run,
          (
            Written-step block_size look all source offset first_leaf distinct k now
                (contents t.nodes.base) l unused padding w there low x
                (omega
                  (arith, sized, ap length bytes, length-new_bytes most offset source k l.bytes))
                (λ a.
                  view a
                  ∙ ap (λ b. changed l.id (some (image (leaf_node unused b padding))) now a) bytes),
            growing
                ∙ ap (λ b. b || s.own.growing) (le→ltb (length l.bytes) data_end enough)
                ∙ still,
          ),
        )

    pub write-Visits :
        Visits S allocate block_size room small look ceil_log false
          (Growing (Unit {0}))
          (writing S allocate block_size ceil_log source offset first_leaf
            (offset + length source)
            end_leaf)
          all
          (Writing L allocate block_size room small look ceil_log all source offset first_leaf)
          first_leaf
          end_leaf
    write-Visits pre l post right s split stored last low high holds =
        let own : stored.bytes ≡ l.bytes = cc (stored.one) in
        write_leaf-Writing pre l post right s split stored own last low high holds
