-- ===== src/Trees/WriteBorder.antt =====
-- The callback of a write (`_traverseLeavesByByteIndices` and `writeBytes` of DataTree.cpp) at one
-- leaf.
use libcryfs.Common.{
  ℕ, ◌+◌, ◌-◌, ◌*◌, ◌^◌, ◌≤◌, ◌<◌, ◌≡◌, refl, ◌∙◌, sym, ap, subst, true, false, ◌||◌, Option, some,
  length, length-append, length-replicate, take, drop, replicate, arith, min, ltb, le→ltb, Bool,
  suc,
}
use libcryfs.Common.Equality.{nat_eq}
use libcryfs.Common.Result.{ok}
use libcryfs.Common.Bytes.{Data, BlockId}
use libcryfs.Common.Memory.{replaced}
use libcryfs.BlockStore.{BlockStore2, IsLawful, changed}
use libcryfs.Nodes.View.{max_bytes_per_leaf, data_size}
use libcryfs.Nodes.Image.{image}
use libcryfs.Nodes.LeafRuns.{leaf_node}
use libcryfs.Trees.Subtree.{State}
use libcryfs.Trees.Bytes.{Growing, on_existing_leaf, write_callbacks}
use libcryfs.Trees.Loading.{Same}
use libcryfs.Trees.LeafStores.{changed-here, changed-changed}
use libcryfs.Trees.ReadLeaf.{on_existing_leaf-run, on_border_leaf-run}
use libcryfs.Trees.WriteLeaf.{
  HoldsLeaf, extended, extended-none, grow_border_leaf-HoldsLeaf, write_callback-HoldsLeaf,
}

module _ {S : BlockStore2} {contents : S.State → BlockId → Option Data} (L : IsLawful S contents)
    (allocate : ℕ → Data) (block_size : ℕ) (room : 40 ≤ block_size) (small : block_size < 2 ^ 32)
    (look : BlockId → Option Data) (ceil_log : ℕ → ℕ → ℕ) (id : BlockId) where
  pub on_existing_leaf-HoldsLeaf :
      (unused : ℕ) (bytes : Data) (padding : ℕ) (source : Data)
      (offset end_leaf leaf_index data_begin data_end : ℕ) (right : Bool)
      (s : State S (Growing (Unit {0})))
      → ((n : ℕ) → length (allocate n) ≡ n)
      → Same L allocate block_size room small look s.nodes
      → look id ≡ some (image (leaf_node unused bytes padding))
      → length bytes + padding ≡ block_size - 8
      → offset + length source < 2 ^ 64
      → end_leaf < 2 ^ 32
      → leaf_index * max_bytes_per_leaf block_size < offset + length source
      → offset < leaf_index * max_bytes_per_leaf block_size + max_bytes_per_leaf block_size
      → data_begin ≡ offset - leaf_index * max_bytes_per_leaf block_size
      → data_end
        ≡ min
            (max_bytes_per_leaf block_size)
            (offset + length source - leaf_index * max_bytes_per_leaf block_size)
      → (right ≡ true → suc leaf_index ≡ end_leaf)
      → (right ≡ false → data_end ≤ length bytes)
      → (t : State S (Growing (Unit {0}))) × (on_existing_leaf S allocate block_size ceil_log
            (write_callbacks S allocate block_size ceil_log source offset (length source))
            offset
            (offset + length source)
            end_leaf
            leaf_index
            right
            id
            s
          ≡ ok t)
        × HoldsLeaf L allocate block_size room small look ceil_log id
            (replaced
              (extended L allocate block_size room small look ceil_log id data_end bytes)
              data_begin
              (take
                (data_end - data_begin)
                (drop (leaf_index * max_bytes_per_leaf block_size - offset) source)))
            t.nodes
        × (t.own.growing ≡ (ltb (length bytes) data_end || s.own.growing))
  unfolding data_size
  on_existing_leaf-HoldsLeaf unused bytes padding source offset end_leaf leaf_index data_begin
        data_end false s sizes same stored sized bits narrow upper lower begin_is end_is border
        inside =
      let most = max_bytes_per_leaf block_size in
      let enough = inside refl in
      let (t, run, holds, kept) =
        write_callback-HoldsLeaf L allocate block_size room small look ceil_log id unused bytes
          padding source offset (leaf_index * most) data_begin (data_end - data_begin)
          (leaf_index * most - offset) s sizes same stored sized (omega (arith, begin_is))
          (omega (arith, begin_is, end_is, upper, lower))
          (omega (arith, enough, begin_is, end_is, upper, lower)) bits in
      (
        t,
        on_existing_leaf-run S allocate block_size ceil_log _ offset (offset + length source)
              end_leaf leaf_index data_begin data_end id upper bits begin_is end_is
              (omega (arith, begin_is, end_is, upper, lower)) (omega (arith, end_is, small)) s
            ∙ run,
        subst
            (λ b.
              HoldsLeaf L allocate block_size room small look ceil_log id
                (replaced b data_begin
                  (take (data_end - data_begin) (drop (leaf_index * most - offset) source)))
                t.nodes)
            (sym (extended-none data_end bytes enough)) holds,
        rw (kept, le→ltb _ _ enough) refl,
      )
  on_existing_leaf-HoldsLeaf unused bytes padding source offset end_leaf leaf_index data_begin
        data_end true s sizes same stored sized bits narrow upper lower begin_is end_is border
        inside =
      let most = max_bytes_per_leaf block_size in
      let (s1, grow, (unused1, padding1, sized1, same1), growing) =
        grow_border_leaf-HoldsLeaf L allocate block_size room small look ceil_log id unused bytes
          padding data_end s same stored sized (omega (arith, end_is, small)) in
      let bytes1 = extended L allocate block_size room small look ceil_log id data_end bytes in
      let enough : data_end ≤ length bytes1 = omega (
        arith,
        length-append bytes (replicate (data_end - length bytes) 0),
        length-replicate {A = ℕ} (data_end - length bytes) 0,
      ) in
      let content = some (image (leaf_node unused1 bytes1 padding1)) in
      let (t, run, (unused2, padding2, sized2, same2), kept) =
        write_callback-HoldsLeaf L allocate block_size room small (changed id content look) ceil_log
          id unused1 bytes1 padding1 source offset (leaf_index * most) data_begin
          (data_end - data_begin) (leaf_index * most - offset) s1 sizes same1
          (changed-here look id content) sized1 (omega (arith, begin_is))
          (omega (arith, begin_is, end_is, upper, lower))
          (omega (arith, enough, begin_is, end_is, upper, lower)) bits in
      (
        t,
        on_border_leaf-run S allocate block_size ceil_log _ offset (offset + length source) end_leaf
              leaf_index data_begin data_end id upper bits begin_is end_is
              (omega (arith, begin_is, end_is, upper, lower)) (omega (arith, end_is, small)) s s1
              grow (border refl) narrow
            ∙ run,
        (unused2, padding2, sized2, λ a. same2 a ∙ changed-changed look id a _ content),
        ap (λ o. o.growing) kept ∙ growing,
      )
