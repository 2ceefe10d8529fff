-- ===== src/Trees/WriteLeaf.antt =====
-- What a write (`writeBytes` of DataTree.cpp) leaves one leaf with, and the growth of the leaf at the
-- right border.
use libcryfs.Common.{
  ℕ, ◌+◌, ◌-◌, ◌^◌, ◌≤◌, ◌<◌, ◌≡◌, refl, ◌∙◌, sym, ap, subst, ◌&&◌, ◌||◌, Option, some, ◌++◌,
  length, length-append, length-take, length-drop, length-replicate, take, drop, drop_all,
  append-nil, replicate, arith, ltb, take_all, Bool-cases, inl, inr,
}
use libcryfs.Common.Equality.{◌==◌, nat_eq}
use libcryfs.Common.Result.{ok}
use libcryfs.Common.Bytes.{Data, BlockId}
use libcryfs.Common.Memory.{replaced}
use libcryfs.BlockStore.{BlockStore2, IsLawful, changed}
use libcryfs.Nodes.View.{max_bytes_per_leaf, data_size}
use libcryfs.Nodes.Image.{image, size-image}
use libcryfs.Nodes.LeafRuns.{leaf_node, leaf_block, length-replaced, resized}
use libcryfs.Nodes.LeafBytes.{write-eq, resize-eq}
use libcryfs.Trees.NodeStore.{Store}
use libcryfs.Trees.Subtree.{State}
use libcryfs.Trees.Bytes.{Growing, grown, grow_border_leaf, write_callbacks}
use libcryfs.Trees.Loading.{Same, handle_node-Same}
use libcryfs.Trees.LeafStores.{changed-same, save-Same, overwrite_leaf-Same}
use libcryfs.Trees.ReadLeaf.{grow_border_leaf-run}
use libcryfs.Trees.WriteRuns.{write_part-run, write_whole-run, grow_border_leaf-grows}

pub extended-none :
    (data_end : ℕ) (bytes : Data)
    → data_end ≤ length bytes
    → bytes ++ replicate (data_end - length bytes) 0 ≡ bytes
extended-none data_end bytes enough =
    let no_more : data_end - length bytes ≡ 0 = omega (arith, enough) in
    ap (λ n. bytes ++ replicate n 0) no_more ∙ append-nil bytes

module _ {S : BlockStore2} {contents : S.State → BlockId → Option Data} (L : IsLawful S contents)
    (allocate : ℕ → Data) (block_size : ℕ) (room : 40 ≤ block_size) (small : block_size < 2 ^ 32)
    (look : BlockId → Option Data) (ceil_log : ℕ → ℕ → ℕ) (id : BlockId) where
  -- The leaf has these bytes, and all other blocks are as they were.
  abbrev pub HoldsLeaf : Data → Store S → Type 0
  HoldsLeaf bytes nodes =
      (unused : ℕ) × (padding : ℕ) × (length bytes + padding ≡ block_size - 8)
      × Same L allocate block_size room small
          (changed id (some (image (leaf_node unused bytes padding))) look) nodes

  -- The bytes of a leaf that grows to `data_end`, where it is smaller.
  abbrev pub extended : ℕ → Data → Data
  extended data_end bytes = bytes ++ replicate (data_end - length bytes) 0

  pub grow_border_leaf-HoldsLeaf :
      (unused : ℕ) (bytes : Data) (padding data_end : ℕ) (s : State S (Growing (Unit {0})))
      → Same L allocate block_size room small look s.nodes
      → look id ≡ some (image (leaf_node unused bytes padding))
      → length bytes + padding ≡ block_size - 8
      → data_end ≤ block_size - 8
      → (t : State S (Growing (Unit {0}))) × (grow_border_leaf S allocate block_size ceil_log id
            data_end s
          ≡ ok t)
        × HoldsLeaf (extended data_end bytes) t.nodes
        × (t.own.growing ≡ (ltb (length bytes) data_end || s.own.growing))
  grow_border_leaf-HoldsLeaf unused bytes padding data_end s same stored sized fits =
      let (nodes, loaded, same1) =
        handle_node-Same L allocate block_size room small look id s.nodes unused bytes padding same
          stored sized in
      let count = size-image id (leaf_node unused bytes padding) (omega (arith, sized, small)) in
      elim (Bool-cases (ltb (length bytes) data_end)) [
        | inl more ↦
            let less : length bytes < data_end = ground (arith, more) in
            let long : extended data_end bytes ≡ resized data_end bytes =
              ap (λ b. b ++ replicate (data_end - length bytes) 0)
                (sym (take_all data_end bytes (omega (arith, less)))) in
            let (nodes', saved, same2) =
              save-Same L allocate block_size room small look
                (leaf_block id unused (resized data_end bytes) (length bytes + padding - data_end))
                nodes same1 in
            (
              grown (record s { nodes = nodes' }),
              grow_border_leaf-grows S allocate block_size ceil_log id data_end (length bytes) _ _ s
                  nodes nodes' loaded count more
                  (resize-eq id unused bytes padding (omega (arith, sized, room))
                    (omega (arith, sized, small)) data_end (omega (arith, sized, fits)))
                  saved,
              (
                unused,
                length bytes + padding - data_end,
                omega (
                  arith,
                  length-append bytes (replicate (data_end - length bytes) 0),
                  length-replicate {A = ℕ} (data_end - length bytes) 0,
                  sized,
                  fits,
                  less,
                ),
                subst
                    (λ b.
                      Same L allocate block_size room small
                        (changed id
                          (some (image (leaf_node unused b (length bytes + padding - data_end))))
                          look)
                        nodes')
                    (sym long) same2,
              ),
              rw more refl,
            )
        | inr less ↦
            let enough : data_end ≤ length bytes = ground (arith, less) in
            let long : extended data_end bytes ≡ bytes = extended-none data_end bytes enough in
            (
              record s { nodes = nodes },
              grow_border_leaf-run S allocate block_size ceil_log id data_end (length bytes) _ s
                  nodes loaded count enough,
              (
                unused,
                padding,
                ap (λ b. length b + padding) long ∙ sized,
                λ a.
                    same1 a
                    ∙ changed-same look id a _
                        (stored ∙ ap (λ b. some (image (leaf_node unused b padding))) (sym long)),
              ),
              rw less refl,
            )
      ]

  pub write_callback-HoldsLeaf :
      (unused : ℕ) (bytes : Data) (padding : ℕ) (source : Data)
      (offset first data_begin data_count position : ℕ) (s : State S (Growing (Unit {0})))
      → ((n : ℕ) → length (allocate n) ≡ n)
      → Same L allocate block_size room small look s.nodes
      → look id ≡ some (image (leaf_node unused bytes padding))
      → length bytes + padding ≡ block_size - 8
      → first + data_begin ≡ offset + position
      → position + data_count ≤ length source
      → data_begin + data_count ≤ length bytes
      → offset + length source < 2 ^ 64
      → (t : State S (Growing (Unit {0}))) × ((write_callbacks S allocate block_size ceil_log source
              offset
              (length source)).on_existing_leaf
            first id data_begin data_count s
          ≡ ok t)
        × HoldsLeaf (replaced bytes data_begin (take data_count (drop position source))) t.nodes
        × (t.own ≡ s.own)
  unfolding data_size
  write_callback-HoldsLeaf unused bytes padding source offset first data_begin data_count position s
        sizes same stored sized place inside fits bits =
      let part = take data_count (drop position source) in
      let count : length part ≡ data_count = omega (
        arith,
        length-take data_count (drop position source),
        length-drop position source,
        inside,
      ) in
      elim (Bool-cases ((data_begin == 0) && (data_count == max_bytes_per_leaf block_size))) [
        | inl whole ↦
            let start : data_begin ≡ 0 = ground (arith, whole) in
            let all : data_count ≡ block_size - 8 = ground (arith, whole, room, small) in
            let (unused', opened, nodes', overwritten, same1) =
              overwrite_leaf-Same L allocate block_size room small look id part s.nodes sizes
                (count ∙ all) same in
            let none_left : padding ≡ 0 = omega (arith, sized, fits, all) in
            let result : replaced bytes data_begin part ≡ part =
              ap (λ n. take n bytes ++ (part ++ drop (n + length part) bytes)) start
              ∙ ap (λ b. part ++ b)
                  (drop_all (0 + length part) bytes (omega (arith, count, all, sized)))
              ∙ append-nil part in
            (
              record s { nodes = nodes' },
              write_whole-run S allocate block_size ceil_log source offset first data_begin
                  data_count position id s nodes' place inside bits opened whole
                  (omega (arith, place, start, inside, bits)) overwritten,
              (
                unused',
                0,
                omega (arith, ap length result, count, all),
                subst
                    (λ b.
                      Same L allocate block_size room small
                        (changed id (some (image (leaf_node unused' b 0))) look) nodes')
                    (sym result) same1,
              ),
              refl,
            )
        | inr some_part ↦
            let (nodes, loaded, same1) =
              handle_node-Same L allocate block_size room small look id s.nodes unused bytes padding
                same stored sized in
            let (nodes', saved, same2) =
              save-Same L allocate block_size room small look
                (leaf_block id unused (replaced bytes data_begin part) padding) nodes same1 in
            (
              record s { nodes = nodes' },
              write_part-run S allocate block_size ceil_log source offset first data_begin
                  data_count position id s nodes' place inside bits _ _ nodes some_part loaded
                  (write-eq id unused bytes padding (omega (arith, sized, room))
                    (omega (arith, sized, small)) part data_begin (omega (arith, count, fits)))
                  saved,
              (
                unused,
                padding,
                omega (
                  arith,
                  length-replaced bytes part data_begin (omega (arith, count, fits)),
                  sized,
                ),
                same2,
              ),
              refl,
            )
      ]
