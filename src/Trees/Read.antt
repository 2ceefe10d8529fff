-- ===== src/Trees/Read.antt =====
-- `_doReadBytes` (DataTree.cpp) at each leaf of a range.
use libcryfs.Common.{
  ℕ, ◌+◌, ◌-◌, ◌*◌, ◌^◌, ◌≤◌, ◌<◌, ◌≡◌, refl, ◌∙◌, sym, ap, subst, Bool, true, false, Option, some,
  List, [], ◌∷◌, ◌++◌, length, length-append, arith, min, take, drop,
}
use libcryfs.Common.Result.{ok}
use libcryfs.Common.Bytes.{Data, BlockId}
use libcryfs.Common.Memory.{write_memory}
use libcryfs.BlockStore.{BlockStore2, IsLawful}
use libcryfs.Nodes.View.{max_bytes_per_leaf, data_size}
use libcryfs.Nodes.LeafRuns.{leaf_node, leaf_block}
use libcryfs.Nodes.LeafBytes.{read-eq}
use libcryfs.Nodes.Image.{size-image, image}
use libcryfs.Trees.Subtree.{State}
use libcryfs.Trees.Bytes
use libcryfs.Trees.Bytes.{Growing, ByteCallbacks, read_callbacks}
use libcryfs.Trees.Stored.{Leaf}
use libcryfs.Trees.Loading.{Same, handle_node-Same}
use libcryfs.Trees.VisitLeaves.{Visits}
use libcryfs.Trees.Content.{content, Filled, content-append, leaf_range}
use libcryfs.Trees.ReadLeaf.{
  read_callback-run, grow_border_leaf-run, on_existing_leaf-run, on_border_leaf-run,
}
use libcryfs.Trees.Target.{progress, target_at, target_at-step}
use libcryfs.Trees.Reading.{Filling, reading, Reading}

module _ {S : BlockStore2} {contents : S.State → BlockId → Option Data} (L : IsLawful S contents)
    (allocate : ℕ → Data) (block_size : ℕ) (room : 40 ≤ block_size) (small : block_size < 2 ^ 32)
    (look : BlockId → Option Data) (ceil_log : ℕ → ℕ → ℕ) (all : List Leaf) (target : Data)
    (offset count first_leaf end_byte end_leaf : ℕ)
    (filled : Filled (max_bytes_per_leaf block_size) all) (end_is : end_byte ≡ offset + count)
    (inside : end_byte ≤ length (content all)) (target_is : count ≤ length target)
    (bits : end_byte < 2 ^ 64)
    (lower : (n : ℕ)
      → first_leaf ≤ n
      → offset < n * max_bytes_per_leaf block_size + max_bytes_per_leaf block_size)
    (upper : (n : ℕ) → n < end_leaf → n * max_bytes_per_leaf block_size < end_byte)
    (in_tree : end_leaf ≤ length all) (fits : length all < 2 ^ 31) where
  -- The bytes of one leaf are read.
  callback-Filling :
      (pre : List Leaf) (l : Leaf) (post : List Leaf) (unused padding data_begin data_end : ℕ)
      (s : State S (Growing Data))
      → all ≡ pre ++ l ∷ post
      → look l.id ≡ some (image (leaf_node unused l.bytes padding))
      → length l.bytes + padding ≡ block_size - 8
      → first_leaf ≤ length pre
      → length pre < end_leaf
      → Same L allocate block_size room small look s.nodes
      → Filling (max_bytes_per_leaf block_size) (content all) target offset count (length pre) s.own
      → data_begin ≡ offset - length pre * max_bytes_per_leaf block_size
      → data_end
        ≡ min
            (max_bytes_per_leaf block_size)
            (end_byte - length pre * max_bytes_per_leaf block_size)
      → (t : State S (Growing Data)) × ((read_callbacks S allocate block_size ceil_log offset
              count).on_existing_leaf
            (length pre * max_bytes_per_leaf block_size)
            l.id
            data_begin
            (data_end - data_begin)
            s
          ≡ ok t)
        × Same L allocate block_size room small look t.nodes
        × Filling
            (max_bytes_per_leaf block_size)
            (content all)
            target
            offset
            count
            (length pre + 1)
            t.own
  callback-Filling pre l post unused padding data_begin data_end s split stored sized low high same
        (held, still) begin_is fin_is =
      let most = max_bytes_per_leaf block_size in
      let index = length pre in
      let (front, ends, bounded) =
        leaf_range most pre l post end_byte (subst (Filled most) split filled)
          (subst (λ a. end_byte ≤ length (content a)) split inside) in
      let after = upper index high in
      let before = lower index low in
      let position = progress most offset count index in
      let n = data_end - data_begin in
      let whole : content all ≡ content pre ++ (l.bytes ++ content post) =
        ap content split ∙ content-append pre (l ∷ post) in
      let place : offset + position ≡ index * most + data_begin =
        omega (arith, after, before, end_is, begin_is) in
      let next : position + n ≡ progress most offset count (index + 1) =
        omega (arith, after, before, end_is, begin_is, fin_is) in
      let (nodes, loaded, same') =
        handle_node-Same L allocate block_size room small look l.id s.nodes unused l.bytes padding
          same stored sized in
      let written =
        target_at-step (content pre) l.bytes (content post) target offset position data_begin n
          (omega (arith, place, front))
          (omega (arith, ends, fin_is, begin_is, after, before, end_is))
          (omega (arith, place, fin_is, end_is, after, before, begin_is, target_is)) in
      (
        record {
          own = record s.own {
            user =
                target_at (content pre ++ (l.bytes ++ content post)) target offset (position + n);
          };
          nodes = nodes;
        },
        read_callback-run S allocate block_size ceil_log offset count (index * most) data_begin n
            position l.id (leaf_block l.id unused l.bytes padding)
            (take n (drop data_begin l.bytes)) _ s nodes loaded
            (read-eq l.id unused l.bytes padding (omega (arith, sized, room))
              (omega (arith, sized, small)) data_begin n
              (omega (arith, ends, fin_is, begin_is, after, before, end_is)))
            (ap (λ u. write_memory u position (take n (drop data_begin l.bytes)))
                (held ∙ ap (λ c. target_at c target offset position) whole)
              ∙ written)
            (omega (arith, place)) (omega (arith, place, fin_is, end_is, after, before, begin_is))
            (omega (arith, end_is, bits)),
        same',
        (
          ap (λ c. target_at c target offset (position + n)) (sym whole)
              ∙ ap (target_at (content all) target offset) next,
          still,
        ),
      )

  read_existing-Filling :
      (pre : List Leaf) (l : Leaf) (post : List Leaf) (unused padding : ℕ) (right : Bool)
      (s : State S (Growing Data))
      → all ≡ pre ++ l ∷ post
      → look l.id ≡ some (image (leaf_node unused l.bytes padding))
      → length l.bytes + padding ≡ block_size - 8
      → (right ≡ true → post ≡ [])
      → first_leaf ≤ length pre
      → length pre < end_leaf
      → Same L allocate block_size room small look s.nodes
      → Filling (max_bytes_per_leaf block_size) (content all) target offset count (length pre) s.own
      → (t : State S (Growing Data)) × (Bytes.on_existing_leaf S allocate block_size ceil_log
            (read_callbacks S allocate block_size ceil_log offset count)
            offset
            end_byte
            end_leaf
            (length pre)
            right
            l.id
            s
          ≡ ok t)
        × Same L allocate block_size room small look t.nodes
        × Filling
            (max_bytes_per_leaf block_size)
            (content all)
            target
            offset
            count
            (length pre + 1)
            t.own
  unfolding data_size
  read_existing-Filling pre l post unused padding false s split stored sized last low high same
        inv =
      let most = max_bytes_per_leaf block_size in
      let (t, run, same2, done) =
        callback-Filling pre l post unused padding (offset - length pre * most)
          (min most (end_byte - length pre * most)) s split stored sized low high same inv refl
          refl in
      (
        t,
        on_existing_leaf-run S allocate block_size ceil_log _ offset end_byte end_leaf (length pre)
              (offset - length pre * most) (min most (end_byte - length pre * most)) l.id
              (upper (length pre) high) bits refl refl
              (omega (arith, upper (length pre) high, lower (length pre) low, end_is)) (omega arith)
              s
            ∙ run,
        same2,
        done,
      )
  read_existing-Filling pre l post unused padding true s split stored sized last low high same inv =
      let most = max_bytes_per_leaf block_size in
      let (nodes, loaded, same1) =
        handle_node-Same L allocate block_size room small look l.id s.nodes unused l.bytes padding
          same stored sized in
      let (front, ends, bounded) =
        leaf_range most pre l post end_byte (subst (Filled most) split filled)
          (subst (λ a. end_byte ≤ length (content a)) split inside) in
      let (t, run, same2, done) =
        callback-Filling pre l post unused padding (offset - length pre * most)
          (min most (end_byte - length pre * most)) (record s { nodes = nodes }) split stored sized
          low high same1 inv refl refl in
      (
        t,
        on_border_leaf-run S allocate block_size ceil_log _ offset end_byte end_leaf (length pre)
              (offset - length pre * most) (min most (end_byte - length pre * most)) l.id
              (upper (length pre) high) bits refl refl
              (omega (arith, upper (length pre) high, lower (length pre) low, end_is)) (omega arith)
              s (record s { nodes = nodes })
              (grow_border_leaf-run S allocate block_size ceil_log l.id
                (min most (end_byte - length pre * most)) (length l.bytes)
                (leaf_block l.id unused l.bytes padding) s nodes loaded
                (size-image l.id (leaf_node unused l.bytes padding) (omega (arith, sized, small)))
                ends)
              (omega (
                arith,
                ap length split,
                length-append pre (l ∷ post),
                ap length (last refl),
                in_tree,
                high,
              ))
              (omega (arith, in_tree, fits))
            ∙ run,
        same2,
        done,
      )

  pub read-Visits :
      Visits S allocate block_size room small look ceil_log true
        (Growing Data)
        (reading S allocate block_size ceil_log offset count first_leaf end_byte end_leaf)
        all
        (Reading L allocate block_size room small look ceil_log all target offset count)
        first_leaf
        end_leaf
  read-Visits pre l post right s split stored last low high (same, inv) =
      let own : stored.bytes ≡ l.bytes = cc (stored.one) in
      let (t, run, same', inv') =
        read_existing-Filling pre l post stored.unused stored.padding right s split
          (subst (λ b. look l.id ≡ some (image (leaf_node stored.unused b stored.padding))) own
            stored.stored)
          (subst (λ b. length b + stored.padding ≡ block_size - 8) own stored.sized) last low high
          same inv in
      (t, run, (same', inv'))
