-- ===== src/Trees/Reads.antt =====
-- What `readBytes`, `tryReadBytes` and `readAllBytes` (DataTree.cpp) return.
use native.Mathlib.Nat.{mul-le-mul_right}
use libcryfs.Common.{
  ℕ, ◌+◌, ◌-◌, ◌^◌, ◌≤◌, ◌<◌, ◌≡◌, ◌∙◌, ap, true, false, ◌&&◌, Option, List, ◌++◌, length, arith,
  min, leb, take, drop, take_all, drop_all, append-nil, Bool-cases, inl, inr, length-drop,
}
use libcryfs.Common.Equality.{◌==◌, nat_eq}
use libcryfs.Common.Result.{ok, err, guard, runtime_error, ◌>>◌}
use libcryfs.Common.Bytes.{Data, BlockId}
use libcryfs.Common.Memory.{add64}
use libcryfs.BlockStore.{BlockStore2, IsLawful}
use libcryfs.Nodes.View.{max_bytes_per_leaf, data_size}
use libcryfs.Trees.NodeStore.{Store}
use libcryfs.Trees.DataTree.{DataTree}
use libcryfs.Trees.Bytes.{try_read_bytes, read_bytes, read_all_bytes}
use libcryfs.Trees.Stored.{Leaf}
use libcryfs.Trees.Content.{content, length-content_most}
use libcryfs.Trees.Loading.{Same}
use libcryfs.Trees.Tree.{IsTree, IsTree-fits, Returns, num_bytes-Returns}
use libcryfs.Trees.ReadBytes.{target-Returns}
use libcryfs.Trees.ReadRuns.{
  real_count-eq, take-min, real_count-negative, try_read_bytes-run, read_bytes-run,
  read_bytes-refused, read_all_bytes-run,
}

module _ {S : BlockStore2} {contents : S.State → BlockId → Option Data} (L : IsLawful S contents)
    (allocate : ℕ → Data) (block_size : ℕ) (room : 40 ≤ block_size) (small : block_size < 2 ^ 32)
    (look : BlockId → Option Data) (ceil_log : ℕ → ℕ → ℕ) (level : ℕ) (all : List Leaf) where
  size_bits : (t : DataTree) → IsTree block_size look level t all → length (content all) < 2 ^ 63
  unfolding data_size
  size_bits t tree =
      let most = max_bytes_per_leaf block_size in
      omega (
        arith,
        length-content_most most all tree.filled,
        mul-le-mul_right {m = length all} {n = 2 ^ 31 - 1} most
            (omega (arith, IsTree-fits room small tree)),
      )

  -- `tryReadBytes` on a tree of any depth reads the bytes of the concatenated leaves from the
  -- offset on, as many as are asked for or as are left, returns their number, keeps the rest of the
  -- target, and changes neither the tree nor a block. The target has as many bytes as are asked
  -- for, and offset and count are below 2 ^ 63. The tree is in a store without faults, has at most
  -- ten levels, which have room for less than 2 ^ 31 leaves, and a block has 40 bytes or more and
  -- less than 2 ^ 32.
  pub try_read_bytes-eq :
      (t : DataTree) (target : Data) (offset count : ℕ) (nodes : Store S)
      → IsTree block_size look level t all
      → Same L allocate block_size room small look nodes
      → offset < 2 ^ 63
      → count < 2 ^ 63
      → length target ≡ count
      → (t' : DataTree) × (nodes' : Store S) × (try_read_bytes S allocate block_size ceil_log t
            target offset count nodes
          ≡ ok (
            min count (length (content all) - offset),
            take count (drop offset (content all))
                ++ drop (min count (length (content all) - offset)) target,
            t',
            nodes',
          ))
        × IsTree block_size look level t' all
        × Same L allocate block_size room small look nodes'
  try_read_bytes-eq t target offset count nodes tree same low narrow long =
      let size = length (content all) in
      let n = min count (size - offset) in
      let (t1, s1, sized, tree1, same1) =
        num_bytes-Returns L allocate block_size room small look ceil_log level all t nodes tree
          same in
      let (t2, s2, run, tree2, same2) =
        target-Returns L allocate block_size room small look ceil_log level all t1 target offset n
          s1 tree1 same1 (λ some_byte. omega (arith, some_byte)) (omega (arith, long)) in
      (
        t2,
        s2,
        try_read_bytes-run S allocate block_size ceil_log t t1 t2 target _ offset count size n nodes
              s1 s2 sized (real_count-eq count size offset (size_bits t tree) low narrow) run
            ∙ ap (λ bytes. ok (n, bytes ++ drop n target, t2, s2))
                (take-min count (drop offset (content all)) _ (length-drop offset (content all))),
        tree2,
        same2,
      )

  -- `readBytes` inside of the bytes of a tree succeeds and returns exactly those bytes; neither the
  -- tree nor a block changes. The target has as many bytes as are asked for. The tree is in a store
  -- without faults, has at most ten levels, which have room for less than 2 ^ 31 leaves, and a
  -- block has 40 bytes or more and less than 2 ^ 32.
  pub read_bytes-eq :
      (t : DataTree) (target : Data) (offset count : ℕ) (nodes : Store S)
      → IsTree block_size look level t all
      → Same L allocate block_size room small look nodes
      → offset + count ≤ length (content all)
      → length target ≡ count
      → Returns L allocate block_size room small look ceil_log level all
          (take count (drop offset (content all)))
          (read_bytes S allocate block_size ceil_log t target offset count nodes)
  read_bytes-eq t target offset count nodes tree same inside long =
      let size = length (content all) in
      let bits = size_bits t tree in
      let (t1, s1, sized, tree1, same1) =
        num_bytes-Returns L allocate block_size room small look ceil_log level all t nodes tree
          same in
      let (t2, s2, run, tree2, same2) =
        try_read_bytes-eq t1 target offset count s1 tree1 same1 (omega (arith, inside, bits))
          (omega (arith, inside, bits)) long in
      let part = take count (drop offset (content all)) in
      let bytes = part ++ drop (min count (size - offset)) target in
      let all_read : min count (size - offset) ≡ count = omega (arith, inside) in
      let same_count : (min count (size - offset) == count) ≡ true = ground (arith, all_read) in
      (
        t2,
        s2,
        read_bytes-run S allocate block_size ceil_log t t1 t2 target _ offset count size _ nodes s1
              s2 sized (omega (arith, inside)) (omega (arith, inside, bits)) run
            ∙ ap (λ b. guard b runtime_error >> ok (bytes, t2, s2)) same_count
            ∙ ap (λ rest. ok (part ++ rest, t2, s2))
                (drop_all (min count (size - offset)) target (omega (arith, all_read, long)))
            ∙ ap (λ b. ok (b, t2, s2)) (append-nil part),
        tree2,
        same2,
      )

  -- `readAllBytes` returns the bytes of all leaves, from left to right, and changes neither the
  -- tree nor a block. Memory that is allocated has the size that is asked for. The tree is in a
  -- store without faults, has at most ten levels, which have room for less than 2 ^ 31 leaves, and
  -- a block has 40 bytes or more and less than 2 ^ 32.
  pub read_all_bytes-eq :
      (t : DataTree) (nodes : Store S)
      → IsTree block_size look level t all
      → Same L allocate block_size room small look nodes
      → ((n : ℕ) → length (allocate n) ≡ n)
      → Returns L allocate block_size room small look ceil_log level all
          (content all)
          (read_all_bytes S allocate block_size ceil_log t nodes)
  read_all_bytes-eq t nodes tree same sizes =
      let size = length (content all) in
      let (t1, s1, sized, tree1, same1) =
        num_bytes-Returns L allocate block_size room small look ceil_log level all t nodes tree
          same in
      let (t2, s2, run, tree2, same2) =
        target-Returns L allocate block_size room small look ceil_log level all t1 (allocate size) 0
          size s1 tree1 same1 (λ some_byte. omega arith) (omega (arith, sizes size)) in
      (
        t2,
        s2,
        read_all_bytes-run S allocate block_size ceil_log t t1 t2 _ size nodes s1 s2 sized run
            ∙ ap (λ rest. ok (take size (content all) ++ rest, t2, s2))
                (drop_all size (allocate size) (omega (arith, sizes size)))
            ∙ ap (λ bytes. ok (bytes, t2, s2))
                (append-nil _ ∙ take_all size (content all) (omega arith)),
        tree2,
        same2,
      )

  -- `readBytes` over the end of a tree throws the exception, also where the sum of offset and count
  -- wraps around at 2 ^ 64. Offset and count are below 2 ^ 64. The tree is in a store without
  -- faults, has at most ten levels, which have room for less than 2 ^ 31 leaves, and a block has 40
  -- bytes or more and less than 2 ^ 32.
  pub read_bytes-outside :
      (t : DataTree) (target : Data) (offset count : ℕ) (nodes : Store S)
      → IsTree block_size look level t all
      → Same L allocate block_size room small look nodes
      → offset < 2 ^ 64
      → count < 2 ^ 64
      → length (content all) < offset + count
      → read_bytes S allocate block_size ceil_log t target offset count nodes ≡ err runtime_error
  read_bytes-outside t target offset count nodes tree same low narrow outside =
      let size = length (content all) in
      let bits = size_bits t tree in
      let (t1, s1, sized, tree1, same1) =
        num_bytes-Returns L allocate block_size room small look ceil_log level all t nodes tree
          same in
      elim (Bool-cases (leb offset size && leb (add64 offset count) size)) [
        | inl wraps ↦
            let begins : offset ≤ size = ground (arith, wraps) in
            let ends : add64 offset count ≤ size = ground (arith, wraps) in
            let huge : 2 ^ 63 ≤ count = omega (arith, begins, ends, outside, bits, narrow) in
            let (t2, s2, sized2, tree2, same2) =
              num_bytes-Returns L allocate block_size room small look ceil_log level all t1 s1 tree1
                same1 in
            let (t3, s3, run, tree3, same3) =
              target-Returns L allocate block_size room small look ceil_log level all t2 target
                offset 0 s2 tree2 same2 (λ h. absurd (omega (arith, h))) (omega arith) in
            let none_read : (0 == count) ≡ false = ground (arith, huge) in
            read_bytes-run S allocate block_size ceil_log t t1 t3 target _ offset count size 0 nodes
              s1 s3 sized begins ends
              (try_read_bytes-run S allocate block_size ceil_log t1 t2 t3 target _ offset count size
                0 s1 s2 s3 sized2 (real_count-negative count size offset bits begins huge narrow)
                run)
            ∙ ap (λ b. guard b runtime_error >> ok (target, t3, s3)) none_read
        | inr refused ↦
            read_bytes-refused S allocate block_size ceil_log t t1 target offset count size nodes s1
              sized refused
      ]
