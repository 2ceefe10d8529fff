-- ===== src/Trees/ReadRuns.antt =====
-- The steps of `readBytes`, `tryReadBytes` and `readAllBytes` (DataTree.cpp).
use libcryfs.Common.{
  ℕ, ◌-◌, ◌^◌, ◌≤◌, ◌<◌, ◌≡◌, refl, ◌∙◌, sym, ap, true, false, ◌&&◌, length, arith, min, leb,
  le→leb, take, take_all, Bool-cases, inl, inr,
}
use libcryfs.Common.Equality.{◌==◌, nat_eq}
use libcryfs.Common.Result.{ok, err, guard, runtime_error, ◌>>◌}
use libcryfs.Common.Bytes.{Data}
use libcryfs.Common.Memory.{add64}
use libcryfs.BlockStore.{BlockStore2}
use libcryfs.Trees.NodeStore.{Store}
use libcryfs.Trees.DataTree
use libcryfs.Trees.DataTree.{DataTree}
use libcryfs.Trees.Bytes.{real_count, do_read_bytes, try_read_bytes, read_bytes, read_all_bytes}

pub real_count-eq :
    (count size offset : ℕ)
    → size < 2 ^ 63
    → offset < 2 ^ 63
    → count < 2 ^ 63
    → real_count count size offset ≡ min count (size - offset)
unfolding real_count
real_count-eq count size offset p q r = ground arith

pub take-min :
    (n : ℕ) (bytes : Data) (m : ℕ) → length bytes ≡ m → take (min n m) bytes ≡ take n bytes
take-min n bytes m size = elim (Bool-cases (leb n m)) [
  | inl inside ↦ let e : min n m ≡ n = ground (arith, inside) in ap (λ k. take k bytes) e
  | inr behind ↦
      let low : m ≤ n = ground (arith, behind) in
      take_all (min n m) bytes (omega (arith, size, low))
      ∙ sym (take_all n bytes (omega (arith, size, low)))
]

-- A count that is negative as a signed number.
pub real_count-negative :
    (count size offset : ℕ)
    → size < 2 ^ 63
    → offset ≤ size
    → 2 ^ 63 ≤ count
    → count < 2 ^ 64
    → real_count count size offset ≡ 0
unfolding real_count
real_count-negative count size offset p q r w = ground arith

module _ (S : BlockStore2) (allocate : ℕ → Data) (block_size : ℕ) (ceil_log : ℕ → ℕ → ℕ) where
  pub try_read_bytes-run :
      (t t1 t2 : DataTree) (target target' : Data) (offset count size n : ℕ) (s s1 s2 : Store S)
      → DataTree.tree_num_bytes S allocate block_size ceil_log t s ≡ ok (size, t1, s1)
      → real_count count size offset ≡ n
      → do_read_bytes S allocate block_size ceil_log t1 target offset n s1 ≡ ok (target', t2, s2)
      → try_read_bytes S allocate block_size ceil_log t target offset count s
        ≡ ok (n, target', t2, s2)
  unfolding try_read_bytes
  try_read_bytes-run t t1 t2 target target' offset count size n s s1 s2 sized cut run =
      rw (sized, cut, run) refl

  pub read_bytes-run :
      (t t1 t2 : DataTree) (target target' : Data) (offset count size n : ℕ) (s s1 s2 : Store S)
      → DataTree.tree_num_bytes S allocate block_size ceil_log t s ≡ ok (size, t1, s1)
      → offset ≤ size
      → add64 offset count ≤ size
      → try_read_bytes S allocate block_size ceil_log t1 target offset count s1
        ≡ ok (n, target', t2, s2)
      → read_bytes S allocate block_size ceil_log t target offset count s
        ≡ (guard (n == count) runtime_error >> ok (target', t2, s2))
  unfolding read_bytes
  read_bytes-run t t1 t2 target target' offset count size n s s1 s2 sized low high run =
      let begins : leb offset size ≡ true = le→leb _ _ low in
      let ends : leb (add64 offset count) size ≡ true = le→leb _ _ high in
      rw (sized, begins, ends, run) refl

  pub read_bytes-refused :
      (t t1 : DataTree) (target : Data) (offset count size : ℕ) (s s1 : Store S)
      → DataTree.tree_num_bytes S allocate block_size ceil_log t s ≡ ok (size, t1, s1)
      → (leb offset size && leb (add64 offset count) size) ≡ false
      → read_bytes S allocate block_size ceil_log t target offset count s ≡ err runtime_error
  unfolding read_bytes
  read_bytes-refused t t1 target offset count size s s1 sized outside = rw (sized, outside) refl

  pub read_all_bytes-run :
      (t t1 t2 : DataTree) (target' : Data) (size : ℕ) (s s1 s2 : Store S)
      → DataTree.tree_num_bytes S allocate block_size ceil_log t s ≡ ok (size, t1, s1)
      → do_read_bytes S allocate block_size ceil_log t1 (allocate size) 0 size s1
        ≡ ok (target', t2, s2)
      → read_all_bytes S allocate block_size ceil_log t s ≡ ok (target', t2, s2)
  unfolding read_all_bytes
  read_all_bytes-run t t1 t2 target' size s s1 s2 sized run = rw (sized, run) refl
