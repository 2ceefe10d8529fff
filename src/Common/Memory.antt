-- ===== src/Common/Memory.antt =====
-- `memcpy` from and into an allocated block, with the addresses that the code computes.
use Prim.Native.Nat.{ℕ, ◌+◌, ◌-◌, ◌%◌, ◌^◌, ◌≤◌}
use mathlib.Core.Path.{◌≡◌, refl}
use mathlib.Core.List.{◌++◌, append_assoc}
use native.Mathlib.Omega.{arith}
use libcryfs.Common.Tests.{leb, le→leb, if◌then◌else◌}
use libcryfs.Common.Lists.{
  length, take, drop, length-append, take-append, drop-append, drop-append_add, take-append_add,
}
use libcryfs.Common.Result.{Result, ok, err, undefined}
use libcryfs.Common.Bytes.{Data}

-- `a + b` and `a - b` on `size_t` and `uint64_t`.
abbrev pub add64 : ℕ → ℕ → ℕ
add64 a b = (a + b) % 2 ^ 64

abbrev pub sub64 : ℕ → ℕ → ℕ
sub64 a b = (a + 2 ^ 64 - b) % 2 ^ 64

-- `memcpy(target, source.dataOffset(offset), size)`
unfoldable pub read_memory : Data → ℕ → ℕ → Result Data
read_memory source offset size =
    if leb (offset + size) (length source)
    then ok (take size (drop offset source))
    else err undefined

-- `memcpy(target.dataOffset(offset), bytes, length(bytes))`
unfoldable pub write_memory : Data → ℕ → Data → Result Data
write_memory target offset bytes =
    if leb (offset + length bytes) (length target)
    then ok (take offset target ++ (bytes ++ drop (offset + length bytes) target))
    else err undefined

-- A read of the middle part of a block.
pub read_memory-append :
    (before bytes rest : Data)
    → read_memory (before ++ (bytes ++ rest)) (length before) (length bytes) ≡ ok bytes
unfolding read_memory
read_memory-append before bytes rest =
    let fits : length before + length bytes ≤ length (before ++ (bytes ++ rest)) =
      omega (arith, length-append before (bytes ++ rest), length-append bytes rest) in
    rw (le→leb _ _ fits, drop-append, take-append)

-- A write behind `before` keeps it and what follows.
pub write_memory-append :
    (before bytes junk : Data)
    → length bytes ≤ length junk
    → write_memory (before ++ junk) (length before) bytes
      ≡ ok ((before ++ bytes) ++ drop (length bytes) junk)
unfolding write_memory
write_memory-append before bytes junk h =
    let fits : length before + length bytes ≤ length (before ++ junk) =
      omega (arith, length-append before junk) in
    rw (le→leb _ _ fits, take-append, drop-append_add, append_assoc)

-- The same, with the offset and the size that the code computes.
pub read_memory-at :
    (before bytes rest : Data) (offset size : ℕ)
    → offset ≡ length before
    → size ≡ length bytes
    → read_memory (before ++ (bytes ++ rest)) offset size ≡ ok bytes
read_memory-at before bytes rest offset size e f = rw (e, f) (read_memory-append before bytes rest)

pub write_memory-at :
    (before bytes junk : Data) (offset : ℕ)
    → offset ≡ length before
    → length bytes ≤ length junk
    → write_memory (before ++ junk) offset bytes
      ≡ ok ((before ++ bytes) ++ drop (length bytes) junk)
write_memory-at before bytes junk offset e h = rw e (write_memory-append before bytes junk h)

-- The memory behind a header.
pub read_memory-behind :
    (before rest : Data) (offset size : ℕ)
    → offset + size ≤ length rest
    → read_memory (before ++ rest) (length before + offset) size ≡ ok (take size (drop offset rest))
unfolding read_memory
read_memory-behind before rest offset size h =
    let fits : length before + offset + size ≤ length (before ++ rest) =
      omega (arith, length-append before rest) in
    rw (le→leb _ _ fits, drop-append_add before rest offset) refl

-- The memory in which the bytes from `offset` on are replaced.
abbrev pub replaced : Data → ℕ → Data → Data
replaced target offset bytes = take offset target ++ (bytes ++ drop (offset + length bytes) target)

pub write_memory-behind :
    (before rest bytes : Data) (offset : ℕ)
    → offset + length bytes ≤ length rest
    → write_memory (before ++ rest) (length before + offset) bytes
      ≡ ok (before ++ replaced rest offset bytes)
unfolding write_memory
write_memory-behind before rest bytes offset h =
    let fits : length before + offset + length bytes ≤ length (before ++ rest) =
      omega (arith, length-append before rest) in
    let e : length before + offset + length bytes ≡ length before + (offset + length bytes) =
      omega arith in
    rw
      (
        le→leb _ _ fits,
        take-append_add before rest offset,
        e,
        drop-append_add before rest (offset + length bytes),
        append_assoc,
      )
      refl
