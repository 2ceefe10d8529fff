-- ===== src/Serialization/Serializer.antt =====
-- `Serializer` (src/cpp-utils/data/Serializer.h): writes values one behind the other into a block
-- of memory of a size that is given in advance.
use libcryfs.Common.{
  ℕ, ◌+◌, ◌^◌, ◌≤◌, ◌<◌, ◌≡◌, Bool, [], ◌∷◌, ◌++◌, arith, leb, le→leb, ◌==◌, ==_refl, if◌then◌else◌,
  length, drop, length-append, drop_all,
}
use libcryfs.Common.Result.{Result, ok, guard, assert_failed, runtime_error, ◌>>=◌, ◌>>◌}
use libcryfs.Common.Bytes.{Data, encode, length-encode}
use libcryfs.Common.Memory.{add64, write_memory, write_memory-append}

pub record Serializer : Type 0 where
  pub pos : ℕ
  pub result : Data

-- The constructor. `memory` is the block that the allocator returned, with whatever stands in it.
unfoldable pub new : Data → Serializer
new memory = record { pos = 0; result = memory }

-- `_writeData`
unfoldable pub write_raw : Data → Serializer → Result Serializer
write_raw bytes s = do
  guard (leb (add64 s.pos (length bytes)) (length s.result)) runtime_error
  result ← write_memory s.result s.pos bytes
  ok (record { pos = s.pos + length bytes; result = result })

-- `_write<DataType>` for an unsigned type of `n` bytes
unfoldable pub write_uint : ℕ → ℕ → Serializer → Result Serializer
write_uint n value s = do
  guard (leb (add64 s.pos n) (length s.result)) runtime_error
  result ← write_memory s.result s.pos (encode n value)
  ok (record { pos = s.pos + n; result = result })

abbrev pub write_uint8 : ℕ → Serializer → Result Serializer
write_uint8 = write_uint 1

abbrev pub write_uint16 : ℕ → Serializer → Result Serializer
write_uint16 = write_uint 2

abbrev pub write_uint32 : ℕ → Serializer → Result Serializer
write_uint32 = write_uint 4

abbrev pub write_uint64 : ℕ → Serializer → Result Serializer
write_uint64 = write_uint 8

unfoldable pub write_bool : Bool → Serializer → Result Serializer
write_bool value = write_uint8 (if value then 1 else 0)

-- The string and its terminating null byte.
unfoldable pub write_string : Data → Serializer → Result Serializer
write_string value = write_raw (value ++ 0 ∷ [])

unfoldable pub write_fixed_size_data : Data → Serializer → Result Serializer
write_fixed_size_data = write_raw

-- The size in front of the bytes.
unfoldable pub write_data : Data → Serializer → Result Serializer
write_data value s = do s' ← write_uint64 (length value) s; write_raw value s'

unfoldable pub write_tail_data : Data → Serializer → Result Serializer
write_tail_data value s = do
  guard (add64 s.pos (length value) == length s.result) assert_failed
  write_raw value s

unfoldable pub finished : Serializer → Result Data
finished s = do guard (s.pos == length s.result) runtime_error; ok s.result

abbrev pub bool_size : ℕ
bool_size = 1

abbrev pub data_size : Data → ℕ
data_size value = 8 + length value

abbrev pub string_size : Data → ℕ
string_size value = length value + 1

-- The serializer that has written `before` and has `junk` left to overwrite.
abbrev pub at : Data → Data → Serializer
at before junk = record { pos = length before; result = before ++ junk }

module _ (before junk : Data) (small : length before + length junk < 2 ^ 64) where
  pub write_raw-at :
      (bytes : Data)
      → length bytes ≤ length junk
      → write_raw bytes (at before junk) ≡ ok (at (before ++ bytes) (drop (length bytes) junk))
  unfolding write_raw
  write_raw-at bytes h =
      let fits : add64 (length before) (length bytes) ≤ length (before ++ junk) =
        omega (arith, length-append before junk) in
      rw (le→leb _ _ fits, write_memory-append before bytes junk h, length-append)

  pub write_uint-at :
      (n value : ℕ)
      → n ≤ length junk
      → write_uint n value (at before junk) ≡ ok (at (before ++ encode n value) (drop n junk))
  unfolding write_uint
  write_uint-at n value h =
      let fits : add64 (length before) n ≤ length (before ++ junk) =
        omega (arith, length-append before junk) in
      let room : length (encode n value) ≤ length junk = omega (arith, length-encode n value) in
      rw (
        le→leb _ _ fits,
        write_memory-append before (encode n value) junk room,
        length-append,
        length-encode,
      )

  pub write_bool-at :
      (value : Bool)
      → 1 ≤ length junk
      → write_bool value (at before junk)
        ≡ ok (at (before ++ encode 1 (if value then 1 else 0)) (drop 1 junk))
  unfolding write_bool
  write_bool-at value h = write_uint-at 1 (if value then 1 else 0) h

pub write_tail_data-at :
    (before junk value : Data)
    → length before + length junk < 2 ^ 64
    → length junk ≡ length value
    → write_tail_data value (at before junk) ≡ ok (at (before ++ value) [])
unfolding write_tail_data
write_tail_data-at before junk value small e =
    let full : add64 (length before) (length value) ≡ length (before ++ junk) =
      omega (arith, length-append before junk) in
    rw (
      full,
      ==_refl,
      write_raw-at before junk small value (omega arith),
      drop_all (length value) junk (omega arith),
    )

pub finished-at : (before : Data) → finished (at before []) ≡ ok (before ++ [])
unfolding finished
finished-at before =
    let e : length (before ++ []) ≡ length before = omega (arith, length-append before []) in
    rw (e, ==_refl)
