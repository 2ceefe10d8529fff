-- ===== src/Compressing.antt =====
-- Run length encoding of blocks
-- (src/blockstore/implementations/compressing/compressors/RunLengthEncoding.cpp). A pointer into
-- the data is the data from there on; a stream is its bytes, written at the end and read from the
-- front. The loops of `Compress` and `Decompress` run on fuel, and return `none` without it.
pub mod Runs
pub mod RoundTrip
use libcryfs.Common.{
  ℕ, zero, suc, ◌+◌, ◌-◌, ◌%◌, Bool, true, false, ◌&&◌, Option, none, some, [], ◌∷◌, ◌++◌, ◌≡◌,
  arith, leb, ◌==◌, if◌then◌else◌, length, take, drop, replicate,
}
use libcryfs.Common.Result.{Result, ok, err, guard, assert_failed, ◌>>=◌, ◌>>◌}
use libcryfs.Common.Bytes.{Data, encode, decode}

-- `std::numeric_limits<uint16_t>::max()`
abbrev pub max_run : ℕ
max_run = 65535

-- The loop of `_arbitraryRunLength`, with the offset of the current byte.
unfoldable pub arbitrary_run_from : ℕ → ℕ → ℕ → Data → ℕ
arbitrary_run_from offset last_byte num_identical_bytes [] = offset
arbitrary_run_from offset last_byte num_identical_bytes (current ∷ more) =
    let num = if current == last_byte then num_identical_bytes + 1 else 1 in
    let rest = arbitrary_run_from (offset + 1) current num more in
    if current == last_byte && num == 6 then offset - 5 else rest

-- Not called without data.
unfoldable pub arbitrary_run_length : Data → ℕ
arbitrary_run_length [] = 0
arbitrary_run_length (start ∷ more) =
    arbitrary_run_from 0 ((start + 1) % 256) 1 (take max_run (start ∷ more))

-- The loop of `_countIdenticalBytes`: the bytes that follow and are identical.
unfoldable pub identical_from : ℕ → Data → ℕ
identical_from start [] = 0
identical_from start (current ∷ more) =
    let rest = identical_from start more in if current == start then suc rest else 0

unfoldable pub count_identical_bytes : ℕ → Data → ℕ
count_identical_bytes start more = suc (identical_from start (take (max_run - 1) more))

-- The data that is left, and the output.
unfoldable pub encode_arbitrary_words : Data → Data → Data × Data
encode_arbitrary_words current output =
    let size = arbitrary_run_length current in
    (drop size current, output ++ (encode 2 size ++ take size current))

unfoldable pub encode_identical_words : ℕ → Data → Data → Data × Data
encode_identical_words start more output =
    let size = count_identical_bytes start more in
    (drop size (start ∷ more), output ++ (encode 2 size ++ start ∷ []))

unfoldable pub compress_loop : ℕ → Data → Data → Option Data
compress_loop zero current output = none
compress_loop (suc fuel) [] output = some output
compress_loop (suc fuel) (b ∷ bs) output =
    let (current, output1) = encode_arbitrary_words (b ∷ bs) output in
    elim current [
      | [] ↦ some output1
      | start ∷ more ↦
          (let (current2, output2) = encode_identical_words start more output1 in
            compress_loop fuel current2 output2)
    ]

-- Each round takes one byte or more.
unfoldable pub compress : Data → Option Data
compress data_ = compress_loop (suc (length data_)) data_ []

unfoldable pub has_data : Data → Bool
has_data [] = false
has_data (b ∷ bs) = true

-- `read`, and `good` after it: what is read, and what is left.
unfoldable pub read_stream : ℕ → Data → Result (Data × Data)
read_stream n stream = do
  guard (leb n (length stream)) assert_failed
  ok (take n stream, drop n stream)

unfoldable pub decode_arbitrary_words : Data → Result (Data × Data)
decode_arbitrary_words stream = do (size, s1) ← read_stream 2 stream; read_stream (decode size) s1

unfoldable pub decode_identical_words : Data → Result (Data × Data)
decode_identical_words stream = do
  (size, s1) ← read_stream 2 stream
  (value, s2) ← read_stream 1 s1
  ok (replicate (decode size) (decode value), s2)

unfoldable pub decompress_loop : ℕ → Data → Data → Option (Result Data)
decompress_loop zero stream decompressed = none
decompress_loop (suc fuel) stream decompressed = elim (has_data stream) [
  | false ↦ some (ok decompressed)
  | true ↦ elim (decode_arbitrary_words stream) [
    | err e ↦ some (err e)
    | ok (run, s1) ↦ elim (has_data s1) [
      | false ↦ some (ok (decompressed ++ run))
      | true ↦ elim (decode_identical_words s1) [
        | err e ↦ some (err e)
        | ok (run2, s2) ↦ decompress_loop fuel s2 ((decompressed ++ run) ++ run2)
      ]
    ]
  ]
]

-- Each round takes two bytes or more.
unfoldable pub decompress : Data → Option (Result Data)
decompress stream = decompress_loop (suc (length stream)) stream []
