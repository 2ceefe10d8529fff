-- ===== src/Serialization/Deserializer.antt =====
-- `Deserializer` (src/cpp-utils/data/Deserializer.h): reads values one behind the other from a
-- block of memory. A read by `read_raw` has no check of its own: outside of the block it is
-- undefined.
use libcryfs.Common.{
  ℕ, suc, ◌+◌, ◌^◌, ◌≤◌, ◌<◌, ◌≡◌, refl, ◌≢◌, Bool, true, false, Option, none, some, [], ◌∷◌, ◌++◌,
  arith, leb, le→leb, ◌==◌, ==_refl, if◌then◌else◌, length, take, drop, All, length-append,
  take-append, drop-append, append_assoc, append-nil,
}
use libcryfs.Common.Result.{Result, ok, err, guard, runtime_error, ◌>>=◌, ◌>>◌}
use libcryfs.Common.Bytes.{Data, encode, decode, width, length-encode, decode-encode}
use libcryfs.Common.Memory.{add64, sub64, read_memory, read_memory-append}

pub record Deserializer : Type 0 where
  pub pos : ℕ
  pub source : Data

unfoldable pub new : Data → Deserializer
new source = record { pos = 0; source = source }

-- What a read leaves and returns.
abbrev pub Read : Type 0 → Type 0
Read A = Deserializer → Result (A × Deserializer)

-- `_readData`
unfoldable pub read_raw : ℕ → Read Data
read_raw size d = do
  bytes ← read_memory d.source d.pos size
  ok (bytes, record d { pos = d.pos + size })

-- `_read<DataType>` for an unsigned type of `n` bytes
unfoldable pub read_uint : ℕ → Read ℕ
read_uint n d = do
  guard (leb (add64 d.pos n) (length d.source)) runtime_error
  bytes ← read_memory d.source d.pos n
  ok (decode bytes, record d { pos = d.pos + n })

abbrev pub read_uint8 : Read ℕ
read_uint8 = read_uint 1

abbrev pub read_uint16 : Read ℕ
read_uint16 = read_uint 2

abbrev pub read_uint32 : Read ℕ
read_uint32 = read_uint 4

abbrev pub read_uint64 : Read ℕ
read_uint64 = read_uint 8

unfoldable pub read_bool : Read Bool
read_bool d = do
  (read, d') ← read_uint8 d
  if read == 1 then ok (true, d') else if read == 0 then ok (false, d') else err runtime_error

unfoldable pub read_data : Read Data
read_data d = do
  (size, d') ← read_uint64 d
  guard (leb (add64 d'.pos size) (length d'.source)) runtime_error
  read_raw size d'

unfoldable pub read_tail_data : Read Data
read_tail_data d = read_raw (sub64 (length d.source) d.pos) d

unfoldable pub read_fixed_size_data : ℕ → Read Data
read_fixed_size_data size = read_raw size

-- `memchr(p, 0, n)`: the offset of the first null byte.
unfoldable pub null_byte : Data → Option ℕ
null_byte [] = none
null_byte (b ∷ bs) =
    if b == 0 then some 0 else elim (null_byte bs) [ none ↦ none | some i ↦ some (suc i) ]

unfoldable pub read_string : Read Data
unfolding null_byte
read_string d = elim (null_byte (drop d.pos d.source)) [
  | none ↦ err runtime_error
  | some size ↦ ok (take size (drop d.pos d.source), record d { pos = d.pos + (size + 1) })
]

unfoldable pub finished : Deserializer → Result (Unit {0})
finished d = guard (d.pos == length d.source) runtime_error

-- The deserializer that has read `before` and has `rest` to read.
abbrev pub at : Data → Data → Deserializer
at before rest = record { pos = length before; source = before ++ rest }

-- A byte string without a null byte: what a C string can hold.
abbrev pub IsText : Data → Type 0
IsText = All (λ b. b ≢ 0)

null_byte-append :
    (value rest : Data) → IsText value → null_byte (value ++ (0 ∷ rest)) ≡ some (length value)
unfolding null_byte
null_byte-append [] rest h = refl
null_byte-append (b ∷ value) rest h = ground (arith, null_byte-append value rest h.1)

module _ (before rest : Data) where
  pub read_raw-at :
      (bytes : Data)
      → read_raw (length bytes) (at before (bytes ++ rest)) ≡ ok (bytes, at (before ++ bytes) rest)
  unfolding read_raw
  read_raw-at bytes = rw (read_memory-append before bytes rest, length-append, append_assoc)

  pub read_string-at :
      (value : Data)
      → IsText value
      → read_string (at before ((value ++ 0 ∷ []) ++ rest))
        ≡ ok (value, at (before ++ (value ++ 0 ∷ [])) rest)
  unfolding read_string
  read_string-at value h =
      let null : null_byte (drop (length before) (before ++ ((value ++ 0 ∷ []) ++ rest)))
          ≡ some (length value) =
        rw (drop-append before ((value ++ 0 ∷ []) ++ rest), append_assoc)
          (null_byte-append value rest h) in
      rw (null, read_string)
        (rw
          (
            drop-append before ((value ++ 0 ∷ []) ++ rest),
            append_assoc value (0 ∷ []) rest,
            take-append,
            length-append,
            length-append,
          )
          (rw (append_assoc before (value ++ 0 ∷ []) rest, append_assoc value (0 ∷ []) rest)))

  module _ (n value : ℕ) (fits : value < width n) (small : length before + n < 2 ^ 64) where
    pub read_uint-at :
        read_uint n (at before (encode n value ++ rest))
        ≡ ok (value, at (before ++ encode n value) rest)
    unfolding read_uint
    read_uint-at =
        let size = length-encode n value in
        let inside : add64 (length before) n ≤ length (before ++ (encode n value ++ rest)) = omega (
          arith,
          size,
          length-append before (encode n value ++ rest),
          length-append (encode n value) rest,
        ) in
        let read : read_memory (before ++ (encode n value ++ rest)) (length before) n
            ≡ ok (encode n value) =
          rw size at (read_memory-append before (encode n value) rest) in
        rw (le→leb _ _ inside, read, decode-encode n value fits, length-append, size, append_assoc)

pub read_bool-at :
    (before rest : Data) (value : Bool)
    → length before + 1 < 2 ^ 64
    → read_bool (at before (encode 1 (if value then 1 else 0) ++ rest))
      ≡ ok (value, at (before ++ encode 1 (if value then 1 else 0)) rest)
unfolding read_bool
read_bool-at before rest true small = rw (read_uint-at before rest 1 1 (omega arith) small)
read_bool-at before rest false small = rw (read_uint-at before rest 1 0 (omega arith) small)

pub read_tail_data-at :
    (before rest : Data)
    → length before + length rest < 2 ^ 64
    → read_tail_data (at before rest) ≡ ok (rest, at (before ++ rest) [])
unfolding read_tail_data
read_tail_data-at before rest small =
    let left : sub64 (length (before ++ rest)) (length before) ≡ length rest =
      omega (arith, length-append before rest) in
    rw left (rw append-nil at (read_raw-at before [] rest))

pub finished-at : (before : Data) → finished (at before []) ≡ ok tt
unfolding finished
finished-at before =
    let e : length (before ++ []) ≡ length before = omega (arith, length-append before []) in
    rw (e, ==_refl)
