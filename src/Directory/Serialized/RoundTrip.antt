-- ===== src/Directory/Serialized/RoundTrip.antt =====
-- A directory that is written and read.
use libcryfs.Common.{
  ℕ, zero, suc, ◌^◌, ◌<◌, ◌≡◌, refl, true, false, Option, none, some, [], ◌∷◌, ◌++◌, arith, ltb,
  length, All, length-append,
}
use libcryfs.Common.Result.{ok}
use libcryfs.Common.Bytes.{Data, BlockId}
use libcryfs.Serialization.Deserializer
use libcryfs.Directory.EntryList.{DirEntryList}
use libcryfs.Directory.Serialized.{serialize, deserialize_entries, deserialize_from}
use libcryfs.Directory.Serialized.Written.{
  IsValid, Follows, entry_image, list_image, length-entry_image, serialize-list_image,
}
use libcryfs.Directory.Serialized.ReadEntry.{deserialize_entry-at}

deserialize_entries-at :
    (fuel : ℕ) (last : Option BlockId) (es : DirEntryList) (before : Data)
    → All IsValid es
    → Follows last es
    → length (list_image es) < fuel
    → deserialize_entries fuel last (Deserializer.at before (list_image es)) ≡ some (ok es)
unfolding deserialize_entries
deserialize_entries-at zero last es before v sorted h = absurd (omega (arith, h))
deserialize_entries-at (suc fuel) last [] before v sorted h =
    let done : ltb (length before) (length (before ++ [])) ≡ false =
      ground (arith, length-append before []) in
    rw (deserialize_entries, done) refl
deserialize_entries-at (suc fuel) last (e ∷ es) before v sorted h =
    let size = length-append (entry_image e) (list_image es) in
    let entry_size = length-entry_image e v.0.id_size in
    let whole = length-append before (entry_image e ++ list_image es) in
    let more : ltb (length before) (length (before ++ (entry_image e ++ list_image es))) ≡ true =
      ground arith in
    rw
      (
        deserialize_entries,
        more,
        deserialize_entry-at before (list_image es) e v.0,
        sorted.0,
        deserialize_entries-at fuel (some e.block_id) es (before ++ entry_image e) v.1 sorted.1
            (omega arith),
      )
      refl

-- A directory whose entries are sorted by block ids, with no block id twice, and hold what their
-- types can, with a mode that has the flag of the type, a name without a null byte and a block id
-- of 16 bytes, and whose serialized form is smaller than 2 ^ 32 bytes, is written without an error,
-- and what is written is read back as the same entries. Memory that is allocated has the size that
-- is asked for.
pub deserialize_from-serialize :
    (allocate : ℕ → Data) (allocates : (n : ℕ) → length (allocate n) ≡ n) (es : DirEntryList)
    → All IsValid es
    → Follows none es
    → length (list_image es) < 2 ^ 32
    → (bytes : Data) × (serialize allocate es ≡ ok bytes) × (deserialize_from bytes ≡ some (ok es))
unfolding deserialize_from Deserializer.new
deserialize_from-serialize allocate allocates es v sorted small = (
  list_image es,
  serialize-list_image allocate allocates es v sorted small,
  deserialize_entries-at (suc (length (list_image es))) none es [] v sorted (omega arith),
)
