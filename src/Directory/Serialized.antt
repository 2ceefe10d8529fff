-- ===== src/Directory/Serialized.antt =====
-- The serialized form of a directory: `DirEntry::serialize`, `deserializeAndAddToVector` (DirEntry.cpp),
-- `DirEntryList::serialize` and `deserializeFrom` (DirEntryList.cpp). A pointer into a block of memory
-- is the block and an offset; a read or a write outside of the block is undefined. A `timespec` holds
-- its 64 bits as an unsigned number. The loop that reads runs on fuel, and returns `none` without it.
pub mod Cursors
pub mod Written
pub mod ReadEntry
pub mod RoundTrip
use libcryfs.Common.{
  ℕ, zero, suc, ◌+◌, ◌-◌, ◌*◌, ◌%◌, ◌^◌, Bool, true, false, not, ◌&&◌, ◌||◌, Option, none, some,
  List, [], ◌∷◌, ◌++◌, ltb, if◌then◌else◌, length,
}
use libcryfs.Common.Equality.{◌==◌, nat_eq}
use libcryfs.Common.Result.{Result, ok, err, guard, assert_failed, undefined, ◌>>=◌, ◌>>◌}
use libcryfs.Common.Bytes.{Data, BlockId, block_id_length, encode, decode}
use libcryfs.Common.Memory.{add64, write_memory}
use libcryfs.Serialization.Deserializer
use libcryfs.Serialization.Deserializer.{Deserializer, Read}
use libcryfs.Directory.Entry.{
  EntryType, dir, file, symlink, same_type, Time, DirEntry, has_file_flag, has_dir_flag,
  has_symlink_flag, new_entry,
}
use libcryfs.Directory.EntryList.{DirEntryList, less}

-- The block that is written, the pointer `dest` into it, and the offset behind the pointer, which is
-- an `unsigned int`.
pub record Cursor : Type 0 where
  pub dest : ℕ
  pub offset : ℕ
  pub memory : Data

unfoldable pub put : Data → Cursor → Result Cursor
put bytes c = do
  memory ← write_memory c.memory (c.dest + c.offset) bytes
  ok (record { dest = c.dest; offset = (c.offset + length bytes) % 2 ^ 32; memory = memory })

unfoldable pub serialize_uint : ℕ → ℕ → Cursor → Result Cursor
serialize_uint n value = put (encode n value)

abbrev pub serialized_time_value_size : ℕ
serialized_time_value_size = 8 + 4

-- The pointer of a call that is given the pointer and the offset added up.
abbrev pub call_at : Cursor → Cursor
call_at c = record { dest = c.dest + c.offset; offset = 0; memory = c.memory }

-- The cursor of the caller after a call has written `size` bytes.
abbrev pub after_call : Cursor → ℕ → Cursor → Cursor
after_call c size c' = record {
  dest = c.dest;
  offset = (c.offset + size) % 2 ^ 32;
  memory = c'.memory;
}

unfoldable pub serialize_time_value : Time → Cursor → Result Cursor
serialize_time_value value c = do
  c1 ← serialize_uint 8 value.seconds (call_at c)
  c2 ← serialize_uint 4 value.nanoseconds c1
  guard (c2.offset == serialized_time_value_size) assert_failed
  ok (after_call c c2.offset c2)

-- The string and its terminating null byte.
unfoldable pub serialize_string : Data → Cursor → Result Cursor
serialize_string value = put (value ++ 0 ∷ [])

unfoldable pub serialize_block_id : BlockId → Cursor → Result Cursor
serialize_block_id = put

abbrev pub type_number : EntryType → ℕ
type_number dir = 0
type_number file = 1
type_number symlink = 2

-- The condition of the assertion of `serialize`.
abbrev pub has_flag_of_type : EntryType → ℕ → Bool
has_flag_of_type type mode =
    (same_type type file
      && (has_file_flag mode && (not (has_dir_flag mode) && not (has_symlink_flag mode))))
    || (same_type type dir
        && (not (has_file_flag mode) && (has_dir_flag mode && not (has_symlink_flag mode))))
    || (same_type type symlink
        && (not (has_file_flag mode) && (not (has_dir_flag mode) && has_symlink_flag mode)))

abbrev pub serialized_size : DirEntry → ℕ
serialized_size e =
    1 + 4 + 4 + 4 + 3 * serialized_time_value_size + (length e.name + 1) + block_id_length

-- `serialize` at a pointer.
unfoldable pub serialize_entry : DirEntry → Cursor → Result Cursor
serialize_entry e c = do
  guard (has_flag_of_type e.entry_type e.mode) assert_failed
  c1 ← serialize_uint 1 (type_number e.entry_type) c
  c2 ← serialize_uint 4 e.mode c1
  c3 ← serialize_uint 4 e.uid c2
  c4 ← serialize_uint 4 e.gid c3
  c5 ← serialize_time_value e.last_access_time c4
  c6 ← serialize_time_value e.last_modification_time c5
  c7 ← serialize_time_value e.last_metadata_change_time c6
  c8 ← serialize_string e.name c7
  c9 ← serialize_block_id e.block_id c8
  guard (c9.offset == serialized_size e) assert_failed
  ok c9

abbrev pub serialized_list_size : DirEntryList → ℕ
serialized_list_size [] = 0
serialized_list_size (e ∷ es) = add64 (serialized_size e) (serialized_list_size es)

-- Whether there is no entry before, or its block id is smaller.
abbrev pub follows : Option BlockId → BlockId → Bool
follows none block_id = true
follows (some before) block_id = less before block_id

-- The loop of `serialize`, with the block id of the entry before.
unfoldable pub serialize_entries : Option BlockId → DirEntryList → Cursor → Result Cursor
serialize_entries before [] c = ok c
serialize_entries before (e ∷ es) c = do
  guard (follows before e.block_id) assert_failed
  c' ← serialize_entry e (call_at c)
  serialize_entries (some e.block_id) es (after_call c (serialized_size e) c')

unfoldable pub serialize : (ℕ → Data) → DirEntryList → Result Data
serialize allocate es = do
  let memory = allocate (serialized_list_size es)
  c ← serialize_entries none es (record { dest = 0; offset = 0; memory = memory })
  ok c.memory

-- A load of an unsigned number behind a pointer, which is counted up.
unfoldable pub deserialize_uint : ℕ → Read ℕ
deserialize_uint n d = do (bytes, d') ← Deserializer.read_raw n d; ok (decode bytes, d')

unfoldable pub deserialize_time_value : Read Time
deserialize_time_value d = do
  (seconds, d1) ← deserialize_uint 8 d
  (nanoseconds, d2) ← deserialize_uint 4 d1
  ok (record { seconds = seconds; nanoseconds = nanoseconds }, d2)

-- `strlen` does not stop at the end of the block.
unfoldable pub deserialize_string : Read Data
deserialize_string d = elim (Deserializer.read_string d) [
  | err thrown ↦ err undefined
  | ok read ↦ ok read
]

unfoldable pub deserialize_block_id : Read BlockId
deserialize_block_id = Deserializer.read_raw block_id_length

abbrev pub type_of_number : ℕ → Option EntryType
type_of_number n =
    if n == 0 then some dir else if n == 1 then some file else if n == 2 then some symlink else none

-- The constructor asserts that the type is one of the three.
unfoldable pub construct :
    Option EntryType → Data → BlockId → ℕ → ℕ → ℕ → Time → Time → Time → Result DirEntry
construct none name block_id mode uid gid access modification change = err assert_failed
construct (some type) name block_id mode uid gid access modification change =
    new_entry name block_id
      (record {
        entry_type = type;
        mode = mode;
        uid = uid;
        gid = gid;
        last_access_time = access;
        last_modification_time = modification;
      })
      change

unfoldable pub deserialize_entry : Read DirEntry
deserialize_entry d = do
  (type, d1) ← deserialize_uint 1 d
  (mode, d2) ← deserialize_uint 4 d1
  (uid, d3) ← deserialize_uint 4 d2
  (gid, d4) ← deserialize_uint 4 d3
  (access, d5) ← deserialize_time_value d4
  (modification, d6) ← deserialize_time_value d5
  (change, d7) ← deserialize_time_value d6
  (name, d8) ← deserialize_string d7
  (block_id, d9) ← deserialize_block_id d8
  e ← construct (type_of_number type) name block_id mode uid gid access modification change
  ok (e, d9)

-- The loop of `deserializeFrom`, with the block id of the entry before.
unfoldable pub deserialize_entries :
    ℕ → Option BlockId → Deserializer → Option (Result DirEntryList)
deserialize_entries zero before d = none
deserialize_entries (suc fuel) before d = elim (ltb d.pos (length d.source)) [
  | false ↦ some (ok [])
  | true ↦ elim (deserialize_entry d) [
    | err thrown ↦ some (err thrown)
    | ok (e, d') ↦ elim (follows before e.block_id) [
      | false ↦ some (err assert_failed)
      | true ↦ elim (deserialize_entries fuel (some e.block_id) d') [
        | none ↦ none
        | some (err thrown) ↦ some (err thrown)
        | some (ok es) ↦ some (ok (e ∷ es))
      ]
    ]
  ]
]

-- Each round takes a byte or more.
unfoldable pub deserialize_from : Data → Option (Result DirEntryList)
deserialize_from bytes = deserialize_entries (suc (length bytes)) none (Deserializer.new bytes)
