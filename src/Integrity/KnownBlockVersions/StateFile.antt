-- ===== src/Integrity/KnownBlockVersions/StateFile.antt =====
-- How the known versions are kept between two runs: `_saveStateFile`, `_loadStateFile` and what
-- they call. `allocate` is the allocator, which gives a block of memory of a size with whatever
-- stands in it. A file is its bytes; a file that is not there is `none`. Building the map again
-- with `reserve` has no effect but on speed.
pub mod Written
pub mod Entries
pub mod RoundTrip
pub mod Truncated
use libcryfs.Common.{
  ℕ, zero, suc, ◌+◌, ◌*◌, ◌^◌, ◌<◌, ◌≡◌, refl, Bool, true, false, Option, none, some, List, [], ◌∷◌,
  ◌++◌, arith, length, if◌then◌else◌, not,
}
use libcryfs.Common.Equality.{◌==◌, bytes_eq, nat_eq}
use libcryfs.Common.Result.{Result, ok, err, guard, assert_failed, runtime_error, ◌>>=◌, ◌>>◌}
use libcryfs.Common.Assoc.{Assoc, insert}
use libcryfs.Common.Bytes.{block_id_length, Data, codes}
use libcryfs.Serialization.Serializer
use libcryfs.Serialization.Serializer.{Serializer}
use libcryfs.Serialization.Deserializer
use libcryfs.Serialization.Deserializer.{Deserializer, Read}
use libcryfs.Integrity.KnownBlockVersions.{
  ClientIdAndBlockId, key_eq, KnownBlockVersions, client_id_for_deleted_block,
}
use libcryfs.Common.Bytes.{BlockId}

abbrev pub old_header : Data
old_header = codes "cryfs.integritydata.knownblockversions;0"

abbrev pub header : Data
header = codes "cryfs.integritydata.knownblockversions;1"

unfoldable pub serialize_known_versions_entry :
    ClientIdAndBlockId × ℕ → Serializer → Result Serializer
serialize_known_versions_entry (key, version) s = do
  s1 ← Serializer.write_uint32 key.client_id s
  s2 ← Serializer.write_fixed_size_data key.block_id s1
  Serializer.write_uint64 version s2

abbrev pub serialize_known_versions_entries :
    Assoc ClientIdAndBlockId ℕ → Serializer → Result Serializer
serialize_known_versions_entries [] s = ok s
serialize_known_versions_entries (entry ∷ m) s = do
  s' ← serialize_known_versions_entry entry s
  serialize_known_versions_entries m s'

unfoldable pub serialize_known_versions :
    Assoc ClientIdAndBlockId ℕ → Serializer → Result Serializer
serialize_known_versions m s = do
  s' ← Serializer.write_uint64 (length m) s
  serialize_known_versions_entries m s'

unfoldable pub serialize_last_update_client_id_entry : BlockId × ℕ → Serializer → Result Serializer
serialize_last_update_client_id_entry (block_id, client_id) s = do
  s' ← Serializer.write_fixed_size_data block_id s
  Serializer.write_uint32 client_id s'

abbrev pub serialize_last_update_client_id_entries :
    Assoc BlockId ℕ → Serializer → Result Serializer
serialize_last_update_client_id_entries [] s = ok s
serialize_last_update_client_id_entries (entry ∷ m) s = do
  s' ← serialize_last_update_client_id_entry entry s
  serialize_last_update_client_id_entries m s'

unfoldable pub serialize_last_update_client_ids : Assoc BlockId ℕ → Serializer → Result Serializer
serialize_last_update_client_ids m s = do
  s' ← Serializer.write_uint64 (length m) s
  serialize_last_update_client_id_entries m s'

unfoldable pub deserialize_known_versions_entry : Read (ClientIdAndBlockId × ℕ)
deserialize_known_versions_entry d = do
  (client_id, d1) ← Deserializer.read_uint32 d
  (block_id, d2) ← Deserializer.read_fixed_size_data block_id_length d1
  (version, d3) ← Deserializer.read_uint64 d2
  ok ((record { client_id = client_id; block_id = block_id }, version), d3)

-- The loop, with the entries left and the map so far.
unfoldable pub deserialize_known_versions_entries :
    ℕ → Assoc ClientIdAndBlockId ℕ → Read (Assoc ClientIdAndBlockId ℕ)
deserialize_known_versions_entries zero m d = ok (m, d)
deserialize_known_versions_entries (suc n) m d = do
  (entry, d') ← deserialize_known_versions_entry d
  deserialize_known_versions_entries n (insert entry.0 entry.1 m) d'

unfoldable pub deserialize_known_versions : Read (Assoc ClientIdAndBlockId ℕ)
deserialize_known_versions d = do
  (num_entries, d') ← Deserializer.read_uint64 d
  deserialize_known_versions_entries num_entries [] d'

unfoldable pub deserialize_last_update_client_id_entry : Read (BlockId × ℕ)
deserialize_last_update_client_id_entry d = do
  (block_id, d1) ← Deserializer.read_fixed_size_data block_id_length d
  (client_id, d2) ← Deserializer.read_uint32 d1
  ok ((block_id, client_id), d2)

unfoldable pub deserialize_last_update_client_id_entries :
    ℕ → Assoc BlockId ℕ → Read (Assoc BlockId ℕ)
deserialize_last_update_client_id_entries zero m d = ok (m, d)
deserialize_last_update_client_id_entries (suc n) m d = do
  (entry, d') ← deserialize_last_update_client_id_entry d
  deserialize_last_update_client_id_entries n (insert entry.0 entry.1 m) d'

unfoldable pub deserialize_last_update_client_ids : Read (Assoc BlockId ℕ)
deserialize_last_update_client_ids d = do
  (num_entries, d') ← Deserializer.read_uint64 d
  deserialize_last_update_client_id_entries num_entries [] d'

-- The size that `_saveStateFile` adds up.
abbrev pub state_file_size : KnownBlockVersions → ℕ
state_file_size s =
    Serializer.string_size header
    + Serializer.bool_size
    + (8 + length s.known_versions * (4 + block_id_length + 8))
    + (8 + length s.last_update_client_id * (block_id_length + 4))

module _ (allocate : ℕ → Data) where
  unfoldable pub save_state_file : KnownBlockVersions → Result Data
  save_state_file s = do
    s1 ← Serializer.write_string header (Serializer.new (allocate (state_file_size s)))
    s2 ← Serializer.write_bool s.integrity_violation_on_previous_run s1
    s3 ← serialize_known_versions s.known_versions s2
    s4 ← serialize_last_update_client_ids s.last_update_client_id s3
    Serializer.finished s4

  -- The rest of a file with the old header, which is written in the new format at once.
  unfoldable pub load_old_format :
      KnownBlockVersions → Deserializer → Result (KnownBlockVersions × Option Data)
  load_old_format s d = do
    (versions, d1) ← deserialize_known_versions d
    (clients, d2) ← deserialize_last_update_client_ids d1
    Deserializer.finished d2
    let loaded = record s { known_versions = versions; last_update_client_id = clients }
    saved ← save_state_file loaded
    ok (loaded, some saved)

  -- The rest of a file with the present header.
  unfoldable pub load_format :
      KnownBlockVersions → Deserializer → Result (KnownBlockVersions × Option Data)
  load_format s d = do
    (violation, d1) ← Deserializer.read_bool d
    (versions, d2) ← deserialize_known_versions d1
    (clients, d3) ← deserialize_last_update_client_ids d2
    Deserializer.finished d3
    ok (
      record s {
        integrity_violation_on_previous_run = violation;
        known_versions = versions;
        last_update_client_id = clients;
      },
      none,
    )

  -- The object with its content, and the file that is written if the old one had the old format.
  unfoldable pub load_state_file :
      Option Data → KnownBlockVersions → Result (KnownBlockVersions × Option Data)
  load_state_file none s = ok (s, none)
  load_state_file (some file) s = do
    (loaded_header, d) ← Deserializer.read_string (Deserializer.new file)
    if old_header == loaded_header
        then load_old_format s d
        else (if header == loaded_header then load_format s d else err runtime_error)

  -- The constructor.
  unfoldable pub create : ℕ → Option Data → Result (KnownBlockVersions × Option Data)
  create my_client_id file = do
    guard (not (my_client_id == client_id_for_deleted_block)) assert_failed
    load_state_file file (record {
      integrity_violation_on_previous_run = false;
      known_versions = [];
      last_update_client_id = [];
      my_client_id = my_client_id;
      valid = true;
    })

  -- The destructor: the file that it writes.
  unfoldable pub destroy : KnownBlockVersions → Result (Option Data)
  destroy s = elim s.valid [
    | true ↦ (do saved ← save_state_file s; ok (some saved))
    | false ↦ ok none
  ]
