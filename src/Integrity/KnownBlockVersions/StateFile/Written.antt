-- ===== src/Integrity/KnownBlockVersions/StateFile/Written.antt =====
-- The state file as a list of fields, and its size.
use libcryfs.Common.{ℕ, ◌+◌, ◌*◌, ◌^◌, ◌<◌, ◌≡◌, ◌≢◌, refl, List, [], ◌∷◌, ◌++◌, arith, length, All}
use libcryfs.Common.Equality.{bytes_eq}
use libcryfs.Common.Result.{◌>>=◌, >>=_assoc}
use libcryfs.Common.Assoc.{Assoc, NodupKeys}
use libcryfs.Common.Bytes.{Data, width}
use libcryfs.Serialization.Serializer
use libcryfs.Serialization.Serializer.{Serializer}
use libcryfs.Serialization.Fields.{
  Field, uint, bool, string, fixed_size_data, write_field, write_fields, write_fields-append,
  fields_size,
}
use libcryfs.Integrity.KnownBlockVersions.{ClientIdAndBlockId, key_eq, KnownBlockVersions}
use libcryfs.Common.Bytes.{BlockId}
use libcryfs.Integrity.KnownBlockVersions.StateFile.{
  header, serialize_known_versions_entry, serialize_known_versions_entries,
  serialize_known_versions, serialize_last_update_client_id_entry,
  serialize_last_update_client_id_entries, serialize_last_update_client_ids, state_file_size,
  save_state_file,
}

-- An entry that its types hold.
abbrev pub IsVersionEntry : ClientIdAndBlockId × ℕ → Type 0
IsVersionEntry (key, version) =
    (key.client_id < width 4) × (length key.block_id ≡ 16) × (version < width 8)

abbrev pub IsClientEntry : BlockId × ℕ → Type 0
IsClientEntry (block_id, client_id) = (length block_id ≡ 16) × (client_id < width 4)

abbrev pub version_fields : Assoc ClientIdAndBlockId ℕ → List Field
version_fields [] = []
version_fields ((key, version) ∷ m) =
    uint 4 key.client_id ∷ fixed_size_data key.block_id ∷ uint 8 version ∷ version_fields m

abbrev pub client_fields : Assoc BlockId ℕ → List Field
client_fields [] = []
client_fields ((block_id, client_id) ∷ m) =
    fixed_size_data block_id ∷ uint 4 client_id ∷ client_fields m

serialize-version_fields :
    (m : Assoc ClientIdAndBlockId ℕ) (s : Serializer)
    → serialize_known_versions_entries m s ≡ write_fields (version_fields m) s
unfolding serialize_known_versions_entry write_field
serialize-version_fields [] s = refl
serialize-version_fields ((key, version) ∷ m) s = simp (serialize-version_fields m, >>=_assoc)

serialize-client_fields :
    (m : Assoc BlockId ℕ) (s : Serializer)
    → serialize_last_update_client_id_entries m s ≡ write_fields (client_fields m) s
unfolding serialize_last_update_client_id_entry write_field
serialize-client_fields [] s = refl
serialize-client_fields ((block_id, client_id) ∷ m) s = simp (serialize-client_fields m, >>=_assoc)

abbrev pub state_fields : KnownBlockVersions → List Field
state_fields s =
    string header
    ∷ bool s.integrity_violation_on_previous_run
    ∷ uint 8 (length s.known_versions)
    ∷ (version_fields s.known_versions
        ++ (uint 8 (length s.last_update_client_id) ∷ client_fields s.last_update_client_id))

pub save-state_fields :
    (allocate : ℕ → Data) (s : KnownBlockVersions)
    → save_state_file allocate s ≡ (
        write_fields (state_fields s) (Serializer.new (allocate (state_file_size s)))
        >>= Serializer.finished)
unfolding save_state_file serialize_known_versions serialize_last_update_client_ids write_field
save-state_fields allocate s =
    simp (>>=_assoc, write_fields-append, serialize-version_fields, serialize-client_fields)

pub fields_size-version_fields :
    (m : Assoc ClientIdAndBlockId ℕ) (gs : List Field)
    → All IsVersionEntry m
    → fields_size (version_fields m ++ gs) ≡ length m * 28 + fields_size gs
fields_size-version_fields [] gs v = omega arith
fields_size-version_fields (entry ∷ m) gs v = omega (arith, fields_size-version_fields m gs v.1)

fields_size-client_fields :
    (m : Assoc BlockId ℕ) → All IsClientEntry m → fields_size (client_fields m) ≡ length m * 20
fields_size-client_fields [] v = omega arith
fields_size-client_fields (entry ∷ m) v = omega (arith, fields_size-client_fields m v.1)

-- The state holds what its types hold, each key once, and its file is not larger than 64 bits.
pub record IsStorable (s : KnownBlockVersions) : Type 0 where
  pub client : s.my_client_id ≢ 0
  pub versions : All IsVersionEntry s.known_versions
  pub clients : All IsClientEntry s.last_update_client_id
  pub distinct_versions : NodupKeys s.known_versions
  pub distinct_clients : NodupKeys s.last_update_client_id
  pub small : state_file_size s < 2 ^ 64

pub size-state_fields :
    (s : KnownBlockVersions) → IsStorable s → fields_size (state_fields s) ≡ state_file_size s
size-state_fields s v = omega (
  arith,
  fields_size-version_fields s.known_versions
      (uint 8 (length s.last_update_client_id) ∷ client_fields s.last_update_client_id) v.versions,
  fields_size-client_fields s.last_update_client_id v.clients,
)
