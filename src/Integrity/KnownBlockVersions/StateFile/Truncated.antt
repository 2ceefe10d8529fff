-- ===== src/Integrity/KnownBlockVersions/StateFile/Truncated.antt =====
-- A state file that ends within an entry.
use libcryfs.Common.{◌+◌, ◌^◌, ◌<◌, ◌≡◌, arith, length, ◌++◌, length-append}
use libcryfs.Common.Result.{err, undefined}
use libcryfs.Common.Bytes.{Data, block_id_length}
use libcryfs.Common.Memory.{read_memory}
use libcryfs.Serialization.Deserializer
use libcryfs.Integrity.KnownBlockVersions.StateFile.{
  deserialize_known_versions_entry, deserialize_last_update_client_id_entry,
}

-- Where a file ends within the block id of an entry, the block id is read from outside of the
-- file's memory: `readFixedSizeData` does not check the size, as the other reads do.
pub deserialize_entry_truncated :
    (before client_id rest : Data)
    → length client_id ≡ 4
    → length rest < block_id_length
    → length before + (4 + length rest) < 2 ^ 64
    → (deserialize_known_versions_entry (Deserializer.at before (client_id ++ rest))
        ≡ err undefined)
      × (deserialize_last_update_client_id_entry (Deserializer.at before rest) ≡ err undefined)
unfolding deserialize_known_versions_entry deserialize_last_update_client_id_entry
    Deserializer.read_uint Deserializer.read_fixed_size_data Deserializer.read_raw read_memory
deserialize_entry_truncated before client_id rest four short small =
    let size = length-append before (client_id ++ rest) in
    let size' = length-append client_id rest in
    (ground (arith, size, size'), ground (arith, length-append before rest))
