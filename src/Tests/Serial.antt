-- ===== src/Tests/Serial.antt =====
-- The serialized forms.
use libcryfs.Common.{◌≡◌, refl, true, List, [], ◌∷◌, ◌++◌, arith, replicate, map}
use libcryfs.Common.Result.{ok, err, assert_failed, undefined, ◌>>=◌}
use libcryfs.Common.Bytes.{Data, codes, encode}
use libcryfs.Common.Memory.{write_memory}
use libcryfs.Serialization.Serializer
use libcryfs.Serialization.Deserializer
use libcryfs.Serialization.Fields.{
  Field, uint, bool, string, fixed_size_data, sized_data, kind, write_field, serialize, deserialize,
}
use libcryfs.Serialization.Fields.RoundTrip.{deserialize-serialize}
use libcryfs.Integrity.KnownBlockVersions.StateFile.{
  deserialize_known_versions_entry, deserialize_last_update_client_id_entry,
}
use libcryfs.Integrity.KnownBlockVersions.StateFile.Truncated.{deserialize_entry_truncated}

abbrev program : Unit {0}
program = tt

abbrev record_fields : List Field
record_fields =
    string (codes "cryfs")
    ∷ bool true
    ∷ uint 4 305419896
    ∷ sized_data (9 ∷ 8 ∷ [])
    ∷ fixed_size_data (1 ∷ 2 ∷ 3 ∷ [])
    ∷ []

abbrev tail : Data
tail = 255 ∷ 0 ∷ []

record_bytes :
    serialize (replicate 26 205) record_fields tail
    ≡ ok (
        codes "cryfs"
        ++ (0 ∷ 1 ∷ 120 ∷ 86 ∷ 52 ∷ 18 ∷ 2 ∷ 0 ∷ 0 ∷ 0 ∷ 0 ∷ 0 ∷ 0 ∷ 0 ∷ 9 ∷ 8 ∷ 1 ∷ 2 ∷ 3 ∷ 255 ∷ 0
            ∷ []))
unfolding serialize write_field Serializer.new Serializer.write_uint Serializer.write_bool
    Serializer.write_string Serializer.write_data Serializer.write_fixed_size_data
    Serializer.write_raw Serializer.write_tail_data Serializer.finished write_memory encode
record_bytes = refl

memory_too_small : serialize (replicate 25 205) record_fields tail ≡ err assert_failed
unfolding serialize write_field Serializer.new Serializer.write_uint Serializer.write_bool
    Serializer.write_string Serializer.write_data Serializer.write_fixed_size_data
    Serializer.write_raw Serializer.write_tail_data Serializer.finished write_memory encode
memory_too_small = refl

deserialize-serialize_example :
    (serialize (replicate 26 205) record_fields tail >>= deserialize (map kind record_fields))
    ≡ ok (record_fields, tail)
deserialize-serialize_example =
    deserialize-serialize (replicate 26 205) record_fields tail (omega arith) (omega arith)
      (omega arith)

deserialize_entry_truncated_example :
    (deserialize_known_versions_entry
        (Deserializer.at (1 ∷ []) ((7 ∷ 0 ∷ 0 ∷ 0 ∷ []) ++ (5 ∷ 6 ∷ [])))
      ≡ err undefined)
    × (deserialize_last_update_client_id_entry (Deserializer.at (1 ∷ []) (5 ∷ 6 ∷ []))
        ≡ err undefined)
deserialize_entry_truncated_example =
    deserialize_entry_truncated (1 ∷ []) (7 ∷ 0 ∷ 0 ∷ 0 ∷ []) (5 ∷ 6 ∷ []) refl (omega arith)
      (omega arith)
