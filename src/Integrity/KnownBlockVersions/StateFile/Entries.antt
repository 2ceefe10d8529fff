-- ===== src/Integrity/KnownBlockVersions/StateFile/Entries.antt =====
-- The loops that read the entries of the two maps.
use libcryfs.Common.{
  ℕ, ◌+◌, ◌*◌, ◌^◌, ◌<◌, ◌≡◌, [], ◌∷◌, ◌++◌, arith, length, All, append_assoc, append-nil,
  length-append,
}
use libcryfs.Common.Equality.{bytes_eq}
use libcryfs.Common.Result.{ok}
use libcryfs.Common.Assoc.{Assoc, NodupKeys, insert_fresh, find_of_NodupKeys-append}
use libcryfs.Common.Bytes.{Data, encode, length-encode}
use libcryfs.Serialization.Deserializer
use libcryfs.Serialization.Fields.{images}
use libcryfs.Integrity.KnownBlockVersions.{ClientIdAndBlockId, key_eq}
use libcryfs.Common.Bytes.{BlockId}
use libcryfs.Integrity.KnownBlockVersions.StateFile.{
  deserialize_known_versions_entry, deserialize_known_versions_entries, deserialize_known_versions,
  deserialize_last_update_client_id_entry, deserialize_last_update_client_id_entries,
  deserialize_last_update_client_ids,
}
use libcryfs.Integrity.KnownBlockVersions.StateFile.Written.{
  IsVersionEntry, IsClientEntry, version_fields, client_fields,
}

version_entry-at :
    (before rest : Data) (e : ClientIdAndBlockId × ℕ)
    → IsVersionEntry e
    → length before + 28 < 2 ^ 64
    → deserialize_known_versions_entry (
        Deserializer.at before (encode 4 e.0.client_id ++ (e.0.block_id ++ (encode 8 e.1 ++ rest))))
      ≡ ok (
        e,
        Deserializer.at (before ++ (encode 4 e.0.client_id ++ (e.0.block_id ++ encode 8 e.1))) rest,
      )
unfolding deserialize_known_versions_entry Deserializer.read_fixed_size_data
version_entry-at before rest (key, version) (client, size, fits) small =
    let id = encode 4 key.client_id in
    let block = key.block_id in
    let put = length-append before id in
    let put' = length-append (before ++ id) block in
    let four = length-encode 4 key.client_id in
    let read =
      rw size at (Deserializer.read_raw-at (before ++ id) (encode 8 version ++ rest) block) in
    rw (
      Deserializer.read_uint-at before (block ++ (encode 8 version ++ rest)) 4 key.client_id client
          (omega arith),
      read,
      Deserializer.read_uint-at ((before ++ id) ++ block) rest 8 version fits
          (omega (arith, put, put', four, size)),
      append_assoc before id block,
      append_assoc before (id ++ block) (encode 8 version),
      append_assoc id block (encode 8 version),
    )

version_entries-at :
    (before rest : Data) (m es : Assoc ClientIdAndBlockId ℕ)
    → All IsVersionEntry es
    → NodupKeys (m ++ es)
    → length before + length es * 28 < 2 ^ 64
    → deserialize_known_versions_entries
        (length es)
        m
        (Deserializer.at before (images (version_fields es) ++ rest))
      ≡ ok (m ++ es, Deserializer.at (before ++ images (version_fields es)) rest)
unfolding deserialize_known_versions_entries
version_entries-at before rest m [] v u small = rw (append-nil m, append-nil before)
version_entries-at before rest m (e ∷ es) v u small =
    let id = encode 4 e.0.client_id in
    let block = e.0.block_id in
    let version = encode 8 e.1 in
    let more = images (version_fields es) in
    let entry = id ++ (block ++ version) in
    let four = length-encode 4 e.0.client_id in
    let eight = length-encode 8 e.1 in
    let put = length-append before entry in
    let size : length entry ≡ 28 = omega (
      arith,
      length-append id (block ++ version),
      length-append block version,
      four,
      eight,
      v.0.1,
    ) in
    let fresh = find_of_NodupKeys-append e.0 e.1 m es u in
    let u' : NodupKeys ((m ++ e ∷ []) ++ es) = rw append_assoc u in
    let ih =
      version_entries-at (before ++ entry) rest (m ++ e ∷ []) es v.1 u'
        (omega (arith, put, size)) in
    let layout : (id ++ (block ++ (version ++ more))) ++ rest
        ≡ id ++ (block ++ (version ++ (more ++ rest))) =
      simp append_assoc in
    let layout' : before ++ (id ++ (block ++ (version ++ more))) ≡ (before ++ entry) ++ more =
      simp append_assoc in
    let whole : m ++ (e ∷ es) ≡ (m ++ e ∷ []) ++ es = simp append_assoc in
    rw
      (
        layout,
        version_entry-at before (more ++ rest) e v.0 (omega arith),
        insert_fresh e.0 e.1 m fresh,
        layout',
        whole,
      )
      ih

client_entry-at :
    (before rest : Data) (e : BlockId × ℕ)
    → IsClientEntry e
    → length before + 20 < 2 ^ 64
    → deserialize_last_update_client_id_entry
        (Deserializer.at before (e.0 ++ (encode 4 e.1 ++ rest)))
      ≡ ok (e, Deserializer.at (before ++ (e.0 ++ encode 4 e.1)) rest)
unfolding deserialize_last_update_client_id_entry Deserializer.read_fixed_size_data
client_entry-at before rest (block, client) (size, fits) small =
    let put = length-append before block in
    let read = rw size at (Deserializer.read_raw-at before (encode 4 client ++ rest) block) in
    rw (
      read,
      Deserializer.read_uint-at (before ++ block) rest 4 client fits (omega (arith, put, size)),
      append_assoc before block (encode 4 client),
    )

client_entries-at :
    (before rest : Data) (m es : Assoc BlockId ℕ)
    → All IsClientEntry es
    → NodupKeys (m ++ es)
    → length before + length es * 20 < 2 ^ 64
    → deserialize_last_update_client_id_entries
        (length es)
        m
        (Deserializer.at before (images (client_fields es) ++ rest))
      ≡ ok (m ++ es, Deserializer.at (before ++ images (client_fields es)) rest)
unfolding deserialize_last_update_client_id_entries
client_entries-at before rest m [] v u small = rw (append-nil m, append-nil before)
client_entries-at before rest m (e ∷ es) v u small =
    let client = encode 4 e.1 in
    let more = images (client_fields es) in
    let entry = e.0 ++ client in
    let put = length-append before entry in
    let size : length entry ≡ 20 =
      omega (arith, length-append e.0 client, length-encode 4 e.1, v.0.0) in
    let fresh = find_of_NodupKeys-append e.0 e.1 m es u in
    let u' : NodupKeys ((m ++ e ∷ []) ++ es) = rw append_assoc u in
    let ih =
      client_entries-at (before ++ entry) rest (m ++ e ∷ []) es v.1 u' (omega (arith, put, size)) in
    let layout : (e.0 ++ (client ++ more)) ++ rest ≡ e.0 ++ (client ++ (more ++ rest)) =
      simp append_assoc in
    let layout' : before ++ (e.0 ++ (client ++ more)) ≡ (before ++ entry) ++ more =
      simp append_assoc in
    let whole : m ++ (e ∷ es) ≡ (m ++ e ∷ []) ++ es = simp append_assoc in
    rw
      (
        layout,
        client_entry-at before (more ++ rest) e v.0 (omega arith),
        insert_fresh e.0 e.1 m fresh,
        layout',
        whole,
      )
      ih

pub known_versions-at :
    (before rest : Data) (m : Assoc ClientIdAndBlockId ℕ)
    → All IsVersionEntry m
    → NodupKeys m
    → length before + (8 + length m * 28) < 2 ^ 64
    → deserialize_known_versions
        (Deserializer.at before (encode 8 (length m) ++ (images (version_fields m) ++ rest)))
      ≡ ok (m, Deserializer.at (before ++ (encode 8 (length m) ++ images (version_fields m))) rest)
unfolding deserialize_known_versions
known_versions-at before rest m v u small =
    let count = encode 8 (length m) in
    let put = length-append before count in
    let eight = length-encode 8 (length m) in
    rw (
      Deserializer.read_uint-at before (images (version_fields m) ++ rest) 8 (length m)
          (omega arith) (omega arith),
      version_entries-at (before ++ count) rest [] m v u (omega (arith, put, eight)),
      append_assoc before count (images (version_fields m)),
    )

pub last_update_client_ids-at :
    (before rest : Data) (m : Assoc BlockId ℕ)
    → All IsClientEntry m
    → NodupKeys m
    → length before + (8 + length m * 20) < 2 ^ 64
    → deserialize_last_update_client_ids
        (Deserializer.at before (encode 8 (length m) ++ (images (client_fields m) ++ rest)))
      ≡ ok (m, Deserializer.at (before ++ (encode 8 (length m) ++ images (client_fields m))) rest)
unfolding deserialize_last_update_client_ids
last_update_client_ids-at before rest m v u small =
    let count = encode 8 (length m) in
    let put = length-append before count in
    let eight = length-encode 8 (length m) in
    rw (
      Deserializer.read_uint-at before (images (client_fields m) ++ rest) 8 (length m) (omega arith)
          (omega arith),
      client_entries-at (before ++ count) rest [] m v u (omega (arith, put, eight)),
      append_assoc before count (images (client_fields m)),
    )
