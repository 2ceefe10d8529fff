-- ===== src/Directory/Serialized/ReadEntry.antt =====
-- One entry, read from its bytes.
use libcryfs.Common.{ℕ, ◌<◌, ◌≡◌, refl, true, some, [], ◌∷◌, ◌++◌, arith, append_assoc}
use libcryfs.Common.Equality.{nat_eq}
use libcryfs.Common.Result.{ok}
use libcryfs.Common.Bytes.{Data, encode, block_id_length, width, length-encode, decode-encode}
use libcryfs.Serialization.Deserializer
use libcryfs.Serialization.Deserializer.{Deserializer}
use libcryfs.Directory.Entry.{
  EntryType, dir, file, symlink, Time, DirEntry, add_flag, is_known_mode, new_entry,
}
use libcryfs.Directory.Serialized.{
  deserialize_uint, deserialize_time_value, deserialize_string, deserialize_block_id,
  type_of_number, type_number, construct, deserialize_entry, has_flag_of_type,
}
use libcryfs.Directory.Serialized.Written.{time_image, entry_image, IsValid}

-- The flags that stand already are not changed.
add_flag-same :
    (type : EntryType) (mode : ℕ)
    → has_flag_of_type type mode ≡ true
    → (add_flag type mode ≡ mode) × (is_known_mode type mode ≡ true)
add_flag-same dir mode h = ground arith
add_flag-same file mode h = ground arith
add_flag-same symlink mode h = ground arith

deserialize_uint-at :
    (before rest : Data) (n v : ℕ)
    → v < width n
    → deserialize_uint n (Deserializer.at before (encode n v ++ rest))
      ≡ ok (v, Deserializer.at (before ++ encode n v) rest)
unfolding deserialize_uint
deserialize_uint-at before rest n v fits =
    let read : Deserializer.read_raw n (Deserializer.at before (encode n v ++ rest))
        ≡ ok (encode n v, Deserializer.at (before ++ encode n v) rest) =
      rw (length-encode n v) at (Deserializer.read_raw-at before rest (encode n v)) in
    rw (read, decode-encode n v fits)

deserialize_time_value-at :
    (before rest : Data) (t : Time)
    → (t.seconds < width 8) × (t.nanoseconds < width 4)
    → deserialize_time_value (Deserializer.at before (time_image t ++ rest))
      ≡ ok (t, Deserializer.at (before ++ time_image t) rest)
unfolding deserialize_time_value
deserialize_time_value-at before rest t fits =
    rw
      (
        append_assoc (encode 8 t.seconds) (encode 4 t.nanoseconds) rest,
        deserialize_uint-at before (encode 4 t.nanoseconds ++ rest) 8 t.seconds fits.0,
        deserialize_uint-at (before ++ encode 8 t.seconds) rest 4 t.nanoseconds fits.1,
        append_assoc before,
      )
      refl

type_of_number-type_number : (type : EntryType) → type_of_number (type_number type) ≡ some type
type_of_number-type_number dir = refl
type_of_number-type_number file = refl
type_of_number-type_number symlink = refl

type_number-lt : (type : EntryType) → type_number type < width 1
type_number-lt dir = omega arith
type_number-lt file = omega arith
type_number-lt symlink = omega arith

construct-valid :
    (e : DirEntry)
    → IsValid e
    → construct
        (type_of_number (type_number e.entry_type))
        e.name
        e.block_id
        e.mode
        e.uid
        e.gid
        e.last_access_time
        e.last_modification_time
        e.last_metadata_change_time
      ≡ ok e
unfolding construct new_entry
construct-valid e v =
    let same = add_flag-same e.entry_type e.mode v.flag in
    rw (type_of_number-type_number e.entry_type, construct, same.0, same.1) refl

deserialize_string-at :
    (before rest value : Data)
    → Deserializer.IsText value
    → deserialize_string (Deserializer.at before ((value ++ 0 ∷ []) ++ rest))
      ≡ ok (value, Deserializer.at (before ++ (value ++ 0 ∷ [])) rest)
unfolding deserialize_string
deserialize_string-at before rest value h =
    rw (deserialize_string, Deserializer.read_string-at before rest value h) refl

-- The entry is read back, and what follows it is left.
pub deserialize_entry-at :
    (before rest : Data) (e : DirEntry)
    → IsValid e
    → deserialize_entry (Deserializer.at before (entry_image e ++ rest))
      ≡ ok (e, Deserializer.at (before ++ entry_image e) rest)
unfolding deserialize_entry deserialize_block_id
deserialize_entry-at before rest e v =
    let ty = encode 1 (type_number e.entry_type) in
    let mode = encode 4 e.mode in
    let uid = encode 4 e.uid in
    let gid = encode 4 e.gid in
    let access = time_image e.last_access_time in
    let modification = time_image e.last_modification_time in
    let change = time_image e.last_metadata_change_time in
    let text = e.name ++ 0 ∷ [] in
    let r8 = e.block_id ++ rest in
    let r7 = text ++ r8 in
    let r6 = change ++ r7 in
    let r5 = modification ++ r6 in
    let r4 = access ++ r5 in
    let r3 = gid ++ r4 in
    let r2 = uid ++ r3 in
    let r1 = mode ++ r2 in
    let b1 = before ++ ty in
    let b2 = b1 ++ mode in
    let b3 = b2 ++ uid in
    let b4 = b3 ++ gid in
    let b5 = b4 ++ access in
    let b6 = b5 ++ modification in
    let b7 = b6 ++ change in
    let split : entry_image e ++ rest ≡ ty ++ r1 = simp append_assoc in
    let joined : (b7 ++ text) ++ e.block_id ≡ before ++ entry_image e = simp append_assoc in
    let last : Deserializer.read_raw block_id_length (Deserializer.at (b7 ++ text) r8)
        ≡ ok (e.block_id, Deserializer.at ((b7 ++ text) ++ e.block_id) rest) =
      rw v.id_size at (Deserializer.read_raw-at (b7 ++ text) rest e.block_id) in
    rw
      (
        split,
        deserialize_uint-at before r1 1 (type_number e.entry_type) (type_number-lt e.entry_type),
        deserialize_uint-at b1 r2 4 e.mode v.mode_fits,
        deserialize_uint-at b2 r3 4 e.uid v.uid_fits,
        deserialize_uint-at b3 r4 4 e.gid v.gid_fits,
        deserialize_time_value-at b4 r5 e.last_access_time v.access_fits,
        deserialize_time_value-at b5 r6 e.last_modification_time v.modification_fits,
        deserialize_time_value-at b6 r7 e.last_metadata_change_time v.change_fits,
        deserialize_string-at b7 r8 e.name v.text,
        last,
        construct-valid e v,
        joined,
      )
      refl
