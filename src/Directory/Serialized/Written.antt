-- ===== src/Directory/Serialized/Written.antt =====
-- The bytes of a directory, as they are written.
use libcryfs.Common.{
  ℕ, ◌+◌, ◌^◌, ap, ◌≤◌, ◌<◌, ◌≡◌, refl, true, [], ◌∷◌, ◌++◌, arith, length, drop, length-append,
  length-drop, append-nil, append_assoc, drop-drop,
}
use libcryfs.Common.Equality.{◌==◌, nat_eq}
use libcryfs.Common.Result.{ok}
use libcryfs.Common.Bytes.{Data, BlockId, encode, length-encode, width}
use libcryfs.Directory.Entry.{Time, DirEntry}
use libcryfs.Directory.EntryList.{DirEntryList}
use libcryfs.Directory.Serialized.{
  serialize_uint, serialize_time_value, serialize_string, serialize_block_id, serialize_entry,
  type_number, has_flag_of_type, serialized_size, serialized_list_size, serialize_entries,
  serialize, follows,
}
use libcryfs.Common.{Option, none, some, All, drop_all}
use libcryfs.Serialization.Deserializer.{IsText}
use libcryfs.Directory.Serialized.Cursors.{at, put-at, call_at-at, after_call-at}

abbrev pub time_image : Time → Data
time_image t = encode 8 t.seconds ++ encode 4 t.nanoseconds

pub length-time_image : (t : Time) → length (time_image t) ≡ 12
length-time_image t = omega (
  arith,
  length-append (encode 8 t.seconds) (encode 4 t.nanoseconds),
  length-encode 8 t.seconds,
  length-encode 4 t.nanoseconds,
)

serialize_time_value-at :
    (front before junk : Data) (t : Time)
    → 12 ≤ length junk
    → length before + 12 < 2 ^ 32
    → serialize_time_value t (at front before junk)
      ≡ ok (at front (before ++ time_image t) (drop 12 junk))
unfolding serialize_time_value serialize_uint
serialize_time_value-at front before junk t h small =
    let left = length-drop 8 junk in
    let size = length-time_image t in
    let full : (length (time_image t) == 12) ≡ true = ground (arith, size) in
    rw
      (
        call_at-at front before junk,
        put-at (front ++ before) [] junk (encode 8 t.seconds) 8 (length-encode 8 t.seconds)
            (omega (arith, h)) (omega arith),
        put-at (front ++ before) (encode 8 t.seconds) (drop 8 junk) (encode 4 t.nanoseconds) 4
            (length-encode 4 t.nanoseconds) (omega (arith, left, h))
            (omega (arith, length-encode 8 t.seconds)),
        drop-drop,
        full,
      )
      (ap ok (
        after_call-at front before junk (time_image t) (drop 12 junk) (length (time_image t)) refl
          (omega (arith, size, small))))

-- The parts of an entry in front of its name.
abbrev pub head_image : DirEntry → Data
head_image e =
    encode 1 (type_number e.entry_type)
    ++ (encode 4 e.mode
        ++ (encode 4 e.uid
            ++ (encode 4 e.gid
                ++ (time_image e.last_access_time
                    ++ (time_image e.last_modification_time
                        ++ time_image e.last_metadata_change_time)))))

abbrev pub entry_image : DirEntry → Data
entry_image e = head_image e ++ ((e.name ++ 0 ∷ []) ++ e.block_id)

pub length-head_image : (e : DirEntry) → length (head_image e) ≡ 49
length-head_image e =
    let a = time_image e.last_access_time in
    let m = time_image e.last_modification_time in
    let c = time_image e.last_metadata_change_time in
    omega (
      arith,
      length-append (encode 1 (type_number e.entry_type))
          (encode 4 e.mode ++ (encode 4 e.uid ++ (encode 4 e.gid ++ (a ++ (m ++ c))))),
      length-append (encode 4 e.mode) (encode 4 e.uid ++ (encode 4 e.gid ++ (a ++ (m ++ c)))),
      length-append (encode 4 e.uid) (encode 4 e.gid ++ (a ++ (m ++ c))),
      length-append (encode 4 e.gid) (a ++ (m ++ c)),
      length-append a (m ++ c),
      length-append m c,
      length-encode 1 (type_number e.entry_type),
      length-encode 4 e.mode,
      length-encode 4 e.uid,
      length-encode 4 e.gid,
      length-time_image e.last_access_time,
      length-time_image e.last_modification_time,
      length-time_image e.last_metadata_change_time,
    )

pub length-entry_image :
    (e : DirEntry) → length e.block_id ≡ 16 → length (entry_image e) ≡ serialized_size e
length-entry_image e size = omega (
  arith,
  size,
  length-head_image e,
  length-append (head_image e) ((e.name ++ 0 ∷ []) ++ e.block_id),
  length-append (e.name ++ 0 ∷ []) e.block_id,
  length-append e.name (0 ∷ []),
)

serialize_entry-at :
    (front junk : Data) (e : DirEntry)
    → has_flag_of_type e.entry_type e.mode ≡ true
    → length e.block_id ≡ 16
    → serialized_size e ≤ length junk
    → serialized_size e < 2 ^ 32
    → serialize_entry e (at front [] junk)
      ≡ ok (at front (entry_image e) (drop (serialized_size e) junk))
unfolding serialize_entry serialize_uint serialize_string serialize_block_id
serialize_entry-at front junk e flag size h small =
    let ty = encode 1 (type_number e.entry_type) in
    let b2 = ty ++ encode 4 e.mode in
    let b3 = b2 ++ encode 4 e.uid in
    let b4 = b3 ++ encode 4 e.gid in
    let b5 = b4 ++ time_image e.last_access_time in
    let b6 = b5 ++ time_image e.last_modification_time in
    let b7 = b6 ++ time_image e.last_metadata_change_time in
    let text = e.name ++ 0 ∷ [] in
    let l1 = length-drop 1 junk in
    let l5 = length-drop 5 junk in
    let l9 = length-drop 9 junk in
    let l13 = length-drop 13 junk in
    let l25 = length-drop 25 junk in
    let l37 = length-drop 37 junk in
    let l49 = length-drop 49 junk in
    let ln = length-drop (49 + (length e.name + 1)) junk in
    let n = length-append e.name (0 ∷ []) in
    let s1 : length ty ≡ 1 = length-encode 1 (type_number e.entry_type) in
    let s2 : length b2 ≡ 5 =
      omega (arith, length-append ty (encode 4 e.mode), s1, length-encode 4 e.mode) in
    let s3 : length b3 ≡ 9 =
      omega (arith, length-append b2 (encode 4 e.uid), s2, length-encode 4 e.uid) in
    let s4 : length b4 ≡ 13 =
      omega (arith, length-append b3 (encode 4 e.gid), s3, length-encode 4 e.gid) in
    let s5 : length b5 ≡ 25 = omega (
      arith,
      length-append b4 (time_image e.last_access_time),
      s4,
      length-time_image e.last_access_time,
    ) in
    let s6 : length b6 ≡ 37 = omega (
      arith,
      length-append b5 (time_image e.last_modification_time),
      s5,
      length-time_image e.last_modification_time,
    ) in
    let s7 : length b7 ≡ 49 = omega (
      arith,
      length-append b6 (time_image e.last_metadata_change_time),
      s6,
      length-time_image e.last_metadata_change_time,
    ) in
    let s8 = length-append b7 text in
    let joined : (b7 ++ text) ++ e.block_id ≡ entry_image e = simp append_assoc in
    let whole = length-entry_image e size in
    let full : (length (entry_image e) == serialized_size e) ≡ true = ground (arith, whole) in
    rw
      (
        flag,
        put-at front [] junk ty 1 s1 (omega arith) (omega arith),
        put-at front ty (drop 1 junk) (encode 4 e.mode) 4 (length-encode 4 e.mode) (omega arith)
            (omega arith),
        drop-drop 4 1 junk,
        put-at front b2 (drop 5 junk) (encode 4 e.uid) 4 (length-encode 4 e.uid) (omega arith)
            (omega arith),
        drop-drop 4 5 junk,
        put-at front b3 (drop 9 junk) (encode 4 e.gid) 4 (length-encode 4 e.gid) (omega arith)
            (omega arith),
        drop-drop 4 9 junk,
        serialize_time_value-at front b4 (drop 13 junk) e.last_access_time (omega arith)
            (omega arith),
        drop-drop 12 13 junk,
        serialize_time_value-at front b5 (drop 25 junk) e.last_modification_time (omega arith)
            (omega arith),
        drop-drop 12 25 junk,
        serialize_time_value-at front b6 (drop 37 junk) e.last_metadata_change_time (omega arith)
            (omega arith),
        drop-drop 12 37 junk,
        put-at front b7 (drop 49 junk) text (length e.name + 1) (omega arith) (omega arith)
            (omega arith),
        drop-drop (length e.name + 1) 49 junk,
        put-at front (b7 ++ text) (drop (49 + (length e.name + 1)) junk) e.block_id 16 size
            (omega arith) (omega arith),
        drop-drop 16 (49 + (length e.name + 1)) junk,
        joined,
        full,
      )
      refl

-- An entry that is written as its type and its fields say.
pub record IsValid (e : DirEntry) : Type 0 where
  pub flag : has_flag_of_type e.entry_type e.mode ≡ true
  pub mode_fits : e.mode < width 4
  pub uid_fits : e.uid < width 4
  pub gid_fits : e.gid < width 4
  pub access_fits :
      (e.last_access_time.seconds < width 8) × (e.last_access_time.nanoseconds < width 4)
  pub modification_fits :
      (e.last_modification_time.seconds < width 8)
      × (e.last_modification_time.nanoseconds < width 4)
  pub change_fits :
      (e.last_metadata_change_time.seconds < width 8)
      × (e.last_metadata_change_time.nanoseconds < width 4)
  pub text : IsText e.name
  pub id_size : length e.block_id ≡ 16

-- Each block id is larger than the one before.
abbrev pub Follows : Option BlockId → DirEntryList → Type 0
Follows before [] = Unit
Follows before (e ∷ es) = (follows before e.block_id ≡ true) × Follows (some e.block_id) es

abbrev pub list_image : DirEntryList → Data
list_image [] = []
list_image (e ∷ es) = entry_image e ++ list_image es

pub length-list_image :
    (es : DirEntryList)
    → All IsValid es
    → length (list_image es) < 2 ^ 64
    → length (list_image es) ≡ serialized_list_size es
length-list_image [] v small = refl
length-list_image (e ∷ es) v small =
    let size = length-append (entry_image e) (list_image es) in
    omega (
      arith,
      size,
      small,
      length-entry_image e v.0.id_size,
      length-list_image es v.1 (omega (arith, size, small)),
    )

serialize_entries-at :
    (last : Option BlockId) (es : DirEntryList) (before junk : Data)
    → All IsValid es
    → Follows last es
    → length (list_image es) ≤ length junk
    → length before + length (list_image es) < 2 ^ 32
    → serialize_entries last es (at [] before junk)
      ≡ ok (at [] (before ++ list_image es) (drop (length (list_image es)) junk))
unfolding serialize_entries
serialize_entries-at last [] before junk v sorted h small = rw append-nil refl
serialize_entries-at last (e ∷ es) before junk v sorted h small =
    let left = length-drop (serialized_size e) junk in
    let size = length-append (entry_image e) (list_image es) in
    let entry_size = length-entry_image e v.0.id_size in
    let more = length-append before (entry_image e) in
    let total : length (entry_image e ++ list_image es)
        ≡ serialized_size e + length (list_image es) =
      omega (arith, size, entry_size) in
    rw
      (
        sorted.0,
        call_at-at [] before junk,
        serialize_entry-at before junk e v.0.flag v.0.id_size (omega arith) (omega arith),
        after_call-at [] before junk (entry_image e) (drop (serialized_size e) junk)
            (serialized_size e) entry_size (omega arith),
        serialize_entries-at (some e.block_id) es (before ++ entry_image e)
            (drop (serialized_size e) junk) v.1 sorted.1 (omega arith) (omega arith),
        append_assoc before,
        drop-drop,
        total,
      )
      refl

-- The whole directory fills its memory.
pub serialize-list_image :
    (allocate : ℕ → Data) (allocates : (n : ℕ) → length (allocate n) ≡ n) (es : DirEntryList)
    → All IsValid es
    → Follows none es
    → length (list_image es) < 2 ^ 32
    → serialize allocate es ≡ ok (list_image es)
unfolding serialize
serialize-list_image allocate allocates es v sorted small =
    let size = serialized_list_size es in
    let n = length (list_image es) in
    let given = allocates size in
    let same : n ≡ size = length-list_image es v (omega (arith, small)) in
    let full : drop n (allocate size) ≡ [] =
      drop_all n (allocate size) (omega (arith, same, given)) in
    rw
      (
        serialize_entries-at none es [] (allocate size) v sorted (omega (arith, same, given))
            (omega (arith, small)),
        full,
        append-nil,
      )
      refl
