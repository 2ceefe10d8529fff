-- ===== src/Serialization/Fields/Steps.antt =====
-- One field and a list of fields, behind what was written or read before.
use libcryfs.Common.{
  ◌+◌, ◌^◌, ◌≤◌, ◌<◌, ◌≡◌, List, [], ◌∷◌, ◌++◌, arith, le→leb, length, drop, length-append,
  length-drop, append-nil, append_assoc, All, map, drop-drop,
}
use libcryfs.Common.Result.{ok}
use libcryfs.Common.Bytes.{Data, encode, length-encode}
use libcryfs.Common.Memory.{add64}
use libcryfs.Serialization.Serializer
use libcryfs.Serialization.Serializer.{Serializer}
use libcryfs.Serialization.Deserializer
use libcryfs.Serialization.Deserializer.{Deserializer, Read, IsText}
use libcryfs.Serialization.Fields.{
  Field, kind, write_field, write_fields, read_field, read_fields, image, images, field_size,
  fields_size, IsValid, length-image,
}

write_field-at :
    (before junk : Data) (f : Field)
    → length before + length junk < 2 ^ 64
    → field_size f ≤ length junk
    → write_field f (Serializer.at before junk)
      ≡ ok (Serializer.at (before ++ image f) (drop (field_size f) junk))
unfolding write_field Serializer.write_string Serializer.write_fixed_size_data Serializer.write_data
write_field-at before junk (Field.uint n value) small h =
    Serializer.write_uint-at before junk small n value h
write_field-at before junk (Field.bool value) small h =
    Serializer.write_bool-at before junk small value h
write_field-at before junk (Field.string value) small h =
    let e = length-append value (0 ∷ []) in
    rw e at (Serializer.write_raw-at before junk small (value ++ 0 ∷ []) (omega arith))
write_field-at before junk (Field.fixed_size_data value) small h =
    Serializer.write_raw-at before junk small value h
write_field-at before junk (Field.sized_data value) small h =
    let size = length-encode 8 (length value) in
    let put = length-append before (encode 8 (length value)) in
    let left = length-drop 8 junk in
    let small' : length (before ++ encode 8 (length value)) + length (drop 8 junk) < 2 ^ 64 =
      omega (arith, size, put, left) in
    let h' : length value ≤ length (drop 8 junk) = omega (arith, left) in
    rw (
      Serializer.write_uint-at before junk small 8 (length value) (omega arith),
      Serializer.write_raw-at (before ++ encode 8 (length value)) (drop 8 junk) small' value h',
      append_assoc,
      drop-drop,
    )

-- Fields that fit are written one behind the other, and what is left is untouched.
pub write_fields-at :
    (before junk : Data) (fs : List Field)
    → length before + length junk < 2 ^ 64
    → fields_size fs ≤ length junk
    → write_fields fs (Serializer.at before junk)
      ≡ ok (Serializer.at (before ++ images fs) (drop (fields_size fs) junk))
write_fields-at before junk [] small h = rw append-nil
write_fields-at before junk (f ∷ fs) small h =
    let size = length-image f in
    let put = length-append before (image f) in
    let left = length-drop (field_size f) junk in
    rw (write_field-at before junk f small (omega arith)) (
      rw (
        write_fields-at (before ++ image f) (drop (field_size f) junk) fs
            (omega (arith, size, put, left)) (omega (arith, left)),
        append_assoc,
        drop-drop,
      ))

read_field-at :
    (before rest : Data) (f : Field)
    → IsValid f
    → length before + field_size f < 2 ^ 64
    → read_field (kind f) (Deserializer.at before (image f ++ rest))
      ≡ ok (f, Deserializer.at (before ++ image f) rest)
unfolding read_field Deserializer.read_fixed_size_data Deserializer.read_data
read_field-at before rest (Field.uint n value) v small =
    rw (Deserializer.read_uint-at before rest n value v small)
read_field-at before rest (Field.bool value) v small =
    rw (Deserializer.read_bool-at before rest value small)
read_field-at before rest (Field.string value) v small =
    rw (Deserializer.read_string-at before rest value v)
read_field-at before rest (Field.fixed_size_data value) v small =
    rw (Deserializer.read_raw-at before rest value)
read_field-at before rest (Field.sized_data value) v small =
    let size = encode 8 (length value) in
    let put : length (before ++ size) ≡ length before + 8 =
      omega (arith, length-append before size, length-encode 8 (length value)) in
    let inside : add64 (length (before ++ size)) (length value)
        ≤ length ((before ++ size) ++ (value ++ rest)) =
      omega
        (arith, put, length-append (before ++ size) (value ++ rest), length-append value rest) in
    rw
      (
        append_assoc size value rest,
        Deserializer.read_uint-at before (value ++ rest) 8 (length value) v (omega arith),
      )
      (rw (
        le→leb _ _ inside,
        Deserializer.read_raw-at (before ++ size) rest value,
        append_assoc before size value,
      ))

-- Fields are read back in the order in which they were written.
pub read_fields-at :
    (before rest : Data) (fs : List Field)
    → All IsValid fs
    → length before + fields_size fs < 2 ^ 64
    → read_fields (map kind fs) (Deserializer.at before (images fs ++ rest))
      ≡ ok (fs, Deserializer.at (before ++ images fs) rest)
read_fields-at before rest [] v small = rw append-nil
read_fields-at before rest (f ∷ fs) v small =
    let put : length (before ++ image f) ≡ length before + field_size f =
      omega (arith, length-append before (image f), length-image f) in
    rw
      (
        append_assoc (image f) (images fs) rest,
        read_field-at before (images fs ++ rest) f v.0 (omega arith),
      )
      (rw (
        read_fields-at (before ++ image f) rest fs v.1 (omega (arith, put)),
        append_assoc before (image f) (images fs),
      ))
