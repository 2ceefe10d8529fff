-- ===== src/Serialization/Fields/RoundTrip.antt =====
-- Whole records, written and read.
use libcryfs.Common.{
  ◌+◌, ◌^◌, ◌<◌, ◌≡◌, List, [], ◌++◌, arith, length, drop, length-drop, append-nil, All, map,
}
use libcryfs.Common.Result.{ok, ◌>>=◌}
use libcryfs.Common.Bytes.{Data}
use libcryfs.Serialization.Serializer
use libcryfs.Serialization.Serializer.{Serializer}
use libcryfs.Serialization.Deserializer
use libcryfs.Serialization.Deserializer.{Deserializer, Read, IsText}
use libcryfs.Serialization.Fields.{
  Field, kind, images, fields_size, IsValid, length-images, serialize, deserialize,
}
use libcryfs.Serialization.Fields.Steps.{write_fields-at, read_fields-at}

-- The bytes written are the images of the fields and the tail, whatever stood in the memory.
pub serialize-images :
    (memory : Data) (fs : List Field) (tail : Data)
    → length memory < 2 ^ 64
    → length memory ≡ fields_size fs + length tail
    → serialize memory fs tail ≡ ok (images fs ++ tail)
unfolding serialize Serializer.new
serialize-images memory fs tail small e =
    let left = length-drop (fields_size fs) memory in
    let put = length-images fs in
    rw (
      write_fields-at [] memory fs (omega arith) (omega arith),
      Serializer.write_tail_data-at (images fs) (drop (fields_size fs) memory) tail
          (omega (arith, left, put)) (omega (arith, left)),
      Serializer.finished-at (images fs ++ tail),
      append-nil,
    )

pub deserialize-images :
    (fs : List Field) (tail : Data)
    → All IsValid fs
    → fields_size fs + length tail < 2 ^ 64
    → deserialize (map kind fs) (images fs ++ tail) ≡ ok (fs, tail)
unfolding deserialize Deserializer.new
deserialize-images fs tail v small =
    let put = length-images fs in
    rw (
      read_fields-at [] tail fs v (omega arith),
      Deserializer.read_tail_data-at (images fs) tail (omega (arith, put)),
      Deserializer.finished-at (images fs ++ tail),
    )

-- A serializer whose memory has exactly the added up size, below 2 ^ 64, accepts all fields and the
-- tail, and a deserializer that is told the kinds reads the same values from the result, uses all
-- of it, and reports no error. The memory's former content does not matter. Each number fits its
-- width, each string has no null byte, and each data field whose size is written with it is shorter
-- than 2 ^ 64.
pub deserialize-serialize :
    (memory : Data) (fs : List Field) (tail : Data)
    → All IsValid fs
    → length memory < 2 ^ 64
    → length memory ≡ fields_size fs + length tail
    → (serialize memory fs tail >>= deserialize (map kind fs)) ≡ ok (fs, tail)
deserialize-serialize memory fs tail v small e =
    rw (serialize-images memory fs tail small e) (deserialize-images fs tail v (omega arith))
