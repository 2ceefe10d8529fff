-- ===== src/Serialization/Fields.antt =====
-- A record that is written field by field with a `Serializer` of exactly its size, and read field
-- by field with a `Deserializer`, as the state files and the configuration do it.
pub mod Steps
pub mod RoundTrip
use libcryfs.Common.{
  inl, inr, ℕ, ◌+◌, ◌^◌, ◌≤◌, ◌<◌, ◌≡◌, refl, Bool, List, [], ◌∷◌, ◌++◌, arith, le→leb,
  if◌then◌else◌, length, drop, length-append, length-drop, append-nil, append_assoc, All, map,
  drop-drop,
}
use libcryfs.Common.Result.{Result, ok, Result-cases, ◌>>=◌, ◌>>◌}
use libcryfs.Common.Bytes.{Data, encode, width, length-encode}
use libcryfs.Common.Memory.{add64}
use libcryfs.Serialization.Serializer
use libcryfs.Serialization.Serializer.{Serializer}
use libcryfs.Serialization.Deserializer
use libcryfs.Serialization.Deserializer.{Deserializer, Read, IsText}

-- A value with the operation that writes it.
pub data Field : Type 0 where
  uint : ℕ → ℕ → Field
  bool : Bool → Field
  string : Data → Field
  fixed_size_data : Data → Field
  sized_data : Data → Field

-- What the reader is told of a field: the operation, and the size that is its type's argument.
pub data Kind : Type 0 where
  uint : ℕ → Kind
  bool string sized_data : Kind
  fixed_size_data : ℕ → Kind

abbrev pub kind : Field → Kind
kind (Field.uint n value) = Kind.uint n
kind (Field.bool value) = Kind.bool
kind (Field.string value) = Kind.string
kind (Field.fixed_size_data value) = Kind.fixed_size_data (length value)
kind (Field.sized_data value) = Kind.sized_data

unfoldable pub write_field : Field → Serializer → Result Serializer
write_field (Field.uint n value) = Serializer.write_uint n value
write_field (Field.bool value) = Serializer.write_bool value
write_field (Field.string value) = Serializer.write_string value
write_field (Field.fixed_size_data value) = Serializer.write_fixed_size_data value
write_field (Field.sized_data value) = Serializer.write_data value

abbrev pub write_fields : List Field → Serializer → Result Serializer
write_fields [] s = ok s
write_fields (f ∷ fs) s = do s' ← write_field f s; write_fields fs s'

pub write_fields-append :
    (fs gs : List Field) (s : Serializer)
    → write_fields (fs ++ gs) s ≡ (write_fields fs s >>= write_fields gs)
write_fields-append [] gs s = refl
write_fields-append (f ∷ fs) gs s = elim (Result-cases (write_field f s)) [
  | inl (s', e) ↦ rw e (write_fields-append fs gs s')
  | inr (x, e) ↦ rw e
]

unfoldable pub read_field : Kind → Read Field
read_field (Kind.uint n) d = do
  (value, d') ← Deserializer.read_uint n d
  ok (Field.uint n value, d')
read_field Kind.bool d = do (value, d') ← Deserializer.read_bool d; ok (Field.bool value, d')
read_field Kind.string d = do (value, d') ← Deserializer.read_string d; ok (Field.string value, d')
read_field Kind.sized_data d = do
  (value, d') ← Deserializer.read_data d
  ok (Field.sized_data value, d')
read_field (Kind.fixed_size_data n) d = do
  (value, d') ← Deserializer.read_fixed_size_data n d
  ok (Field.fixed_size_data value, d')

abbrev pub read_fields : List Kind → Read (List Field)
read_fields [] d = ok ([], d)
read_fields (k ∷ ks) d = do
  (f, d') ← read_field k d
  (fs, d'') ← read_fields ks d'
  ok (f ∷ fs, d'')

-- The bytes that a field is written as.
abbrev pub image : Field → Data
image (Field.uint n value) = encode n value
image (Field.bool value) = encode 1 (if value then 1 else 0)
image (Field.string value) = value ++ 0 ∷ []
image (Field.fixed_size_data value) = value
image (Field.sized_data value) = encode 8 (length value) ++ value

abbrev pub images : List Field → Data
images [] = []
images (f ∷ fs) = image f ++ images fs

-- The sizes that callers add up: `sizeof`, `BoolSize`, `StringSize`, `BINARY_LENGTH`, `DataSize`.
abbrev pub field_size : Field → ℕ
field_size (Field.uint n value) = n
field_size (Field.bool value) = Serializer.bool_size
field_size (Field.string value) = Serializer.string_size value
field_size (Field.fixed_size_data value) = length value
field_size (Field.sized_data value) = Serializer.data_size value

abbrev pub fields_size : List Field → ℕ
fields_size [] = 0
fields_size (f ∷ fs) = field_size f + fields_size fs

-- A value that its type holds; a string without a null byte.
abbrev pub IsValid : Field → Type 0
IsValid (Field.uint n value) = value < width n
IsValid (Field.bool value) = Unit
IsValid (Field.string value) = IsText value
IsValid (Field.fixed_size_data value) = Unit
IsValid (Field.sized_data value) = length value < 2 ^ 64

pub images-append : (fs gs : List Field) → images (fs ++ gs) ≡ images fs ++ images gs
images-append [] gs = refl
images-append (f ∷ fs) gs = rw (images-append fs gs, append_assoc)

pub length-image : (f : Field) → length (image f) ≡ field_size f
length-image (Field.uint n value) = length-encode n value
length-image (Field.bool value) = length-encode 1 (if value then 1 else 0)
length-image (Field.string value) = length-append value (0 ∷ [])
length-image (Field.fixed_size_data value) = refl
length-image (Field.sized_data value) =
    omega (arith, length-append (encode 8 (length value)) value, length-encode 8 (length value))

pub length-images : (fs : List Field) → length (images fs) ≡ fields_size fs
length-images [] = refl
length-images (f ∷ fs) =
    omega (arith, length-append (image f) (images fs), length-image f, length-images fs)

-- A whole record: the size is added up in advance, and the tail takes what is left.
unfoldable pub serialize : Data → List Field → Data → Result Data
serialize memory fs tail = do
  s ← write_fields fs (Serializer.new memory)
  s' ← Serializer.write_tail_data tail s
  Serializer.finished s'

unfoldable pub deserialize : List Kind → Data → Result (List Field × Data)
deserialize ks source = do
  (fs, d) ← read_fields ks (Deserializer.new source)
  (tail, d') ← Deserializer.read_tail_data d
  Deserializer.finished d'
  ok (fs, tail)
