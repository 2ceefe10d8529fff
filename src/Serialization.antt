-- ===== src/Serialization.antt =====
-- `Serializer` and `Deserializer` of src/cpp-utils/data.
pub mod Serializer
pub mod Deserializer
pub mod Fields
