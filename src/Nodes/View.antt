-- ===== src/Nodes/View.antt =====
-- `DataNodeLayout` and `DataNodeView`
-- (src/blobstore/implementations/onblocks/datanodestore/DataNodeView.h), and the writes of a block that
-- they use (src/blockstore/implementations/low2highlevel/LowToHighLevelBlock.cpp).
use libcryfs.Common.{ℕ, ◌+◌, ◌-◌, ◌*◌, ◌/◌, ◌%◌, ◌^◌, ◌&&◌, leb, length, replicate}
use libcryfs.Common.Equality.{◌==◌, nat_eq}
use libcryfs.Common.Result.{Result, ok, guard, assert_failed, logic_error, ◌>>=◌, ◌>>◌}
use libcryfs.Common.Bytes.{Data, BlockId, block_id_length, encode, decode}
use libcryfs.Common.Memory.{add64, sub64, read_memory, write_memory}

-- A block that is loaded.
pub record Block : Type 0 where
  pub block_id : BlockId
  pub content : Data

-- `LowToHighLevelBlock::write`, with the bytes that are read from `source`.
unfoldable pub write_block : Data → ℕ → Block → Result Block
write_block source offset block = do
  guard
      (leb offset (length block.content)
        && leb (add64 offset (length source)) (length block.content))
      assert_failed
  content ← write_memory block.content offset source
  ok (record block { content = content })

-- `copyTo` and `fillWithZeroes` (src/blockstore/utils/BlockStoreUtils.cpp).
unfoldable pub copy_to : Block → Block → Result Block
copy_to source target = do
  guard (length target.content == length source.content) assert_failed
  write_block source.content 0 target

unfoldable pub fill_with_zeroes : Block → Result Block
fill_with_zeroes target = write_block (replicate (length target.content) 0) 0 target

abbrev pub header_size : ℕ
header_size = 8

abbrev pub format_version_offset : ℕ
format_version_offset = 0

abbrev pub depth_offset : ℕ
depth_offset = 3

abbrev pub size_offset : ℕ
size_offset = 4

-- The block size is kept in 32 bits.
unfoldable pub new_layout : ℕ → Result ℕ
new_layout block_size = do
  guard (leb (header_size + 2 * block_id_length) block_size) logic_error
  ok (block_size % 2 ^ 32)

unfoldable pub data_size : ℕ → ℕ
data_size block_size = (block_size + 2 ^ 32 - header_size) % 2 ^ 32

abbrev pub max_children_per_inner_node : ℕ → ℕ
max_children_per_inner_node block_size = data_size block_size / block_id_length

abbrev pub max_bytes_per_leaf : ℕ → ℕ
max_bytes_per_leaf block_size = data_size block_size

abbrev pub read_uint : ℕ → ℕ → Block → Result ℕ
read_uint bytes offset block = do
  object ← read_memory block.content offset bytes
  ok (decode object)

unfoldable pub format_version : Block → Result ℕ
format_version block = read_uint 2 format_version_offset block

unfoldable pub depth : Block → Result ℕ
depth block = read_uint 1 depth_offset block

unfoldable pub size : Block → Result ℕ
size block = read_uint 4 size_offset block

unfoldable pub set_format_version : ℕ → Block → Result Block
set_format_version value block = write_block (encode 2 value) format_version_offset block

unfoldable pub set_depth : ℕ → Block → Result Block
set_depth value block = write_block (encode 1 value) depth_offset block

unfoldable pub set_size : ℕ → Block → Result Block
set_size value block = write_block (encode 4 value) size_offset block

-- A `memcpy` of `count` bytes from the address `data() + offset`.
unfoldable pub read_data : ℕ → ℕ → Block → Result Data
read_data offset count block = read_memory block.content (header_size + offset) count

unfoldable pub write : Data → ℕ → Block → Result Block
write source offset block = write_block source (add64 offset header_size) block

unfoldable pub layout : Block → Result ℕ
layout block = new_layout (length block.content)

-- `allocated` is the memory of a new `Data` object, whose content is not set.
unfoldable pub serialize_ : Data → ℕ → ℕ → ℕ → ℕ → Data → Result Data
serialize_ allocated block_size version depth_value size_value source = do
  r1 ← write_memory allocated format_version_offset (encode 2 version)
  r2 ← write_memory r1 depth_offset (encode 1 depth_value)
  r3 ← write_memory r2 size_offset (encode 4 size_value)
  r4 ← write_memory r3 header_size source
  write_memory r4 (header_size + length source)
      (replicate (sub64 (data_size block_size) (length source)) 0)

-- `create`: what the block store is given as the content of the new block.
unfoldable pub create : Data → ℕ → ℕ → ℕ → ℕ → Data → Result Data
create allocated block_size version depth_value size_value source = do
  guard (leb (length source) (data_size block_size)) assert_failed
  serialized ← serialize_ allocated block_size version depth_value size_value source
  guard (length serialized == block_size) assert_failed
  ok serialized

-- `initialize`
unfoldable pub initialize : Data → Block → ℕ → ℕ → ℕ → ℕ → Data → Result Block
initialize allocated block block_size version depth_value size_value source = do
  own ← layout block
  guard (leb (length source) (data_size own)) assert_failed
  serialized ← serialize_ allocated block_size version depth_value size_value source
  guard (length serialized == length block.content) assert_failed
  write_block serialized 0 block

-- `overwrite`: what the block store is given.
unfoldable pub overwrite : Data → ℕ → ℕ → ℕ → ℕ → Data → Result Data
overwrite allocated block_size version depth_value size_value source = do
  guard (leb (length source) (data_size block_size)) assert_failed
  serialize_ allocated block_size version depth_value size_value source
