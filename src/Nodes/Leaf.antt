-- ===== src/Nodes/Leaf.antt =====
-- `DataLeafNode` (src/blobstore/implementations/onblocks/datanodestore/DataLeafNode.cpp).
use libcryfs.Common.{ℕ, ◌%◌, ◌^◌, true, false, ◌&&◌, ltb, leb, length, replicate}
use libcryfs.Common.Equality.{◌==◌, nat_eq}
use libcryfs.Common.Result.{Result, ok, guard, assert_failed, runtime_error, ◌>>=◌, ◌>>◌}
use libcryfs.Common.Bytes.{Data}
use libcryfs.Common.Memory.{add64, sub64}
use libcryfs.Nodes.View
use libcryfs.Nodes.View.{
  Block, depth, size, set_size, format_version, layout, max_bytes_per_leaf, read_data,
}

-- `DataNode::FORMAT_VERSION_HEADER`
abbrev pub format_version_header : ℕ
format_version_header = 0

abbrev pub num_bytes : Block → Result ℕ
num_bytes leaf = size leaf

unfoldable pub max_storeable_bytes : Block → Result ℕ
max_storeable_bytes leaf = do block_size ← layout leaf; ok (max_bytes_per_leaf block_size)

-- The constructor: the checks of a block that is taken for a leaf.
unfoldable pub open_leaf : Block → Result Block
open_leaf block = do
  d ← depth block
  guard (d == 0) assert_failed
  n ← num_bytes block
  most ← max_storeable_bytes block
  guard (leb n most) assert_failed
  version ← format_version block
  guard (version == format_version_header) runtime_error
  ok block

unfoldable pub create_leaf : Data → ℕ → Data → Result Data
create_leaf allocated block_size source = do
  guard (leb (length source) (max_bytes_per_leaf block_size)) assert_failed
  View.create allocated block_size format_version_header 0 (length source % 2 ^ 32) source

unfoldable pub overwrite_leaf : Data → ℕ → Data → Result Data
overwrite_leaf allocated block_size source = do
  guard (length source == max_bytes_per_leaf block_size) assert_failed
  View.overwrite allocated block_size format_version_header 0 (length source % 2 ^ 32) source

unfoldable pub read : ℕ → ℕ → Block → Result Data
read offset count leaf = do
  n ← size leaf
  guard (leb offset n && leb (add64 offset count) n) assert_failed
  read_data offset count leaf

unfoldable pub write : Data → ℕ → Block → Result Block
write source offset leaf = do
  n ← size leaf
  guard (leb offset n && leb (add64 offset (length source)) n) assert_failed
  View.write source offset leaf

unfoldable pub fill_data_with_zeroes_from_to : ℕ → ℕ → Block → Result Block
fill_data_with_zeroes_from_to begin end leaf = View.write (replicate (sub64 end begin) 0) begin leaf

unfoldable pub resize : ℕ → Block → Result Block
resize new_size leaf = do
  most ← max_storeable_bytes leaf
  guard (leb new_size most) assert_failed
  old_size ← size leaf
  filled ← (elim (ltb new_size old_size) [
    | true ↦ fill_data_with_zeroes_from_to new_size old_size leaf
    | false ↦ ok leaf
  ])
  set_size new_size filled
