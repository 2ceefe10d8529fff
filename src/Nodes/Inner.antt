-- ===== src/Nodes/Inner.antt =====
-- `DataInnerNode` (src/blobstore/implementations/onblocks/datanodestore/DataInnerNode.cpp).
use libcryfs.Common.{ℕ, ◌+◌, ◌-◌, ◌*◌, ◌%◌, ◌^◌, List, [], ◌∷◌, ltb, leb, length, replicate}
use libcryfs.Common.Equality.{◌==◌, nat_eq}
use libcryfs.Common.Result.{Result, ok, guard, assert_failed, runtime_error, ◌>>=◌, ◌>>◌}
use libcryfs.Common.Bytes.{Data, BlockId, block_id_length}
use libcryfs.Common.Memory.{write_memory}
use libcryfs.Nodes.View
use libcryfs.Nodes.View.{
  Block, depth, size, set_size, format_version, layout, max_children_per_inner_node, read_data,
}
use libcryfs.Nodes.Leaf.{format_version_header}

-- `BlockId::Null()`
abbrev pub null_id : BlockId
null_id = replicate block_id_length 0

-- The constructor: the checks of a block that is taken for an inner node.
unfoldable pub open_inner : Block → Result Block
open_inner block = do
  d ← depth block
  guard (ltb 0 d) assert_failed
  version ← format_version block
  guard (version == format_version_header) runtime_error
  ok block

-- The loop of `_serializeChildren`, from child `i` on.
unfoldable pub write_children : ℕ → List BlockId → Data → Result Data
write_children i [] target = ok target
write_children i (child ∷ children) target = do
  target' ← write_memory target (i * block_id_length) child
  write_children (i + 1) children target'

-- `_serializeChildren`; `allocated` is the memory of the new `Data` object.
unfoldable pub serialize_children : Data → List BlockId → Result Data
serialize_children allocated children = write_children 0 children allocated

unfoldable pub initialize_new_node : Data → Data → Block → ℕ → ℕ → List BlockId → Result Block
initialize_new_node allocated1 allocated2 block block_size depth_value children = do
  guard (leb 1 (length children)) assert_failed
  source ← serialize_children allocated1 children
  View.initialize allocated2 block block_size format_version_header depth_value
      (length children % 2 ^ 32) source

unfoldable pub create_new_node : Data → Data → ℕ → ℕ → List BlockId → Result Data
create_new_node allocated1 allocated2 block_size depth_value children = do
  guard (leb 1 (length children)) assert_failed
  source ← serialize_children allocated1 children
  View.create allocated2 block_size format_version_header depth_value (length children % 2 ^ 32)
      source

abbrev pub num_children : Block → Result ℕ
num_children node = size node

unfoldable pub read_child : ℕ → Block → Result BlockId
read_child index node = do
  n ← num_children node
  guard (ltb index n) assert_failed
  read_data (index * block_id_length) block_id_length node

unfoldable pub write_child : ℕ → BlockId → Block → Result Block
write_child index child node = do
  n ← num_children node
  guard (ltb index n) assert_failed
  View.write child (index * block_id_length) node

-- `numChildren() - 1` on 32 bits.
unfoldable pub read_last_child : Block → Result BlockId
read_last_child node = do n ← num_children node; read_child ((n + (2 ^ 32 - 1)) % 2 ^ 32) node

unfoldable pub write_last_child : BlockId → Block → Result Block
write_last_child child node = do
  n ← num_children node
  write_child ((n + (2 ^ 32 - 1)) % 2 ^ 32) child node

unfoldable pub max_storeable_children : Block → Result ℕ
max_storeable_children node = do
  block_size ← layout node
  ok (max_children_per_inner_node block_size % 2 ^ 32)

unfoldable pub add_child : Block → Block → Result Block
add_child child node = do
  n ← num_children node
  most ← max_storeable_children node
  guard (ltb n most) assert_failed
  child_depth ← depth child
  d ← depth node
  guard (child_depth + 1 == d) assert_failed
  grown ← set_size ((n + 1) % 2 ^ 32) node
  write_last_child child.block_id grown

unfoldable pub remove_last_child : Block → Result Block
remove_last_child node = do
  n ← size node
  guard (ltb 1 n) assert_failed
  cleared ← write_last_child null_id node
  m ← size cleared
  set_size ((m + (2 ^ 32 - 1)) % 2 ^ 32) cleared
