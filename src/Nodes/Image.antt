-- ===== src/Nodes/Image.antt =====
-- The content of a block that is a node.
use libcryfs.Common.{ℕ, ◌+◌, ◌-◌, ◌^◌, ◌≤◌, ◌<◌, ◌≡◌, ◌∷◌, ◌++◌, arith, length, take, drop}
use libcryfs.Common.Result.{ok}
use libcryfs.Common.Bytes.{Data, BlockId, encode, decode-encode}
use libcryfs.Common.Memory.{
  add64, read_memory, write_memory, replaced, read_memory-behind, write_memory-behind,
}
use libcryfs.Nodes.View.{
  Block, write_block, format_version, depth, size, set_size, read_data, write, layout, new_layout,
  data_size,
}

pub record Node : Type 0 where
  pub version : ℕ
  pub unused : ℕ
  pub depth : ℕ
  pub size : ℕ
  pub payload : Data

-- The bytes of a node: the header and the data.
abbrev pub image : Node → Data
image n = encode 2 n.version ++ (n.unused ∷ (encode 1 n.depth ++ (encode 4 n.size ++ n.payload)))

-- The eight bytes in front of the data.
abbrev pub header : Node → Data
header n = encode 2 n.version ++ (n.unused ∷ (encode 1 n.depth ++ encode 4 n.size))

abbrev pub node_block : BlockId → Node → Block
node_block id n = record { block_id = id; content = image n }

pub size-image : (id : BlockId) (n : Node) → n.size < 2 ^ 32 → size (node_block id n) ≡ ok n.size
unfolding size read_memory encode
size-image id n h = ground (arith, decode-encode 4 n.size h)

pub depth-image : (id : BlockId) (n : Node) → n.depth < 256 → depth (node_block id n) ≡ ok n.depth
unfolding depth read_memory encode
depth-image id n h = ground (arith, decode-encode 1 n.depth h)

pub set_size-image :
    (id : BlockId) (n : Node) (value : ℕ)
    → set_size value (node_block id n) ≡ ok (node_block id (record n { size = value }))
unfolding set_size write_block write_memory encode
set_size-image id n value = ground arith

pub format_version-image :
    (id : BlockId) (n : Node) → n.version < 2 ^ 16 → format_version (node_block id n) ≡ ok n.version
unfolding format_version read_memory encode
format_version-image id n h = ground (arith, decode-encode 2 n.version h)

pub read_data-image :
    (id : BlockId) (n : Node) (offset count : ℕ)
    → offset + count ≤ length n.payload
    → read_data offset count (node_block id n) ≡ ok (take count (drop offset n.payload))
unfolding read_data encode
read_data-image id n offset count fits = read_memory-behind (header n) n.payload offset count fits

write_block-run :
    (id : BlockId) (content source content' : Data) (offset sum : ℕ)
    → offset + length source ≤ length content
    → length content < 2 ^ 32
    → write_memory content offset source ≡ ok content'
    → sum ≡ offset
    → write_block source sum (record { block_id = id; content = content })
      ≡ ok (record { block_id = id; content = content' })
unfolding write_block
write_block-run id content source content' offset sum fits small run same =
    ground (arith, run, same, fits, small)

pub write-image :
    (id : BlockId) (n : Node) (source : Data) (offset : ℕ)
    → offset + length source ≤ length n.payload
    → length n.payload < 2 ^ 32 - 8
    → write source offset (node_block id n)
      ≡ ok (node_block id (record n { payload = replaced n.payload offset source }))
unfolding write encode
write-image id n source offset fits small =
    write_block-run id (image n) source _ (8 + offset) (add64 offset 8) (omega arith) (omega arith)
      (write_memory-behind (header n) n.payload source offset fits) (omega arith)

pub layout-image :
    (id : BlockId) (n : Node)
    → 32 ≤ length n.payload
    → length n.payload < 2 ^ 32 - 8
    → layout (node_block id n) ≡ ok (8 + length n.payload)
unfolding layout new_layout encode
layout-image id n room small = ground (arith, room, small)

pub data_size-image :
    (n : Node) → length n.payload < 2 ^ 32 - 8 → data_size (8 + length n.payload) ≡ length n.payload
unfolding data_size
data_size-image n small = ground (arith, small)
