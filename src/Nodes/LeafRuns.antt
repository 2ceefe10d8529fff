-- ===== src/Nodes/LeafRuns.antt =====
-- The block of a leaf that holds a byte string, and what the operations on it run through.
use libcryfs.Common.{
  ℕ, ◌+◌, ◌-◌, ◌^◌, ◌≤◌, ◌<◌, ◌≡◌, refl, ap, ◌++◌, arith, length, length-append, length-replicate,
  length-take, length-drop, take, drop, replicate, drop-append, take_inside, drop_inside, take_all,
  append-replicate, append_assoc, append-nil,
}
use libcryfs.Common.Result.{ok}
use libcryfs.Common.Bytes.{Data, BlockId}
use libcryfs.Common.Memory.{sub64, replaced}
use libcryfs.Nodes.View
use libcryfs.Nodes.View.{Block, size, set_size, layout, data_size, read_data}
use libcryfs.Nodes.Leaf.{max_storeable_bytes, fill_data_with_zeroes_from_to, read, write, resize}
use libcryfs.Nodes.Image.{Node, node_block}
use libcryfs.Nodes.View.{depth, format_version}
use libcryfs.Nodes.Leaf.{open_leaf}

abbrev pub leaf_node : ℕ → Data → ℕ → Node
leaf_node unused bytes padding = record {
  version = 0;
  unused = unused;
  depth = 0;
  size = length bytes;
  payload = bytes ++ replicate padding 0;
}

abbrev pub leaf_block : BlockId → ℕ → Data → ℕ → Block
leaf_block id unused bytes padding = node_block id (leaf_node unused bytes padding)

-- The byte string at another length: cut off, or with zeroes at its end.
abbrev pub resized : ℕ → Data → Data
resized new_size bytes = take new_size bytes ++ replicate (new_size - length bytes) 0

pub length-payload :
    (bytes : Data) (padding : ℕ) → length (bytes ++ replicate padding 0) ≡ length bytes + padding
length-payload bytes padding =
    omega (arith, length-append bytes (replicate padding 0), length-replicate {A = ℕ} padding 0)

pub replaced_inside :
    (bytes source rest : Data) (offset : ℕ)
    → offset + length source ≤ length bytes
    → replaced (bytes ++ rest) offset source ≡ replaced bytes offset source ++ rest
replaced_inside bytes source rest offset fits =
    rw
      (
        take_inside offset bytes rest (omega arith),
        drop_inside (offset + length source) bytes rest fits,
        append_assoc,
        append_assoc,
      )
      refl

pub length-replaced :
    (bytes source : Data) (offset : ℕ)
    → offset + length source ≤ length bytes
    → length (replaced bytes offset source) ≡ length bytes
length-replaced bytes source offset fits = omega (
  arith,
  length-append (take offset bytes) (source ++ drop (offset + length source) bytes),
  length-append source (drop (offset + length source) bytes),
  length-take offset bytes,
  length-drop (offset + length source) bytes,
)

pub read-run :
    (leaf : Block) (n offset count : ℕ) (result : Data)
    → size leaf ≡ ok n
    → n < 2 ^ 32
    → offset + count ≤ n
    → read_data offset count leaf ≡ ok result
    → read offset count leaf ≡ ok result
unfolding read
read-run leaf n offset count result sized small fits run = ground (arith, sized, small, fits, run)

pub write-run :
    (leaf leaf' : Block) (n offset : ℕ) (source : Data)
    → size leaf ≡ ok n
    → n < 2 ^ 32
    → offset + length source ≤ n
    → View.write source offset leaf ≡ ok leaf'
    → write source offset leaf ≡ ok leaf'
unfolding write
write-run leaf leaf' n offset source sized small fits run = ground (arith, sized, small, fits, run)

pub resize-run_grow :
    (leaf leaf' : Block) (most n new_size : ℕ)
    → max_storeable_bytes leaf ≡ ok most
    → size leaf ≡ ok n
    → new_size ≤ most
    → n ≤ new_size
    → set_size new_size leaf ≡ ok leaf'
    → resize new_size leaf ≡ ok leaf'
unfolding resize
resize-run_grow leaf leaf' most n new_size limit sized fits grows run =
    ground (arith, limit, sized, fits, grows, run)

pub resize-run_shrink :
    (leaf filled leaf' : Block) (most n new_size : ℕ)
    → max_storeable_bytes leaf ≡ ok most
    → size leaf ≡ ok n
    → new_size ≤ most
    → new_size < n
    → fill_data_with_zeroes_from_to new_size n leaf ≡ ok filled
    → set_size new_size filled ≡ ok leaf'
    → resize new_size leaf ≡ ok leaf'
unfolding resize
resize-run_shrink leaf filled leaf' most n new_size limit sized fits shrinks fill run =
    ground (arith, limit, sized, fits, shrinks, fill, run)

pub max_storeable_bytes-run :
    (leaf : Block) (block_size most : ℕ)
    → layout leaf ≡ ok block_size
    → data_size block_size ≡ most
    → max_storeable_bytes leaf ≡ ok most
unfolding max_storeable_bytes
max_storeable_bytes-run leaf block_size most run e = rw (run, e) refl

-- The block of a leaf is given by its size field and its data.
pub leaf_block-eq :
    (id : BlockId) (unused n padding : ℕ) (bytes payload : Data)
    → n ≡ length bytes
    → payload ≡ bytes ++ replicate padding 0
    → node_block id
        (record { version = 0; unused = unused; depth = 0; size = n; payload = payload })
      ≡ leaf_block id unused bytes padding
leaf_block-eq id unused n padding bytes payload sized same = rw (sized, same) refl

pub resized-shrink :
    (new_size padding : ℕ) (bytes : Data)
    → new_size < length bytes
    → length bytes < 2 ^ 32
    → replaced (bytes ++ replicate padding 0) new_size (replicate (sub64 (length bytes) new_size) 0)
      ≡ resized new_size bytes ++ replicate (length bytes + padding - new_size) 0
resized-shrink new_size padding bytes shrinks small =
    let d = length bytes - new_size in
    let e : sub64 (length bytes) new_size ≡ d = ground (arith, shrinks, small) in
    let whole : new_size + d ≡ length bytes = omega (arith, shrinks) in
    let nothing : new_size - length bytes ≡ 0 = omega (arith, shrinks) in
    let rest : length bytes + padding - new_size ≡ d + padding = omega (arith, shrinks) in
    rw
      (
        e,
        length-replicate {A = ℕ} d 0,
        whole,
        take_inside new_size bytes (replicate padding 0) (omega (arith, shrinks)),
        drop-append bytes (replicate padding 0),
        append-replicate {A = ℕ} d padding 0,
        nothing,
        rest,
        append-nil (take new_size bytes),
      )
      refl

pub resized-grow :
    (new_size padding : ℕ) (bytes : Data)
    → length bytes ≤ new_size
    → new_size ≤ length bytes + padding
    → bytes ++ replicate padding 0
      ≡ resized new_size bytes ++ replicate (length bytes + padding - new_size) 0
resized-grow new_size padding bytes grows fits =
    let d = new_size - length bytes in
    let rest : padding ≡ d + (length bytes + padding - new_size) = omega (arith, grows, fits) in
    rw
      (
        take_all new_size bytes grows,
        append_assoc bytes (replicate d 0) (replicate (length bytes + padding - new_size) 0),
        append-replicate {A = ℕ} d (length bytes + padding - new_size) 0,
      )
      (ap (λ n. bytes ++ replicate n 0) rest)

pub length-resized : (new_size : ℕ) (bytes : Data) → new_size ≡ length (resized new_size bytes)
length-resized new_size bytes = omega (
  arith,
  length-append (take new_size bytes) (replicate (new_size - length bytes) 0),
  length-take new_size bytes,
  length-replicate {A = ℕ} (new_size - length bytes) 0,
)

pub open_leaf-run :
    (leaf : Block) (n most : ℕ)
    → depth leaf ≡ ok 0
    → size leaf ≡ ok n
    → max_storeable_bytes leaf ≡ ok most
    → n ≤ most
    → format_version leaf ≡ ok 0
    → open_leaf leaf ≡ ok leaf
unfolding open_leaf
open_leaf-run leaf n most level sized limit fits version =
    ground (arith, level, sized, limit, fits, version)
