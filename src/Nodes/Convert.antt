-- ===== src/Nodes/Convert.antt =====
-- A node that becomes an inner node, when a tree gets a level more.
use libcryfs.Common.{
  ℕ, ◌+◌, ◌-◌, ◌^◌, ◌%◌, ◌≤◌, ◌<◌, ◌≡◌, refl, ◌∙◌, sym, ap, [], ◌∷◌, ◌++◌, arith, length,
  length-append, length-replicate, replicate, drop_all, append-nil,
}
use libcryfs.Common.Equality.{nat_eq}
use libcryfs.Common.Result.{ok}
use libcryfs.Common.Bytes.{Data, BlockId, encode}
use libcryfs.Common.Memory.{add64, write_memory, write_memory-behind}
use libcryfs.Nodes.View.{
  Block, depth, write_block, fill_with_zeroes, layout, new_layout, data_size, initialize,
  serialize_,
}
use libcryfs.Nodes.Inner.{initialize_new_node, serialize_children, write_children}
use libcryfs.Nodes.Image.{Node, image, node_block}
use libcryfs.Nodes.Children.{inner_block}
use libcryfs.Nodes.Created.{serialize_-run, eight}
use libcryfs.Nodes.Load.{convert_to_new_inner_node}

-- A write over the whole block.
write_block_whole :
    (block : Block) (source : Data)
    → length source ≡ length block.content
    → length source < 2 ^ 32
    → write_block source 0 block ≡ ok (record block { content = source })
unfolding write_block
write_block_whole block source same small =
    let run : write_memory block.content 0 source ≡ ok source =
      write_memory-behind [] block.content source 0 (omega (arith, same))
      ∙ ap ok (
          ap (λ rest. source ++ rest)
            (drop_all (0 + length source) block.content (omega (arith, same)))
          ∙ append-nil source) in
    let sum : add64 0 (length source) ≡ length source = omega (arith, small) in
    ground (arith, run, sum, same, small)

serialize_children_one :
    (allocated : Data) (child : BlockId)
    → length allocated ≡ 16
    → length child ≡ 16
    → serialize_children allocated (child ∷ []) ≡ ok child
unfolding serialize_children write_children
serialize_children_one allocated child same own =
    let run : write_memory allocated 0 child ≡ ok child =
      write_memory-behind [] allocated child 0 (omega (arith, same, own))
      ∙ ap ok (
          ap (λ rest. child ++ rest)
            (drop_all (0 + length child) allocated (omega (arith, same, own)))
          ∙ append-nil child) in
    ground (arith, run)

convert-run :
    (allocated1 allocated2 source serialized : Data) (node first_child cleared result : Block)
    (block_size d : ℕ)
    → fill_with_zeroes node ≡ ok cleared
    → depth first_child ≡ ok d
    → d < 255
    → serialize_children allocated1 (first_child.block_id ∷ []) ≡ ok source
    → layout cleared ≡ ok block_size
    → length source ≤ data_size block_size
    → serialize_ allocated2 block_size 0 (d + 1) 1 source ≡ ok serialized
    → length serialized ≡ length cleared.content
    → write_block serialized 0 cleared ≡ ok result
    → convert_to_new_inner_node allocated1 allocated2 node block_size first_child ≡ ok result
unfolding convert_to_new_inner_node initialize_new_node initialize
convert-run allocated1 allocated2 source serialized node first_child cleared result block_size d
      zeroed level top joined own room run same written =
    let next : (d + 1) % 2 ^ 8 ≡ d + 1 = omega (arith, top) in
    ground (arith, zeroed, level, next, joined, own, room, run, same, written)

pub length-image : (n : Node) → length (image n) ≡ 8 + length n.payload
unfolding encode
length-image n = omega arith

layout-run :
    (block : Block) (n : ℕ) → length block.content ≡ n → 40 ≤ n → n < 2 ^ 32 → layout block ≡ ok n
unfolding layout new_layout
layout-run block n same room small = ground (arith, same, room, small)

-- A node that is converted is an inner node one level above the first child, with that child as its
-- one child and zeroes behind it, whatever the node was before. The block has at least 40 bytes and
-- is smaller than 2 ^ 32, the id of the child has 16 bytes, and its level is below 255.
pub convert_to_new_inner_node-eq :
    (allocated1 allocated2 : Data) (node first_child : Block) (d : ℕ)
    → length allocated1 ≡ 16
    → length allocated2 ≡ length node.content
    → 40 ≤ length node.content
    → length node.content < 2 ^ 32
    → length first_child.block_id ≡ 16
    → depth first_child ≡ ok d
    → d < 255
    → (unused : ℕ) × (convert_to_new_inner_node allocated1 allocated2 node
          (length node.content)
          first_child
        ≡ ok (
            inner_block node.block_id unused
              (d + 1)
              (first_child.block_id ∷ [])
              (replicate (length node.content - 24) 0)))
unfolding fill_with_zeroes data_size
convert_to_new_inner_node-eq allocated1 allocated2 node first_child d one whole room small own level
      top =
    let size = length node.content in
    let zeroes = replicate {A = ℕ} size 0 in
    let cleared : Block = record node { content = zeroes } in
    let all : length zeroes ≡ size = length-replicate {A = ℕ} size 0 in
    let (a, b, c, d', e, f, g, h, rest, same) = eight allocated2 (omega (arith, whole, room)) in
    let long : size ≡ length rest + 8 = omega (arith, whole, ap length same) in
    let sized : data_size size ≡ length rest = ground (arith, long, small) in
    let id = first_child.block_id in
    let payload = id ++ replicate (length rest - length id) 0 in
    let n : Node = record { version = 0; unused = c; depth = d + 1; size = 1; payload = payload } in
    let full : length (image n) ≡ size =
      length-image n
      ∙ omega (
        arith,
        own,
        long,
        room,
        length-append id (replicate (length rest - length id) 0),
        length-replicate {A = ℕ} (length rest - length id) 0,
      ) in
    let left : length rest - length id ≡ size - 24 = omega (arith, own, long) in
    let tidy : payload ≡ (id ++ []) ++ replicate (size - 24) 0 = rw (append-nil id, left) refl in
    (
      c,
      convert-run allocated1 allocated2 id (image n) node first_child cleared
            (node_block node.block_id n) size d
            (write_block_whole node zeroes all (omega (arith, all, small))) level top
            (serialize_children_one allocated1 id one own) (layout-run cleared size all room small)
            (omega (arith, sized, own, long, room))
            (rw same (
              serialize_-run a b c d' e f g h 0 (d + 1) 1 rest id size
                (omega (arith, own, long, room)) sized (omega (arith, long, small))))
            (full ∙ sym all)
            (write_block_whole cleared (image n) (full ∙ sym all) (omega (arith, full, small)))
          ∙ ap (λ p. ok (node_block node.block_id (record n { payload = p }))) tidy,
    )
