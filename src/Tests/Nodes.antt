-- ===== src/Tests/Nodes.antt =====
-- Nodes in blocks of a few bytes.
use libcryfs.Common.{get_elem?, some, ℕ, ◌≡◌, refl, [], ◌∷◌, arith, replicate}
use libcryfs.Common.Result.{ok}
use libcryfs.Common.Bytes.{Data, BlockId}
use libcryfs.Nodes.View.{Block}
use libcryfs.Nodes.Leaf.{create_leaf, resize}
use libcryfs.Nodes.Inner.{add_child}
use libcryfs.Nodes.Image.{image, depth-image}
use libcryfs.Nodes.LeafRuns.{leaf_node, leaf_block}
use libcryfs.Nodes.LeafBytes.{resize-eq}
use libcryfs.Nodes.Children.{inner_block}
use libcryfs.Nodes.ChildList.{add_child-eq}
use libcryfs.Nodes.Created.{create_leaf-image}
use libcryfs.Nodes.Leaf.{open_leaf}

abbrev id_a : BlockId
id_a = replicate 16 1

abbrev id_b : BlockId
id_b = replicate 16 2

abbrev fresh_memory : Data
fresh_memory = replicate 44 7

create_leaf-image_example :
    (unused : ℕ) × (get_elem? fresh_memory 2 ≡ some unused)
    × (create_leaf fresh_memory 44 (1 ∷ 2 ∷ []) ≡ ok (image (leaf_node unused (1 ∷ 2 ∷ []) 34)))
    × (open_leaf (leaf_block id_a unused (1 ∷ 2 ∷ []) 34)
        ≡ ok (leaf_block id_a unused (1 ∷ 2 ∷ []) 34))
create_leaf-image_example =
    create_leaf-image id_a fresh_memory (1 ∷ 2 ∷ []) (omega arith) (omega arith) (omega arith)

-- A leaf that shrinks, and then grows: what was cut off does not come back.
shrink_example :
    resize 1 (leaf_block id_a 7 (1 ∷ 2 ∷ 3 ∷ []) 30) ≡ ok (leaf_block id_a 7 (1 ∷ []) 32)
shrink_example = resize-eq id_a 7 (1 ∷ 2 ∷ 3 ∷ []) 30 (omega arith) (omega arith) 1 (omega arith)

resize-eq_example :
    resize 3 (leaf_block id_a 7 (1 ∷ []) 32) ≡ ok (leaf_block id_a 7 (1 ∷ 0 ∷ 0 ∷ []) 30)
resize-eq_example = resize-eq id_a 7 (1 ∷ []) 32 (omega arith) (omega arith) 3 (omega arith)

abbrev leaf_b : Block
leaf_b = leaf_block id_b 7 (1 ∷ []) 47

add_child-eq_example :
    add_child leaf_b (inner_block id_a 7 1 (id_a ∷ []) (replicate 32 0))
    ≡ ok (inner_block id_a 7 1 (id_a ∷ id_b ∷ []) (replicate 16 0))
add_child-eq_example =
    add_child-eq id_a 7 0 (id_a ∷ []) (refl, tt) leaf_b (replicate 32 0) refl
      (depth-image id_b (leaf_node 7 (1 ∷ []) 47) (omega arith)) (omega arith) (omega arith)
      (omega arith) (omega arith)
