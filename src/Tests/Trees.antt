-- ===== src/Tests/Trees.antt =====
-- Trees over the store in memory, with leaves of 32 bytes and two children a node.
use libcryfs.Common.{
  ℕ, zero, suc, ◌+◌, ◌-◌, ◌≡◌, ◌++◌, refl, Option, none, some, List, [], ◌∷◌, replicate, length,
  inl, arith, ◌^◌,
}
use libcryfs.Common.Result.{Result, ok, err, runtime_error, ◌>>=◌}
use libcryfs.Common.Bytes.{Data, BlockId, encode, decode}
use libcryfs.Common.Equality.{bytes_eq}
use libcryfs.BlockStore.InMemory.Lawful.{in_memory_block_store, contents, in_memory-IsLawful}
use libcryfs.Nodes.Image.{image}
use libcryfs.Nodes.LeafRuns.{leaf_node}
use libcryfs.Nodes.Children.{inner_node}
use libcryfs.Trees.Stored.{Leaf, Stored, more, last}
use libcryfs.Trees.DataTree.{DataTree}
use libcryfs.Trees.Tree.{IsTree, Returns, size_cache-Returns}
use libcryfs.Trees.Loading.{Same}
use libcryfs.Trees.DataTree.{get_or_compute_size_cache}
use libcryfs.Trees.Bytes.{try_read_bytes, read_bytes, read_all_bytes}
use libcryfs.Trees.Reads.{try_read_bytes-eq, read_bytes-eq, read_bytes-outside}
use libcryfs.Blocks.{create, open_block}
use libcryfs.Blocks.Written.{create-first_free}
use libcryfs.BlockStore.{changed}
use libcryfs.Trees.NodeStore.{Store}
use libcryfs.Trees.Math
use libcryfs.Trees.NodeStore
use libcryfs.Trees.Subtree
use libcryfs.Trees.Traverse
use libcryfs.Trees.Root
use libcryfs.Trees.DataTree
use libcryfs.Nodes.View
use libcryfs.Nodes.Leaf
use libcryfs.Nodes.Inner
use libcryfs.Nodes.Load
use libcryfs.Blocks
use libcryfs.BlockStore.InMemory
use libcryfs.Common.Assoc
use libcryfs.Common.Memory
use libcryfs.Trees.Bytes
use libcryfs.Trees.Resize

abbrev pub memory : ℕ → Data
memory n = replicate n 7

abbrev pub block_size : ℕ
block_size = 40

fresh_ids : ℕ → ℕ → List BlockId
fresh_ids zero k = []
fresh_ids (suc n) k = replicate 16 k ∷ fresh_ids n (k + 1)

abbrev empty : Store in_memory_block_store
empty = record { base = []; ids = fresh_ids 40 1 }

count_up : ℕ → ℕ → Data
count_up zero k = []
count_up (suc n) k = k ∷ count_up n (k + 1)

abbrev pub no_log : ℕ → ℕ → ℕ
no_log base value = 0

-- A blob that grows from one leaf to four, with a gap in front, and is cut off to two.
grow_and_shrink : Result (Data × ℕ × ℕ × Data)
grow_and_shrink = do
  (t, s) ← Resize.create_new_tree in_memory_block_store memory block_size no_log empty
  (t1, s1) ←
      Bytes.write_bytes in_memory_block_store memory block_size no_log t (count_up 100 1) 10 s
  (n1, t2, s2) ← Resize.num_nodes in_memory_block_store memory block_size no_log t1 s1
  (r0, t2, s2) ← Bytes.read_all_bytes in_memory_block_store memory block_size no_log t2 s2
  (t3, s3) ← Resize.resize_num_bytes in_memory_block_store memory block_size no_log t2 50 s2
  (r, t4, s4) ← Bytes.read_all_bytes in_memory_block_store memory block_size no_log t3 s3
  ok (r, n1, length s4.base, r0)

grow_and_shrink_result :
    grow_and_shrink ≡ ok (replicate 10 0 ++ count_up 40 1, 7, 3, replicate 10 0 ++ count_up 100 1)
unfolding grow_and_shrink count_up fresh_ids Math.int_pow Math.for_range NodeStore.save
    NodeStore.create_block NodeStore.create_new_inner_node NodeStore.create_new_leaf_node
    NodeStore.load NodeStore.create_new_node_as_copy_from NodeStore.overwrite_node_with
    NodeStore.remove NodeStore.load_inner NodeStore.remove_subtree Subtree.max_leaves_for_tree_depth
    Subtree.handle_node Subtree.create_children Subtree.create_new_subtree Traverse.traverse_child
    Traverse.add_new_child Traverse.traverse_inner Traverse.traverse_existing_subtree
    Root.load_existing Root.increase_tree_depth Root.remove_root_return_child
    Root.replace_root_with_its_child Root.traverse_root Root.traverse_and_update_root
    DataTree.get_or_compute_size_cache DataTree.num_leaves DataTree.tree_num_bytes
    DataTree.traverse_leaves_by_leaf_indices Bytes.grow_border_leaf Bytes.on_existing_leaf
    Bytes.on_create_leaf Bytes.traverse_leaves_by_byte_indices Bytes.do_read_bytes
    Bytes.read_all_bytes Bytes.write_bytes Resize.remove_children Resize.remove_needless_children
    Resize.resize_num_bytes Resize.num_nodes Resize.create_new_tree View.write_block View.copy_to
    View.fill_with_zeroes View.new_layout View.data_size View.format_version View.depth View.size
    View.set_size View.read_data View.write View.layout View.serialize_ View.create View.initialize
    Leaf.max_storeable_bytes Leaf.open_leaf Leaf.create_leaf Leaf.read Leaf.write
    Leaf.fill_data_with_zeroes_from_to Leaf.resize Inner.open_inner Inner.write_children
    Inner.serialize_children Inner.initialize_new_node Inner.create_new_node Inner.read_child
    Inner.write_child Inner.read_last_child Inner.write_last_child Inner.max_storeable_children
    Inner.add_child Inner.remove_last_child Load.load Load.convert_to_new_inner_node
    Blocks.store_to_base_block Blocks.destroy Blocks.try_create Blocks.load Blocks.remove
    Blocks.create InMemory.remove InMemory.load InMemory.store Assoc.find Assoc.assign Assoc.insert
    Assoc.erase Memory.read_memory Memory.write_memory encode decode bytes_eq
grow_and_shrink_result = refl

abbrev root_id : BlockId
root_id = replicate 16 1

abbrev left_id : BlockId
left_id = replicate 16 2

abbrev right_id : BlockId
right_id = replicate 16 3

abbrev left_leaf : Leaf
left_leaf = record { id = left_id; bytes = replicate 32 5 }

abbrev right_leaf : Leaf
right_leaf = record { id = right_id; bytes = 6 ∷ 7 ∷ 8 ∷ [] }

-- A root with two leaves.
abbrev pub two_leaves : Store in_memory_block_store
two_leaves = record {
  base =
      (root_id, image (inner_node 0 1 (left_id ∷ right_id ∷ []) []))
      ∷ (left_id, image (leaf_node 0 (replicate 32 5) 0))
      ∷ (right_id, image (leaf_node 0 (6 ∷ 7 ∷ 8 ∷ []) 29))
      ∷ [];
  ids = [];
}

abbrev pub tree : DataTree
tree = record { root_id = root_id; size_cache = none }

abbrev pub look : BlockId → Option Data
look = contents two_leaves.base

abbrev pub two : List Leaf
two = left_leaf ∷ right_leaf ∷ []

pub tree-IsTree : IsTree block_size look 1 tree two
unfolding Stored Assoc.find View.data_size encode bytes_eq
tree-IsTree = record {
  stored = record {
    unused = 0;
    children = left_id ∷ right_id ∷ [];
    rest = [];
    stored = refl;
    sized = refl;
    ids = (refl, (refl, tt));
    below =
        more left_id (left_leaf ∷ []) (right_id ∷ []) (right_leaf ∷ [])
          (left_leaf ∷ right_leaf ∷ [])
          (record {
            unused = 0;
            bytes = left_leaf.bytes;
            padding = 0;
            stored = refl;
            sized = refl;
            one = refl;
          })
          refl
          (last right_id (right_leaf ∷ [])
            (record {
              unused = 0;
              bytes = right_leaf.bytes;
              padding = 29;
              stored = refl;
              sized = refl;
              one = refl;
            })
            (omega arith) (omega arith))
          refl;
  };
  trimmed = omega arith;
  filled = ((λ h. refl), omega arith, ((λ h. absurd (omega (arith, h))), omega arith, tt));
  shallow = omega arith;
  few = omega arith;
  cached = inl refl;
}

pub two_leaves-Same :
    Same in_memory-IsLawful memory block_size (omega arith) (omega arith) look two_leaves
two_leaves-Same a = refl

size_cache-Returns_example :
    Returns in_memory-IsLawful memory block_size
      (omega arith)
      (omega arith)
      look
      no_log
      1
      two
      (record { num_leaves = 2; num_bytes = 35 })
      (get_or_compute_size_cache in_memory_block_store memory block_size no_log tree two_leaves)
size_cache-Returns_example =
    size_cache-Returns in_memory-IsLawful memory block_size (omega arith) (omega arith) look no_log
      1 two tree two_leaves tree-IsTree two_leaves-Same

-- A read over the end of the bytes: three of the last leaf are left.
try_read_bytes-eq_example :
    (t : DataTree) × (s : Store in_memory_block_store) × (try_read_bytes in_memory_block_store
        memory block_size no_log tree
        (replicate 9 0)
        30
        9
        two_leaves
      ≡ ok (5, 5 ∷ 5 ∷ 6 ∷ 7 ∷ 8 ∷ replicate 4 0, t, s))
    × IsTree block_size look 1 t two
    × Same in_memory-IsLawful memory block_size (omega arith) (omega arith) look s
try_read_bytes-eq_example =
    try_read_bytes-eq in_memory-IsLawful memory block_size (omega arith) (omega arith) look no_log 1
      two tree (replicate 9 0) 30 9 two_leaves tree-IsTree two_leaves-Same (omega arith)
      (omega arith) refl

read_bytes-eq_example :
    Returns in_memory-IsLawful memory block_size
      (omega arith)
      (omega arith)
      look
      no_log
      1
      two
      (5 ∷ 6 ∷ [])
      (read_bytes in_memory_block_store memory block_size no_log tree
        (replicate 2 0)
        31
        2
        two_leaves)
read_bytes-eq_example =
    read_bytes-eq in_memory-IsLawful memory block_size (omega arith) (omega arith) look no_log 1 two
      tree (replicate 2 0) 31 2 two_leaves tree-IsTree two_leaves-Same (omega arith) refl

-- A count that makes the sum of offset and count wrap around.
read_bytes-outside_example :
    read_bytes in_memory_block_store memory block_size no_log tree
      (replicate 2 0)
      30
      (2 ^ 64 - 1)
      two_leaves
    ≡ err runtime_error
read_bytes-outside_example =
    read_bytes-outside in_memory-IsLawful memory block_size (omega arith) (omega arith) look no_log
      1 two tree (replicate 2 0) 30 (2 ^ 64 - 1) two_leaves tree-IsTree two_leaves-Same
      (omega arith) (omega arith) (omega arith)

create-first_free_example :
    (t : List (BlockId × Data)) × (create in_memory_block_store
        (left_id ∷ replicate 16 9 ∷ [])
        (1 ∷ [])
        two_leaves.base
      ≡ ok (open_block (replicate 16 9) (1 ∷ []), [], t))
    × ((a : BlockId) → contents t a ≡ changed (replicate 16 9) (some (1 ∷ [])) look a)
unfolding Assoc.find bytes_eq
create-first_free_example =
    create-first_free in_memory-IsLawful look (left_id ∷ []) (replicate 16 9) [] (1 ∷ [])
      two_leaves.base (λ a. refl) (refl, tt) refl
