-- ===== src/Trees/Loading.antt =====
-- To load a node of a stored tree changes nothing that is seen of the store.
use libcryfs.Common.{
  ℕ, ◌+◌, ◌-◌, ◌^◌, ◌≤◌, ◌<◌, ◌≡◌, refl, ◌∙◌, ap, Option, some, List, ◌++◌, length, arith,
}
use libcryfs.Common.Result.{ok}
use libcryfs.Common.Bytes.{Data, BlockId}
use libcryfs.BlockStore.{BlockStore2, IsLawful}
use libcryfs.Blocks
use libcryfs.Blocks.{open_block}
use libcryfs.Nodes.Image.{image}
use libcryfs.Nodes.LeafRuns.{leaf_node, leaf_block, length-payload}
use libcryfs.Nodes.Children.{joined, inner_node, inner_block}
use libcryfs.Nodes.Load
use libcryfs.Nodes.Load.{DataNode, leaf, inner, load-leaf, load-inner}
use libcryfs.Nodes.Convert.{length-image}
use libcryfs.Trees.NodeStore
use libcryfs.Trees.NodeStore.{Store}
use libcryfs.Trees.Subtree.{handle_node}

module _ (S : BlockStore2) (allocate : ℕ → Data) (block_size : ℕ) where
  load-run :
      (id : BlockId) (s : Store S) (content : Data) (node : DataNode) (base : S.State)
      → S.load id s.base ≡ ok (some content, base)
      → length content ≡ block_size
      → Load.load (record { block_id = id; content = content }) ≡ ok node
      → NodeStore.load S allocate block_size id s ≡ ok (some node, record s { base = base })
  unfolding NodeStore.load Blocks.load
  load-run id s content node base loaded sized opened = ground (arith, loaded, sized, opened)

module _ {S : BlockStore2} {contents : S.State → BlockId → Option Data} (L : IsLawful S contents)
    (allocate : ℕ → Data) (block_size : ℕ) (room : 40 ≤ block_size) (small : block_size < 2 ^ 32)
    (look : BlockId → Option Data) where
  -- The store has these blocks.
  abbrev pub Same : Store S → Type 0
  Same s = (a : BlockId) → contents s.base a ≡ look a

  load-Same :
      (id : BlockId) (s : Store S) (content : Data) (node : DataNode)
      → Same s
      → look id ≡ some content
      → length content ≡ block_size
      → Load.load (record { block_id = id; content = content }) ≡ ok node
      → (t : Store S) × (NodeStore.load S allocate block_size id s ≡ ok (some node, t)) × Same t
  load-Same id s content node same stored sized opened =
      let (base, loaded, view) = L.load_lem id s.base in
      (
        record s { base = base },
        load-run S allocate block_size id s content node base
            (loaded ∙ ap (λ o. ok (o, base)) (same id ∙ stored)) sized opened,
        λ a. view a ∙ same a,
      )

  pub load_leaf-Same :
      (id : BlockId) (s : Store S) (unused : ℕ) (bytes : Data) (padding : ℕ)
      → Same s
      → look id ≡ some (image (leaf_node unused bytes padding))
      → length bytes + padding ≡ block_size - 8
      → (t : Store S) × (NodeStore.load S allocate block_size id s
          ≡ ok (some (leaf (leaf_block id unused bytes padding)), t))
        × Same t
  load_leaf-Same id s unused bytes padding same stored sized =
      load-Same id s (image (leaf_node unused bytes padding)) _ same stored
        (length-image (leaf_node unused bytes padding)
          ∙ omega (arith, length-payload bytes padding, sized, room))
        (load-leaf id unused bytes padding (omega (arith, sized, room))
          (omega (arith, sized, small)))

  pub load_inner-Same :
      (id : BlockId) (s : Store S) (unused level : ℕ) (children : List BlockId) (rest : Data)
      → Same s
      → look id ≡ some (image (inner_node unused level children rest))
      → length (joined children ++ rest) ≡ block_size - 8
      → 0 < level
      → level ≤ 10
      → (t : Store S) × (NodeStore.load S allocate block_size id s
          ≡ ok (some (inner (inner_block id unused level children rest)), t))
        × Same t
  load_inner-Same id s unused level children rest same stored sized low high =
      load-Same id s (image (inner_node unused level children rest)) _ same stored
        (length-image (inner_node unused level children rest) ∙ omega (arith, sized, room))
        (load-inner id unused level children rest low high)

  pub handle_node-Same :
      (id : BlockId) (s : Store S) (unused : ℕ) (bytes : Data) (padding : ℕ)
      → Same s
      → look id ≡ some (image (leaf_node unused bytes padding))
      → length bytes + padding ≡ block_size - 8
      → (t : Store S) × (handle_node S allocate block_size id s
          ≡ ok (leaf_block id unused bytes padding, t))
        × Same t
  unfolding handle_node
  handle_node-Same id s unused bytes padding same stored sized =
      let (t, run, same') = load_leaf-Same id s unused bytes padding same stored sized in
      (t, rw run refl, same')
