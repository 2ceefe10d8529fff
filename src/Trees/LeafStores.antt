-- ===== src/Trees/LeafStores.antt =====
-- A leaf of a stored tree that is written (`flush` of its block, and `overwriteLeaf` of
-- DataNodeStore.cpp).
use libcryfs.Common.{
  ℕ, ◌-◌, ◌^◌, ◌≤◌, ◌<◌, ◌≡◌, ◌≢◌, refl, ◌∙◌, sym, ap, Option, some, arith, length, inl, inr,
  Bool-cases, if◌then◌else◌,
}
use libcryfs.Common.Equality.{◌==◌, bytes_eq, beq_refl}
use libcryfs.Common.Result.{ok}
use libcryfs.Common.Bytes.{Data, BlockId}
use libcryfs.BlockStore.{BlockStore2, IsLawful, changed}
use libcryfs.Blocks
use libcryfs.Nodes.View.{Block}
use libcryfs.Nodes.Image.{image}
use libcryfs.Nodes.Leaf
use libcryfs.Nodes.Leaf.{open_leaf}
use libcryfs.Nodes.LeafRuns.{leaf_node, leaf_block}
use libcryfs.Nodes.LeafBytes.{open_leaf-eq}
use libcryfs.Nodes.Created.{overwrite_leaf-image}
use libcryfs.Trees.NodeStore.{Store, save, overwrite_leaf}
use libcryfs.Trees.Loading.{Same}

pub changed-same :
    (look : BlockId → Option Data) (id a : BlockId) (content : Data)
    → look id ≡ some content
    → look a ≡ changed id (some content) look a
unfolding bytes_eq
changed-same look id a content there = elim (Bool-cases (a == id)) [
  | inl same ↦
      ap look ((bytes_eq.beq_iff a id).0 same)
      ∙ there
      ∙ sym (ap (λ b. if b then some content else look a) same)
  | inr other ↦ sym (ap (λ b. if b then some content else look a) other)
]

pub changed-here :
    (look : BlockId → Option Data) (id : BlockId) (content : Option Data)
    → changed id content look id ≡ content
changed-here look id content = ap (λ b. if b then content else look id) (beq_refl id)

pub changed-other :
    (look : BlockId → Option Data) (id a : BlockId) (content : Option Data)
    → a ≢ id
    → changed id content look a ≡ look a
unfolding bytes_eq
changed-other look id a content other = elim (Bool-cases (a == id)) [
  | inl same ↦ absurd (other ((bytes_eq.beq_iff a id).0 same))
  | inr differs ↦ ap (λ b. if b then content else look a) differs
]

pub changed-changed :
    (look : BlockId → Option Data) (id a : BlockId) (content old : Option Data)
    → changed id content (changed id old look) a ≡ changed id content look a
changed-changed look id a content old = elim (Bool-cases (a == id)) [
  | inl same ↦ rw same refl
  | inr other ↦ rw other refl
]

module _ (S : BlockStore2) (allocate : ℕ → Data) (block_size : ℕ) where
  save-run :
      (block : Block) (s : Store S) (base : S.State)
      → S.store block.block_id block.content s.base ≡ ok base
      → save S allocate block_size block s ≡ ok (record s { base = base })
  unfolding save Blocks.destroy Blocks.store_to_base_block
  save-run block s base run = rw run refl

  overwrite-run :
      (id : BlockId) (source content : Data) (opened : Block) (s : Store S) (base : S.State)
      → Leaf.overwrite_leaf (allocate block_size) block_size source ≡ ok content
      → S.store id content s.base ≡ ok base
      → open_leaf (record { block_id = id; content = content }) ≡ ok opened
      → overwrite_leaf S allocate block_size id source s ≡ ok (opened, record s { base = base })
  unfolding overwrite_leaf Blocks.overwrite
  overwrite-run id source content opened s base made run checked = rw (made, run, checked) refl

module _ {S : BlockStore2} {contents : S.State → BlockId → Option Data} (L : IsLawful S contents)
    (allocate : ℕ → Data) (block_size : ℕ) (room : 40 ≤ block_size) (small : block_size < 2 ^ 32)
    (look : BlockId → Option Data) where
  store-Same :
      (id : BlockId) (content : Data) (s : Store S)
      → Same L allocate block_size room small look s
      → (base : S.State) × (S.store id content s.base ≡ ok base)
        × Same L allocate block_size room small
            (changed id (some content) look)
            (record s { base = base })
  store-Same id content s same =
      let (base, run, view) = L.store_lem id content s.base in
      (base, run, λ a. view a ∙ ap (λ old. if a == id then some content else old) (same a))

  pub save-Same :
      (block : Block) (s : Store S)
      → Same L allocate block_size room small look s
      → (t : Store S) × (save S allocate block_size block s ≡ ok t)
        × Same L allocate block_size room small (changed block.block_id (some block.content) look) t
  save-Same block s same =
      let (base, run, view) = store-Same block.block_id block.content s same in
      (record s { base = base }, save-run S allocate block_size block s base run, view)

  pub overwrite_leaf-Same :
      (id : BlockId) (source : Data) (s : Store S)
      → ((n : ℕ) → length (allocate n) ≡ n)
      → length source ≡ block_size - 8
      → Same L allocate block_size room small look s
      → (unused : ℕ) × (block : Block) × (t : Store S) × (overwrite_leaf S allocate block_size id
            source s
          ≡ ok (block, t))
        × Same L allocate block_size room small
            (changed id (some (image (leaf_node unused source 0))) look)
            t
  overwrite_leaf-Same id source s sizes whole same =
      let long = sizes block_size in
      let (unused, made) =
        overwrite_leaf-image (allocate block_size) source (omega (arith, long, small))
          (omega (arith, long, whole, room)) in
      let (base, run, view) = store-Same id (image (leaf_node unused source 0)) s same in
      (
        unused,
        leaf_block id unused source 0,
        record s { base = base },
        overwrite-run S allocate block_size id source (image (leaf_node unused source 0)) _ s base
            (ap (λ n. Leaf.overwrite_leaf (allocate block_size) n source) (sym long) ∙ made) run
            (open_leaf-eq id unused source 0 (omega (arith, whole, room))
              (omega (arith, whole, small, room))),
        view,
      )
