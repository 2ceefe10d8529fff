-- ===== src/Trees/Writing.antt =====
-- A write (`writeBytes` of DataTree.cpp) while its leaves are visited: what holds, and that the nodes
-- can be loaded.
use libcryfs.Common.{
  ℕ, ◌+◌, ◌-◌, ◌^◌, ◌≤◌, ◌<◌, ◌≡◌, refl, ◌∙◌, ap, false, Option, some, List, [], ◌∷◌, ◌++◌, length,
  get_elem?, arith, ltb, leb, ◌&&◌, Bool-cases, inl, inr,
}
use libcryfs.Common.Result.{ok}
use libcryfs.Common.Bytes.{Data, BlockId}
use libcryfs.BlockStore.{BlockStore2, IsLawful}
use libcryfs.Nodes.Image.{image}
use libcryfs.Nodes.LeafRuns.{leaf_node, leaf_block}
use libcryfs.Nodes.Load.{leaf}
use libcryfs.Trees.NodeStore
use libcryfs.Trees.NodeStore.{Store}
use libcryfs.Trees.Subtree.{State, Callbacks}
use libcryfs.Trees.Bytes
use libcryfs.Trees.Bytes.{Growing, write_callbacks}
use libcryfs.Trees.Stored.{Leaf}
use libcryfs.Trees.Loading.{load_leaf-Same, load_inner-Same}
use libcryfs.Trees.VisitLeaves.{Loads}
use libcryfs.Trees.VisitTree.{LoadsLeaf}
use libcryfs.Trees.StoredRenewed.{Distinct}
use libcryfs.Trees.Written.{Written, Written-view, Written-inner, Written-other}

abbrev pub writing :
    (S : BlockStore2) (allocate : ℕ → Data) (block_size : ℕ) (ceil_log : ℕ → ℕ → ℕ) (source : Data)
    (offset first_leaf end_byte end_leaf : ℕ)
    → Callbacks S (Growing (Unit {0}))
writing S allocate block_size ceil_log source offset first_leaf end_byte end_leaf =
    let cb = write_callbacks S allocate block_size ceil_log source offset (length source) in
    record {
      on_existing_leaf =
          Bytes.on_existing_leaf S allocate block_size ceil_log cb offset end_byte end_leaf;
      on_create_leaf =
          Bytes.on_create_leaf S allocate block_size ceil_log cb false offset first_leaf end_byte
            end_leaf;
      on_backtrack_from_subtree = λ block s. ok s;
    }

pub get_elem?-split :
    (pre : List Leaf) (l : Leaf) (post : List Leaf)
    → get_elem? (pre ++ l ∷ post) (length pre) ≡ some l
get_elem?-split [] l post = refl
get_elem?-split (x ∷ pre) l post = get_elem?-split pre l post

module _ {S : BlockStore2} {contents : S.State → BlockId → Option Data} (L : IsLawful S contents)
    (allocate : ℕ → Data) (block_size : ℕ) (room : 40 ≤ block_size) (small : block_size < 2 ^ 32)
    (look : BlockId → Option Data) (ceil_log : ℕ → ℕ → ℕ) (all : List Leaf) (source : Data)
    (offset first_leaf : ℕ) where
  -- The leaves below `n` are written, and the tree does not grow.
  abbrev pub Writing : ℕ → State S (Growing (Unit {0})) → Type 0
  Writing n s =
      Written block_size look all source offset first_leaf n (contents s.nodes.base)
      × (s.own.growing ≡ false)

  pub write-Loads :
      (end_byte end_leaf : ℕ)
      → Loads S allocate block_size room small look ceil_log false
          (Growing (Unit {0}))
          (writing S allocate block_size ceil_log source offset first_leaf end_byte end_leaf)
          all
          Writing
          first_leaf
          end_leaf
  write-Loads end_byte end_leaf n s id unused level children rest stored sized low high (w, still) =
      let now = contents s.nodes.base in
      let there =
        Written-inner block_size look all source offset first_leaf n now id unused level children
          rest w stored low high in
      let (nodes, run, same) =
        load_inner-Same L allocate block_size room small now id s.nodes unused level children rest
          (λ a. refl) (there ∙ stored) sized low high in
      (
        nodes,
        run,
        (
          Written-view block_size look all source offset first_leaf n now (contents nodes.base) same
              w,
          still,
        ),
      )

  load_leaf-Writing :
      (n : ℕ) (s : State S (Growing (Unit {0}))) (id : BlockId) (unused : ℕ) (bytes : Data)
      (padding : ℕ)
      → contents s.nodes.base id ≡ some (image (leaf_node unused bytes padding))
      → length bytes + padding ≡ block_size - 8
      → Writing n s
      → (unused' : ℕ) × (bytes' : Data) × (padding' : ℕ) × (nodes : Store S) × (length bytes'
            + padding'
          ≡ block_size - 8)
        × (NodeStore.load S allocate block_size id s.nodes
            ≡ ok (some (leaf (leaf_block id unused' bytes' padding')), nodes))
        × Writing n (record s { nodes = nodes })
  load_leaf-Writing n s id unused bytes padding stored sized (w, still) =
      let now = contents s.nodes.base in
      let (nodes, run, same) =
        load_leaf-Same L allocate block_size room small now id s.nodes unused bytes padding
          (λ a. refl) stored sized in
      (
        unused,
        bytes,
        padding,
        nodes,
        sized,
        run,
        (
          Written-view block_size look all source offset first_leaf n now (contents nodes.base) same
              w,
          still,
        ),
      )

  module _ (distinct : Distinct all) where
    pub write-LoadsLeaf :
        (end_byte end_leaf : ℕ)
        → LoadsLeaf S allocate block_size room small look ceil_log false
            (Growing (Unit {0}))
            (writing S allocate block_size ceil_log source offset first_leaf end_byte end_leaf)
            all
            Writing
            first_leaf
            end_leaf
    write-LoadsLeaf end_byte end_leaf n s id l (w, still) =
        let now = contents s.nodes.base in
        let x : Leaf = record { id = id; bytes = l.bytes } in
        let there : get_elem? all 0 ≡ some x = ap (λ xs. get_elem? xs 0) l.one in
        elim (Bool-cases (leb first_leaf 0 && ltb 0 n)) [
          | inl written ↦
              let y = w.new_leaf 0 x there (ground (arith, written)) (ground (arith, written)) in
              load_leaf-Writing n s id y.unused y.bytes y.padding y.stored y.sized (w, still)
          | inr not_yet ↦
              load_leaf-Writing n s id l.unused l.bytes l.padding
                (Written-other block_size look all source offset first_leaf distinct n now 0 x w
                    there (λ from. ground (arith, not_yet, from))
                  ∙ l.stored)
                l.sized (w, still)
        ]
