-- ===== src/Trees/Tree.antt =====
-- A tree (DataTree.cpp) with its size cache over the blocks of a store, and what `numLeaves` and
-- `numBytes` return.
use native.Mathlib.Nat.{mul-le-mul_right}
use libcryfs.Common.{
  ℕ, zero, suc, ◌^◌, ◌≤◌, ◌<◌, ◌≡◌, refl, ap, Option, some, none, List, length, arith, inl, inr,
  ◌⊎◌,
}
use libcryfs.Common.Result.{Result, ok}
use libcryfs.Common.Bytes.{Data, BlockId}
use libcryfs.BlockStore.{BlockStore2, IsLawful}
use libcryfs.Nodes.View.{max_children_per_inner_node, max_bytes_per_leaf}
use libcryfs.Nodes.Load.{DataNode}
use libcryfs.Trees.NodeStore
use libcryfs.Trees.NodeStore.{Store}
use libcryfs.Trees.DataTree
use libcryfs.Trees.DataTree.{DataTree, SizeCache, compute_size_cache, get_or_compute_size_cache}
use libcryfs.Trees.Stored.{Leaf, Stored, IsTrimmed, capacity, length-Forest}
use libcryfs.Trees.Content.{content, Filled}
use libcryfs.Trees.Loading.{Same}
use libcryfs.Trees.VisitChild.{InnerAt-few}
use libcryfs.Trees.SizeRuns.{size_of}
use libcryfs.Trees.Size.{Measures-level}

-- The tree of a root has these leaves: the nodes are in the store, all leaves but the last one are full,
-- the root has no single child, and the size cache is empty or right.
pub record IsTree (block_size : ℕ) (look : BlockId → Option Data) (level : ℕ) (t : DataTree)
    (all : List Leaf) : Type 0 where
  pub stored : Stored block_size (max_children_per_inner_node block_size) look level t.root_id all
  pub trimmed : IsTrimmed (max_children_per_inner_node block_size) level (length all)
  pub filled : Filled (max_bytes_per_leaf block_size) all
  pub shallow : level ≤ 10
  pub few : capacity (max_children_per_inner_node block_size) level < 2 ^ 31
  pub cached : (t.size_cache ≡ none) ⊎ (t.size_cache ≡ some (size_of all))

length-Stored :
    (block_size : ℕ) (look : BlockId → Option Data)
    → 40 ≤ block_size
    → block_size < 2 ^ 32
    → (level : ℕ) (id : BlockId) (leaves : List Leaf)
    → Stored block_size (max_children_per_inner_node block_size) look level id leaves
    → length leaves ≤ capacity (max_children_per_inner_node block_size) level
unfolding Stored
length-Stored block_size look room small zero id leaves l = omega (arith, ap length l.one)
length-Stored block_size look room small (suc level) id leaves i = omega (
  arith,
  (length-Forest i.below).0,
  mul-le-mul_right (capacity (max_children_per_inner_node block_size) level)
      (InnerAt-few room small i),
)

pub IsTree-fits :
    {block_size level : ℕ} {look : BlockId → Option Data} {t : DataTree} {all : List Leaf}
    → 40 ≤ block_size
    → block_size < 2 ^ 32
    → IsTree block_size look level t all
    → length all < 2 ^ 31
IsTree-fits {block_size} {level} {look} {t} {all} room small tree =
    omega
      (arith, length-Stored block_size look room small level t.root_id all tree.stored, tree.few)

module _ (S : BlockStore2) (allocate : ℕ → Data) (block_size : ℕ) (ceil_log : ℕ → ℕ → ℕ) where
  computed-run :
      (t : DataTree) (s s1 s2 : Store S) (root : DataNode) (cache : SizeCache)
      → t.size_cache ≡ none
      → NodeStore.load S allocate block_size t.root_id s ≡ ok (some root, s1)
      → compute_size_cache S allocate block_size ceil_log (2 ^ 8) root s1 ≡ ok (cache, s2)
      → get_or_compute_size_cache S allocate block_size ceil_log t s
        ≡ ok (cache, record t { size_cache = some cache }, s2)
  unfolding get_or_compute_size_cache
  computed-run t s s1 s2 root cache empty loaded run = rw (empty, loaded, run) refl

  cached-run :
      (t : DataTree) (s : Store S) (cache : SizeCache)
      → t.size_cache ≡ some cache
      → get_or_compute_size_cache S allocate block_size ceil_log t s ≡ ok (cache, t, s)
  unfolding get_or_compute_size_cache
  cached-run t s cache there = rw there refl

module _ {S : BlockStore2} {contents : S.State → BlockId → Option Data} (L : IsLawful S contents)
    (allocate : ℕ → Data) (block_size : ℕ) (room : 40 ≤ block_size) (small : block_size < 2 ^ 32)
    (look : BlockId → Option Data) (ceil_log : ℕ → ℕ → ℕ) (level : ℕ) (all : List Leaf) where
  -- The operation returns a value; the tree and the blocks are as they were.
  abbrev pub Returns {ℓ} : {A : Type ℓ} → A → Result (A × DataTree × Store S) → Type ℓ
  Returns {A = A} a result =
      (t' : DataTree) × (s' : Store S) × (result ≡ ok (a, t', s'))
      × IsTree block_size look level t' all
      × Same L allocate block_size room small look s'

  -- The size of a tree, which is computed along the last children only or taken from the cache, is
  -- the number of all leaves and the number of all their bytes; the cache is right afterwards, and
  -- neither the tree nor a block changes. The tree is in a store without faults, has at most ten
  -- levels, which have room for less than 2 ^ 31 leaves, and a block has 40 bytes or more and less
  -- than 2 ^ 32.
  pub size_cache-Returns :
      (t : DataTree) (s : Store S)
      → IsTree block_size look level t all
      → Same L allocate block_size room small look s
      → Returns (size_of all) (get_or_compute_size_cache S allocate block_size ceil_log t s)
  size_cache-Returns t s tree same = elim tree.cached [
    | inl empty ↦
        let (root, s1, s2, loaded, run, same2) =
          Measures-level L allocate block_size room small look ceil_log level tree.shallow tree.few
            t.root_id all (2 ^ 8) s tree.stored tree.filled (omega (arith, tree.shallow)) same in
        (
          record t { size_cache = some (size_of all) },
          s2,
          computed-run S allocate block_size ceil_log t s s1 s2 root (size_of all) empty loaded run,
          record {
            stored = tree.stored;
            trimmed = tree.trimmed;
            filled = tree.filled;
            shallow = tree.shallow;
            few = tree.few;
            cached = inr refl;
          },
          same2,
        )
    | inr there ↦
        (t, s, cached-run S allocate block_size ceil_log t s (size_of all) there, tree, same)
  ]

  pub num_leaves-Returns :
      (t : DataTree) (s : Store S)
      → IsTree block_size look level t all
      → Same L allocate block_size room small look s
      → Returns (length all) (DataTree.num_leaves S allocate block_size ceil_log t s)
  unfolding DataTree.num_leaves
  num_leaves-Returns t s tree same =
      let (t', s', run, tree', same') = size_cache-Returns t s tree same in
      (t', s', rw run refl, tree', same')

  pub num_bytes-Returns :
      (t : DataTree) (s : Store S)
      → IsTree block_size look level t all
      → Same L allocate block_size room small look s
      → Returns (length (content all)) (DataTree.tree_num_bytes S allocate block_size ceil_log t s)
  unfolding DataTree.tree_num_bytes
  num_bytes-Returns t s tree same =
      let (t', s', run, tree', same') = size_cache-Returns t s tree same in
      (t', s', rw run refl, tree', same')
