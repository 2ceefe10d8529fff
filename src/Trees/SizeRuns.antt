-- ===== src/Trees/SizeRuns.antt =====
-- The steps of `_computeSizeCache` (DataTree.cpp), and the last child of a node.
use libcryfs.Common.{
  ℕ, zero, suc, ◌+◌, ◌-◌, ◌*◌, ◌%◌, ◌^◌, ◌<◌, ◌≡◌, refl, ◌∙◌, sym, ap, some, List, [], ◌∷◌, ◌++◌,
  length, length-append, arith, append-nil,
}
use libcryfs.Common.Result.{ok}
use libcryfs.Common.Bytes.{Data, BlockId}
use libcryfs.Common.Memory.{add64}
use libcryfs.BlockStore.{BlockStore2}
use libcryfs.Nodes.View.{Block, depth, max_children_per_inner_node, max_bytes_per_leaf}
use libcryfs.Nodes.Leaf.{num_bytes}
use libcryfs.Nodes.Inner.{num_children, read_child, read_last_child}
use libcryfs.Nodes.Load.{DataNode, leaf, inner}
use libcryfs.Trees.Math.{int_pow}
use libcryfs.Trees.NodeStore
use libcryfs.Trees.NodeStore.{Store}
use libcryfs.Trees.DataTree.{SizeCache, leaves_per_full_child, compute_size_cache}
use libcryfs.Trees.Stored.{Leaf, Forest, Forest-child, Forest-some_child}
use libcryfs.Trees.Content.{content}

abbrev pub size_of : List Leaf → SizeCache
size_of leaves = record { num_leaves = length leaves; num_bytes = length (content leaves) }

pub size_of-eq :
    (a b : ℕ) (leaves : List Leaf)
    → a ≡ length leaves
    → b ≡ length (content leaves)
    → ◌≡◌ {A = SizeCache} (record { num_leaves = a; num_bytes = b }) (size_of leaves)
size_of-eq a b leaves p q = λ i. record { num_leaves = p i; num_bytes = q i }

pub read_last_child-run :
    (block : Block) (n : ℕ) (child : BlockId)
    → num_children block ≡ ok n
    → 0 < n
    → n < 2 ^ 32
    → read_child (n - 1) block ≡ ok child
    → read_last_child block ≡ ok child
unfolding read_last_child
read_last_child-run block n child count some_children small reading =
    let last : (n + (2 ^ 32 - 1)) % 2 ^ 32 ≡ n - 1 = omega (arith, some_children, small) in
    rw (count, last) reading

module _ (S : BlockStore2) (allocate : ℕ → Data) (block_size : ℕ) (ceil_log : ℕ → ℕ → ℕ) where
  pub leaves_per_full_child-run :
      (block : Block) (level cap : ℕ)
      → depth block ≡ ok (suc level)
      → level < 10
      → int_pow (max_children_per_inner_node block_size) level ≡ cap
      → cap < 2 ^ 31
      → leaves_per_full_child S allocate block_size ceil_log block ≡ ok cap
  unfolding leaves_per_full_child
  leaves_per_full_child-run block level cap level_ok shallow power few =
      let below : (suc level + (2 ^ 64 - 1)) % 2 ^ 64 ≡ level = omega (arith, shallow) in
      let bits : cap % 2 ^ 32 ≡ cap = omega (arith, few) in rw (level_ok, below, power, bits) refl

  pub compute_size_cache-leaf :
      (rounds n : ℕ) (block : Block) (s : Store S)
      → num_bytes block ≡ ok n
      → compute_size_cache S allocate block_size ceil_log rounds (leaf block) s
        ≡ ok (record { num_leaves = 1; num_bytes = n }, s)
  unfolding compute_size_cache
  compute_size_cache-leaf zero n block s count = rw count refl
  compute_size_cache-leaf (suc rounds) n block s count = rw count refl

  pub compute_size_cache-inner :
      (rounds n cap : ℕ) (block : Block) (child : BlockId) (node : DataNode) (leaves bytes : ℕ)
      (s s1 s2 : Store S)
      → num_children block ≡ ok n
      → leaves_per_full_child S allocate block_size ceil_log block ≡ ok cap
      → read_last_child block ≡ ok child
      → NodeStore.load S allocate block_size child s ≡ ok (some node, s1)
      → compute_size_cache S allocate block_size ceil_log rounds node s1
        ≡ ok (record { num_leaves = leaves; num_bytes = bytes }, s2)
      → 0 < n
      → n < 2 ^ 32
      → (n - 1) * cap + leaves < 2 ^ 31
      → (n - 1) * cap * max_bytes_per_leaf block_size + bytes < 2 ^ 64
      → compute_size_cache S allocate block_size ceil_log (suc rounds) (inner block) s
        ≡ ok (
          record {
            num_leaves = (n - 1) * cap + leaves;
            num_bytes = (n - 1) * cap * max_bytes_per_leaf block_size + bytes;
          },
          s2,
        )
  unfolding compute_size_cache
  compute_size_cache-inner rounds n cap block child node leaves bytes s s1 s2 count per_child
        reading loaded below some_children many few short =
      let front : (n + (2 ^ 32 - 1)) % 2 ^ 32 ≡ n - 1 = omega (arith, some_children, many) in
      let left : ((n - 1) * cap) % 2 ^ 32 ≡ (n - 1) * cap = omega (arith, few) in
      let total : ((n - 1) * cap + leaves) % 2 ^ 32 ≡ (n - 1) * cap + leaves = omega (arith, few) in
      let size : add64 (((n - 1) * cap * max_bytes_per_leaf block_size) % 2 ^ 64) bytes
          ≡ (n - 1) * cap * max_bytes_per_leaf block_size + bytes =
        omega (arith, short) in
      rw (count, per_child, reading, loaded, below, front, left, total, size) refl

-- The last child of a node, and the leaves in front of it.
pub record LastChild (P : BlockId → List Leaf → Type 0) (cap : ℕ) (children : List BlockId)
    (leaves : List Leaf) : Type 0 where
  pub pre : List BlockId
  pub child : BlockId
  pub before : List Leaf
  pub part : List Leaf
  pub position : length pre ≡ length children - 1
  pub split : children ≡ pre ++ child ∷ []
  pub leaves_split : leaves ≡ before ++ part
  pub in_front : length before ≡ (length children - 1) * cap
  pub holds : P child part
  pub some_leaf : 0 < length part

no_more :
    (pre post : List BlockId) (child : BlockId) (n : ℕ)
    → length pre ≡ n - 1
    → length (pre ++ child ∷ post) ≡ n
    → post ≡ []
no_more pre [] child n position total = refl
no_more pre (x ∷ post) child n position total =
    absurd (omega (arith, length-append pre (child ∷ x ∷ post), position, total))

pub Forest-LastChild :
    {P : BlockId → List Leaf → Type 0} {cap : ℕ} {children : List BlockId} {leaves : List Leaf}
    → 0 < cap
    → Forest P cap children leaves
    → LastChild P cap children leaves
Forest-LastChild {children = children} positive below =
    let some_children = Forest-some_child below in
    let c = Forest-child positive below (length children - 1) (omega (arith, some_children)) in
    let alone =
      no_more c.pre c.post c.child (length children) c.position (sym (ap length c.split)) in
    record {
      pre = c.pre;
      child = c.child;
      before = c.before;
      part = c.part;
      position = c.position;
      split = c.split ∙ ap (λ p. c.pre ++ c.child ∷ p) alone;
      leaves_split =
          c.leaves_split
          ∙ ap (λ a. c.before ++ (c.part ++ a)) (c.at_end (omega (arith, some_children)))
          ∙ ap (λ a. c.before ++ a) (append-nil c.part);
      in_front = c.in_front;
      holds = c.holds;
      some_leaf = c.some_leaf;
    }
