-- ===== src/Trees/Stored.antt =====
-- A tree as it stands in a block store: the leaves from left to right. All children of a node but the
-- last one are full.
use libcryfs.Common.{
  ℕ, zero, suc, ◌+◌, ◌-◌, ◌*◌, ◌≤◌, ◌<◌, ◌≡◌, refl, ◌∙◌, sym, ap, Option, some, List, [], ◌∷◌, ◌++◌,
  length, length-append, arith, append_assoc, append-nil,
}
use libcryfs.Common.Bytes.{Data, BlockId}
use libcryfs.Nodes.Image.{image}
use libcryfs.Nodes.LeafRuns.{leaf_node}
use libcryfs.Nodes.Children.{joined, AreIds, inner_node}

pub record Leaf : Type 0 where
  pub id : BlockId
  pub bytes : Data

-- The leaves below a list of children, of which `P` says what they have and `cap` how many at most.
pub data Forest (P : BlockId → List Leaf → Type 0) (cap : ℕ)
    : List BlockId → List Leaf → Type 0 where
  last :
      (child : BlockId) (part : List Leaf)
      → P child part
      → 0 < length part
      → length part ≤ cap
      → Forest P cap (child ∷ []) part
  more :
      (child : BlockId) (part : List Leaf) (children : List BlockId) (rest leaves : List Leaf)
      → P child part
      → length part ≡ cap
      → Forest P cap children rest
      → leaves ≡ part ++ rest
      → Forest P cap (child ∷ children) leaves

-- The leaves of a full tree of a number of levels, with `fan` children a node.
abbrev pub capacity : ℕ → ℕ → ℕ
capacity fan zero = 1
capacity fan (suc level) = capacity fan level * fan

pub record LeafAt (block_size : ℕ) (look : BlockId → Option Data) (id : BlockId)
    (leaves : List Leaf) : Type 0 where
  pub unused : ℕ
  pub bytes : Data
  pub padding : ℕ
  pub stored : look id ≡ some (image (leaf_node unused bytes padding))
  pub sized : length bytes + padding ≡ block_size - 8
  pub one : leaves ≡ record { id = id; bytes = bytes } ∷ []

pub record InnerAt (block_size : ℕ) (look : BlockId → Option Data)
    (P : BlockId → List Leaf → Type 0) (cap level : ℕ) (id : BlockId) (leaves : List Leaf)
    : Type 0 where
  pub unused : ℕ
  pub children : List BlockId
  pub rest : Data
  pub stored : look id ≡ some (image (inner_node unused level children rest))
  pub sized : length (joined children ++ rest) ≡ block_size - 8
  pub ids : AreIds children
  pub below : Forest P cap children leaves

unfoldable pub Stored :
    (block_size fan : ℕ) → (BlockId → Option Data) → ℕ → BlockId → List Leaf → Type 0
Stored block_size fan look zero id leaves = LeafAt block_size look id leaves
Stored block_size fan look (suc level) id leaves =
    InnerAt block_size look (Stored block_size fan look level) (capacity fan level) (suc level) id
      leaves

-- The root has two children or more, or it is a leaf.
abbrev pub IsTrimmed : ℕ → ℕ → ℕ → Type 0
IsTrimmed fan zero n = Unit
IsTrimmed fan (suc level) n = capacity fan level < n

-- One child of a list, and the leaves in front of it and behind.
pub record ChildAt (P : BlockId → List Leaf → Type 0) (cap : ℕ) (children : List BlockId)
    (leaves : List Leaf) (k : ℕ) : Type 0 where
  pub pre : List BlockId
  pub child : BlockId
  pub post : List BlockId
  pub before : List Leaf
  pub part : List Leaf
  pub after : List Leaf
  pub position : length pre ≡ k
  pub split : children ≡ pre ++ child ∷ post
  pub leaves_split : leaves ≡ before ++ (part ++ after)
  pub in_front : length before ≡ k * cap
  pub holds : P child part
  pub some_leaf : 0 < length part
  pub bounded : length part ≤ cap
  pub full : suc k < length children → length part ≡ cap
  pub at_end : suc k ≡ length children → after ≡ []

pub Forest-some_child :
    {P : BlockId → List Leaf → Type 0} {cap : ℕ} {children : List BlockId} {leaves : List Leaf}
    → Forest P cap children leaves
    → 0 < length children
Forest-some_child (last child part p some_leaf bounded) = omega arith
Forest-some_child (more child part children rest leaves p full f e) = omega arith

pub Forest-child :
    {P : BlockId → List Leaf → Type 0} {cap : ℕ} {children : List BlockId} {leaves : List Leaf}
    → 0 < cap
    → Forest P cap children leaves
    → (k : ℕ) → k < length children
    → ChildAt P cap children leaves k
Forest-child positive (last child part p some_leaf bounded) zero inside = record {
  pre = [];
  child = child;
  post = [];
  before = [];
  part = part;
  after = [];
  position = refl;
  split = refl;
  leaves_split = sym (append-nil part);
  in_front = omega arith;
  holds = p;
  some_leaf = some_leaf;
  bounded = bounded;
  full = λ h. absurd (omega (arith, h));
  at_end = λ h. refl;
}
Forest-child positive (last child part p some_leaf bounded) (suc k) inside =
    absurd (omega (arith, inside))
Forest-child positive (more child part children rest leaves p full f e) zero inside = record {
  pre = [];
  child = child;
  post = children;
  before = [];
  part = part;
  after = rest;
  position = refl;
  split = refl;
  leaves_split = e;
  in_front = omega arith;
  holds = p;
  some_leaf = omega (arith, positive, full);
  bounded = omega (arith, full);
  full = λ h. full;
  at_end = λ h. absurd (omega (arith, h, Forest-some_child f));
}
Forest-child {cap = cap} positive (more child part children rest leaves p full f e) (suc k) inside =
    let c = Forest-child positive f k (omega (arith, inside)) in
    record {
      pre = child ∷ c.pre;
      child = c.child;
      post = c.post;
      before = part ++ c.before;
      part = c.part;
      after = c.after;
      position = ap suc c.position;
      split = ap (◌∷◌ child) c.split;
      leaves_split =
          e
          ∙ ap (λ l. part ++ l) c.leaves_split
          ∙ sym (append_assoc part c.before (c.part ++ c.after));
      in_front = omega (arith, length-append part c.before, full, c.in_front);
      holds = c.holds;
      some_leaf = c.some_leaf;
      bounded = c.bounded;
      full = λ h. c.full (omega (arith, h));
      at_end = λ h. c.at_end (omega (arith, h));
    }

pub length-Forest :
    {P : BlockId → List Leaf → Type 0} {cap : ℕ} {children : List BlockId} {leaves : List Leaf}
    → Forest P cap children leaves
    → (length leaves ≤ length children * cap) × (length children * cap < length leaves + cap)
length-Forest (last child part p some_leaf bounded) =
    (omega (arith, bounded), omega (arith, some_leaf, bounded))
length-Forest {cap = cap} (more child part children rest leaves p full f e) =
    let (most, least) = length-Forest f in
    let total : length leaves ≡ length part + length rest = ap length e ∙ length-append part rest in
    (omega (arith, most, full, total), omega (arith, least, full, total))
