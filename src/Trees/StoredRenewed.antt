-- ===== src/Trees/StoredRenewed.antt =====
-- A tree in which the leaves have new bytes and the inner nodes are kept.
use libcryfs.Common.{
  ℕ, zero, suc, ◌+◌, ◌≤◌, ◌<◌, ◌≡◌, refl, ◌∙◌, sym, ap, subst, Option, some, List, [], ◌∷◌, ◌++◌,
  length, get_elem?, All, arith, ◌≢◌,
}
use libcryfs.Common.Bytes.{Data, BlockId}
use libcryfs.Nodes.Image.{image}
use libcryfs.Nodes.Children.{inner_node}
use libcryfs.Trees.Stored.{Leaf, LeafAt, Stored, Forest, last, more, capacity}
use libcryfs.Trees.Renewed.{new_bytes, renew, length-renew, renew-append}

-- No block is two leaves.
abbrev pub Distinct : List Leaf → Type 0
Distinct [] = Unit
Distinct (l ∷ leaves) = All (λ m. m.id ≢ l.id) leaves × Distinct leaves

pub All-get_elem? :
    (P : Leaf → Type 0) (leaves : List Leaf) (i : ℕ) (l : Leaf)
    → All P leaves
    → get_elem? leaves i ≡ some l
    → P l
All-get_elem? P [] i l all there = absurd (cc (there))
All-get_elem? P (m ∷ leaves) zero l (p, all) there = let same : m ≡ l = cc (there) in subst P same p
All-get_elem? P (m ∷ leaves) (suc i) l (p, all) there = All-get_elem? P leaves i l all there

pub Distinct-get_elem? :
    (leaves : List Leaf) (i j : ℕ) (l m : Leaf)
    → Distinct leaves
    → get_elem? leaves i ≡ some l
    → get_elem? leaves j ≡ some m
    → l.id ≡ m.id
    → i ≡ j
Distinct-get_elem? [] i j l m distinct here there same = absurd (cc (here))
Distinct-get_elem? (x ∷ leaves) zero zero l m distinct here there same = refl
Distinct-get_elem? (x ∷ leaves) zero (suc j) l m (other, distinct) here there same =
    let first : x ≡ l = cc (here) in
    absurd (
      All-get_elem? (λ y. y.id ≢ x.id) leaves j m other there
        (sym same ∙ sym (ap (λ (y : Leaf). y.id) first)))
Distinct-get_elem? (x ∷ leaves) (suc i) zero l m (other, distinct) here there same =
    let first : x ≡ m = cc (there) in
    absurd (
      All-get_elem? (λ y. y.id ≢ x.id) leaves i l other here
        (same ∙ sym (ap (λ (y : Leaf). y.id) first)))
Distinct-get_elem? (x ∷ leaves) (suc i) (suc j) l m (other, distinct) here there same =
    ap suc (Distinct-get_elem? leaves i j l m distinct here there same)

All-renew :
    (id : BlockId) (most offset : ℕ) (source : Data) (n : ℕ) (leaves : List Leaf)
    → All (λ m. m.id ≢ id) leaves
    → All (λ m. m.id ≢ id) (renew most offset source n leaves)
All-renew id most offset source n [] all = tt
All-renew id most offset source n (l ∷ leaves) (other, all) =
    (other, All-renew id most offset source (n + 1) leaves all)

pub Distinct-renew :
    (most offset : ℕ) (source : Data) (n : ℕ) (leaves : List Leaf)
    → Distinct leaves
    → Distinct (renew most offset source n leaves)
Distinct-renew most offset source n [] distinct = tt
Distinct-renew most offset source n (l ∷ leaves) (other, distinct) = (
  All-renew l.id most offset source (n + 1) leaves other,
  Distinct-renew most offset source (n + 1) leaves distinct,
)

module _ (block_size fan : ℕ) (look look' : BlockId → Option Data) (most offset : ℕ)
    (source : Data) where
  -- Each leaf that was stored is stored with its new bytes.
  abbrev pub Rewritten : ℕ → List Leaf → Type 0
  Rewritten n [] = Unit
  Rewritten n (l ∷ leaves) =
      (LeafAt block_size look l.id (l ∷ [])
        → LeafAt block_size look' l.id
            (record { id = l.id; bytes = new_bytes most offset source n l.bytes } ∷ []))
      × Rewritten (n + 1) leaves

  -- The inner nodes are kept.
  abbrev pub KeepsInner : Type 0
  KeepsInner =
      (id : BlockId) (unused level : ℕ) (children : List BlockId) (rest : Data)
      → look id ≡ some (image (inner_node unused (suc level) children rest))
      → level < 10
      → look' id ≡ look id

  Rewritten-append :
      (n : ℕ) (xs ys : List Leaf)
      → Rewritten n (xs ++ ys)
      → Rewritten n xs × Rewritten (n + length xs) ys
  Rewritten-append n [] ys all =
      let e : n ≡ n + 0 = omega arith in (tt, subst (λ k. Rewritten k ys) e all)
  Rewritten-append n (x ∷ xs) ys (here, all) =
      let (front, back) = Rewritten-append (n + 1) xs ys all in
      let e : n + 1 + length xs ≡ n + suc (length xs) = omega arith in
      ((here, front), subst (λ k. Rewritten k ys) e back)

  Forest-renew :
      (P Q : BlockId → List Leaf → Type 0) (cap n : ℕ) (children : List BlockId)
      (leaves : List Leaf)
      → ((m : ℕ) (id : BlockId) (part : List Leaf)
          → Rewritten m part
          → P id part
          → Q id (renew most offset source m part))
      → Rewritten n leaves
      → Forest P cap children leaves
      → Forest Q cap children (renew most offset source n leaves)
  Forest-renew P Q cap n children leaves step all (last child part p some_leaf bounded) =
      last child (renew most offset source n part) (step n child part all p)
        (omega (arith, length-renew most offset source n part, some_leaf))
        (omega (arith, length-renew most offset source n part, bounded))
  Forest-renew P Q cap n children leaves step all (more child part children' rest _ p full f e) =
      let (front, back) = Rewritten-append n part rest (subst (Rewritten n) e all) in
      more child (renew most offset source n part) children'
        (renew most offset source (n + length part) rest) (renew most offset source n leaves)
        (step n child part front p) (length-renew most offset source n part ∙ full)
        (Forest-renew P Q cap (n + length part) children' rest step back f)
        (ap (renew most offset source n) e ∙ renew-append most offset source n part rest)

  pub Stored-renew :
      KeepsInner
      → (level : ℕ) → level ≤ 10
      → (n : ℕ) (id : BlockId) (leaves : List Leaf) → Rewritten n leaves
      → Stored block_size fan look level id leaves
      → Stored block_size fan look' level id (renew most offset source n leaves)
  unfolding Stored
  Stored-renew keeps zero shallow n id leaves all l =
      subst (λ xs. LeafAt block_size look' id (renew most offset source n xs)) (sym l.one)
        ((subst (Rewritten n) l.one all).0 (record {
          unused = l.unused;
          bytes = l.bytes;
          padding = l.padding;
          stored = l.stored;
          sized = l.sized;
          one = refl;
        }))
  Stored-renew keeps (suc level) shallow n id leaves all i = record {
    unused = i.unused;
    children = i.children;
    rest = i.rest;
    stored = keeps id i.unused level i.children i.rest i.stored (omega (arith, shallow)) ∙ i.stored;
    sized = i.sized;
    ids = i.ids;
    below =
        Forest-renew (Stored block_size fan look level) (Stored block_size fan look' level)
          (capacity fan level) n i.children leaves
          (λ m child part rewritten stored.
            Stored-renew keeps level (omega (arith, shallow)) m child part rewritten stored)
          all i.below;
  }
