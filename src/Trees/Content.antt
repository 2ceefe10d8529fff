-- ===== src/Trees/Content.antt =====
-- The bytes of a tree, and which of them a leaf has.
use libcryfs.Common.{
  ℕ, zero, suc, ◌+◌, ◌-◌, ◌*◌, ◌≤◌, ◌<◌, ◌≡◌, refl, ◌∙◌, sym, ap, List, [], ◌∷◌, ◌++◌, length,
  length-append, arith, append_assoc, take, drop, drop-drop, drop-append_add, drop_inside,
  take_inside, length-drop, min,
}
use libcryfs.Common.Bytes.{Data}
use libcryfs.Trees.Stored.{Leaf}

-- The bytes of the leaves, from left to right.
abbrev pub content : List Leaf → Data
content [] = []
content (l ∷ leaves) = l.bytes ++ content leaves

-- All leaves but the last one have `most` bytes, and the last one has no more.
abbrev pub Filled : ℕ → List Leaf → Type 0
Filled most [] = Unit
Filled most (l ∷ leaves) =
    (0 < length leaves → length l.bytes ≡ most) × (length l.bytes ≤ most) × Filled most leaves

pub length-content_most :
    (most : ℕ) (leaves : List Leaf)
    → Filled most leaves
    → length (content leaves) ≤ length leaves * most
length-content_most most [] filled = omega arith
length-content_most most (l ∷ leaves) (full, bounded, rest) =
    omega
      (arith, length-append l.bytes (content leaves), bounded, length-content_most most leaves rest)

pub content-append : (xs ys : List Leaf) → content (xs ++ ys) ≡ content xs ++ content ys
content-append [] ys = refl
content-append (x ∷ xs) ys =
    ap (λ l. x.bytes ++ l) (content-append xs ys)
    ∙ sym (append_assoc x.bytes (content xs) (content ys))

pub length-content :
    (most : ℕ) (pre : List Leaf) (l : Leaf) (post : List Leaf)
    → Filled most (pre ++ l ∷ post)
    → (length (content pre) ≡ length pre * most)
      × (0 < length post → length l.bytes ≡ most)
      × (length l.bytes ≤ most)
length-content most [] l post (full, bounded, rest) = (omega arith, full, bounded)
length-content most (x ∷ pre) l post (full, bounded, rest) =
    let (before, here, most_here) = length-content most pre l post rest in
    (
      omega (
        arith,
        length-append x.bytes (content pre),
        before,
        full (omega (arith, length-append pre (l ∷ post))),
      ),
      here,
      most_here,
    )

-- The leaves in front of another one are full.
pub Filled-front :
    (most : ℕ) (xs ys : List Leaf)
    → Filled most (xs ++ ys)
    → 0 < length ys
    → (length (content xs) ≡ length xs * most) × Filled most ys
Filled-front most [] ys filled some_leaf = (omega arith, filled)
Filled-front most (x ∷ xs) ys (full, bounded, rest) some_leaf =
    let (before, back) = Filled-front most xs ys rest some_leaf in
    (
      omega (
        arith,
        length-append x.bytes (content xs),
        before,
        full (omega (arith, length-append xs ys, some_leaf)),
      ),
      back,
    )

-- A range that ends inside of the tree ends inside of each leaf that it meets, or behind it.
pub leaf_range :
    (most : ℕ) (pre : List Leaf) (l : Leaf) (post : List Leaf) (end_byte : ℕ)
    → Filled most (pre ++ l ∷ post)
    → end_byte ≤ length (content (pre ++ l ∷ post))
    → (length (content pre) ≡ length pre * most)
      × (min most (end_byte - length pre * most) ≤ length l.bytes)
      × (length l.bytes ≤ most)
leaf_range most pre l [] end_byte filled inside =
    let (front, full, bounded) = length-content most pre l [] filled in
    let total =
      ap length (content-append pre (l ∷ []))
      ∙ length-append (content pre) (l.bytes ++ [])
      ∙ ap (λ n. length (content pre) + n) (length-append l.bytes []) in
    (front, omega (arith, total, front, inside), bounded)
leaf_range most pre l (x ∷ post) end_byte filled inside =
    let (front, full, bounded) = length-content most pre l (x ∷ post) filled in
    (front, omega (arith, full (omega arith)), bounded)

take_add : (n m : ℕ) (xs : Data) → take (n + m) xs ≡ take n xs ++ take m (drop n xs)
take_add zero m xs = let e : 0 + m ≡ m = omega arith in rw e refl
take_add (suc n) zero [] = let e : suc n + 0 ≡ suc n = omega arith in rw e refl
take_add (suc n) (suc m) [] = let e : suc n + suc m ≡ suc (n + suc m) = omega arith in rw e refl
take_add (suc n) m (x ∷ xs) =
    let e : suc n + m ≡ suc (n + m) = omega arith in rw e (ap (◌∷◌ x) (take_add n m xs))

-- The bytes of one leaf in a range of the bytes of the tree.
pub take-leaf :
    (pre bytes post : Data) (offset position first count : ℕ)
    → offset + position ≡ length pre + first
    → first + count ≤ length bytes
    → take (position + count) (drop offset (pre ++ (bytes ++ post)))
      ≡ take position (drop offset (pre ++ (bytes ++ post))) ++ take count (drop first bytes)
take-leaf pre bytes post offset position first count place inside =
    let skipped : drop position (drop offset (pre ++ (bytes ++ post))) ≡ drop first bytes ++ post =
      drop-drop position offset (pre ++ (bytes ++ post))
      ∙ ap (λ n. drop n (pre ++ (bytes ++ post))) place
      ∙ drop-append_add pre (bytes ++ post) first
      ∙ drop_inside first bytes post (omega (arith, inside)) in
    take_add position count (drop offset (pre ++ (bytes ++ post)))
    ∙ ap (λ l. take position (drop offset (pre ++ (bytes ++ post))) ++ l)
        (ap (take count) skipped
          ∙ take_inside count (drop first bytes) post
              (omega (arith, inside, length-drop first bytes)))
