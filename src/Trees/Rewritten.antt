-- ===== src/Trees/Rewritten.antt =====
-- All leaves of a tree when a range of its bytes is written (`writeBytes` of DataTree.cpp).
use libcryfs.Common.{
  ℕ, zero, suc, ◌+◌, ◌*◌, ◌≤◌, ◌<◌, ◌≡◌, refl, ◌∙◌, ap, subst, Option, some, List, [], ◌∷◌, length,
  get_elem?, arith, Bool-cases, inl, inr, leb, ltb, ◌&&◌,
}
use libcryfs.Common.Equality.{bytes_eq}
use libcryfs.Common.Bytes.{Data, BlockId}
use libcryfs.Nodes.View.{max_bytes_per_leaf, max_children_per_inner_node}
use libcryfs.Trees.Stored.{Leaf, LeafAt}
use libcryfs.Trees.Content.{Filled}
use libcryfs.Trees.Renewed.{new_bytes, new_bytes-before, new_bytes-after}
use libcryfs.Trees.StoredRenewed.{Distinct, Rewritten}
use libcryfs.Trees.Written.{Written, Written-other}

Filled-get_elem? :
    (most : ℕ) (leaves : List Leaf) (k : ℕ) (l : Leaf)
    → Filled most leaves
    → get_elem? leaves k ≡ some l
    → length l.bytes ≤ most
Filled-get_elem? most [] k l filled there = absurd (cc (there))
Filled-get_elem? most (m ∷ leaves) zero l (full, bounded, rest) there =
    let same : m ≡ l = cc (there) in subst (λ (y : Leaf). length y.bytes ≤ most) same bounded
Filled-get_elem? most (m ∷ leaves) (suc k) l (full, bounded, rest) there =
    Filled-get_elem? most leaves k l rest there

Rewritten-all :
    (block_size fan : ℕ) (look look' : BlockId → Option Data) (most offset : ℕ) (source : Data)
    (n : ℕ) (leaves : List Leaf)
    → ((i : ℕ) (l : Leaf)
        → get_elem? leaves i ≡ some l
        → LeafAt block_size look l.id (l ∷ [])
        → LeafAt block_size look' l.id
            (record { id = l.id; bytes = new_bytes most offset source (n + i) l.bytes } ∷ []))
    → Rewritten block_size fan look look' most offset source n leaves
Rewritten-all block_size fan look look' most offset source n [] each = tt
Rewritten-all block_size fan look look' most offset source n (l ∷ leaves) each =
    let at : ℕ → Leaf → Type 0 = λ j m.
      LeafAt block_size look' m.id
        (record { id = m.id; bytes = new_bytes most offset source j m.bytes } ∷ []) in
    let here : n + 0 ≡ n = omega arith in
    (
      λ old. subst (λ j. at j l) here (each 0 l refl old),
      Rewritten-all block_size fan look look' most offset source (n + 1) leaves (λ i m there old.
          let next : n + suc i ≡ n + 1 + i = omega arith in
          subst (λ j. at j m) next (each (suc i) m there old)),
    )

module _ (block_size : ℕ) (look : BlockId → Option Data) (all : List Leaf) (source : Data)
    (offset first : ℕ) (distinct : Distinct all) where
  leaf-Rewritten :
      (end : ℕ) (look' : BlockId → Option Data) (k : ℕ) (l : Leaf)
      → Written block_size look all source offset first end look'
      → get_elem? all k ≡ some l
      → length l.bytes ≤ max_bytes_per_leaf block_size
      → (k < first → k * max_bytes_per_leaf block_size + max_bytes_per_leaf block_size ≤ offset)
      → (end ≤ k → offset + length source ≤ k * max_bytes_per_leaf block_size)
      → LeafAt block_size look l.id (l ∷ [])
      → LeafAt block_size look' l.id (
          record {
            id = l.id;
            bytes = new_bytes (max_bytes_per_leaf block_size) offset source k l.bytes;
          }
          ∷ [])
  leaf-Rewritten end look' k l w there bounded before after old =
      let most = max_bytes_per_leaf block_size in
      elim (Bool-cases (leb first k && ltb k end)) [
        | inl inside ↦ w.new_leaf k l there (ground (arith, inside)) (ground (arith, inside))
        | inr outside ↦
            let same : new_bytes most offset source k l.bytes ≡ l.bytes =
              elim (Bool-cases (ltb k first)) [
                | inl front ↦
                    let less : k < first = ground (arith, front) in
                    new_bytes-before most offset source k l.bytes
                      (omega (arith, before less, bounded))
                | inr behind ↦
                    let more : end ≤ k = ground (arith, behind, outside) in
                    new_bytes-after most offset source k l.bytes (after more)
              ] in
            record {
              unused = old.unused;
              bytes = old.bytes;
              padding = old.padding;
              stored =
                  Written-other block_size look all source offset first distinct end look' k l w
                    there (λ from. ground (arith, outside, from))
                  ∙ old.stored;
              sized = old.sized;
              one = ap (λ b. record { id = l.id; bytes = b } ∷ []) same ∙ old.one;
            }
      ]

  -- What is written when all leaves of the range are behind.
  pub Written-Rewritten :
      (end : ℕ) (look' : BlockId → Option Data)
      → Filled (max_bytes_per_leaf block_size) all
      → Written block_size look all source offset first end look'
      → ((k : ℕ)
          → k < first
          → k * max_bytes_per_leaf block_size + max_bytes_per_leaf block_size ≤ offset)
      → ((k : ℕ) → end ≤ k → offset + length source ≤ k * max_bytes_per_leaf block_size)
      → Rewritten block_size
          (max_children_per_inner_node block_size)
          look
          look'
          (max_bytes_per_leaf block_size)
          offset
          source
          0
          all
  Written-Rewritten end look' filled w before after =
      Rewritten-all block_size (max_children_per_inner_node block_size) look look'
        (max_bytes_per_leaf block_size) offset source 0 all
        (λ k l there old.
          let e : k ≡ 0 + k = omega arith in
          subst
            (λ j. LeafAt block_size look' l.id (
              record {
                id = l.id;
                bytes = new_bytes (max_bytes_per_leaf block_size) offset source j l.bytes;
              }
              ∷ []))
            e
            (leaf-Rewritten end look' k l w there
              (Filled-get_elem? (max_bytes_per_leaf block_size) all k l filled there) (before k)
              (after k) old))
