-- ===== src/Trees/Renewed.antt =====
-- The leaves of a tree in which a range of the bytes is written (`writeBytes` of DataTree.cpp).
use libcryfs.Common.{
  ℕ, zero, suc, ◌+◌, ◌-◌, ◌*◌, ◌≤◌, ◌≡◌, refl, ◌∙◌, sym, ap, List, [], ◌∷◌, ◌++◌, length,
  length-append, length-take, length-drop, take, drop, drop-drop, drop_all, take_all,
  take-append-drop, append-nil, arith,
}
use libcryfs.Common.Bytes.{Data}
use libcryfs.Common.Memory.{replaced}
use libcryfs.Trees.Stored.{Leaf}
use libcryfs.Trees.Content.{content, Filled}

pub replaced-none : (n : ℕ) (xs : Data) → replaced xs n [] ≡ xs
replaced-none n xs =
    let e : n + 0 ≡ n = omega arith in ap (λ m. take n xs ++ drop m xs) e ∙ take-append-drop n xs

replaced-append_start :
    (xs ys source : Data)
    → source ++ drop (length source) (xs ++ ys)
      ≡ (take (length xs) source ++ drop (length (take (length xs) source)) xs)
        ++ replaced ys 0 (drop (length xs) source)
replaced-append_start [] ys source =
    let e : 0 + length source ≡ length source = omega arith in rw e refl
replaced-append_start (x ∷ xs) ys [] = refl
replaced-append_start (x ∷ xs) ys (c ∷ source) = ap (◌∷◌ c) (replaced-append_start xs ys source)

-- Bytes that are written over two byte strings.
pub replaced-append :
    (xs ys : Data) (offset : ℕ) (source : Data)
    → replaced (xs ++ ys) offset source
      ≡ replaced xs offset (take (length xs - offset) source)
        ++ replaced ys (offset - length xs) (drop (length xs - offset) source)
replaced-append xs ys zero source =
    let whole : length xs - 0 ≡ length xs = omega arith in
    let none : 0 - length xs ≡ 0 = omega arith in
    let e : 0 + length source ≡ length source = omega arith in
    let f : 0 + length (take (length xs) source) ≡ length (take (length xs) source) = omega arith in
    rw (whole, none, e, f) (replaced-append_start xs ys source)
replaced-append [] ys (suc offset) source =
    let none : 0 - suc offset ≡ 0 = omega arith in
    let all : suc offset - 0 ≡ suc offset = omega arith in
    let same : suc offset + 0 ≡ suc offset = omega arith in rw (none, all, same) refl
replaced-append (x ∷ xs) ys (suc offset) source =
    let left = length xs - offset in
    let e : suc (length xs) - suc offset ≡ left = omega arith in
    let f : suc offset - suc (length xs) ≡ offset - length xs = omega arith in
    let g : suc offset + length source ≡ suc (offset + length source) = omega arith in
    let h : suc offset + length (take left source) ≡ suc (offset + length (take left source)) =
      omega arith in
    rw (e, f, g, h) (ap (◌∷◌ x) (replaced-append xs ys offset source))

take_of_none : (n : ℕ) → take {A = ℕ} n [] ≡ []
take_of_none n = take_all n [] (omega arith)

module _ (most offset : ℕ) (source : Data) where
  -- The bytes of leaf `n`.
  abbrev pub new_bytes : ℕ → Data → Data
  new_bytes n bytes =
      replaced bytes (offset - n * most)
        (take (length bytes - (offset - n * most)) (drop (n * most - offset) source))

  -- The leaves from leaf `n` on.
  abbrev pub renew : ℕ → List Leaf → List Leaf
  renew n [] = []
  renew n (l ∷ leaves) = record { id = l.id; bytes = new_bytes n l.bytes } ∷ renew (n + 1) leaves

  pub length-new_bytes : (n : ℕ) (bytes : Data) → length (new_bytes n bytes) ≡ length bytes
  length-new_bytes n bytes =
      let begin = offset - n * most in
      let part = take (length bytes - begin) (drop (n * most - offset) source) in
      omega (
        arith,
        length-append (take begin bytes) (part ++ drop (begin + length part) bytes),
        length-append part (drop (begin + length part) bytes),
        length-take begin bytes,
        length-drop (begin + length part) bytes,
        length-take (length bytes - begin) (drop (n * most - offset) source),
      )

  pub new_bytes-before :
      (n : ℕ) (bytes : Data) → length bytes ≤ offset - n * most → new_bytes n bytes ≡ bytes
  new_bytes-before n bytes behind =
      let none : length bytes - (offset - n * most) ≡ 0 = omega (arith, behind) in
      rw none (replaced-none (offset - n * most) bytes)

  pub new_bytes-after :
      (n : ℕ) (bytes : Data) → offset + length source ≤ n * most → new_bytes n bytes ≡ bytes
  new_bytes-after n bytes behind =
      let none : drop (n * most - offset) source ≡ [] = drop_all _ source (omega (arith, behind)) in
      ap
        (λ rest.
          replaced bytes (offset - n * most) (take (length bytes - (offset - n * most)) rest))
        none
      ∙ ap (replaced bytes (offset - n * most)) (take_of_none (length bytes - (offset - n * most)))
      ∙ replaced-none (offset - n * most) bytes

  pub length-renew : (n : ℕ) (leaves : List Leaf) → length (renew n leaves) ≡ length leaves
  length-renew n [] = refl
  length-renew n (l ∷ leaves) = ap suc (length-renew (n + 1) leaves)

  pub renew-append :
      (n : ℕ) (xs ys : List Leaf) → renew n (xs ++ ys) ≡ renew n xs ++ renew (n + length xs) ys
  renew-append n [] ys = let e : n + 0 ≡ n = omega arith in rw e refl
  renew-append n (x ∷ xs) ys =
      let e : n + suc (length xs) ≡ n + 1 + length xs = omega arith in
      rw e
        (ap (◌∷◌ (record { id = x.id; bytes = new_bytes n x.bytes })) (renew-append (n + 1) xs ys))

  pub Filled-renew :
      (n : ℕ) (leaves : List Leaf) → Filled most leaves → Filled most (renew n leaves)
  Filled-renew n [] filled = tt
  Filled-renew n (l ∷ leaves) (full, bounded, rest) = (
    λ some_leaf.
        length-new_bytes n l.bytes ∙ full (omega (arith, some_leaf, length-renew (n + 1) leaves)),
    omega (arith, length-new_bytes n l.bytes, bounded),
    Filled-renew (n + 1) leaves rest,
  )

  pub content-renew :
      (n : ℕ) (leaves : List Leaf)
      → Filled most leaves
      → offset + length source ≤ n * most + length (content leaves)
      → content (renew n leaves)
        ≡ replaced (content leaves) (offset - n * most) (drop (n * most - offset) source)
  content-renew n [] filled inside =
      let none : drop (n * most - offset) source ≡ [] = drop_all _ source (omega (arith, inside)) in
      sym (ap (replaced [] (offset - n * most)) none ∙ replaced-none (offset - n * most) [])
  content-renew n (l ∷ []) (full, bounded, rest) inside =
      let begin = offset - n * most in
      let source' = drop (n * most - offset) source in
      let long : length (content (l ∷ [])) ≡ length l.bytes = ap length (append-nil l.bytes) in
      let all : take (length l.bytes - begin) source' ≡ source' =
        take_all _ source' (omega (arith, length-drop (n * most - offset) source, inside, long)) in
      append-nil (new_bytes n l.bytes)
      ∙ ap (replaced l.bytes begin) all
      ∙ sym (ap (λ b. replaced b begin source') (append-nil l.bytes))
  content-renew n (l ∷ m ∷ leaves) (full, bounded, rest) inside =
      let begin = offset - n * most in
      let whole : length l.bytes ≡ most = full (omega arith) in
      let next : n * most - offset + (length l.bytes - begin) ≡ (n + 1) * most - offset =
        omega (arith, whole) in
      let behind : begin - length l.bytes ≡ offset - (n + 1) * most = omega (arith, whole) in
      let skipped : drop (length l.bytes - begin) (drop (n * most - offset) source)
          ≡ drop ((n + 1) * most - offset) source =
        drop-drop (length l.bytes - begin) (n * most - offset) source
        ∙ ap (λ k. drop k source) next in
      ap (λ b. new_bytes n l.bytes ++ b)
        (content-renew (n + 1) (m ∷ leaves) rest
            (omega (arith, inside, whole, length-append l.bytes (content (m ∷ leaves))))
          ∙ ap (λ o. replaced (content (m ∷ leaves)) o (drop ((n + 1) * most - offset) source))
              (sym behind)
          ∙ ap (replaced (content (m ∷ leaves)) (begin - length l.bytes)) (sym skipped))
      ∙ sym (replaced-append l.bytes (content (m ∷ leaves)) begin (drop (n * most - offset) source))
