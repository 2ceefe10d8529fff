-- ===== src/Nodes/Created.antt =====
-- What a new node is written as.
use libcryfs.Common.{
  ℕ, ◌+◌, ◌-◌, ◌^◌, ◌≤◌, ◌<◌, ◌≡◌, ◌%◌, refl, ◌∙◌, sym, ap, [], ◌∷◌, ◌++◌, arith, length,
  length-append, length-replicate, replicate, drop, some, get_elem?, length-drop, drop_all,
  append-nil, append_assoc,
}
use libcryfs.Common.Equality.{nat_eq}
use libcryfs.Common.Result.{ok}
use libcryfs.Common.Bytes.{Data, encode}
use libcryfs.Common.Memory.{sub64, write_memory, write_memory-at}
use libcryfs.Nodes.View
use libcryfs.Nodes.View.{serialize_, create, data_size}
use libcryfs.Nodes.Leaf.{create_leaf, overwrite_leaf}
use libcryfs.Nodes.Image.{image, header}
use libcryfs.Nodes.LeafRuns.{leaf_node}
use libcryfs.Nodes.LeafBytes.{open_leaf-eq}
use libcryfs.Nodes.Leaf.{open_leaf}
use libcryfs.Nodes.LeafRuns.{leaf_block}
use libcryfs.Common.Bytes.{BlockId}

write_start :
    (a b c d e f g h version : ℕ) (rest : Data)
    → write_memory (a ∷ b ∷ c ∷ d ∷ e ∷ f ∷ g ∷ h ∷ rest) 0 (encode 2 version)
      ≡ ok (encode 2 version ++ (c ∷ d ∷ e ∷ f ∷ g ∷ h ∷ rest))
unfolding write_memory encode
write_start a b c d e f g h version rest = ground arith

write_level :
    (c d e f g h version level : ℕ) (rest : Data)
    → write_memory (encode 2 version ++ (c ∷ d ∷ e ∷ f ∷ g ∷ h ∷ rest)) 3 (encode 1 level)
      ≡ ok (encode 2 version ++ (c ∷ (encode 1 level ++ (e ∷ f ∷ g ∷ h ∷ rest))))
unfolding write_memory encode
write_level c d e f g h version level rest = ground arith

write_count :
    (c e f g h version level count : ℕ) (rest : Data)
    → write_memory
        (encode 2 version ++ (c ∷ (encode 1 level ++ (e ∷ f ∷ g ∷ h ∷ rest))))
        4
        (encode 4 count)
      ≡ ok (encode 2 version ++ (c ∷ (encode 1 level ++ (encode 4 count ++ rest))))
unfolding write_memory encode
write_count c e f g h version level count rest = ground arith

-- The bytes of a header.
abbrev front : ℕ → ℕ → ℕ → ℕ → Data
front version unused level count =
    header
      (record { version = version; unused = unused; depth = level; size = count; payload = [] })

front-append :
    (version unused level count : ℕ) (payload : Data)
    → front version unused level count ++ payload
      ≡ image (record {
        version = version;
        unused = unused;
        depth = level;
        size = count;
        payload = payload;
      })
unfolding encode
front-append version unused level count payload = refl

length-front : (version unused level count : ℕ) → length (front version unused level count) ≡ 8
unfolding encode
length-front version unused level count = refl

-- The header is written over the first eight bytes, of which one stays.
pub serialize_-run :
    (a b c d e f g h version level count : ℕ) (rest source : Data) (block_size : ℕ)
    → length source ≤ length rest
    → data_size block_size ≡ length rest
    → length rest < 2 ^ 32
    → serialize_ (a ∷ b ∷ c ∷ d ∷ e ∷ f ∷ g ∷ h ∷ rest) block_size version level count source
      ≡ ok (
          image (record {
            version = version;
            unused = c;
            depth = level;
            size = count;
            payload = source ++ replicate (length rest - length source) 0;
          }))
unfolding serialize_
serialize_-run a b c d e f g h version level count rest source block_size fits sized small =
    let gap : sub64 (data_size block_size) (length source) ≡ length rest - length source =
      ground (arith, fits, sized, small) in
    let nothing : drop (length rest - length source) (drop (length source) rest) ≡ [] =
      drop_all (length rest - length source) (drop (length source) rest)
        (omega (arith, length-drop (length source) rest)) in
    let zeroed = length rest - length source in
    let start = front version c level count in
    rw
      (
        write_start a b c d e f g h version rest,
        write_level c d e f g h version level rest,
        write_count c e f g h version level count rest,
        sym (front-append version c level count rest),
      )
      (rw
        (
          write_memory-at start source rest 8 (sym (length-front version c level count)) fits,
          gap,
          write_memory-at (start ++ source) (replicate zeroed 0) (drop (length source) rest)
              (8 + length source)
              (omega (arith, length-append start source, length-front version c level count))
              (omega (arith, length-replicate {A = ℕ} zeroed 0, length-drop (length source) rest)),
          length-replicate {A = ℕ} zeroed 0,
          nothing,
          append-nil ((start ++ source) ++ replicate zeroed 0),
          append_assoc start source (replicate zeroed 0),
        )
        (ap ok (front-append version c level count (source ++ replicate zeroed 0))))

create_leaf-run :
    (allocated source result : Data) (block_size : ℕ)
    → data_size block_size ≡ block_size - 8
    → length source + 8 ≤ block_size
    → block_size < 2 ^ 32
    → serialize_ allocated block_size 0 0 (length source) source ≡ ok result
    → length result ≡ block_size
    → create_leaf allocated block_size source ≡ ok result
unfolding create_leaf create
create_leaf-run allocated source result block_size sized fits small run same =
    let count : length source % 2 ^ 32 ≡ length source = omega (arith, fits, small) in
    ground (arith, count, sized, fits, small, run, same)

length-leaf_image :
    (unused padding : ℕ) (source : Data)
    → length (image (leaf_node unused source padding)) ≡ 8 + (length source + padding)
unfolding encode
length-leaf_image unused padding source =
    omega (arith, length-append source (replicate padding 0), length-replicate {A = ℕ} padding 0)

pub eight :
    (xs : Data)
    → 8 ≤ length xs
    → (a b c d e f g h : ℕ) × (rest : Data) × (xs ≡ a ∷ b ∷ c ∷ d ∷ e ∷ f ∷ g ∷ h ∷ rest)
eight (a ∷ b ∷ c ∷ d ∷ e ∷ f ∷ g ∷ h ∷ rest) enough = (a, b, c, d, e, f, g, h, rest, refl)
eight [] enough = ground (arith, enough)
eight (a ∷ []) enough = ground (arith, enough)
eight (a ∷ b ∷ []) enough = ground (arith, enough)
eight (a ∷ b ∷ c ∷ []) enough = ground (arith, enough)
eight (a ∷ b ∷ c ∷ d ∷ []) enough = ground (arith, enough)
eight (a ∷ b ∷ c ∷ d ∷ e ∷ []) enough = ground (arith, enough)
eight (a ∷ b ∷ c ∷ d ∷ e ∷ f ∷ []) enough = ground (arith, enough)
eight (a ∷ b ∷ c ∷ d ∷ e ∷ f ∷ g ∷ []) enough = ground (arith, enough)

create_leaf-header :
    (a b c d e f g h : ℕ) (rest source : Data)
    → length rest + 8 < 2 ^ 32
    → length source ≤ length rest
    → create_leaf (a ∷ b ∷ c ∷ d ∷ e ∷ f ∷ g ∷ h ∷ rest) (length rest + 8) source
      ≡ ok (image (leaf_node c source (length rest - length source)))
unfolding data_size
create_leaf-header a b c d e f g h rest source small fits =
    let sized : data_size (length rest + 8) ≡ length rest = ground (arith, small) in
    create_leaf-run _ source _ (length rest + 8) (ground (arith, small)) (omega arith) small
      (serialize_-run a b c d e f g h 0 0 (length source) rest source (length rest + 8) fits sized
        (omega (arith, small)))
      (length-leaf_image c (length rest - length source) source ∙ omega (arith, fits))

-- The content of a new leaf is the image of its bytes: where the memory that is allocated has the
-- size of a block, which is at least 40 and below 2 ^ 32, and the block has room for the header and
-- the bytes, the leaf is created, its block is the header, the bytes and zeroes up to its end, and
-- the constructor of a leaf accepts that block. The third byte of the header is the third byte of
-- the memory.
pub create_leaf-image :
    (id : BlockId) (allocated source : Data)
    → 40 ≤ length allocated
    → length allocated < 2 ^ 32
    → length source + 8 ≤ length allocated
    → (unused : ℕ) × (get_elem? allocated 2 ≡ some unused)
      × (create_leaf allocated (length allocated) source
          ≡ ok (image (leaf_node unused source (length allocated - 8 - length source))))
      × (open_leaf (leaf_block id unused source (length allocated - 8 - length source))
          ≡ ok (leaf_block id unused source (length allocated - 8 - length source)))
create_leaf-image id allocated source room small fits =
    let (a, b, c, d, e, f, g, h, rest, same) = eight allocated (omega (arith, fits)) in
    let long : length allocated ≡ length rest + 8 = ap length same ∙ omega arith in
    let left : length allocated - 8 - length source ≡ length rest - length source =
      omega (arith, long) in
    (
      c,
      ap (λ xs. get_elem? xs 2) same,
      rw (left, long, same)
          (create_leaf-header a b c d e f g h rest source (omega (arith, long, small))
            (omega (arith, long, fits))),
      open_leaf-eq id c source (length allocated - 8 - length source) (omega (arith, room, fits))
          (omega (arith, small, fits)),
    )

overwrite_leaf-run :
    (allocated source result : Data) (block_size : ℕ)
    → data_size block_size ≡ length source
    → length source < 2 ^ 32
    → serialize_ allocated block_size 0 0 (length source) source ≡ ok result
    → overwrite_leaf allocated block_size source ≡ ok result
unfolding overwrite_leaf View.overwrite
overwrite_leaf-run allocated source result block_size sized small run =
    let count : length source % 2 ^ 32 ≡ length source = omega (arith, small) in
    ground (arith, count, sized, run)

-- The content that a leaf is overwritten with has the bytes that are given and nothing behind them.
pub overwrite_leaf-image :
    (allocated source : Data)
    → length allocated < 2 ^ 32
    → length source + 8 ≡ length allocated
    → (unused : ℕ) × (overwrite_leaf allocated (length allocated) source
        ≡ ok (image (leaf_node unused source 0)))
unfolding data_size
overwrite_leaf-image allocated source small fits =
    let (a, b, c, d, e, f, g, h, rest, same) = eight allocated (omega (arith, fits)) in
    let long : length allocated ≡ length rest + 8 = ap length same ∙ omega arith in
    let sized : data_size (length allocated) ≡ length rest = ground (arith, small, long) in
    let none_left : length rest - length source ≡ 0 = omega (arith, long, fits) in
    (
      c,
      overwrite_leaf-run allocated source _ (length allocated) (sized ∙ omega (arith, long, fits))
          (omega (arith, fits, small))
          (ap (λ bytes. serialize_ bytes (length allocated) 0 0 (length source) source) same
            ∙ serialize_-run a b c d e f g h 0 0 (length source) rest source (length allocated)
                (omega (arith, long, fits)) sized (omega (arith, long, small))
            ∙ ap (λ n. ok (image (leaf_node c source n))) none_left),
    )
