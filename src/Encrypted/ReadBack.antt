-- ===== src/Encrypted/ReadBack.antt =====
-- A `load` after a `store`.
use libcryfs.Common.{
  Option-cases, inl, inr, ℕ, ◌+◌, ◌-◌, ◌≡◌, refl, ◌∙◌, sym, Option, some, [], ◌++◌, arith, length,
  drop, length-append, length-drop, drop_all, append-nil,
}
use libcryfs.Common.Equality.{bytes_eq, nat_eq}
use libcryfs.Common.Result.{ok}
use libcryfs.Common.Bytes.{Data, BlockId, encode, length-encode, decode-encode}
use libcryfs.Common.Memory.{read_memory, read_memory-at, write_memory-at}
use libcryfs.BlockStore.{BlockStore2, IsLawful, changed}
use libcryfs.Encrypted
use libcryfs.Encrypted.{
  Cipher, EncryptedBlockStore2, format, read_format, check_format, try_decrypt, migrate_old,
  prepend_format, encrypt_block,
}

-- The block of an encrypted content.
abbrev pub framed : Data → Data
framed encrypted = encode 2 format ++ encrypted

read_format-framed : (encrypted : Data) → read_format (framed encrypted) ≡ ok format
unfolding read_format
read_format-framed encrypted = rw (
  read_memory-at [] (encode 2 format) encrypted 0 2 refl (sym (length-encode 2 format)),
  decode-encode 2 format (omega arith),
)

prepend_format-framed :
    (allocate : ℕ → Data) (allocates : (n : ℕ) → length (allocate n) ≡ n) (encrypted : Data)
    → prepend_format allocate encrypted ≡ ok (framed encrypted)
unfolding prepend_format
prepend_format-framed allocate allocates encrypted =
    let memory = allocate (2 + length encrypted) in
    let given : length memory ≡ 2 + length encrypted = allocates (2 + length encrypted) in
    let e2 = encode 2 format in
    let l2 = length-encode 2 format in
    let left = length-drop (length e2) memory in
    let full : drop (length encrypted) (drop (length e2) memory) ≡ [] =
      drop_all (length encrypted) (drop (length e2) memory) (omega (arith, given, l2, left)) in
    rw (
      write_memory-at [] e2 memory 0 refl (omega (arith, given, l2)),
      write_memory-at e2 encrypted (drop (length e2) memory) 2 (omega (arith, l2))
          (omega (arith, given, l2, left)),
      full,
      append-nil,
    )

-- A block with a format version in front is decrypted by the cipher.
try_decrypt-framed :
    (C : Cipher) (key : C.Key) (b : BlockId) (encrypted : Data)
    → try_decrypt C key b (framed encrypted) ≡ ok (C.decrypt key encrypted)
unfolding try_decrypt migrate_old check_format
try_decrypt-framed C key b encrypted =
    let size : length (framed encrypted) - 2 ≡ length encrypted =
      omega (arith, length-append (encode 2 format) encrypted, length-encode 2 format) in
    let read : read_memory (framed encrypted) 2 (length encrypted) ≡ ok encrypted =
      rw append-nil at (
        read_memory-at (encode 2 format) encrypted [] 2 (length encrypted)
          (sym (length-encode 2 format)) refl) in
    elim (Option-cases (C.decrypt key encrypted)) [
      | inl refused ↦ rw (read_format-framed encrypted, size, read, refused)
      | inr (content, opened) ↦
          rw (read_format-framed encrypted, size, read, opened, read_format-framed encrypted)
    ]

module _ (allocate : ℕ → Data) (allocates : (n : ℕ) → length (allocate n) ≡ n) {C : Cipher}
    (opens : (nonce : Data) (key : C.Key) (d : Data)
      → C.decrypt key (C.encrypt nonce key d) ≡ some d)
    {S : BlockStore2} {contents : S.State → BlockId → Option Data} (L : IsLawful S contents)
    (s : EncryptedBlockStore2 C S) where
  -- Over a store without faults and with a cipher that decrypts what it encrypts, `store` reports no
  -- error, the next `load` of the block returns what was stored, and the store below keeps all other
  -- blocks.
  pub load-store :
      (nonce : Data) (b : BlockId) (d : Data)
      → (t : EncryptedBlockStore2 C S) × (u : EncryptedBlockStore2 C S) × (Encrypted.store allocate
            nonce b d s
          ≡ ok t)
        × (Encrypted.load b t ≡ ok (some d, u))
        × ((a : BlockId)
            → contents u.base a
              ≡ changed b (some (framed (C.encrypt nonce s.key d))) (contents s.base) a)
  unfolding Encrypted.store Encrypted.load encrypt_block
  load-store nonce b d =
      let block = framed (C.encrypt nonce s.key d) in
      let (base, stored, view) = L.store_lem b block s.base in
      let (base', loaded, view') = L.load_lem b base in
      let there : contents base b ≡ some block = ground (arith, view b, bytes_eq.beq_iff b b) in
      (
        record s { base = base },
        record s { base = base' },
        rw (prepend_format-framed allocate allocates (C.encrypt nonce s.key d), stored),
        rw (
          loaded,
          there,
          try_decrypt-framed C s.key b (C.encrypt nonce s.key d),
          opens nonce s.key d,
        ),
        λ a. view' a ∙ view a,
      )
