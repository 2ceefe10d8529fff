-- ===== src/Tests/Encrypted.antt =====
-- The encrypted store over the store in memory, with a cipher that puts the key in front.
use libcryfs.Common.{
  ℕ, ◌-◌, ◌+◌, ◌≡◌, Option, none, some, [], ◌∷◌, arith, replicate, length-replicate, if◌then◌else◌,
}
use libcryfs.Common.Equality.{◌==◌, nat_eq, bytes_eq}
use libcryfs.Common.Result.{ok}
use libcryfs.Common.Bytes.{Data, BlockId}
use libcryfs.BlockStore.{changed}
use libcryfs.BlockStore.InMemory.Lawful.{in_memory_block_store, contents, in_memory-IsLawful}
use libcryfs.Encrypted
use libcryfs.Encrypted.{Cipher, EncryptedBlockStore2}
use libcryfs.Encrypted.ReadBack.{framed, load-store}

abbrev opened : ℕ → Data → Option Data
opened key [] = none
opened key (k ∷ content) = if k == key then some content else none

abbrev key_in_front : Cipher
key_in_front = record {
  Key = ℕ;
  encrypt = λ nonce key content. key ∷ content;
  decrypt = opened;
  ciphertext_size = λ n. n + 1;
  plaintext_size = λ n. n - 1;
}

opened-encrypt :
    (nonce : Data) (key : ℕ) (content : Data)
    → key_in_front.decrypt key (key_in_front.encrypt nonce key content) ≡ some content
opened-encrypt nonce key content = ground arith

abbrev garbage : ℕ → Data
garbage n = replicate n 205

abbrev encrypted_store : EncryptedBlockStore2 key_in_front in_memory_block_store
encrypted_store = record { base = (replicate 16 1, 1 ∷ 0 ∷ 9 ∷ 5 ∷ []) ∷ []; key = 9 }

load-store_example :
    (t : EncryptedBlockStore2 key_in_front in_memory_block_store) × (u : EncryptedBlockStore2
      key_in_front in_memory_block_store)
    × (Encrypted.store garbage [] (replicate 16 2) (6 ∷ 7 ∷ []) encrypted_store ≡ ok t)
    × (Encrypted.load (replicate 16 2) t ≡ ok (some (6 ∷ 7 ∷ []), u))
    × ((a : BlockId)
        → contents u.base a
          ≡ changed
              (replicate 16 2)
              (some (framed (9 ∷ 6 ∷ 7 ∷ [])))
              (contents encrypted_store.base)
              a)
load-store_example =
    load-store garbage (λ n. length-replicate n 205) opened-encrypt in_memory-IsLawful
      encrypted_store [] (replicate 16 2) (6 ∷ 7 ∷ [])
