-- ===== src/Encrypted.antt =====
-- `EncryptedBlockStore2` (src/blockstore/implementations/encrypted/EncryptedBlockStore2.h): a layer
-- that encrypts each block and puts a format version in front. The cipher is a parameter; what it
-- draws at random for one block is the argument `nonce`.
pub mod ReadBack
use libcryfs.Common.{
  ℕ, ◌+◌, ◌-◌, Bool, true, false, ◌||◌, Option, none, some, List, leb, if◌then◌else◌, length, drop,
}
use libcryfs.Common.Equality.{◌==◌, nat_eq, bytes_eq}
use libcryfs.Common.Result.{Result, ok, guard, assert_failed, runtime_error, ◌>>=◌, ◌>>◌}
use libcryfs.Common.Bytes.{Data, BlockId, block_id_length, encode, decode}
use libcryfs.Common.Memory.{read_memory, write_memory}
use libcryfs.BlockStore.{BlockStore2}

-- What the store calls of a cipher.
pub record Cipher : Type 1 where
  pub Key : Type 0
  pub encrypt : Data → Key → Data → Data
  pub decrypt : Key → Data → Option Data
  pub ciphertext_size : ℕ → ℕ
  pub plaintext_size : ℕ → ℕ

pub record EncryptedBlockStore2 (C : Cipher) (S : BlockStore2) : Type 0 where
  pub base : S.State
  pub key : C.Key

abbrev pub old_format : ℕ
old_format = 0

abbrev pub format : ℕ
format = 1

unfoldable pub read_format : Data → Result ℕ
read_format block = do bytes ← read_memory block 0 2; ok (decode bytes)

unfoldable pub check_format : Data → Result (Unit {0})
check_format block = do
  found ← read_format block
  guard (found == format || found == old_format) runtime_error

-- `_migrateBlock`
unfoldable pub remove_block_id : Data → Result Data
remove_block_id content = do
  guard (leb block_id_length (length content)) assert_failed
  ok (drop block_id_length content)

unfoldable pub block_id_header_is_correct : BlockId → Data → Result Bool
block_id_header_is_correct block_id content = do
  header ← read_memory content 0 block_id_length
  ok (block_id == header)

module _ (allocate : ℕ → Data) where
  unfoldable pub prepend_format : Data → Result Data
  prepend_format encrypted = do
    r1 ← write_memory (allocate (2 + length encrypted)) 0 (encode 2 format)
    write_memory r1 2 encrypted

-- What follows the decryption.
unfoldable pub migrate_old : BlockId → Data → Data → Result (Option Data)
migrate_old block_id block content = do
  found ← read_format block
  elim (old_format == found) [
    | false ↦ ok (some content)
    | true ↦ do
      correct ← block_id_header_is_correct block_id content
      elim correct [
        | false ↦ ok none
        | true ↦ do migrated ← remove_block_id content; ok (some migrated)
      ]
  ]

module _ (C : Cipher) where
  unfoldable pub try_decrypt : C.Key → BlockId → Data → Result (Option Data)
  try_decrypt key block_id block = do
    check_format block
    encrypted ← read_memory block 2 (length block - 2)
    elim (C.decrypt key encrypted) [
      | none ↦ ok none
      | some content ↦ migrate_old block_id block content
    ]

module _ {C : Cipher} {S : BlockStore2} where
  unfoldable pub set_key : C.Key → EncryptedBlockStore2 C S → EncryptedBlockStore2 C S
  set_key key s = record s { key = key }

  unfoldable pub remove :
      BlockId → EncryptedBlockStore2 C S → Result (Bool × EncryptedBlockStore2 C S)
  remove block_id s = do
    (removed, base) ← S.remove block_id s.base
    ok (removed, record s { base = base })

  unfoldable pub load :
      BlockId → EncryptedBlockStore2 C S → Result (Option Data × EncryptedBlockStore2 C S)
  load block_id s = do
    (loaded, base) ← S.load block_id s.base
    elim loaded [
      | none ↦ ok (none, record s { base = base })
      | some block ↦ do
        content ← try_decrypt C s.key block_id block
        ok (content, record s { base = base })
    ]

  unfoldable pub num_blocks : EncryptedBlockStore2 C S → ℕ
  num_blocks s = S.num_blocks s.base

  unfoldable pub for_each_block : EncryptedBlockStore2 C S → List BlockId
  for_each_block s = S.for_each_block s.base

unfoldable pub block_size_from_physical_block_size : Cipher → BlockStore2 → ℕ → ℕ
block_size_from_physical_block_size C S block_size =
    let base_block_size = S.block_size_from_physical_block_size block_size in
    if leb base_block_size (C.ciphertext_size 0 + 2)
    then 0
    else C.plaintext_size (base_block_size - 2)

module _ (allocate : ℕ → Data) (C : Cipher) where
  -- `_encrypt`
  unfoldable pub encrypt_block : Data → C.Key → Data → Result Data
  encrypt_block nonce key content = prepend_format allocate (C.encrypt nonce key content)

module _ (allocate : ℕ → Data) {C : Cipher} {S : BlockStore2} where
  unfoldable pub try_create :
      Data → BlockId → Data → EncryptedBlockStore2 C S → Result (Bool × EncryptedBlockStore2 C S)
  try_create nonce block_id content s = do
    encrypted ← encrypt_block allocate C nonce s.key content
    (created, base) ← S.try_create block_id encrypted s.base
    ok (created, record s { base = base })

  unfoldable pub store :
      Data → BlockId → Data → EncryptedBlockStore2 C S → Result (EncryptedBlockStore2 C S)
  store nonce block_id content s = do
    encrypted ← encrypt_block allocate C nonce s.key content
    base ← S.store block_id encrypted s.base
    ok (record s { base = base })
