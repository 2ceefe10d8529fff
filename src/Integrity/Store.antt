-- ===== src/Integrity/Store.antt =====
-- `IntegrityBlockStore2` (src/blockstore/implementations/integrity/IntegrityBlockStore2.{h,cpp}): a
-- layer over another block store that puts the block's id, the client that writes it and a version
-- in front of each block and checks them on loading. A callback that is called is counted. The log
-- is not modelled.
pub mod Header
pub mod Consistent
pub mod Refinement
pub mod Attacks
pub mod Existing
use libcryfs.Common.{
  ℕ, ◌+◌, ◌-◌, ◌≡◌, Bool, true, false, not, ◌&&◌, ◌||◌, Option, none, some, List, [], ◌∷◌, arith,
  leb, if◌then◌else◌, length, drop,
}
use libcryfs.Common.Equality.{◌==◌, bytes_eq, nat_eq}
use libcryfs.Common.Result.{
  Result, ok, err, guard, assert_failed, runtime_error, integrity_violation_on_previous_run, ◌>>=◌,
  ◌>>◌,
}
use libcryfs.Common.Bytes.{Data, BlockId, block_id_length, encode, decode}
use libcryfs.Common.Memory.{add64, read_memory, write_memory}
use libcryfs.BlockStore.{BlockStore2}
use libcryfs.Integrity.KnownBlockVersions
use libcryfs.Integrity.KnownBlockVersions.{
  KnownBlockVersions, check_and_update_version, increment_version, mark_block_as_deleted,
  block_should_exist, existing_blocks, set_integrity_violation_on_previous_run,
}
use libcryfs.Integrity.KnownBlockVersions.StateFile

abbrev pub format_version_header_old : ℕ
format_version_header_old = 0

abbrev pub format_version_header : ℕ
format_version_header = 1

abbrev pub id_header_offset : ℕ
id_header_offset = 2

abbrev pub client_id_header_offset : ℕ
client_id_header_offset = id_header_offset + block_id_length

abbrev pub version_header_offset : ℕ
version_header_offset = client_id_header_offset + 4

abbrev pub header_length : ℕ
header_length = version_header_offset + 8

-- `_readFormatHeader` and its siblings: loads at a fixed offset, with no check of the size.
unfoldable pub read_format_header : Data → Result ℕ
read_format_header block = do bytes ← read_memory block 0 2; ok (decode bytes)

unfoldable pub read_block_id : Data → Result BlockId
read_block_id block = read_memory block id_header_offset block_id_length

unfoldable pub read_client_id : Data → Result ℕ
read_client_id block = do bytes ← read_memory block client_id_header_offset 4; ok (decode bytes)

unfoldable pub read_version : Data → Result ℕ
read_version block = do bytes ← read_memory block version_header_offset 8; ok (decode bytes)

-- `copyAndRemovePrefix(HEADER_LENGTH)`
unfoldable pub remove_header : Data → Result Data
remove_header block = do
  guard (leb header_length (length block)) assert_failed
  ok (drop header_length block)

unfoldable pub check_format_header : Data → Result (Unit {0})
check_format_header block = do
  format ← read_format_header block
  guard (format_version_header == format) runtime_error

abbrev is_empty {ℓ} : {A : Type ℓ} → List A → Bool
is_empty [] = true
is_empty (x ∷ xs) = false

-- `erase` on a set of ids.
unfoldable pub drop_id : BlockId → List BlockId → List BlockId
drop_id met [] = []
drop_id met (id ∷ ids) = let rest = drop_id met ids in if met == id then rest else id ∷ rest

-- The set of ids without those that are met.
unfoldable pub without : List BlockId → List BlockId → List BlockId
without [] ids = ids
without (met ∷ more) ids = without more (drop_id met ids)

module _ (allocate : ℕ → Data) where
  unfoldable pub prepend_header_to_data : BlockId → ℕ → ℕ → Data → Result Data
  prepend_header_to_data block_id my_client_id version content = do
    r1 ←
        write_memory (allocate (add64 (length content) header_length)) 0
          (encode 2 format_version_header)
    r2 ← write_memory r1 id_header_offset block_id
    r3 ← write_memory r2 client_id_header_offset (encode 4 my_client_id)
    r4 ← write_memory r3 version_header_offset (encode 8 version)
    write_memory r4 header_length content

  -- The block id is put behind the format version of a block in the old format.
  unfoldable pub migrate_block : BlockId → Data → Result Data
  migrate_block block_id block = do
    r1 ←
        write_memory (allocate (add64 (length block) block_id_length)) 0
          (encode 2 format_version_header)
    r2 ← write_memory r1 id_header_offset block_id
    rest ← read_memory block 2 (length block - 2)
    migrated ← write_memory r2 (id_header_offset + block_id_length) rest
    guard (length migrated == 2 + block_id_length + (length block - 2)) assert_failed
    ok migrated

pub record IntegrityBlockStore2 (S : BlockStore2) : Type 0 where
  pub base : S.State
  pub known : KnownBlockVersions
  pub allow_integrity_violations : Bool
  pub missing_block_is_integrity_violation : Bool
  pub violations : ℕ

module _ {S : BlockStore2} where
  unfoldable pub integrity_violation_detected : IntegrityBlockStore2 S → IntegrityBlockStore2 S
  integrity_violation_detected s = if s.allow_integrity_violations then s else record s {
    known = set_integrity_violation_on_previous_run true s.known;
    violations = s.violations + 1;
  }

  unfoldable pub check_version_header :
      BlockId → Data → IntegrityBlockStore2 S → Result (Bool × IntegrityBlockStore2 S)
  check_version_header block_id block s = do
    client_id ← read_client_id block
    version ← read_version block
    (accepted, known) ← check_and_update_version client_id block_id version s.known
    let s' : IntegrityBlockStore2 S = record s { known = known }
    ok (if accepted then (true, s') else (false, integrity_violation_detected s'))

  unfoldable pub check_id_header :
      BlockId → Data → IntegrityBlockStore2 S → Result (Bool × IntegrityBlockStore2 S)
  check_id_header expected_block_id block s = do
    actual_block_id ← read_block_id block
    ok (
        if expected_block_id == actual_block_id
        then (true, s)
        else (false, integrity_violation_detected s))

  -- `_checkIdHeader(...) && _checkVersionHeader(...)`
  unfoldable pub check_header :
      BlockId → Data → IntegrityBlockStore2 S → Result (Bool × IntegrityBlockStore2 S)
  check_header block_id block s = do
    check_format_header block
    (same, s') ← check_id_header block_id block s
    elim same [ true ↦ check_version_header block_id block s' | false ↦ ok (false, s') ]

  unfoldable pub remove : BlockId → IntegrityBlockStore2 S → Result (Bool × IntegrityBlockStore2 S)
  remove block_id s = do
    (removed, base) ← S.remove block_id s.base
    ok (removed, record s { base = base; known = mark_block_as_deleted block_id s.known })

  unfoldable pub num_blocks : IntegrityBlockStore2 S → ℕ
  num_blocks s = S.num_blocks s.base

  -- The ids that the callback is called with, and the state after it.
  unfoldable pub for_each_block : IntegrityBlockStore2 S → List BlockId × IntegrityBlockStore2 S
  for_each_block s =
      let ids = S.for_each_block s.base in
      if not s.missing_block_is_integrity_violation
      then (ids, s)
      else if is_empty (without ids (existing_blocks s.known))
      then (ids, s)
      else (ids, integrity_violation_detected s)

-- The size of the content of a block, given that of the physical block.
unfoldable pub block_size_from_physical_block_size : BlockStore2 → ℕ → ℕ
block_size_from_physical_block_size S block_size =
    let base_block_size = S.block_size_from_physical_block_size block_size in
    if leb base_block_size header_length then 0 else base_block_size - header_length

module _ (allocate : ℕ → Data) {S : BlockStore2} where
  unfoldable pub try_create :
      BlockId → Data → IntegrityBlockStore2 S → Result (Bool × IntegrityBlockStore2 S)
  try_create block_id content s = do
    (version, known) ← increment_version block_id s.known
    block ← prepend_header_to_data allocate block_id known.my_client_id version content
    (created, base) ← S.try_create block_id block s.base
    ok (created, record s { base = base; known = known })

  unfoldable pub store : BlockId → Data → IntegrityBlockStore2 S → Result (IntegrityBlockStore2 S)
  store block_id content s = do
    (version, known) ← increment_version block_id s.known
    block ← prepend_header_to_data allocate block_id known.my_client_id version content
    base ← S.store block_id block s.base
    ok (record s { base = base; known = known })

  -- What follows the check of the header: the content, or nothing.
  unfoldable pub load_old_format :
      BlockId → Data → IntegrityBlockStore2 S → Result (Option Data × IntegrityBlockStore2 S)
  load_old_format block_id block s = do
    migrated ← migrate_block allocate block_id block
    (good, s') ← check_header block_id migrated s
    elim (not good && not s'.allow_integrity_violations) [
      | true ↦ ok (none, s')
      | false ↦ do
        content ← remove_header migrated
        s'' ← store block_id content s'
        ok (some content, s'')
    ]

  unfoldable pub load_format :
      BlockId → Data → IntegrityBlockStore2 S → Result (Option Data × IntegrityBlockStore2 S)
  load_format block_id block s = do
    (good, s') ← check_header block_id block s
    elim (not good && not s'.allow_integrity_violations) [
      | true ↦ ok (none, s')
      | false ↦ do content ← remove_header block; ok (some content, s')
    ]

  unfoldable pub load :
      BlockId → IntegrityBlockStore2 S → Result (Option Data × IntegrityBlockStore2 S)
  load block_id s = do
    (loaded, base) ← S.load block_id s.base
    let s' : IntegrityBlockStore2 S = record s { base = base }
    elim loaded [
      | none ↦ ok (
        none,
        if s'.missing_block_is_integrity_violation && block_should_exist block_id s'.known
            then integrity_violation_detected s'
            else s',
      )
      | some block ↦ do
        format ← read_format_header block
        elim (format == format_version_header_old) [
          | true ↦ load_old_format block_id block s'
          | false ↦ load_format block_id block s'
        ]
    ]

  -- The constructor, with the content of the state file.
  unfoldable pub create :
      S.State → Option Data → ℕ → Bool → Bool → Result (IntegrityBlockStore2 S × Option Data)
  create base file my_client_id allow missing = do
    (known, saved) ← StateFile.create allocate my_client_id file
    guard (not known.integrity_violation_on_previous_run) integrity_violation_on_previous_run
    ok (
      record {
        base = base;
        known = known;
        allow_integrity_violations = allow;
        missing_block_is_integrity_violation = missing;
        violations = 0;
      },
      saved,
    )

module _ (allocate : ℕ → Data) (S : BlockStore2) where
  -- `migrateBlockFromBlockstoreWithoutVersionNumbers`
  unfoldable pub migrate_block_from_blockstore_without_version_numbers :
      BlockId → S.State → KnownBlockVersions → Result (S.State × KnownBlockVersions)
  migrate_block_from_blockstore_without_version_numbers block_id base known = do
    (loaded, base') ← S.load block_id base
    elim loaded [
      | none ↦ ok (base', known)
      | some block ↦ do
        format ← read_format_header block
        elim (0 == format) [
          | false ↦ ok (base', known)
          | true ↦ do
            (version, known') ← increment_version block_id known
            with_header ← prepend_header_to_data allocate block_id known'.my_client_id version block
            base'' ← S.store block_id with_header base'
            ok (base'', known')
        ]
    ]
