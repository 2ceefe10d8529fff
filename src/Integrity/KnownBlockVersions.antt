-- ===== src/Integrity/KnownBlockVersions.antt =====
-- `KnownBlockVersions` (src/blockstore/implementations/integrity/KnownBlockVersions.{h,cpp}): the
-- newest version of each block that each client is known to have written, and the client that
-- wrote last. The mutex is not modelled: each operation is one step. Where `increment_version`
-- throws, its entry was there before, so that nothing has changed.
pub mod Versions
pub mod Rollback
pub mod StateFile
use mathlib.Core.Option.{get_or}
use libcryfs.Common.{
  ℕ, ◌+◌, ◌-◌, ◌^◌, ◌≡◌, ◌↔◌, Bool, true, false, not, ◌&&◌, Option, none, some, List, [], ◌∷◌,
  arith, ltb, if◌then◌else◌,
}
use libcryfs.Common.Equality.{Eq, ◌==◌, nat_eq, bytes_eq}
use libcryfs.Common.Result.{
  Result, ok, err, guard, assert_failed, runtime_error, out_of_range, ◌>>=◌, ◌>>◌,
}
use libcryfs.Common.Assoc.{Assoc, find, insert, assign}
use libcryfs.Common.Bytes.{BlockId}
use libcryfs.Common.Memory.{add64}

pub record ClientIdAndBlockId : Type 0 where
  pub client_id : ℕ
  pub block_id : BlockId

-- `std::equal_to<ClientIdAndBlockId>`
key_beq : ClientIdAndBlockId → ClientIdAndBlockId → Bool
key_beq lhs rhs = lhs.client_id == rhs.client_id && lhs.block_id == rhs.block_id

key_beq_iff : (a b : ClientIdAndBlockId) → (key_beq a b ≡ true) ↔ (a ≡ b)
unfolding key_beq
key_beq_iff a b = ground (arith, bytes_eq.beq_iff a.block_id b.block_id)

instance unfoldable pub key_eq : Eq ClientIdAndBlockId
unfolding key_beq key_beq_iff bytes_eq
key_eq = record { beq = key_beq; beq_iff = key_beq_iff }

pub record KnownBlockVersions : Type 0 where
  pub integrity_violation_on_previous_run : Bool
  pub known_versions : Assoc ClientIdAndBlockId ℕ
  pub last_update_client_id : Assoc BlockId ℕ
  pub my_client_id : ℕ
  pub valid : Bool

-- `CLIENT_ID_FOR_DELETED_BLOCK`
abbrev pub client_id_for_deleted_block : ℕ
client_id_for_deleted_block = 0

-- `checkAndUpdateVersion` behind its assertions. `m[k]` creates an entry of 0 where there is none.
unfoldable pub update_version : ℕ → BlockId → ℕ → KnownBlockVersions → Bool × KnownBlockVersions
update_version client_id block_id version s =
    let key : ClientIdAndBlockId = record { client_id = client_id; block_id = block_id } in
    let versions = insert key 0 s.known_versions in
    let found = get_or (find key versions) 0 in
    let clients = insert block_id client_id_for_deleted_block s.last_update_client_id in
    let last = get_or (find block_id clients) client_id_for_deleted_block in
    if ltb version found
    then (false, record s { known_versions = versions })
    else if found == version && not (last == client_id)
    then (false, record s { known_versions = versions; last_update_client_id = clients })
    else (
      true,
      record s {
        known_versions = assign key version versions;
        last_update_client_id = assign block_id client_id clients;
      },
    )

unfoldable pub check_and_update_version :
    ℕ → BlockId → ℕ → KnownBlockVersions → Result (Bool × KnownBlockVersions)
check_and_update_version client_id block_id version s = do
  guard (not (client_id == client_id_for_deleted_block)) assert_failed
  guard (ltb 0 version) assert_failed
  guard s.valid assert_failed
  ok (update_version client_id block_id version s)

-- The new version wraps around as a `uint64_t`.
unfoldable pub increment_version : BlockId → KnownBlockVersions → Result (ℕ × KnownBlockVersions)
increment_version block_id s =
    let key : ClientIdAndBlockId = record { client_id = s.my_client_id; block_id = block_id } in
    let versions = insert key 0 s.known_versions in
    let new_version = add64 (get_or (find key versions) 0) 1 in
    if new_version == 2 ^ 64 - 1
    then err runtime_error
    else ok (
      new_version,
      record s {
        known_versions = assign key new_version versions;
        last_update_client_id = assign block_id s.my_client_id s.last_update_client_id;
      },
    )

unfoldable pub mark_block_as_deleted : BlockId → KnownBlockVersions → KnownBlockVersions
mark_block_as_deleted block_id s = record s {
  last_update_client_id = assign block_id client_id_for_deleted_block s.last_update_client_id;
}

unfoldable pub block_should_exist : BlockId → KnownBlockVersions → Bool
block_should_exist block_id s = elim (find block_id s.last_update_client_id) [
  | none ↦ false
  | some client ↦ not (client == client_id_for_deleted_block)
]

-- The loop of `existingBlocks`.
unfoldable pub existing_among : Assoc BlockId ℕ → List BlockId
existing_among [] = []
existing_among ((block_id, client) ∷ m) =
    let rest = existing_among m in
    if not (client == client_id_for_deleted_block) then block_id ∷ rest else rest

unfoldable pub existing_blocks : KnownBlockVersions → List BlockId
unfolding existing_among
existing_blocks s = existing_among s.last_update_client_id

-- `_knownVersions.at(...)`
unfoldable pub get_block_version : ℕ → BlockId → KnownBlockVersions → Result ℕ
get_block_version client_id block_id s =
    elim (find (record { client_id = client_id; block_id = block_id }) s.known_versions) [
      | none ↦ err out_of_range
      | some version ↦ ok version
    ]

unfoldable pub set_integrity_violation_on_previous_run :
    Bool → KnownBlockVersions → KnownBlockVersions
set_integrity_violation_on_previous_run value s = record s {
  integrity_violation_on_previous_run = value;
}

-- The move constructor: the new object, and the one that it was made from.
unfoldable pub move_from : KnownBlockVersions → KnownBlockVersions × KnownBlockVersions
move_from rhs = (
  record rhs { valid = true },
  record rhs { known_versions = []; last_update_client_id = []; valid = false },
)
