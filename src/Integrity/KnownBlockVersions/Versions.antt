-- ===== src/Integrity/KnownBlockVersions/Versions.antt =====
-- What each operation does to the version that is known of a client and a block, and to the client
-- that wrote a block last.
use mathlib.Core.Option.{get_or}
use libcryfs.Common.{
  ℕ, ◌+◌, ◌-◌, ◌%◌, ◌^◌, ◌<◌, ◌≡◌, ◌≢◌, ◌↔◌, refl, Bool, true, not, ◌&&◌, ◌||◌, arith, ltb,
  if◌then◌else◌,
}
use libcryfs.Common.Equality.{◌==◌, nat_eq, bytes_eq}
use libcryfs.Common.Result.{ok}
use libcryfs.Common.Assoc.{find, insert, assign, find-assign, get-find-insert, get-find-insert_ne}
use libcryfs.Integrity.KnownBlockVersions.{
  ClientIdAndBlockId, key_eq, KnownBlockVersions, update_version, check_and_update_version,
  increment_version, mark_block_as_deleted, block_should_exist,
}
use libcryfs.Common.Bytes.{BlockId}

-- The newest version known, 0 if there is none.
unfoldable pub known_version : ℕ → BlockId → KnownBlockVersions → ℕ
known_version client_id block_id s =
    get_or (find (record { client_id = client_id; block_id = block_id }) s.known_versions) 0

-- The client that wrote last, 0 if the block is deleted or was never seen.
unfoldable pub last_client : BlockId → KnownBlockVersions → ℕ
last_client block_id s = get_or (find block_id s.last_update_client_id) 0

module _ (c : ℕ) (b : BlockId) (v : ℕ) (s : KnownBlockVersions) where
  abbrev key : ClientIdAndBlockId
  key = record { client_id = c; block_id = b }

  -- An update is accepted if the version is newer, or if it is the block's last update.
  pub update_version-accepts :
      (update_version c b v s).0
      ≡ not
          (ltb v (known_version c b s) || (known_version c b s == v && not (last_client b s == c)))
  unfolding known_version last_client update_version
  update_version-accepts =
      rw
        (
          get-find-insert key 0 s.known_versions,
          get-find-insert b 0 s.last_update_client_id,
          update_version,
        )
        (ground arith)

  pub known-update_version :
      (d : ℕ) (a : BlockId)
      → known_version d a (update_version c b v s).1
        ≡ (if (update_version c b v s).0 && (d == c && a == b) then v else known_version d a s)
  unfolding known_version update_version
  known-update_version d a =
      let other : ClientIdAndBlockId = record { client_id = d; block_id = a } in
      ground (
        arith,
        key_eq.beq_iff other key,
        bytes_eq.beq_iff a b,
        get-find-insert_ne other key 0 s.known_versions,
        get-find-insert key 0 s.known_versions,
        find-assign other key v (insert key 0 s.known_versions),
      )

  pub last-update_version :
      (a : BlockId)
      → last_client a (update_version c b v s).1
        ≡ (if (update_version c b v s).0 && a == b then c else last_client a s)
  unfolding last_client update_version
  last-update_version a =
      let clients = s.last_update_client_id in
      ground (
        arith,
        bytes_eq.beq_iff a b,
        get-find-insert_ne a b 0 clients,
        get-find-insert b 0 clients,
        find-assign a b c (insert b 0 clients),
      )

-- The assertions fail if the client is 0, the version is 0, or the object was moved from.
pub check_and_update_version-eq-ok_iff :
    (c : ℕ) (b : BlockId) (v : ℕ) (s : KnownBlockVersions) {r : Bool × KnownBlockVersions}
    → (check_and_update_version c b v s ≡ ok r)
      ↔ ((c ≢ 0) × (0 < v) × (s.valid ≡ true) × (update_version c b v s ≡ r))
unfolding check_and_update_version
check_and_update_version-eq-ok_iff c b v s = ground arith

module _ (b : BlockId) (s : KnownBlockVersions) {w : ℕ} {t : KnownBlockVersions}
    (done : increment_version b s ≡ ok (w, t)) where
  -- The new version is one more than the known one, in 64 bits.
  pub increment_version-eq :
      (w ≡ (known_version s.my_client_id b s + 1) % 2 ^ 64)
      × (w ≢ 2 ^ 64 - 1)
      × (t.my_client_id ≡ s.my_client_id)
      × (t.valid ≡ s.valid)
  unfolding increment_version known_version
  increment_version-eq =
      let key : ClientIdAndBlockId = record { client_id = s.my_client_id; block_id = b } in
      ground (arith, get-find-insert key 0 s.known_versions)

  pub known-increment_version :
      (d : ℕ) (a : BlockId)
      → known_version d a t ≡ (if d == s.my_client_id && a == b then w else known_version d a s)
  unfolding increment_version known_version
  known-increment_version d a =
      let key : ClientIdAndBlockId = record { client_id = s.my_client_id; block_id = b } in
      let other : ClientIdAndBlockId = record { client_id = d; block_id = a } in
      ground (
        arith,
        key_eq.beq_iff other key,
        bytes_eq.beq_iff a b,
        get-find-insert_ne other key 0 s.known_versions,
        find-assign other key w (insert key 0 s.known_versions),
      )

  pub last-increment_version :
      (a : BlockId) → last_client a t ≡ (if a == b then s.my_client_id else last_client a s)
  unfolding increment_version last_client
  last-increment_version a =
      ground (arith, bytes_eq.beq_iff a b, find-assign a b s.my_client_id s.last_update_client_id)

pub last-mark_block_as_deleted :
    (b a : BlockId) (s : KnownBlockVersions)
    → last_client a (mark_block_as_deleted b s) ≡ (if a == b then 0 else last_client a s)
unfolding mark_block_as_deleted last_client
last-mark_block_as_deleted b a s =
    ground (arith, bytes_eq.beq_iff a b, find-assign a b 0 s.last_update_client_id)

pub known-mark_block_as_deleted :
    (b : BlockId) (d : ℕ) (a : BlockId) (s : KnownBlockVersions)
    → known_version d a (mark_block_as_deleted b s) ≡ known_version d a s
unfolding mark_block_as_deleted known_version
known-mark_block_as_deleted b d a s = refl

-- A block should exist exactly if a client wrote it last.
pub block_should_exist_iff :
    (b : BlockId) (s : KnownBlockVersions) → (block_should_exist b s ≡ true) ↔ (last_client b s ≢ 0)
unfolding block_should_exist last_client
block_should_exist_iff b s = ground arith

-- A new version is refused only at the end of 64 bits.
pub increment_version-total :
    (b : BlockId) (s : KnownBlockVersions)
    → (known_version s.my_client_id b s + 1) % 2 ^ 64 ≢ 2 ^ 64 - 1
    → (v : ℕ) × (t : KnownBlockVersions) × (increment_version b s ≡ ok (v, t))
unfolding increment_version known_version
increment_version-total b s h =
    let key : ClientIdAndBlockId = record { client_id = s.my_client_id; block_id = b } in
    let versions = insert key 0 s.known_versions in
    let v = (known_version s.my_client_id b s + 1) % 2 ^ 64 in
    (
      v,
      record s {
        known_versions = assign key v versions;
        last_update_client_id = assign b s.my_client_id s.last_update_client_id;
      },
      ground (arith, get-find-insert key 0 s.known_versions),
    )

pub update_version-keeps :
    (c : ℕ) (b : BlockId) (v : ℕ) (s : KnownBlockVersions)
    → ((update_version c b v s).1.my_client_id ≡ s.my_client_id)
      × ((update_version c b v s).1.valid ≡ s.valid)
unfolding update_version
update_version-keeps c b v s = ground arith
