-- ===== src/Integrity/KnownBlockVersions/Rollback.antt =====
-- Old versions of a block, for an attacker who controls the storage: what happens with them after
-- other blocks and versions were loaded, written and deleted in between.
use libcryfs.Common.{ℕ, ◌-◌, ◌^◌, ◌≤◌, ◌<◌, ◌≡◌, ◌≢◌, ◌⊎◌, ◌∙◌, sym, ap, Bool, true, false, arith}
use libcryfs.Common.Equality.{bytes_eq}
use libcryfs.Common.Result.{ok}
use libcryfs.Common.Assoc.{insert, assign, get-find-insert, find-assign}
use libcryfs.Integrity.KnownBlockVersions.{
  ClientIdAndBlockId, key_eq, KnownBlockVersions, update_version, check_and_update_version,
  increment_version, mark_block_as_deleted, set_integrity_violation_on_previous_run,
}
use libcryfs.Common.Bytes.{BlockId}
use libcryfs.Integrity.KnownBlockVersions.Versions.{
  known_version, last_client, update_version-accepts, known-update_version, last-update_version,
  check_and_update_version-eq-ok_iff, increment_version-eq, known-increment_version,
  last-increment_version, known-mark_block_as_deleted, last-mark_block_as_deleted,
  update_version-keeps,
}

-- One operation. A version that is loaded is assumed not to be the largest of 64 bits.
pub data Step (s t : KnownBlockVersions) : Type 0 where
  check :
      (c : ℕ) (b : BlockId) (v : ℕ) (accepted : Bool)
      → v < 2 ^ 64 - 1
      → check_and_update_version c b v s ≡ ok (accepted, t)
      → Step s t
  increment : (b : BlockId) (w : ℕ) → increment_version b s ≡ ok (w, t) → Step s t
  delete : (b : BlockId) → mark_block_as_deleted b s ≡ t → Step s t
  note_violation : (value : Bool) → set_integrity_violation_on_previous_run value s ≡ t → Step s t

pub data Reach (s : KnownBlockVersions) : KnownBlockVersions → Type 0 where
  here : Reach s s
  next : {t u : KnownBlockVersions} → Reach s t → Step t u → Reach s u

-- No known version is at the end of 64 bits.
abbrev pub IsBounded : KnownBlockVersions → Type 0
IsBounded s = (c : ℕ) (b : BlockId) → known_version c b s < 2 ^ 64 - 1

-- The client has written a newer version, or somebody else has written or deleted the block since.
abbrev pub Superseded : ℕ → BlockId → ℕ → KnownBlockVersions → Type 0
Superseded c b v s = (v < known_version c b s) ⊎ ((v ≡ known_version c b s) × (last_client b s ≢ c))

Step-valid : {s t : KnownBlockVersions} → Step s t → t.valid ≡ s.valid
unfolding update_version mark_block_as_deleted set_integrity_violation_on_previous_run
Step-valid {s} (check c b v accepted h e) =
    ground (arith, (check_and_update_version-eq-ok_iff c b v s).0 e)
Step-valid {s} (increment b w e) = (increment_version-eq b s e).3
Step-valid (delete b e) = ground arith
Step-valid (note_violation value e) = ground arith

Step-IsBounded : {s t : KnownBlockVersions} → Step s t → IsBounded s → IsBounded t
unfolding known_version set_integrity_violation_on_previous_run
Step-IsBounded {s} (check c b v accepted h e) bounded d a = ground (
  arith,
  (check_and_update_version-eq-ok_iff c b v s).0 e,
  known-update_version c b v s d a,
  bounded d a,
)
Step-IsBounded {s} (increment b w e) bounded d a =
    ground (arith, increment_version-eq b s e, known-increment_version b s e d a, bounded d a)
Step-IsBounded {s} (delete b e) bounded d a =
    ground (arith, known-mark_block_as_deleted b d a s, bounded d a)
Step-IsBounded {s} (note_violation value e) bounded d a = ground (arith, bounded d a)

module _ (c : ℕ) (b : BlockId) (v : ℕ) (client : c ≢ 0) where
  Step-Superseded :
      {s t : KnownBlockVersions} → Step s t → IsBounded s → Superseded c b v s → Superseded c b v t
  unfolding set_integrity_violation_on_previous_run known_version last_client
  Step-Superseded {s} (check d a w accepted h e) bounded old = ground (
    arith,
    (check_and_update_version-eq-ok_iff d a w s).0 e,
    known-update_version d a w s c b,
    last-update_version d a w s b,
    update_version-accepts d a w s,
    bytes_eq.beq_iff b a,
  )
  Step-Superseded {s} (increment a w e) bounded old = ground (
    arith,
    increment_version-eq a s e,
    known-increment_version a s e c b,
    last-increment_version a s e b,
    bounded s.my_client_id a,
    bytes_eq.beq_iff b a,
  )
  Step-Superseded {s} (delete a e) bounded old = ground (
    arith,
    known-mark_block_as_deleted a c b s,
    last-mark_block_as_deleted a b s,
    bytes_eq.beq_iff b a,
  )
  Step-Superseded {s} (note_violation value e) bounded old = ground arith

  Reach-Superseded :
      {s t : KnownBlockVersions}
      → s.valid ≡ true
      → IsBounded s
      → Superseded c b v s
      → Reach s t
      → (t.valid ≡ true) × IsBounded t × Superseded c b v t
  Reach-Superseded valid bounded old here = (valid, bounded, old)
  Reach-Superseded valid bounded old (next r st) =
      let (valid', bounded', old') = Reach-Superseded valid bounded old r in
      (Step-valid st ∙ valid', Step-IsBounded st bounded', Step-Superseded st bounded' old')

  -- After any operations, a version that was superseded is rejected.
  check-Superseded :
      {s t : KnownBlockVersions}
      → 0 < v
      → s.valid ≡ true
      → IsBounded s
      → Superseded c b v s
      → Reach s t
      → check_and_update_version c b v t ≡ ok (false, (update_version c b v t).1)
  check-Superseded {t} positive valid bounded old r =
      let (valid', _, old') = Reach-Superseded valid bounded old r in
      let rejected : (update_version c b v t).0 ≡ false =
        ground (arith, update_version-accepts c b v t) in
      (check_and_update_version-eq-ok_iff c b v t).1 (client, positive, valid', ground arith)

module _ (c : ℕ) (b : BlockId) (s : KnownBlockVersions) (client : c ≢ 0) (bounded : IsBounded s)
    {s' t : KnownBlockVersions} (r : Reach s' t) where
  -- Once a version of a block is accepted from a client, every older version from that client is
  -- rejected, after any further operations. The client id is not 0, the older version is positive,
  -- the object is valid, and no version that is known or loaded reaches 2 ^ 64 - 1.
  pub check_older :
      (v w : ℕ)
      → v < 2 ^ 64 - 1
      → check_and_update_version c b v s ≡ ok (true, s')
      → 0 < w
      → w < v
      → check_and_update_version c b w t ≡ ok (false, (update_version c b w t).1)
  check_older v w small accepted positive older =
      let st : Step s s' = Step.check c b v true small accepted in
      let facts = (check_and_update_version-eq-ok_iff c b v s).0 accepted in
      check-Superseded c b w client positive (Step-valid st ∙ facts.2) (Step-IsBounded st bounded)
        (ground (arith, known-update_version c b v s c b, bytes_eq.beq_iff b b)) r

  -- Once a block is deleted, every version that was known of it from any client is rejected, after
  -- any further operations: the block cannot be brought back. The client id is not 0, the version
  -- is positive, the object is valid, and no version that is known or loaded reaches 2 ^ 64 - 1.
  pub check_deleted :
      (w : ℕ)
      → s.valid ≡ true
      → mark_block_as_deleted b s ≡ s'
      → 0 < w
      → w ≤ known_version c b s
      → check_and_update_version c b w t ≡ ok (false, (update_version c b w t).1)
  check_deleted w valid e positive known =
      let st : Step s s' = Step.delete b e in
      check-Superseded c b w client positive (Step-valid st ∙ valid) (Step-IsBounded st bounded)
        (ground (
          arith,
          known-mark_block_as_deleted b c b s,
          last-mark_block_as_deleted b b s,
          bytes_eq.beq_iff b b,
        ))
        r

  -- Once this client has written a block, every version that was known of it from another client
  -- is rejected, after any further operations. The client id is not 0, the version is positive,
  -- the object is valid, and no version that is known or loaded reaches 2 ^ 64 - 1.
  pub check_overwritten :
      (v w : ℕ)
      → s.valid ≡ true
      → c ≢ s.my_client_id
      → increment_version b s ≡ ok (v, s')
      → 0 < w
      → w ≤ known_version c b s
      → check_and_update_version c b w t ≡ ok (false, (update_version c b w t).1)
  check_overwritten v w valid other e positive known =
      let st : Step s s' = Step.increment b v e in
      check-Superseded c b w client positive (Step-valid st ∙ valid) (Step-IsBounded st bounded)
        (ground (
          arith,
          known-increment_version b s e c b,
          last-increment_version b s e b,
          bytes_eq.beq_iff b b,
        ))
        r

-- A block that this client writes and reads back next is accepted: the version of the write is the
-- known one and the last update.
pub check-increment_version :
    (b : BlockId) (s : KnownBlockVersions) {v : ℕ} {t : KnownBlockVersions}
    → s.valid ≡ true
    → s.my_client_id ≢ 0
    → IsBounded s
    → increment_version b s ≡ ok (v, t)
    → check_and_update_version s.my_client_id b v t
      ≡ ok (true, (update_version s.my_client_id b v t).1)
check-increment_version b s {v} {t} valid client bounded e =
    let c = s.my_client_id in
    let facts = increment_version-eq b s e in
    let known = known-increment_version b s e c b in
    let last = last-increment_version b s e b in
    let accepted : (update_version c b v t).0 ≡ true =
      ground (arith, update_version-accepts c b v t, bytes_eq.beq_iff b b, known, last) in
    (check_and_update_version-eq-ok_iff c b v t).1
      (client, ground (arith, facts, bounded c b), facts.3 ∙ valid, ground arith)

-- A known version of 2 ^ 64 - 1 is counted up to 0.
increment_version-wraps :
    (b : BlockId) (s : KnownBlockVersions)
    → known_version s.my_client_id b s ≡ 2 ^ 64 - 1
    → (t : KnownBlockVersions) × (increment_version b s ≡ ok (0, t))
      × (known_version s.my_client_id b t ≡ 0)
unfolding increment_version known_version
increment_version-wraps b s e =
    let key : ClientIdAndBlockId = record { client_id = s.my_client_id; block_id = b } in
    let versions = insert key 0 s.known_versions in
    (
      record s {
        known_versions = assign key 0 versions;
        last_update_client_id = assign b s.my_client_id s.last_update_client_id;
      },
      ground (arith, get-find-insert key 0 s.known_versions),
      ground (arith, find-assign key key 0 versions, key_eq.beq_iff key key),
    )

-- A block with this client's id and version 2 ^ 64 - 1 is accepted where a smaller version is known,
-- and the next write of the block then wraps around to version 0 without an error. The client id is
-- not 0, and the object is valid.
pub increment_version-check_and_update_version :
    (b : BlockId) (s : KnownBlockVersions)
    → s.valid ≡ true
    → s.my_client_id ≢ 0
    → known_version s.my_client_id b s < 2 ^ 64 - 1
    → (s' t : KnownBlockVersions) × (check_and_update_version s.my_client_id b (2 ^ 64 - 1) s
        ≡ ok (true, s'))
      × (increment_version b s' ≡ ok (0, t))
      × (known_version s.my_client_id b t ≡ 0)
increment_version-check_and_update_version b s valid client lower =
    let c = s.my_client_id in
    let s' = (update_version c b (2 ^ 64 - 1) s).1 in
    let last = 2 ^ 64 - 1 in
    let kept = (update_version-keeps c b last s).0 in
    let accepted : (update_version c b last s).0 ≡ true =
      ground (arith, update_version-accepts c b last s, lower) in
    let checked : check_and_update_version c b last s ≡ ok (true, s') =
      (check_and_update_version-eq-ok_iff c b last s).1
        (client, omega arith, valid, ap (λ r. (r, s')) accepted) in
    let known : known_version c b s' ≡ last =
      ground (arith, known-update_version c b last s c b, accepted, bytes_eq.beq_iff b b) in
    let (t, counted, wrapped) =
      increment_version-wraps b s' (ap (λ d. known_version d b s') kept ∙ known) in
    (s', t, checked, counted, ap (λ d. known_version d b t) (sym kept) ∙ wrapped)
