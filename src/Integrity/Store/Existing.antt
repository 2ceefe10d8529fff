-- ===== src/Integrity/Store/Existing.antt =====
-- `tryCreate` on a block that exists.
use libcryfs.Common.{
  ℕ, ◌+◌, ◌^◌, ◌<◌, ◌≡◌, ap, ◌∙◌, false, Option, some, none, arith, length, Option-cases, inl, inr,
}
use libcryfs.Common.Equality.{bytes_eq}
use libcryfs.Common.Result.{ok}
use libcryfs.Common.Bytes.{Data, BlockId, block_id_length}
use libcryfs.BlockStore.{BlockStore2, IsLawful}
use libcryfs.Integrity.KnownBlockVersions.{update_version}
use libcryfs.Integrity.KnownBlockVersions.Versions.{
  known_version, increment_version-eq, increment_version-total, known-increment_version,
  update_version-accepts,
}
use libcryfs.Integrity.Store
use libcryfs.Integrity.Store.{IntegrityBlockStore2, header_length}
use libcryfs.Integrity.Store.Header.{layout, prepend_header_to_data-layout}
use libcryfs.Integrity.Store.Consistent.{IsConsistent, content}
use libcryfs.Integrity.Store.Attacks.{Reports, load_rejected}

-- Where integrity violations are not allowed, in a consistent state over a lawful base store,
-- `try_create` on a block that has a content reports that the block is there, and makes it
-- unreadable: its version has been counted up, so that the next `load` takes the block for an old
-- one, returns nothing and reports a violation. The block id has 16 bytes, the data with the header
-- is below 2 ^ 64 bytes, memory that is allocated has the size that is asked for, and the version
-- that is known of the block from this client is below 2 ^ 64 - 2.
pub load-try_create_existing :
    (allocate : ℕ → Data) (allocates : (n : ℕ) → length (allocate n) ≡ n) {S : BlockStore2}
    {contents : S.State → BlockId → Option Data} (L : IsLawful S contents)
    (s : IntegrityBlockStore2 S) (c : IsConsistent contents s) (b : BlockId) (d old : Data)
    → length b ≡ block_id_length
    → content contents s b ≡ some old
    → s.allow_integrity_violations ≡ false
    → length d + header_length < 2 ^ 64
    → known_version s.known.my_client_id b s.known + 2 < 2 ^ 64
    → (t : IntegrityBlockStore2 S) × (u : IntegrityBlockStore2 S) × (Store.try_create allocate b d s
        ≡ ok (false, t))
      × (Store.load allocate b t ≡ ok (none, u))
      × Reports s u
unfolding Store.try_create
load-try_create_existing allocate allocates {S} {contents} L s c b d old size there strict small
      versions =
    let (v, known, e) = increment_version-total b s.known (omega arith) in
    let facts = increment_version-eq b s.known e in
    let my = s.known.my_client_id in
    let (base, created, view) = L.try_create_lem b (layout b known.my_client_id v d) s.base in
    elim (Option-cases (contents s.base b)) [
      | inl missing ↦ absurd (ground arith)
      | inr (block, found) ↦
          let (d', laid, last, positive) = c.written b block size found in
          let w = known_version my b s.known in
          let t : IntegrityBlockStore2 S = record s { base = base; known = known } in
          let found' : contents base b ≡ some (layout b my w d') =
            rw found at (view b) ∙ ap some laid in
          let counted = known-increment_version b s.known e my b in
          let rejected : (update_version my b w known).0 ≡ false = ground (
            arith,
            update_version-accepts my b w known,
            counted,
            facts,
            bytes_eq.beq_iff b b,
            c.bounded my b,
          ) in
          let (u, loaded, reports) =
            load_rejected allocate L t strict b size my w d' c.client_fits
              (omega (arith, c.bounded my b)) c.client positive (facts.3 ∙ c.valid) found'
              rejected in
          (
            t,
            u,
            rw (
              e,
              prepend_header_to_data-layout b size known.my_client_id v d allocate allocates small,
              created,
              found,
            ),
            loaded,
            record { reported = reports.reported; remembered = reports.remembered },
          )
    ]
