-- ===== src/Integrity/Store/Refinement.antt =====
-- The layer over a lawful store, as a store of the contents behind the headers.
use libcryfs.Common.{
  ℕ, ◌+◌, ◌^◌, ◌<◌, ◌≡◌, ◌≢◌, refl, ap, ◌∙◌, subst, true, false, Option, none, some, arith, length,
  if◌then◌else◌, Option-cases, inl, inr,
}
use libcryfs.Common.Equality.{bytes_eq, nat_eq, beq_refl}
use libcryfs.Common.Result.{ok}
use libcryfs.Common.Bytes.{Data, BlockId, block_id_length, width}
use libcryfs.BlockStore.{BlockStore2, IsLawful, changed, is_some}
use libcryfs.Integrity.KnownBlockVersions.{
  update_version, mark_block_as_deleted, block_should_exist,
}
use libcryfs.Integrity.KnownBlockVersions.Versions.{
  known_version, increment_version-eq, increment_version-total, update_version-accepts,
  known-update_version, last-update_version, check_and_update_version-eq-ok_iff,
  block_should_exist_iff,
}
use libcryfs.Integrity.Store
use libcryfs.Integrity.Store.{
  IntegrityBlockStore2, header_length, check_format_header, check_id_header, check_version_header,
  check_header,
}
use libcryfs.Integrity.Store.Header.{
  layout, read_format_header-layout, read_block_id-layout, read_client_id-layout,
  read_version-layout, drop-layout, remove_header-layout, prepend_header_to_data-layout,
}
use libcryfs.Integrity.Store.Consistent.{
  content, IsConsistent, Leaves, written-IsConsistent, kept-IsConsistent, removed-IsConsistent,
}
use libcryfs.Integrity.KnownBlockVersions.Versions.{update_version-keeps}

-- A block whose header is right is accepted exactly if its version is.
pub check_header-layout :
    {S : BlockStore2} (b : BlockId) (c v : ℕ) (d : Data) (s : IntegrityBlockStore2 S)
    → length b ≡ block_id_length
    → c < width 4
    → v < width 8
    → c ≢ 0
    → 0 < v
    → s.known.valid ≡ true
    → let (accepted, known) = update_version c b v s.known in
      check_header b (layout b c v d) s
      ≡ ok (
          if accepted
          then (true, record s { known = known })
          else (false, Store.integrity_violation_detected (record s { known = known })))
unfolding check_header check_format_header check_id_header check_version_header
check_header-layout b c v d s size c_fits v_fits client positive valid = rw (
  read_format_header-layout b size c v d,
  read_block_id-layout b size c v d,
  beq_refl b,
  read_client_id-layout b size c v d c_fits,
  read_version-layout b size c v d v_fits,
  (check_and_update_version-eq-ok_iff c b v s.known).1 (client, positive, valid, refl),
)

module _ (allocate : ℕ → Data) (allocates : (n : ℕ) → length (allocate n) ≡ n) {S : BlockStore2}
    {contents : S.State → BlockId → Option Data} (L : IsLawful S contents)
    (s : IntegrityBlockStore2 S) (c : IsConsistent contents s) (b : BlockId)
    (size : length b ≡ block_id_length) where
  -- Over a lawful store, `store` in a consistent state reports no error and no violation, leaves a
  -- consistent state, sets the content of its block and keeps that of all others. The block id has 16
  -- bytes, the physical block fits in 2 ^ 64 bytes, and the versions of the block are not used up.
  pub store-Leaves :
      (d : Data)
      → length d + header_length < 2 ^ 64
      → known_version s.known.my_client_id b s.known + 2 < 2 ^ 64
      → (t : IntegrityBlockStore2 S) × (Store.store allocate b d s ≡ ok t)
        × Leaves contents s t (changed b (some d) (content contents s))
  unfolding Store.store
  store-Leaves d small versions =
      let (v, known, e) = increment_version-total b s.known (omega arith) in
      let my = known.my_client_id in
      let same : my ≡ s.known.my_client_id = (increment_version-eq b s.known e).2 in
      let (base, stored, view) = L.store_lem b (layout b my v d) s.base in
      let view' = λ (a : BlockId).
        subst (λ k. contents base a ≡ changed b (some (layout b k v d)) (contents s.base) a) same
          (view a) in
      (
        record s { base = base; known = known },
        rw (e, prepend_header_to_data-layout b size my v d allocate allocates small, stored),
        written-IsConsistent contents s b d size c e base view',
      )

  -- Over a lawful store, `load` in a consistent state returns the content of the block, or nothing
  -- if there is none, reports no error and no violation, leaves a consistent state and keeps all
  -- contents. The block id has 16 bytes.
  pub load-Leaves :
      (t : IntegrityBlockStore2 S) × (Store.load allocate b s ≡ ok (content contents s b, t))
      × Leaves contents s t (content contents s)
  unfolding Store.load Store.load_format
  load-Leaves =
      let (base, loaded, view) = L.load_lem b s.base in
      let my = s.known.my_client_id in
      elim (Option-cases (contents s.base b)) [
        | inl missing ↦
            let unknown : block_should_exist b s.known ≡ false =
              ground (arith, block_should_exist_iff b s.known, c.absent b size missing) in
            (
              record s { base = base },
              rw (loaded, missing, unknown) (ground arith),
              kept-IsConsistent contents s c base s.known view refl refl (λ d a. refl) (λ a. refl),
            )
        | inr (block, found) ↦
            let (d, laid, last, positive) = c.written b block size found in
            let v = known_version my b s.known in
            let found' : contents s.base b ≡ some (layout b my v d) = found ∙ ap some laid in
            let fits : v < width 8 = omega (arith, c.bounded my b) in
            let known = (update_version my b v s.known).1 in
            let accepted : (update_version my b v s.known).0 ≡ true =
              ground (arith, update_version-accepts my b v s.known) in
            let s' : IntegrityBlockStore2 S = record s { base = base } in
            let keeps = update_version-keeps my b v s.known in
            let checked =
              check_header-layout b my v d s' size c.client_fits fits c.client positive c.valid in
            (
              record s { base = base; known = known },
              rw
                  (
                    loaded,
                    found',
                    read_format_header-layout b size my v d,
                    drop-layout b size my v d,
                  )
                  (rw (checked, Store.load_format)
                    (rw accepted (rw (remove_header-layout b size my v d)))),
              kept-IsConsistent contents s c base known view keeps.0 keeps.1
                  (λ d a.
                    ground (arith, known-update_version my b v s.known d a, bytes_eq.beq_iff a b))
                  (λ a. ground (arith, last-update_version my b v s.known a, bytes_eq.beq_iff a b)),
            )
      ]

  -- Over a lawful store, `remove` in a consistent state tells whether the block was there, reports no
  -- violation, leaves a consistent state, deletes the content and keeps all others. The block id has
  -- 16 bytes.
  pub remove-Leaves :
      (t : IntegrityBlockStore2 S) × (Store.remove b s ≡ ok (is_some (content contents s b), t))
      × Leaves contents s t (changed b none (content contents s))
  unfolding Store.remove
  remove-Leaves =
      let (base, removed, view) = L.remove_lem b s.base in
      (
        record s { base = base; known = mark_block_as_deleted b s.known },
        rw removed (ground arith),
        removed-IsConsistent contents s b c base view,
      )

  -- Over a lawful store, `try_create` of a block that is not there succeeds in a consistent state,
  -- reports no violation, leaves a consistent state, sets the content and keeps all others. The block
  -- id has 16 bytes, the physical block fits in 2 ^ 64 bytes, and the versions are not used up.
  pub try_create-Leaves :
      (d : Data)
      → content contents s b ≡ none
      → length d + header_length < 2 ^ 64
      → known_version s.known.my_client_id b s.known + 2 < 2 ^ 64
      → (t : IntegrityBlockStore2 S) × (Store.try_create allocate b d s ≡ ok (true, t))
        × Leaves contents s t (changed b (some d) (content contents s))
  unfolding Store.try_create
  try_create-Leaves d missing small versions =
      let (v, known, e) = increment_version-total b s.known (omega arith) in
      let my = known.my_client_id in
      let same : my ≡ s.known.my_client_id = (increment_version-eq b s.known e).2 in
      let (base, created, view) = L.try_create_lem b (layout b my v d) s.base in
      let missing' : contents s.base b ≡ none = ground arith in
      let view' = λ (a : BlockId).
        subst (λ k. contents base a ≡ changed b (some (layout b k v d)) (contents s.base) a) same
          (rw missing' at (view a)) in
      (
        record s { base = base; known = known },
        rw (
          e,
          prepend_header_to_data-layout b size my v d allocate allocates small,
          created,
          missing',
        ),
        written-IsConsistent contents s b d size c e base view',
      )
