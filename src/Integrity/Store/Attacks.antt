-- ===== src/Integrity/Store/Attacks.antt =====
-- What the layer does with blocks that it should not accept, whoever put them there.
use libcryfs.Common.{ℕ, ◌+◌, ◌<◌, ◌≡◌, ◌≢◌, refl, true, false, Option, none, some, arith, length}
use libcryfs.Common.Equality.{◌==◌, bytes_eq}
use libcryfs.Common.Result.{ok}
use libcryfs.Common.Bytes.{Data, BlockId, block_id_length, width}
use libcryfs.BlockStore.{BlockStore2, IsLawful}
use libcryfs.Integrity.KnownBlockVersions.{
  update_version, set_integrity_violation_on_previous_run, block_should_exist,
}
use libcryfs.Integrity.Store
use libcryfs.Integrity.Store.{
  IntegrityBlockStore2, integrity_violation_detected, check_format_header, check_id_header,
  check_header,
}
use libcryfs.Integrity.Store.Header.{layout, read_format_header-layout, read_block_id-layout}
use libcryfs.Integrity.Store.Refinement.{check_header-layout}

-- A violation is reported once more, and remembered for the next run.
pub record Reports {S : BlockStore2} (s t : IntegrityBlockStore2 S) : Type 0 where
  pub reported : t.violations ≡ s.violations + 1
  pub remembered : t.known.integrity_violation_on_previous_run ≡ true

check_header_renamed :
    {S : BlockStore2} (b other : BlockId) (c v : ℕ) (d : Data) (s : IntegrityBlockStore2 S)
    → length other ≡ block_id_length
    → other ≢ b
    → check_header b (layout other c v d) s ≡ ok (false, integrity_violation_detected s)
unfolding check_header check_format_header check_id_header
check_header_renamed b other c v d s size differs =
    let differs' : (b == other) ≡ false = ground (arith, bytes_eq.beq_iff b other) in
    rw (read_format_header-layout other size c v d, read_block_id-layout other size c v d, differs')

module _ (allocate : ℕ → Data) {S : BlockStore2} {contents : S.State → BlockId → Option Data}
    (L : IsLawful S contents) (s : IntegrityBlockStore2 S)
    (strict : s.allow_integrity_violations ≡ false) (b : BlockId)
    (size : length b ≡ block_id_length) where
  -- Where integrity violations are not allowed, over a lawful base store, a load of a block id
  -- under which a well-formed block of another id stands returns nothing, counts one more
  -- violation, and remembers the violation for the next run. Both ids have 16 bytes.
  pub load_renamed :
      (other : BlockId) (c v : ℕ) (d : Data)
      → length other ≡ block_id_length
      → other ≢ b
      → contents s.base b ≡ some (layout other c v d)
      → (t : IntegrityBlockStore2 S) × (Store.load allocate b s ≡ ok (none, t)) × Reports s t
  unfolding Store.load Store.load_format integrity_violation_detected
      set_integrity_violation_on_previous_run
  load_renamed other c v d size' differs found =
      let (base, loaded, view) = L.load_lem b s.base in
      let s' : IntegrityBlockStore2 S = record s { base = base } in
      let checked = check_header_renamed b other c v d s' size' differs in
      (
        record s {
          base = base;
          known = set_integrity_violation_on_previous_run true s.known;
          violations = s.violations + 1;
        },
        rw (loaded, found, read_format_header-layout other size' c v d)
            (rw (checked, Store.load_format) (rw strict)),
        record { reported = refl; remembered = refl },
      )

  -- A block with a version that is not accepted is not returned, and a violation is reported.
  pub load_rejected :
      (c v : ℕ) (d : Data)
      → c < width 4
      → v < width 8
      → c ≢ 0
      → 0 < v
      → s.known.valid ≡ true
      → contents s.base b ≡ some (layout b c v d)
      → (update_version c b v s.known).0 ≡ false
      → (t : IntegrityBlockStore2 S) × (Store.load allocate b s ≡ ok (none, t)) × Reports s t
  unfolding Store.load Store.load_format integrity_violation_detected
      set_integrity_violation_on_previous_run
  load_rejected c v d c_fits v_fits client positive valid found rejected =
      let (base, loaded, view) = L.load_lem b s.base in
      let s' : IntegrityBlockStore2 S = record s { base = base } in
      let checked = check_header-layout b c v d s' size c_fits v_fits client positive valid in
      (
        record s {
          base = base;
          known = set_integrity_violation_on_previous_run true (update_version c b v s.known).1;
          violations = s.violations + 1;
        },
        rw (loaded, found, read_format_header-layout b size c v d)
            (rw (checked, Store.load_format) (rw (rejected, strict))),
        record { reported = refl; remembered = refl },
      )

  -- A block that should exist and is not there is reported where the file system has one client.
  pub load_missing :
      s.missing_block_is_integrity_violation ≡ true
      → block_should_exist b s.known ≡ true
      → contents s.base b ≡ none
      → (t : IntegrityBlockStore2 S) × (Store.load allocate b s ≡ ok (none, t)) × Reports s t
  unfolding Store.load integrity_violation_detected set_integrity_violation_on_previous_run
  load_missing single exists missing =
      let (base, loaded, view) = L.load_lem b s.base in
      (
        record s {
          base = base;
          known = set_integrity_violation_on_previous_run true s.known;
          violations = s.violations + 1;
        },
        rw (loaded, missing, single, exists, strict),
        record { reported = refl; remembered = refl },
      )
