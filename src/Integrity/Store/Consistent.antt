-- ===== src/Integrity/Store/Consistent.antt =====
-- The state without an attacker: over a lawful store each block is the one that this client wrote
-- last.

use libcryfs.Common.{
  ℕ, ◌+◌, ◌-◌, ◌%◌, ◌^◌, ◌<◌, ◌≡◌, ◌≢◌, refl, ◌∙◌, true, Option, none, some, arith, length, drop,
  Bool-cases, inl, inr,
}
use libcryfs.Common.Equality.{◌==◌, bytes_eq, nat_eq}
use libcryfs.Common.Result.{ok}
use libcryfs.Common.Bytes.{Data, BlockId, block_id_length, width}
use libcryfs.BlockStore.{BlockStore2, changed}
use libcryfs.Integrity.KnownBlockVersions.{
  KnownBlockVersions, increment_version, mark_block_as_deleted,
}
use libcryfs.Integrity.KnownBlockVersions.Versions.{
  known_version, last_client, increment_version-eq, known-increment_version, last-increment_version,
  known-mark_block_as_deleted, last-mark_block_as_deleted,
}
use libcryfs.Integrity.KnownBlockVersions.Rollback.{IsBounded}
use libcryfs.Integrity.Store.{IntegrityBlockStore2, header_length}
use libcryfs.Integrity.Store.Header.{layout, drop-layout}

-- The contents without their headers.
abbrev pub without_header : Option Data → Option Data
without_header none = none
without_header (some block) = some (drop header_length block)

module _ {S : BlockStore2} (contents : S.State → BlockId → Option Data) where
  abbrev pub content : IntegrityBlockStore2 S → BlockId → Option Data
  content s b = without_header (contents s.base b)

  -- This client is the only writer, and the base store holds what it wrote last.
  pub record IsConsistent (s : IntegrityBlockStore2 S) : Type 0 where
    pub client : s.known.my_client_id ≢ 0
    pub client_fits : s.known.my_client_id < width 4
    pub valid : s.known.valid ≡ true
    pub bounded : IsBounded s.known
    pub written :
        (b : BlockId) (block : Data)
        → length b ≡ block_id_length
        → contents s.base b ≡ some block
        → (d : Data) × (block
            ≡ layout b s.known.my_client_id (known_version s.known.my_client_id b s.known) d)
          × (last_client b s.known ≡ s.known.my_client_id)
          × (0 < known_version s.known.my_client_id b s.known)
    pub absent :
        (b : BlockId)
        → length b ≡ block_id_length
        → contents s.base b ≡ none
        → last_client b s.known ≡ 0

  -- What an operation leaves: the contents that it should, and no violation.
  pub record Leaves (s t : IntegrityBlockStore2 S) (expected : BlockId → Option Data) : Type 0 where
    pub consistent : IsConsistent t
    pub holds : (a : BlockId) → content t a ≡ expected a
    pub quiet : t.violations ≡ s.violations

  -- A write of a block with the next version.
  pub written-IsConsistent :
      (s : IntegrityBlockStore2 S) (b : BlockId) (d : Data)
      → length b ≡ block_id_length
      → IsConsistent s
      → {v : ℕ} {known : KnownBlockVersions} → increment_version b s.known ≡ ok (v, known)
      → (base : S.State)
      → ((a : BlockId)
          → contents base a
            ≡ changed b (some (layout b s.known.my_client_id v d)) (contents s.base) a)
      → Leaves s (record s { base = base; known = known }) (changed b (some d) (content s))
  written-IsConsistent s b d size c {v} {known} e base h = record {
    consistent = record {
      client = ground (arith, facts, c.client);
      client_fits = ground (arith, facts, c.client_fits);
      valid = facts.3 ∙ c.valid;
      bounded = λ d a. ground (
        arith,
        facts,
        known-increment_version b s.known e d a,
        c.bounded d a,
        c.bounded s.known.my_client_id b,
      );
      written = λ a block size' found. elim (Bool-cases (a == b)) [
        | inl same ↦ (
          d,
          ground (
            arith,
            h a,
            (bytes_eq.beq_iff a b).0 same,
            facts,
            known-increment_version b s.known e known.my_client_id a,
          ),
          ground (arith, facts, last-increment_version b s.known e a),
          ground (
            arith,
            facts,
            known-increment_version b s.known e known.my_client_id a,
            c.bounded s.known.my_client_id b,
          ),
        )
        | inr other ↦
            let (d', block', last, positive) = c.written a block size' (ground (arith, h a)) in
            (
              d',
              ground (arith, facts, known-increment_version b s.known e known.my_client_id a),
              ground (arith, facts, last-increment_version b s.known e a),
              ground (arith, facts, known-increment_version b s.known e known.my_client_id a),
            )
      ];
      absent = λ a size' missing.
          ground (arith, h a, last-increment_version b s.known e a, c.absent a size');
    };
    holds = λ a. ground (arith, h a, drop-layout b size s.known.my_client_id v d);
    quiet = refl;
  }
    where
      facts :
          (v ≡ (known_version s.known.my_client_id b s.known + 1) % 2 ^ 64)
          × (v ≢ 2 ^ 64 - 1)
          × (known.my_client_id ≡ s.known.my_client_id)
          × (known.valid ≡ s.known.valid)
      facts = increment_version-eq b s.known e

  -- A change that is not seen in the base store nor in the known versions.
  pub kept-IsConsistent :
      (s : IntegrityBlockStore2 S)
      → IsConsistent s
      → (base : S.State) (known : KnownBlockVersions)
      → ((a : BlockId) → contents base a ≡ contents s.base a)
      → known.my_client_id ≡ s.known.my_client_id
      → known.valid ≡ s.known.valid
      → ((d : ℕ) (a : BlockId) → known_version d a known ≡ known_version d a s.known)
      → ((a : BlockId) → last_client a known ≡ last_client a s.known)
      → Leaves s (record s { base = base; known = known }) (content s)
  kept-IsConsistent s c base known h my live versions lasts = record {
    consistent = record {
      client = ground (arith, c.client);
      client_fits = ground (arith, c.client_fits);
      valid = live ∙ c.valid;
      bounded = λ d a. ground (arith, versions d a, c.bounded d a);
      written = λ a block size found.
          let (d, block', last, positive) = c.written a block size (ground (arith, h a)) in
          (
            d,
            ground (arith, versions known.my_client_id a),
            ground (arith, lasts a),
            ground (arith, versions known.my_client_id a),
          );
      absent = λ a size missing. ground (arith, h a, lasts a, c.absent a size);
    };
    holds = λ a. ground (arith, h a);
    quiet = refl;
  }

  -- A block that is removed.
  pub removed-IsConsistent :
      (s : IntegrityBlockStore2 S) (b : BlockId)
      → IsConsistent s
      → (base : S.State) → ((a : BlockId) → contents base a ≡ changed b none (contents s.base) a)
      → Leaves s
          (record s { base = base; known = mark_block_as_deleted b s.known })
          (changed b none (content s))
  unfolding mark_block_as_deleted
  removed-IsConsistent s b c base h = record {
    consistent = record {
      client = c.client;
      client_fits = c.client_fits;
      valid = c.valid;
      bounded = λ d a. ground (arith, known-mark_block_as_deleted b d a s.known, c.bounded d a);
      written = λ a block size found.
          let (d, block', last, positive) = c.written a block size (ground (arith, h a)) in
          (
            d,
            ground (arith, known-mark_block_as_deleted b s.known.my_client_id a s.known),
            ground (arith, h a, last-mark_block_as_deleted b a s.known),
            ground (arith, known-mark_block_as_deleted b s.known.my_client_id a s.known),
          );
      absent = λ a size missing.
          ground (arith, h a, last-mark_block_as_deleted b a s.known, c.absent a size);
    };
    holds = λ a. ground (arith, h a);
    quiet = refl;
  }
