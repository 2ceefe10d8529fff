-- ===== src/Tests/Store.antt =====
-- The integrity layer over the store in memory: two blocks, one of them written.
use libcryfs.Common.{
  ℕ, ◌≡◌, refl, true, false, none, some, [], ◌∷◌, arith, length, replicate, length-replicate,
}
use libcryfs.Common.Equality.{bytes_eq}
use libcryfs.Common.Result.{ok}
use libcryfs.Common.Bytes.{Data, BlockId, encode}
use libcryfs.Common.Assoc.{find, insert, assign}
use libcryfs.BlockStore.{changed, is_some}
use libcryfs.BlockStore.InMemory.Lawful.{in_memory_block_store, contents, in_memory-IsLawful}
use libcryfs.Integrity.KnownBlockVersions.{ClientIdAndBlockId, key_eq, update_version}
use libcryfs.Integrity.KnownBlockVersions.{block_should_exist}
use libcryfs.Integrity.KnownBlockVersions.Versions.{known_version, last_client}
use libcryfs.Integrity.Store
use libcryfs.Integrity.Store.{IntegrityBlockStore2}
use libcryfs.Integrity.Store.Header.{layout}
use libcryfs.Integrity.Store.Consistent.{content, IsConsistent, Leaves}
use libcryfs.Integrity.Store.Refinement.{
  store-Leaves, load-Leaves, remove-Leaves, try_create-Leaves,
}
use libcryfs.Integrity.Store.Attacks.{Reports, load_renamed}
use libcryfs.Integrity.Store.Existing.{load-try_create_existing}

abbrev block_a : BlockId
block_a = replicate 16 170

abbrev block_b : BlockId
block_b = replicate 16 187

abbrev hello : Data
hello = 104 ∷ 105 ∷ []

abbrev key : ClientIdAndBlockId
key = record { client_id = 7; block_id = block_a }

abbrev State : Type 0
State = IntegrityBlockStore2 in_memory_block_store

-- Client 7 has written version 1 of the first block.
abbrev filled : State
filled = record {
  base = (block_a, layout block_a 7 1 hello) ∷ [];
  known = record {
    integrity_violation_on_previous_run = false;
    known_versions = (key, 1) ∷ [];
    last_update_client_id = (block_a, 7) ∷ [];
    my_client_id = 7;
    valid = true;
  };
  allow_integrity_violations = false;
  missing_block_is_integrity_violation = true;
  violations = 0;
}

program : Unit {0}
unfolding known_version last_client update_version block_should_exist find insert assign key_eq
    bytes_eq
program = tt

filled-IsConsistent : IsConsistent contents filled
unfolding known_version last_client find
filled-IsConsistent = record {
  client = omega arith;
  client_fits = omega arith;
  valid = refl;
  bounded = λ c b. ground arith;
  written = λ b block size found.
      let same : b ≡ block_a = ground (arith, bytes_eq.beq_iff b block_a) in
      (
        hello,
        ground (arith, key_eq.beq_iff (record { client_id = 7; block_id = b }) key),
        ground (arith, bytes_eq.beq_iff b block_a),
        ground (arith, key_eq.beq_iff (record { client_id = 7; block_id = b }) key),
      );
  absent = λ b size missing. ground arith;
}

abbrev allocate : ℕ → Data
allocate n = replicate n 205

allocates : (n : ℕ) → length (allocate n) ≡ n
allocates n = length-replicate n 205

store-Leaves_example :
    (t : State) × (Store.store allocate block_b hello filled ≡ ok t)
    × Leaves contents filled t (changed block_b (some hello) (content contents filled))
unfolding program
store-Leaves_example =
    store-Leaves allocate allocates in_memory-IsLawful filled filled-IsConsistent block_b refl hello
      (omega arith) (omega arith)

load-Leaves_example :
    (t : State) × (Store.load allocate block_a filled ≡ ok (content contents filled block_a, t))
    × Leaves contents filled t (content contents filled)
load-Leaves_example =
    load-Leaves allocate allocates in_memory-IsLawful filled filled-IsConsistent block_a refl

remove-Leaves_example :
    (t : State) × (Store.remove block_a filled ≡ ok (is_some (content contents filled block_a), t))
    × Leaves contents filled t (changed block_a none (content contents filled))
remove-Leaves_example =
    remove-Leaves allocate allocates in_memory-IsLawful filled filled-IsConsistent block_a refl

try_create-Leaves_example :
    (t : State) × (Store.try_create allocate block_b hello filled ≡ ok (true, t))
    × Leaves contents filled t (changed block_b (some hello) (content contents filled))
unfolding program
try_create-Leaves_example =
    try_create-Leaves allocate allocates in_memory-IsLawful filled filled-IsConsistent block_b refl
      hello refl (omega arith) (omega arith)

load-try_create_existing_example :
    (t : State) × (u : State) × (Store.try_create allocate block_a hello filled ≡ ok (false, t))
    × (Store.load allocate block_a t ≡ ok (none, u))
    × Reports filled u
unfolding program encode
load-try_create_existing_example =
    load-try_create_existing allocate allocates in_memory-IsLawful filled filled-IsConsistent
      block_a hello hello refl refl refl (omega arith) (omega arith)

-- The second block's place holds the first block.
abbrev renamed : State
renamed = record filled { base = (block_b, layout block_a 7 1 hello) ∷ [] }

load_renamed_example :
    (t : State) × (Store.load allocate block_b renamed ≡ ok (none, t)) × Reports renamed t
unfolding program
load_renamed_example =
    load_renamed allocate in_memory-IsLawful renamed refl block_b refl block_a 7 1 hello refl
      (λ e. ground arith) refl

-- The first block's place holds what another client wrote before.
abbrev replaced : State
replaced = record filled {
  base = (block_a, layout block_a 9 3 hello) ∷ [];
  known = record filled.known {
    known_versions = (record { client_id = 9; block_id = block_a }, 3) ∷ (key, 1) ∷ [];
  };
}

abbrev emptied : State
emptied = record filled { base = [] }
