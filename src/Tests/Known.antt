-- ===== src/Tests/Known.antt =====
-- The known versions: two clients, two blocks.
use libcryfs.Common.{
  ℕ, ◌-◌, ◌^◌, ◌≡◌, refl, true, false, none, some, [], ◌∷◌, arith, replicate, length-replicate,
}
use libcryfs.Common.Equality.{bytes_eq, nat_eq}
use libcryfs.Common.Result.{ok}
use libcryfs.Common.Bytes.{Data, BlockId}
use libcryfs.Common.Assoc.{find, insert, assign}
use libcryfs.Integrity.KnownBlockVersions.{
  ClientIdAndBlockId, key_eq, KnownBlockVersions, update_version, check_and_update_version,
  increment_version, mark_block_as_deleted,
}
use libcryfs.Integrity.KnownBlockVersions.Versions.{known_version}
use libcryfs.Integrity.KnownBlockVersions.Rollback.{
  IsBounded, here, check_older, check_deleted, check_overwritten,
  increment_version-check_and_update_version,
}
use libcryfs.Integrity.KnownBlockVersions.StateFile.{save_state_file, create}
use libcryfs.Integrity.KnownBlockVersions.StateFile.Written.{IsStorable}
use libcryfs.Integrity.KnownBlockVersions.StateFile.RoundTrip.{loaded, create-save_state_file}

abbrev block : BlockId
block = replicate 16 170

abbrev key : ℕ → ClientIdAndBlockId
key c = record { client_id = c; block_id = block }

-- Client 7, this one, knows version 4 of the block from client 9, which wrote it last, and its own
-- version 2.
abbrev known : KnownBlockVersions
known = record {
  integrity_violation_on_previous_run = false;
  known_versions = (key 7, 2) ∷ (key 9, 4) ∷ [];
  last_update_client_id = (block, 9) ∷ [];
  my_client_id = 7;
  valid = true;
}

program : Unit {0}
unfolding update_version check_and_update_version increment_version mark_block_as_deleted
    known_version find insert assign key_eq bytes_eq
program = tt

known-IsBounded : IsBounded known
unfolding known_version find
known-IsBounded c b = ground arith

accepts_newer : (update_version 9 block 5 known).0 ≡ true
unfolding program
accepts_newer = refl

abbrev after_six : KnownBlockVersions
after_six = record known { known_versions = (key 7, 2) ∷ (key 9, 6) ∷ [] }

check_older_example :
    check_and_update_version 9 block 5 after_six
    ≡ ok (false, (update_version 9 block 5 after_six).1)
unfolding program
check_older_example =
    check_older 9 block known (omega arith) known-IsBounded here 6 5 (omega arith) refl
      (omega arith) (omega arith)

check_deleted_example :
    check_and_update_version 9 block 4 (mark_block_as_deleted block known)
    ≡ ok (false, (update_version 9 block 4 (mark_block_as_deleted block known)).1)
unfolding program
check_deleted_example =
    check_deleted 9 block known (omega arith) known-IsBounded here 4 refl refl (omega arith)
      (omega arith)

abbrev written : KnownBlockVersions
written = record known {
  known_versions = (key 7, 3) ∷ (key 9, 4) ∷ [];
  last_update_client_id = (block, 7) ∷ [];
}

check_overwritten_example :
    check_and_update_version 9 block 4 written ≡ ok (false, (update_version 9 block 4 written).1)
unfolding program
check_overwritten_example =
    check_overwritten 9 block known (omega arith) known-IsBounded here 3 4 refl (omega arith) refl
      (omega arith) (omega arith)

increment_version-check_and_update_version_example :
    (s t : KnownBlockVersions) × (check_and_update_version 7 block (2 ^ 64 - 1) known
      ≡ ok (true, s))
    × (increment_version block s ≡ ok (0, t))
    × (known_version 7 block t ≡ 0)
unfolding program
increment_version-check_and_update_version_example =
    increment_version-check_and_update_version block known refl (λ h. absurd (omega (arith, h)))
      (omega arith)

abbrev allocate : ℕ → Data
allocate n = replicate n 205

known-IsStorable : IsStorable known
unfolding program
known-IsStorable = record {
  client = omega arith;
  versions = omega arith;
  clients = omega arith;
  distinct_versions = (refl, (refl, tt));
  distinct_clients = (refl, tt);
  small = omega arith;
}

create-save_state_file_example :
    (file : Data) × (save_state_file allocate known ≡ ok file)
    × (create allocate 7 (some file) ≡ ok (loaded known false, none))
create-save_state_file_example =
    create-save_state_file allocate (λ n. length-replicate n 205) known known-IsStorable
