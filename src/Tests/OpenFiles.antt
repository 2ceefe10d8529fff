-- ===== src/Tests/OpenFiles.antt =====
-- Open files: two opened files, one request.
use libcryfs.Common.{ℕ, ◌≡◌, refl, none, some, [], ◌∷◌}
use libcryfs.Common.Equality.{nat_eq}
use libcryfs.Common.Result.{ok, err, out_of_range, fuse_errno}
use libcryfs.Common.Assoc.{Assoc, find, insert, assign, erase}
use libcryfs.OpenFiles.{
  FuseOpenFileList, add, get, remove, open_file, begin_load, end_load, close, new_id_list,
  new_open_file_list, bad_descriptor,
}
use libcryfs.OpenFiles.Pending.{pending_on, System, Reach, here, next, opens, begins}
use libcryfs.OpenFiles.Invariant.{initial}
use libcryfs.OpenFiles.Safety.{pending-close, close-begin_load, open_file-begin_load}

-- A file is its number.
abbrev table : Assoc ℕ ℕ → FuseOpenFileList ℕ
table refcounts = record {
  open_files = record { entries = (1, 70) ∷ (2, 80) ∷ []; id_counter = 2 };
  refcounts = refcounts;
}

abbrev one_open : System ℕ
one_open = record {
  table = record {
    open_files = record { entries = (1, 70) ∷ []; id_counter = 1 };
    refcounts = (1, 0) ∷ [];
  };
  pending = [];
}

abbrev two_open : System ℕ
two_open = record { table = table ((1, 0) ∷ (2, 0) ∷ []); pending = [] }

abbrev one_pending : System ℕ
one_pending = record { table = table ((1, 0) ∷ (2, 1) ∷ []); pending = (2, 80) ∷ [] }

open_program : Unit {0}
unfolding open_file begin_load end_load close add get remove new_id_list new_open_file_list initial
    find insert assign erase
open_program = tt

two_open-Reach : Reach initial two_open
unfolding open_program
two_open-Reach = next {t = one_open} (next here (opens 70 1 refl refl)) (opens 80 2 refl refl)

one_pending-Reach : Reach initial one_pending
unfolding open_program
one_pending-Reach = next two_open-Reach (begins 2 80 refl refl)

pending-close_example :
    (get 2 one_pending.table.open_files ≡ ok 80)
    × (close 2 one_pending.table ≡ ok none)
    × (u : FuseOpenFileList ℕ) × (end_load 2 one_pending.table ≡ ok u)
    × (find 2 u.refcounts ≡ some (pending_on {OpenFile = ℕ} 2 []))
pending-close_example = pending-close one_pending-Reach [] [] 2 80 refl

close-begin_load_example :
    (u : FuseOpenFileList ℕ) × (close 1 one_pending.table ≡ ok (some u))
    × (begin_load 1 u ≡ err (fuse_errno bad_descriptor))
unfolding open_program
close-begin_load_example = close-begin_load one_pending-Reach 1 70 refl refl

open_file-begin_load_example :
    (get 2 one_open.table.open_files ≡ err out_of_range)
    × (v : FuseOpenFileList ℕ) × (begin_load 2 two_open.table ≡ ok (80, v))
unfolding open_program
open_file-begin_load_example =
    open_file-begin_load (next here (opens 70 1 refl refl)) 80 2 two_open.table refl
