-- ===== src/Tests/Directory.antt =====
-- A directory with two files.
use libcryfs.Common.{ℕ, suc, ◌/◌, ◌<◌, ◌≡◌, refl, none, some, List, [], ◌∷◌, arith, replicate}
use libcryfs.Common.Equality.{bytes_eq}
use libcryfs.Common.Result.{Result, ok, err, fuse_errno}
use libcryfs.Common.Bytes.{Data, BlockId, codes, encode}
use libcryfs.Directory.Entry.{dir, file, Time, DirEntry, Attributes, new_entry}
use libcryfs.Directory.EntryList.{
  distance, step_back, find_by_name, get_by_name, add_entry, add, add_or_overwrite, not_a_directory,
  find_upper_bound, find_first, get_by_id, overwrite, check_allowed_overwrite, rename, check_rename,
  existing_by_id, find_by_id, find_lower_bound,
}
use libcryfs.Directory.Search.{lookup, get_by_id-lookup}
use libcryfs.Directory.Names.{get_by_name-add}
use libcryfs.Directory.Renaming.{rename-err}
use libcryfs.Common.{length-replicate}
use libcryfs.Directory.Operations.{Reachable, empty, next, added, Reachable-IsOrdered}
use libcryfs.Directory.Sorted.{IsOrdered}
use libcryfs.Directory.Serialized.{serialize, deserialize_from}
use libcryfs.Directory.Serialized.Written.{IsValid}
use libcryfs.Directory.Serialized.RoundTrip.{deserialize_from-serialize}

abbrev time : Time
time = record { seconds = 1; nanoseconds = 2 }

abbrev id : ℕ → BlockId
id n = replicate 16 n

abbrev entry : ℕ → Data → DirEntry
entry n name = record {
  entry_type = file;
  name = name;
  block_id = id n;
  mode = 33188;
  uid = 1;
  gid = 1;
  last_access_time = time;
  last_modification_time = time;
  last_metadata_change_time = time;
}

abbrev two_files : List DirEntry
two_files = entry 3 (codes "a") ∷ entry 200 (codes "b") ∷ []

-- In the middle, whatever the block id.
abbrev middle : ℕ → ℕ → ℕ
middle b n = n / 2

middle-lt : (b n : ℕ) → 0 < n → middle b n < n
middle-lt b n h = omega (arith, h)

get_by_id-lookup_example : get_by_id middle (id 3) two_files ≡ ok (lookup (id 3) two_files)
get_by_id-lookup_example = get_by_id-lookup middle middle-lt two_files ((refl, tt), (tt, tt)) (id 3)

abbrev attributes : Attributes
attributes = record {
  entry_type = dir;
  mode = 493;
  uid = 1;
  gid = 1;
  last_access_time = time;
  last_modification_time = time;
}

abbrev new_directory : DirEntry
new_directory = record {
  entry_type = dir;
  name = codes "c";
  block_id = id 100;
  mode = 16877;
  uid = 1;
  gid = 1;
  last_access_time = time;
  last_modification_time = time;
  last_metadata_change_time = time;
}

abbrev three : List DirEntry
three = entry 3 (codes "a") ∷ new_directory ∷ entry 200 (codes "b") ∷ []

get_by_name-add_example :
    (get_by_name (codes "c") two_files ≡ none)
    × (e : DirEntry) × (get_by_name (codes "c") three ≡ some e)
    × (e.block_id ≡ id 100)
    × (e.entry_type ≡ dir)
unfolding add add_entry new_entry find_upper_bound find_first step_back distance get_by_name
    find_by_name bytes_eq
get_by_name-add_example =
    get_by_name-add middle (codes "c") (id 100) attributes time two_files three refl

-- A callback that counts its calls.
abbrev count_call : BlockId → ℕ → Result (Unit {0}) × ℕ
count_call b n = (ok tt, suc n)

-- `add_or_overwrite` of a directory over a file calls back and throws then.
add_or_overwrite_calls_back :
    add_or_overwrite middle (codes "b") (id 100) attributes time count_call 0 two_files
    ≡ (err (fuse_errno not_a_directory), 1)
unfolding add_or_overwrite overwrite check_allowed_overwrite get_by_name find_by_name distance
    bytes_eq
add_or_overwrite_calls_back = refl

-- A directory that is to take the name of a file.
rename-err_example :
    rename middle (id 100) (codes "b") time count_call 0 three
    ≡ (err (fuse_errno not_a_directory), 0)
unfolding rename check_rename existing_by_id find_by_id find_lower_bound find_first step_back
    check_allowed_overwrite get_by_name find_by_name distance bytes_eq
rename-err_example =
    rename-err middle middle-lt (id 100) (codes "b") time count_call 0 three
      (fuse_errno not_a_directory)
      (((refl, (refl, tt)), ((refl, tt), (tt, tt))), (refl, (refl, (refl, tt)))) (λ a y. refl) refl

new_directory-Reachable : Reachable middle (new_directory ∷ [])
unfolding add add_entry new_entry find_upper_bound find_first step_back distance get_by_name
    find_by_name bytes_eq
new_directory-Reachable = next empty (added (codes "c") (id 100) attributes time refl refl refl)

Reachable-IsOrdered_example : IsOrdered (new_directory ∷ [])
Reachable-IsOrdered_example = Reachable-IsOrdered middle middle-lt new_directory-Reachable

entry-IsValid : (n : ℕ) → IsValid (entry n (codes "ab"))
entry-IsValid n = record {
  flag = refl;
  mode_fits = omega arith;
  uid_fits = omega arith;
  gid_fits = omega arith;
  access_fits = (omega arith, omega arith);
  modification_fits = (omega arith, omega arith);
  change_fits = (omega arith, omega arith);
  text = (ground arith, (ground arith, tt));
  id_size = refl;
}

abbrev written : List DirEntry
written = entry 3 (codes "ab") ∷ entry 200 (codes "ab") ∷ []

deserialize_from-serialize_example :
    (bytes : Data) × (serialize (λ n. replicate n 205) written ≡ ok bytes)
    × (deserialize_from bytes ≡ some (ok written))
unfolding encode
deserialize_from-serialize_example =
    deserialize_from-serialize (λ n. replicate n 205) (λ n. length-replicate n 205) written
      (entry-IsValid 3, (entry-IsValid 200, tt)) (refl, (refl, tt)) (omega arith)
