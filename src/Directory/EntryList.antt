-- ===== src/Directory/EntryList.antt =====
-- `DirEntryList` (DirEntryList.cpp): a vector of entries that is ordered by their block ids. An
-- iterator is its position, the end the number of entries. `start` is the computation in floating
-- point of the position where a search starts, from the first byte of the block id and the number of
-- entries. `onOverwritten` does not see the list: it is a function on a state `X` of its own, which
-- may throw, and what it has changed stays where an exception follows. What an operation that throws
-- leaves of the list is not modelled.
use libcryfs.Common.{
  ℕ, zero, suc, ◌+◌, ◌-◌, ◌^◌, Bool, true, false, not, ◌&&◌, ◌||◌, Option, none, some, List, [],
  ◌∷◌, ◌++◌, ltb, if◌then◌else◌, length, take, drop, get_elem?,
}
use libcryfs.Common.Equality.{◌==◌, nat_eq, bytes_eq}
use libcryfs.Common.Result.{Result, ok, err, guard, assert_failed, fuse_errno, ◌>>=◌, ◌>>◌}
use libcryfs.Common.Bytes.{Data, BlockId}
use libcryfs.Directory.Entry.{
  EntryType, dir, file, symlink, same_type, Time, DirEntry, has_file_flag, has_dir_flag,
  has_symlink_flag, Attributes, new_entry, set_name, set_uid, set_gid, set_last_access_time,
  set_last_modification_time,
}
use libcryfs.Directory.Entry

-- The class's state.
abbrev pub DirEntryList : Type 0
DirEntryList = List DirEntry

abbrev pub no_entry : ℕ
no_entry = 2

abbrev pub exists : ℕ
exists = 17

abbrev pub not_a_directory : ℕ
not_a_directory = 20

abbrev pub is_a_directory : ℕ
is_a_directory = 21

-- `std::less<BlockId>`: `memcmp` of the bytes.
abbrev pub less : BlockId → BlockId → Bool
less [] ys = false
less (x ∷ xs) [] = false
less (x ∷ xs) (y ∷ ys) = ltb x y || (x == y && less xs ys)

abbrev pub first_byte : Data → ℕ
first_byte [] = 0
first_byte (b ∷ bs) = b

-- The distance from the first entry to the first one that satisfies a test, or to the end.
unfoldable pub distance : (DirEntry → Bool) → DirEntryList → ℕ
distance test [] = 0
distance test (e ∷ es) = let rest = distance test es in if test e then 0 else suc rest

-- The loop of `_findFirst` that goes back.
unfoldable pub step_back : (DirEntry → Bool) → DirEntryList → ℕ → ℕ
step_back test es zero = zero
step_back test es (suc i) =
    let before = step_back test es i in
    elim (get_elem? es (suc i)) [ none ↦ suc i | some e ↦ if test e then before else suc i ]

abbrev pub erase_at : ℕ → DirEntryList → DirEntryList
erase_at i es = take i es ++ drop (suc i) es

abbrev pub replace_at : ℕ → DirEntry → DirEntryList → DirEntryList
replace_at i e es = take i es ++ (e ∷ drop (suc i) es)

unfoldable pub find_by_name : Data → DirEntryList → ℕ
find_by_name name es = distance (λ e. e.name == name) es

unfoldable pub check_allowed_overwrite : EntryType → EntryType → Result (Unit {0})
check_allowed_overwrite old new =
    if same_type old new
    then ok tt
    else if same_type old dir
    then err (fuse_errno is_a_directory)
    else if same_type new dir
    then err (fuse_errno not_a_directory)
    else ok tt

unfoldable pub get_by_name : Data → DirEntryList → Option DirEntry
get_by_name name es = get_elem? es (find_by_name name es)

unfoldable pub remove_by_name : Data → DirEntryList → Result (DirEntryList)
remove_by_name name es = elim (get_by_name name es) [
  | none ↦ err (fuse_errno no_entry)
  | some e ↦ ok (erase_at (find_by_name name es) es)
]

module _ (start : ℕ → ℕ → ℕ) where
  unfoldable pub find_first : BlockId → (DirEntry → Bool) → DirEntryList → Result ℕ
  find_first hint test [] = ok 0
  find_first hint test (e ∷ es) = do
    let i = start (first_byte hint) (suc (length es))
    guard (ltb i (suc (length es))) assert_failed
    let j = step_back test (e ∷ es) i
    ok (j + distance test (drop j (e ∷ es)))

  unfoldable pub find_lower_bound : BlockId → DirEntryList → Result ℕ
  find_lower_bound block_id = find_first block_id (λ e. not (less e.block_id block_id))

  unfoldable pub find_upper_bound : BlockId → DirEntryList → Result ℕ
  find_upper_bound block_id = find_first block_id (λ e. less block_id e.block_id)

  -- The position and the entry that stands there; `none` for the end.
  unfoldable pub find_by_id : BlockId → DirEntryList → Result (Option (ℕ × DirEntry))
  find_by_id block_id es = do
    i ← find_lower_bound block_id es
    ok (elim (get_elem? es i) [
      | none ↦ none
      | some e ↦ if e.block_id == block_id then some (i, e) else none
    ])

  -- `_findById`, and the exception of the operations that need the entry.
  unfoldable pub existing_by_id : BlockId → DirEntryList → Result (ℕ × DirEntry)
  existing_by_id block_id es = do
    found ← find_by_id block_id es
    elim found [ none ↦ err (fuse_errno no_entry) | some at ↦ ok at ]

  -- `_add`
  unfoldable pub add_entry :
      Data → BlockId → Attributes → Time → DirEntryList → Result (DirEntryList)
  add_entry name block_id a now es = do
    i ← find_upper_bound block_id es
    e ← new_entry name block_id a now
    ok (take i es ++ (e ∷ drop i es))

  unfoldable pub add : Data → BlockId → Attributes → Time → DirEntryList → Result (DirEntryList)
  add name block_id a now es = elim (get_by_name name es) [
    | some e ↦ err (fuse_errno exists)
    | none ↦ add_entry name block_id a now es
  ]

  -- `_overwrite`
  unfoldable pub overwrite :
      ℕ → DirEntry → Data → BlockId → Attributes → Time → DirEntryList → Result (DirEntryList)
  overwrite i old name block_id a now es = do
    check_allowed_overwrite old.entry_type a.entry_type
    add_entry name block_id a now (erase_at i es)

  unfoldable pub add_or_overwrite :
      {X : Type 0}
      → Data
      → BlockId
      → Attributes
      → Time
      → (BlockId → X → Result (Unit {0}) × X)
      → X
      → DirEntryList
      → Result DirEntryList × X
  add_or_overwrite name block_id a now on_overwritten x es = elim (get_by_name name es) [
    | none ↦ (add_entry name block_id a now es, x)
    | some old ↦
        let (called, x') = on_overwritten old.block_id x in
        (do called; overwrite (find_by_name name es) old name block_id a now es, x')
  ]

  -- The end of `rename`.
  unfoldable pub set_name_by_id : BlockId → Data → Time → DirEntryList → Result (DirEntryList)
  set_name_by_id block_id name now es = do
    (i, found) ← existing_by_id block_id es
    ok (replace_at i (set_name now name found) es)

  -- The tests of `rename` in front of the callback.
  unfoldable pub check_rename : BlockId → DirEntry → DirEntryList → Result (Unit {0})
  check_rename block_id same_name es = do
    (i, found) ← existing_by_id block_id es
    check_allowed_overwrite same_name.entry_type found.entry_type

  unfoldable pub rename :
      {X : Type 0}
      → BlockId
      → Data
      → Time
      → (BlockId → X → Result (Unit {0}) × X)
      → X
      → DirEntryList
      → Result DirEntryList × X
  rename block_id name now on_overwritten x es = elim (get_by_name name es) [
    | none ↦ (set_name_by_id block_id name now es, x)
    | some same_name ↦ elim (same_name.block_id == block_id) [
      | true ↦ (set_name_by_id block_id name now es, x)
      | false ↦ elim (check_rename block_id same_name es) [
        | err thrown ↦ (err thrown, x)
        | ok _ ↦
            let (called, x') = on_overwritten same_name.block_id x in
            (do called; set_name_by_id block_id name now (erase_at (find_by_name name es) es), x')
      ]
    ]
  ]

  unfoldable pub get_by_id : BlockId → DirEntryList → Result (Option DirEntry)
  get_by_id block_id es = do
    found ← find_by_id block_id es
    ok (elim found [ none ↦ none | some at ↦ some at.1 ])

  unfoldable pub remove_by_id : BlockId → DirEntryList → Result (DirEntryList)
  remove_by_id block_id es = do
    lower ← find_lower_bound block_id es
    let upper = lower + distance (λ e. not (e.block_id == block_id)) (drop lower es)
    ok (take lower es ++ drop upper es)

  unfoldable pub set_mode : BlockId → ℕ → Time → DirEntryList → Result (DirEntryList)
  set_mode block_id mode now es = do
    (i, found) ← existing_by_id block_id es
    guard
        ((has_file_flag mode && has_file_flag found.mode)
          || (has_dir_flag mode && has_dir_flag found.mode)
          || has_symlink_flag mode)
        assert_failed
    ok (replace_at i (Entry.set_mode now mode found) es)

  -- An id of -1 is left as it is.
  unfoldable pub set_uid_gid : BlockId → ℕ → ℕ → Time → DirEntryList → Result (Bool × DirEntryList)
  set_uid_gid block_id uid gid now es = do
    (i, found) ← existing_by_id block_id es
    let keep_uid = uid == 2 ^ 32 - 1
    let keep_gid = gid == 2 ^ 32 - 1
    let with_uid = if keep_uid then found else set_uid now uid found
    let with_gid = if keep_gid then with_uid else set_gid now gid with_uid
    ok (not keep_uid || not keep_gid, replace_at i with_gid es)

  unfoldable pub set_access_times :
      BlockId → Time → Time → Time → DirEntryList → Result (DirEntryList)
  set_access_times block_id access modification now es = do
    (i, found) ← existing_by_id block_id es
    let accessed = set_last_access_time access found
    ok (replace_at i (set_last_modification_time now modification accessed) es)

  -- The two tests of the `TimestampUpdateBehavior`, which are given the time of the last access, that
  -- of the last modification, and the present one.
  unfoldable pub update_access_timestamp_for_child :
      (Time → Time → Time → Bool)
      → (Time → Time → Time → Bool)
      → BlockId
      → Time
      → DirEntryList
      → Result (Bool × DirEntryList)
  update_access_timestamp_for_child on_file_read on_directory_read block_id now es = do
    (i, found) ← existing_by_id block_id es
    let test : Time → Time → Time → Bool =
        if same_type found.entry_type dir then on_directory_read else on_file_read
    ok (
        if test found.last_access_time found.last_modification_time now
        then (true, replace_at i (set_last_access_time now found) es)
        else (false, es))

  unfoldable pub update_modification_timestamp_for_child :
      BlockId → Time → DirEntryList → Result (DirEntryList)
  update_modification_timestamp_for_child block_id now es = do
    (i, found) ← existing_by_id block_id es
    ok (replace_at i (set_last_modification_time now now found) es)
