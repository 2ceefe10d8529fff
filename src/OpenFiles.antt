-- ===== src/OpenFiles.antt =====
-- The table of open files (src/fspp/impl/IdList.h and FuseOpenFileList.h). An entry is the pointer
-- that it keeps, of any type. What a thread does while it holds the mutex is one step: `load` is the
-- step before its callback and the step after it.
pub mod Pending
pub mod Invariant
pub mod Safety
use libcryfs.Common.{
  ℕ, ◌+◌, ◌-◌, ◌^◌, Bool, true, false, ◌&&◌, Option, none, some, [], ◌∷◌, ltb, if◌then◌else◌,
  length,
}
use libcryfs.Common.Equality.{◌==◌, nat_eq}
use libcryfs.Common.Result.{
  Result, ok, err, guard, assert_failed, out_of_range, undefined, fuse_errno, ◌>>=◌, ◌>>◌,
}
use libcryfs.Common.Assoc.{Assoc, find, assign, insert, erase}

pub record IdList (Entry : Type 0) : Type 0 where
  pub entries : Assoc ℕ Entry
  pub id_counter : ℕ

-- `EBADF`
abbrev pub bad_descriptor : ℕ
bad_descriptor = 9

abbrev all_zero : Assoc ℕ ℕ → Bool
all_zero [] = true
all_zero ((descriptor, refcount) ∷ m) = refcount == 0 && all_zero m

module _ {Entry : Type 0} where
  unfoldable pub new_id_list : IdList Entry
  new_id_list = record { entries = []; id_counter = 0 }

  -- The counter is a signed `int`: to count it up beyond its largest value is undefined.
  unfoldable pub add : Entry → IdList Entry → Result (ℕ × IdList Entry)
  add entry s = do
    guard (ltb s.id_counter (2 ^ 31 - 1)) undefined
    let new_id = s.id_counter + 1
    ok (new_id, record { entries = insert new_id entry s.entries; id_counter = new_id })

  unfoldable pub get : ℕ → IdList Entry → Result Entry
  get id s = elim (find id s.entries) [ none ↦ err out_of_range | some entry ↦ ok entry ]

  unfoldable pub remove : ℕ → IdList Entry → Result (IdList Entry)
  remove id s = elim (find id s.entries) [
    | none ↦ err out_of_range
    | some entry ↦ ok (record s { entries = erase id s.entries })
  ]

pub record FuseOpenFileList (OpenFile : Type 0) : Type 0 where
  pub open_files : IdList OpenFile
  pub refcounts : Assoc ℕ ℕ

module _ {OpenFile : Type 0} where
  unfoldable pub new_open_file_list : FuseOpenFileList OpenFile
  unfolding new_id_list
  new_open_file_list = record { open_files = new_id_list; refcounts = [] }

  unfoldable pub open_file :
      OpenFile → FuseOpenFileList OpenFile → Result (ℕ × FuseOpenFileList OpenFile)
  open_file file s = do
    (descriptor, open_files) ← add file s.open_files
    ok (descriptor, record { open_files = open_files; refcounts = insert descriptor 0 s.refcounts })

  -- `load` until it calls the callback, which gets the file. Where `get` throws, the reference that
  -- was counted is given back on the way out.
  unfoldable pub begin_load :
      ℕ → FuseOpenFileList OpenFile → Result (OpenFile × FuseOpenFileList OpenFile)
  begin_load descriptor s = elim (find descriptor s.refcounts) [
    | none ↦ err (fuse_errno bad_descriptor)
    | some refcount ↦ elim (get descriptor s.open_files) [
      | err thrown ↦ err (fuse_errno bad_descriptor)
      | ok loaded ↦
          ok (loaded, record s { refcounts = assign descriptor (refcount + 1) s.refcounts })
    ]
  ]

  -- `OnScopeExit`, after the callback. A count below 0 wraps around.
  unfoldable pub end_load : ℕ → FuseOpenFileList OpenFile → Result (FuseOpenFileList OpenFile)
  end_load descriptor s = elim (find descriptor s.refcounts) [
    | none ↦ err out_of_range
    | some refcount ↦ ok (record s {
      refcounts =
          assign descriptor (if refcount == 0 then 2 ^ 64 - 1 else refcount - 1) s.refcounts;
    })
  ]

  -- `none` where it has to wait for pending requests.
  unfoldable pub close : ℕ → FuseOpenFileList OpenFile → Result (Option (FuseOpenFileList OpenFile))
  close descriptor s = elim (find descriptor s.refcounts) [
    | none ↦ err out_of_range
    | some refcount ↦ elim (refcount == 0) [
      | false ↦ ok none
      | true ↦ do
        open_files ← remove descriptor s.open_files
        ok (some (record { open_files = open_files; refcounts = erase descriptor s.refcounts }))
    ]
  ]

  -- The destructor; `none` where it has to wait for pending requests.
  unfoldable pub shut_down : FuseOpenFileList OpenFile → Result (Option (Unit {0}))
  shut_down s = elim (all_zero s.refcounts) [
    | false ↦ ok none
    | true ↦ do guard (length s.refcounts == length s.refcounts) assert_failed; ok (some tt)
  ]
