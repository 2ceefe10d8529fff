-- ===== src/OpenFiles/Safety.antt =====
-- The table of open files while requests are pending.
use libcryfs.Common.{
  ℕ, ◌+◌, ◌-◌, ◌^◌, ◌≡◌, ◌∙◌, none, some, List, ◌∷◌, ◌++◌, arith, if◌then◌else◌, inl, inr,
  Option-cases,
}
use libcryfs.Common.Equality.{◌==◌, nat_eq}
use libcryfs.Common.Result.{ok}
use libcryfs.Common.Assoc.{erase, assign, find, find-assign, find-insert, find-erase}
use libcryfs.OpenFiles.{FuseOpenFileList, get, remove, open_file, begin_load, end_load, close}
use libcryfs.OpenFiles.Pending.{pending_on, pending_on-append, Held-append, System, Reach}
use libcryfs.Common.Result.{err, out_of_range, fuse_errno}
use libcryfs.OpenFiles.{bad_descriptor}
use libcryfs.OpenFiles.Invariant.{initial, initial-IsConsistent, open_file-eq, Reach-IsConsistent}

module _ {OpenFile : Type 0} {t : System OpenFile} (r : Reach initial t) where
  -- While a request is pending, after any operations of any threads: its file is still open under its
  -- descriptor, `close` has to wait, and the end of the request is counted without an error and
  -- leaves the number of the other requests that are pending on the descriptor.
  pub pending-close :
      (before after : List (ℕ × OpenFile)) (d : ℕ) (file : OpenFile)
      → t.pending ≡ before ++ ((d, file) ∷ after)
      → (get d t.table.open_files ≡ ok file)
        × (close d t.table ≡ ok none)
        × (u : FuseOpenFileList OpenFile) × (end_load d t.table ≡ ok u)
        × (find d u.refcounts ≡ some (pending_on d (before ++ after)))
  unfolding get close end_load
  pending-close before after d file p =
      let c = Reach-IsConsistent r initial-IsConsistent in
      let entry : find d t.table.open_files.entries ≡ some file =
        ((Held-append t.table.open_files.entries before ((d, file) ∷ after)).0
          (rw p at c.held)).1.0 in
      elim (Option-cases (find d t.table.refcounts)) [
        | inl absent ↦ absurd (ground (arith, c.matching d, entry))
        | inr (n, found) ↦
            let counts = c.counted d n found in
            let w = if n == 0 then 2 ^ 64 - 1 else n - 1 in
            let count : n ≡ pending_on d (before ++ after) + 1 = ground (
              arith,
              counts,
              p,
              pending_on-append d before after,
              pending_on-append d before ((d, file) ∷ after),
            ) in
            (
              ground (arith, entry),
              ground (arith, found, count),
              record t.table { refcounts = assign d w t.table.refcounts },
              ground (arith, found),
              ground (arith, find-assign d d w t.table.refcounts, count),
            )
      ]

  -- A file that is open and has no pending request can be closed, after any operations of any
  -- threads, and its descriptor is not known any more.
  pub close-begin_load :
      (d : ℕ) (file : OpenFile)
      → get d t.table.open_files ≡ ok file
      → pending_on d t.pending ≡ 0
      → (u : FuseOpenFileList OpenFile) × (close d t.table ≡ ok (some u))
        × (begin_load d u ≡ err (fuse_errno bad_descriptor))
  unfolding get close remove begin_load
  close-begin_load d file entry idle =
      let c = Reach-IsConsistent r initial-IsConsistent in
      elim (Option-cases (find d t.table.refcounts)) [
        | inl absent ↦ absurd (ground (arith, c.matching d, entry))
        | inr (n, found) ↦
            let count : n ≡ 0 = c.counted d n found ∙ idle in
            (
              record {
                open_files = record t.table.open_files {
                  entries = erase d t.table.open_files.entries;
                };
                refcounts = erase d t.table.refcounts;
              },
              ground (arith, found, count, entry),
              ground (arith, find-erase d d t.table.refcounts),
            )
      ]

  -- After any operations of any threads, a descriptor that `open` returns was not in use, and a
  -- request on it gets the file that was opened.
  pub open_file-begin_load :
      (file : OpenFile) (d : ℕ) (u : FuseOpenFileList OpenFile)
      → open_file file t.table ≡ ok (d, u)
      → (get d t.table.open_files ≡ err out_of_range)
        × (v : FuseOpenFileList OpenFile) × (begin_load d u ≡ ok (file, v))
  unfolding get begin_load
  open_file-begin_load file d u e =
      let c = Reach-IsConsistent r initial-IsConsistent in
      let (new, counter, entries, refcounts) = open_file-eq file t.table e in
      let absent = c.fresh d (omega (arith, new)) in
      (
        ground (arith, absent),
        record u { refcounts = assign d 1 u.refcounts },
        ground (
          arith,
          absent,
          c.matching d,
          find-insert d d 0 t.table.refcounts,
          find-insert d d file t.table.open_files.entries,
        ),
      )
