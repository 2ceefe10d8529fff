-- ===== src/OpenFiles/Invariant.antt =====
-- The invariant of the table of open files and the pending requests.
use libcryfs.Common.{
  ℕ, ◌+◌, ◌-◌, ◌^◌, ◌<◌, ◌≡◌, refl, none, some, [], ◌∷◌, arith, if◌then◌else◌, sym, inl, inr,
  Option-cases,
}
use libcryfs.Common.Equality.{◌==◌, nat_eq}
use libcryfs.Common.Result.{ok}
use libcryfs.Common.Assoc.{insert, erase, assign, find, find-assign, find-insert, find-erase}
use libcryfs.BlockStore.{is_some}
use libcryfs.OpenFiles.{
  FuseOpenFileList, add, get, remove, new_id_list, new_open_file_list, open_file, begin_load,
  end_load, close,
}
use libcryfs.OpenFiles.Pending.{
  pending_on, pending_on-append, Held, Held-append, Held-insert, Held-erase, unused-pending_on,
  System, Step, opens, begins, ends, closes, Reach, here, next,
}

pub record IsConsistent {OpenFile : Type 0} (s : System OpenFile) : Type 0 where
  pub counted : (d n : ℕ) → find d s.table.refcounts ≡ some n → n ≡ pending_on d s.pending
  pub matching :
      (d : ℕ) → is_some (find d s.table.refcounts) ≡ is_some (find d s.table.open_files.entries)
  pub fresh : (d : ℕ) → s.table.open_files.id_counter < d → find d s.table.open_files.entries ≡ none
  pub held : Held s.table.open_files.entries s.pending

module _ {OpenFile : Type 0} where
  unfoldable pub initial : System OpenFile
  initial = record { table = new_open_file_list; pending = [] }

  pub initial-IsConsistent : IsConsistent initial
  unfolding initial new_open_file_list new_id_list find
  initial-IsConsistent = record {
    counted = λ d n h. ground arith;
    matching = λ d. refl;
    fresh = λ d h. refl;
    held = tt;
  }

  pub open_file-eq :
      (file : OpenFile) (s : FuseOpenFileList OpenFile) {d : ℕ} {t : FuseOpenFileList OpenFile}
      → open_file file s ≡ ok (d, t)
      → (d ≡ s.open_files.id_counter + 1)
        × (t.open_files.id_counter ≡ d)
        × (t.open_files.entries ≡ insert d file s.open_files.entries)
        × (t.refcounts ≡ insert d 0 s.refcounts)
  unfolding open_file add
  open_file-eq file s e = ground arith

  begin_load-eq :
      (d : ℕ) (s : FuseOpenFileList OpenFile) {file : OpenFile} {t : FuseOpenFileList OpenFile}
      → begin_load d s ≡ ok (file, t)
      → (n : ℕ) × (find d s.refcounts ≡ some n)
        × (find d s.open_files.entries ≡ some file)
        × (t.open_files ≡ s.open_files)
        × (t.refcounts ≡ assign d (n + 1) s.refcounts)
  unfolding begin_load get
  begin_load-eq d s e = elim (Option-cases (find d s.refcounts)) [
    | inl absent ↦ absurd (ground arith)
    | inr (n, found) ↦ (n, found, ground arith, ground arith, ground arith)
  ]

  end_load-eq :
      (d : ℕ) (s : FuseOpenFileList OpenFile) {t : FuseOpenFileList OpenFile}
      → end_load d s ≡ ok t
      → (n : ℕ) × (find d s.refcounts ≡ some n)
        × (t.open_files ≡ s.open_files)
        × (t.refcounts ≡ assign d (if n == 0 then 2 ^ 64 - 1 else n - 1) s.refcounts)
  unfolding end_load
  end_load-eq d s e = elim (Option-cases (find d s.refcounts)) [
    | inl absent ↦ absurd (ground arith)
    | inr (n, found) ↦ (n, found, ground arith, ground arith)
  ]

  close-eq :
      (d : ℕ) (s : FuseOpenFileList OpenFile) {t : FuseOpenFileList OpenFile}
      → close d s ≡ ok (some t)
      → (find d s.refcounts ≡ some 0)
        × (t.open_files.id_counter ≡ s.open_files.id_counter)
        × (t.open_files.entries ≡ erase d s.open_files.entries)
        × (t.refcounts ≡ erase d s.refcounts)
  unfolding close remove
  close-eq d s e = ground arith

  Step-IsConsistent : {s t : System OpenFile} → Step s t → IsConsistent s → IsConsistent t
  Step-IsConsistent {s} {t} (opens file d e q) c =
      let (new, counter, entries, refcounts) = open_file-eq file s.table e in
      let absent = c.fresh d (omega (arith, new)) in
      let unused = unused-pending_on s.table.open_files.entries d s.pending absent c.held in
      record {
        counted = λ a n h. ground (
          arith,
          find-insert a d 0 s.table.refcounts,
          c.counted a n,
          unused,
          absent,
          c.matching d,
        );
        matching = λ a. ground (
          arith,
          find-insert a d 0 s.table.refcounts,
          find-insert a d file s.table.open_files.entries,
          c.matching a,
        );
        fresh = λ a h. ground (arith, find-insert a d file s.table.open_files.entries, c.fresh a);
        held =
            rw (entries, q) (Held-insert s.table.open_files.entries d file s.pending absent c.held);
      }
  Step-IsConsistent {s} {t} (begins d file e q) c =
      let (m, found, entry, files, refcounts) = begin_load-eq d s.table e in
      record {
        counted = λ a n h.
            ground (arith, find-assign a d (m + 1) s.table.refcounts, c.counted a n, c.counted d m);
        matching = λ a. ground (arith, find-assign a d (m + 1) s.table.refcounts, c.matching a);
        fresh = λ a h. ground (arith, c.fresh a);
        held = rw (files, q) (entry, c.held);
      }
  Step-IsConsistent {s} {t} (ends d file before after p e q) c =
      let (m, found, files, refcounts) = end_load-eq d s.table e in
      let all =
        (Held-append s.table.open_files.entries before ((d, file) ∷ after)).0 (rw p at c.held) in
      let w = if m == 0 then 2 ^ 64 - 1 else m - 1 in
      record {
        counted = λ a n h. ground (
          arith,
          find-assign a d w s.table.refcounts,
          c.counted a n,
          c.counted d m,
          pending_on-append a before after,
          pending_on-append a before ((d, file) ∷ after),
          pending_on-append d before ((d, file) ∷ after),
        );
        matching = λ a. ground (arith, find-assign a d w s.table.refcounts, c.matching a);
        fresh = λ a h. ground (arith, c.fresh a);
        held =
            rw (files, q)
              ((Held-append s.table.open_files.entries before after).1 (all.0, all.1.1));
      }
  Step-IsConsistent {s} {t} (closes d e q) c =
      let (zero', counter, entries, refcounts) = close-eq d s.table e in
      let unused = sym (c.counted d 0 zero') in
      record {
        counted = λ a n h. ground (arith, find-erase a d s.table.refcounts, c.counted a n);
        matching = λ a. ground (
          arith,
          find-erase a d s.table.refcounts,
          find-erase a d s.table.open_files.entries,
          c.matching a,
        );
        fresh = λ a h. ground (arith, find-erase a d s.table.open_files.entries, c.fresh a);
        held = rw (entries, q) (Held-erase s.table.open_files.entries d s.pending unused c.held);
      }

  pub Reach-IsConsistent : {s t : System OpenFile} → Reach s t → IsConsistent s → IsConsistent t
  Reach-IsConsistent here c = c
  Reach-IsConsistent (next r st) c = Step-IsConsistent st (Reach-IsConsistent r c)
