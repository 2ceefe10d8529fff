-- ===== src/OpenFiles/Pending.antt =====
-- The steps of the threads on the table of open files, with the requests that are between the two
-- steps of `load`.
use libcryfs.Common.{ℕ, ◌+◌, ◌≡◌, refl, none, some, List, [], ◌∷◌, ◌++◌, arith, if◌then◌else◌, ◌↔◌}
use libcryfs.Common.Equality.{◌==◌, nat_eq}
use libcryfs.Common.Result.{ok}
use libcryfs.Common.Assoc.{Assoc, insert, erase, find, find-insert, find-erase}
use libcryfs.OpenFiles.{FuseOpenFileList, open_file, begin_load, end_load, close}

module _ {OpenFile : Type 0} where
  -- How many requests are pending on a descriptor.
  abbrev pub pending_on : ℕ → List (ℕ × OpenFile) → ℕ
  pending_on d [] = 0
  pending_on d ((descriptor, file) ∷ more) = (if d == descriptor then 1 else 0) + pending_on d more

  pub pending_on-append :
      (d : ℕ) (xs ys : List (ℕ × OpenFile))
      → pending_on d (xs ++ ys) ≡ pending_on d xs + pending_on d ys
  pending_on-append d [] ys = omega arith
  pending_on-append d (x ∷ xs) ys = omega (arith, pending_on-append d xs ys)

  -- Each pending request has the file that is open under its descriptor.
  abbrev pub Held : Assoc ℕ OpenFile → List (ℕ × OpenFile) → Type 0
  Held m [] = Unit
  Held m ((d, file) ∷ more) = (find d m ≡ some file) × Held m more

  pub Held-append :
      (m : Assoc ℕ OpenFile) (xs ys : List (ℕ × OpenFile))
      → Held m (xs ++ ys) ↔ (Held m xs × Held m ys)
  Held-append m [] ys = (λ h. (tt, h), λ h. h.1)
  Held-append m (x ∷ xs) ys =
      let ih = Held-append m xs ys in
      (λ h. ((h.0, (ih.0 h.1).0), (ih.0 h.1).1), λ h. (h.0.0, ih.1 (h.0.1, h.1)))

  pub Held-insert :
      (m : Assoc ℕ OpenFile) (d : ℕ) (file : OpenFile) (xs : List (ℕ × OpenFile))
      → find d m ≡ none
      → Held m xs
      → Held (insert d file m) xs
  Held-insert m d file [] fresh h = tt
  Held-insert m d file ((a, f) ∷ xs) fresh h =
      (ground (arith, find-insert a d file m, h.0), Held-insert m d file xs fresh h.1)

  pub Held-erase :
      (m : Assoc ℕ OpenFile) (d : ℕ) (xs : List (ℕ × OpenFile))
      → pending_on d xs ≡ 0
      → Held m xs
      → Held (erase d m) xs
  Held-erase m d [] unused h = tt
  Held-erase m d ((a, f) ∷ xs) unused h =
      (ground (arith, find-erase a d m, h.0), Held-erase m d xs (ground arith) h.1)

  pub unused-pending_on :
      (m : Assoc ℕ OpenFile) (d : ℕ) (xs : List (ℕ × OpenFile))
      → find d m ≡ none
      → Held m xs
      → pending_on d xs ≡ 0
  unused-pending_on m d [] absent h = refl
  unused-pending_on m d ((a, f) ∷ xs) absent h =
      ground (arith, h.0, unused-pending_on m d xs absent h.1)

-- The table, and the requests between the steps of `load`: the descriptor and the file that the
-- callback has.
pub record System (OpenFile : Type 0) : Type 0 where
  pub table : FuseOpenFileList OpenFile
  pub pending : List (ℕ × OpenFile)

-- One step of one thread.
pub data Step {OpenFile : Type 0} (s t : System OpenFile) : Type 0 where
  opens :
      (file : OpenFile) (d : ℕ)
      → open_file file s.table ≡ ok (d, t.table)
      → t.pending ≡ s.pending
      → Step s t
  begins :
      (d : ℕ) (file : OpenFile)
      → begin_load d s.table ≡ ok (file, t.table)
      → t.pending ≡ (d, file) ∷ s.pending
      → Step s t
  ends :
      (d : ℕ) (file : OpenFile) (before after : List (ℕ × OpenFile))
      → s.pending ≡ before ++ ((d, file) ∷ after)
      → end_load d s.table ≡ ok t.table
      → t.pending ≡ before ++ after
      → Step s t
  closes : (d : ℕ) → close d s.table ≡ ok (some t.table) → t.pending ≡ s.pending → Step s t

pub data Reach {OpenFile : Type 0} (s : System OpenFile) : System OpenFile → Type 0 where
  here : Reach s s
  next : {t u : System OpenFile} → Reach s t → Step t u → Reach s u
