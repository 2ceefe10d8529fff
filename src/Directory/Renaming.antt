-- ===== src/Directory/Renaming.antt =====
-- `rename` (DirEntryList.cpp) and its callback.
use libcryfs.Common.{
  ℕ, zero, suc, ◌<◌, ◌≡◌, refl, ap, sym, ◌∙◌, none, some, List, [], ◌∷◌, arith, false, get_elem?,
  Bool-cases, Option-cases, inl, inr,
}
use libcryfs.Common.Equality.{◌==◌, bytes_eq}
use libcryfs.Common.Result.{Result, Error, ok, err, Result-cases}
use libcryfs.Common.Bytes.{Data, BlockId}
use libcryfs.Directory.Entry
use libcryfs.Directory.Entry.{DirEntry, Time}
use libcryfs.Directory.EntryList.{
  erase_at, replace_at, find_by_name, get_by_name, find_by_id, get_by_id, existing_by_id,
  check_rename, set_name_by_id, rename,
}
use libcryfs.Directory.Search.{lookup, get_by_id-lookup}
use libcryfs.Directory.Sorted.{IsOrdered, erase_at-IsOrdered}

-- Another entry that is erased is not seen by a search.
lookup-erase_at :
    (b : BlockId) (k : ℕ) (es : List DirEntry) (e : DirEntry)
    → get_elem? es k ≡ some e
    → (e.block_id == b) ≡ false
    → lookup b (erase_at k es) ≡ lookup b es
lookup-erase_at b zero [] e there other = absurd (cc (there))
lookup-erase_at b zero (f ∷ es) e there other = ground (arith, there, other)
lookup-erase_at b (suc k) [] e there other = absurd (cc (there))
lookup-erase_at b (suc k) (f ∷ es) e there other =
    ground (arith, lookup-erase_at b k es e there other)

module _ (start : ℕ → ℕ → ℕ) (b : BlockId) (es : List DirEntry) where
  get_by_id-existing_by_id :
      (i : ℕ) (e : DirEntry)
      → existing_by_id start b es ≡ ok (i, e)
      → get_by_id start b es ≡ ok (some e)
  unfolding existing_by_id get_by_id
  get_by_id-existing_by_id i e h = ground (arith, h)

  existing_by_id-get_by_id :
      (e : DirEntry)
      → get_by_id start b es ≡ ok (some e)
      → (i : ℕ) × (existing_by_id start b es ≡ ok (i, e))
  unfolding existing_by_id get_by_id
  existing_by_id-get_by_id e h = elim (Result-cases (find_by_id start b es)) [
    | inl (none, found) ↦ absurd (ground (arith, h, found))
    | inl (some (i, f), found) ↦ (i, ground (arith, h, found))
    | inr (thrown, failed) ↦ absurd (ground (arith, h, failed))
  ]

  check_rename-existing_by_id :
      (same : DirEntry) {passed : Unit {0}}
      → check_rename start b same es ≡ ok passed
      → (i : ℕ) × (found : DirEntry) × (existing_by_id start b es ≡ ok (i, found))
  unfolding check_rename
  check_rename-existing_by_id same h = elim (Result-cases (existing_by_id start b es)) [
    | inl ((i, found), exists) ↦ (i, found, exists)
    | inr (thrown, failed) ↦ absurd (ground (arith, h, failed))
  ]

get_elem?-get_by_name :
    (name : Data) (es : List DirEntry) (e : DirEntry)
    → get_by_name name es ≡ some e
    → get_elem? es (find_by_name name es) ≡ some e
unfolding get_by_name
get_elem?-get_by_name name es e h = h

module _ (start : ℕ → ℕ → ℕ) (starts : (b n : ℕ) → 0 < n → start b n < n) where
  -- The entry is found again when another one is erased, so that its name is set.
  set_name_by_id-erase_at :
      (b : BlockId) (name : Data) (now : Time) (k i : ℕ) (es : List DirEntry) (e found : DirEntry)
      → IsOrdered es
      → get_elem? es k ≡ some e
      → (e.block_id == b) ≡ false
      → existing_by_id start b es ≡ ok (i, found)
      → (es' : List DirEntry) × (set_name_by_id start b name now (erase_at k es) ≡ ok es')
  unfolding set_name_by_id
  set_name_by_id-erase_at b name now k i es e found ordered there other exists =
      let before = get_by_id-lookup start starts es ordered.0 b in
      let after =
        get_by_id-lookup start starts (erase_at k es) (erase_at-IsOrdered k es ordered).0 b in
      let seen : get_by_id start b (erase_at k es) ≡ ok (some found) =
        after
        ∙ ap (λ o. ok o) (lookup-erase_at b k es e there other)
        ∙ sym before
        ∙ get_by_id-existing_by_id start b es i found exists in
      let (j, again) = existing_by_id-get_by_id start b (erase_at k es) found seen in
      (replace_at j (Entry.set_name now name found) (erase_at k es), rw again refl)

  -- In a directory that is sorted by block ids, with no block id twice, a rename that throws has not
  -- called back that an entry is overwritten: the state of the callback is as it was. The callback
  -- itself does not throw, and the position where a search starts is in the list.
  pub rename-err :
      {X : Type 0} (b : BlockId) (name : Data) (now : Time)
      (on_overwritten : BlockId → X → Result (Unit {0}) × X) (x : X) (es : List DirEntry)
      (thrown : Error)
      → IsOrdered es
      → ((a : BlockId) (y : X) → (on_overwritten a y).0 ≡ ok tt)
      → (rename start b name now on_overwritten x es).0 ≡ err thrown
      → rename start b name now on_overwritten x es ≡ (err thrown, x)
  unfolding rename
  rename-err b name now on_overwritten x es thrown ordered returns h =
      elim (Option-cases (get_by_name name es)) [
        | inl absent ↦ ground (arith, absent, h)
        | inr (same, there) ↦ elim (Bool-cases (same.block_id == b)) [
          | inl itself ↦ ground (arith, there, itself, h)
          | inr other ↦ elim (Result-cases (check_rename start b same es)) [
            | inr (refused, failed) ↦ ground (arith, there, other, failed, h)
            | inl (passed, allowed) ↦
                let (i, found, exists) = check_rename-existing_by_id start b es same allowed in
                let (es', named) =
                  set_name_by_id-erase_at b name now (find_by_name name es) i es same found ordered
                    (get_elem?-get_by_name name es same there) other exists in
                absurd (ground (arith, there, other, allowed, returns same.block_id x, named, h))
          ]
        ]
      ]
