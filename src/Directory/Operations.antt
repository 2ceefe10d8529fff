-- ===== src/Directory/Operations.antt =====
-- The operations that change a directory, as a relation.
use libcryfs.Common.{
  ℕ, zero, suc, ◌+◌, ◌-◌, ◌^◌, ◌<◌, ◌≡◌, refl, ap, sym, ◌∙◌, subst, Bool, not, none, some, List, [],
  ◌∷◌, ◌++◌, arith, if◌then◌else◌, length, take, drop, get_elem?, Bool-cases, Option-cases, inl,
  inr,
}
use libcryfs.Common.Equality.{◌==◌, nat_eq, bytes_eq}
use libcryfs.Common.Result.{Result, ok, >>=-eq-ok, Result-cases}
use libcryfs.Common.Bytes.{Data, BlockId}
use libcryfs.Directory.Entry
use libcryfs.Directory.Entry.{EntryType, Time, DirEntry, Attributes, new_entry}
use libcryfs.Directory.EntryList
use libcryfs.Directory.EntryList.{
  less, distance, erase_at, replace_at, find_by_name, get_by_name, find_lower_bound,
  find_upper_bound, find_by_id, existing_by_id, add_entry, check_allowed_overwrite, overwrite,
  set_name_by_id,
}
use libcryfs.Directory.Search.{lookup, find_first-distance}
use libcryfs.Directory.Names.{add_entry-eq, new_entry-eq}
use libcryfs.Directory.Sorted.{
  IsOrdered, cut-IsOrdered, erase_at-IsOrdered, replace_at-IsOrdered, upper-IsUpward,
  insert-IsOrdered,
}

-- What `set_uid_gid` makes of an entry.
abbrev ids_set : ℕ → ℕ → Time → DirEntry → DirEntry
ids_set uid gid now e =
    let with_uid = if uid == 2 ^ 32 - 1 then e else Entry.set_uid now uid e in
    if gid == 2 ^ 32 - 1 then with_uid else Entry.set_gid now gid with_uid

ids_set-block_id :
    (uid gid : ℕ) (now : Time) (e : DirEntry) → (ids_set uid gid now e).block_id ≡ e.block_id
ids_set-block_id uid gid now e = ground arith

-- One operation that succeeds, and the list before and after. A block id that is added has 16 bytes
-- and is not in the list, beside in the entry that is overwritten.
pub data Change (start : ℕ → ℕ → ℕ) (es es' : List DirEntry) : Type 1 where
  added :
      (name : Data) (b : BlockId) (a : Attributes) (now : Time)
      → length b ≡ 16
      → lookup b es ≡ none
      → EntryList.add start name b a now es ≡ ok es'
      → Change start es es'
  added_or_overwritten :
      {X : Type 0} (name : Data) (b : BlockId) (a : Attributes) (now : Time)
      (on_overwritten : BlockId → X → Result (Unit {0}) × X) (x x' : X)
      → length b ≡ 16
      → lookup b (erase_at (find_by_name name es) es) ≡ none
      → EntryList.add_or_overwrite start name b a now on_overwritten x es ≡ (ok es', x')
      → Change start es es'
  renamed :
      {X : Type 0} (b : BlockId) (name : Data) (now : Time)
      (on_overwritten : BlockId → X → Result (Unit {0}) × X) (x x' : X)
      → EntryList.rename start b name now on_overwritten x es ≡ (ok es', x')
      → Change start es es'
  removed_by_name : (name : Data) → EntryList.remove_by_name name es ≡ ok es' → Change start es es'
  removed_by_id : (b : BlockId) → EntryList.remove_by_id start b es ≡ ok es' → Change start es es'
  mode_set :
      (b : BlockId) (mode : ℕ) (now : Time)
      → EntryList.set_mode start b mode now es ≡ ok es'
      → Change start es es'
  uid_gid_set :
      (b : BlockId) (uid gid : ℕ) (now : Time) (changed : Bool)
      → EntryList.set_uid_gid start b uid gid now es ≡ ok (changed, es')
      → Change start es es'
  access_times_set :
      (b : BlockId) (access modification now : Time)
      → EntryList.set_access_times start b access modification now es ≡ ok es'
      → Change start es es'
  accessed :
      (on_file on_directory : Time → Time → Time → Bool) (b : BlockId) (now : Time) (changed : Bool)
      → EntryList.update_access_timestamp_for_child start on_file on_directory b now es
        ≡ ok (changed, es')
      → Change start es es'
  modified :
      (b : BlockId) (now : Time)
      → EntryList.update_modification_timestamp_for_child start b now es ≡ ok es'
      → Change start es es'

-- Any operations, one after the other, from the empty directory.
pub data Reachable (start : ℕ → ℕ → ℕ) : List DirEntry → Type 1 where
  empty : Reachable start []
  next : {es es' : List DirEntry} → Reachable start es → Change start es es' → Reachable start es'

erase_at-none : (i : ℕ) (es : List DirEntry) → get_elem? es i ≡ none → erase_at i es ≡ es
erase_at-none zero [] h = refl
erase_at-none zero (e ∷ es) h = absurd (ground arith)
erase_at-none (suc i) [] h = refl
erase_at-none (suc i) (e ∷ es) h = ap (λ fs. e ∷ fs) (erase_at-none i es h)

existing_by_id-eq :
    (start : ℕ → ℕ → ℕ) (b : BlockId) (es : List DirEntry) {i : ℕ} {e : DirEntry}
    → existing_by_id start b es ≡ ok (i, e)
    → get_elem? es i ≡ some e
unfolding existing_by_id find_by_id
existing_by_id-eq start b es h = ground arith

ok-injective : {i j : ℕ} → ok i ≡ ok j → i ≡ j
ok-injective h = cc

insert_at-IsOrdered :
    (f : DirEntry) (es : List DirEntry) (i : ℕ) (b : BlockId)
    → f.block_id ≡ b
    → i ≡ distance (λ e. less b e.block_id) es
    → length b ≡ 16
    → lookup b es ≡ none
    → IsOrdered es
    → IsOrdered (take i es ++ (f ∷ drop i es))
insert_at-IsOrdered f es i b id place size fresh ordered =
    let place' : i ≡ distance (λ e. less f.block_id e.block_id) es =
      place ∙ ap (λ c. distance (λ e. less c e.block_id) es) (sym id) in
    subst (λ k. IsOrdered (take k es ++ (f ∷ drop k es))) (sym place')
      (insert-IsOrdered f es (ap (λ c. length c) id ∙ size) (ap (λ c. lookup c es) id ∙ fresh)
        ordered)

module _ (start : ℕ → ℕ → ℕ) (starts : (b n : ℕ) → 0 < n → start b n < n) where
  add_entry-IsOrdered :
      (name : Data) (b : BlockId) (a : Attributes) (now : Time) (es : List DirEntry)
      {es' : List DirEntry}
      → length b ≡ 16
      → lookup b es ≡ none
      → IsOrdered es
      → add_entry start name b a now es ≡ ok es'
      → IsOrdered es'
  unfolding find_upper_bound
  add_entry-IsOrdered name b a now es size fresh ordered h =
      let (i, e, inserted, made, at) = add_entry-eq start name b a now es h in
      let id = (new_entry-eq name b a now made).1 in
      let place = ok-injective (
        sym at
        ∙ find_first-distance start starts b (λ e. less b e.block_id) es
            (upper-IsUpward b es ordered.0)) in
      subst IsOrdered (sym inserted) (insert_at-IsOrdered e es i b id place size fresh ordered)

  set_name_by_id-IsOrdered :
      (b : BlockId) (name : Data) (now : Time) (es : List DirEntry) {es' : List DirEntry}
      → IsOrdered es
      → set_name_by_id start b name now es ≡ ok es'
      → IsOrdered es'
  unfolding set_name_by_id
  set_name_by_id-IsOrdered b name now es ordered h =
      let ((i, e), found, rest) =
        >>=-eq-ok (existing_by_id start b es)
          (λ at. ok (replace_at at.0 (Entry.set_name now name at.1) es)) h in
      subst IsOrdered (cc) (
        replace_at-IsOrdered i e (Entry.set_name now name e) es (existing_by_id-eq start b es found)
          refl ordered)

  replaced-IsOrdered :
      (b : BlockId) (es : List DirEntry) {es' : List DirEntry} (i : ℕ) (e e' : DirEntry)
      → existing_by_id start b es ≡ ok (i, e)
      → e'.block_id ≡ e.block_id
      → replace_at i e' es ≡ es'
      → IsOrdered es
      → IsOrdered es'
  replaced-IsOrdered b es i e e' found same replaced ordered =
      subst IsOrdered replaced
        (replace_at-IsOrdered i e e' es (existing_by_id-eq start b es found) same ordered)

  Change-IsOrdered : {es es' : List DirEntry} → Change start es es' → IsOrdered es → IsOrdered es'
  unfolding EntryList.add EntryList.add_or_overwrite EntryList.remove_by_name EntryList.remove_by_id
      EntryList.rename overwrite EntryList.set_mode EntryList.set_uid_gid EntryList.set_access_times
      EntryList.update_access_timestamp_for_child EntryList.update_modification_timestamp_for_child
      get_by_name
  Change-IsOrdered {es} (added name b a now size fresh h) ordered =
      add_entry-IsOrdered name b a now es size fresh ordered (ground arith)
  Change-IsOrdered {es} (added_or_overwritten name b a now on_overwritten x x' size fresh h)
        ordered =
      elim (Option-cases (get_by_name name es)) [
        | inl absent ↦
            add_entry-IsOrdered name b a now es size
              (subst (λ fs. lookup b fs ≡ none) (erase_at-none (find_by_name name es) es absent)
                fresh)
              ordered (ground arith)
        | inr (old, taken) ↦
            add_entry-IsOrdered name b a now (erase_at (find_by_name name es) es) size fresh
              (erase_at-IsOrdered (find_by_name name es) es ordered) (ground arith)
      ]
  Change-IsOrdered {es} (renamed b name now on_overwritten x x' h) ordered =
      elim (Option-cases (get_by_name name es)) [
        | inl absent ↦ set_name_by_id-IsOrdered b name now es ordered (ground arith)
        | inr (old, taken) ↦ elim (Bool-cases (old.block_id == b)) [
          | inl same ↦ set_name_by_id-IsOrdered b name now es ordered (ground arith)
          | inr other ↦
              set_name_by_id-IsOrdered b name now (erase_at (find_by_name name es) es)
                (erase_at-IsOrdered (find_by_name name es) es ordered) (ground arith)
        ]
      ]
  Change-IsOrdered {es} (removed_by_name name h) ordered =
      subst IsOrdered (ground arith) (erase_at-IsOrdered (find_by_name name es) es ordered)
  Change-IsOrdered {es} (removed_by_id b h) ordered =
      elim (Result-cases (find_lower_bound start b es)) [
        | inl (i, found) ↦ subst IsOrdered (ground (arith, found)) (
            cut-IsOrdered i (i + distance (λ e. not (e.block_id == b)) (drop i es)) es (omega arith)
              ordered)
        | inr (thrown, failed) ↦ absurd (ground arith)
      ]
  Change-IsOrdered {es} (mode_set b mode now h) ordered =
      elim (Result-cases (existing_by_id start b es)) [
        | inl ((i, e), found) ↦
            replaced-IsOrdered b es i e (Entry.set_mode now mode e) found (refl)
              (ground (arith, found)) ordered
        | inr (thrown, failed) ↦ absurd (ground arith)
      ]
  Change-IsOrdered {es} (uid_gid_set b uid gid now changed h) ordered =
      elim (Result-cases (existing_by_id start b es)) [
        | inl ((i, e), found) ↦
            replaced-IsOrdered b es i e (ids_set uid gid now e) found
              (ids_set-block_id uid gid now e) (ground (arith, found)) ordered
        | inr (thrown, failed) ↦ absurd (ground arith)
      ]
  Change-IsOrdered {es} (access_times_set b access modification now h) ordered =
      elim (Result-cases (existing_by_id start b es)) [
        | inl ((i, e), found) ↦
            replaced-IsOrdered b es i e
              (Entry.set_last_modification_time now modification
                (Entry.set_last_access_time access e))
              found (refl) (ground (arith, found)) ordered
        | inr (thrown, failed) ↦ absurd (ground arith)
      ]
  Change-IsOrdered {es} (accessed on_file on_directory b now changed h) ordered =
      elim (Result-cases (existing_by_id start b es)) [
        | inl ((i, e), found) ↦ elim (Bool-cases changed) [
          | inl true' ↦
              replaced-IsOrdered b es i e (Entry.set_last_access_time now e) found refl
                (ground (arith, found)) ordered
          | inr false' ↦ subst IsOrdered (ground (arith, found)) ordered
        ]
        | inr (thrown, failed) ↦ absurd (ground arith)
      ]
  Change-IsOrdered {es} (modified b now h) ordered =
      elim (Result-cases (existing_by_id start b es)) [
        | inl ((i, e), found) ↦
            replaced-IsOrdered b es i e (Entry.set_last_modification_time now now e) found (refl)
              (ground (arith, found)) ordered
        | inr (thrown, failed) ↦ absurd (ground arith)
      ]

  -- From the empty directory, any operations that succeed, one after the other, leave the entries
  -- sorted by block ids with no block id twice, which is what the searches rely on and what
  -- `serialize` and `deserializeFrom` assert. The position where a search starts is in the list, and
  -- a block id that is added has 16 bytes and is not in the list.
  pub Reachable-IsOrdered : {es : List DirEntry} → Reachable start es → IsOrdered es
  Reachable-IsOrdered empty = (tt, tt)
  Reachable-IsOrdered (next r change) = Change-IsOrdered change (Reachable-IsOrdered r)
