-- ===== src/Directory/Names.antt =====
-- The names of a directory: what is found after an entry is added, and what happens where a name is
-- taken.
use libcryfs.Common.{
  ℕ, zero, suc, ◌≡◌, refl, Option, none, some, List, [], ◌∷◌, ◌++◌, arith, if◌then◌else◌, take,
  drop, Bool-cases, inl, inr, Option-cases, sym, ap, ◌∙◌,
}
use libcryfs.Common.Equality.{◌==◌, bytes_eq, nat_eq}
use libcryfs.Common.Result.{ok, >>=-eq-ok, ◌>>=◌}
use libcryfs.Common.Bytes.{Data, BlockId}
use libcryfs.Directory.Entry.{Time, DirEntry, Attributes, new_entry}
use libcryfs.Directory.EntryList.{
  distance, find_by_name, get_by_name, add_entry, add, find_upper_bound,
}

-- The first entry of a name, without positions.
abbrev named : Data → List DirEntry → Option DirEntry
named name [] = none
named name (e ∷ es) = if e.name == name then some e else named name es

get_by_name-named : (name : Data) (es : List DirEntry) → get_by_name name es ≡ named name es
unfolding get_by_name find_by_name distance
get_by_name-named name [] = refl
get_by_name-named name (e ∷ es) = elim (Bool-cases (e.name == name)) [
  | inl same ↦ rw (same, distance) (ground (arith, same))
  | inr other ↦ ground (arith, other, get_by_name-named name es)
]

named-insert :
    (name : Data) (e : DirEntry) (i : ℕ) (es : List DirEntry)
    → named name es ≡ none
    → e.name ≡ name
    → named name (take i es ++ (e ∷ drop i es)) ≡ some e
named-insert name e zero es absent same = ground (arith, bytes_eq.beq_iff e.name name)
named-insert name e (suc i) [] absent same = ground (arith, bytes_eq.beq_iff e.name name)
named-insert name e (suc i) (f ∷ es) absent same = ground (arith, named-insert name e i es)

pub new_entry-eq :
    (name : Data) (b : BlockId) (a : Attributes) (now : Time) {e : DirEntry}
    → new_entry name b a now ≡ ok e
    → (e.name ≡ name) × (e.block_id ≡ b) × (e.entry_type ≡ a.entry_type)
unfolding new_entry
new_entry-eq name b a now h = ground arith

ok-injective : {x y : List DirEntry} → ok x ≡ ok y → y ≡ x
ok-injective h = cc

pub add_entry-eq :
    (start : ℕ → ℕ → ℕ) (name : Data) (b : BlockId) (a : Attributes) (now : Time)
    (es : List DirEntry) {es' : List DirEntry}
    → add_entry start name b a now es ≡ ok es'
    → (i : ℕ) × (e : DirEntry) × (es' ≡ take i es ++ (e ∷ drop i es))
      × (new_entry name b a now ≡ ok e)
      × (find_upper_bound start b es ≡ ok i)
unfolding add_entry
add_entry-eq start name b a now es h =
    let (i, found, rest) =
      >>=-eq-ok (find_upper_bound start b es)
        (λ i. do e ← new_entry name b a now; ok (take i es ++ (e ∷ drop i es))) h in
    let (e, made, rest2) =
      >>=-eq-ok (new_entry name b a now) (λ e. ok (take i es ++ (e ∷ drop i es))) rest in
    (i, e, ok-injective rest2, made, found)

-- Where `add` succeeds, the name was not there before, and it is found with the new block id and type
-- afterwards.
pub get_by_name-add :
    (start : ℕ → ℕ → ℕ) (name : Data) (b : BlockId) (a : Attributes) (now : Time)
    (es es' : List DirEntry)
    → add start name b a now es ≡ ok es'
    → (get_by_name name es ≡ none)
      × (e : DirEntry) × (get_by_name name es' ≡ some e)
      × (e.block_id ≡ b)
      × (e.entry_type ≡ a.entry_type)
unfolding add
get_by_name-add start name b a now es es' h = elim (Option-cases (get_by_name name es)) [
  | inl absent ↦
      let added : add_entry start name b a now es ≡ ok es' = ground (arith, absent, h) in
      let (i, e, inserted, made, at) = add_entry-eq start name b a now es added in
      let facts = new_entry-eq name b a now made in
      let found : named name (take i es ++ (e ∷ drop i es)) ≡ some e =
        named-insert name e i es (sym (get_by_name-named name es) ∙ absent) facts.0 in
      (
        absent,
        e,
        ap (λ fs. get_by_name name fs) inserted
            ∙ (get_by_name-named name (take i es ++ (e ∷ drop i es)) ∙ found),
        facts.1,
        facts.2,
      )
  | inr (old, taken) ↦ absurd (ground (arith, taken, h))
]
