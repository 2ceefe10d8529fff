-- ===== src/Caching/Coherent.antt =====
-- What the cache and the store below hold together.
use libcryfs.Common.{
  ◌≡◌, refl, Bool, true, false, not, ◌&&◌, ◌||◌, Option, none, some, List, [], ◌∷◌, arith,
  if◌then◌else◌, Bool-cases, Option-cases, inl, inr,
}
use libcryfs.Common.Equality.{◌==◌, bytes_eq}
use libcryfs.Common.Result.{ok}
use libcryfs.Common.Assoc.{Assoc, find}
use libcryfs.Common.Bytes.{Data, BlockId}
use libcryfs.BlockStore.{BlockStore2, IsLawful, is_some}
use libcryfs.Caching.Cache.{CacheEntry}
use libcryfs.Caching.Store.{CachedBlock, contains, insert_id, erase_id, Below, destruct}

abbrev pub Entries : Type 0
Entries = Assoc BlockId (CacheEntry CachedBlock)

-- What is returned for a block that has this entry in the cache and this content below.
abbrev pub seen : Option (CacheEntry CachedBlock) → Option Data → Option Data
seen none below = below
seen (some entry) below = some entry.value.content

abbrev pub is_content : Data → Option Data → Bool
is_content d none = false
is_content d (some c) = c == d

-- A block that is not in the store below is dirty in the cache. A block of the cache that is not
-- dirty is the one below.
abbrev pub good : BlockId → Option (CacheEntry CachedBlock) → Option Data → Bool → Bool
good b none below not_in_base = not not_in_base
good b (some entry) below not_in_base =
    (entry.value.block_id == b)
    && (if not_in_base
        then entry.value.dirty && not (is_some below)
        else is_some below && (entry.value.dirty || is_content entry.value.content below))

pub contains-insert_id :
    (a b : BlockId) (ids : List BlockId)
    → contains a (insert_id b ids) ≡ ((a == b) || contains a ids)
unfolding insert_id
contains-insert_id a b ids = elim (Bool-cases (contains b ids)) [
  | inl old ↦ ground (arith, old, bytes_eq.beq_iff a b)
  | inr new ↦ ground (arith, new)
]

pub contains-erase_id :
    (a b : BlockId) (ids : List BlockId)
    → contains a (erase_id b ids) ≡ (not (a == b) && contains a ids)
unfolding erase_id
contains-erase_id a b [] = ground arith
contains-erase_id a b (c ∷ ids) = ground (
  arith,
  contains-erase_id a b ids,
  bytes_eq.beq_iff a b,
  bytes_eq.beq_iff b c,
  bytes_eq.beq_iff a c,
)

module _ {S : BlockStore2} {contents : S.State → BlockId → Option Data}
    (L : IsLawful S contents) where
  -- The destructor of a block writes it where it is dirty.
  pub destruct-eq :
      (b : CachedBlock) (w : Below S)
      → (u : Below S) × (destruct b w ≡ ok u)
        × ((a : BlockId)
            → contents u.base a
              ≡ (if b.dirty && (a == b.block_id) then some b.content else contents w.base a))
        × ((a : BlockId)
            → contains a u.not_in_base_store
              ≡ (not (a == b.block_id) && contains a w.not_in_base_store))
  unfolding destruct
  destruct-eq b w = elim (Bool-cases b.dirty) [
    | inl dirty ↦
        let (base, stored, view) = L.store_lem b.block_id b.content w.base in
        (
          record { base = base; not_in_base_store = erase_id b.block_id w.not_in_base_store },
          rw (dirty, stored) refl,
          λ a. ground (arith, dirty, view a),
          λ a. contains-erase_id a b.block_id w.not_in_base_store,
        )
    | inr clean ↦ (
      record { base = w.base; not_in_base_store = erase_id b.block_id w.not_in_base_store },
      rw clean refl,
      λ a. ground (arith, clean),
      λ a. contains-erase_id a b.block_id w.not_in_base_store,
    )
  ]

  -- The entries and the store below fit; `extra` are blocks that will be listed as not in the store
  -- below.
  abbrev pub Coherent : (BlockId → Bool) → Below S → Entries → Type 0
  Coherent extra w l =
      (a : BlockId)
      → good a (find a l) (contents w.base a) (contains a w.not_in_base_store || extra a) ≡ true

  -- To delete the first entry changes nothing that is seen.
  pub evict-Coherent :
      (extra : BlockId → Bool) (w : Below S) (k : BlockId) (entry : CacheEntry CachedBlock)
      (l : Entries)
      → find k l ≡ none
      → extra k ≡ false
      → Coherent extra w ((k, entry) ∷ l)
      → (u : Below S) × (destruct entry.value w ≡ ok u)
        × Coherent extra u l
        × ((a : BlockId)
            → seen (find a l) (contents u.base a)
              ≡ seen (find a ((k, entry) ∷ l)) (contents w.base a))
  unfolding find
  evict-Coherent extra w k entry l distinct new c =
      let (u, destructed, view, listed) = destruct-eq entry.value w in
      (
        u,
        destructed,
        λ a. ground (
          arith,
          view a,
          listed a,
          c a,
          c k,
          bytes_eq.beq_iff a k,
          bytes_eq.beq_iff a entry.value.block_id,
          bytes_eq.beq_iff k k,
          bytes_eq.beq_iff entry.value.block_id k,
        ),
        λ a.
            let i1 = bytes_eq.beq_iff a k in
            let i2 = bytes_eq.beq_iff a entry.value.block_id in
            let i3 = bytes_eq.beq_iff entry.value.block_id k in
            elim (Option-cases (contents w.base a)) [
              | inl absent ↦
                  ground (arith, view a, c a, c k, i1, i2, i3, bytes_eq.beq_iff k k, absent)
              | inr (d, found) ↦ ground (
                arith,
                view a,
                c a,
                c k,
                i1,
                i2,
                i3,
                bytes_eq.beq_iff k k,
                found,
                bytes_eq.beq_iff d entry.value.content,
              )
            ],
      )
