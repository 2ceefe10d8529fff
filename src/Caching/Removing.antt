-- ===== src/Caching/Removing.antt =====
-- `remove` of a caching block store.
use libcryfs.Common.{
  ◌≡◌, refl, ◌∙◌, sym, Bool, true, false, Option, none, some, arith, Bool-cases, Option-cases, inl,
  inr,
}
use libcryfs.Common.Equality.{bytes_eq}
use libcryfs.Common.Result.{ok}
use libcryfs.Common.Assoc.{find}
use libcryfs.Common.Bytes.{Data, BlockId}
use libcryfs.BlockStore.{BlockStore2, IsLawful, is_some, changed}
use libcryfs.Caching.Queue.{QueueOps, IsQueue}
use libcryfs.Caching.Cache
use libcryfs.Caching.Cache.{CacheEntry}
use libcryfs.Caching.Store.{
  CachedBlock, contains, erase_id, Below, CachingBlockStore2, destruct, remove,
}
use libcryfs.Caching.Coherent.{Entries, contains-erase_id}
use libcryfs.Caching.Refinement.{Implements, taken-Implements}

module _ {S : BlockStore2} {Q : QueueOps BlockId (CacheEntry CachedBlock)} where
  remove_new :
      (k : BlockId) (s : CachingBlockStore2 S Q) (q : Q.State) (entry : CacheEntry CachedBlock)
      → Q.pop k s.cache ≡ (some entry, q)
      → contains k s.below.not_in_base_store ≡ true
      → remove k s
        ≡ ok (
          true,
          record {
            below = record {
              base = s.below.base;
              not_in_base_store = erase_id entry.value.block_id s.below.not_in_base_store;
            };
            cache = q;
          },
        )
  unfolding remove Cache.pop destruct
  remove_new k s q entry popped new = ground (arith, popped, new)

  remove_both :
      (k : BlockId) (s : CachingBlockStore2 S Q) (q : Q.State) (entry : CacheEntry CachedBlock)
      (base : S.State)
      → Q.pop k s.cache ≡ (some entry, q)
      → contains k s.below.not_in_base_store ≡ false
      → S.remove k s.below.base ≡ ok (true, base)
      → remove k s
        ≡ ok (
          true,
          record {
            below = record {
              base = base;
              not_in_base_store = erase_id entry.value.block_id s.below.not_in_base_store;
            };
            cache = q;
          },
        )
  unfolding remove Cache.pop destruct
  remove_both k s q entry base popped old removed = ground (arith, popped, old, removed)

  remove_below :
      (k : BlockId) (s : CachingBlockStore2 S Q) (q : Q.State) (existed : Bool) (base : S.State)
      → Q.pop k s.cache ≡ (none, q)
      → S.remove k s.below.base ≡ ok (existed, base)
      → remove k s ≡ ok (existed, record { below = record s.below { base = base }; cache = q })
  unfolding remove Cache.pop
  remove_below k s q existed base popped removed = ground (arith, popped, removed)

module _ {S : BlockStore2} {Q : QueueOps BlockId (CacheEntry CachedBlock)}
    {contents : S.State → BlockId → Option Data} (L : IsLawful S contents)
    {Holds : Q.State → Entries → Type 0} (R : IsQueue Q Holds) where
  remove_below-Implements :
      (k : BlockId) (s : CachingBlockStore2 S Q) (m : BlockId → Option Data)
      (i : Implements L Holds s m)
      → find k i.entries ≡ none
      → (t : CachingBlockStore2 S Q) × (remove k s ≡ ok (is_some (m k), t))
        × Implements L Holds t (changed k none m)
  remove_below-Implements k s m i absent =
      let (q, popped, h) = R.pop_lem k s.cache i.entries i.fits.holds in
      let (base, removed, content) = L.remove_lem k s.below.base in
      let here : m k ≡ contents s.below.base k = sym (i.view k) ∙ rw absent refl in
      (
        record { below = record s.below { base = base }; cache = q },
        remove_below k s q (is_some (m k)) base (rw (sym absent) popped) (rw here removed),
        taken-Implements L R k q (record s.below { base = base }) i.entries (changed k none m) h
            i.fits.distinct i.fits.small
            (λ a. ground (arith, absent, content a, i.fits.coherent a, bytes_eq.beq_iff a k))
            (λ a. ground (arith, absent, content a, i.view a, bytes_eq.beq_iff a k)),
      )

  remove_both-Implements :
      (k : BlockId) (s : CachingBlockStore2 S Q) (m : BlockId → Option Data)
      (i : Implements L Holds s m) (entry : CacheEntry CachedBlock)
      → find k i.entries ≡ some entry
      → contains k s.below.not_in_base_store ≡ false
      → (t : CachingBlockStore2 S Q) × (remove k s ≡ ok (is_some (m k), t))
        × Implements L Holds t (changed k none m)
  remove_both-Implements k s m i entry found old =
      let (q, popped, h) = R.pop_lem k s.cache i.entries i.fits.holds in
      let (base, removed, content) = L.remove_lem k s.below.base in
      let here : m k ≡ some entry.value.content = sym (i.view k) ∙ rw found refl in
      let stored : is_some (contents s.below.base k) ≡ true =
        ground (arith, found, old, i.fits.coherent k) in
      let own : entry.value.block_id ≡ k =
        ground (arith, found, i.fits.coherent k, bytes_eq.beq_iff entry.value.block_id k) in
      let w : Below S = record {
        base = base;
        not_in_base_store = erase_id entry.value.block_id s.below.not_in_base_store;
      } in
      (
        record { below = w; cache = q },
        rw here
            (remove_both k s q entry base (rw (sym found) popped) old (rw (sym stored) removed)),
        taken-Implements L R k q w i.entries (changed k none m) h i.fits.distinct i.fits.small
            (λ a. ground (
              arith,
              content a,
              i.fits.coherent a,
              bytes_eq.beq_iff a k,
              old,
              own,
              contains-erase_id a entry.value.block_id s.below.not_in_base_store,
            ))
            (λ a. ground (arith, content a, i.view a, bytes_eq.beq_iff a k)),
      )

  remove_new-Implements :
      (k : BlockId) (s : CachingBlockStore2 S Q) (m : BlockId → Option Data)
      (i : Implements L Holds s m) (entry : CacheEntry CachedBlock)
      → find k i.entries ≡ some entry
      → contains k s.below.not_in_base_store ≡ true
      → (t : CachingBlockStore2 S Q) × (remove k s ≡ ok (is_some (m k), t))
        × Implements L Holds t (changed k none m)
  remove_new-Implements k s m i entry found new =
      let (q, popped, h) = R.pop_lem k s.cache i.entries i.fits.holds in
      let here : m k ≡ some entry.value.content = sym (i.view k) ∙ rw found refl in
      let absent : contents s.below.base k ≡ none = ground (arith, found, new, i.fits.coherent k) in
      let own : entry.value.block_id ≡ k =
        ground (arith, found, i.fits.coherent k, bytes_eq.beq_iff entry.value.block_id k) in
      let w : Below S = record {
        base = s.below.base;
        not_in_base_store = erase_id entry.value.block_id s.below.not_in_base_store;
      } in
      (
        record { below = w; cache = q },
        rw here (remove_new k s q entry (rw (sym found) popped) new),
        taken-Implements L R k q w i.entries (changed k none m) h i.fits.distinct i.fits.small
            (λ a. ground (
              arith,
              i.fits.coherent a,
              bytes_eq.beq_iff a k,
              own,
              absent,
              contains-erase_id a entry.value.block_id s.below.not_in_base_store,
            ))
            (λ a. ground (arith, i.view a, bytes_eq.beq_iff a k, absent)),
      )

  -- Over a base store without faults, a remove from a caching block store that implements a partial map
  -- succeeds without the exception for a block that is missing below, returns whether the map has the
  -- block, and leaves a state that implements the map without it: a dirty block is not written back.
  pub remove-Implements :
      (k : BlockId) (s : CachingBlockStore2 S Q) (m : BlockId → Option Data)
      → Implements L Holds s m
      → (t : CachingBlockStore2 S Q) × (remove k s ≡ ok (is_some (m k), t))
        × Implements L Holds t (changed k none m)
  remove-Implements k s m i = elim (Option-cases (find k i.entries)) [
    | inl absent ↦ remove_below-Implements k s m i absent
    | inr (entry, found) ↦ elim (Bool-cases (contains k s.below.not_in_base_store)) [
      | inl new ↦ remove_new-Implements k s m i entry found new
      | inr old ↦ remove_both-Implements k s m i entry found old
    ]
  ]
