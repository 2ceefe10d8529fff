-- ===== src/Caching/Storing.antt =====
-- `load` and `store` of a caching block store.
use libcryfs.Common.{
  ℕ, ◌≡◌, refl, ◌∙◌, sym, Bool, true, false, Option, none, some, arith, Option-cases, inl, inr,
}
use libcryfs.Common.Equality.{bytes_eq, beq_refl}
use libcryfs.Common.Result.{ok}
use libcryfs.Common.Assoc.{find}
use libcryfs.Common.Bytes.{Data, BlockId}
use libcryfs.BlockStore.{BlockStore2, IsLawful, changed}
use libcryfs.Caching.Queue.{QueueOps, IsQueue}
use libcryfs.Caching.Cache
use libcryfs.Caching.Cache.{CacheEntry}
use libcryfs.Caching.Store.{
  CachedBlock, Below, CachingBlockStore2, push_block, write, load, store,
  load_from_cache_or_base_store,
}
use libcryfs.Caching.Coherent.{Entries, good}
use libcryfs.Caching.Refinement.{Implements, repush, taken-Implements, repushed}

module _ {S : BlockStore2} {Q : QueueOps BlockId (CacheEntry CachedBlock)} where
  store-cached :
      (now : ℕ) (k : BlockId) (d : Data) (s t : CachingBlockStore2 S Q) (q : Q.State)
      (entry : CacheEntry CachedBlock)
      → Q.pop k s.cache ≡ (some entry, q)
      → push_block now k (write d entry.value) (record s { cache = q }) ≡ ok t
      → store now k d s ≡ ok t
  unfolding store Cache.pop
  store-cached now k d s t q entry popped run = ground (arith, popped, run)

  store-below :
      (now : ℕ) (k : BlockId) (d : Data) (s t : CachingBlockStore2 S Q) (q : Q.State)
      (base : S.State)
      → Q.pop k s.cache ≡ (none, q)
      → S.store k d s.below.base ≡ ok base
      → push_block {S = S} {Q = Q} now k
          (record { block_id = k; content = d; dirty = false })
          (record { below = record s.below { base = base }; cache = q })
        ≡ ok t
      → store now k d s ≡ ok t
  unfolding store Cache.pop
  store-below now k d s t q base popped stored run = ground (arith, popped, stored, run)

  load-cached :
      (now : ℕ) (k : BlockId) (s t : CachingBlockStore2 S Q) (q : Q.State)
      (entry : CacheEntry CachedBlock)
      → Q.pop k s.cache ≡ (some entry, q)
      → push_block now k entry.value (record s { cache = q }) ≡ ok t
      → load now k s ≡ ok (some entry.value.content, t)
  unfolding load load_from_cache_or_base_store Cache.pop
  load-cached now k s t q entry popped run = ground (arith, popped, run)

  load-below :
      (now : ℕ) (k : BlockId) (d : Data) (s t : CachingBlockStore2 S Q) (q : Q.State)
      (base : S.State)
      → Q.pop k s.cache ≡ (none, q)
      → S.load k s.below.base ≡ ok (some d, base)
      → push_block {S = S} {Q = Q} now k
          (record { block_id = k; content = d; dirty = false })
          (record { below = record s.below { base = base }; cache = q })
        ≡ ok t
      → load now k s ≡ ok (some d, t)
  unfolding load load_from_cache_or_base_store Cache.pop
  load-below now k d s t q base popped loaded run = ground (arith, popped, loaded, run)

  load_missing :
      (now : ℕ) (k : BlockId) (s : CachingBlockStore2 S Q) (q : Q.State) (base : S.State)
      → Q.pop k s.cache ≡ (none, q)
      → S.load k s.below.base ≡ ok (none, base)
      → load now k s ≡ ok (none, record { below = record s.below { base = base }; cache = q })
  unfolding load load_from_cache_or_base_store Cache.pop
  load_missing now k s q base popped loaded = ground (arith, popped, loaded)

-- A block that is dirty fits where the cache had it.
dirty-good :
    (now : ℕ) (d : Data) (k a : BlockId) (entry : CacheEntry CachedBlock) (l : Entries)
    (below : Option Data) (absent : Bool)
    → find k l ≡ some entry
    → good a (find a l) below absent ≡ true
    → good a (repushed now k (write d entry.value) l a) below absent ≡ true
dirty-good now d k a entry l below absent found g = ground (arith, found, g, bytes_eq.beq_iff a k)

module _ {S : BlockStore2} {Q : QueueOps BlockId (CacheEntry CachedBlock)}
    {contents : S.State → BlockId → Option Data} (L : IsLawful S contents)
    {Holds : Q.State → Entries → Type 0} (R : IsQueue Q Holds) where
  store_cached-Implements :
      (now : ℕ) (k : BlockId) (d : Data) (s : CachingBlockStore2 S Q) (m : BlockId → Option Data)
      (i : Implements L Holds s m) (entry : CacheEntry CachedBlock)
      → find k i.entries ≡ some entry
      → (t : CachingBlockStore2 S Q) × (store now k d s ≡ ok t)
        × Implements L Holds t (changed k (some d) m)
  store_cached-Implements now k d s m i entry found =
      let (q, popped, h) = R.pop_lem k s.cache i.entries i.fits.holds in
      let (t, l', run, f, view) =
        repush L R now false k (write d entry.value) q s.below i.entries h i.fits.distinct
          i.fits.small (λ a. dirty-good now d k a entry i.entries _ _ found (i.fits.coherent a)) in
      (
        t,
        store-cached now k d s t q entry (rw (sym found) popped) run,
        record {
          entries = l';
          fits = f;
          view = λ a. view a ∙ ground (arith, found, i.view a, bytes_eq.beq_iff a k);
        },
      )

  store_below-Implements :
      (now : ℕ) (k : BlockId) (d : Data) (s : CachingBlockStore2 S Q) (m : BlockId → Option Data)
      (i : Implements L Holds s m)
      → find k i.entries ≡ none
      → (t : CachingBlockStore2 S Q) × (store now k d s ≡ ok t)
        × Implements L Holds t (changed k (some d) m)
  store_below-Implements now k d s m i absent =
      let (q, popped, h) = R.pop_lem k s.cache i.entries i.fits.holds in
      let (base, stored, content) = L.store_lem k d s.below.base in
      let w : Below S = record s.below { base = base } in
      let (t, l', run, f, view) =
        repush L R now false k (record { block_id = k; content = d; dirty = false }) q w i.entries h
          i.fits.distinct i.fits.small
          (λ a. ground (
            arith,
            absent,
            content a,
            i.fits.coherent a,
            bytes_eq.beq_iff a k,
            beq_refl k,
            beq_refl d,
          )) in
      (
        t,
        store-below now k d s t q base (rw (sym absent) popped) stored run,
        record {
          entries = l';
          fits = f;
          view = λ a. view a ∙ ground (arith, absent, content a, i.view a, bytes_eq.beq_iff a k);
        },
      )

  -- Over a base store without faults, a store into a caching block store that implements a partial map
  -- succeeds, and what it leaves implements the map with the block changed: whether the block was in
  -- the cache, only below, or nowhere, and also where the full cache first has to write another block
  -- back.
  pub store-Implements :
      (now : ℕ) (k : BlockId) (d : Data) (s : CachingBlockStore2 S Q) (m : BlockId → Option Data)
      → Implements L Holds s m
      → (t : CachingBlockStore2 S Q) × (store now k d s ≡ ok t)
        × Implements L Holds t (changed k (some d) m)
  store-Implements now k d s m i = elim (Option-cases (find k i.entries)) [
    | inl absent ↦ store_below-Implements now k d s m i absent
    | inr (entry, found) ↦ store_cached-Implements now k d s m i entry found
  ]

  load_cached-Implements :
      (now : ℕ) (k : BlockId) (s : CachingBlockStore2 S Q) (m : BlockId → Option Data)
      (i : Implements L Holds s m) (entry : CacheEntry CachedBlock)
      → find k i.entries ≡ some entry
      → (t : CachingBlockStore2 S Q) × (load now k s ≡ ok (m k, t)) × Implements L Holds t m
  load_cached-Implements now k s m i entry found =
      let (q, popped, h) = R.pop_lem k s.cache i.entries i.fits.holds in
      let (t, l', run, f, view) =
        repush L R now false k entry.value q s.below i.entries h i.fits.distinct i.fits.small
          (λ a. ground (arith, found, i.fits.coherent a, bytes_eq.beq_iff a k)) in
      let here : m k ≡ some entry.value.content = sym (i.view k) ∙ rw found refl in
      (
        t,
        rw here (load-cached now k s t q entry (rw (sym found) popped) run),
        record {
          entries = l';
          fits = f;
          view = λ a. view a ∙ ground (arith, found, i.view a, bytes_eq.beq_iff a k);
        },
      )

  load_below-Implements :
      (now : ℕ) (k : BlockId) (s : CachingBlockStore2 S Q) (m : BlockId → Option Data)
      (i : Implements L Holds s m)
      → find k i.entries ≡ none
      → (t : CachingBlockStore2 S Q) × (load now k s ≡ ok (m k, t)) × Implements L Holds t m
  load_below-Implements now k s m i absent =
      let (q, popped, h) = R.pop_lem k s.cache i.entries i.fits.holds in
      let (base, loaded, content) = L.load_lem k s.below.base in
      let here : m k ≡ contents s.below.base k = sym (i.view k) ∙ rw absent refl in
      elim (Option-cases (contents s.below.base k)) [
        | inl nothing ↦ (
          record { below = record s.below { base = base }; cache = q },
          rw (here ∙ nothing)
              (load_missing now k s q base (rw (sym absent) popped) (rw (sym nothing) loaded)),
          taken-Implements L R k q (record s.below { base = base }) i.entries m h i.fits.distinct
              i.fits.small
              (λ a. ground (arith, absent, content a, i.fits.coherent a, bytes_eq.beq_iff a k))
              (λ a. ground (arith, absent, content a, i.view a, bytes_eq.beq_iff a k)),
        )
        | inr (d, something) ↦
            (let w : Below S = record s.below { base = base } in
              let (t, l', run, f, view) =
                repush L R now false k (record { block_id = k; content = d; dirty = false }) q w
                  i.entries h i.fits.distinct i.fits.small
                  (λ a. ground (
                    arith,
                    absent,
                    something,
                    content a,
                    i.fits.coherent a,
                    bytes_eq.beq_iff a k,
                    beq_refl k,
                    beq_refl d,
                  )) in
              (
                t,
                rw (here ∙ something) (
                    load-below now k d s t q base (rw (sym absent) popped)
                      (rw (sym something) loaded) run),
                record {
                  entries = l';
                  fits = f;
                  view = λ a.
                      view a
                      ∙ ground
                          (arith, absent, something, content a, i.view a, bytes_eq.beq_iff a k);
                },
              ))
      ]

  -- Over a base store without faults, a load from a caching block store that implements a partial map
  -- succeeds, returns what the map has for the block, and leaves a state that implements the same map,
  -- although the block is moved to the end of the queue or put into the cache.
  pub load-Implements :
      (now : ℕ) (k : BlockId) (s : CachingBlockStore2 S Q) (m : BlockId → Option Data)
      → Implements L Holds s m
      → (t : CachingBlockStore2 S Q) × (load now k s ≡ ok (m k, t)) × Implements L Holds t m
  load-Implements now k s m i = elim (Option-cases (find k i.entries)) [
    | inl absent ↦ load_below-Implements now k s m i absent
    | inr (entry, found) ↦ load_cached-Implements now k s m i entry found
  ]
