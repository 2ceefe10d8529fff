-- ===== src/Caching/Creating.antt =====
-- `try_create` of a caching block store.
use libcryfs.Common.{
  ℕ, ◌≡◌, refl, ◌∙◌, sym, true, false, not, Option, none, some, arith, if◌then◌else◌, Option-cases,
  inl, inr, ◌⊎◌,
}
use libcryfs.Common.Equality.{bytes_eq, beq_refl}
use libcryfs.Common.Result.{ok}
use libcryfs.Common.Assoc.{find}
use libcryfs.Common.Bytes.{Data, BlockId}
use libcryfs.BlockStore.{BlockStore2, IsLawful, is_some, changed}
use libcryfs.Caching.Queue.{QueueOps, IsQueue}
use libcryfs.Caching.Cache
use libcryfs.Caching.Cache.{CacheEntry}
use libcryfs.Caching.Store.{CachedBlock, insert_id, CachingBlockStore2, push_block, try_create}
use libcryfs.Caching.Coherent.{Entries, contains-insert_id}
use libcryfs.Caching.Refinement.{Implements, repush}

module _ {S : BlockStore2} {Q : QueueOps BlockId (CacheEntry CachedBlock)} where
  try_create_cached :
      (now : ℕ) (k : BlockId) (d : Data) (s t : CachingBlockStore2 S Q) (q : Q.State)
      (entry : CacheEntry CachedBlock)
      → Q.pop k s.cache ≡ (some entry, q)
      → push_block now k entry.value (record s { cache = q }) ≡ ok t
      → try_create now k d s ≡ ok (false, t)
  unfolding try_create Cache.pop
  try_create_cached now k d s t q entry popped run = ground (arith, popped, run)

  try_create_new :
      (now : ℕ) (k : BlockId) (d : Data) (s t : CachingBlockStore2 S Q) (q : Q.State)
      → Q.pop k s.cache ≡ (none, q)
      → push_block now k
          (record { block_id = k; content = d; dirty = true })
          (record s { cache = q })
        ≡ ok t
      → try_create now k d s
        ≡ ok (
          true,
          record t {
            below = record t.below { not_in_base_store = insert_id k t.below.not_in_base_store };
          },
        )
  unfolding try_create Cache.pop
  try_create_new now k d s t q popped run = ground (arith, popped, run)

module _ {S : BlockStore2} {Q : QueueOps BlockId (CacheEntry CachedBlock)}
    {contents : S.State → BlockId → Option Data} (L : IsLawful S contents)
    {Holds : Q.State → Entries → Type 0} (R : IsQueue Q Holds) where
  try_create_cached-Implements :
      (now : ℕ) (k : BlockId) (d : Data) (s : CachingBlockStore2 S Q) (m : BlockId → Option Data)
      (i : Implements L Holds s m) (entry : CacheEntry CachedBlock)
      → find k i.entries ≡ some entry
      → (t : CachingBlockStore2 S Q) × (try_create now k d s ≡ ok (false, t))
        × Implements L Holds t m
  try_create_cached-Implements now k d s m i entry found =
      let (q, popped, h) = R.pop_lem k s.cache i.entries i.fits.holds in
      let (t, l', run, f, view) =
        repush L R now false k entry.value q s.below i.entries h i.fits.distinct i.fits.small
          (λ a. ground (arith, found, i.fits.coherent a, bytes_eq.beq_iff a k)) in
      (
        t,
        try_create_cached now k d s t q entry (rw (sym found) popped) run,
        record {
          entries = l';
          fits = f;
          view = λ a. view a ∙ ground (arith, found, i.view a, bytes_eq.beq_iff a k);
        },
      )

  try_create_new-Implements :
      (now : ℕ) (k : BlockId) (d : Data) (s : CachingBlockStore2 S Q) (m : BlockId → Option Data)
      (i : Implements L Holds s m)
      → find k i.entries ≡ none
      → m k ≡ none
      → (t : CachingBlockStore2 S Q) × (try_create now k d s ≡ ok (true, t))
        × Implements L Holds t (changed k (some d) m)
  try_create_new-Implements now k d s m i absent missing =
      let (q, popped, h) = R.pop_lem k s.cache i.entries i.fits.holds in
      let nothing : contents s.below.base k ≡ none = ground (arith, absent, missing, i.view k) in
      let (t, l', run, f, view) =
        repush L R now true k (record { block_id = k; content = d; dirty = true }) q s.below
          i.entries h i.fits.distinct i.fits.small
          (λ a.
            ground (arith, absent, nothing, i.fits.coherent a, bytes_eq.beq_iff a k, beq_refl k)) in
      (
        record t {
          below = record t.below { not_in_base_store = insert_id k t.below.not_in_base_store };
        },
        try_create_new now k d s t q (rw (sym absent) popped) run,
        record {
          entries = l';
          fits = record {
            holds = f.holds;
            distinct = f.distinct;
            small = f.small;
            coherent =
                λ a. ground (arith, f.coherent a, contains-insert_id a k t.below.not_in_base_store);
          };
          view = λ a. view a ∙ ground (arith, absent, i.view a, bytes_eq.beq_iff a k);
        },
      )

  -- Over a base store without faults, a create of a block that a caching block store does not have, or
  -- that its cache has, succeeds and returns whether the block is new. A new block is in the map that
  -- is implemented then; else nothing changes. A block that only the store below has is not included.
  pub try_create-Implements :
      (now : ℕ) (k : BlockId) (d : Data) (s : CachingBlockStore2 S Q) (m : BlockId → Option Data)
      (i : Implements L Holds s m)
      → (m k ≡ none) ⊎ (is_some (find k i.entries) ≡ true)
      → (t : CachingBlockStore2 S Q) × (try_create now k d s ≡ ok (not (is_some (m k)), t))
        × Implements L Holds t (λ a. if is_some (m k) then m a else changed k (some d) m a)
  try_create-Implements now k d s m i known = elim (Option-cases (find k i.entries)) [
    | inl absent ↦
        let missing : m k ≡ none = ground (arith, absent, known) in
        rw missing (try_create_new-Implements now k d s m i absent missing)
    | inr (entry, found) ↦
        let here : m k ≡ some entry.value.content = sym (i.view k) ∙ rw found refl in
        rw here (try_create_cached-Implements now k d s m i entry found)
  ]
