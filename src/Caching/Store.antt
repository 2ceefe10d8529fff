-- ===== src/Caching/Store.antt =====
-- `CachingBlockStore2` (src/blockstore/implementations/caching/CachingBlockStore2.{h,cpp}) over any
-- block store and any queue. The mutexes are not modelled. What an operation that throws leaves is not
-- modelled.
use libcryfs.Common.{
  ℕ, ◌+◌, Bool, true, false, ◌||◌, Option, none, some, List, [], ◌∷◌, ◌++◌, if◌then◌else◌, length,
}
use libcryfs.Common.Equality.{◌==◌, bytes_eq}
use libcryfs.Common.Result.{Result, ok, guard, runtime_error, ◌>>=◌, ◌>>◌}
use libcryfs.Common.Bytes.{Data, BlockId}
use libcryfs.BlockStore.{BlockStore2}
use libcryfs.Caching.Queue.{QueueOps}
use libcryfs.Caching.Cache
use libcryfs.Caching.Cache.{CacheEntry}

pub record CachedBlock : Type 0 where
  pub block_id : BlockId
  pub content : Data
  pub dirty : Bool

-- `write`
abbrev pub write : Data → CachedBlock → CachedBlock
write content b = record b { content = content; dirty = true }

abbrev pub mark_not_dirty : CachedBlock → CachedBlock
mark_not_dirty b = record b { dirty = false }

-- The set of ids.
abbrev pub contains : BlockId → List BlockId → Bool
contains b [] = false
contains b (a ∷ ids) = b == a || contains b ids

unfoldable pub insert_id : BlockId → List BlockId → List BlockId
insert_id b ids = if contains b ids then ids else b ∷ ids

unfoldable pub erase_id : BlockId → List BlockId → List BlockId
erase_id b [] = []
erase_id b (a ∷ ids) = let rest = erase_id b ids in if b == a then rest else a ∷ rest

-- The store below, and the blocks in the cache that it does not have.
pub record Below (S : BlockStore2) : Type 0 where
  pub base : S.State
  pub not_in_base_store : List BlockId

abbrev pub max_entries : ℕ
max_entries = 1000

module _ {S : BlockStore2} where
  -- The destructor of a cached block.
  unfoldable pub destruct : CachedBlock → Below S → Result (Below S)
  destruct b w = do
    base ← (if b.dirty then S.store b.block_id b.content w.base else ok w.base)
    ok (record { base = base; not_in_base_store = erase_id b.block_id w.not_in_base_store })

pub record CachingBlockStore2 (S : BlockStore2) (Q : QueueOps BlockId (CacheEntry CachedBlock))
    : Type 0 where
  pub below : Below S
  pub cache : Q.State

module _ {S : BlockStore2} {Q : QueueOps BlockId (CacheEntry CachedBlock)} where
  -- `_cache.push`
  unfoldable pub push_block :
      ℕ → BlockId → CachedBlock → CachingBlockStore2 S Q → Result (CachingBlockStore2 S Q)
  push_block now block_id b s = do
    (cache, below) ← Cache.push Q (destruct {S = S}) max_entries now block_id b s.cache s.below
    ok (record { below = below; cache = cache })

  unfoldable pub try_create :
      ℕ → BlockId → Data → CachingBlockStore2 S Q → Result (Bool × CachingBlockStore2 S Q)
  try_create now block_id content s =
      let (popped, cache) = Cache.pop Q block_id s.cache in
      let s1 : CachingBlockStore2 S Q = record s { cache = cache } in
      elim popped [
        | some b ↦ do s2 ← push_block now block_id b s1; ok (false, s2)
        | none ↦ do
          s2 ←
              push_block now block_id
                (record { block_id = block_id; content = content; dirty = true }) s1
          ok (
            true,
            record s2 {
              below = record s2.below {
                not_in_base_store = insert_id block_id s2.below.not_in_base_store;
              };
            },
          )
      ]

  unfoldable pub remove : BlockId → CachingBlockStore2 S Q → Result (Bool × CachingBlockStore2 S Q)
  remove block_id s =
      let (popped, cache) = Cache.pop Q block_id s.cache in
      elim popped [
        | some b ↦ elim (contains block_id s.below.not_in_base_store) [
          | true ↦ do
            below ← destruct (mark_not_dirty b) s.below
            ok (true, record { below = below; cache = cache })
          | false ↦ do
            (existed, base) ← S.remove block_id s.below.base
            guard existed runtime_error
            below ← destruct (mark_not_dirty b) (record s.below { base = base })
            ok (true, record { below = below; cache = cache })
        ]
        | none ↦ do
          (existed, base) ← S.remove block_id s.below.base
          ok (existed, record { below = record s.below { base = base }; cache = cache })
      ]

  -- `_loadFromCacheOrBaseStore`
  unfoldable pub load_from_cache_or_base_store :
      BlockId → CachingBlockStore2 S Q → Result (Option CachedBlock × CachingBlockStore2 S Q)
  load_from_cache_or_base_store block_id s =
      let (popped, cache) = Cache.pop Q block_id s.cache in
      elim popped [
        | some b ↦ ok (some b, record s { cache = cache })
        | none ↦ do
          (loaded, base) ← S.load block_id s.below.base
          ok (
            elim loaded [
              | none ↦ none
              | some content ↦
                  some (record { block_id = block_id; content = content; dirty = false })
            ],
            record { below = record s.below { base = base }; cache = cache },
          )
      ]

  unfoldable pub load :
      ℕ → BlockId → CachingBlockStore2 S Q → Result (Option Data × CachingBlockStore2 S Q)
  load now block_id s = do
    (loaded, s1) ← load_from_cache_or_base_store block_id s
    elim loaded [
      | none ↦ ok (none, s1)
      | some b ↦ do s2 ← push_block now block_id b s1; ok (some b.content, s2)
    ]

  unfoldable pub store :
      ℕ → BlockId → Data → CachingBlockStore2 S Q → Result (CachingBlockStore2 S Q)
  store now block_id content s =
      let (popped, cache) = Cache.pop Q block_id s.cache in
      elim popped [
        | some b ↦ push_block now block_id (write content b) (record s { cache = cache })
        | none ↦ do
          base ← S.store block_id content s.below.base
          push_block now block_id (record { block_id = block_id; content = content; dirty = false })
              (record { below = record s.below { base = base }; cache = cache })
      ]

  unfoldable pub num_blocks : CachingBlockStore2 S Q → ℕ
  num_blocks s = S.num_blocks s.below.base + length s.below.not_in_base_store

  unfoldable pub for_each_block : CachingBlockStore2 S Q → List BlockId
  for_each_block s = s.below.not_in_base_store ++ S.for_each_block s.below.base

  unfoldable pub flush : CachingBlockStore2 S Q → Result (CachingBlockStore2 S Q)
  flush s = do
    (cache, below) ← Cache.flush Q (destruct {S = S}) max_entries s.cache s.below
    ok (record { below = below; cache = cache })

  -- A round of the thread that purges the cache.
  unfoldable pub purge : (ℕ → Bool) → CachingBlockStore2 S Q → Result (CachingBlockStore2 S Q)
  purge is_old s = do
    (cache, below) ← Cache.purge Q (destruct {S = S}) max_entries is_old s.cache s.below
    ok (record { below = below; cache = cache })

unfoldable pub block_size_from_physical_block_size : BlockStore2 → ℕ → ℕ
block_size_from_physical_block_size S block_size = S.block_size_from_physical_block_size block_size
