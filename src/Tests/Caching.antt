-- ===== src/Tests/Caching.antt =====
-- The caching block store over the store in memory, with the cache that is chained in a queue map.
use libcryfs.Common.{
  ℕ, ◌≡◌, refl, Bool, true, false, Option, none, some, [], ◌∷◌, inl, arith, replicate,
}
use libcryfs.Common.Equality.{nat_eq, bytes_eq}
use libcryfs.Common.Result.{ok, ◌>>=◌}
use libcryfs.Common.Assoc.{find}
use libcryfs.Common.Bytes.{Data, BlockId}
use libcryfs.BlockStore.{changed}
use libcryfs.BlockStore.InMemory.Lawful.{in_memory_block_store, contents, in_memory-IsLawful}
use libcryfs.BlockStore.InMemory
use libcryfs.Caching.Queue.{QueueOps, IsQueue}
use libcryfs.Caching.Cache
use libcryfs.Caching.Cache.{CacheEntry}
use libcryfs.Caching.Store
use libcryfs.Caching.Store.{CachedBlock, CachingBlockStore2, contains}
use libcryfs.Caching.QueueMap
use libcryfs.Caching.QueueMap.{QueueMap, queue_map}
use libcryfs.Caching.QueueRefinement.{Represents, queue_map-IsQueue}
use libcryfs.Caching.Refinement.{Implements, new-Implements}
use libcryfs.Caching.Storing.{store-Implements, load-Implements}
use libcryfs.Caching.Removing.{remove-Implements}
use libcryfs.Caching.Creating.{try_create-Implements}
use libcryfs.Caching.Flushing.{flush-Implements}

queue_map-IsQueue_example : IsQueue (queue_map {K = ℕ} {V = Data}) Represents
queue_map-IsQueue_example = queue_map-IsQueue

abbrev cache_queue : QueueOps BlockId (CacheEntry CachedBlock)
cache_queue = queue_map

abbrev block_a : BlockId
block_a = replicate 16 1

abbrev block_b : BlockId
block_b = replicate 16 2

abbrev Caching : Type 0
Caching = CachingBlockStore2 in_memory_block_store cache_queue

abbrev start : Caching
start = record {
  below = record { base = (block_a, 7 ∷ []) ∷ []; not_in_base_store = [] };
  cache = QueueMap.new;
}

abbrev IsMap : Caching → (BlockId → Option Data) → Type 0
IsMap s m = Implements in_memory-IsLawful Represents s m

start-IsMap : IsMap start (contents start.below.base)
start-IsMap = new-Implements in_memory-IsLawful queue_map-IsQueue start.below.base

store-Implements_example :
    (t : Caching) × (Store.store 3 block_a (8 ∷ []) start ≡ ok t)
    × IsMap t (changed block_a (some (8 ∷ [])) (contents start.below.base))
store-Implements_example =
    store-Implements in_memory-IsLawful queue_map-IsQueue 3 block_a (8 ∷ []) start
      (contents start.below.base) start-IsMap

load-Implements_example :
    (t : Caching) × (Store.load 3 block_a start ≡ ok (some (7 ∷ []), t))
    × IsMap t (contents start.below.base)
unfolding InMemory.load find bytes_eq
load-Implements_example =
    load-Implements in_memory-IsLawful queue_map-IsQueue 3 block_a start (contents start.below.base)
      start-IsMap

remove-Implements_example :
    (t : Caching) × (Store.remove block_a start ≡ ok (true, t))
    × IsMap t (changed block_a none (contents start.below.base))
unfolding InMemory.load find bytes_eq
remove-Implements_example =
    remove-Implements in_memory-IsLawful queue_map-IsQueue block_a start (contents start.below.base)
      start-IsMap

try_create-Implements_example :
    (t : Caching) × (Store.try_create 3 block_b (9 ∷ []) start ≡ ok (true, t))
    × IsMap t (changed block_b (some (9 ∷ [])) (contents start.below.base))
unfolding InMemory.load find bytes_eq
try_create-Implements_example =
    try_create-Implements in_memory-IsLawful queue_map-IsQueue 3 block_b (9 ∷ []) start
      (contents start.below.base) start-IsMap (inl refl)

-- Block b is in the cache only.
abbrev entry_b : CacheEntry CachedBlock
entry_b = record {
  last_access = 3;
  value = record { block_id = block_b; content = 9 ∷ []; dirty = true };
}

abbrev dirty : Caching
dirty = record {
  below = record { base = (block_a, 7 ∷ []) ∷ []; not_in_base_store = block_b ∷ [] };
  cache = record {
    entries = (block_b, record { prev = none; next = none; value = entry_b }) ∷ [];
    sentinel_prev = some block_b;
    sentinel_next = some block_b;
  };
}

abbrev both_blocks : BlockId → Option Data
both_blocks = changed block_b (some (9 ∷ [])) (contents dirty.below.base)

dirty-IsMap : IsMap dirty both_blocks
unfolding InMemory.load find bytes_eq
dirty-IsMap = record {
  entries = (block_b, entry_b) ∷ [];
  fits = record {
    holds = record {
      stored = λ k. refl;
      first = refl;
      last = refl;
      distinct = (refl, tt);
      unique = (refl, tt);
      count = refl;
    };
    distinct = (refl, tt);
    small = ground arith;
    coherent = λ a. ground (arith, bytes_eq.beq_iff a block_b, bytes_eq.beq_iff a block_a);
  };
  view = λ a. ground (arith, bytes_eq.beq_iff a block_b, bytes_eq.beq_iff a block_a);
}

flush-Implements_example :
    (t : Caching) × (Store.flush dirty ≡ ok t)
    × IsMap t both_blocks
    × Represents t.cache []
    × ((a : BlockId) → contents t.below.base a ≡ both_blocks a)
    × ((a : BlockId) → contains a t.below.not_in_base_store ≡ false)
flush-Implements_example =
    flush-Implements in_memory-IsLawful queue_map-IsQueue dirty both_blocks dirty-IsMap

-- A block that the cache does not have is created although the store below has it, and is then
-- counted twice.
counted : Bool × Caching → Bool × ℕ
counted (created, t) = (created, Store.num_blocks t)

try_create_below :
    (Store.try_create 3 block_a (9 ∷ []) start >>= λ r. ok (counted r)) ≡ ok (true, 2)
unfolding Store.try_create Store.num_blocks counted Cache.pop QueueMap.pop Store.push_block
    Cache.push Cache.make_space QueueMap.push find Store.insert_id InMemory.num_blocks
try_create_below = refl
