-- ===== src/Caching/Pushing.antt =====
-- To push a block on the cache, which may delete the first entry.
use libcryfs.Common.{
  ℕ, ◌≤◌, ◌<◌, ◌≡◌, refl, subst, Bool, true, false, ◌&&◌, Option, none, some, [], ◌∷◌, ◌++◌, arith,
  ltb, lt→ltb, length, length-append, Bool-cases, inl, inr,
}
use libcryfs.Common.Equality.{◌==◌, nat_eq, bytes_eq}
use libcryfs.Common.Result.{ok}
use libcryfs.Common.Assoc.{find, NodupKeys, find-append, insert_fresh, insert-NodupKeys}
use libcryfs.Common.Bytes.{Data, BlockId}
use libcryfs.BlockStore.{BlockStore2, IsLawful}
use libcryfs.Caching.Queue.{QueueOps, IsQueue}
use libcryfs.Caching.Cache
use libcryfs.Caching.Cache.{CacheEntry}
use libcryfs.Caching.Store.{
  CachedBlock, Below, destruct, CachingBlockStore2, max_entries, push_block,
}
use libcryfs.Caching.Coherent.{Entries, seen, Coherent, evict-Coherent}

-- What stands in the cache after a push, and below.
pub record Fits {S : BlockStore2} {Q : QueueOps BlockId (CacheEntry CachedBlock)}
    {contents : S.State → BlockId → Option Data} (L : IsLawful S contents)
    (Holds : Q.State → Entries → Type 0) (extra : BlockId → Bool) (t : CachingBlockStore2 S Q)
    (l : Entries) : Type 0 where
  pub holds : Holds t.cache l
  pub distinct : NodupKeys l
  pub small : length l ≤ max_entries
  pub coherent : Coherent L extra t.below l

pub append-NodupKeys :
    (k : BlockId) (e : CacheEntry CachedBlock) (l : Entries)
    → find k l ≡ none
    → NodupKeys l
    → NodupKeys (l ++ (k, e) ∷ [])
append-NodupKeys k e l absent distinct =
    subst (λ m. NodupKeys m) (insert_fresh k e l absent) (insert-NodupKeys k e l distinct)

module _ {S : BlockStore2} (Q : QueueOps BlockId (CacheEntry CachedBlock)) where
  -- What a push does where the cache is full.
  delete_entry-run :
      (q r : Q.State) (w u : Below S) (k : BlockId) (entry : CacheEntry CachedBlock)
      → Q.peek_key q ≡ some k
      → Q.pop_first q ≡ (some entry, r)
      → destruct entry.value w ≡ ok u
      → Cache.delete_entry Q destruct max_entries q w ≡ ok (r, u)
  unfolding Cache.delete_entry
  delete_entry-run q r w u k entry peeked popped destructed =
      ground (arith, peeked, popped, destructed)

module _ {S : BlockStore2} {Q : QueueOps BlockId (CacheEntry CachedBlock)} where
  push_block-full :
      (now : ℕ) (k : BlockId) (b : CachedBlock) (s : CachingBlockStore2 S Q) (r q : Q.State)
      (u : Below S)
      → Q.size s.cache ≡ max_entries
      → Cache.delete_entry Q destruct max_entries s.cache s.below ≡ ok (r, u)
      → ltb (Q.size r) max_entries ≡ true
      → Q.push k (record { last_access = now; value = b }) r ≡ ok q
      → push_block now k b s ≡ ok (record { below = u; cache = q })
  unfolding push_block Cache.push Cache.make_space
  push_block-full now k b s r q u full deleted room pushed =
      ground (arith, deleted, pushed, full, room)

  push_block-room :
      (now : ℕ) (k : BlockId) (b : CachedBlock) (s : CachingBlockStore2 S Q) (q : Q.State)
      → Q.size s.cache < max_entries
      → Q.push k (record { last_access = now; value = b }) s.cache ≡ ok q
      → push_block now k b s ≡ ok (record { below = s.below; cache = q })
  unfolding push_block Cache.push Cache.make_space
  push_block-room now k b s q room pushed = ground (arith, room, pushed)

-- The block that is pushed stands at the end of the queue.
abbrev pub pushed : ℕ → BlockId → CachedBlock → Entries → Entries
pushed now k b l = l ++ (k, record { last_access = now; value = b }) ∷ []

pushed-small :
    (now : ℕ) (k : BlockId) (b : CachedBlock) (l : Entries)
    → length l < max_entries
    → length (pushed now k b l) ≤ max_entries
pushed-small now k b l room =
    ground (arith, length-append l ((k, record { last_access = now; value = b }) ∷ []), room)

absent_tail :
    (k k0 : BlockId) (e0 : CacheEntry CachedBlock) (l : Entries)
    → find k ((k0, e0) ∷ l) ≡ none
    → find k l ≡ none
unfolding find
absent_tail k k0 e0 l absent = ground (arith, absent)

other_first :
    (flag : Bool) (k k0 : BlockId) (e0 : CacheEntry CachedBlock) (l : Entries)
    → find k ((k0, e0) ∷ l) ≡ none
    → (flag && (k0 == k)) ≡ false
unfolding find
other_first flag k k0 e0 l absent =
    ground (arith, absent, bytes_eq.beq_iff k k0, bytes_eq.beq_iff k0 k)

absent_pushed :
    (now : ℕ) (k : BlockId) (b : CachedBlock) (k0 : BlockId) (e0 : CacheEntry CachedBlock)
    (l : Entries)
    → find k0 l ≡ none
    → find k ((k0, e0) ∷ l) ≡ none
    → find k0 (pushed now k b l) ≡ none
unfolding find
absent_pushed now k b k0 e0 l new absent = ground (
  arith,
  new,
  absent,
  find-append k0 l ((k, record { last_access = now; value = b }) ∷ []),
  bytes_eq.beq_iff k k0,
  bytes_eq.beq_iff k0 k,
)

module _ {S : BlockStore2} {Q : QueueOps BlockId (CacheEntry CachedBlock)}
    {contents : S.State → BlockId → Option Data} (L : IsLawful S contents)
    {Holds : Q.State → Entries → Type 0} (R : IsQueue Q Holds) where
  pushed-Holds :
      (now : ℕ) (k : BlockId) (b : CachedBlock) (q : Q.State) (l : Entries)
      → Holds q l
      → find k l ≡ none
      → (r : Q.State) × (Q.push k (record { last_access = now; value = b }) q ≡ ok r)
        × Holds r (pushed now k b l)
  pushed-Holds now k b q l h absent = R.push_lem k _ q l h absent

  pub delete_first-Holds :
      (q : Q.State) (w u : Below S) (k : BlockId) (entry : CacheEntry CachedBlock) (l : Entries)
      → Holds q ((k, entry) ∷ l)
      → destruct entry.value w ≡ ok u
      → (r : Q.State) × (Cache.delete_entry Q destruct max_entries q w ≡ ok (r, u)) × Holds r l
  delete_first-Holds q w u k entry l h destructed =
      let (r, popped, h') = R.pop_first_lem q ((k, entry) ∷ l) h in
      (
        r,
        delete_entry-run Q q r w u k entry (R.peek_key_lem q ((k, entry) ∷ l) h) popped destructed,
        h',
      )

  push_block_room :
      (now : ℕ) (k : BlockId) (b : CachedBlock) (extra : BlockId → Bool)
      (s : CachingBlockStore2 S Q) (l : Entries)
      → Holds s.cache l
      → NodupKeys l
      → length l < max_entries
      → find k l ≡ none
      → Coherent L extra s.below (pushed now k b l)
      → (t : CachingBlockStore2 S Q) × (l' : Entries) × (push_block now k b s ≡ ok t)
        × Fits L Holds extra t l'
        × ((a : BlockId)
            → seen (find a l') (contents t.below.base a)
              ≡ seen (find a (pushed now k b l)) (contents s.below.base a))
  push_block_room now k b extra s l h distinct room absent c =
      let (q, run, h') = pushed-Holds now k b s.cache l h absent in
      let size : Q.size s.cache < max_entries = omega (arith, R.size_lem s.cache l h, room) in
      (
        record { below = s.below; cache = q },
        pushed now k b l,
        push_block-room now k b s q size run,
        record {
          holds = h';
          distinct = append-NodupKeys k _ l absent distinct;
          small = pushed-small now k b l room;
          coherent = c;
        },
        λ a. refl,
      )

  push_block_full :
      (now : ℕ) (k : BlockId) (b : CachedBlock) (extra : BlockId → Bool)
      (s : CachingBlockStore2 S Q) (k0 : BlockId) (e0 : CacheEntry CachedBlock) (l : Entries)
      → Holds s.cache ((k0, e0) ∷ l)
      → NodupKeys ((k0, e0) ∷ l)
      → length ((k0, e0) ∷ l) ≡ max_entries
      → find k ((k0, e0) ∷ l) ≡ none
      → extra k0 ≡ false
      → Coherent L extra s.below (pushed now k b ((k0, e0) ∷ l))
      → (t : CachingBlockStore2 S Q) × (l' : Entries) × (push_block now k b s ≡ ok t)
        × Fits L Holds extra t l'
        × ((a : BlockId)
            → seen (find a l') (contents t.below.base a)
              ≡ seen (find a (pushed now k b ((k0, e0) ∷ l))) (contents s.below.base a))
  push_block_full now k b extra s k0 e0 l h (new, distinct) full absent other c =
      let absent' : find k l ≡ none = absent_tail k k0 e0 l absent in
      let (u, destructed, c', view) =
        evict-Coherent L extra s.below k0 e0 (pushed now k b l)
          (absent_pushed now k b k0 e0 l new absent) other c in
      let (r, deleted, h') = delete_first-Holds s.cache s.below u k0 e0 l h destructed in
      let (q, run, h'') = pushed-Holds now k b r l h' absent' in
      (
        record { below = u; cache = q },
        pushed now k b l,
        push_block-full now k b s r q u (omega (arith, R.size_lem s.cache ((k0, e0) ∷ l) h, full))
            deleted (lt→ltb _ _ (omega (arith, R.size_lem r l h', full))) run,
        record {
          holds = h'';
          distinct = append-NodupKeys k _ l absent' distinct;
          small = pushed-small now k b l (ground (arith, full));
          coherent = c';
        },
        view,
      )

  -- A push, which may delete the first entry, changes nothing that is seen.
  pub push_block-Fits :
      (now : ℕ) (flag : Bool) (k : BlockId) (b : CachedBlock) (s : CachingBlockStore2 S Q)
      (l : Entries)
      → Holds s.cache l
      → NodupKeys l
      → length l ≤ max_entries
      → find k l ≡ none
      → Coherent L (λ a. flag && (a == k)) s.below (pushed now k b l)
      → (t : CachingBlockStore2 S Q) × (l' : Entries) × (push_block now k b s ≡ ok t)
        × Fits L Holds (λ a. flag && (a == k)) t l'
        × ((a : BlockId)
            → seen (find a l') (contents t.below.base a)
              ≡ seen (find a (pushed now k b l)) (contents s.below.base a))
  push_block-Fits now flag k b s [] h distinct small absent c =
      push_block_room now k b (λ a. flag && (a == k)) s [] h distinct (ground arith) absent c
  push_block-Fits now flag k b s ((k0, e0) ∷ l) h distinct small absent c =
      elim (Bool-cases (length ((k0, e0) ∷ l) == max_entries)) [
        | inl full ↦
            push_block_full now k b (λ a. flag && (a == k)) s k0 e0 l h distinct
              (ground (arith, full)) absent (other_first flag k k0 e0 l absent) c
        | inr room ↦
            push_block_room now k b (λ a. flag && (a == k)) s ((k0, e0) ∷ l) h distinct
              (ground (arith, room)) absent c
      ]
