-- ===== src/Caching/Refinement.antt =====
-- What a caching block store promises: it is a partial map from block ids to byte strings, like the
-- store below it.
use libcryfs.Common.{
  ℕ, ◌≤◌, ◌≡◌, refl, ◌∙◌, ap, Bool, true, false, ◌&&◌, ◌||◌, Option, none, some, [], ◌∷◌, arith,
  if◌then◌else◌, length, Option-cases, inl, inr,
}
use libcryfs.Common.Equality.{◌==◌, bytes_eq, beq_refl}
use libcryfs.Common.Result.{ok}
use libcryfs.Common.Assoc.{
  find, erase, NodupKeys, find-append, find-erase, erase-NodupKeys, length-erase, erase_absent,
}
use libcryfs.Common.Bytes.{Data, BlockId}
use libcryfs.BlockStore.{BlockStore2, IsLawful}
use libcryfs.Caching.Queue.{QueueOps, IsQueue}
use libcryfs.Caching.Cache.{CacheEntry}
use libcryfs.Caching.Store.{
  CachedBlock, contains, Below, CachingBlockStore2, max_entries, push_block,
}
use libcryfs.Caching.Coherent.{Entries, seen, good}
use libcryfs.Caching.Pushing.{Fits, pushed, push_block-Fits}

abbrev pub entry_of : ℕ → CachedBlock → CacheEntry CachedBlock
entry_of now b = record { last_access = now; value = b }

-- The entry of block `a` where block `k` was pushed anew.
abbrev pub repushed :
    ℕ → BlockId → CachedBlock → Entries → BlockId → Option (CacheEntry CachedBlock)
repushed now k b l a = if a == k then some (entry_of now b) else find a l

find-pushed :
    (now : ℕ) (k : BlockId) (b : CachedBlock) (l : Entries) (a : BlockId)
    → find a (pushed now k b (erase k l)) ≡ repushed now k b l a
unfolding find
find-pushed now k b l a = ground (
  arith,
  find-append a (erase k l) ((k, record { last_access = now; value = b }) ∷ []),
  find-erase a k l,
)

erase-small :
    (k : BlockId) (l : Entries)
    → NodupKeys l
    → length l ≤ max_entries
    → length (erase k l) ≤ max_entries
erase-small k l distinct small = elim (Option-cases (find k l)) [
  | inl absent ↦ ground (arith, erase_absent k l absent)
  | inr (e, found) ↦ ground (arith, length-erase k e l distinct found)
]

pub record Implements {S : BlockStore2} {Q : QueueOps BlockId (CacheEntry CachedBlock)}
    {contents : S.State → BlockId → Option Data} (L : IsLawful S contents)
    (Holds : Q.State → Entries → Type 0) (s : CachingBlockStore2 S Q) (m : BlockId → Option Data)
    : Type 0 where
  pub entries : Entries
  pub fits : Fits L Holds (λ a. false) s entries
  pub view : (a : BlockId) → seen (find a entries) (contents s.below.base a) ≡ m a

module _ {S : BlockStore2} {Q : QueueOps BlockId (CacheEntry CachedBlock)}
    {contents : S.State → BlockId → Option Data} (L : IsLawful S contents)
    {Holds : Q.State → Entries → Type 0} (R : IsQueue Q Holds) where
  -- A block that was taken out of the cache, or was not in it, is pushed.
  pub repush :
      (now : ℕ) (flag : Bool) (k : BlockId) (b : CachedBlock) (q : Q.State) (w : Below S)
      (l : Entries)
      → Holds q (erase k l)
      → NodupKeys l
      → length l ≤ max_entries
      → ((a : BlockId)
          → good a
              (repushed now k b l a)
              (contents w.base a)
              (contains a w.not_in_base_store || (flag && (a == k)))
            ≡ true)
      → (t : CachingBlockStore2 S Q) × (l' : Entries) × (push_block {S = S} {Q = Q} now k b
            (record { below = w; cache = q })
          ≡ ok t)
        × Fits L Holds (λ a. flag && (a == k)) t l'
        × ((a : BlockId)
            → seen (find a l') (contents t.below.base a)
              ≡ seen (repushed now k b l a) (contents w.base a))
  repush now flag k b q w l h distinct small c =
      let (t, l', run, f, view) =
        push_block-Fits L R now flag k b (record { below = w; cache = q }) (erase k l) h
          (erase-NodupKeys k l distinct) (erase-small k l distinct small)
          (find-erase k k l ∙ rw (beq_refl k) refl) (λ a. rw (find-pushed now k b l a) (c a)) in
      (t, l', run, f, λ a. view a ∙ ap (λ e. seen e (contents w.base a)) (find-pushed now k b l a))

  -- A block was taken out of the cache, or was not in it.
  pub taken-Implements :
      (k : BlockId) (q : Q.State) (w : Below S) (l : Entries) (m : BlockId → Option Data)
      → Holds q (erase k l)
      → NodupKeys l
      → length l ≤ max_entries
      → ((a : BlockId)
          → good a
              (if a == k then none else find a l)
              (contents w.base a)
              (contains a w.not_in_base_store)
            ≡ true)
      → ((a : BlockId) → seen (if a == k then none else find a l) (contents w.base a) ≡ m a)
      → Implements {S = S} {Q = Q} L Holds (record { below = w; cache = q }) m
  taken-Implements k q w l m h distinct small c view = record {
    entries = erase k l;
    fits = record {
      holds = h;
      distinct = erase-NodupKeys k l distinct;
      small = erase-small k l distinct small;
      coherent = λ a. rw (find-erase a k l) (ground (arith, c a));
    };
    view = λ a. rw (find-erase a k l) (view a);
  }

module _ {S : BlockStore2} {Q : QueueOps BlockId (CacheEntry CachedBlock)}
    {contents : S.State → BlockId → Option Data} (L : IsLawful S contents)
    {Holds : Q.State → Entries → Type 0} (R : IsQueue Q Holds) where
  -- With an empty cache the blocks are those of the store below.
  pub new-Implements :
      (base : S.State)
      → Implements {S = S} {Q = Q} L Holds
          (record { below = record { base = base; not_in_base_store = [] }; cache = Q.new })
          (contents base)
  unfolding find
  new-Implements base = record {
    entries = [];
    fits = record { holds = R.new_lem; distinct = tt; small = ground arith; coherent = λ a. refl };
    view = λ a. refl;
  }
