-- ===== src/Caching/Flushing.antt =====
-- What a flush and a round of the purge thread leave of the cache.
use libcryfs.Common.{
  ℕ, zero, suc, ◌≤◌, ◌<◌, ◌≡◌, refl, ◌∙◌, sym, ap, Bool, true, false, Option, some, [], ◌∷◌, arith,
  if◌then◌else◌, length, Bool-cases, inl, inr,
}
use libcryfs.Common.Equality.{bytes_eq}
use libcryfs.Common.Result.{ok}
use libcryfs.Common.Assoc.{find, NodupKeys}
use libcryfs.Common.Bytes.{Data, BlockId}
use libcryfs.BlockStore.{BlockStore2, IsLawful}
use libcryfs.Caching.Queue.{QueueOps, IsQueue}
use libcryfs.Caching.Cache
use libcryfs.Caching.Cache.{CacheEntry}
use libcryfs.Caching.Store.{
  CachedBlock, contains, Below, CachingBlockStore2, destruct, max_entries, flush, purge,
}
use libcryfs.Caching.Coherent.{Entries, seen, Coherent, evict-Coherent}
use libcryfs.Caching.Pushing.{Fits, delete_first-Holds}
use libcryfs.Caching.Refinement.{Implements}

-- The entries from the first one on that is not matched.
abbrev pub drop_while : (CacheEntry CachedBlock → Bool) → Entries → Entries
drop_while matches [] = []
drop_while matches ((k, entry) ∷ l) =
    let rest = drop_while matches l in if matches entry then rest else (k, entry) ∷ l

module _ {S : BlockStore2} (Q : QueueOps BlockId (CacheEntry CachedBlock)) where
  delete_matching_entries_empty :
      (matches : CacheEntry CachedBlock → Bool) (n : ℕ) (q : Q.State) (w : Below S)
      → Q.size q ≡ 0
      → Cache.delete_matching_entries Q destruct max_entries matches n q w ≡ ok (q, w)
  unfolding Cache.delete_matching_entries Cache.delete_matching_entry
  delete_matching_entries_empty matches zero q w empty = refl
  delete_matching_entries_empty matches (suc n) q w empty = ground (arith, empty)

  delete_matching_entries_keep :
      (matches : CacheEntry CachedBlock → Bool) (n : ℕ) (q : Q.State) (w : Below S)
      (entry : CacheEntry CachedBlock)
      → Q.peek q ≡ some entry
      → matches entry ≡ false
      → Cache.delete_matching_entries Q destruct max_entries matches n q w ≡ ok (q, w)
  unfolding Cache.delete_matching_entries Cache.delete_matching_entry
  delete_matching_entries_keep matches zero q w entry peeked keep = refl
  delete_matching_entries_keep matches (suc n) q w entry peeked keep = ground (arith, peeked, keep)

  delete_matching_entries_next :
      (matches : CacheEntry CachedBlock → Bool) (n : ℕ) (q r : Q.State) (w u : Below S)
      (entry : CacheEntry CachedBlock)
      → 0 < Q.size q
      → Q.peek q ≡ some entry
      → matches entry ≡ true
      → Cache.delete_entry Q destruct max_entries q w ≡ ok (r, u)
      → Cache.delete_matching_entries Q destruct max_entries matches (suc n) q w
        ≡ Cache.delete_matching_entries Q destruct max_entries matches n r u
  unfolding Cache.delete_matching_entries Cache.delete_matching_entry
  delete_matching_entries_next matches n q r w u entry size peeked matched deleted =
      ground (arith, size, peeked, matched, deleted)

module _ {S : BlockStore2} {Q : QueueOps BlockId (CacheEntry CachedBlock)}
    {contents : S.State → BlockId → Option Data} (L : IsLawful S contents)
    {Holds : Q.State → Entries → Type 0} (R : IsQueue Q Holds) where
  -- The entries in front that match are deleted, and nothing that is seen changes.
  delete_matching_entries-Fits :
      (matches : CacheEntry CachedBlock → Bool) (n : ℕ) (q : Q.State) (w : Below S) (l : Entries)
      → length l ≤ n
      → n ≤ max_entries
      → Holds q l
      → NodupKeys l
      → Coherent L (λ a. false) w l
      → (r : Q.State) × (u : Below S) × (Cache.delete_matching_entries Q destruct max_entries
            matches n q w
          ≡ ok (r, u))
        × Fits {S = S} {Q = Q} L Holds
            (λ a. false)
            (record { below = u; cache = r })
            (drop_while matches l)
        × ((a : BlockId)
            → seen (find a (drop_while matches l)) (contents u.base a)
              ≡ seen (find a l) (contents w.base a))
  delete_matching_entries-Fits matches n q w [] enough small h distinct c = (
    q,
    w,
    delete_matching_entries_empty Q matches n q w (R.size_lem q [] h),
    record { holds = h; distinct = distinct; small = ground (arith, enough, small); coherent = c },
    λ a. refl,
  )
  delete_matching_entries-Fits matches zero q w ((k, entry) ∷ l) enough small h distinct c =
      ground (arith, enough)
  delete_matching_entries-Fits matches (suc n) q w ((k, entry) ∷ l) enough small h (new, distinct)
        c =
      elim (Bool-cases (matches entry)) [
        | inr keep ↦ (
          q,
          w,
          delete_matching_entries_keep Q matches (suc n) q w entry (R.peek_lem q ((k, entry) ∷ l) h)
              keep,
          rw keep (record {
            holds = h;
            distinct = (new, distinct);
            small = ground (arith, enough, small);
            coherent = c;
          }),
          λ a. rw keep refl,
        )
        | inl matched ↦
            let (u, destructed, c', seen_same) =
              evict-Coherent L (λ a. false) w k entry l new refl c in
            let (r, deleted, h') = delete_first-Holds L R q w u k entry l h destructed in
            let (r', u', run, f, view) =
              delete_matching_entries-Fits matches n r u l (ground (arith, enough))
                (ground (arith, small)) h' distinct c' in
            (
              r',
              u',
              delete_matching_entries_next Q matches n q r w u entry
                    (omega (arith, R.size_lem q ((k, entry) ∷ l) h, enough, small))
                    (R.peek_lem q ((k, entry) ∷ l) h) matched deleted
                  ∙ run,
              rw matched f,
              λ a. rw matched (view a ∙ seen_same a),
            )
      ]

  -- Over a base store without faults, a round of the purge thread succeeds and leaves a state that
  -- implements the same map, in which the cache has the entries from the first one on that is not old.
  pub purge-Implements :
      (is_old : ℕ → Bool) (s : CachingBlockStore2 S Q) (m : BlockId → Option Data)
      (i : Implements L Holds s m)
      → (t : CachingBlockStore2 S Q) × (purge is_old s ≡ ok t)
        × (j : Implements L Holds t m) × (j.entries
            ≡ drop_while (λ entry. is_old entry.last_access) i.entries)
  unfolding purge Cache.purge
  purge-Implements is_old s m i =
      let (r, u, run, f, view) =
        delete_matching_entries-Fits (λ entry. is_old entry.last_access) (Q.size s.cache) s.cache
          s.below i.entries (omega (arith, R.size_lem s.cache i.entries i.fits.holds, i.fits.small))
          (omega (arith, R.size_lem s.cache i.entries i.fits.holds, i.fits.small)) i.fits.holds
          i.fits.distinct i.fits.coherent in
      (
        record { below = u; cache = r },
        rw run refl,
        record { entries = _; fits = f; view = λ a. view a ∙ i.view a },
        refl,
      )

  drop_while-all : (l : Entries) → drop_while (λ entry. true) l ≡ []
  drop_while-all [] = refl
  drop_while-all ((k, entry) ∷ l) = drop_while-all l

  -- Over a base store without faults, a flush of a caching block store that implements a partial map
  -- succeeds, and then the cache is empty, no block is listed as missing below, and the store below has
  -- exactly the blocks of the map.
  pub flush-Implements :
      (s : CachingBlockStore2 S Q) (m : BlockId → Option Data)
      → Implements L Holds s m
      → (t : CachingBlockStore2 S Q) × (flush s ≡ ok t)
        × Implements L Holds t m
        × Holds t.cache []
        × ((a : BlockId) → contents t.below.base a ≡ m a)
        × ((a : BlockId) → contains a t.below.not_in_base_store ≡ false)
  unfolding flush Cache.flush find
  flush-Implements s m i =
      let (r, u, run, f, view) =
        delete_matching_entries-Fits (λ entry. true) (Q.size s.cache) s.cache s.below i.entries
          (omega (arith, R.size_lem s.cache i.entries i.fits.holds, i.fits.small))
          (omega (arith, R.size_lem s.cache i.entries i.fits.holds, i.fits.small)) i.fits.holds
          i.fits.distinct i.fits.coherent in
      let f0 : Fits {S = S} {Q = Q} L Holds (λ a. false) (record { below = u; cache = r }) [] =
        rw (sym (drop_while-all i.entries)) f in
      let same : (a : BlockId) → contents u.base a ≡ m a = λ a.
        sym (ap (λ e. seen (find a e) (contents u.base a)) (drop_while-all i.entries))
        ∙ view a
        ∙ i.view a in
      (
        record { below = u; cache = r },
        rw run refl,
        record { entries = []; fits = f0; view = same },
        f0.holds,
        same,
        λ a. ground (arith, f0.coherent a),
      )
