-- ===== src/Caching/Cache.antt =====
-- `Cache` (src/blockstore/implementations/caching/cache/Cache.h) and `CacheEntry`. A value that leaves
-- the cache is destructed, which changes the world outside: `destruct` is that effect. The locks are
-- not modelled: an operation is one step. So is the thread that purges old entries: `purge` is what
-- one of its rounds does, with the test of the age as an argument.
use libcryfs.Common.{
  ℕ, zero, suc, Bool, true, false, ◌&&◌, Option, none, some, ltb, leb, if◌then◌else◌,
}
use libcryfs.Common.Equality.{◌==◌, nat_eq}
use libcryfs.Common.Result.{Result, ok, err, guard, assert_failed, ◌>>=◌, ◌>>◌}
use libcryfs.Caching.Queue.{QueueOps}

pub record CacheEntry (V : Type 0) : Type 0 where
  pub last_access : ℕ
  pub value : V

module _ {K V : Type 0} (Q : QueueOps K (CacheEntry V)) where
  unfoldable pub pop : K → Q.State → Option V × Q.State
  pop key q =
      let (found, q') = Q.pop key q in
      (elim found [ none ↦ none | some entry ↦ some entry.value ], q')

module _ {K V W : Type 0} (Q : QueueOps K (CacheEntry V)) (destruct : V → W → Result W)
    (max_entries : ℕ) where
  -- `_deleteEntry`
  unfoldable pub delete_entry : Q.State → W → Result (Q.State × W)
  delete_entry q w = elim (Q.peek_key q) [
    | none ↦ err assert_failed
    | some key ↦
        (let (popped, q') = Q.pop_first q in
          elim popped [
            | none ↦ ok (q', w)
            | some entry ↦ do w' ← destruct entry.value w; ok (q', w')
          ])
  ]

  -- The loop of `_makeSpaceForEntry` and the assertion behind it. Nothing is pushed in between, so
  -- that one round is enough.
  unfoldable pub make_space : ℕ → Q.State → W → Result (Q.State × W)
  make_space zero q w = do guard (ltb (Q.size q) max_entries) assert_failed; ok (q, w)
  make_space (suc rounds) q w = elim (Q.size q == max_entries) [
    | false ↦ do guard (ltb (Q.size q) max_entries) assert_failed; ok (q, w)
    | true ↦ do (q', w') ← delete_entry q w; make_space rounds q' w'
  ]

  unfoldable pub push : ℕ → K → V → Q.State → W → Result (Q.State × W)
  push now key value q w = do
    guard (leb (Q.size q) max_entries) assert_failed
    (q', w') ← make_space 1 q w
    q'' ← Q.push key (record { last_access = now; value = value }) q'
    ok (q'', w')

  -- `_deleteMatchingEntryAtBeginning`: whether an entry was deleted.
  unfoldable pub delete_matching_entry :
      (CacheEntry V → Bool) → Q.State → W → Result (Bool × Q.State × W)
  delete_matching_entry matches q w =
      if ltb 0 (Q.size q) && elim (Q.peek q) [ none ↦ false | some entry ↦ matches entry ]
      then (do (q', w') ← delete_entry q w; ok (true, q', w'))
      else ok (false, q, w)

  -- `_deleteMatchingEntriesAtBeginning`, with the entries that are left to look at.
  unfoldable pub delete_matching_entries :
      (CacheEntry V → Bool) → ℕ → Q.State → W → Result (Q.State × W)
  delete_matching_entries matches zero q w = ok (q, w)
  delete_matching_entries matches (suc n) q w = do
    (deleted, q', w') ← delete_matching_entry matches q w
    elim deleted [ false ↦ ok (q', w') | true ↦ delete_matching_entries matches n q' w' ]

  -- `_deleteOldEntriesParallel`, with the test of the age.
  unfoldable pub purge : (ℕ → Bool) → Q.State → W → Result (Q.State × W)
  purge is_old q w = delete_matching_entries (λ entry. is_old entry.last_access) (Q.size q) q w

  -- `_deleteAllEntriesParallel`
  unfoldable pub flush : Q.State → W → Result (Q.State × W)
  flush q w = delete_matching_entries (λ entry. true) (Q.size q) q w

  -- The destructor.
  unfoldable pub destroy : Q.State → W → Result W
  destroy q w = do (q', w') ← flush q w; guard (Q.size q' == 0) assert_failed; ok w'
