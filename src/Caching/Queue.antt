-- ===== src/Caching/Queue.antt =====
-- What the cache uses of `QueueMap` (src/blockstore/implementations/caching/cache/QueueMap.h), as an
-- interface: the operations, and the list of entries in the order of the queue that they act on.
use libcryfs.Common.{ℕ, ◌%◌, ◌^◌, ◌≡◌, Option, none, some, [], ◌∷◌, ◌++◌, length}
use libcryfs.Common.Equality.{Eq}
use libcryfs.Common.Result.{Result, ok}
use libcryfs.Common.Assoc.{Assoc, find, erase}

pub record QueueOps (K V : Type 0) : Type 1 where
  pub State : Type 0
  pub new : State
  pub push : K → V → State → Result State
  pub pop : K → State → Option V × State
  pub pop_first : State → Option V × State
  pub peek_key : State → Option K
  pub peek : State → Option V
  pub size : State → ℕ

module _ {K V : Type 0} where
  abbrev pub first_key : Assoc K V → Option K
  first_key [] = none
  first_key ((k, v) ∷ l) = some k

  abbrev pub first_value : Assoc K V → Option V
  first_value [] = none
  first_value ((k, v) ∷ l) = some v

  abbrev pub tail : Assoc K V → Assoc K V
  tail [] = []
  tail (entry ∷ l) = l

pub record IsQueue {K V : Type 0} ⦃e : Eq K⦄ (Q : QueueOps K V)
    (Holds : Q.State → Assoc K V → Type 0) : Type 0 where
  pub new_lem : Holds Q.new []
  pub push_lem :
      (k : K) (v : V) (q : Q.State) (l : Assoc K V)
      → Holds q l
      → find k l ≡ none
      → (r : Q.State) × (Q.push k v q ≡ ok r) × Holds r (l ++ (k, v) ∷ [])
  pub pop_lem :
      (k : K) (q : Q.State) (l : Assoc K V)
      → Holds q l
      → (r : Q.State) × (Q.pop k q ≡ (find k l, r)) × Holds r (erase k l)
  pub pop_first_lem :
      (q : Q.State) (l : Assoc K V)
      → Holds q l
      → (r : Q.State) × (Q.pop_first q ≡ (first_value l, r)) × Holds r (tail l)
  pub peek_key_lem : (q : Q.State) (l : Assoc K V) → Holds q l → Q.peek_key q ≡ first_key l
  pub peek_lem : (q : Q.State) (l : Assoc K V) → Holds q l → Q.peek q ≡ first_value l
  pub size_lem : (q : Q.State) (l : Assoc K V) → Holds q l → Q.size q ≡ length l % 2 ^ 32
