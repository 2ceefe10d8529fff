-- ===== src/Caching/Chain.antt =====
-- The entries of a queue map, as the chain of a list prescribes them.
use libcryfs.Common.{
  ◌≡◌, refl, Bool, false, Option, none, some, [], ◌∷◌, ◌++◌, arith, if◌then◌else◌,
}
use libcryfs.Common.Equality.{Eq, ◌==◌}
use libcryfs.Common.Assoc.{Assoc, find, NodupKeys}
use libcryfs.Caching.Queue.{first_key}
use libcryfs.Caching.QueueMap.{Entry, modify}

module _ {K : Type 0} ⦃e : Eq K⦄ where
  -- Whether an address is the one of the entry with this key.
  abbrev pub is_at : Option K → K → Bool
  is_at none k = false
  is_at (some j) k = j == k

module _ {K V : Type 0} ⦃e : Eq K⦄ where
  abbrev pub relink_next : Bool → Option K → Option (Entry K V) → Option (Entry K V)
  relink_next b next none = none
  relink_next b next (some n) = some (if b then record n { next = next } else n)

  abbrev pub relink_prev : Bool → Option K → Option (Entry K V) → Option (Entry K V)
  relink_prev b prev none = none
  relink_prev b prev (some n) = some (if b then record n { prev = prev } else n)

  pub find-modify_next :
      (k j : K) (next : Option K) (m : Assoc K (Entry K V))
      → find j (modify k (λ n. record n { next = next }) m) ≡ relink_next (k == j) next (find j m)
  unfolding find modify
  find-modify_next k j next [] = refl
  find-modify_next k j next ((i, n) ∷ m) =
      ground (arith, find-modify_next k j next m, e.beq_iff k j, e.beq_iff j i, e.beq_iff k i)

  pub find-modify_prev :
      (k j : K) (prev : Option K) (m : Assoc K (Entry K V))
      → find j (modify k (λ n. record n { prev = prev }) m) ≡ relink_prev (k == j) prev (find j m)
  unfolding find modify
  find-modify_prev k j prev [] = refl
  find-modify_prev k j prev ((i, n) ∷ m) =
      ground (arith, find-modify_prev k j prev m, e.beq_iff k j, e.beq_iff j i, e.beq_iff k i)

  -- The entry that key `k` has where this list follows address `p`.
  abbrev pub chained : Option K → Assoc K V → K → Option (Entry K V)
  chained p [] k = none
  chained p ((j, v) ∷ l) k =
      let rest = chained (some j) l k in
      if k == j then some (record { prev = p; next = first_key l; value = v }) else rest

  -- The address of the last entry.
  abbrev pub last_or : Option K → Assoc K V → Option K
  last_or p [] = p
  last_or p ((j, v) ∷ l) = last_or (some j) l

  pub chained_absent :
      (p : Option K) (l : Assoc K V) (k : K) → find k l ≡ none → chained p l k ≡ none
  unfolding find
  chained_absent p [] k h = refl
  chained_absent p ((j, v) ∷ l) k h = ground (arith, chained_absent (some j) l k)

  pub is_at-last_or :
      (p : Option K) (l : Assoc K V) (k : K)
      → find k l ≡ none
      → is_at p k ≡ false
      → is_at (last_or p l) k ≡ false
  unfolding find
  is_at-last_or p [] k h a = a
  is_at-last_or p ((j, v) ∷ l) k h a =
      ground (arith, is_at-last_or (some j) l k, e.beq_iff j k, e.beq_iff k j)

  pub chained-append :
      (p : Option K) (l : Assoc K V) (k : K) (v : V) (j : K)
      → NodupKeys l
      → find k l ≡ none
      → chained p (l ++ (k, v) ∷ []) j ≡ (
          if j == k
          then some (record { prev = last_or p l; next = none; value = v })
          else relink_next (is_at (last_or p l) j) (some k) (chained p l j))
  unfolding find
  chained-append p [] k v j u h = ground arith
  chained-append p ((i, w) ∷ []) k v j u h =
      ground (arith, h, e.beq_iff j k, e.beq_iff j i, e.beq_iff i j, e.beq_iff k i)
  chained-append p ((i, w) ∷ (a, b) ∷ l) k v j (fresh, u) h = ground (
    arith,
    h,
    fresh,
    e.beq_iff j k,
    e.beq_iff j i,
    e.beq_iff i j,
    e.beq_iff k i,
    chained-append (some i) ((a, b) ∷ l) k v j u,
    is_at-last_or (some a) l i,
    e.beq_iff a i,
    e.beq_iff i a,
  )
