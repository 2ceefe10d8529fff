-- ===== src/Caching/Unchain.antt =====
-- To take an entry out of a chain: its neighbours are linked to one another.
use libcryfs.Common.{
  ◌≡◌, refl, Bool, true, false, not, Option, none, some, [], ◌∷◌, arith, if◌then◌else◌, Bool-cases,
  inl, inr, Option-cases,
}
use libcryfs.Common.Equality.{Eq, ◌==◌, beq_refl}
use libcryfs.Common.Assoc.{Assoc, find, erase, NodupKeys, erase_absent}
use libcryfs.BlockStore.{is_some}
use libcryfs.Caching.Queue.{first_key}
use libcryfs.Caching.QueueMap.{Entry}
use libcryfs.Caching.Chain.{is_at, relink_next, relink_prev, chained, last_or, chained_absent}

module _ {K V : Type 0} ⦃e : Eq K⦄ where
  prev-off :
      (p : Option K) (l : Assoc K V) (k i : K) (n : Entry K V)
      → chained p l k ≡ some n
      → find i l ≡ none
      → is_at p i ≡ false
      → is_at n.prev i ≡ false
  unfolding find
  prev-off p [] k i n c h off = cc
  prev-off p ((j, v) ∷ l) k i n c h off =
      ground (arith, c, h, off, prev-off (some j) l k i n, e.beq_iff i j, e.beq_iff j i)

  next-off :
      (p : Option K) (l : Assoc K V) (k i : K) (n : Entry K V)
      → chained p l k ≡ some n
      → find i l ≡ none
      → is_at n.next i ≡ false
  unfolding find
  next-off p [] k i n c h = cc
  next-off p ((j, v) ∷ []) k i n c h = ground (arith, c, h)
  next-off p ((j, v) ∷ (a, w) ∷ l) k i n c h =
      ground (arith, c, h, next-off (some j) ((a, w) ∷ l) k i n, e.beq_iff i a, e.beq_iff a i)

  pub prev-is_some :
      (a : K) (l : Assoc K V) (k : K) (n : Entry K V)
      → chained (some a) l k ≡ some n
      → is_some n.prev ≡ true
  prev-is_some a [] k n c = cc
  prev-is_some a ((j, v) ∷ l) k n c = ground (arith, c, prev-is_some j l k n)

  first_key-erase_inner :
      (i : K) (l : Assoc K V) (k : K) (n : Entry K V)
      → NodupKeys l
      → find i l ≡ none
      → chained (some i) l k ≡ some n
      → first_key (erase k l) ≡ (if is_at n.prev i then n.next else first_key l)
  unfolding find erase
  first_key-erase_inner i [] k n u h c = cc
  first_key-erase_inner i ((a, w) ∷ l) k n (fresh, u) h c = ground (
    arith,
    c,
    h,
    fresh,
    prev-off (some a) l k i n,
    e.beq_iff a i,
    e.beq_iff i a,
    beq_refl i,
    e.beq_iff k a,
    erase_absent k l,
  )

  pub first_key-erase_front :
      (l : Assoc K V) (k : K) (n : Entry K V)
      → NodupKeys l
      → chained none l k ≡ some n
      → first_key (erase k l) ≡ (elim n.prev [ none ↦ n.next | some _ ↦ first_key l ])
  unfolding find erase
  first_key-erase_front [] k n u c = cc
  first_key-erase_front ((a, w) ∷ l) k n (fresh, u) c =
      ground (arith, c, fresh, prev-is_some a l k n, e.beq_iff k a, erase_absent k l)

  pub last_or-erase :
      (p : Option K) (l : Assoc K V) (k : K) (n : Entry K V)
      → NodupKeys l
      → chained p l k ≡ some n
      → last_or p (erase k l) ≡ (elim n.next [ none ↦ n.prev | some _ ↦ last_or p l ])
  unfolding find erase
  last_or-erase p [] k n u c = cc
  last_or-erase p ((a, w) ∷ []) k n (fresh, u) c = ground (arith, c)
  last_or-erase p ((a, w) ∷ (b, x) ∷ l) k n (fresh, u) c = ground (
    arith,
    c,
    fresh,
    u,
    last_or-erase (some a) ((b, x) ∷ l) k n u,
    e.beq_iff k a,
    e.beq_iff a b,
    erase_absent k ((b, x) ∷ l),
  )

  -- No entry of the list stands at this address.
  abbrev pub off : Option K → Assoc K V → Bool
  off none l = true
  off (some i) l = not (is_some (find i l))

  -- The address in front is found in the first entry only.
  chained-start :
      (p q : Option K) (l : Assoc K V) (j : K)
      → chained p l j ≡ relink_prev (is_at (first_key l) j) p (chained q l j)
  chained-start p q [] j = refl
  chained-start p q ((a, w) ∷ l) j = elim (Bool-cases (j == a)) [
    | inl same ↦ ground (arith, same, e.beq_iff a j, e.beq_iff j a)
    | inr other ↦
        ground (arith, other, e.beq_iff a j, e.beq_iff j a, Option-cases (chained (some a) l j))
  ]

  chained-erase_first :
      (p : Option K) (k : K) (w : V) (l : Assoc K V) (j : K)
      → find k l ≡ none
      → off p l ≡ true
      → chained p l j ≡ (
          if j == k
          then none
          else relink_prev
              (is_at (first_key l) j)
              p
              (relink_next (is_at p j) (first_key l) (chained p ((k, w) ∷ l) j)))
  unfolding find
  chained-erase_first none k w l j fresh o =
      ground
        (arith, fresh, o, e.beq_iff j k, chained-start none (some k) l j, chained_absent none l k)
  chained-erase_first (some i) k w l j fresh o = elim (Bool-cases (i == j)) [
    | inl same ↦
        let absent : find j l ≡ none = ground (arith, o, same, e.beq_iff i j) in
        ground (
          arith,
          absent,
          fresh,
          e.beq_iff j k,
          chained_absent (some i) l j absent,
          chained_absent (some k) l j absent,
        )
    | inr other ↦ ground (
      arith,
      fresh,
      other,
      e.beq_iff j k,
      chained-start (some i) (some k) l j,
      chained_absent (some i) l k,
    )
  ]

  pub chained-erase :
      (p : Option K) (l : Assoc K V) (k : K) (n : Entry K V) (j : K)
      → NodupKeys l
      → off p l ≡ true
      → chained p l k ≡ some n
      → chained p (erase k l) j ≡ (
          if j == k
          then none
          else relink_prev
              (is_at n.next j)
              n.prev
              (relink_next (is_at n.prev j) n.next (chained p l j)))
  unfolding find erase
  chained-erase p [] k n j u o c = cc
  chained-erase p ((i, w) ∷ l) k n j (fresh, u) o c = elim (Bool-cases (k == i)) [
    | inl first ↦
        ground (
          arith,
          first,
          fresh,
          c,
          o,
          e.beq_iff k i,
          chained-erase_first p k w l j,
          erase_absent k l,
        )
    | inr later ↦ ground (
      arith,
      later,
      fresh,
      c,
      o,
      u,
      e.beq_iff j i,
      e.beq_iff i j,
      e.beq_iff k j,
      e.beq_iff i k,
      beq_refl i,
      chained-erase (some i) l k n j u,
      first_key-erase_inner i l k n u fresh,
      next-off (some i) l k i n,
    )
  ]
