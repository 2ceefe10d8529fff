-- ===== src/Caching/Links.antt =====
-- What the changes of links do to a queue map.
use libcryfs.Common.{
  ◌+◌, ◌≡◌, refl, ◌∙◌, sym, ap, true, false, Option, none, some, [], ◌∷◌, ◌++◌, arith, length,
  Option-cases, inl, inr,
}
use libcryfs.Common.Equality.{Eq}
use libcryfs.Common.Assoc.{
  Assoc, find, erase, NodupKeys, length-erase, insert_fresh, insert-NodupKeys,
}
use libcryfs.BlockStore.{is_some}
use libcryfs.Caching.Queue.{first_key}
use libcryfs.Caching.QueueMap.{Entry, QueueMap, modify, set_next, set_prev, remove_from_queue}
use libcryfs.Caching.Chain.{
  is_at, relink_next, relink_prev, chained, last_or, find-modify_next, find-modify_prev,
}

module _ {K : Type 0} ⦃e : Eq K⦄ where
  pub length-erase_some :
      {W : Type 0} (k : K) (m : Assoc K W)
      → NodupKeys m
      → is_some (find k m) ≡ true
      → length (erase k m) + 1 ≡ length m
  length-erase_some k m u found = elim (Option-cases (find k m)) [
    | inl none_found ↦ ground (arith, none_found, found)
    | inr (v, some_found) ↦ length-erase k v m u some_found
  ]

module _ {K V : Type 0} ⦃e : Eq K⦄ where
  relink_next_nothing : (next : Option K) (n : Option (Entry K V)) → relink_next false next n ≡ n
  relink_next_nothing next none = refl
  relink_next_nothing next (some n) = refl

  relink_prev_nothing : (prev : Option K) (n : Option (Entry K V)) → relink_prev false prev n ≡ n
  relink_prev_nothing prev none = refl
  relink_prev_nothing prev (some n) = refl

  pub find-set_next :
      (p next : Option K) (q : QueueMap K V) (j : K)
      → find j (set_next p next q).entries ≡ relink_next (is_at p j) next (find j q.entries)
  find-set_next none next q j = sym (relink_next_nothing next (find j q.entries))
  find-set_next (some k) next q j = find-modify_next k j next q.entries

  find-set_prev :
      (p prev : Option K) (q : QueueMap K V) (j : K)
      → find j (set_prev p prev q).entries ≡ relink_prev (is_at p j) prev (find j q.entries)
  find-set_prev none prev q j = sym (relink_prev_nothing prev (find j q.entries))
  find-set_prev (some k) prev q j = find-modify_prev k j prev q.entries

  -- A change of one entry adds no key and takes none away.
  modify-shape :
      (k : K) (f : Entry K V → Entry K V) (m : Assoc K (Entry K V))
      → (length (modify k f m) ≡ length m)
        × ((j : K) → find j m ≡ none → find j (modify k f m) ≡ none)
        × (NodupKeys m → NodupKeys (modify k f m))
  unfolding modify find
  modify-shape k f [] = (refl, λ j h. h, λ u. u)
  modify-shape k f ((i, n) ∷ m) =
      let (len, absent, unique) = modify-shape k f m in
      (
        ground (arith, len),
        λ j h. ground (arith, absent j, h),
        λ (fresh, u). ground (arith, fresh, absent i fresh, unique u),
      )

  -- The keys of the map stay where a link changes.
  abbrev pub SameKeys : QueueMap K V → QueueMap K V → Type 0
  SameKeys q r = (length r.entries ≡ length q.entries) × (NodupKeys q.entries → NodupKeys r.entries)

  pub set_next-SameKeys : (p next : Option K) (q : QueueMap K V) → SameKeys q (set_next p next q)
  set_next-SameKeys none next q = (refl, λ u. u)
  set_next-SameKeys (some k) next q =
      let (len, absent, unique) = modify-shape k _ q.entries in (len, unique)

  set_prev-SameKeys : (p prev : Option K) (q : QueueMap K V) → SameKeys q (set_prev p prev q)
  set_prev-SameKeys none prev q = (refl, λ u. u)
  set_prev-SameKeys (some k) prev q =
      let (len, absent, unique) = modify-shape k _ q.entries in (len, unique)

  pub last_or-append :
      (p : Option K) (l : Assoc K V) (k : K) (v : V) → last_or p (l ++ (k, v) ∷ []) ≡ some k
  last_or-append p [] k v = refl
  last_or-append p ((j, w) ∷ l) k v = last_or-append (some j) l k v

  pub append-NodupKeys :
      (k : K) (v : V) (l : Assoc K V) → find k l ≡ none → NodupKeys l → NodupKeys (l ++ (k, v) ∷ [])
  append-NodupKeys k v l absent u = rw (sym (insert_fresh k v l absent)) (insert-NodupKeys k v l u)

  pub sentinel_next-set_next :
      (p next : Option K) (q : QueueMap K V)
      → (set_next p next q).sentinel_next ≡ (elim p [ none ↦ next | some _ ↦ q.sentinel_next ])
  sentinel_next-set_next none next q = refl
  sentinel_next-set_next (some k) next q = refl

  -- The key of a list has its entry in the chain.
  pub find-chained :
      (p : Option K) (k : K) (l : Assoc K V)
      → find k l ≡ (elim (chained p l k) [ none ↦ none | some n ↦ some n.value ])
  unfolding find
  find-chained p k [] = refl
  find-chained p k ((j, v) ∷ l) = ground (arith, find-chained (some j) k l)

  last_or-some :
      (p : Option K) (j : K) (w : V) (l : Assoc K V) → is_some (last_or p ((j, w) ∷ l)) ≡ true
  last_or-some p j w [] = refl
  last_or-some p j w ((a, x) ∷ l) = last_or-some (some j) a x l

  pub first_key-append :
      (l : Assoc K V) (k : K) (v : V)
      → first_key (l ++ (k, v) ∷ [])
        ≡ (elim (last_or none l) [ none ↦ some k | some _ ↦ first_key l ])
  first_key-append [] k v = refl
  first_key-append ((j, w) ∷ l) k v = ground (arith, last_or-some none j w l)

  -- The sentinel after both links were changed.
  pub remove_from_queue-sentinel :
      (n : Entry K V) (q : QueueMap K V)
      → ((remove_from_queue n q).sentinel_next
          ≡ (elim n.prev [ none ↦ n.next | some _ ↦ q.sentinel_next ]))
        × ((remove_from_queue n q).sentinel_prev
            ≡ (elim n.next [ none ↦ n.prev | some _ ↦ q.sentinel_prev ]))
  unfolding remove_from_queue
  remove_from_queue-sentinel n q = ground (arith, Option-cases n.prev, Option-cases n.next)

  pub find-remove_from_queue :
      (n : Entry K V) (q : QueueMap K V) (j : K)
      → find j (remove_from_queue n q).entries
        ≡ relink_prev
            (is_at n.next j)
            n.prev
            (relink_next (is_at n.prev j) n.next (find j q.entries))
  unfolding remove_from_queue
  find-remove_from_queue n q j =
      find-set_prev n.next n.prev (set_next n.prev n.next q) j
      ∙ ap (λ o. relink_prev (is_at n.next j) n.prev o) (find-set_next n.prev n.next q j)

  pub remove_from_queue-SameKeys :
      (n : Entry K V) (q : QueueMap K V) → SameKeys q (remove_from_queue n q)
  unfolding remove_from_queue
  remove_from_queue-SameKeys n q =
      let (len1, keep1) = set_next-SameKeys n.prev n.next q in
      let (len2, keep2) = set_prev-SameKeys n.next n.prev (set_next n.prev n.next q) in
      (len2 ∙ len1, λ u. keep2 (keep1 u))
