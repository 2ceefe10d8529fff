-- ===== src/Caching/QueueRefinement.antt =====
-- A queue map is its list of entries, in the order in which they were pushed.
use libcryfs.Common.{
  ◌%◌, ◌^◌, ◌≡◌, refl, ◌∙◌, sym, ap, subst, true, Option, none, some, [], ◌∷◌, ◌++◌, arith, length,
  Option-cases, inl, inr, length-append,
}
use libcryfs.Common.Equality.{Eq, beq_refl}
use libcryfs.Common.Result.{ok}
use libcryfs.Common.Assoc.{Assoc, find, erase, NodupKeys, erase_absent, find-erase, erase-NodupKeys}
use libcryfs.BlockStore.{is_some}
use libcryfs.Caching.Queue.{IsQueue, first_key, first_value, tail}
use libcryfs.Caching.QueueMap.{
  Entry, QueueMap, set_next, set_prev, push, pop, pop_first, peek, remove_from_queue, queue_map,
}
use libcryfs.Caching.Chain.{chained, last_or, chained_absent, chained-append, is_at-last_or}
use libcryfs.Caching.Links.{
  length-erase_some, find-set_next, set_next-SameKeys, last_or-append, append-NodupKeys,
  sentinel_next-set_next, find-chained, first_key-append, remove_from_queue-sentinel,
  find-remove_from_queue, remove_from_queue-SameKeys,
}
use libcryfs.Caching.Unchain.{first_key-erase_front, last_or-erase, chained-erase}

module _ {K V : Type 0} ⦃e : Eq K⦄ where
  pub record Represents (q : QueueMap K V) (l : Assoc K V) : Type 0 where
    pub stored : (k : K) → find k q.entries ≡ chained none l k
    pub first : q.sentinel_next ≡ first_key l
    pub last : q.sentinel_prev ≡ last_or none l
    pub distinct : NodupKeys l
    pub unique : NodupKeys q.entries
    pub count : length q.entries ≡ length l

  push-Represents :
      (k : K) (v : V) (q : QueueMap K V) (l : Assoc K V)
      → Represents q l
      → find k l ≡ none
      → (r : QueueMap K V) × (push k v q ≡ ok r) × Represents r (l ++ (k, v) ∷ [])
  unfolding push find
  push-Represents k v q l h absent =
      let fresh : find k q.entries ≡ none = h.stored k ∙ chained_absent none l k absent in
      let entry : Entry K V = record { prev = q.sentinel_prev; next = none; value = v } in
      let q1 : QueueMap K V = record q { entries = (k, entry) ∷ q.entries } in
      let q2 = set_next q.sentinel_prev (some k) q1 in
      let (len, keep) = set_next-SameKeys q.sentinel_prev (some k) q1 in
      (
        set_prev none (some k) q2,
        rw (push, fresh) refl,
        record {
          stored = λ j. ground (
            arith,
            find-set_next q.sentinel_prev (some k) q1 j,
            h.stored j,
            h.last,
            e.beq_iff j k,
            chained-append none l k v j h.distinct absent,
            is_at-last_or none l k absent refl,
          );
          first = ground (
            arith,
            sentinel_next-set_next q.sentinel_prev (some k) q1,
            h.first,
            h.last,
            first_key-append l k v,
          );
          last = sym (last_or-append none l k v);
          distinct = append-NodupKeys k v l absent h.distinct;
          unique = keep (fresh, h.unique);
          count = ground (arith, len, h.count, length-append l ((k, v) ∷ []));
        },
      )

  unchained-Represents :
      (k : K) (n : Entry K V) (q r : QueueMap K V) (l : Assoc K V)
      → Represents q l
      → chained none l k ≡ some n
      → r ≡ remove_from_queue n q
      → Represents (record r { entries = erase k r.entries }) (erase k l)
  unchained-Represents k n q r l h found removed =
      let (len, keep) = remove_from_queue-SameKeys n q in
      let (next, prev) = remove_from_queue-sentinel n q in
      let there : is_some (find k r.entries) ≡ true =
        ground (arith, removed, find-remove_from_queue n q k, h.stored k, found) in
      record {
        stored = λ j. ground (
          arith,
          removed,
          find-erase j k r.entries,
          find-remove_from_queue n q j,
          h.stored j,
          chained-erase none l k n j h.distinct refl found,
        );
        first =
            ground (arith, removed, next, h.first, first_key-erase_front l k n h.distinct found);
        last = ground (arith, removed, prev, h.last, last_or-erase none l k n h.distinct found);
        distinct = erase-NodupKeys k l h.distinct;
        unique = erase-NodupKeys k r.entries (rw removed (keep h.unique));
        count = ground (
          arith,
          len,
          removed,
          h.count,
          length-erase_some k r.entries (rw removed (keep h.unique)) there,
          length-erase_some k l h.distinct (ground (arith, found, find-chained none k l)),
        );
      }

  pop-Represents :
      (k : K) (q : QueueMap K V) (l : Assoc K V)
      → Represents q l
      → (r : QueueMap K V) × (pop k q ≡ (find k l, r)) × Represents r (erase k l)
  unfolding pop
  pop-Represents k q l h = elim (Option-cases (chained none l k)) [
    | inl absent ↦
        let missing : find k l ≡ none = ground (arith, find-chained none k l, absent) in
        (q, rw (pop, h.stored k, absent, missing) refl, rw (erase_absent k l missing) h)
    | inr (n, found) ↦
        let here : find k l ≡ some n.value = ground (arith, find-chained none k l, found) in
        let r = remove_from_queue n q in
        (
          record r { entries = erase k r.entries },
          rw (pop, h.stored k, found, here) refl,
          unchained-Represents k n q r l h found refl,
        )
  ]

  pop_first-run :
      (k : K) (q r : QueueMap K V) (o : Option V)
      → q.sentinel_next ≡ some k
      → pop k q ≡ (o, r)
      → pop_first q ≡ (o, r)
  unfolding pop_first
  pop_first-run k q r o first popped = ground (arith, first, popped)

  pop_first-Represents :
      (q : QueueMap K V) (l : Assoc K V)
      → Represents q l
      → (r : QueueMap K V) × (pop_first q ≡ (first_value l, r)) × Represents r (tail l)
  unfolding pop_first find erase
  pop_first-Represents q [] h = (q, ground (arith, h.first), h)
  pop_first-Represents q ((k, v) ∷ l) h =
      let (r, popped, h') = pop-Represents k q ((k, v) ∷ l) h in
      (
        r,
        pop_first-run k q r (some v) h.first (popped ∙ rw (beq_refl k) refl),
        subst (λ m. Represents r m)
            (ground (arith, beq_refl k, h.distinct.0, erase_absent k l h.distinct.0)) h',
      )

  peek-Represents : (q : QueueMap K V) (l : Assoc K V) → Represents q l → peek q ≡ first_value l
  unfolding peek
  peek-Represents q [] h = rw (peek, h.first) refl
  peek-Represents q ((k, v) ∷ l) h = rw (peek, h.first, h.stored k) (ground (arith, beq_refl k))

  -- A queue map behaves as the list of its entries in the order in which they were pushed: an empty
  -- one is the empty list, a push of a new key succeeds and appends, a pop by key returns the value and
  -- takes the entry out wherever it stands, a pop without a key takes the first entry, and the key and
  -- value that are peeked at are those of the list, and the size is its length modulo 2 ^ 32. All this holds of the doubly linked
  -- chain that the entries and the sentinel form, which each operation keeps intact.
  pub queue_map-IsQueue : IsQueue (queue_map {K = K} {V = V}) Represents
  unfolding find
  queue_map-IsQueue = record {
    new_lem = record {
      stored = λ k. refl;
      first = refl;
      last = refl;
      distinct = tt;
      unique = tt;
      count = refl;
    };
    push_lem = push-Represents;
    pop_lem = pop-Represents;
    pop_first_lem = pop_first-Represents;
    peek_key_lem = λ q l h. h.first;
    peek_lem = peek-Represents;
    size_lem = λ q l h. ap (λ n. n % 2 ^ 32) h.count;
  }
