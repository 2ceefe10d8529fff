-- ===== src/Caching/QueueMap.antt =====
-- `QueueMap` (src/blockstore/implementations/caching/cache/QueueMap.h): the entries of a map, chained in
-- a doubly linked list that a sentinel closes. The address of an entry is named by its key, since the
-- map never moves an entry, and the address of the sentinel by `none`.
use libcryfs.Common.{ℕ, ◌%◌, ◌^◌, Option, none, some, [], ◌∷◌, if◌then◌else◌, length}
use libcryfs.Common.Equality.{Eq, ◌==◌}
use libcryfs.Common.Result.{Result, ok, err, logic_error}
use libcryfs.Common.Assoc.{Assoc, find, erase}
use libcryfs.Caching.Queue.{QueueOps}

-- `Entry`
pub record Entry (K V : Type 0) : Type 0 where
  pub prev : Option K
  pub next : Option K
  pub value : V

pub record QueueMap (K V : Type 0) : Type 0 where
  pub entries : Assoc K (Entry K V)
  pub sentinel_prev : Option K
  pub sentinel_next : Option K

module _ {K V : Type 0} ⦃e : Eq K⦄ where
  abbrev pub new : QueueMap K V
  new = record { entries = []; sentinel_prev = none; sentinel_next = none }

  unfoldable pub modify : K → (Entry K V → Entry K V) → Assoc K (Entry K V) → Assoc K (Entry K V)
  modify k f [] = []
  modify k f ((j, entry) ∷ m) =
      let rest = modify k f m in if k == j then (j, f entry) ∷ m else (j, entry) ∷ rest

  -- An assignment to the `next` of the entry or of the sentinel at an address.
  abbrev pub set_next : Option K → Option K → QueueMap K V → QueueMap K V
  set_next none next q = record q { sentinel_next = next }
  set_next (some k) next q = record q {
    entries = modify k (λ entry. record entry { next = next }) q.entries;
  }

  abbrev pub set_prev : Option K → Option K → QueueMap K V → QueueMap K V
  set_prev none prev q = record q { sentinel_prev = prev }
  set_prev (some k) prev q = record q {
    entries = modify k (λ entry. record entry { prev = prev }) q.entries;
  }

  unfoldable pub push : K → V → QueueMap K V → Result (QueueMap K V)
  push key value q = elim (find key q.entries) [
    | some _ ↦ err logic_error
    | none ↦
        let entry : Entry K V = record { prev = q.sentinel_prev; next = none; value = value } in
        ok (
          set_prev none (some key)
            (set_next q.sentinel_prev (some key) (record q { entries = (key, entry) ∷ q.entries })))
  ]

  -- `_removeFromQueue`
  unfoldable pub remove_from_queue : Entry K V → QueueMap K V → QueueMap K V
  remove_from_queue entry q = set_prev entry.next entry.prev (set_next entry.prev entry.next q)

  -- `pop(key)`
  unfoldable pub pop : K → QueueMap K V → Option V × QueueMap K V
  pop key q = elim (find key q.entries) [
    | none ↦ (none, q)
    | some entry ↦
        let q' = remove_from_queue entry q in
        (some entry.value, record q' { entries = erase key q'.entries })
  ]

  -- `pop()`
  unfoldable pub pop_first : QueueMap K V → Option V × QueueMap K V
  pop_first q = elim q.sentinel_next [ none ↦ (none, q) | some key ↦ pop key q ]

  abbrev pub peek_key : QueueMap K V → Option K
  peek_key q = q.sentinel_next

  unfoldable pub peek : QueueMap K V → Option V
  peek q = elim q.sentinel_next [
    | none ↦ none
    | some key ↦ elim (find key q.entries) [ none ↦ none | some entry ↦ some entry.value ]
  ]

  -- The size is cut to 32 bits.
  abbrev pub size : QueueMap K V → ℕ
  size q = length q.entries % 2 ^ 32

  abbrev pub queue_map : QueueOps K V
  queue_map = record {
    State = QueueMap K V;
    new = new;
    push = push;
    pop = pop;
    pop_first = pop_first;
    peek_key = peek_key;
    peek = peek;
    size = size;
  }
