-- ===== src/Directory/Search.antt =====
-- The hinted search in a list that is ordered by block ids, beside a search from the front.
use mathlib.Core.Option.{get_or}
use libcryfs.Common.{
  ℕ, zero, suc, ◌+◌, ◌<◌, ◌≤◌, ◌≡◌, refl, ap, Bool, true, false, not, Option, none, some, List, [],
  ◌∷◌, arith, ltb, if◌then◌else◌, length, drop, get_elem?, All, Bool-cases, subst, inl, inr,
}
use libcryfs.Common.Equality.{◌==◌, bytes_eq}
use libcryfs.Common.Result.{ok}
use libcryfs.Common.Bytes.{BlockId}
use libcryfs.Directory.Entry.{DirEntry}
use libcryfs.Directory.EntryList.{
  less, first_byte, distance, step_back, find_first, find_lower_bound, find_by_id, get_by_id,
}

-- The entries are ordered by their block ids, and no block id is there twice.
abbrev pub IsSorted : List DirEntry → Type 0
IsSorted [] = Unit
IsSorted (e ∷ es) = All (λ f. less e.block_id f.block_id ≡ true) es × IsSorted es

-- A search from the front.
abbrev pub lookup : BlockId → List DirEntry → Option DirEntry
lookup b [] = none
lookup b (e ∷ es) = if e.block_id == b then some e else lookup b es

pub less_trans : (a b c : BlockId) → less a b ≡ true → less b c ≡ true → less a c ≡ true
less_trans [] b c h k = absurd (ground arith)
less_trans (x ∷ xs) [] c h k = absurd (ground arith)
less_trans (x ∷ xs) (y ∷ ys) [] h k = absurd (ground arith)
less_trans (x ∷ xs) (y ∷ ys) (z ∷ zs) h k = ground (arith, less_trans xs ys zs)

pub less_irrefl : (a : BlockId) → less a a ≡ false
less_irrefl [] = refl
less_irrefl (x ∷ xs) = ground (arith, less_irrefl xs)

-- A test that holds for all entries behind one for which it holds.
abbrev pub IsUpward : (DirEntry → Bool) → List DirEntry → Type 0
IsUpward test [] = Unit
IsUpward test (e ∷ es) =
    ((i : ℕ) (f : DirEntry) → get_elem? es i ≡ some f → test e ≡ true → test f ≡ true)
    × IsUpward test es

-- To go one entry on: where the entry does not satisfy the test, the distance is one less.
distance-drop :
    (test : DirEntry → Bool) (es : List DirEntry) (j : ℕ)
    → j ≤ distance test es
    → j + distance test (drop j es) ≡ distance test es
unfolding distance
distance-drop test es zero h = omega arith
distance-drop test [] (suc j) h = absurd (omega (arith, h))
distance-drop test (e ∷ es) (suc j) h = elim (Bool-cases (test e)) [
  | inl holds ↦ absurd (ground arith)
  | inr fails ↦ ground (arith, distance-drop test es j)
]

-- Up to where the entry satisfies the test or is the first, no entry before satisfies it.
distance-le :
    (test : DirEntry → Bool) (es : List DirEntry) (i : ℕ) (e : DirEntry)
    → get_elem? es i ≡ some e
    → test e ≡ true
    → distance test es ≤ i
unfolding distance
distance-le test [] i e found h = absurd (ground arith)
distance-le test (f ∷ es) zero e found h = ground arith
distance-le test (f ∷ es) (suc i) e found h = ground (arith, distance-le test es i e found h)

le-distance :
    (test : DirEntry → Bool) (es : List DirEntry) (i : ℕ) (e : DirEntry)
    → IsUpward test es
    → get_elem? es i ≡ some e
    → test e ≡ false
    → i < distance test es
unfolding distance
le-distance test [] i e up found h = absurd (ground arith)
le-distance test (f ∷ es) zero e up found h = ground arith
le-distance test (f ∷ es) (suc i) e up found h = elim (Bool-cases (test f)) [
  | inl holds ↦ absurd (ground (arith, up.0 i e found holds))
  | inr fails ↦ ground (arith, le-distance test es i e up.1 found h)
]

get_elem?-lt :
    (es : List DirEntry) (i : ℕ) → i < length es → (e : DirEntry) × (get_elem? es i ≡ some e)
get_elem?-lt [] i h = absurd (omega (arith, h))
get_elem?-lt (e ∷ es) zero h = (e, refl)
get_elem?-lt (e ∷ es) (suc i) h = get_elem?-lt es i (omega (arith, h))

step_back-le-distance :
    (test : DirEntry → Bool) (es : List DirEntry) (i : ℕ)
    → IsUpward test es
    → i < length es
    → step_back test es i ≤ distance test es
unfolding step_back
step_back-le-distance test es zero up h = omega arith
step_back-le-distance test es (suc i) up h =
    let (e, found) = get_elem?-lt es (suc i) h in
    elim (Bool-cases (test e)) [
      | inl holds ↦ ground (arith, found, step_back-le-distance test es i up (omega (arith, h)))
      | inr fails ↦ ground (arith, found, le-distance test es (suc i) e up found fails)
    ]

-- The search from the front.
pub find_first-distance :
    (start : ℕ → ℕ → ℕ) (starts : (b n : ℕ) → 0 < n → start b n < n) (hint : BlockId)
    (test : DirEntry → Bool) (es : List DirEntry)
    → IsUpward test es
    → find_first start hint test es ≡ ok (distance test es)
unfolding find_first distance
find_first-distance start starts hint test [] up = refl
find_first-distance start starts hint test (e ∷ es) up =
    let i = start (first_byte hint) (suc (length es)) in
    let inside : i < suc (length es) = starts (first_byte hint) (suc (length es)) (omega arith) in
    let near = step_back-le-distance test (e ∷ es) i up inside in
    let exact = distance-drop test (e ∷ es) (step_back test (e ∷ es) i) near in
    let fits : ltb i (suc (length es)) ≡ true = ground (arith, inside) in
    rw (find_first, fits, exact)

pub All-get_elem? :
    (P : DirEntry → Type 0) (es : List DirEntry) (i : ℕ) (f : DirEntry)
    → All P es
    → get_elem? es i ≡ some f
    → P f
All-get_elem? P [] i f all found = absurd (ground arith)
All-get_elem? P (e ∷ es) zero f all found = subst P (ap (λ o. get_or o e) found) all.0
All-get_elem? P (e ∷ es) (suc i) f all found = All-get_elem? P es i f all.1 found

-- Behind an entry there is none with a smaller block id.
lookup-none :
    (a b : BlockId) (es : List DirEntry)
    → All (λ f. less a f.block_id ≡ true) es
    → less a b ≡ false
    → lookup b es ≡ none
lookup-none a b [] all h = refl
lookup-none a b (e ∷ es) all h =
    ground (arith, bytes_eq.beq_iff e.block_id b, lookup-none a b es all.1 h, all.0)

-- In a sorted list the test of `_findLowerBound` is upward.
pub lower-IsUpward :
    (b : BlockId) (es : List DirEntry) → IsSorted es → IsUpward (λ e. not (less e.block_id b)) es
lower-IsUpward b [] sorted = tt
lower-IsUpward b (e ∷ es) sorted = (
  λ i f found h.
      let after = All-get_elem? (λ g. less e.block_id g.block_id ≡ true) es i f sorted.0 found in
      ground (arith, h, after, less_trans e.block_id f.block_id b),
  lower-IsUpward b es sorted.1,
)

-- Where the search of `_findById` ends.
pub lower-lookup :
    (b : BlockId) (es : List DirEntry)
    → IsSorted es
    → (elim (get_elem? es (distance (λ e. not (less e.block_id b)) es)) as (λ _. Option DirEntry) [
      | none ↦ none
      | some e ↦ if e.block_id == b then some e else none
    ])
      ≡ lookup b es
unfolding distance
lower-lookup b [] sorted = refl
lower-lookup b (e ∷ es) sorted = elim (Bool-cases (less e.block_id b)) [
  | inl below ↦
      let other : (e.block_id == b) ≡ false =
        ground (arith, bytes_eq.beq_iff e.block_id b, less_irrefl b, below) in
      rw (below, other) (lower-lookup b es sorted.1)
  | inr above ↦ rw (distance, above) (ground (arith, lookup-none e.block_id b es sorted.0 above))
]

module _ (start : ℕ → ℕ → ℕ) (starts : (b n : ℕ) → 0 < n → start b n < n) (es : List DirEntry)
    (sorted : IsSorted es) where
  -- In a list that is sorted by block ids, the search by block id, which starts at a guessed position
  -- and goes back and on from there, reports no error and returns what a search from the front
  -- returns: the entry with the block id, or nothing. The position where it starts does not matter
  -- as long as it is in the list.
  pub get_by_id-lookup : (b : BlockId) → get_by_id start b es ≡ ok (lookup b es)
  unfolding get_by_id find_by_id find_lower_bound
  get_by_id-lookup b =
      let first =
        find_first-distance start starts b (λ e. not (less e.block_id b)) es
          (lower-IsUpward b es sorted) in
      rw first (ground (arith, lower-lookup b es sorted))
