-- ===== src/Directory/Sorted.antt =====
-- The order of the entries in a directory, and what the operations do to it.
use mathlib.Core.Option.{get_or}
use libcryfs.Common.{
  ℕ, zero, suc, ◌≤◌, ◌≡◌, refl, ap, sym, ◌∙◌, subst, true, false, none, some, List, [], ◌∷◌, ◌++◌,
  arith, length, take, drop, get_elem?, All, Bool-cases, inl, inr, ◌⊎◌,
}
use libcryfs.Common.Equality.{nat_eq, bytes_eq}
use libcryfs.Common.Bytes.{BlockId}
use libcryfs.Directory.Entry.{DirEntry}
use libcryfs.Directory.EntryList.{less, distance, erase_at, replace_at}
use libcryfs.Directory.Search.{IsSorted, lookup, less_trans, All-get_elem?, IsUpward}

-- Sorted, with block ids of one size.
abbrev pub IsOrdered : List DirEntry → Type 0
IsOrdered es = IsSorted es × All (λ e. length e.block_id ≡ 16) es

-- Two block ids of one size that are not in order are equal or in the other order.
less_total : (a b : BlockId) → length a ≡ length b → less a b ≡ false → (a ≡ b) ⊎ (less b a ≡ true)
less_total [] [] e h = inl refl
less_total [] (y ∷ ys) e h = absurd (omega (arith, e))
less_total (x ∷ xs) [] e h = absurd (omega (arith, e))
less_total (x ∷ xs) (y ∷ ys) e h = ground (arith, less_total xs ys)

All-cut :
    (P : DirEntry → Type 0) (i j : ℕ) (es : List DirEntry)
    → i ≤ j
    → All P es
    → All P (take i es ++ drop j es)
All-cut P zero zero es h all = all
All-cut P zero (suc j) [] h all = tt
All-cut P zero (suc j) (e ∷ es) h all = All-cut P zero j es (omega arith) all.1
All-cut P (suc i) zero es h all = absurd (omega (arith, h))
All-cut P (suc i) (suc j) [] h all = tt
All-cut P (suc i) (suc j) (e ∷ es) h all = (all.0, All-cut P i j es (omega (arith, h)) all.1)

cut-IsSorted :
    (i j : ℕ) (es : List DirEntry) → i ≤ j → IsSorted es → IsSorted (take i es ++ drop j es)
cut-IsSorted zero zero es h sorted = sorted
cut-IsSorted zero (suc j) [] h sorted = tt
cut-IsSorted zero (suc j) (e ∷ es) h sorted = cut-IsSorted zero j es (omega arith) sorted.1
cut-IsSorted (suc i) zero es h sorted = absurd (omega (arith, h))
cut-IsSorted (suc i) (suc j) [] h sorted = tt
cut-IsSorted (suc i) (suc j) (e ∷ es) h sorted = (
  All-cut (λ f. less e.block_id f.block_id ≡ true) i j es (omega (arith, h)) sorted.0,
  cut-IsSorted i j es (omega (arith, h)) sorted.1,
)

-- To take entries out keeps the order.
pub cut-IsOrdered :
    (i j : ℕ) (es : List DirEntry) → i ≤ j → IsOrdered es → IsOrdered (take i es ++ drop j es)
cut-IsOrdered i j es h ordered =
    (cut-IsSorted i j es h ordered.0, All-cut (λ e. length e.block_id ≡ 16) i j es h ordered.1)

pub erase_at-IsOrdered : (i : ℕ) (es : List DirEntry) → IsOrdered es → IsOrdered (erase_at i es)
erase_at-IsOrdered i es = cut-IsOrdered i (suc i) es (omega arith)

All-replace_at :
    (P : DirEntry → Type 0) (i : ℕ) (e f : DirEntry) (es : List DirEntry)
    → get_elem? es i ≡ some e
    → P f
    → All P es
    → All P (replace_at i f es)
All-replace_at P i e f [] found p all = absurd (ground arith)
All-replace_at P zero e f (x ∷ es) found p all = (p, all.1)
All-replace_at P (suc i) e f (x ∷ es) found p all = (all.0, All-replace_at P i e f es found p all.1)

replace_at-IsSorted :
    (i : ℕ) (e f : DirEntry) (es : List DirEntry)
    → get_elem? es i ≡ some e
    → f.block_id ≡ e.block_id
    → IsSorted es
    → IsSorted (replace_at i f es)
replace_at-IsSorted i e f [] found same sorted = absurd (ground arith)
replace_at-IsSorted zero e f (x ∷ es) found same sorted =
    let e1 : x.block_id ≡ f.block_id = ap (λ o. (get_or o x).block_id) found ∙ sym same in
    subst (λ b. All (λ g. less b g.block_id ≡ true) es × IsSorted es) e1 sorted
replace_at-IsSorted (suc i) e f (x ∷ es) found same sorted = (
  All-replace_at (λ g. less x.block_id g.block_id ≡ true) i e f es found
      (subst (λ b. less x.block_id b ≡ true) (sym same)
        (All-get_elem? (λ g. less x.block_id g.block_id ≡ true) es i e sorted.0 found))
      sorted.0,
  replace_at-IsSorted i e f es found same sorted.1,
)

-- A new entry at the place of `_findUpperBound`.
All-insert :
    (P : DirEntry → Type 0) (i : ℕ) (f : DirEntry) (es : List DirEntry)
    → P f
    → All P es
    → All P (take i es ++ (f ∷ drop i es))
All-insert P zero f es p all = (p, all)
All-insert P (suc i) f [] p all = (p, tt)
All-insert P (suc i) f (e ∷ es) p all = (all.0, All-insert P i f es p all.1)

-- To change an entry and not its block id keeps the order.
pub replace_at-IsOrdered :
    (i : ℕ) (e f : DirEntry) (es : List DirEntry)
    → get_elem? es i ≡ some e
    → f.block_id ≡ e.block_id
    → IsOrdered es
    → IsOrdered (replace_at i f es)
replace_at-IsOrdered i e f es found same ordered =
    let size = All-get_elem? (λ g. length g.block_id ≡ 16) es i e ordered.1 found in
    (
      replace_at-IsSorted i e f es found same ordered.0,
      All-replace_at (λ g. length g.block_id ≡ 16) i e f es found (ap (λ b. length b) same ∙ size)
          ordered.1,
    )

-- Behind an entry with a larger block id all are larger.
All-less_trans :
    (a b : BlockId) (es : List DirEntry)
    → less a b ≡ true
    → All (λ f. less b f.block_id ≡ true) es
    → All (λ f. less a f.block_id ≡ true) es
All-less_trans a b [] h all = tt
All-less_trans a b (e ∷ es) h all =
    (less_trans a b e.block_id h all.0, All-less_trans a b es h all.1)

pub upper-IsUpward :
    (b : BlockId) (es : List DirEntry) → IsSorted es → IsUpward (λ e. less b e.block_id) es
upper-IsUpward b [] sorted = tt
upper-IsUpward b (e ∷ es) sorted = (
  λ i f found h.
      less_trans b e.block_id f.block_id h
        (All-get_elem? (λ g. less e.block_id g.block_id ≡ true) es i f sorted.0 found),
  upper-IsUpward b es sorted.1,
)

insert-IsSorted :
    (f : DirEntry) (es : List DirEntry)
    → length f.block_id ≡ 16
    → lookup f.block_id es ≡ none
    → IsOrdered es
    → IsSorted (
        take (distance (λ e. less f.block_id e.block_id) es) es
        ++ (f ∷ drop (distance (λ e. less f.block_id e.block_id) es) es))
unfolding distance
insert-IsSorted f [] size fresh ordered = (tt, tt)
insert-IsSorted f (e ∷ es) size fresh ordered = elim (Bool-cases (less f.block_id e.block_id)) [
  | inl before ↦
      rw (distance, before)
        ((before, All-less_trans f.block_id e.block_id es before ordered.0.0), ordered.0)
  | inr behind ↦ elim (less_total f.block_id e.block_id (size ∙ sym ordered.1.0) behind) [
    | inl same ↦ absurd (ground (arith, bytes_eq.beq_iff e.block_id f.block_id))
    | inr after ↦
        let rest = distance (λ g. less f.block_id g.block_id) es in
        let fresh' : lookup f.block_id es ≡ none = ground arith in
        rw (distance, behind)
          (
            All-insert (λ g. less e.block_id g.block_id ≡ true) rest f es after ordered.0.0,
            insert-IsSorted f es size fresh' (ordered.0.1, ordered.1.1),
          )
  ]
]

pub insert-IsOrdered :
    (f : DirEntry) (es : List DirEntry)
    → length f.block_id ≡ 16
    → lookup f.block_id es ≡ none
    → IsOrdered es
    → IsOrdered (
        take (distance (λ e. less f.block_id e.block_id) es) es
        ++ (f ∷ drop (distance (λ e. less f.block_id e.block_id) es) es))
insert-IsOrdered f es size fresh ordered = (
  insert-IsSorted f es size fresh ordered,
  All-insert (λ e. length e.block_id ≡ 16) (distance (λ e. less f.block_id e.block_id) es) f es size
      ordered.1,
)
