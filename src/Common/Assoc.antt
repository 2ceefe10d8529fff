-- ===== src/Common/Assoc.antt =====
-- `std::unordered_map` as an association list in the order of insertion. The operations keep one
-- entry for each key; the order stands for the unspecified order of iteration.
use Prim.Native.Nat.{◌+◌}
use mathlib.Core.Path.{◌≡◌, refl}
use mathlib.Core.Option.{Option, none, some, get_or}
use mathlib.Core.List.{List, [], ◌∷◌, ◌++◌}
use native.Mathlib.Omega.{arith}
use libcryfs.Common.Tests.{if◌then◌else◌}
use libcryfs.Common.Lists.{length}
use libcryfs.Common.Equality.{Eq, ◌==◌}

abbrev pub Assoc {ℓ κ} : Type ℓ → Type κ → Type (ℓ ⊔ κ)
Assoc K V = List (K × V)

-- The keys in the order of iteration.
abbrev pub keys {ℓ κ} : {K : Type ℓ} {V : Type κ} → Assoc K V → List K
keys [] = []
keys ((k, _) ∷ m) = k ∷ keys m

module _ {ℓ κ} {K : Type ℓ} {V : Type κ} ⦃e : Eq K⦄ where
  -- `m.find(k)`
  unfoldable pub find : K → Assoc K V → Option V
  find k [] = none
  find k ((j, w) ∷ m) = if k == j then some w else find k m

  -- `m[k] = v`
  unfoldable pub assign : K → V → Assoc K V → Assoc K V
  assign k v [] = (k, v) ∷ []
  assign k v ((j, w) ∷ m) = if k == j then (j, v) ∷ m else (j, w) ∷ assign k v m

  -- `m.insert({k, v})` and `m.emplace(k, v)`, which keep an entry that is there. With the default
  -- value this is also what `m[k]` leaves behind when it is only read.
  unfoldable pub insert : K → V → Assoc K V → Assoc K V
  insert k v [] = (k, v) ∷ []
  insert k v ((j, w) ∷ m) = if k == j then (j, w) ∷ m else (j, w) ∷ insert k v m

  -- `m.erase(k)`
  unfoldable pub erase : K → Assoc K V → Assoc K V
  erase k [] = []
  erase k ((j, w) ∷ m) = let rest = erase k m in if k == j then rest else (j, w) ∷ rest

  abbrev pub NodupKeys : Assoc K V → Type κ
  NodupKeys [] = Unit
  NodupKeys ((k, _) ∷ m) = (find k m ≡ none) × NodupKeys m

  pub find-append :
      (j : K) (m rest : Assoc K V)
      → find j (m ++ rest) ≡ elim (find j m) [ none ↦ find j rest | some v ↦ some v ]
  unfolding find
  find-append j [] rest = refl
  find-append j ((k, v) ∷ m) rest = ground (arith, find-append j m rest)

  pub find-assign :
      (j k : K) (v : V) (m : Assoc K V)
      → find j (assign k v m) ≡ (if j == k then some v else find j m)
  unfolding find assign
  find-assign j k v [] = refl
  find-assign j k v ((i, w) ∷ m) =
      ground (arith, e.beq_iff j k, e.beq_iff j i, e.beq_iff k i, find-assign j k v m)

  pub find-insert :
      (j k : K) (v : V) (m : Assoc K V)
      → find j (insert k v m) ≡ (if j == k then some (get_or (find k m) v) else find j m)
  unfolding find insert
  find-insert j k v [] = refl
  find-insert j k v ((i, w) ∷ m) =
      ground (arith, e.beq_iff j k, e.beq_iff j i, e.beq_iff k i, find-insert j k v m)

  pub find-erase :
      (j k : K) (m : Assoc K V) → find j (erase k m) ≡ (if j == k then none else find j m)
  unfolding find erase
  find-erase j k [] = ground arith
  find-erase j k ((i, w) ∷ m) =
      ground (arith, e.beq_iff j k, e.beq_iff j i, e.beq_iff k i, find-erase j k m)

  -- To read a missing entry creates the default, and returns it.
  pub get-find-insert :
      (k : K) (d : V) (m : Assoc K V) → get_or (find k (insert k d m)) d ≡ get_or (find k m) d
  get-find-insert k d m = ground (arith, find-insert k k d m, e.beq_iff k k)

  pub get-find-insert_ne :
      (j k : K) (d : V) (m : Assoc K V) → get_or (find j (insert k d m)) d ≡ get_or (find j m) d
  get-find-insert_ne j k d m = ground (arith, find-insert j k d m, e.beq_iff j k)

  pub assign-NodupKeys : (k : K) (v : V) (m : Assoc K V) → NodupKeys m → NodupKeys (assign k v m)
  unfolding assign find
  assign-NodupKeys k v [] _ = (refl, tt)
  assign-NodupKeys k v ((j, w) ∷ m) (fresh, u) =
      ground (arith, e.beq_iff k j, e.beq_iff j k, assign-NodupKeys k v m u, find-assign j k v m)

  pub insert-NodupKeys : (k : K) (v : V) (m : Assoc K V) → NodupKeys m → NodupKeys (insert k v m)
  unfolding insert find
  insert-NodupKeys k v [] _ = (refl, tt)
  insert-NodupKeys k v ((j, w) ∷ m) (fresh, u) =
      ground (arith, e.beq_iff k j, e.beq_iff j k, insert-NodupKeys k v m u, find-insert j k v m)

  pub erase-NodupKeys : (k : K) (m : Assoc K V) → NodupKeys m → NodupKeys (erase k m)
  unfolding erase find
  erase-NodupKeys k [] _ = tt
  erase-NodupKeys k ((j, w) ∷ m) (fresh, u) =
      ground (arith, e.beq_iff k j, e.beq_iff j k, erase-NodupKeys k m u, find-erase j k m)

  -- A new key is appended.
  pub insert_fresh :
      (k : K) (v : V) (m : Assoc K V) → find k m ≡ none → insert k v m ≡ m ++ (k, v) ∷ []
  unfolding insert find
  insert_fresh k v [] h = refl
  insert_fresh k v ((j, w) ∷ m) h = ground (arith, insert_fresh k v m)

  pub length-insert :
      (k : K) (v : V) (m : Assoc K V) → find k m ≡ none → length (insert k v m) ≡ length m + 1
  unfolding insert find
  length-insert k v [] h = omega arith
  length-insert k v ((j, w) ∷ m) h = ground (arith, length-insert k v m)

  pub erase_absent : (k : K) (m : Assoc K V) → find k m ≡ none → erase k m ≡ m
  unfolding erase find
  erase_absent k [] h = refl
  erase_absent k ((j, w) ∷ m) h = ground (arith, erase_absent k m)

  pub length-erase :
      (k : K) (v : V) (m : Assoc K V)
      → NodupKeys m
      → find k m ≡ some v
      → length (erase k m) + 1 ≡ length m
  unfolding erase find
  length-erase k v [] u h = cc
  length-erase k v ((j, w) ∷ m) (fresh, u) h =
      ground (arith, e.beq_iff k j, length-erase k v m u, erase_absent k m)

  -- In front of an entry of a map there is none with its key.
  pub find_of_NodupKeys-append :
      (k : K) (v : V) (m rest : Assoc K V) → NodupKeys (m ++ ((k, v) ∷ rest)) → find k m ≡ none
  unfolding find
  find_of_NodupKeys-append k v [] rest u = refl
  find_of_NodupKeys-append k v ((j, w) ∷ m) rest (fresh, u) = ground (
    arith,
    e.beq_iff k j,
    e.beq_iff j k,
    find_of_NodupKeys-append k v m rest u,
    find-append j m ((k, v) ∷ rest),
  )
