-- ===== src/Trees/VisitChild.antt =====
-- One child of a node that a traversal (LeafTraverser.cpp) meets.
use libcryfs.Common.{
  ℕ, suc, ◌+◌, ◌-◌, ◌*◌, ◌^◌, ◌≤◌, ◌<◌, ◌≡◌, refl, sym, subst, Bool, true, false, ◌&&◌, Option,
  List, [], ◌∷◌, ◌++◌, length, length-append, arith, min, ltb, All,
}
use libcryfs.Common.Equality.{◌==◌, nat_eq}
use libcryfs.Common.Result.{ok}
use libcryfs.Common.Bytes.{Data, BlockId}
use libcryfs.Nodes.View.{max_children_per_inner_node}
use libcryfs.Nodes.Inner.{read_child}
use libcryfs.Nodes.Children.{joined, AreIds, inner_block, length-joined}
use libcryfs.Nodes.ChildList.{read_child-eq}
use libcryfs.Trees.Stored.{Leaf, InnerAt}
use libcryfs.Common.{Bool-cases, inl, inr}
use libcryfs.Common.Bytes.{block_id_length}
use libcryfs.Nodes.View.{data_size}

-- The number of leaves that are visited before child `k` is.
abbrev pub place : ℕ → ℕ → ℕ → ℕ
place begin end offset = (begin + (offset - begin)) - ((begin + (offset - begin)) - end)

pub place-end : (begin end offset : ℕ) → begin < end → end ≤ offset → place begin end offset ≡ end
place-end begin end offset low covers = omega (arith, low, covers)

pub All-parts :
    {A : Type 0} (P : A → Type 0) (xs ys : List A) → All P (xs ++ ys) → All P xs × All P ys
All-parts P [] ys h = (tt, h)
All-parts P (x ∷ xs) ys (own, h) = let (front, back) = All-parts P xs ys h in ((own, front), back)

pub read_child-at :
    (id : BlockId) (unused level k : ℕ) (children pre post : List BlockId) (child : BlockId)
    (rest : Data)
    → children ≡ pre ++ child ∷ post
    → length pre ≡ k
    → AreIds children
    → length (joined children ++ rest) < 2 ^ 32 - 8
    → read_child k (inner_block id unused level children rest) ≡ ok child
read_child-at id unused level k children pre post child rest split position ids small =
    let (front, both) =
      All-parts (λ c. length c ≡ block_id_length) pre (child ∷ post) (subst AreIds split ids) in
    rw (split, sym position)
      (read_child-eq id unused level pre post child rest front both.0 both.1
        (subst (λ c. length (joined c ++ rest) < 2 ^ 32 - 8) split small))

-- The leaves of a range that are below one child.
pub child_range :
    (n k part after cap leaves end : ℕ)
    → k < n
    → (suc k < n → part ≡ cap)
    → (suc k ≡ n → after ≡ 0)
    → leaves ≡ k * cap + (part + after)
    → end ≤ leaves
    → min cap (end - k * cap) ≤ part
child_range n k part after cap leaves end inside full at_end total high =
    elim (Bool-cases (ltb (suc k) n)) [
      | inl h ↦ omega (arith, full (ground (arith, h)))
      | inr h ↦ omega (arith, at_end (ground (arith, h, inside)), total, high)
    ]

pub last_child-flags :
    (right : Bool) (k n end_child : ℕ)
    → 0 < n
    → (right && ((k == n - 1) && (n == end_child))) ≡ true
    → (right ≡ true) × (suc k ≡ n)
last_child-flags true k n end_child some_child flag = (refl, ground (arith, flag, some_child))
last_child-flags false k n end_child some_child flag = cc

pub InnerAt-few :
    {block_size cap level : ℕ} {look : BlockId → Option Data} {P : BlockId → List Leaf → Type 0}
    {id : BlockId} {leaves : List Leaf}
    → 40 ≤ block_size
    → block_size < 2 ^ 32
    → (i : InnerAt block_size look P cap level id leaves)
    → length i.children ≤ max_children_per_inner_node block_size
unfolding data_size
InnerAt-few room small i = omega (
  arith,
  length-joined i.children i.ids,
  length-append (joined i.children) i.rest,
  i.sized,
  room,
  small,
)

pub InnerAt-count :
    {block_size cap level : ℕ} {look : BlockId → Option Data} {P : BlockId → List Leaf → Type 0}
    {id : BlockId} {leaves : List Leaf}
    → block_size < 2 ^ 32
    → (i : InnerAt block_size look P cap level id leaves) → length i.children < 2 ^ 32
InnerAt-count small i = omega (
  arith,
  length-joined i.children i.ids,
  length-append (joined i.children) i.rest,
  i.sized,
  small,
)

pub some_child :
    (block_size : ℕ)
    → 40 ≤ block_size
    → block_size < 2 ^ 32
    → 0 < max_children_per_inner_node block_size
unfolding data_size
some_child block_size room small = omega (arith, room, small)
