-- ===== src/Trees/Ranges.antt =====
-- Which children of a node a range of leaves meets: the divisions of `_traverseExistingSubtree`.
use native.Mathlib.Nat.{div-lt_iff_lt-mul, le-div_iff_mul-le, div-mul-le_self, lt-div-mul-add}
use libcryfs.Common.{
  ℕ, zero, suc, ◌+◌, ◌-◌, ◌*◌, ◌/◌, ◌%◌, ◌^◌, ◌≤◌, ◌<◌, ◌≡◌, refl, ◌∙◌, ap, arith,
}
use libcryfs.Nodes.View.{max_children_per_inner_node}
use libcryfs.Trees.Math.{int_pow}
use libcryfs.Trees.Subtree.{ceil_division32, max_leaves_for_tree_depth}
use libcryfs.Trees.DataTree.{ceil_division64}
use libcryfs.Trees.Stored.{capacity}

module _ {cap : ℕ} (positive : 0 < cap) where
  pub begin_child-upper : (begin k : ℕ) → begin / cap ≤ k → begin < k * cap + cap
  begin_child-upper begin k low =
      let (to, from) = div-lt_iff_lt-mul {k = cap} {x = begin} {y = suc k} positive in
      omega (arith, to (omega (arith, low)))

  pub begin_child-below : (begin children : ℕ) → begin < children * cap → begin / cap < children
  begin_child-below begin children low =
      let (to, from) = div-lt_iff_lt-mul {k = cap} {x = begin} {y = children} positive in from low

  pub ceil-below : (n k : ℕ) → n ≤ k * cap → (n + cap - 1) / cap ≤ k
  ceil-below n k low =
      let (to, from) = div-lt_iff_lt-mul {k = cap} {x = n + cap - 1} {y = suc k} positive in
      omega (arith, from (omega (arith, low, positive)))

  pub ceil-upper : (n k : ℕ) → k < (n + cap - 1) / cap → k * cap < n
  ceil-upper n k low =
      let (to, from) = le-div_iff_mul-le {k = cap} {x = suc k} {y = n + cap - 1} positive in
      omega (arith, to low)

  pub ceil-covers : (n : ℕ) → n ≤ (n + cap - 1) / cap * cap
  ceil-covers n =
      let up : n + cap - 1 < (n + cap - 1) / cap * cap + cap = lt-div-mul-add positive in
      omega (arith, up)

  pub ceil_division64-eq : (n : ℕ) → n + cap ≤ 2 ^ 64 → ceil_division64 n cap ≡ (n + cap - 1) / cap
  ceil_division64-eq n small = ap (λ d. d / cap) (omega (arith, small, positive))

  pub ceil_division32-eq : (n : ℕ) → n + cap ≤ 2 ^ 32 → ceil_division32 n cap ≡ (n + cap - 1) / cap
  ceil_division32-eq n small = ap (λ d. d / cap) (omega (arith, small, positive))

  pub end_child-upper :
      (end k : ℕ) → end + cap ≤ 2 ^ 32 → k < ceil_division32 end cap → k * cap < end
  end_child-upper end k small low =
      ceil-upper end k (omega (arith, low, ceil_division32-eq end small))

  pub end_child-covers : (end : ℕ) → end + cap ≤ 2 ^ 32 → end ≤ ceil_division32 end cap * cap
  end_child-covers end small =
      omega (arith, ceil-covers end, ap (λ d. d * cap) (ceil_division32-eq end small))

  -- The children that a range of leaves meets.
  pub children-range :
      (begin end children : ℕ)
      → begin < end
      → end ≤ children * cap
      → end + cap ≤ 2 ^ 32
      → (begin / cap < children)
        × (ceil_division32 end cap ≤ children)
        × (begin / cap < ceil_division32 end cap)
        × (end ≤ ceil_division32 end cap * cap)
        × (begin / cap * cap ≤ begin)
  children-range begin end children low high small =
      let covers = end_child-covers end small in
      (
        begin_child-below begin children (omega (arith, low, high)),
        omega (arith, ceil_division32-eq end small, ceil-below end children high),
        begin_child-below begin (ceil_division32 end cap) (omega (arith, low, covers)),
        covers,
        div-mul-le_self begin cap,
      )

pub capacity-grows : (fan level : ℕ) → 0 < fan → capacity fan level ≤ capacity fan (suc level)
capacity-grows zero level positive = elim positive [ ]
capacity-grows (suc fan) level positive = omega arith

pub capacity-positive : (fan level : ℕ) → 0 < fan → 0 < capacity fan level
capacity-positive fan zero positive = omega arith
capacity-positive fan (suc level) positive =
    omega (arith, capacity-positive fan level positive, capacity-grows fan level positive)

pub int_pow-capacity :
    (fan level : ℕ) → capacity fan level < 2 ^ 64 → 0 < fan → int_pow fan level ≡ capacity fan level
unfolding int_pow
int_pow-capacity fan zero small positive = refl
int_pow-capacity fan (suc level) small positive =
    let below =
      int_pow-capacity fan level (omega (arith, small, capacity-grows fan level positive))
        positive in
    ap (λ p. p * fan % 2 ^ 64) below ∙ omega (arith, small)

pub max_leaves-capacity :
    (block_size level : ℕ)
    → capacity (max_children_per_inner_node block_size) level < 2 ^ 32
    → 0 < max_children_per_inner_node block_size
    → max_leaves_for_tree_depth block_size level
      ≡ capacity (max_children_per_inner_node block_size) level
unfolding max_leaves_for_tree_depth
max_leaves-capacity block_size level small positive =
    ap (λ p. p % 2 ^ 32)
      (int_pow-capacity (max_children_per_inner_node block_size) level (omega (arith, small))
        positive)
    ∙ omega (arith, small)
