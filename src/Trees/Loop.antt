-- ===== src/Trees/Loop.antt =====
-- Counting loops: an invariant of the body holds at the end.
use libcryfs.Common.{ℕ, zero, suc, ◌+◌, ◌≤◌, ◌<◌, ◌≡◌, refl, ◌∙◌, ap, subst, arith}
use libcryfs.Common.Result.{Result, ok, ◌>>=◌}
use libcryfs.Trees.Math.{for_range}

-- Where each turn of the loop succeeds and keeps an invariant, so does the loop.
pub for_range-keeps :
    {A : Type 0} (P : ℕ → A → Type 0) (body : ℕ → A → Result A) (count first : ℕ) (a : A)
    → ((i : ℕ) (b : A)
        → first ≤ i
        → i < first + count
        → P i b
        → (c : A) × (body i b ≡ ok c) × P (i + 1) c)
    → P first a
    → (c : A) × (for_range body count first a ≡ ok c) × P (first + count) c
unfolding for_range
for_range-keeps P body zero first a step start = (a, refl, subst (λ n. P n a) (omega arith) start)
for_range-keeps P body (suc count) first a step start =
    let (b, run, next) = step first a (omega arith) (omega arith) start in
    let (c, rest, end) =
      for_range-keeps P body count (first + 1) b
        (λ i d low high. step i d (omega (arith, low)) (omega (arith, high))) next in
    (
      c,
      ap (λ r. r >>= λ d. for_range body count (first + 1) d) run ∙ rest,
      subst (λ n. P n c) (omega arith) end,
    )
