-- ===== src/Trees/Math.antt =====
-- src/blobstore/implementations/onblocks/utils/Math.h at unsigned types, and a counting loop.
use libcryfs.Common.{ℕ, zero, suc, ◌+◌, ◌-◌, ◌*◌, ◌/◌, ◌%◌, ◌^◌, ltb, if◌then◌else◌}
use libcryfs.Common.Result.{Result, ok, ◌>>=◌}

-- `intPow` on `uint64_t`
unfoldable pub int_pow : ℕ → ℕ → ℕ
int_pow base zero = 1
int_pow base (suc exponent) = (int_pow base exponent * base) % 2 ^ 64

-- `ceilDivision` on an unsigned type with `modulus` values.
abbrev pub ceil_division : ℕ → ℕ → ℕ → ℕ
ceil_division modulus dividend divisor = ((dividend + divisor + (modulus - 1)) % modulus) / divisor

abbrev pub max_zero_subtraction : ℕ → ℕ → ℕ
max_zero_subtraction minuend subtrahend = if ltb minuend subtrahend then 0 else minuend - subtrahend

-- for (i = first; i < first + count; ++i) state = body(i, state)
unfoldable pub for_range {ℓ} : {A : Type ℓ} → (ℕ → A → Result A) → ℕ → ℕ → A → Result A
for_range body zero first state = ok state
for_range body (suc count) first state =
    body first state >>= λ next. for_range body count (first + 1) next
