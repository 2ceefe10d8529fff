-- ===== src/Common/Bytes.antt =====
-- Fixed-width unsigned integers as they stand in memory on a little-endian machine: `memcpy` from
-- and to an object of `n` bytes.
use Prim.Native.Nat.{ℕ, zero, suc, ◌+◌, ◌*◌, ◌/◌, ◌%◌, ◌<◌}
use Prim.Native.Char.{code}
use Prim.Native.String.{String}
use mathlib.Core.Path.{◌≡◌, refl}
use mathlib.Core.List.{List, [], ◌∷◌}
use native.Mathlib.Omega.{arith}
use libcryfs.Common.Lists.{length, All}

-- A byte string, `cpputils::Data`.
abbrev pub Data : Type 0
Data = List ℕ

-- `IdWrapper`: the 16 bytes of a random identifier.
abbrev pub BlockId : Type 0
BlockId = Data

-- `IdWrapper::BINARY_LENGTH`
abbrev pub block_id_length : ℕ
block_id_length = 16

abbrev pub IsBytes : Data → Type 0
IsBytes = All (λ b. b < 256)

-- The bytes of an ASCII text.
abbrev pub codes : String → Data
codes String.[] = []
codes (String.◌∷◌ c s) = code c ∷ codes s

unfoldable pub encode : ℕ → ℕ → Data
encode zero x = []
encode (suc n) x = (x % 256) ∷ encode n (x / 256)

unfoldable pub decode : Data → ℕ
decode [] = 0
decode (b ∷ bs) = b + 256 * decode bs

-- The bound of an unsigned integer of `n` bytes.
abbrev pub width : ℕ → ℕ
width zero = 1
width (suc n) = 256 * width n

pub length-encode : (n x : ℕ) → length (encode n x) ≡ n
unfolding encode
length-encode zero x = refl
length-encode (suc n) x = omega (arith, length-encode n (x / 256))

pub encode-IsBytes : (n x : ℕ) → IsBytes (encode n x)
unfolding encode
encode-IsBytes zero x = tt
encode-IsBytes (suc n) x = (omega arith, encode-IsBytes n (x / 256))

pub decode-encode : (n x : ℕ) → x < width n → decode (encode n x) ≡ x
unfolding encode decode
decode-encode zero x h = omega arith
decode-encode (suc n) x h = omega (arith, decode-encode n (x / 256) (omega arith))

pub decode-lt-width : (bs : Data) → IsBytes bs → decode bs < width (length bs)
unfolding decode
decode-lt-width [] h = omega arith
decode-lt-width (b ∷ bs) h = omega (arith, decode-lt-width bs h.1)

pub encode-decode : (bs : Data) → IsBytes bs → encode (length bs) (decode bs) ≡ bs
unfolding encode decode
encode-decode [] h = refl
encode-decode (b ∷ bs) h = ground (arith, encode-decode bs h.1)
