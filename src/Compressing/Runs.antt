-- ===== src/Compressing/Runs.antt =====
-- The runs of the run length encoding: how long they are, and what is read back of one.
use libcryfs.Common.{
  ℕ, zero, suc, ◌+◌, ◌-◌, ◌%◌, subst, ◌≤◌, ◌<◌, ◌≡◌, refl, ap, true, false, inl, inr, [], ◌∷◌, ◌++◌,
  arith, leb, ◌==◌, Bool-cases, if◌then◌else◌, length, take, replicate, length-take, length-append,
  take-append, drop-append,
}
use libcryfs.Common.Result.{ok}
use libcryfs.Common.Bytes.{Data, encode, decode, width, length-encode, decode-encode}
use libcryfs.Compressing.{
  arbitrary_run_from, arbitrary_run_length, identical_from, count_identical_bytes, max_run,
  read_stream, has_data, decode_arbitrary_words, decode_identical_words,
}

arbitrary_run_from-le :
    (offset last num : ℕ) (xs : Data) → arbitrary_run_from offset last num xs ≤ offset + length xs
unfolding arbitrary_run_from
arbitrary_run_from-le offset last num [] = omega arith
arbitrary_run_from-le offset last num (x ∷ xs) =
    let n = if x == last then num + 1 else 1 in
    let rest = arbitrary_run_from-le (offset + 1) x n xs in ground arith

pub arbitrary_run_length-le :
    (xs : Data) → (arbitrary_run_length xs ≤ length xs) × (arbitrary_run_length xs ≤ max_run)
unfolding arbitrary_run_length
arbitrary_run_length-le [] = (omega arith, omega arith)
arbitrary_run_length-le (x ∷ xs) =
    let bound = arbitrary_run_from-le 0 ((x + 1) % 256) 1 (take max_run (x ∷ xs)) in
    let size = length-take max_run (x ∷ xs) in
    (omega (arith, bound, size), omega (arith, bound, size))

identical_from-le : (x : ℕ) (xs : Data) → identical_from x xs ≤ length xs
unfolding identical_from
identical_from-le x [] = omega arith
identical_from-le x (y ∷ ys) = ground (arith, identical_from-le x ys)

pub count_identical_bytes-le : (x : ℕ) (xs : Data) → count_identical_bytes x xs ≤ max_run
unfolding count_identical_bytes
count_identical_bytes-le x xs =
    omega (arith, identical_from-le x (take (max_run - 1) xs), length-take (max_run - 1) xs)

pub count_identical_bytes-positive : (x : ℕ) (xs : Data) → 0 < count_identical_bytes x xs
unfolding count_identical_bytes
count_identical_bytes-positive x xs = omega arith

take-identical_from :
    (x n : ℕ) (xs : Data)
    → take (identical_from x (take n xs)) xs ≡ replicate (identical_from x (take n xs)) x
unfolding identical_from
take-identical_from x zero xs = refl
take-identical_from x (suc n) [] = refl
take-identical_from x (suc n) (y ∷ ys) = elim (Bool-cases (y == x)) [
  | inl same ↦
      let e : y ≡ x = ground arith in rw same (rw e (ap (λ t. x ∷ t) (take-identical_from x n ys)))
  | inr other ↦ rw other
]

take-identical_from-suc :
    (x n : ℕ) (xs : Data)
    → take (suc (identical_from x (take n xs))) (x ∷ xs)
      ≡ replicate (suc (identical_from x (take n xs))) x
take-identical_from-suc x n xs = ap (λ t. x ∷ t) (take-identical_from x n xs)

-- A run of identical bytes is what it says.
pub take-count_identical_bytes :
    (x : ℕ) (xs : Data)
    → take (count_identical_bytes x xs) (x ∷ xs) ≡ replicate (count_identical_bytes x xs) x
unfolding count_identical_bytes
take-count_identical_bytes x xs = take-identical_from-suc x (max_run - 1) xs

read_stream-append :
    (n : ℕ) (xs rest : Data) → length xs ≡ n → read_stream n (xs ++ rest) ≡ ok (xs, rest)
unfolding read_stream
read_stream-append n xs rest e =
    let fits : leb (length xs) (length (xs ++ rest)) ≡ true =
      ground (arith, length-append xs rest) in
    subst (λ k. read_stream k (xs ++ rest) ≡ ok (xs, rest)) e
      (rw (fits, take-append xs rest, drop-append xs rest))

pub decode_arbitrary_words-append :
    (run rest : Data)
    → length run < width 2
    → decode_arbitrary_words (encode 2 (length run) ++ (run ++ rest)) ≡ ok (run, rest)
unfolding decode_arbitrary_words
decode_arbitrary_words-append run rest small = rw (
  read_stream-append 2 (encode 2 (length run)) (run ++ rest) (length-encode 2 (length run)),
  decode-encode 2 (length run) small,
  read_stream-append (length run) run rest refl,
)

decode-single : (value : ℕ) → decode (value ∷ []) ≡ value
unfolding decode
decode-single value = omega arith

pub decode_identical_words-append :
    (size value : ℕ) (rest : Data)
    → size < width 2
    → decode_identical_words (encode 2 size ++ (value ∷ rest)) ≡ ok (replicate size value, rest)
unfolding decode_identical_words
decode_identical_words-append size value rest small = rw (
  read_stream-append 2 (encode 2 size) (value ∷ rest) (length-encode 2 size),
  decode-encode 2 size small,
  read_stream-append 1 (value ∷ []) rest refl,
  decode-single value,
)

pub has_data-encode : (n : ℕ) (rest : Data) → has_data (encode 2 n ++ rest) ≡ true
unfolding has_data encode
has_data-encode n rest = refl

pub has_data-nil : has_data [] ≡ false
unfolding has_data
has_data-nil = refl
