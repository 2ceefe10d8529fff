-- ===== src/Compressing/RoundTrip.antt =====
-- Decompressing what was compressed.
use libcryfs.Common.{
  ℕ, zero, suc, ◌<◌, ◌≡◌, refl, ap, ◌∙◌, some, [], ◌∷◌, ◌++◌, append_assoc, append-nil, arith,
  length, take, drop, replicate, subst, length-append, length-take, length-drop, take-append-drop,
}
use libcryfs.Common.Result.{ok}
use libcryfs.Common.Bytes.{Data, encode, width, length-encode}
use libcryfs.Compressing.{
  arbitrary_run_length, count_identical_bytes, encode_arbitrary_words, encode_identical_words,
  compress_loop, compress, decode_arbitrary_words, decompress_loop, decompress,
}
use libcryfs.Compressing.Runs.{
  arbitrary_run_length-le, count_identical_bytes-positive, count_identical_bytes-le,
  take-count_identical_bytes, decode_arbitrary_words-append, decode_identical_words-append,
  has_data-encode, has_data-nil,
}

-- Bytes that are decompressed to the data, behind whatever was decompressed before.
abbrev Decodes : Data → Data → Type 0
Decodes c xs =
    (fuel : ℕ) (out : Data) → length c < fuel → decompress_loop fuel c out ≡ some (ok (out ++ xs))

abbrev Compressed : ℕ → Data → Data → Type 0
Compressed fuel xs out = (c : Data) × (compress_loop fuel xs out ≡ some (out ++ c)) × Decodes c xs

nil-Decodes : Decodes [] []
unfolding decompress_loop
nil-Decodes zero out enough = absurd (omega (arith, enough))
nil-Decodes (suc fuel) out enough = rw (decompress_loop, has_data-nil, append-nil)

-- The last run.
one_run-Decodes : (run : Data) → length run < width 2 → Decodes (encode 2 (length run) ++ run) run
unfolding decompress_loop
one_run-Decodes run small zero out enough = absurd (omega (arith, enough))
one_run-Decodes run small (suc fuel) out enough =
    let decoded : decode_arbitrary_words (encode 2 (length run) ++ run) ≡ ok (run, []) =
      rw append-nil at (decode_arbitrary_words-append run [] small) in
    rw (decompress_loop, has_data-encode (length run) run, decoded, has_data-nil)

-- Two runs and what follows.
two_runs-Decodes :
    (run : Data) (size value : ℕ) (c xs : Data)
    → length run < width 2
    → size < width 2
    → Decodes c xs
    → Decodes
        (encode 2 (length run) ++ (run ++ (encode 2 size ++ (value ∷ c))))
        (run ++ (replicate size value ++ xs))
unfolding decompress_loop
two_runs-Decodes run size value c xs small small2 d zero out enough = absurd (omega (arith, enough))
two_runs-Decodes run size value c xs small small2 d (suc fuel) out enough =
    let rest = encode 2 size ++ (value ∷ c) in
    let less : length c < fuel = omega (
      arith,
      enough,
      length-append (encode 2 (length run)) (run ++ rest),
      length-append run rest,
      length-append (encode 2 size) (value ∷ c),
      length-encode 2 (length run),
      length-encode 2 size,
    ) in
    rw
      (
        decompress_loop,
        has_data-encode (length run) (run ++ rest),
        decode_arbitrary_words-append run rest small,
        has_data-encode size (value ∷ c),
        decode_identical_words-append size value c small2,
        d fuel ((out ++ run) ++ replicate size value) less,
      )
      (simp append_assoc)

joined :
    (out a run e : Data) (start : ℕ) (c : Data)
    → ((out ++ (a ++ run)) ++ (e ++ start ∷ [])) ++ c ≡ out ++ (a ++ (run ++ (e ++ (start ∷ c))))
joined out a run e start c = simp append_assoc

-- A round that does not end with the data.
next_round-Compressed :
    (fuel b : ℕ) (bs out : Data) (start : ℕ) (more : Data)
    → drop (arbitrary_run_length (b ∷ bs)) (b ∷ bs) ≡ start ∷ more
    → Compressed fuel (drop (count_identical_bytes start more) (start ∷ more)) (
        (out
          ++ (encode 2 (arbitrary_run_length (b ∷ bs))
              ++ take (arbitrary_run_length (b ∷ bs)) (b ∷ bs)))
        ++ (encode 2 (count_identical_bytes start more) ++ start ∷ []))
    → Compressed (suc fuel) (b ∷ bs) out
unfolding compress_loop encode_arbitrary_words encode_identical_words
next_round-Compressed fuel b bs out start more e (c, looped, d) =
    let xs = b ∷ bs in
    let n = arbitrary_run_length xs in
    let run = take n xs in
    let m = count_identical_bytes start more in
    let bound = arbitrary_run_length-le xs in
    let size : length run ≡ n = omega (arith, bound.0, length-take n xs) in
    let whole : run ++ (start ∷ more) ≡ xs = rw e at (take-append-drop n xs) in
    let whole2 : replicate m start ++ drop m (start ∷ more) ≡ start ∷ more =
      rw (take-count_identical_bytes start more) at (take-append-drop m (start ∷ more)) in
    let rest = encode 2 m ++ (start ∷ c) in
    let two =
      two_runs-Decodes run m start c (drop m (start ∷ more)) (omega (arith, size, bound.1))
        (omega (arith, count_identical_bytes-le start more)) d in
    (
      encode 2 n ++ (run ++ rest),
      rw (compress_loop, e, looped)
          (ap (λ ys. some ys) (joined out (encode 2 n) run (encode 2 m) start c)),
      subst (λ ys. Decodes (encode 2 n ++ (run ++ rest)) ys) (ap (λ ys. run ++ ys) whole2 ∙ whole)
          (subst
            (λ k.
              Decodes (encode 2 k ++ (run ++ rest))
                (run ++ (replicate m start ++ drop m (start ∷ more))))
            size two),
    )

-- One round of the loop of `Compress`, with what is left behind the first run.
round-Compressed :
    (fuel b : ℕ) (bs out rest : Data)
    → length bs < fuel
    → drop (arbitrary_run_length (b ∷ bs)) (b ∷ bs) ≡ rest
    → ((xs out : Data) → length xs < fuel → Compressed fuel xs out)
    → Compressed (suc fuel) (b ∷ bs) out
unfolding compress_loop encode_arbitrary_words
round-Compressed fuel b bs out [] enough e ih =
    let xs = b ∷ bs in
    let n = arbitrary_run_length xs in
    let run = take n xs in
    let bound = arbitrary_run_length-le xs in
    let size : length run ≡ n = omega (arith, bound.0, length-take n xs) in
    let whole : run ≡ xs = rw (e, append-nil) at (take-append-drop n xs) in
    let d : Decodes (encode 2 n ++ run) xs =
      subst (λ ys. Decodes (encode 2 n ++ run) ys) whole
        (subst (λ k. Decodes (encode 2 k ++ run) run) size
          (one_run-Decodes run (omega (arith, size, bound.1)))) in
    (encode 2 n ++ run, rw (compress_loop, e), d)
round-Compressed fuel b bs out (start ∷ more) enough e ih =
    let n = arbitrary_run_length (b ∷ bs) in
    let m = count_identical_bytes start more in
    let less : length (drop m (start ∷ more)) < fuel = omega (
      arith,
      enough,
      ap (λ ys. length ys) e,
      length-drop n (b ∷ bs),
      length-drop m (start ∷ more),
      count_identical_bytes-positive start more,
    ) in
    next_round-Compressed fuel b bs out start more e (ih (drop m (start ∷ more)) _ less)

-- What the loop of `Compress` writes for the data that is left.
compress_loop-Compressed : (fuel : ℕ) (xs out : Data) → length xs < fuel → Compressed fuel xs out
unfolding compress_loop
compress_loop-Compressed zero xs out enough = absurd (omega (arith, enough))
compress_loop-Compressed (suc fuel) [] out enough = ([], rw append-nil, nil-Decodes)
compress_loop-Compressed (suc fuel) (b ∷ bs) out enough =
    round-Compressed fuel b bs out (drop (arbitrary_run_length (b ∷ bs)) (b ∷ bs))
      (omega (arith, enough)) refl (compress_loop-Compressed fuel)

-- Every byte string is compressed, and what comes out is decompressed without an error to the same
-- byte string.
pub decompress-compress :
    (data_ : Data)
    → (compressed : Data) × (compress data_ ≡ some compressed)
      × (decompress compressed ≡ some (ok data_))
unfolding compress decompress
decompress-compress data_ =
    let (c, looped, d) = compress_loop-Compressed (suc (length data_)) data_ [] (omega arith) in
    (c, looped, d (suc (length c)) [] (omega arith))
