-- ===== src/Tests/Compressing.antt =====
-- Run length encoding: a run of arbitrary and a run of identical bytes.
use libcryfs.Common.{◌≡◌, refl, some, [], ◌∷◌, ◌++◌, replicate}
use libcryfs.Common.Result.{ok}
use libcryfs.Common.Bytes.{Data, encode}
use libcryfs.Compressing.{
  arbitrary_run_from, arbitrary_run_length, identical_from, count_identical_bytes,
  encode_arbitrary_words, encode_identical_words, compress_loop, compress, decompress,
}
use libcryfs.Compressing.RoundTrip.{decompress-compress}

abbrev words : Data
words = (5 ∷ 8 ∷ []) ++ (replicate 10 3 ++ (7 ∷ []))

words_compressed : compress words ≡ some (2 ∷ 0 ∷ 5 ∷ 8 ∷ 10 ∷ 0 ∷ 3 ∷ 1 ∷ 0 ∷ 7 ∷ [])
unfolding compress compress_loop encode_arbitrary_words encode_identical_words arbitrary_run_length
    arbitrary_run_from count_identical_bytes identical_from encode
words_compressed = refl

decompress-compress_example :
    (compressed : Data) × (compress words ≡ some compressed)
    × (decompress compressed ≡ some (ok words))
decompress-compress_example = decompress-compress words
