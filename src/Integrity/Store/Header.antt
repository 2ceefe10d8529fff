-- ===== src/Integrity/Store/Header.antt =====
-- The header in front of a block, as it is written and read.
use libcryfs.Common.{
  ℕ, ◌+◌, ◌^◌, ◌≤◌, ◌<◌, ◌≡◌, refl, [], ◌++◌, arith, length, drop, le→leb, length-append,
  length-drop, append_assoc, append-nil, drop_all, drop-append,
}
use libcryfs.Common.Result.{ok}
use libcryfs.Common.Bytes.{
  Data, BlockId, block_id_length, encode, width, length-encode, decode-encode,
}
use libcryfs.Common.Memory.{add64, read_memory-at, write_memory-at}
use libcryfs.Integrity.Store.{
  format_version_header, header_length, read_format_header, read_block_id, read_client_id,
  read_version, remove_header, prepend_header_to_data,
}

-- A block with its header: format version, block id, client id, version, content.
abbrev pub layout : BlockId → ℕ → ℕ → Data → Data
layout b c v d = encode 2 format_version_header ++ (b ++ (encode 4 c ++ (encode 8 v ++ d)))

module _ (b : BlockId) (size : length b ≡ block_id_length) (c v : ℕ) (d : Data) where
  pub length-layout : length (layout b c v d) ≡ length d + header_length
  length-layout = omega (
    arith,
    size,
    length-append (encode 2 format_version_header) (b ++ (encode 4 c ++ (encode 8 v ++ d))),
    length-append b (encode 4 c ++ (encode 8 v ++ d)),
    length-append (encode 4 c) (encode 8 v ++ d),
    length-append (encode 8 v) d,
    length-encode 2 format_version_header,
    length-encode 4 c,
    length-encode 8 v,
  )

  pub read_format_header-layout : read_format_header (layout b c v d) ≡ ok format_version_header
  unfolding read_format_header
  read_format_header-layout =
      rw
        (read_memory-at [] (encode 2 format_version_header) (b ++ (encode 4 c ++ (encode 8 v ++ d)))
          0 2 refl (omega (arith, length-encode 2 format_version_header)))
        (rw (decode-encode 2 format_version_header (omega arith)))

  pub read_block_id-layout : read_block_id (layout b c v d) ≡ ok b
  unfolding read_block_id
  read_block_id-layout =
      read_memory-at (encode 2 format_version_header) b (encode 4 c ++ (encode 8 v ++ d)) 2 16
        (omega (arith, length-encode 2 format_version_header)) (omega arith)

  pub read_client_id-layout : c < width 4 → read_client_id (layout b c v d) ≡ ok c
  unfolding read_client_id
  read_client_id-layout fits =
      let before = encode 2 format_version_header ++ b in
      let put = length-append (encode 2 format_version_header) b in
      let read =
        read_memory-at before (encode 4 c) (encode 8 v ++ d) 18 4
          (omega (arith, put, size, length-encode 2 format_version_header))
          (omega (arith, length-encode 4 c)) in
      rw ((rw append_assoc at read), decode-encode 4 c fits)

  pub read_version-layout : v < width 8 → read_version (layout b c v d) ≡ ok v
  unfolding read_version
  read_version-layout fits =
      let before = (encode 2 format_version_header ++ b) ++ encode 4 c in
      let put = length-append (encode 2 format_version_header) b in
      let put' = length-append (encode 2 format_version_header ++ b) (encode 4 c) in
      let read =
        read_memory-at before (encode 8 v) d 22 8
          (omega (arith, put, put', size, length-encode 2 format_version_header, length-encode 4 c))
          (omega (arith, length-encode 8 v)) in
      rw ((simp append_assoc at read), decode-encode 8 v fits)

  -- The header in front of the content, without the content.
  header_bytes : Data
  header_bytes = encode 2 format_version_header ++ (b ++ (encode 4 c ++ encode 8 v))

  header-layout : (layout b c v d ≡ header_bytes ++ d) × (length header_bytes ≡ header_length)
  unfolding header_bytes
  header-layout = (
    simp append_assoc,
    omega (
      arith,
      size,
      length-append (encode 2 format_version_header) (b ++ (encode 4 c ++ encode 8 v)),
      length-append b (encode 4 c ++ encode 8 v),
      length-append (encode 4 c) (encode 8 v),
      length-encode 2 format_version_header,
      length-encode 4 c,
      length-encode 8 v,
    ),
  )

  pub drop-layout : drop header_length (layout b c v d) ≡ d
  drop-layout = rw (header-layout.0) (rw header-layout.1 at (drop-append header_bytes d))

  pub remove_header-layout : remove_header (layout b c v d) ≡ ok d
  unfolding remove_header
  remove_header-layout =
      let fits : header_length ≤ length (layout b c v d) = omega (arith, length-layout) in
      rw (le→leb _ _ fits, drop-layout)

  -- The five writes into the block fill it without a gap.
  pub prepend_header_to_data-layout :
      (allocate : ℕ → Data)
      → ((n : ℕ) → length (allocate n) ≡ n)
      → length d + header_length < 2 ^ 64
      → prepend_header_to_data allocate b c v d ≡ ok (layout b c v d)
  unfolding prepend_header_to_data
  prepend_header_to_data-layout allocate allocates small =
      let total = add64 (length d) header_length in
      let memory = allocate total in
      let given : length memory ≡ length d + header_length = omega (arith, allocates total) in
      let e2 = encode 2 format_version_header in
      let e4 = encode 4 c in
      let e8 = encode 8 v in
      let l2 = length-encode 2 format_version_header in
      let l4 = length-encode 4 c in
      let l8 = length-encode 8 v in
      let m1 = drop (length e2) memory in
      let m2 = drop (length b) m1 in
      let m3 = drop (length e4) m2 in
      let m4 = drop (length e8) m3 in
      let s1 = length-drop (length e2) memory in
      let s2 = length-drop (length b) m1 in
      let s3 = length-drop (length e4) m2 in
      let s4 = length-drop (length e8) m3 in
      let p2 = length-append e2 b in
      let p3 = length-append (e2 ++ b) e4 in
      let p4 = length-append ((e2 ++ b) ++ e4) e8 in
      let full : drop (length d) m4 ≡ [] =
        drop_all (length d) m4 (omega (arith, given, size, l2, l4, l8, s1, s2, s3, s4)) in
      rw
        (
          write_memory-at [] e2 memory 0 refl (omega (arith, given, l2)),
          write_memory-at e2 b m1 2 (omega (arith, l2)) (omega (arith, given, size, l2, s1)),
          write_memory-at (e2 ++ b) e4 m2 18 (omega (arith, l2, size, p2))
              (omega (arith, given, size, l2, l4, s1, s2)),
          write_memory-at ((e2 ++ b) ++ e4) e8 m3 22 (omega (arith, l2, l4, size, p2, p3))
              (omega (arith, given, size, l2, l4, l8, s1, s2, s3)),
          write_memory-at (((e2 ++ b) ++ e4) ++ e8) d m4 30
              (omega (arith, l2, l4, l8, size, p2, p3, p4))
              (omega (arith, given, size, l2, l4, l8, s1, s2, s3, s4)),
          full,
        )
        (simp (append-nil, append_assoc))
