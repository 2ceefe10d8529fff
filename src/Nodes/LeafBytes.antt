-- ===== src/Nodes/LeafBytes.antt =====
-- A leaf is a byte string, behind which its block is filled with zeroes.
use libcryfs.Common.{
  ℕ, ◌+◌, ◌-◌, ◌^◌, ◌≤◌, ◌<◌, ◌≡◌, refl, ◌∙◌, sym, ap, arith, ltb, length, length-replicate,
  length-drop, take, drop, replicate, take_inside, drop_inside, Bool-cases, inl, inr,
}
use libcryfs.Common.Result.{ok}
use libcryfs.Common.Bytes.{Data, BlockId}
use libcryfs.Common.Memory.{sub64, replaced}
use libcryfs.Nodes.View.{size}
use libcryfs.Nodes.Leaf.{max_storeable_bytes, fill_data_with_zeroes_from_to, read, write, resize}
use libcryfs.Nodes.Image.{
  size-image, set_size-image, read_data-image, write-image, layout-image, data_size-image,
}
use libcryfs.Nodes.LeafRuns.{
  leaf_node, leaf_block, resized, length-payload, replaced_inside, length-replaced, read-run,
  write-run, resize-run_grow, resize-run_shrink, max_storeable_bytes-run, leaf_block-eq,
  resized-shrink, resized-grow, length-resized,
}
use libcryfs.Nodes.Leaf.{open_leaf}
use libcryfs.Nodes.LeafRuns.{open_leaf-run}
use libcryfs.Nodes.Image.{depth-image, format_version-image}

module _ (id : BlockId) (unused : ℕ) (bytes : Data) (padding : ℕ)
    (room : 32 ≤ length bytes + padding) (small : length bytes + padding < 2 ^ 32 - 8) where
  leaf-size : size (leaf_block id unused bytes padding) ≡ ok (length bytes)
  leaf-size = size-image id (leaf_node unused bytes padding) (omega (arith, small))

  leaf-most : max_storeable_bytes (leaf_block id unused bytes padding) ≡ ok (length bytes + padding)
  leaf-most =
      max_storeable_bytes-run _ _ _
        (layout-image id (leaf_node unused bytes padding)
          (omega (arith, room, length-payload bytes padding))
          (omega (arith, small, length-payload bytes padding)))
        (data_size-image (leaf_node unused bytes padding)
            (omega (arith, small, length-payload bytes padding))
          ∙ length-payload bytes padding)

  pub read-eq :
      (offset count : ℕ)
      → offset + count ≤ length bytes
      → read offset count (leaf_block id unused bytes padding) ≡ ok (take count (drop offset bytes))
  unfolding read
  read-eq offset count fits =
      read-run _ (length bytes) offset count _ leaf-size (omega (arith, small)) fits (
        read_data-image id (leaf_node unused bytes padding) offset count
          (omega (arith, fits, length-payload bytes padding))
        ∙ ap ok (
            rw
              (
                drop_inside offset bytes (replicate padding 0) (omega (arith, fits)),
                take_inside count (drop offset bytes) (replicate padding 0)
                    (omega (arith, fits, length-drop offset bytes)),
              )
              refl))

  -- A write inside of the bytes that a leaf holds succeeds and replaces those bytes; the number of bytes,
  -- the other bytes, the header and the zeroes behind them stay. The block has at least 32 bytes of data
  -- and is smaller than 2 ^ 32.
  pub write-eq :
      (source : Data) (offset : ℕ)
      → offset + length source ≤ length bytes
      → write source offset (leaf_block id unused bytes padding)
        ≡ ok (leaf_block id unused (replaced bytes offset source) padding)
  unfolding write
  write-eq source offset fits =
      write-run _ _ (length bytes) offset source leaf-size (omega (arith, small)) fits (
        write-image id (leaf_node unused bytes padding) source offset
          (omega (arith, fits, length-payload bytes padding))
          (omega (arith, small, length-payload bytes padding))
        ∙ ap ok (
            leaf_block-eq id unused (length bytes) padding (replaced bytes offset source) _
              (sym (length-replaced bytes source offset fits))
              (replaced_inside bytes source (replicate padding 0) offset fits)))

  -- A resize of a leaf that holds a byte string, to a size for which the block has room, succeeds: the
  -- leaf then holds the byte string cut off, or with zeroes at its end, and its block has zeroes behind
  -- it again. So no byte that was cut off comes back when the leaf grows. The block has at least 32 bytes
  -- of data and is smaller than 2 ^ 32.
  pub resize-eq :
      (new_size : ℕ)
      → new_size ≤ length bytes + padding
      → resize new_size (leaf_block id unused bytes padding)
        ≡ ok (leaf_block id unused (resized new_size bytes) (length bytes + padding - new_size))
  unfolding resize max_storeable_bytes fill_data_with_zeroes_from_to
  resize-eq new_size fits = elim (Bool-cases (ltb new_size (length bytes))) [
    | inl shrinks ↦
        let less : new_size < length bytes = ground (arith, shrinks) in
        resize-run_shrink _ _ _ (length bytes + padding) (length bytes) new_size leaf-most leaf-size
          fits less
          (write-image id (leaf_node unused bytes padding)
            (replicate (sub64 (length bytes) new_size) 0) new_size
            (ground (
              arith,
              less,
              small,
              length-replicate {A = ℕ} (sub64 (length bytes) new_size) 0,
              length-payload bytes padding,
            ))
            (omega (arith, small, length-payload bytes padding)))
          (set_size-image id _ new_size
            ∙ ap ok (
                leaf_block-eq id unused new_size _ (resized new_size bytes) _
                  (length-resized new_size bytes)
                  (resized-shrink new_size padding bytes less (omega (arith, small)))))
    | inr grows ↦
        resize-run_grow _ _ (length bytes + padding) (length bytes) new_size leaf-most leaf-size
          fits (ground (arith, grows))
          (set_size-image id (leaf_node unused bytes padding) new_size
            ∙ ap ok (
                leaf_block-eq id unused new_size _ (resized new_size bytes) _
                  (length-resized new_size bytes)
                  (resized-grow new_size padding bytes (ground (arith, grows)) fits)))
  ]

  -- The checks of the constructor pass.
  pub open_leaf-eq :
      open_leaf (leaf_block id unused bytes padding) ≡ ok (leaf_block id unused bytes padding)
  open_leaf-eq =
      open_leaf-run _ (length bytes) (length bytes + padding)
        (depth-image id (leaf_node unused bytes padding) (omega arith)) leaf-size leaf-most
        (omega arith) (format_version-image id (leaf_node unused bytes padding) (omega arith))
