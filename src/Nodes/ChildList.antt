-- ===== src/Nodes/ChildList.antt =====
-- The operations on an inner node are those on the list of its children.
use libcryfs.Common.{
  ℕ, ◌+◌, ◌-◌, ◌*◌, ◌/◌, ◌^◌, ◌≤◌, ◌<◌, ◌≡◌, refl, ◌∙◌, sym, ap, List, [], ◌∷◌, ◌++◌, arith, length,
  length-append, take, drop, take-append, drop-append, append_assoc,
}
use libcryfs.Common.Result.{ok}
use libcryfs.Common.Bytes.{Data, BlockId}
use libcryfs.Common.Memory.{replaced}
use libcryfs.Nodes.View.{Block, depth}
use libcryfs.Nodes.Inner.{null_id, read_child, add_child, remove_last_child}
use libcryfs.Nodes.Image.{
  Node, node_block, size-image, depth-image, set_size-image, read_data-image, write-image,
  layout-image, data_size-image,
}
use libcryfs.Nodes.Children.{
  joined, AreIds, inner_node, inner_block, length-joined, joined-append, replaced-behind,
  read_child-run, write_last_child-run, add_child-run, remove_last_child-run,
  max_storeable_children-run,
}

-- One child in the middle of the data.
joined-middle :
    (before : List BlockId) (child : BlockId) (after : List BlockId) (rest : Data)
    → joined (before ++ child ∷ after) ++ rest ≡ joined before ++ (child ++ (joined after ++ rest))
joined-middle before child after rest =
    rw
      (
        joined-append before (child ∷ after),
        append_assoc (joined before) (child ++ joined after) rest,
        append_assoc child (joined after) rest,
      )
      refl

read-joined :
    (before : List BlockId) (child : BlockId) (after : List BlockId) (rest : Data)
    → AreIds before
    → length child ≡ 16
    → take 16 (drop (length before * 16) (joined (before ++ child ∷ after) ++ rest)) ≡ child
read-joined before child after rest ids own =
    rw
      (
        joined-middle before child after rest,
        sym (length-joined before ids),
        drop-append (joined before) (child ++ (joined after ++ rest)),
        sym own,
        take-append child (joined after ++ rest),
      )
      refl

-- The last child is overwritten.
replaced-last :
    (children : List BlockId) (old new : BlockId) (rest : Data)
    → AreIds children
    → length old ≡ length new
    → replaced (joined (children ++ old ∷ []) ++ rest) (length children * 16) new
      ≡ joined children ++ (new ++ rest)
replaced-last children old new rest ids same =
    rw
      (
        joined-middle children old [] rest,
        replaced-behind (joined children) new (old ++ rest) (length children * 16)
            (sym (length-joined children ids)),
        sym same,
        drop-append old rest,
      )
      refl

replaced-next :
    (children : List BlockId) (new : BlockId) (rest : Data)
    → AreIds children
    → length new ≡ 16
    → replaced (joined children ++ rest) (length children * 16) new
      ≡ joined (children ++ new ∷ []) ++ drop 16 rest
replaced-next children new rest ids own =
    rw
      (
        joined-middle children new [] (drop 16 rest),
        replaced-behind (joined children) new rest (length children * 16)
            (sym (length-joined children ids)),
        own,
      )
      refl

length-append_one :
    (children : List BlockId) (child : BlockId)
    → length (children ++ child ∷ []) ≡ length children + 1
length-append_one children child = omega (arith, length-append children (child ∷ []))

length-middle :
    (before : List BlockId) (child : BlockId) (after : List BlockId) (rest : Data)
    → AreIds before
    → length child ≡ 16
    → AreIds after
    → length (joined (before ++ child ∷ after) ++ rest)
      ≡ length before * 16 + 16 + length after * 16 + length rest
length-middle before child after rest ids own ids' =
    ap length (joined-middle before child after rest)
    ∙ omega (
      arith,
      own,
      length-append (joined before) (child ++ (joined after ++ rest)),
      length-append child (joined after ++ rest),
      length-append (joined after) rest,
      length-joined before ids,
      length-joined after ids',
    )

-- The block of an inner node is given by its size field and its data.
pub inner_block-eq :
    (id : BlockId) (unused level n : ℕ) (children : List BlockId) (payload rest : Data)
    → n ≡ length children
    → payload ≡ joined children ++ rest
    → node_block id
        (record { version = 0; unused = unused; depth = level; size = n; payload = payload })
      ≡ inner_block id unused level children rest
inner_block-eq id unused level n children payload rest sized same = rw (sized, same) refl

-- A child is read where it stands in the list.
pub read_child-eq :
    (id : BlockId) (unused level : ℕ) (before after : List BlockId) (child : BlockId) (rest : Data)
    → AreIds before
    → length child ≡ 16
    → AreIds after
    → length (joined (before ++ child ∷ after) ++ rest) < 2 ^ 32 - 8
    → read_child (length before) (inner_block id unused level (before ++ child ∷ after) rest)
      ≡ ok child
read_child-eq id unused level before after child rest ids own ids' small =
    let total = length-middle before child after rest ids own ids' in
    let count = length-append before (child ∷ after) in
    read_child-run _ (length (before ++ child ∷ after)) (length before) child
      (size-image id (inner_node unused level (before ++ child ∷ after) rest)
        (omega (arith, total, count, small)))
      (omega (arith, count))
      (read_data-image id (inner_node unused level (before ++ child ∷ after) rest)
          (length before * 16) 16 (omega (arith, total))
        ∙ ap ok (read-joined before child after rest ids own))

module _ (id : BlockId) (unused level : ℕ) (children : List BlockId) (ids : AreIds children) where
  -- To add a child to an inner node appends its id to the list of children, and nothing else changes:
  -- the node has room for one more child, the child is one level below it, and ids have 16 bytes. The
  -- block has at least 32 bytes of data and is smaller than 2 ^ 32.
  pub add_child-eq :
      (child : Block) (rest : Data)
      → length child.block_id ≡ 16
      → depth child ≡ ok level
      → level < 255
      → 16 ≤ length rest
      → 32 ≤ length (joined children ++ rest)
      → length (joined children ++ rest) < 2 ^ 32 - 8
      → add_child child (inner_block id unused (level + 1) children rest)
        ≡ ok (inner_block id unused (level + 1) (children ++ child.block_id ∷ []) (drop 16 rest))
  add_child-eq child rest own below top free room small =
      let total : length (joined children ++ rest) ≡ length children * 16 + length rest =
        omega (arith, length-append (joined children) rest, length-joined children ids) in
      let grown : Node = record (inner_node unused (level + 1) children rest) {
        size = length children + 1;
      } in
      add_child-run _ child (node_block id grown) _ (length children)
        (length (joined children ++ rest) / 16) level
        (size-image id (inner_node unused (level + 1) children rest) (omega (arith, total, small)))
        (max_storeable_children-run _ _ _
          (layout-image id (inner_node unused (level + 1) children rest) room small)
          (data_size-image (inner_node unused (level + 1) children rest) small)
          (omega (arith, small)))
        (omega (arith, total, free)) (omega (arith, small)) below
        (depth-image id (inner_node unused (level + 1) children rest) (omega (arith, top)))
        (set_size-image id (inner_node unused (level + 1) children rest) (length children + 1))
        (write_last_child-run (node_block id grown) _ (length children) child.block_id
          (size-image id grown (omega (arith, total, small, free)))
          (omega (arith, total, small, free))
          (write-image id grown child.block_id (length children * 16)
              (omega (arith, total, own, free)) small
            ∙ ap ok (
                inner_block-eq id unused (level + 1) (length children + 1)
                  (children ++ child.block_id ∷ []) _ (drop 16 rest)
                  (sym (length-append_one children child.block_id))
                  (replaced-next children child.block_id rest ids own))))

  -- To remove the last child of an inner node that has another one takes it off the list of children, and
  -- zeroes stand in its place; nothing else changes. Ids have 16 bytes, and the block is smaller than
  -- 2 ^ 32.
  pub remove_last_child-eq :
      (child : BlockId) (rest : Data)
      → length child ≡ 16
      → 0 < length children
      → length (joined (children ++ child ∷ []) ++ rest) < 2 ^ 32 - 8
      → remove_last_child (inner_block id unused level (children ++ child ∷ []) rest)
        ≡ ok (inner_block id unused level children (null_id ++ rest))
  remove_last_child-eq child rest own others small =
      let n = length children in
      let total = length-middle children child [] rest ids own tt in
      let count = length-append_one children child in
      let start = inner_node unused level (children ++ child ∷ []) rest in
      let cleared : Node = record start { payload = joined children ++ (null_id ++ rest) } in
      remove_last_child-run _ (node_block id cleared) _ n
        (size-image id start (omega (arith, total, count, small)) ∙ ap ok count)
        (size-image id cleared (omega (arith, total, count, small)) ∙ ap ok count) others
        (omega (arith, total, small))
        (write_last_child-run _ _ n null_id
          (size-image id start (omega (arith, total, count, small)) ∙ ap ok count)
          (omega (arith, total, small))
          (write-image id start null_id (n * 16) (omega (arith, total)) small
            ∙ ap (λ p. ok (node_block id (record start { payload = p })))
                (replaced-last children child null_id rest ids own)))
        (set_size-image id cleared n)
