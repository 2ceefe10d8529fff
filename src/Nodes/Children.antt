-- ===== src/Nodes/Children.antt =====
-- An inner node is a list of children, which stand one behind the other in its block.
use libcryfs.Common.{
  ℕ, ◌+◌, ◌-◌, ◌*◌, ◌/◌, ◌%◌, ◌^◌, ◌<◌, ◌≡◌, refl, sym, ap, List, [], ◌∷◌, ◌++◌, arith, length,
  length-append, drop, take-append, drop-append_add, append_assoc, All,
}
use libcryfs.Common.Equality.{nat_eq}
use libcryfs.Common.Result.{ok}
use libcryfs.Common.Bytes.{Data, BlockId, block_id_length}
use libcryfs.Common.Memory.{replaced}
use libcryfs.Nodes.View
use libcryfs.Nodes.View.{Block, size, depth, set_size, layout, data_size, read_data}
use libcryfs.Nodes.Inner.{
  null_id, read_child, write_child, write_last_child, max_storeable_children, add_child,
  remove_last_child,
}
use libcryfs.Nodes.Image.{Node, node_block}

-- The ids one behind the other.
abbrev pub joined : List BlockId → Data
joined [] = []
joined (child ∷ children) = child ++ joined children

abbrev pub AreIds : List BlockId → Type 0
AreIds = All (λ child. length child ≡ block_id_length)

abbrev pub inner_node : ℕ → ℕ → List BlockId → Data → Node
inner_node unused level children rest = record {
  version = 0;
  unused = unused;
  depth = level;
  size = length children;
  payload = joined children ++ rest;
}

abbrev pub inner_block : BlockId → ℕ → ℕ → List BlockId → Data → Block
inner_block id unused level children rest = node_block id (inner_node unused level children rest)

pub length-joined :
    (children : List BlockId) → AreIds children → length (joined children) ≡ length children * 16
length-joined [] h = refl
length-joined (child ∷ children) (own, h) =
    omega (arith, length-append child (joined children), length-joined children h, own)

pub joined-append :
    (children more : List BlockId) → joined (children ++ more) ≡ joined children ++ joined more
joined-append [] more = refl
joined-append (child ∷ children) more =
    rw (joined-append children more) (sym (append_assoc child (joined children) (joined more)))

pub replaced-behind :
    (before bytes rest : Data) (offset : ℕ)
    → offset ≡ length before
    → replaced (before ++ rest) offset bytes ≡ before ++ (bytes ++ drop (length bytes) rest)
replaced-behind before bytes rest offset e =
    rw (e, take-append before rest, drop-append_add before rest (length bytes)) refl

pub read_child-run :
    (node : Block) (n index : ℕ) (child : BlockId)
    → size node ≡ ok n
    → index < n
    → read_data (index * block_id_length) block_id_length node ≡ ok child
    → read_child index node ≡ ok child
unfolding read_child
read_child-run node n index child sized inside run = ground (arith, sized, inside, run)

pub write_last_child-run :
    (node node' : Block) (n : ℕ) (child : BlockId)
    → size node ≡ ok (n + 1)
    → n < 2 ^ 32 - 1
    → View.write child (n * block_id_length) node ≡ ok node'
    → write_last_child child node ≡ ok node'
unfolding write_last_child write_child
write_last_child-run node node' n child sized small run =
    let last : (n + 1 + (2 ^ 32 - 1)) % 2 ^ 32 ≡ n = omega (arith, small) in
    ground (arith, sized, last, run)

pub add_child-run :
    (node child grown node' : Block) (n most level : ℕ)
    → size node ≡ ok n
    → max_storeable_children node ≡ ok most
    → n < most
    → most < 2 ^ 32
    → depth child ≡ ok level
    → depth node ≡ ok (level + 1)
    → set_size (n + 1) node ≡ ok grown
    → write_last_child child.block_id grown ≡ ok node'
    → add_child child node ≡ ok node'
unfolding add_child
add_child-run node child grown node' n most level sized limit room small below above set run =
    let next : (n + 1) % 2 ^ 32 ≡ n + 1 = omega (arith, room, small) in
    ground (arith, sized, limit, room, below, above, next, set, run)

pub remove_last_child-run :
    (node cleared node' : Block) (n : ℕ)
    → size node ≡ ok (n + 1)
    → size cleared ≡ ok (n + 1)
    → 0 < n
    → n < 2 ^ 32 - 1
    → write_last_child null_id node ≡ ok cleared
    → set_size n cleared ≡ ok node'
    → remove_last_child node ≡ ok node'
unfolding remove_last_child
remove_last_child-run node cleared node' n sized sized' some_left small write set =
    let last : (n + 1 + (2 ^ 32 - 1)) % 2 ^ 32 ≡ n = omega (arith, small) in
    ground (arith, sized, sized', some_left, write, last, set)

pub max_storeable_children-run :
    (node : Block) (block_size n : ℕ)
    → layout node ≡ ok block_size
    → data_size block_size ≡ n
    → n < 2 ^ 32
    → max_storeable_children node ≡ ok (n / block_id_length)
unfolding max_storeable_children
max_storeable_children-run node block_size n run e small =
    rw (run, e) (ap ok (omega (arith, small)))
