-- ===== src/BlockStore/InMemory.antt =====
-- `InMemoryBlockStore2` (src/blockstore/implementations/inmemory): the blocks in a hash map. The
-- mutex is not modelled: each operation is one step.
pub mod Lawful
use libcryfs.Common.{ℕ, ◌≡◌, Bool, true, false, Option, none, some, List, length}
use libcryfs.Common.Equality.{bytes_eq}
use libcryfs.Common.Result.{Result, ok, err, runtime_error, ◌>>=◌}
use libcryfs.Common.Assoc.{Assoc, keys, find, assign, insert, erase}
use libcryfs.Common.Bytes.{Data, BlockId}

abbrev pub Blocks : Type 0
Blocks = Assoc BlockId Data

-- `_tryCreate`: whether the insertion was successful, and the map after it.
unfoldable pub try_create : BlockId → Data → Blocks → Bool × Blocks
try_create block_id data_ blocks =
    (elim (find block_id blocks) [ none ↦ true | some _ ↦ false ], insert block_id data_ blocks)

unfoldable pub remove : BlockId → Blocks → Bool × Blocks
remove block_id blocks = elim (find block_id blocks) [
  | none ↦ (false, blocks)
  | some _ ↦ (true, erase block_id blocks)
]

unfoldable pub load : BlockId → Blocks → Option Data
load block_id blocks = find block_id blocks

unfoldable pub store : BlockId → Data → Blocks → Result Blocks
unfolding try_create
store block_id data_ blocks = elim (find block_id blocks) [
  | none ↦
      (let (success, blocks') = try_create block_id data_ blocks in
        elim success [ true ↦ ok blocks' | false ↦ err runtime_error ])
  | some _ ↦ ok (assign block_id data_ blocks)
]

unfoldable pub num_blocks : Blocks → ℕ
num_blocks blocks = length blocks

unfoldable pub block_size_from_physical_block_size : ℕ → ℕ
block_size_from_physical_block_size block_size = block_size

-- `_allBlockIds`
unfoldable pub for_each_block : Blocks → List BlockId
for_each_block blocks = keys blocks
