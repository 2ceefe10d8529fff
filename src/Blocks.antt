-- ===== src/Blocks.antt =====
-- `LowToHighLevelBlock` and `LowToHighLevelBlockStore`
-- (src/blockstore/implementations/low2highlevel), and what `BlockStore`
-- (src/blockstore/interface/BlockStore.h) adds. An open block is a value: `destroy` is its destructor.
-- Random ids come from the parameter `ids`, of which each creation takes the first.
pub mod Written
use libcryfs.Common.{
  ℕ, ◌≡◌, Bool, true, false, Option, none, some, List, [], ◌∷◌, take, length, replicate, ltb,
  if◌then◌else◌, drop, ◌++◌, ◌-◌,
}
use libcryfs.Common.Result.{Result, ok, err, guard, runtime_error, undefined, ◌>>=◌, ◌>>◌}
use libcryfs.Common.Bytes.{Data, BlockId}
use libcryfs.BlockStore.{BlockStore2}
use libcryfs.Nodes.View.{Block, write_block}

-- `LowToHighLevelBlock`
pub record OpenBlock : Type 0 where
  pub block : Block
  pub data_changed : Bool

abbrev pub open_block : BlockId → Data → OpenBlock
open_block block_id content = record {
  block = record { block_id = block_id; content = content };
  data_changed = false;
}

unfoldable pub write : Data → ℕ → OpenBlock → Result OpenBlock
write source offset b = do
  block ← write_block source offset b.block
  ok (record { block = block; data_changed = true })

-- `DataUtils::resize`
unfoldable pub resize_data : Data → ℕ → Data
resize_data content new_size = take new_size content ++ replicate (new_size - length content) 0

unfoldable pub resize : ℕ → OpenBlock → OpenBlock
resize new_size b = record {
  block = record { block_id = b.block.block_id; content = resize_data b.block.content new_size };
  data_changed = true;
}

module _ (S : BlockStore2) where
  -- `_storeToBaseBlock`
  unfoldable pub store_to_base_block : OpenBlock → S.State → Result (OpenBlock × S.State)
  store_to_base_block b s = elim b.data_changed [
    | false ↦ ok (b, s)
    | true ↦ do
      s' ← S.store b.block.block_id b.block.content s
      ok (record b { data_changed = false }, s')
  ]

  abbrev pub flush : OpenBlock → S.State → Result (OpenBlock × S.State)
  flush = store_to_base_block

  unfoldable pub destroy : OpenBlock → S.State → Result S.State
  destroy b s = do (b', s') ← store_to_base_block b s; ok s'

  unfoldable pub try_create : BlockId → Data → S.State → Result (Option OpenBlock × S.State)
  try_create block_id content s = do
    (success, s') ← S.try_create block_id content s
    ok (if success then some (open_block block_id content) else none, s')

  unfoldable pub overwrite : BlockId → Data → S.State → Result (OpenBlock × S.State)
  overwrite block_id content s = do
    s' ← S.store block_id content s
    ok (open_block block_id content, s')

  unfoldable pub load : BlockId → S.State → Result (Option OpenBlock × S.State)
  load block_id s = do
    (loaded, s') ← S.load block_id s
    ok (elim loaded [ none ↦ none | some content ↦ some (open_block block_id content) ], s')

  unfoldable pub remove : BlockId → S.State → Result S.State
  remove block_id s = do (success, s') ← S.remove block_id s; guard success runtime_error; ok s'

  -- `BlockStore::remove` of an open block.
  unfoldable pub remove_block : OpenBlock → S.State → Result S.State
  remove_block b s = do s' ← destroy b s; remove b.block.block_id s'

  -- The loop of `BlockStore::create`, which ends with the first random id that is free. The loop has
  -- no other end; where `ids` are used up the model has no result.
  unfoldable pub create :
      List BlockId → Data → S.State → Result (OpenBlock × List BlockId × S.State)
  create [] content s = err undefined
  create (block_id ∷ ids) content s = do
    (created, s') ← try_create block_id content s
    elim created [ none ↦ create ids content s' | some b ↦ ok (b, ids, s') ]

  unfoldable pub num_blocks : S.State → ℕ
  num_blocks s = S.num_blocks s

  unfoldable pub for_each_block : S.State → List BlockId
  for_each_block s = S.for_each_block s

unfoldable pub block_size_from_physical_block_size : BlockStore2 → ℕ → ℕ
block_size_from_physical_block_size S block_size = S.block_size_from_physical_block_size block_size
