-- ===== src/BlockStore/InMemory/Lawful.antt =====
-- The store in memory as a value of the interface.
use libcryfs.Common.{refl, Option, none, some, arith}
use libcryfs.Common.Equality.{bytes_eq}
use libcryfs.Common.Result.{ok}
use libcryfs.Common.Assoc.{find, insert, assign, erase, find-insert, find-assign, find-erase}
use libcryfs.Common.Bytes.{Data, BlockId}
use libcryfs.BlockStore.{BlockStore2, IsLawful}
use libcryfs.BlockStore.InMemory
use libcryfs.BlockStore.InMemory.{Blocks}

abbrev pub in_memory_block_store : BlockStore2
in_memory_block_store = record {
  State = Blocks;
  try_create = λ b d s. ok (InMemory.try_create b d s);
  remove = λ b s. ok (InMemory.remove b s);
  load = λ b s. ok (InMemory.load b s, s);
  store = InMemory.store;
  num_blocks = InMemory.num_blocks;
  block_size_from_physical_block_size = InMemory.block_size_from_physical_block_size;
  for_each_block = InMemory.for_each_block;
}

abbrev pub contents : Blocks → BlockId → Option Data
contents s b = find b s

-- What `store` leaves: it never throws.
stored : BlockId → Data → Blocks → Blocks
stored b d s = elim (find b s) [ none ↦ insert b d s | some _ ↦ assign b d s ]

removed : BlockId → Blocks → Blocks
removed b s = elim (find b s) [ none ↦ s | some _ ↦ erase b s ]

-- The store in memory is a partial map from block ids to byte strings: `load` returns the content,
-- `store` and a successful `try_create` set it, `remove` deletes it, and the results of
-- `try_create` and `remove` tell whether the block was there. `store` never throws.
pub in_memory-IsLawful : IsLawful in_memory_block_store contents
unfolding InMemory.load InMemory.store InMemory.remove InMemory.try_create stored removed
in_memory-IsLawful = record {
  load_lem = λ b s. (s, refl, λ a. refl);
  store_lem = λ b d s.
      (stored b d s, ground arith, λ a. ground (arith, find-insert a b d s, find-assign a b d s));
  remove_lem = λ b s.
      (removed b s, ground arith, λ a. ground (arith, find-erase a b s, bytes_eq.beq_iff a b));
  try_create_lem = λ b d s.
      (insert b d s, ground arith, λ a. ground (arith, find-insert a b d s, bytes_eq.beq_iff a b));
}
