-- ===== src/BlockStore.antt =====
-- `BlockStore2` (src/blockstore/interface/BlockStore2.h): the interface of the layers of the block
-- store, and what a layer may rely on. Where a callback is given, the model returns the block ids
-- with which it is called.
pub mod InMemory
use libcryfs.Common.{ℕ, ◌≡◌, Bool, true, false, not, Option, none, some, List, if◌then◌else◌}
use libcryfs.Common.Equality.{◌==◌, bytes_eq}
use libcryfs.Common.Result.{Result, ok}
use libcryfs.Common.Bytes.{Data, BlockId}

pub record BlockStore2 : Type 1 where
  pub State : Type 0
  pub try_create : BlockId → Data → State → Result (Bool × State)
  pub remove : BlockId → State → Result (Bool × State)
  pub load : BlockId → State → Result (Option Data × State)
  pub store : BlockId → Data → State → Result State
  pub num_blocks : State → ℕ
  pub block_size_from_physical_block_size : ℕ → ℕ
  pub for_each_block : State → List BlockId

abbrev pub is_some {ℓ} : {A : Type ℓ} → Option A → Bool
is_some none = false
is_some (some _) = true

-- The content of a block after a change of block `b`.
abbrev pub changed : BlockId → Option Data → (BlockId → Option Data) → BlockId → Option Data
changed b content old a = if a == b then content else old a

-- A store without faults is a partial map from block ids to byte strings. What it keeps beside
-- that, such as a cache, is not seen.
pub record IsLawful (S : BlockStore2) (contents : S.State → BlockId → Option Data) : Type 0 where
  pub load_lem :
      (b : BlockId) (s : S.State)
      → (t : S.State) × (S.load b s ≡ ok (contents s b, t))
        × ((a : BlockId) → contents t a ≡ contents s a)
  pub store_lem :
      (b : BlockId) (d : Data) (s : S.State)
      → (t : S.State) × (S.store b d s ≡ ok t)
        × ((a : BlockId) → contents t a ≡ changed b (some d) (contents s) a)
  pub remove_lem :
      (b : BlockId) (s : S.State)
      → (t : S.State) × (S.remove b s ≡ ok (is_some (contents s b), t))
        × ((a : BlockId) → contents t a ≡ changed b none (contents s) a)
  pub try_create_lem :
      (b : BlockId) (d : Data) (s : S.State)
      → (t : S.State) × (S.try_create b d s ≡ ok (not (is_some (contents s b)), t))
        × ((a : BlockId)
            → contents t a ≡ (
                if is_some (contents s b) then contents s a else changed b (some d) (contents s) a))
