-- ===== src/Blocks/Written.antt =====
-- Blocks that `BlockStore::create` (src/blockstore/interface/BlockStore.h) makes over a store without
-- faults.
use libcryfs.Common.{
  ◌≡◌, refl, ◌∙◌, ap, true, false, not, Option, none, some, List, [], ◌∷◌, ◌++◌, All, if◌then◌else◌,
}
use libcryfs.Common.Equality.{◌==◌, bytes_eq}
use libcryfs.Common.Result.{ok}
use libcryfs.Common.Bytes.{Data, BlockId}
use libcryfs.BlockStore.{BlockStore2, IsLawful, is_some, changed}
use libcryfs.Blocks.{open_block, try_create, create}

module _ (S : BlockStore2) where
  create-taken :
      (id : BlockId) (ids : List BlockId) (content : Data) (s t : S.State)
      → S.try_create id content s ≡ ok (false, t)
      → create S (id ∷ ids) content s ≡ create S ids content t
  unfolding create try_create
  create-taken id ids content s t run = rw run refl

  create-new :
      (id : BlockId) (ids : List BlockId) (content : Data) (s t : S.State)
      → S.try_create id content s ≡ ok (true, t)
      → create S (id ∷ ids) content s ≡ ok (open_block id content, ids, t)
  unfolding create try_create
  create-new id ids content s t run = rw run refl

-- A create takes the first of the random ids that is free, whatever the ids in front of it: it
-- returns an open block with that id and the content, sets its content in the store, and keeps all
-- other blocks. The ids in front of it are taken, and the store is without faults.
pub create-first_free :
    {S : BlockStore2} {contents : S.State → BlockId → Option Data}
    → IsLawful S contents
    → (look : BlockId → Option Data) (taken : List BlockId) (id : BlockId) (rest : List BlockId)
      (content : Data) (s : S.State)
    → ((a : BlockId) → contents s a ≡ look a)
    → All (λ b. is_some (look b) ≡ true) taken
    → look id ≡ none
    → (t : S.State) × (create S (taken ++ id ∷ rest) content s
        ≡ ok (open_block id content, rest, t))
      × ((a : BlockId) → contents t a ≡ changed id (some content) look a)
create-first_free {S} {contents} L look [] id rest content s same used free =
    let (t, run, view) = L.try_create_lem id content s in
    let new : is_some (contents s id) ≡ false = rw (same id, free) refl in
    (
      t,
      create-new S id rest content s t (run ∙ ap (λ b. ok (not b, t)) new),
      λ a.
          view a
          ∙ ap (λ b. if b then contents s a else changed id (some content) (contents s) a) new
          ∙ ap (λ old. if a == id then some content else old) (same a),
    )
create-first_free {S} {contents} L look (b ∷ taken) id rest content s same (here, used) free =
    let (t, run, view) = L.try_create_lem b content s in
    let old : is_some (contents s b) ≡ true = ap is_some (same b) ∙ here in
    let (u, more, after) =
      create-first_free L look taken id rest content t
        (λ a.
          view a
          ∙ ap (λ c. if c then contents s a else changed b (some content) (contents s) a) old
          ∙ same a)
        used free in
    (
      u,
      create-taken S b (taken ++ id ∷ rest) content s t (run ∙ ap (λ c. ok (not c, t)) old) ∙ more,
      after,
    )
