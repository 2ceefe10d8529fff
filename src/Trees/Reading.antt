-- ===== src/Trees/Reading.antt =====
-- A read (`_doReadBytes` of DataTree.cpp) while its leaves are visited: what holds, and that the nodes
-- can be loaded.
use libcryfs.Common.{ℕ, ◌^◌, ◌≤◌, ◌<◌, ◌≡◌, true, false, Option, List}
use libcryfs.Common.Result.{ok}
use libcryfs.Common.Bytes.{Data, BlockId}
use libcryfs.BlockStore.{BlockStore2, IsLawful}
use libcryfs.Nodes.View.{max_bytes_per_leaf}
use libcryfs.Trees.Subtree.{State, Callbacks}
use libcryfs.Trees.Bytes
use libcryfs.Trees.Bytes.{Growing, ByteCallbacks, read_callbacks}
use libcryfs.Trees.Stored.{Leaf}
use libcryfs.Trees.Loading.{Same, load_leaf-Same, load_inner-Same}
use libcryfs.Trees.VisitLeaves.{Loads}
use libcryfs.Trees.VisitTree.{LoadsLeaf}
use libcryfs.Trees.Content.{content}
use libcryfs.Trees.Target.{progress, target_at}

-- What the target has when `n` leaves are behind.
abbrev pub Filling : ℕ → Data → Data → ℕ → ℕ → ℕ → Growing Data → Type 0
Filling most bytes target offset count n own =
    (own.user ≡ target_at bytes target offset (progress most offset count n))
    × (own.growing ≡ false)

abbrev pub reading :
    (S : BlockStore2) (allocate : ℕ → Data) (block_size : ℕ) (ceil_log : ℕ → ℕ → ℕ)
    (offset count first_leaf end_byte end_leaf : ℕ)
    → Callbacks S (Growing Data)
reading S allocate block_size ceil_log offset count first_leaf end_byte end_leaf =
    let cb = read_callbacks S allocate block_size ceil_log offset count in
    record {
      on_existing_leaf =
          Bytes.on_existing_leaf S allocate block_size ceil_log cb offset end_byte end_leaf;
      on_create_leaf =
          Bytes.on_create_leaf S allocate block_size ceil_log cb true offset first_leaf end_byte
            end_leaf;
      on_backtrack_from_subtree = λ block s. ok s;
    }

module _ {S : BlockStore2} {contents : S.State → BlockId → Option Data} (L : IsLawful S contents)
    (allocate : ℕ → Data) (block_size : ℕ) (room : 40 ≤ block_size) (small : block_size < 2 ^ 32)
    (look : BlockId → Option Data) (ceil_log : ℕ → ℕ → ℕ) (all : List Leaf) (target : Data)
    (offset count : ℕ) where
  -- The blocks are as they were, and the target has what `n` leaves give.
  abbrev pub Reading : ℕ → State S (Growing Data) → Type 0
  Reading n s =
      Same L allocate block_size room small look s.nodes
      × Filling (max_bytes_per_leaf block_size) (content all) target offset count n s.own

  pub read-Loads :
      (first_leaf end_byte end_leaf : ℕ)
      → Loads S allocate block_size room small look ceil_log true
          (Growing Data)
          (reading S allocate block_size ceil_log offset count first_leaf end_byte end_leaf)
          all
          Reading
          first_leaf
          end_leaf
  read-Loads first_leaf end_byte end_leaf n s id unused level children rest stored sized low high
        (same, inv) =
      let (nodes, run, same') =
        load_inner-Same L allocate block_size room small look id s.nodes unused level children rest
          same stored sized low high in
      (nodes, run, (same', inv))

  pub read-LoadsLeaf :
      (first_leaf end_byte end_leaf : ℕ)
      → LoadsLeaf S allocate block_size room small look ceil_log true
          (Growing Data)
          (reading S allocate block_size ceil_log offset count first_leaf end_byte end_leaf)
          all
          Reading
          first_leaf
          end_leaf
  read-LoadsLeaf first_leaf end_byte end_leaf n s id l (same, inv) =
      let (nodes, run, same') =
        load_leaf-Same L allocate block_size room small look id s.nodes l.unused l.bytes l.padding
          same l.stored l.sized in
      (l.unused, l.bytes, l.padding, nodes, l.sized, run, (same', inv))
