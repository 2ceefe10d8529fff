-- ===== src/Trees/Wrote.antt =====
-- A tree in which a range of the bytes is written (`writeBytes` of DataTree.cpp).
use libcryfs.Common.{
  ℕ, suc, ◌+◌, ◌-◌, ◌*◌, ◌^◌, ◌≤◌, ◌<◌, ◌≡◌, ◌≢◌, ◌∙◌, sym, ap, subst, Option, some, List, length,
  drop, All, arith, inl, inr,
}
use libcryfs.Common.Equality.{nat_eq}
use libcryfs.Common.Bytes.{Data, BlockId}
use libcryfs.Common.Memory.{replaced}
use libcryfs.Nodes.View.{max_bytes_per_leaf, max_children_per_inner_node}
use libcryfs.Nodes.LeafRuns.{length-replaced}
use libcryfs.Trees.DataTree.{DataTree}
use libcryfs.Trees.Stored.{Leaf, IsTrimmed}
use libcryfs.Trees.Content.{content}
use libcryfs.Trees.Tree.{IsTree}
use libcryfs.Trees.SizeRuns.{size_of-eq}
use libcryfs.Trees.Renewed.{renew, length-renew, Filled-renew, content-renew}
use libcryfs.Trees.StoredRenewed.{Distinct, Distinct-renew, All-get_elem?, Stored-renew}
use libcryfs.Trees.Written.{Written, Written-inner}
use libcryfs.Trees.Rewritten.{Written-Rewritten}

-- What a write leaves behind: a tree with these bytes, whose leaves are different blocks; all
-- blocks that are no leaf are as they were.
pub record Wrote (block_size level : ℕ) (look look' : BlockId → Option Data) (t : DataTree)
    (all : List Leaf) (bytes : Data) : Type 0 where
  pub leaves : List Leaf
  pub tree : IsTree block_size look' level t leaves
  pub distinct : Distinct leaves
  pub holds : content leaves ≡ bytes
  pub others : (a : BlockId) → All (λ l. l.id ≢ a) all → look' a ≡ look a

module _ (block_size : ℕ) (room : 40 ≤ block_size) (small : block_size < 2 ^ 32)
    (look look' : BlockId → Option Data) (level : ℕ) (all : List Leaf) (distinct : Distinct all)
    (t : DataTree) (tree : IsTree block_size look level t all) where
  -- The tree when the leaves of the range are written.
  pub Written-Wrote :
      (source : Data) (offset first end : ℕ)
      → offset + length source ≤ length (content all)
      → Written block_size look all source offset first end look'
      → ((k : ℕ)
          → k < first
          → k * max_bytes_per_leaf block_size + max_bytes_per_leaf block_size ≤ offset)
      → ((k : ℕ) → end ≤ k → offset + length source ≤ k * max_bytes_per_leaf block_size)
      → Wrote block_size level look look' t all (replaced (content all) offset source)
  Written-Wrote source offset first end inside w before after =
      let most = max_bytes_per_leaf block_size in
      let fan = max_children_per_inner_node block_size in
      let leaves = renew most offset source 0 all in
      let count : length leaves ≡ length all = length-renew most offset source 0 all in
      let none : offset - 0 * most ≡ offset = omega arith in
      let all_of : 0 * most - offset ≡ 0 = omega arith in
      let holds : content leaves ≡ replaced (content all) offset source =
        content-renew most offset source 0 all tree.filled (omega (arith, inside))
        ∙ ap (λ n. replaced (content all) n (drop (0 * most - offset) source)) none
        ∙ ap (λ n. replaced (content all) offset (drop n source)) all_of in
      let size : length (content leaves) ≡ length (content all) =
        ap length holds ∙ length-replaced (content all) source offset inside in
      record {
        leaves = leaves;
        tree = record {
          stored =
              Stored-renew block_size fan look look' most offset source
                (λ id unused below children rest stored shallow.
                  Written-inner block_size look all source offset first end look' id unused
                    (suc below) children rest w stored (omega arith) (omega (arith, shallow)))
                level tree.shallow 0 t.root_id all
                (Written-Rewritten block_size look all source offset first distinct end look'
                  tree.filled w before after)
                tree.stored;
          trimmed = subst (IsTrimmed fan level) (sym count) tree.trimmed;
          filled = Filled-renew most offset source 0 all tree.filled;
          shallow = tree.shallow;
          few = tree.few;
          cached = elim tree.cached [
            | inl empty ↦ inl empty
            | inr there ↦ inr (
                there
                ∙ ap some
                    (size_of-eq (length all) (length (content all)) leaves (sym count) (sym size)))
          ];
        };
        distinct = Distinct-renew most offset source 0 all distinct;
        holds = holds;
        others = λ a other. w.kept a (λ k l there from to same.
            All-get_elem? (λ m. m.id ≢ a) all k l other there (sym same));
      }
