-- ===== src/Trees/Written.antt =====
-- The blocks of a tree while a range of its bytes is written (`writeBytes` of DataTree.cpp), leaf by
-- leaf.
use libcryfs.Common.{
  ℕ, ◌+◌, ◌-◌, ◌≤◌, ◌<◌, ◌≡◌, refl, ◌∙◌, sym, ap, subst, Option, some, List, [], ◌∷◌, length,
  get_elem?, arith, ◌≢◌, Bool-cases, inl, inr, ltb,
}
use libcryfs.Common.Equality.{bytes_eq}
use libcryfs.Common.Bytes.{Data, BlockId}
use libcryfs.Common.Result.{ok}
use libcryfs.BlockStore.{changed}
use libcryfs.Nodes.View.{max_bytes_per_leaf, depth}
use libcryfs.Nodes.Image.{image, depth-image}
use libcryfs.Nodes.LeafRuns.{leaf_node}
use libcryfs.Nodes.Children.{inner_node}
use libcryfs.Trees.Stored.{Leaf, LeafAt}
use libcryfs.Trees.LeafStores.{changed-here, changed-other}
use libcryfs.Trees.Renewed.{new_bytes, length-new_bytes}
use libcryfs.Trees.StoredRenewed.{Distinct, Distinct-get_elem?}

-- The leaves from `first` on and below `n` have their new bytes, and all other blocks are as they were.
pub record Written (block_size : ℕ) (look : BlockId → Option Data) (all : List Leaf) (source : Data)
    (offset first n : ℕ) (look' : BlockId → Option Data) : Type 0 where
  pub kept :
      (a : BlockId)
      → ((k : ℕ) (l : Leaf) → get_elem? all k ≡ some l → first ≤ k → k < n → a ≢ l.id)
      → look' a ≡ look a
  pub new_leaf :
      (k : ℕ) (l : Leaf)
      → get_elem? all k ≡ some l
      → first ≤ k
      → k < n
      → LeafAt block_size look' l.id (
          record {
            id = l.id;
            bytes = new_bytes (max_bytes_per_leaf block_size) offset source k l.bytes;
          }
          ∷ [])
  pub old_leaf :
      (k : ℕ) (l : Leaf)
      → get_elem? all k ≡ some l
      → first ≤ k
      → k < n
      → LeafAt block_size look l.id (l ∷ [])

-- The content of an inner node is not that of a leaf.
leaf-not_inner :
    (unused unused' padding level : ℕ) (bytes rest : Data) (children : List BlockId)
    → 0 < level
    → level ≤ 10
    → image (leaf_node unused bytes padding) ≢ image (inner_node unused' level children rest)
leaf-not_inner unused unused' padding level bytes rest children low high same =
    let leaf_level = depth-image [] (leaf_node unused bytes padding) (omega arith) in
    let inner_level =
      depth-image [] (inner_node unused' level children rest) (omega (arith, high)) in
    let levels : ok 0 ≡ ok level =
      sym leaf_level ∙ ap (λ c. depth (record { block_id = []; content = c })) same ∙ inner_level in
    let none : 0 ≡ level = cc (levels) in omega (arith, none, low)

module _ (block_size : ℕ) (look : BlockId → Option Data) (all : List Leaf) (source : Data)
    (offset first : ℕ) where
  pub Written-start :
      (look' : BlockId → Option Data)
      → ((a : BlockId) → look' a ≡ look a)
      → Written block_size look all source offset first first look'
  Written-start look' same = record {
    kept = λ a other. same a;
    new_leaf = λ k l there low high. absurd (omega (arith, low, high));
    old_leaf = λ k l there low high. absurd (omega (arith, low, high));
  }

  pub Written-view :
      (n : ℕ) (look1 look2 : BlockId → Option Data)
      → ((a : BlockId) → look2 a ≡ look1 a)
      → Written block_size look all source offset first n look1
      → Written block_size look all source offset first n look2
  Written-view n look1 look2 view w = record {
    kept = λ a other. view a ∙ w.kept a other;
    new_leaf = λ k l there low high.
        let x = w.new_leaf k l there low high in
        record {
          unused = x.unused;
          bytes = x.bytes;
          padding = x.padding;
          stored = view l.id ∙ x.stored;
          sized = x.sized;
          one = x.one;
        };
    old_leaf = w.old_leaf;
  }

  pub Written-inner :
      (n : ℕ) (look' : BlockId → Option Data) (id : BlockId) (unused level : ℕ)
      (children : List BlockId) (rest : Data)
      → Written block_size look all source offset first n look'
      → look id ≡ some (image (inner_node unused level children rest))
      → 0 < level
      → level ≤ 10
      → look' id ≡ look id
  Written-inner n look' id unused level children rest w stored low high =
      w.kept id (λ k l there from to same.
        let x = w.old_leaf k l there from to in
        let both : some (image (leaf_node x.unused x.bytes x.padding))
            ≡ some (image (inner_node unused level children rest)) =
          sym x.stored ∙ ap look (sym same) ∙ stored in
        leaf-not_inner x.unused unused x.padding level x.bytes rest children low high (cc (both)))

  module _ (distinct : Distinct all) where
    pub Written-other :
        (n : ℕ) (look' : BlockId → Option Data) (k : ℕ) (l : Leaf)
        → Written block_size look all source offset first n look'
        → get_elem? all k ≡ some l
        → (first ≤ k → n ≤ k)
        → look' l.id ≡ look l.id
    Written-other n look' k l w there outside = w.kept l.id (λ j m here from to same.
        let e : k ≡ j = Distinct-get_elem? all k j l m distinct there here same in
        absurd (omega (arith, e, from, to, outside (omega (arith, e, from)))))

    pub Written-step :
        (n : ℕ) (look1 look2 : BlockId → Option Data) (l : Leaf) (unused padding : ℕ)
        → Written block_size look all source offset first n look1
        → get_elem? all n ≡ some l
        → first ≤ n
        → LeafAt block_size look l.id (l ∷ [])
        → length l.bytes + padding ≡ block_size - 8
        → ((a : BlockId)
            → look2 a
              ≡ changed l.id
                  (some (
                    image (
                      leaf_node unused
                        (new_bytes (max_bytes_per_leaf block_size) offset source n l.bytes)
                        padding)))
                  look1
                  a)
        → Written block_size look all source offset first (n + 1) look2
    Written-step n look1 look2 l unused padding w there low old sized view =
        let content = some (
          image (
            leaf_node unused (new_bytes (max_bytes_per_leaf block_size) offset source n l.bytes)
              padding)) in
        let same_leaf : (k : ℕ) (m : Leaf) → get_elem? all k ≡ some m → k ≡ n → l ≡ m =
          λ k m here e.
            let again : get_elem? all n ≡ some m = subst (λ j. get_elem? all j ≡ some m) e here in
            cc (there, again) in
        record {
          kept = λ a other.
              view a
              ∙ changed-other look1 l.id a content (other n l there low (omega arith))
              ∙ w.kept a (λ k m here from to. other k m here from (omega (arith, to)));
          new_leaf = λ k m here from to. elim (Bool-cases (ltb k n)) [
            | inl older ↦
                let less : k < n = ground (arith, older) in
                let x = w.new_leaf k m here from less in
                record {
                  unused = x.unused;
                  bytes = x.bytes;
                  padding = x.padding;
                  stored =
                      view m.id
                      ∙ changed-other look1 l.id m.id content (λ same.
                        let e : k ≡ n = Distinct-get_elem? all k n m l distinct here there same in
                        omega (arith, e, less))
                      ∙ x.stored;
                  sized = x.sized;
                  one = x.one;
                }
            | inr newest ↦
                let e : k ≡ n = ground (arith, newest, to) in
                subst
                  (λ j. LeafAt block_size look2 m.id (
                    record {
                      id = m.id;
                      bytes = new_bytes (max_bytes_per_leaf block_size) offset source j m.bytes;
                    }
                    ∷ []))
                  (sym e)
                  (subst
                    (λ (y : Leaf). LeafAt block_size look2 y.id (
                      record {
                        id = y.id;
                        bytes = new_bytes (max_bytes_per_leaf block_size) offset source n y.bytes;
                      }
                      ∷ []))
                    (same_leaf k m here e)
                    (record {
                      unused = unused;
                      bytes = new_bytes (max_bytes_per_leaf block_size) offset source n l.bytes;
                      padding = padding;
                      stored = view l.id ∙ changed-here look1 l.id content;
                      sized = omega (
                        arith,
                        length-new_bytes (max_bytes_per_leaf block_size) offset source n l.bytes,
                        sized,
                      );
                      one = refl;
                    }))
          ];
          old_leaf = λ k m here from to. elim (Bool-cases (ltb k n)) [
            | inl older ↦ w.old_leaf k m here from (ground (arith, older))
            | inr newest ↦
                subst (λ (y : Leaf). LeafAt block_size look y.id (y ∷ []))
                  (same_leaf k m here (ground (arith, newest, to))) old
          ];
        }
