-- ===== src/TreeContainer/Interface.antt =====
-- What the containers rely on: a representation predicate of the kind of tree, and the law of its
-- `insert_unique_commit`.
use intrusive.Base.{ℕ, ◌≡◌, ◌≢◌, ◌<◌, List, ◌∷◌, ◌++◌, Bool, length}
use intrusive.Machine.{Ptr, null, Returns}
use intrusive.BsTree.{Nodes, init}
use intrusive.BsTree.Shape.{times, Tree, leaf, inorder, PathUp, top, plug, times_up, above}
use intrusive.BsTree.Hang.{Side, Standing}
use intrusive.BsTree.Commit.{before, after}
use intrusive.BsTree.Insert.{commit_at}
use intrusive.TreeContainer.{NodeAlgorithms}

-- A good tree whose nodes are `xs`, in this order.
pub record GoodTree {X : Type 0} (Good : Nodes X → Ptr → Tree → Type 0) (h : Nodes X) (header : Ptr)
    (xs : List Ptr) : Type 0 where
  pub tree : Tree
  pub good : Good h header tree
  pub nodes : inorder tree ≡ xs

pub record TreeLaws {X : Type 0} (alg : NodeAlgorithms X) (Good : Nodes X → Ptr → Tree → Type 0)
    : Type 0 where
  -- A good tree stands in the store.
  pub stands : (h : Nodes X) (header : Ptr) (t : Tree) → Good h header t → Standing h header top t
  -- A new node that is committed at an empty place joins the nodes there.
  pub commit :
      (fuel : ℕ) (h : Nodes X) (header : Ptr) (c : PathUp) (n : Ptr) (b : Bool)
      → Good h header (plug c leaf)
      → Side c b
      → n ≢ null
      → n ≢ header
      → times_up n c ≡ 0
      → length (inorder (plug c leaf)) < fuel
      → Returns
          (λ _ g. GoodTree Good g header (before c ++ n ∷ after c))
          (alg.insert_unique_commit fuel header n (commit_at b (above header c)) h)

pub record RemovalLaws {X : Type 0} (alg : NodeAlgorithms X) (Good : Nodes X → Ptr → Tree → Type 0)
    : Type 0 where
  pub stands : (h : Nodes X) (header : Ptr) (t : Tree) → Good h header t → Standing h header top t
  -- The removal of a node leaves the others.
  pub erases :
      (fuel : ℕ) (h : Nodes X) (header : Ptr) (t : Tree) (xs : List Ptr) (z : Ptr) (ys : List Ptr)
      → Good h header t
      → inorder t ≡ xs ++ z ∷ ys
      → length (inorder t) < fuel
      → Returns (λ _ g. GoodTree Good g header (xs ++ ys)) (alg.erase fuel header z h)
  -- The links of other nodes do not matter.
  pub resets :
      (h : Nodes X) (header : Ptr) (t : Tree) (z : Ptr)
      → Good h header t
      → z ≢ null
      → z ≢ header
      → times z t ≡ 0
      → Returns (λ _ g. Good g header t) (init z h)
