-- ===== src/BsTree/Locate.antt =====
-- Where a node of a tree stands: its subtree and the surroundings, from the place in the order.
use intrusive.Base.{
  ◌≤◌, ◌≡◌, refl, sym, ap, ◌∙◌, inl, inr, List, [], ◌∷◌, ◌++◌, append_assoc, arith, hit, count,
  count-append, ltb, Bool-cases, ◌==◌,
}
use intrusive.Machine.{Ptr}
use intrusive.BsTree.{Nodes}
use intrusive.BsTree.Shape.{
  Tree, leaf, node, inorder, times, times-count, PathUp, top, left_of, right_of, plug, hit_self,
}
use intrusive.BsTree.Hang.{
  Standing, Standing-left, Standing-right, Standing-up_left, Standing-up_right,
}
use intrusive.BsTree.Commit.{before, after, inorder-split}

pub Standing-unplug :
    {X : Type 0} {h : Nodes X} {header : Ptr} (c : PathUp) (t : Tree)
    → Standing h header top (plug c t)
    → Standing h header c t
Standing-unplug top t s = s
Standing-unplug (left_of c x r) t s = Standing-left c t x r (Standing-unplug c (node t x r) s)
Standing-unplug (right_of l x c) t s = Standing-right c l x t (Standing-unplug c (node l x t) s)

pub Standing-plug :
    {X : Type 0} {h : Nodes X} {header : Ptr} (c : PathUp) (t : Tree)
    → Standing h header c t
    → Standing h header top (plug c t)
Standing-plug top t s = s
Standing-plug (left_of c x r) t s = Standing-plug c (node t x r) (Standing-up_left c t x r s)
Standing-plug (right_of l x c) t s = Standing-plug c (node l x t) (Standing-up_right c l x t s)

-- The way down to the node `n` of the tree `t`.
pub record Located (t : Tree) (n : Ptr) : Type 0 where
  pub path : PathUp
  pub left : Tree
  pub right : Tree
  pub whole : plug path (node left n right) ≡ t

pub locate : (c : PathUp) (t : Tree) (n : Ptr) → 1 ≤ times n t → Located (plug c t) n
locate c leaf n m = absurd (omega (arith, m))
locate c (node l x r) n m = elim (Bool-cases (ltb 0 (times n l))) [
  | inl e ↦ locate (left_of c x r) l n (ground arith)
  | inr e ↦ elim (Bool-cases (n == x)) [
    | inl f ↦ record { path = c; left = l; right = r; whole = let g : n ≡ x = ground arith in rw g }
    | inr f ↦ locate (right_of l x c) r n (ground arith)
  ]
]

-- In a list without duplicates an element has one place.
pub split_unique :
    (n : Ptr) (xs ys zs ws : List Ptr)
    → ((a : Ptr) → count a (xs ++ n ∷ ys) ≤ 1)
    → xs ++ n ∷ ys ≡ zs ++ n ∷ ws
    → (xs ≡ zs) × (ys ≡ ws)
split_unique n [] ys [] ws d e = (refl, cc)
split_unique n [] ys (z ∷ zs) ws d e = absurd (
    omega (
      arith,
      d n,
      ap (count n) e,
      count-append n zs (n ∷ ws),
      hit_self n,
      let f : n ≡ z = cc in ap (hit n) f,
    ))
split_unique n (x ∷ xs) ys [] ws d e =
    absurd (
      omega
        (arith, d n, count-append n xs (n ∷ ys), hit_self n, let f : x ≡ n = cc in ap (hit n) f))
split_unique n (x ∷ xs) ys (z ∷ zs) ws d e =
    let (f, g) = split_unique n xs ys zs ws (λ a. omega (arith, d a)) cc in
    (let p : x ≡ z = cc in rw (p, f), g)

-- The nodes in front of and behind a node.
abbrev pub in_front : PathUp → Tree → List Ptr
in_front c l = before c ++ inorder l

abbrev pub behind : PathUp → Tree → List Ptr
behind c r = inorder r ++ after c

pub around-removed :
    (c : PathUp) (l : Tree) (z : Ptr) (r : Tree)
    → inorder (plug c (node l z r)) ≡ in_front c l ++ z ∷ behind c r
around-removed c l z r =
    inorder-split c (node l z r)
    ∙ ap (λ ys. before c ++ ys) (append_assoc (inorder l) (z ∷ inorder r) (after c))
    ∙ sym (append_assoc (before c) (inorder l) (z ∷ behind c r))

-- The node between `xs` and `ys` in the order of a tree without duplicates.
pub record LocatedAt (t : Tree) (xs : List Ptr) (n : Ptr) (ys : List Ptr) : Type 0 where
  pub at : Located t n
  pub front : xs ≡ in_front at.path at.left
  pub back : ys ≡ behind at.path at.right

pub locate_at :
    (t : Tree) (xs : List Ptr) (n : Ptr) (ys : List Ptr)
    → ((a : Ptr) → times a t ≤ 1)
    → inorder t ≡ xs ++ n ∷ ys
    → LocatedAt t xs n ys
locate_at t xs n ys d e =
    let p =
      locate top t n
        (omega (arith, times-count n t, ap (count n) e, count-append n xs (n ∷ ys), hit_self n)) in
    let same =
      split_unique n xs ys (in_front p.path p.left) (behind p.path p.right)
        (λ a. omega (arith, d a, times-count a t, ap (count a) e))
        (sym e ∙ ap inorder (sym p.whole) ∙ around-removed p.path p.left n p.right) in
    record { at = p; front = same.0; back = same.1 }
