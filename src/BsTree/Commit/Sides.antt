-- ===== src/BsTree/Commit/Sides.antt =====
-- The nodes before and after a place of a tree, and the ends of the tree.
use intrusive.Base.{
  ◌+◌, ◌≡◌, ◌≢◌, refl, sym, ap, ◌∙◌, List, [], ◌∷◌, ◌++◌, append-nil, append_assoc, arith, last,
  last-append, count, count-append, count-last, if◌then◌else◌, ◌==◌,
}
use intrusive.Machine.{Ptr}
use intrusive.BsTree.{Nodes}
use intrusive.BsTree.Shape.{
  Tree, node, inorder, times-count, PathUp, top, left_of, right_of, plug, times_up, Around,
  ne_of_pos,
}

abbrev pub first_or : Ptr → List Ptr → Ptr
first_or d [] = d
first_or d (x ∷ xs) = x

-- The nodes before and after a place, in order.
abbrev pub before : PathUp → List Ptr
before top = []
before (left_of c x r) = before c
before (right_of l x c) = before c ++ (inorder l ++ x ∷ [])

abbrev pub after : PathUp → List Ptr
after top = []
after (left_of c x r) = x ∷ (inorder r ++ after c)
after (right_of l x c) = after c

pub inorder-split :
    (c : PathUp) (t : Tree) → inorder (plug c t) ≡ before c ++ (inorder t ++ after c)
inorder-split top t = sym (append-nil (inorder t))
inorder-split (left_of c x r) t =
    inorder-split c (node t x r)
    ∙ ap (λ ys. before c ++ ys) (append_assoc (inorder t) (x ∷ inorder r) (after c))
inorder-split (right_of l x c) t =
    inorder-split c (node l x t)
    ∙ ap (λ ys. before c ++ ys)
        (append_assoc (inorder l) (x ∷ inorder t) (after c)
          ∙ sym (append_assoc (inorder l) (x ∷ []) (inorder t ++ after c)))
    ∙ sym (append_assoc (before c) (inorder l ++ x ∷ []) (inorder t ++ after c))

pub times-sides : (a : Ptr) (c : PathUp) → times_up a c ≡ count a (before c) + count a (after c)
times-sides a top = refl
times-sides a (left_of c x r) =
    omega (arith, times-sides a c, count-append a (inorder r) (after c), times-count a r)
times-sides a (right_of l x c) = omega (
  arith,
  times-sides a c,
  count-append a (before c) (inorder l ++ x ∷ []),
  count-append a (inorder l) (x ∷ []),
  times-count a l,
)

module _ {X : Type 0} where
  -- The header's left and right are the first and the last node, or the header itself.
  abbrev pub Ends : Nodes X → Ptr → Tree → Type 0
  Ends h header t =
      (h.left header ≡ first_or header (inorder t)) × (h.right header ≡ last header (inorder t))

  -- After the links to the new node `n` are set; its own are not.
  abbrev pub LinkedIn : Nodes X → Nodes X → Ptr → PathUp → Ptr → Type 0
  LinkedIn h g header c n =
      Around g header c n
      × (g.left header ≡ first_or header (before c ++ n ∷ after c))
      × (g.right header ≡ last header (before c ++ n ∷ after c))
      × ((a : Ptr) → g.tag a ≡ h.tag a)

pub picked : {x y n z : Ptr} → (if x == y then n else y) ≡ z → x ≡ y → n ≡ z
picked e f = ground arith

pub passed : {x y z : Ptr} (n : Ptr) → (if x == y then n else y) ≡ z → x ≢ y → y ≡ z
passed n e f = ground arith

-- The leftmost node changes exactly if nothing stands before the place.
pub first-left :
    (header x n : Ptr) (xs ys : List Ptr)
    → count x xs ≡ 0
    → (if x == first_or header (xs ++ x ∷ ys) then n else first_or header (xs ++ x ∷ ys))
      ≡ first_or header (xs ++ n ∷ x ∷ ys)
first-left header x n [] ys e = ground arith
first-left header x n (y ∷ xs) ys e = ground arith

-- The rightmost node changes exactly if nothing stands after the place.
pub last-right :
    (x n : Ptr) (ys : List Ptr)
    → count x ys ≡ 0
    → (if x == last x ys then n else last x ys) ≡ last n ys
last-right x n [] e = ground arith
last-right x n (y ∷ ys) e =
    let m = count-last y ys in
    let d = ne_of_pos (λ z. count z (y ∷ ys)) (last y ys) x e m in ground arith

pub first-nonempty :
    (d x : Ptr) (xs zs ys vs : List Ptr)
    → first_or d ((xs ++ (zs ++ x ∷ [])) ++ ys) ≡ first_or d ((xs ++ (zs ++ x ∷ [])) ++ vs)
first-nonempty d x [] [] ys vs = refl
first-nonempty d x [] (z ∷ zs) ys vs = refl
first-nonempty d x (y ∷ xs) zs ys vs = refl

pub last-middle :
    (d x : Ptr) (xs zs ys : List Ptr) → last d ((xs ++ (zs ++ x ∷ [])) ++ ys) ≡ last x ys
last-middle d x xs zs ys =
    ap (last d) (
      append_assoc xs (zs ++ x ∷ []) ys
      ∙ ap (λ v. xs ++ v) (append_assoc zs (x ∷ []) ys)
      ∙ sym (append_assoc xs zs (x ∷ ys)))
    ∙ last-append d (xs ++ zs) x ys
