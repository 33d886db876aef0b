-- ===== src/BsTree/Erase/Whole/Two.antt =====
-- `erase` of a node with two children.
use mathlib.Core.Path.{subst}
use intrusive.Base.{
  ℕ, ◌≤◌, ◌≡◌, ◌≢◌, sym, ap, ◌∙◌, arith, hit, ◌==◌, Bool, false, List, ◌∷◌, ◌++◌, append_assoc,
  last, last-append,
}
use intrusive.Machine.{Ptr, null, Returns, returns, Returns-imp, Returns-bind}
use intrusive.BsTree.{Nodes}
use intrusive.BsTree.Access.{get_left-ok, get_right-ok, get_parent-ok}
use intrusive.BsTree.Shape.{
  Tree, leaf, node, inorder, root_of, PathUp, right_of, plug, above, ne_of_hit, hit_self, ne_of_pos,
}
use intrusive.BsTree.Hang.{Side, Standing, Standing-right, Spared}
use intrusive.BsTree.Turn.{above_ne, Side-of}
use intrusive.BsTree.Commit.{Ends, before, after, first_or}
use intrusive.BsTree.Order.{depth_of}
use intrusive.BsTree.Step.{==-false, minimum-first, first_or-append}
use intrusive.BsTree.Locate.{Standing-plug, in_front, behind, around-removed}
use intrusive.BsTree.Erase.{choose_successor, relink_successor, erase}
use intrusive.BsTree.Erase.Spine.{
  Spine, done, under, extend, times-extend, tree_of, inorder-tree_of, Least, least,
}
use intrusive.BsTree.Erase.Far.{relink_far-Standing}
use intrusive.BsTree.Erase.Near.{relink_near-Standing}
use intrusive.BsTree.Erase.Whole.One.{HasNodes}

-- The first and the last node, when the successor `y` takes the place of `z`.
last-next :
    (d : Ptr) (xs : List Ptr) (z y : Ptr) (ys : List Ptr)
    → last d (xs ++ z ∷ y ∷ ys) ≡ last d (xs ++ y ∷ ys)
last-next d xs z y ys = last-append d xs z (y ∷ ys) ∙ sym (last-append d xs y ys)

first-front :
    (d : Ptr) (xs : List Ptr) (ll : Tree) (v : Ptr) (lr : Tree) (ys zs : List Ptr)
    → first_or d ((xs ++ inorder (node ll v lr)) ++ ys)
      ≡ first_or d ((xs ++ inorder (node ll v lr)) ++ zs)
first-front d xs ll v lr ys zs = rw (
  ← append_assoc xs (inorder ll) (v ∷ inorder lr),
  append_assoc (xs ++ inorder ll) (v ∷ inorder lr) ys,
  append_assoc (xs ++ inorder ll) (v ∷ inorder lr) zs,
  first_or-append d (xs ++ inorder ll) (inorder lr ++ ys) v,
  first_or-append d (xs ++ inorder ll) (inorder lr ++ zs) v,
)

module _ {X : Type 0} {h : Nodes X} {header : Ptr} (c : PathUp) (fuel : ℕ) (ll : Tree) (v : Ptr)
    (lr : Tree) (z : Ptr) (rl : Tree) (w : Ptr) (rr : Tree)
    (s : Standing h header c (node (node ll v lr) z (node rl w rr)))
    (ends : Ends h header (plug c (node (node ll v lr) z (node rl w rr))))
    (enough : depth_of (node (node ll v lr) z (node rl w rr)) ≤ fuel) where
  abbrev left_part : Tree
  left_part = node ll v lr

  abbrev right_part : Tree
  right_part = node rl w rr

  -- The right subtree without its first node `y`.
  successor-HasNodes :
      (y : Ptr) (r' : Tree) (g : Nodes X)
      → inorder right_part ≡ y ∷ inorder r'
      → Standing g header c (node left_part y r')
      → Spared h g header
      → HasNodes h g header (in_front c left_part ++ behind c right_part)
  successor-HasNodes y r' g e st spared =
      let old : inorder (plug c (node left_part z right_part))
          ≡ in_front c left_part ++ z ∷ y ∷ behind c r' =
        around-removed c left_part z right_part
        ∙ ap (λ ys. in_front c left_part ++ z ∷ (ys ++ after c)) e in
      record {
        tree = plug c (node left_part y r');
        stands = Standing-plug c (node left_part y r') st;
        nodes =
            around-removed c left_part y r'
            ∙ ap (λ ys. in_front c left_part ++ (ys ++ after c)) (sym e);
        ends = (
          spared.leftmost
              ∙ ends.0
              ∙ ap (first_or header) old
              ∙ first-front header (before c) ll v lr (z ∷ y ∷ behind c r') (y ∷ behind c r')
              ∙ ap (first_or header) (sym (around-removed c left_part y r')),
          spared.rightmost
              ∙ ends.1
              ∙ ap (last header) old
              ∙ last-next header (in_front c left_part) z y (behind c r')
              ∙ ap (last header) (sym (around-removed c left_part y r')),
        );
        tag = spared.tag;
      }

  relink-HasNodes :
      (b : Bool)
      → Side c b
      → (y : Ptr) (p : Least h header (right_of left_part z c) right_part y)
      → Returns
          (λ _ g. HasNodes h g header (in_front c left_part ++ behind c right_part))
          (relink_successor header z v w (above header c) y (root_of p.rest) b h)
  relink-HasNodes b side y p = go p.spine p.whole p.stands
    where
      go :
          (ss : Spine)
          → tree_of ss (node leaf y p.rest) ≡ right_part
          → Standing h header (extend (right_of left_part z c) ss) (node leaf y p.rest)
          → Returns
              (λ _ g. HasNodes h g header (in_front c left_part ++ behind c right_part))
              (relink_successor header z v w (above header c) y (root_of p.rest) b h)
      go done e st =
          subst
            (λ q.
              Returns (λ _ g. HasNodes h g header (in_front c left_part ++ behind c right_part))
                (relink_successor header z v q (above header c) y (root_of p.rest) b h))
            (ap root_of e)
            (Returns-imp (relink_near-Standing c ll v lr z y p.rest (rw e s) b side)
              λ _ g near. successor-HasNodes y p.rest g (ap inorder (sym e)) near.1 near.2)
      go (under ss x m) e st =
          Returns-imp (relink_far-Standing c ll v lr z rl w rr s ss x m y p.rest e st b side)
            λ _ g far.
              successor-HasNodes y (tree_of ss (node p.rest x m)) g
                (ap inorder (sym e)
                  ∙ inorder-tree_of (under ss x m) (node leaf y p.rest)
                  ∙ ap (λ ys. y ∷ ys) (sym (inorder-tree_of (under ss x m) p.rest)))
                far.1 far.2

  pub erase_two :
      Returns
        (λ _ g. HasNodes h g header (in_front c left_part ++ behind c right_part))
        (erase fuel header z h)
  unfolding erase choose_successor
  erase_two =
      let z0 : z ≢ null =
        ne_of_pos (λ a. hit a z) z null (omega (arith, s.nonnull)) (omega (arith, hit_self z)) in
      let v0 : (v == null) ≡ false =
        ==-false (
          ne_of_pos (λ a. hit a v) v null (omega (arith, s.nonnull)) (omega (arith, hit_self v))) in
      let w0 : (w == null) ≡ false =
        ==-false (
          ne_of_pos (λ a. hit a w) w null (omega (arith, s.nonnull)) (omega (arith, hit_self w))) in
      let p =
        least h header (right_of left_part z c) done rl w rr
          (Standing-right c left_part z right_part s) in
      let y = first_or w (inorder rl) in
      let y0 : y ≢ null =
        ne_of_pos (λ a. hit a y) y null (omega (arith, p.stands.nonnull))
          (omega (arith, hit_self y)) in
      let yz : (y == z) ≡ false = ==-false (
        ne_of_hit (
          omega (
            arith,
            p.stands.distinct y,
            times-extend y (right_of left_part z c) p.spine,
            hit_self y,
          ))) in
      rw
        (
          get_left-ok z h z0,
          s.sub.1,
          get_right-ok z h z0,
          s.sub.2,
          v0,
          w0,
          minimum-first {h = h} fuel z rl w rr s.sub.4 (omega (arith, s.nonnull))
              (omega (arith, enough)),
          get_right-ok y h y0,
          p.stands.sub.2,
          get_parent-ok z h z0,
          s.sub.0,
          get_left-ok (above header c) h (above_ne c s),
          yz,
        )
        (Returns-bind
          (relink-HasNodes (h.left (above header c) == z) (Side-of c left_part z right_part s) y p)
          λ _ g remaining. returns remaining)
