-- ===== src/BsTree/Erase/Ends/Fix.antt =====
-- The steps of `update_ends`, each of which sets one of the header's links or none.
use intrusive.Base.{
  false, ◌≡◌, ◌≢◌, refl, sym, ◌∙◌, arith, ◌==◌, List, [], ◌∷◌, ◌++◌, append-nil, last, last-append,
  count, count-last,
}
use intrusive.Machine.{◌>>=◌, Ptr, null, Cmd, Returns, returns, ok, when}
use intrusive.BsTree.{Nodes, set_left, set_right}
use intrusive.BsTree.Access.{set_left-ok, set_right-ok, update-here, update-other}
use intrusive.BsTree.Shape.{
  Tree, root_of, PathUp, above, Sub-frame, Around-frame, ne_of_hit, ne_of_pos,
}
use intrusive.BsTree.Hang.{Standing}
use intrusive.BsTree.Commit.{first_or}
use intrusive.BsTree.Step.{==-false, ==-true}

module _ {X : Type 0} where
  -- `g` is `k` but for the header's left and right.
  pub record Ended (k g : Nodes X) (header u v : Ptr) : Type 0 where
    pub parent : (a : Ptr) → g.parent a ≡ k.parent a
    pub left : (a : Ptr) → a ≢ header → g.left a ≡ k.left a
    pub right : (a : Ptr) → a ≢ header → g.right a ≡ k.right a
    pub tag : (a : Ptr) → g.tag a ≡ k.tag a
    pub first : g.left header ≡ u
    pub final : g.right header ≡ v

  pub Ended-Standing :
      {k g : Nodes X} {header u v : Ptr} (c : PathUp) (t : Tree)
      → Ended k g header u v
      → Standing k header c t
      → Standing g header c t
  Ended-Standing {k} {g} {header} c t e s = record {
    around =
        Around-frame k g header c (root_of t) s.around
          (λ a m. (
            e.parent a,
            e.left a (ne_of_hit (omega (arith, s.distinct a))),
            e.right a (ne_of_hit (omega (arith, s.distinct a))),
          ))
          (e.parent header);
    sub = Sub-frame k g (above header c) t s.sub (λ a m. (
      e.parent a,
      e.left a (ne_of_hit (omega (arith, s.distinct a))),
      e.right a (ne_of_hit (omega (arith, s.distinct a))),
    ));
    distinct = s.distinct;
    nonnull = s.nonnull;
  }

  module _ (header z : Ptr) (h0 : header ≢ null) (k : Nodes X) (next : Cmd (Nodes X) Ptr) where
    pub left_step :
        (xs ys : List Ptr)
        → count z xs ≡ 0
        → k.left header ≡ first_or header (xs ++ z ∷ ys)
        → (xs ≡ [] → next k ≡ ok (first_or header ys) k)
        → Returns
            (λ _ g. Ended k g header (first_or header (xs ++ ys)) (k.right header))
            (when (k.left header == z) (do n ← next; set_left header n) k)
    left_step [] ys d e f =
        rw
          (
            e,
            ==-true (let o : z ≡ z = refl in o),
            f refl,
            set_left-ok header (first_or header ys) k h0,
          )
          (returns (record {
            parent = λ a. refl;
            left = λ a n. update-other k.left header (first_or header ys) a n;
            right = λ a n. refl;
            tag = λ a. refl;
            first = update-here k.left header (first_or header ys);
            final = refl;
          }))
    left_step (y ∷ xs) ys d e f =
        let n : (y == z) ≡ false = ==-false (ne_of_hit {a = y} (ground arith)) in
        rw (e, n)
          (returns (record {
            parent = λ a. refl;
            left = λ a n. refl;
            right = λ a n. refl;
            tag = λ a. refl;
            first = e;
            final = refl;
          }))

    pub right_step :
        (xs ys : List Ptr)
        → count z ys ≡ 0
        → k.right header ≡ last header (xs ++ z ∷ ys)
        → (ys ≡ [] → next k ≡ ok (last header xs) k)
        → Returns
            (λ _ g. Ended k g header (k.left header) (last header (xs ++ ys)))
            (when (k.right header == z) (do n ← next; set_right header n) k)
    right_step xs [] d e f =
        rw
          (
            e,
            last-append header xs z [],
            ==-true (let o : z ≡ z = refl in o),
            f refl,
            append-nil xs,
            set_right-ok header (last header xs) k h0,
          )
          (returns (record {
            parent = λ a. refl;
            left = λ a n. refl;
            right = λ a n. update-other k.right header (last header xs) a n;
            tag = λ a. refl;
            first = refl;
            final = update-here k.right header (last header xs);
          }))
    right_step xs (y ∷ ys) d e f =
        let same = e ∙ last-append header xs z (y ∷ ys) in
        let n : (last y ys == z) ≡ false =
          ==-false (ne_of_pos (λ a. count a (y ∷ ys)) (last y ys) z d (count-last y ys)) in
        rw (same, n)
          (returns (record {
            parent = λ a. refl;
            left = λ a n. refl;
            right = λ a n. refl;
            tag = λ a. refl;
            first = refl;
            final = same ∙ sym (last-append header xs y ys);
          }))
