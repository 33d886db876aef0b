-- ===== src/BsTree/Commit/Link.antt =====
-- The links from the tree to a new node.
use intrusive.Base.{
  ◌+◌, ◌≤◌, ◌≡◌, ◌≢◌, refl, sym, ◌∙◌, ◌⊎◌, inl, inr, ◌∷◌, ◌++◌, arith, last, last-append, hit,
  count, Bool, Bool-cases, true, false, ◌==◌,
}
use intrusive.Machine.{Ptr, null, Returns, returns, update, ok}
use intrusive.BsTree.{Nodes}
use intrusive.BsTree.Insert.{commit_at, link_child}
use intrusive.BsTree.Access.{update-here, update-other}
use intrusive.BsTree.Shape.{
  Tree, inorder, PathUp, top, left_of, right_of, times_up, above, Around, Sub-frame, Around-frame,
  ne_of_hit, ne_of_pos, hit_self,
}
use intrusive.BsTree.Hang.{Side}
use intrusive.BsTree.Commit.Sides.{
  LinkedIn, after, before, first-left, first-nonempty, first_or, last-middle, last-right, passed,
  picked, times-sides,
}

module _ {X : Type 0} (h : Nodes X) (header x n : Ptr) where
  link_top-ok :
      (b : Bool)
      → header ≢ null
      → link_child header n (commit_at b header) h
        ≡ ok tt (record h {
          parent = update h.parent header n;
          left = update h.left header n;
          right = update h.right header n;
        })
  unfolding link_child
  link_top-ok b c = ground arith

  link_left-end :
      x ≢ header
      → x ≢ null
      → header ≢ null
      → x ≡ h.left header
      → link_child header n (commit_at true x) h
        ≡ ok tt (record h { left = update (update h.left x n) header n })
  unfolding link_child
  link_left-end a b c e = ground arith

  link_left-inner :
      x ≢ header
      → x ≢ null
      → header ≢ null
      → x ≢ h.left header
      → link_child header n (commit_at true x) h ≡ ok tt (record h { left = update h.left x n })
  unfolding link_child
  link_left-inner a b c e = ground arith

  link_right-end :
      x ≢ header
      → x ≢ null
      → header ≢ null
      → x ≡ h.right header
      → link_child header n (commit_at false x) h
        ≡ ok tt (record h { right = update (update h.right x n) header n })
  unfolding link_child
  link_right-end a b c e = ground arith

  link_right-inner :
      x ≢ header
      → x ≢ null
      → header ≢ null
      → x ≢ h.right header
      → link_child header n (commit_at false x) h ≡ ok tt (record h { right = update h.right x n })
  unfolding link_child
  link_right-inner a b c e = ground arith

pub Ptr-cases : (x y : Ptr) → (x ≡ y) ⊎ (x ≢ y)
Ptr-cases x y = elim (Bool-cases (x == y)) [
  | inl e ↦ inl (ground arith)
  | inr e ↦ inr (ground arith)
]

module _ {X : Type 0} (h g : Nodes X) (header n x : Ptr) (c : PathUp) where
  Around-left :
      (r : Tree)
      → Around h header (left_of c x r) null
      → ((a : Ptr) → hit a header + times_up a (left_of c x r) ≤ 1)
      → ((a : Ptr) → g.parent a ≡ h.parent a)
      → ((a : Ptr) → g.right a ≡ h.right a)
      → ((a : Ptr) → a ≢ x → a ≢ header → g.left a ≡ h.left a)
      → g.left x ≡ n
      → Around g header (left_of c x r) n
  Around-left r s d p q l e = (
    p x ∙ s.0,
    e,
    q x ∙ s.2,
    Sub-frame h g x r s.3
        (λ a m. (p a, l a (ne_of_hit (omega (arith, d a))) (ne_of_hit (omega (arith, d a))), q a)),
    Around-frame h g header c x s.4
        (λ a m. (p a, l a (ne_of_hit (omega (arith, d a))) (ne_of_hit (omega (arith, d a))), q a))
        (p header),
  )

  Around-right :
      (l : Tree)
      → Around h header (right_of l x c) null
      → ((a : Ptr) → hit a header + times_up a (right_of l x c) ≤ 1)
      → ((a : Ptr) → g.parent a ≡ h.parent a)
      → ((a : Ptr) → g.left a ≡ h.left a)
      → ((a : Ptr) → a ≢ x → a ≢ header → g.right a ≡ h.right a)
      → g.right x ≡ n
      → Around g header (right_of l x c) n
  Around-right l s d p q m e = (
    p x ∙ s.0,
    e,
    q x ∙ s.2,
    Sub-frame h g x l s.3
        (λ a o. (p a, q a, m a (ne_of_hit (omega (arith, d a))) (ne_of_hit (omega (arith, d a))))),
    Around-frame h g header c x s.4
        (λ a o. (p a, q a, m a (ne_of_hit (omega (arith, d a))) (ne_of_hit (omega (arith, d a)))))
        (p header),
  )

module _ {X : Type 0} (h : Nodes X) (header n : Ptr) where
  pub link_child-LinkedIn :
      (c : PathUp) (b : Bool)
      → Around h header c null
      → Side c b
      → ((a : Ptr) → hit a header + times_up a c ≤ 1)
      → hit null header + times_up null c ≡ 0
      → h.left header ≡ first_or header (before c ++ after c)
      → h.right header ≡ last header (before c ++ after c)
      → Returns
          (λ _ g. LinkedIn h g header c n)
          (link_child header n (commit_at b (above header c)) h)
  link_child-LinkedIn top b s side d z first final =
      rw
        (link_top-ok h header header n b
          (ne_of_pos (λ a. hit a header) header null (omega (arith, z)) (ground arith)))
        (returns (ground arith, ground arith, ground arith, λ a. refl))
  link_child-LinkedIn (left_of c x r) b s side d z first final =
      let xh : x ≢ header = ne_of_hit (omega (arith, d x, hit_self x)) in
      let x0 : x ≢ null = ne_of_pos (λ a. hit a x) x null (omega (arith, z)) (ground arith) in
      let h0 : header ≢ null =
        ne_of_pos (λ a. hit a header) header null (omega (arith, z)) (ground arith) in
      let lone : count x (before c) ≡ 0 = omega (arith, d x, times-sides x c, hit_self x) in
      let new = first-left header x n (before c) (inorder r ++ after c) lone in
      let final' =
        last-append header (before c) x (inorder r ++ after c)
        ∙ sym (last-append header (before c) n (x ∷ (inorder r ++ after c))) in
      rw side (elim (Ptr-cases x (h.left header)) [
        | inl e ↦ rw (link_left-end h header x n xh x0 h0 e) (
            returns (
              Around-left h (record h { left = update (update h.left x n) header n }) header n x c r
                  s d (λ a. refl) (λ a. refl)
                  (λ a u v.
                    update-other (update h.left x n) header n a v ∙ update-other h.left x n a u)
                  (update-other (update h.left x n) header n x xh ∙ update-here h.left x n),
              update-here (update h.left x n) header n ∙ picked new (e ∙ first),
              final ∙ final',
              λ a. refl,
            ))
        | inr e ↦ rw (link_left-inner h header x n xh x0 h0 e) (
            returns (
              Around-left h (record h { left = update h.left x n }) header n x c r s d (λ a. refl)
                  (λ a. refl) (λ a u v. update-other h.left x n a u) (update-here h.left x n),
              update-other h.left x n header (λ o. xh (sym o))
                  ∙ first
                  ∙ passed n new (λ o. e (o ∙ sym first)),
              final ∙ final',
              λ a. refl,
            ))
      ])
  link_child-LinkedIn (right_of l x c) b s side d z first final =
      let xh : x ≢ header = ne_of_hit (omega (arith, d x, hit_self x)) in
      let x0 : x ≢ null = ne_of_pos (λ a. hit a x) x null (omega (arith, z)) (ground arith) in
      let h0 : header ≢ null =
        ne_of_pos (λ a. hit a header) header null (omega (arith, z)) (ground arith) in
      let lone : count x (after c) ≡ 0 = omega (arith, d x, times-sides x c, hit_self x) in
      let new = last-right x n (after c) lone in
      let old = last-middle header x (before c) (inorder l) (after c) in
      let now = last-append header (before (right_of l x c)) n (after c) in
      let first' = first ∙ first-nonempty header x (before c) (inorder l) (after c) (n ∷ after c) in
      rw side (elim (Ptr-cases x (h.right header)) [
        | inl e ↦ rw (link_right-end h header x n xh x0 h0 e) (
            returns (
              Around-right h (record h { right = update (update h.right x n) header n }) header n x
                  c l s d (λ a. refl) (λ a. refl)
                  (λ a u v.
                    update-other (update h.right x n) header n a v ∙ update-other h.right x n a u)
                  (update-other (update h.right x n) header n x xh ∙ update-here h.right x n),
              first',
              update-here (update h.right x n) header n ∙ picked new (e ∙ final ∙ old) ∙ sym now,
              λ a. refl,
            ))
        | inr e ↦ rw (link_right-inner h header x n xh x0 h0 e) (
            returns (
              Around-right h (record h { right = update h.right x n }) header n x c l s d
                  (λ a. refl) (λ a. refl) (λ a u v. update-other h.right x n a u)
                  (update-here h.right x n),
              first',
              update-other h.right x n header (λ o. xh (sym o))
                  ∙ final
                  ∙ old
                  ∙ passed n new (λ o. e (o ∙ sym (final ∙ old)))
                  ∙ sym now,
              λ a. refl,
            ))
      ])
