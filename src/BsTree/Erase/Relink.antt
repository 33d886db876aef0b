-- ===== src/BsTree/Erase/Relink.antt =====
-- The first part of the removal of a node with two children: its successor takes its place.
use intrusive.Base.{◌≡◌, ◌≢◌, refl, sym, ap, ◌∙◌, inl, inr, ◌==◌, Bool, true, if◌then◌else◌}
use intrusive.Machine.{Ptr, null, pure, update, ◌>>◌}
use intrusive.BsTree.{Nodes, set_child}
use intrusive.BsTree.Access.{
  set_parent-ok, set_left-ok, set_right-ok, get_parent-ok, update-here, update-other,
}
use intrusive.BsTree.Turn.{adopt}
use intrusive.BsTree.Commit.{Ptr-cases}
use intrusive.BsTree.Step.{==-false, ==-true}
use intrusive.BsTree.Erase.{relink_successor}
use intrusive.BsTree.Erase.Lift.{adopt-ok, adopt-other}
use intrusive.BsTree.Erase.Spine.{kept}

module _ {X : Type 0} where
  -- The store before the link from above, when `y` is not the right child of the removed node: `x`
  -- has taken the place of `y` under `p`.
  abbrev pub moved : (h : Nodes X) (zl zr zp y x p : Ptr) → Nodes X
  moved h zl zr zp y x p = record h {
    parent = update (adopt (update (update h.parent zl y) zr y) x p) y zp;
    left = update (update h.left y zl) p x;
    right = update h.right y zr;
  }

  -- The same, when `y` is the right child.
  abbrev pub moved_child : (h : Nodes X) (zl zp y : Ptr) → Nodes X
  moved_child h zl zp y = record h {
    parent = update (update h.parent zl y) y zp;
    left = update h.left y zl;
  }

  pub relink-moved :
      (header : Ptr) (h : Nodes X) (z zl zr zp y x : Ptr) (b : Bool)
      → zl ≢ null
      → zr ≢ null
      → y ≢ null
      → h.parent y ≢ null
      → y ≢ zr
      → y ≢ zl
      → relink_successor header z zl zr zp y x b h
        ≡ (do set_child header y zp b; pure (h.parent y)) (moved h zl zr zp y x (h.parent y))
  unfolding relink_successor
  relink-moved header h z zl zr zp y x b l0 r0 y0 p0 yr yl =
      let p = h.parent y in
      let h1 = record h { parent = update h.parent zl y } in
      let h2 = record h1 { left = update h.left y zl } in
      let h3 = record h2 { right = update h.right y zr } in
      let h4 = record h3 { parent = update (update h.parent zl y) zr y } in
      let h5 = record h4 { parent = adopt h4.parent x p } in
      let h6 = record h5 { left = update h4.left p x } in
      let e : h4.parent y ≡ p =
        update-other (update h.parent zl y) zr y y yr ∙ update-other h.parent zl y y yl in
      rw (
        set_parent-ok zl y h l0,
        set_left-ok y zl h1 y0,
        ==-false yr,
        set_right-ok y zr h2 y0,
        set_parent-ok zr y h3 r0,
        get_parent-ok y h4 y0,
        e,
        adopt-ok x p h4,
        set_left-ok p x h5 p0,
        set_parent-ok y zp h6 y0,
      )

  pub relink-moved_child :
      (header : Ptr) (h : Nodes X) (z zl zp y x : Ptr) (b : Bool)
      → zl ≢ null
      → y ≢ null
      → relink_successor header z zl y zp y x b h
        ≡ (do set_child header y zp b; pure y) (moved_child h zl zp y)
  unfolding relink_successor
  relink-moved_child header h z zl zp y x b l0 y0 = rw (
    set_parent-ok zl y h l0,
    set_left-ok y zl (record h { parent = update h.parent zl y }) y0,
    ==-true (let o : y ≡ y = refl in o),
    set_parent-ok y zp (record h { parent = update h.parent zl y; left = update h.left y zl }) y0,
  )

  -- The links of a node that is neither the successor, nor its child, nor the left child of `z`.
  pub moved-parent :
      (h : Nodes X) (z zl zr zp y x p a : Ptr)
      → a ≢ y
      → a ≢ x
      → a ≢ zl
      → h.parent zr ≡ z
      → (a ≢ zr → h.parent a ≢ z)
      → (moved h zl zr zp y x p).parent a ≡ (if h.parent a == z then y else h.parent a)
  moved-parent h z zl zr zp y x p a ay ax al ez ne =
      let f = update h.parent zl y in
      update-other (adopt (update f zr y) x p) y zp a ay
      ∙ adopt-other (update f zr y) x p a ax
      ∙ elim (Ptr-cases a zr) [
        | inl e ↦
            let t : (h.parent a == z) ≡ true = ==-true (ap h.parent e ∙ ez) in
            rw t (ap (update f zr y) e ∙ update-here f zr y)
        | inr e ↦ update-other f zr y a e ∙ update-other h.parent zl y a al ∙ sym (kept h y (ne e))
      ]

  pub moved-left :
      (h : Nodes X) (zl zr zp y x p a : Ptr)
      → a ≢ y
      → a ≢ p
      → (moved h zl zr zp y x p).left a ≡ h.left a
  moved-left h zl zr zp y x p a ay ap' =
      update-other (update h.left y zl) p x a ap' ∙ update-other h.left y zl a ay

  pub moved-right :
      (h : Nodes X) (zl zr zp y x p a : Ptr) → a ≢ y → (moved h zl zr zp y x p).right a ≡ h.right a
  moved-right h zl zr zp y x p a ay = update-other h.right y zr a ay
