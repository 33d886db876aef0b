-- ===== src/BsTree/CheckUnique.antt =====
-- `insert_unique_check`: the place for a new key, or the node that has the key.
use intrusive.Base.{
  ℕ, zero, suc, ◌≤◌, ◌<◌, ◌≡◌, ◌≢◌, refl, sym, ap, ◌∙◌, inl, inr, List, [], ◌∷◌, ◌++◌, append_assoc,
  arith, hit, count, count-append, count-last, last, last-append, but_last, but_last-last, Bool,
  true, false, not, ◌==◌, ◌||◌, Bool-cases, if◌then◌else◌,
}
use mathlib.Core.Path.{subst}
use intrusive.Machine.{Ptr, null, ok, Returns, returns, Returns-bind}
use intrusive.BsTree.{Nodes}
use intrusive.BsTree.Access.{get_left-ok, get_right-ok, get_parent-ok}
use intrusive.BsTree.Shape.{
  Tree, leaf, node, inorder, times, times-count, root_of, PathUp, top, left_of, right_of, plug,
  above, ne_of_pos,
}
use intrusive.BsTree.Hang.{Side, Standing, Standing-left, Standing-right}
use intrusive.BsTree.Commit.{before, after, inorder-split}
use intrusive.BsTree.Insert.{
  CheckResult, insertable, present, commit_at, descend_unique, insert_unique_check,
}
use intrusive.BsTree.Order.{
  depth_of, AllTrue, AllFalse, Falls, Falls-behind, Falls-AllTrue, Falls-left, Falls-right,
  AllTrue-append, AllFalse-both, AllFalse-at,
}

-- An empty place of the tree `t`, in front of the nodes that are greater than the key and behind
-- all others.
pub record Place (greater : Ptr → Bool) (t : Tree) (c : PathUp) (b : Bool) : Type 0 where
  pub hole : plug c leaf ≡ t
  pub side : Side c b
  pub others : AllFalse greater (before c)
  pub greater_ones : AllTrue greater (after c)

-- What the descent returns: the side, the node above the place, and the last node in front of it.
pub record Descended (greater : Ptr → Bool) (header : Ptr) (t : Tree) (r : Bool × Ptr × Ptr)
    : Type 0 where
  pub path : PathUp
  pub place : Place greater t path r.0
  pub under : r.1 ≡ above header path
  pub previous : r.2 ≡ last null (before path)

module _ (greater : Ptr → Bool) where
  not-AllTrue : (xs : List Ptr) → AllFalse (λ x. not (greater x)) xs → AllTrue greater xs
  not-AllTrue [] a = tt
  not-AllTrue (x ∷ xs) a = (let e = a.0 in ground arith, not-AllTrue xs a.1)

  not-AllFalse : (xs : List Ptr) → AllTrue (λ x. not (greater x)) xs → AllFalse greater xs
  not-AllFalse [] a = tt
  not-AllFalse (x ∷ xs) a = (let e = a.0 in ground arith, not-AllFalse xs a.1)

  module _ {X : Type 0} {h : Nodes X} {header : Ptr} (t0 : Tree) where
    descend_unique-Descended :
        (k : ℕ) (c : PathUp) (t : Tree) (b : Bool)
        → Standing h header c t
        → plug c t ≡ t0
        → Falls (λ x. not (greater x)) (inorder t)
        → AllFalse greater (before c)
        → AllTrue greater (after c)
        → Side c b
        → depth_of t < k
        → Returns
            (λ r g. Descended greater header t0 r × (g ≡ h))
            (descend_unique greater k (root_of t) (above header c) (last null (before c)) b h)
    unfolding descend_unique
    descend_unique-Descended zero c t b s e f o g side enough = absurd (omega (arith, enough))
    descend_unique-Descended (suc k) c leaf b s e f o g side enough = returns (
      record {
        path = c;
        place = record { hole = e; side = side; others = o; greater_ones = g };
        under = refl;
        previous = refl;
      },
      refl,
    )
    descend_unique-Descended (suc k) c (node l x r) b s e f o g side enough =
        let x0 : x ≢ null =
          ne_of_pos (λ a. hit a x) x null (omega (arith, s.nonnull)) (ground arith) in
        let live : (x == null) ≡ false = ground arith in
        rw live (elim (Bool-cases (greater x)) [
          | inl q ↦
              rw (q, get_left-ok x h x0, s.sub.1)
                (descend_unique-Descended k (left_of c x r) l true (Standing-left c l x r s) e
                  (Falls-left (λ z. not (greater z)) l x r f) o
                  (
                    q,
                    AllTrue-append greater (inorder r) (after c)
                        (not-AllTrue (inorder r) (
                          (Falls-behind (λ z. not (greater z)) (inorder l) (x ∷ inorder r) f).0
                            (ap not q)))
                        g,
                  )
                  refl (omega (arith, enough)))
          | inr q ↦
              let e' : last null (before (right_of l x c)) ≡ x =
                ap (last null) (sym (append_assoc (before c) (inorder l) (x ∷ [])))
                ∙ last-append null (before c ++ inorder l) x [] in
              rw (q, get_right-ok x h x0, s.sub.2)
                (let rest =
                    descend_unique-Descended k (right_of l x c) r false (Standing-right c l x r s) e
                      (Falls-right (λ z. not (greater z)) l x r f)
                      (AllFalse-both greater (before c) (inorder l ++ x ∷ []) o (
                        AllFalse-both greater (inorder l) (x ∷ [])
                          (not-AllFalse (inorder l) (
                            Falls-AllTrue (λ z. not (greater z)) (inorder l) x (inorder r) f
                              (ap not q)))
                          (q, tt)))
                      g refl (omega (arith, enough)) in
                  rw e' at rest)
        ])

-- The node that has the key, or the place for it.
pub data Checked (less greater : Ptr → Bool) (header : Ptr) (t : Tree) : CheckResult → Type 0 where
  is_free :
      (c : PathUp) (b : Bool)
      → Place greater t c b
      → AllTrue less (before c)
      → Checked less greater header t (insertable (commit_at b (above header c)))
  is_taken :
      {p : Ptr}
      → 1 ≤ times p t
      → less p ≡ false
      → greater p ≡ false
      → Checked less greater header t (present p)

module _ {X : Type 0} {h : Nodes X} {header : Ptr} (less greater : Ptr → Bool) (t : Tree)
    (s : Standing h header top t) (fl : Falls less (inorder t)) where
  nodes_of : (c : PathUp) → plug c leaf ≡ t → inorder t ≡ before c ++ after c
  nodes_of c e = ap inorder (sym e) ∙ inorder-split c leaf

  decide :
      (c : PathUp) (b : Bool) (xs : List Ptr)
      → before c ≡ xs
      → Place greater t c b
      → Checked less greater header t (
          if last null xs == null || less (last null xs)
          then insertable (commit_at b (above header c))
          else present (last null xs))
  decide c b [] e p = is_free c b p (rw e tt)
  decide c b (x ∷ xs) e p =
      let all : inorder t ≡ x ∷ xs ++ after c = nodes_of c p.hole ∙ ap (λ l. l ++ after c) e in
      let all' : inorder t ≡ but_last x xs ++ last x xs ∷ after c =
        all
        ∙ ap (λ l. l ++ after c) (but_last-last x xs)
        ∙ append_assoc (but_last x xs) (last x xs ∷ []) (after c) in
      let here : 1 ≤ times (last x xs) t = omega (
        arith,
        times-count (last x xs) t,
        ap (count (last x xs)) all,
        count-append (last x xs) (x ∷ xs) (after c),
        count-last x xs,
      ) in
      let live : (last x xs == null) ≡ false =
        let n : last x xs ≢ null =
          ne_of_pos (λ a. times a t) (last x xs) null (omega (arith, s.nonnull)) here in
        ground arith in
      rw live (elim (Bool-cases (less (last x xs))) [
        | inl q ↦ rw q (
            is_free c b p (
              subst (AllTrue less) (sym (e ∙ but_last-last x xs)) (
                AllTrue-append less (but_last x xs) (last x xs ∷ [])
                  (Falls-AllTrue less (but_last x xs) (last x xs) (after c)
                    (subst (Falls less) all' fl) q)
                  (q, tt))))
        | inr q ↦ rw q (
            is_taken here q (
              AllFalse-at greater (x ∷ xs) (last x xs) (subst (AllFalse greater) e p.others)
                (count-last x xs)))
      ])

  -- With fuel for each level and one round more, `insert_unique_check` ends with a node that is neither less nor
  -- greater than the key, or with the commit data of an empty place of the tree in front of which
  -- all nodes are less than the key and behind which all are greater: in a tree whose nodes less
  -- than the key come first and those greater than it last. The store is as before.
  pub insert_unique_check-Checked :
      (fuel : ℕ)
      → Falls (λ x. not (greater x)) (inorder t)
      → depth_of t < fuel
      → Returns
          (λ r g. Checked less greater header t r × (g ≡ h))
          (insert_unique_check less greater fuel header h)
  unfolding insert_unique_check
  insert_unique_check-Checked fuel fg enough =
      let h0 : header ≢ null =
        ne_of_pos (λ a. hit a header) header null (omega (arith, s.nonnull)) (ground arith) in
      rw (get_parent-ok header h h0, s.around)
        (Returns-bind (descend_unique-Descended greater t fuel top t true s refl fg tt tt tt enough)
          finish)
    where
      finish :
          (r : Bool × Ptr × Ptr) (g : Nodes X)
          → Descended greater header t r × (g ≡ h)
          → Returns
              (λ r g. Checked less greater header t r × (g ≡ h))
              (ok
                (if r.2 == null || less r.2 then insertable (commit_at r.0 r.1) else present r.2)
                g)
      finish r g (d, e) =
          rw (d.under, d.previous) (returns (decide d.path r.0 (before d.path) refl d.place, e))
