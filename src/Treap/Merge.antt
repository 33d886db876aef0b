-- ===== src/Treap/Merge.antt =====
-- What the removal of a node leaves of its two subtrees, as a merge of treaps.
use intrusive.Base.{
  ◌++◌, ◌∷◌, ap, ◌≡◌, refl, ◌∙◌, sym, append_assoc, append-nil, Bool, true, false, Option, none,
  some, List, inl, inr, ◌⊎◌,
}
use mathlib.Core.Option.{map}
use mathlib.Core.Path.{subst}
use intrusive.Machine.{Ptr}
use intrusive.BsTree.Shape.{Tree, leaf, node, inorder}

pub answers : (o : Option Bool) → (o ≡ none) ⊎ ((o ≡ some true) ⊎ (o ≡ some false))
answers none = inl refl
answers (some true) = inr (inl refl)
answers (some false) = inr (inr refl)

abbrev Ordered : List Ptr → Option Tree → Type 0
Ordered xs none = Unit {0}
Ordered xs (some t) = inorder t ≡ xs

Ordered-map :
    (f : Tree → Tree) (xs ys : List Ptr) (o : Option Tree)
    → ((t : Tree) → inorder t ≡ xs → inorder (f t) ≡ ys)
    → Ordered xs o
    → Ordered ys (map f o)
Ordered-map f xs ys none g e = tt
Ordered-map f xs ys (some t) g e = g t e

-- What is to be done after an answer: nothing after an exception.
abbrev chosen : Option Bool → (left_first right_first : Option Tree) → Option Tree
chosen none x y = none
chosen (some true) x y = x
chosen (some false) x y = y

module _ (pcomp : Ptr → Ptr → Option Bool) where
  -- The merge of two treaps whose priorities `pcomp` compares: the root for which it decides comes
  -- on top. There is no merge exactly when a comparison that this asks for throws.
  abbrev pub merged : Tree → Tree → Option Tree
  merged leaf r = some r
  merged (node a q b) leaf = some (node a q b)
  merged (node a q b) (node c p d) =
      chosen (pcomp q p) (map (node a q) (merged b (node c p d)))
        (map (λ t. node t p d) (merged (node a q b) c))

  pub merged-chosen :
      (a : Tree) (q : Ptr) (b c : Tree) (p : Ptr) (d : Tree) {o : Option Bool}
      → pcomp q p ≡ o
      → merged (node a q b) (node c p d)
        ≡ chosen o
            (map (node a q) (merged b (node c p d)))
            (map (λ t. node t p d) (merged (node a q b) c))
  merged-chosen a q b c p d e =
      ap
        (λ o.
          chosen o (map (node a q) (merged b (node c p d)))
            (map (λ t. node t p d) (merged (node a q b) c)))
        e

  pub merged-leaf : (t : Tree) → merged t leaf ≡ some t
  merged-leaf leaf = refl
  merged-leaf (node a q b) = refl

  merged-Ordered : (l r : Tree) → Ordered (inorder l ++ inorder r) (merged l r)
  merged-Ordered leaf r = refl
  merged-Ordered (node a q b) leaf = sym (append-nil (inorder (node a q b)))
  merged-Ordered (node a q b) (node c p d) = elim (answers (pcomp q p)) [
    | inl e ↦ rw (merged-chosen a q b c p d e) tt
    | inr (inl e) ↦ rw (merged-chosen a q b c p d e) (
        Ordered-map (node a q) (inorder b ++ inorder (node c p d))
          (inorder (node a q b) ++ inorder (node c p d)) (merged b (node c p d))
          (λ t o.
            ap (λ xs. inorder a ++ q ∷ xs) o
            ∙ sym (append_assoc (inorder a) (q ∷ inorder b) (inorder (node c p d))))
          (merged-Ordered b (node c p d)))
    | inr (inr e) ↦ rw (merged-chosen a q b c p d e) (
        Ordered-map (λ t. node t p d) (inorder (node a q b) ++ inorder c)
          (inorder (node a q b) ++ inorder (node c p d)) (merged (node a q b) c)
          (λ t o.
            ap (λ xs. xs ++ p ∷ inorder d) o
            ∙ append_assoc (inorder (node a q b)) (inorder c) (p ∷ inorder d))
          (merged-Ordered (node a q b) c))
  ]

  pub merged-order :
      (l r : Tree) {t : Tree} → merged l r ≡ some t → inorder t ≡ inorder l ++ inorder r
  merged-order l r e = subst (Ordered (inorder l ++ inorder r)) e (merged-Ordered l r)
