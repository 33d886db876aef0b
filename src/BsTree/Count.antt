-- ===== src/BsTree/Count.antt =====
-- `size` and `count`: the number of nodes, and of those with a key.
use intrusive.Base.{
  ℕ, zero, suc, ◌+◌, ◌≤◌, ◌<◌, ◌≡◌, ◌≢◌, refl, sym, ap, ◌∙◌, ◌⊎◌, inl, inr, List, [], ◌∷◌, ◌++◌,
  append_assoc, append-nil, arith, hit, count-append, length, length-append, Bool, true, false, not,
  Bool-cases, ◌==◌, ◌||◌, if◌then◌else◌,
}
use intrusive.Base
use mathlib.Core.Path.{fun_ext}
use intrusive.Machine.{Ptr, null, ok, and_then}
use intrusive.BsTree.{Nodes, begin_node, end_node}
use intrusive.BsTree.Navigate.{next_node, size_loop, size}
use intrusive.BsTree.Search.{count_loop, count}
use intrusive.BsTree.Access.{get_left-ok}
use intrusive.BsTree.Shape.{Tree, inorder, times-count, top, ne_of_hit, ne_of_pos, hit_self}
use intrusive.BsTree.Hang.{Standing}
use intrusive.BsTree.Commit.{first_or, Ends}
use intrusive.BsTree.Order.{depth-length, AllFalse, AllTrue, Falls}
use intrusive.BsTree.Split.{Split, split_at}
use intrusive.BsTree.Range.{equal_range-ends}
use intrusive.BsTree.Step.{next_node-behind, ==-false, ==-true}

module _ {X : Type 0} {h : Nodes X} {header : Ptr} (t : Tree) (s : Standing h header top t) where
  -- The node behind some of the nodes of the tree is not one of them.
  other_node :
      (xs : List Ptr) (y : Ptr) (ys zs : List Ptr)
      → inorder t ≡ xs ++ (y ∷ ys ++ zs)
      → y ≢ first_or header zs
  other_node xs y ys [] e = ne_of_hit (
      omega (
        arith,
        s.distinct y,
        times-count y t,
        ap (Base.count y) e,
        count-append y xs (y ∷ ys ++ []),
        hit_self y,
      ))
  other_node xs y ys (z ∷ zs) e = ne_of_hit (
      omega (
        arith,
        s.distinct y,
        times-count y t,
        ap (Base.count y) e,
        count-append y xs (y ∷ ys ++ z ∷ zs),
        hit_self y,
        count-append y ys (z ∷ zs),
      ))

  count_loop-length :
      (walk k : ℕ) (xs ys zs : List Ptr) (n : ℕ)
      → inorder t ≡ xs ++ (ys ++ zs)
      → length (inorder t) < walk
      → length ys < k
      → count_loop walk k (first_or header (ys ++ zs)) (first_or header zs) n h
        ≡ ok (n + length ys) h
  unfolding count_loop
  count_loop-length walk zero xs ys zs n e w l = absurd (omega (arith, l))
  count_loop-length walk (suc k) xs [] zs n e w l =
      let f : n ≡ n + 0 = omega arith in
      let g : (first_or header zs == first_or header zs) ≡ true = ==-true refl in rw (g, ← f)
  count_loop-length walk (suc k) xs (y ∷ ys) zs n e w l =
      let f : (n + 1) + length ys ≡ n + suc (length ys) = omega arith in
      let g : inorder t ≡ (xs ++ y ∷ []) ++ (ys ++ zs) =
        e ∙ sym (append_assoc xs (y ∷ []) (ys ++ zs)) in
      rw (==-false (other_node xs y ys zs e), next_node-behind t xs y (ys ++ zs) walk s e w, ← f)
        (count_loop-length walk k (xs ++ y ∷ []) ys zs (n + 1) g w (omega (arith, l)))

  size_loop-count :
      (walk k : ℕ) (first second : Ptr) (n : ℕ) (g : Nodes X)
      → size_loop walk k first second n g ≡ count_loop walk k first second n g
  unfolding size_loop count_loop
  size_loop-count walk zero first second n g = refl
  size_loop-count walk (suc k) first second n g = elim (Bool-cases (first == second)) [
    | inl e ↦ rw e
    | inr e ↦ rw e (
        ap (and_then (next_node walk first g))
          (fun_ext λ a. fun_ext λ m. size_loop-count walk k a second (n + 1) m))
  ]

  -- `size`, with fuel for each node of the tree and one round more, ends with the number of nodes,
  -- when the header's left is the first of them; the store is as before.
  pub size-length :
      (fuel : ℕ)
      → Ends h header t
      → length (inorder t) < fuel
      → size fuel header h ≡ ok (length (inorder t)) h
  unfolding size begin_node end_node
  size-length fuel ends enough =
      let h0 : header ≢ null =
        ne_of_pos (λ a. hit a header) header null (omega (arith, s.nonnull)) (ground arith) in
      let e : inorder t ≡ inorder t ++ [] = sym (append-nil (inorder t)) in
      rw
        (
          get_left-ok header h h0,
          ends.0,
          size_loop-count fuel fuel (first_or header (inorder t)) header 0 h,
        )
        (ap (λ xs. count_loop fuel fuel (first_or header xs) header 0 h) e
          ∙ count_loop-length fuel fuel [] (inorder t) [] 0 e enough enough
          ∙ ap (λ n. ok n h)
              (let z : 0 + length (inorder t) ≡ length (inorder t) = omega arith in z))

-- The nodes that have the key, between those that are less and those that are greater.
module _ (less greater : Ptr → Bool) where
  abbrev pub matches : List Ptr → ℕ
  matches [] = 0
  matches (x ∷ xs) = (if less x || greater x then 0 else 1) + matches xs

  matches-front : (xs ys : List Ptr) → AllTrue less xs → matches (xs ++ ys) ≡ matches ys
  matches-front [] ys a = refl
  matches-front (x ∷ xs) ys a = let e = a.0 in ground (arith, matches-front xs ys a.1)

  matches-inside :
      (xs ys : List Ptr)
      → AllFalse less xs
      → AllTrue (λ x. not (greater x)) xs
      → matches (xs ++ ys) ≡ length xs + matches ys
  matches-inside [] ys a b = omega arith
  matches-inside (x ∷ xs) ys a b =
      let e = a.0 in let f = b.0 in ground (arith, matches-inside xs ys a.1 b.1)

  matches-back : (xs : List Ptr) → AllFalse (λ x. not (greater x)) xs → matches xs ≡ 0
  matches-back [] a = refl
  matches-back (x ∷ xs) a = let e = a.0 in ground (arith, matches-back xs a.1)

  matches-Split :
      {xs : List Ptr} (p : Split less (λ x. not (greater x)) xs) → matches xs ≡ length p.inside
  matches-Split p =
      ap matches p.whole
      ∙ matches-front p.front (p.inside ++ p.back) p.front_before
      ∙ omega (
        arith,
        matches-inside p.inside p.back p.inside_reached p.inside_within,
        matches-back p.back p.back_past,
      )

-- `count`, with fuel for each node of the tree and one round more, ends with the number of nodes
-- that are neither less nor greater than the key, in a tree whose nodes less than the key come
-- first and those greater than it last, none being both; the store is as before.
pub count-matches :
    {X : Type 0} {h : Nodes X} {header : Ptr} (less greater : Ptr → Bool) (t : Tree) (fuel : ℕ)
    → ((x : Ptr) → less x ≡ true → greater x ≡ false)
    → Standing h header top t
    → Falls less (inorder t)
    → Falls (λ x. not (greater x)) (inorder t)
    → length (inorder t) < fuel
    → count less greater fuel header h ≡ ok (matches less greater (inorder t)) h
unfolding count
count-matches {X} {h} {header} less greater t fuel apart s fl fg enough =
    let q = split_at less (λ x. not (greater x)) (inorder t) fl fg (λ x e. ap not (apart x e)) in
    let p = q.split in
    let shorter : length p.inside < fuel = omega (
      arith,
      enough,
      ap length p.whole,
      length-append p.front (p.inside ++ p.back),
      length-append p.inside p.back,
    ) in
    rw
      (
        equal_range-ends {h = h} less greater t fuel apart s fl fg
            (omega (arith, enough, depth-length t)),
        q.first header,
        q.second header,
        matches-Split less greater p,
      )
      (count_loop-length t s fuel fuel p.front p.inside p.back 0 p.whole enough shorter
        ∙ ap (λ n. ok n h) (let z : 0 + length p.inside ≡ length p.inside = omega arith in z))
