-- ===== src/BsTree/Split.antt =====
-- The parts that two tests cut the nodes of a tree into.
use intrusive.Base.{◌≡◌, refl, ap, ◌∙◌, inl, inr, List, [], ◌∷◌, ◌++◌, Bool, true, Bool-cases}
use mathlib.Core.Path.{subst}
use intrusive.Machine.{Ptr}
use intrusive.BsTree.Commit.{first_or}
use intrusive.BsTree.Order.{Falls, AllTrue, AllFalse, first_false}

-- The nodes in front of a range, which `before` holds of, those in it, and those behind it, which
-- `within` fails for.
module _ (before within : Ptr → Bool) where
  pub record Split (xs : List Ptr) : Type 0 where
    pub front : List Ptr
    pub inside : List Ptr
    pub back : List Ptr
    pub whole : xs ≡ front ++ (inside ++ back)
    pub front_before : AllTrue before front
    pub inside_reached : AllFalse before inside
    pub inside_within : AllTrue within inside
    pub back_past : AllFalse within back

  -- The two ends that the tests have in the nodes, the second one behind the last node within.
  pub record SplitAt (xs : List Ptr) : Type 0 where
    pub split : Split xs
    pub first : (y : Ptr) → first_false before xs y ≡ first_or y (split.inside ++ split.back)
    pub second : (y : Ptr) → first_false within xs y ≡ first_or y split.back

  no_front : (xs ys : List Ptr) → AllTrue before xs → AllFalse before (xs ++ ys) → xs ≡ []
  no_front [] ys a b = refl
  no_front (x ∷ xs) ys a b = absurd (let e = a.0 in let f = b.0 in cc)

  pub split_at :
      (xs : List Ptr)
      → Falls before xs
      → Falls within xs
      → ((x : Ptr) → before x ≡ true → within x ≡ true)
      → SplitAt xs
  split_at [] fb fw apart = record {
    split = record {
      front = [];
      inside = [];
      back = [];
      whole = refl;
      front_before = tt;
      inside_reached = tt;
      inside_within = tt;
      back_past = tt;
    };
    first = λ y. refl;
    second = λ y. refl;
  }
  split_at (x ∷ xs) fb fw apart = elim (Bool-cases (before x)) [
    | inl e ↦
        let p = split_at xs fb.1 fw.1 apart in
        let w = apart x e in
        record {
          split = record {
            front = x ∷ p.split.front;
            inside = p.split.inside;
            back = p.split.back;
            whole = ap (λ l. x ∷ l) p.split.whole;
            front_before = (e, p.split.front_before);
            inside_reached = p.split.inside_reached;
            inside_within = p.split.inside_within;
            back_past = p.split.back_past;
          };
          first = λ y. rw e (p.first y);
          second = λ y. rw w (p.second y);
        }
    | inr e ↦ elim (Bool-cases (within x)) [
      | inl w ↦
          let p = split_at xs fb.1 fw.1 apart in
          let none =
            no_front p.split.front (p.split.inside ++ p.split.back) p.split.front_before
              (subst (AllFalse before) p.split.whole (fb.0 e)) in
          record {
            split = record {
              front = [];
              inside = x ∷ p.split.inside;
              back = p.split.back;
              whole =
                  ap (λ l. x ∷ l)
                    (p.split.whole ∙ ap (λ l. l ++ (p.split.inside ++ p.split.back)) none);
              front_before = tt;
              inside_reached = (e, p.split.inside_reached);
              inside_within = (w, p.split.inside_within);
              back_past = p.split.back_past;
            };
            first = λ y. rw e;
            second = λ y. rw w (p.second y);
          }
      | inr w ↦ record {
        split = record {
          front = [];
          inside = [];
          back = x ∷ xs;
          whole = refl;
          front_before = tt;
          inside_reached = tt;
          inside_within = tt;
          back_past = (w, fw.0 w);
        };
        first = λ y. rw e;
        second = λ y. rw w;
      }
    ]
  ]
