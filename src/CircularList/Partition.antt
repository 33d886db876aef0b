-- ===== src/CircularList/Partition.antt =====
-- Partitioning a part of a circular list by a test that may throw.
pub mod Tested
pub mod Pass
use intrusive.Base.{
  ℕ, zero, suc, ◌+◌, ◌<◌, ◌≡◌, ◌≢◌, refl, ◌⊎◌, inl, inr, [], ◌∷◌, List, ◌++◌, arith, Bool, true,
  false, Option, none, some, ◌==◌, last, last-append, length, count-append, count-last,
  append_assoc, append-nil,
}
use intrusive.Machine.{
  Ptr, null, Outcome, Outcome-imp, Outcome-Returns, Outcome-Throws, Throws, returned, threw,
  Returns,
}
use intrusive.CircularList.{
  Links, PartitionInfo, partition_info, partition_loop, partition_front, stable_partition,
}
use intrusive.CircularList.Ring.{Ring, Seg-split}
use intrusive.CircularList.Walk.{get_next-ok, get_previous-ok}
use intrusive.CircularList.Partition.Tested.{at_throw, at_pass, at_fail}
use intrusive.CircularList.Partition.Pass.{
  Split, relink-ok, relinked-Ring, pass_node-ok, pass-Split, fail-Split,
}
pub use intrusive.CircularList.Partition.Tested.{kept, failed, untested}

-- The next node to test, or the end.
abbrev pub head_or : Ptr → List Ptr → Ptr
head_or e [] = e
head_or e (x ∷ xs) = x

Split-next :
    {h : Links} (e : Ptr) (ts : List Ptr) (f : Ptr) (fs : List Ptr) (c : Ptr) (rs : List Ptr)
    → Split h e ts f fs (c ∷ rs)
    → h.next c ≡ head_or e rs
Split-next e ts f fs c [] s = s.closed.forth
Split-next e ts f fs c (r ∷ rs) s = s.rest.1.0.forth

Split-next_ne :
    {h : Links} (e : Ptr) (ts : List Ptr) (f : Ptr) (fs : List Ptr) (c : Ptr) (rs : List Ptr)
    → Split h e ts f fs (c ∷ rs)
    → h.next c ≢ null
Split-next_ne e ts f fs c [] s = ground (arith, s.closed.forth, s.nonnull)
Split-next_ne e ts f fs c (r ∷ rs) s = ground (arith, s.rest.1.0.forth, s.nonnull)

Test-cases : (o : Option Bool) → (o ≡ none) ⊎ ((o ≡ some true) ⊎ (o ≡ some false))
Test-cases none = inl refl
Test-cases (some true) = inr (inl refl)
Test-cases (some false) = inr (inr refl)

module _ (pred : Ptr → Option Bool) (n1 n2 : ℕ) (e : Ptr) (ts : List Ptr) (f : Ptr)
    (fs rs : List Ptr) where
  -- What the main loop does from such a state, for counts `n1` and `n2` so far.
  abbrev Partitioned : PartitionInfo → Links → Type 0
  Partitioned info g =
      (untested pred rs ≡ [])
      × (info ≡ partition_info (n1 + length (kept pred rs)) (n2 + length (failed pred rs)) f)
      × Ring g e (ts ++ (kept pred rs ++ (f ∷ (fs ++ failed pred rs))))

  abbrev Interrupted : Links → Type 0
  Interrupted g =
      (untested pred rs ≢ [])
      × Ring g e (ts ++ (kept pred rs ++ (f ∷ (fs ++ (failed pred rs ++ untested pred rs)))))

partition_loop_lem :
    (pred : Ptr → Option Bool) (k n1 n2 : ℕ) {h : Links} (e : Ptr) (ts : List Ptr) (f : Ptr)
    (fs rs : List Ptr)
    → Split h e ts f fs rs
    → length rs < k
    → Outcome
        (Partitioned pred n1 n2 e ts f fs rs)
        (Interrupted pred n1 n2 e ts f fs rs)
        (partition_loop pred k e f (last e ts) (last f fs) (head_or e rs) n1 n2 h)
unfolding partition_loop
partition_loop_lem pred zero n1 n2 e ts f fs rs s fuel = absurd (omega arith)
partition_loop_lem pred (suc k) n1 n2 {h} e ts f fs [] s fuel =
    let same : (e == e) ≡ true = ground arith in
    rw
      (
        same,
        relink-ok (last e ts) f h (ground (arith, s.nonnull, count-last e ts))
            (ground (arith, s.nonnull)),
      )
      (returned (refl, ground arith, relinked-Ring e ts f fs [] s))
partition_loop_lem pred (suc k) n1 n2 {h} e ts f fs (c ∷ rs) s fuel =
    let other : (c == e) ≡ false = ground (arith, s.distinct e) in
    let nl : last e ts ≢ null = ground (arith, s.nonnull, count-last e ts) in
    let nb : last f fs ≢ null = ground (arith, s.nonnull, count-last f fs) in
    let nc : c ≢ null = ground (arith, s.nonnull) in
    let next = Split-next e ts f fs c rs s in
    rw other (elim (Test-cases (pred c)) [
      | inl t ↦
          let (a, b, w) = at_throw pred c rs t in
          rw (t, relink-ok (last e ts) f h nl (ground (arith, s.nonnull)))
            (threw ((λ q. cc), rw (a, b, w) (relinked-Ring e ts f fs (c ∷ rs) s)))
      | inr (inl t) ↦
          let (a, b, w) = at_pass pred c rs t in
          let rest =
            partition_loop_lem pred k (n1 + 1) n2 e (ts ++ c ∷ []) f fs rs
              (pass-Split e ts f fs c rs s) (omega arith) in
          rw
            (
              t,
              pass_node-ok (last e ts) (last f fs) c h nl nb nc (Split-next_ne e ts f fs c rs s)
                  (ground (arith, s.distinct c, count-last e ts)),
              next,
            )
            (Outcome-imp (rw (last-append, next) at rest)
              (λ info g (u, i, r). (rw w u, ground arith, rw (a, b) (rw append_assoc at r)))
              (λ g (u, r). (rw w u, rw (a, b, w) (rw append_assoc at r))))
      | inr (inr t) ↦
          let (a, b, w) = at_fail pred c rs t in
          let rest =
            partition_loop_lem pred k n1 (n2 + 1) e ts f (fs ++ c ∷ []) rs
              (fail-Split e ts f fs c rs s) (omega arith) in
          rw (t, get_next-ok c h nc, next)
            (Outcome-imp (rw last-append at rest)
              (λ info g (u, i, r). (rw w u, ground arith, rw (a, b) (rw append_assoc at r)))
              (λ g (u, r). (rw w u, rw (a, b, w) (rw append_assoc at r))))
    ])

module _ {h : Links} (e : Ptr) (ts : List Ptr) (c : Ptr) (rs : List Ptr)
    (r : Ring h e (ts ++ c ∷ rs)) where
  Ring-Split : Split h e ts c [] rs
  Ring-Split =
      let (front, l, back) = Seg-split e ts c rs r.seg in
      record {
        passed = front;
        out = tt;
        rest = back;
        closed = rw last-append at r.closed;
        distinct = λ a. omega (arith, r.distinct a, count-append a ts (c ∷ rs));
        nonnull = omega (arith, r.nonnull, count-append null ts (c ∷ rs));
      }

Ring-next :
    {h : Links} (e : Ptr) (ts : List Ptr) (c : Ptr) (rs : List Ptr)
    → Ring h e (ts ++ c ∷ rs)
    → h.next c ≡ head_or e rs
Ring-next e ts c [] r = (Ring-Split e ts c [] r).closed.forth
Ring-next e ts c (x ∷ rs) r = (Ring-Split e ts c (x ∷ rs) r).rest.0.forth

Ring-prev :
    {h : Links} (e : Ptr) (ts rs : List Ptr)
    → Ring h e (ts ++ rs)
    → (h.prev (head_or e rs) ≡ last e ts) × (head_or e rs ≢ null)
Ring-prev e ts [] r = (rw append-nil at r.closed.back, ground (arith, r.nonnull))
Ring-prev e ts (c ∷ rs) r =
    ((Seg-split e ts c rs r.seg).1.back, ground (arith, r.nonnull, count-append null ts (c ∷ rs)))

-- The loop over the nodes that pass in front of the first other one.
partition_front_lem :
    (pred : Ptr → Option Bool) (k n1 : ℕ) {h : Links} (e : Ptr) (ts rs : List Ptr)
    → Ring h e (ts ++ rs)
    → length rs < k
    → Outcome
        (λ info g.
          (untested pred rs ≡ [])
          × (info
              ≡ partition_info
                  (n1 + length (kept pred rs))
                  (length (failed pred rs))
                  (head_or e (failed pred rs)))
          × Ring g e (ts ++ (kept pred rs ++ failed pred rs)))
        (λ g.
          (untested pred rs ≢ [])
          × Ring g e (ts ++ (kept pred rs ++ (failed pred rs ++ untested pred rs))))
        (partition_front pred k e (last e ts) (head_or e rs) n1 h)
unfolding partition_front
partition_front_lem pred zero n1 e ts rs r fuel = absurd (omega arith)
partition_front_lem pred (suc k) n1 e ts [] r fuel =
    let same : (e == e) ≡ true = ground arith in rw same (returned (refl, ground arith, r))
partition_front_lem pred (suc k) n1 {h} e ts (c ∷ rs) r fuel =
    let ca = λ (a : Ptr). count-append a ts (c ∷ rs) in
    let other : (c == e) ≡ false = ground (arith, r.distinct e, ca e) in
    let nc : c ≢ null = ground (arith, r.nonnull, ca null) in
    let next = Ring-next e ts c rs r in
    rw other (elim (Test-cases (pred c)) [
      | inl t ↦ let (a, b, w) = at_throw pred c rs t in rw t (threw ((λ q. cc), rw (a, b, w) r))
      | inr (inl t) ↦
          let (a, b, w) = at_pass pred c rs t in
          let rest =
            partition_front_lem pred k (n1 + 1) {h = h} e (ts ++ c ∷ []) rs (rw append_assoc r)
              (omega arith) in
          rw (t, get_next-ok c h nc, next)
            (Outcome-imp (rw last-append at rest)
              (λ info g (u, i, m). (rw w u, rw b (ground arith), rw (a, b) (rw append_assoc at m)))
              (λ g (u, m). (rw w u, rw (a, b, w) (rw append_assoc at m))))
      | inr (inr t) ↦
          let (a, b, w) = at_fail pred c rs t in
          let rest =
            partition_loop_lem pred k n1 1 e ts c [] rs (Ring-Split e ts c rs r) (omega arith) in
          rw (t, get_next-ok c h nc, next)
            (Outcome-imp rest (λ info g (u, i, m). (rw w u, rw b (ground arith), rw (a, b) m))
              (λ g (u, m). (rw w u, rw (a, b, w) m)))
    ])

-- `stable_partition` of the nodes behind `front` up to `end`, when the test throws at none of
-- them, with fuel for each node and one round more: behind `front` stand the nodes that pass,
-- then those that fail, each in their order, and the result is their numbers and the first that
-- fails, or `end`.
pub stable_partition-Ring :
    {h : Links} (pred : Ptr → Option Bool) (fuel : ℕ) {end : Ptr} (front range : List Ptr)
    → Ring h end (front ++ range)
    → untested pred range ≡ []
    → length range < fuel
    → Returns
        (λ info g.
          (info
            ≡ partition_info
                (length (kept pred range))
                (length (failed pred range))
                (head_or end (failed pred range)))
          × Ring g end (front ++ (kept pred range ++ failed pred range)))
        (stable_partition pred fuel (head_or end range) end h)
unfolding stable_partition
stable_partition-Ring {h} pred fuel {end} front range r total fuel_ok =
    rw
      (
        get_previous-ok (head_or end range) h (Ring-prev end front range r).1,
        (Ring-prev end front range r).0,
      )
      (Outcome-Returns (partition_front_lem pred fuel 0 end front range r fuel_ok)
        (λ info g (u, i, m). (ground (arith, i), m)) (λ g (u, m). u total))

-- `stable_partition` when the test throws at one of the nodes, with fuel as above: the exception leaves a circular
-- list of the same nodes, in which behind `front` stand those that passed, those that failed and
-- those that were not yet tested, each in their order.
pub stable_partition-Ring-Throws :
    {h : Links} (pred : Ptr → Option Bool) (fuel : ℕ) {end : Ptr} (front range : List Ptr)
    → Ring h end (front ++ range)
    → untested pred range ≢ []
    → length range < fuel
    → Throws
        (λ g. Ring g end (front ++ (kept pred range ++ (failed pred range ++ untested pred range))))
        (stable_partition pred fuel (head_or end range) end h)
unfolding stable_partition
stable_partition-Ring-Throws {h} pred fuel {end} front range r partial fuel_ok =
    rw
      (
        get_previous-ok (head_or end range) h (Ring-prev end front range r).1,
        (Ring-prev end front range r).0,
      )
      (Outcome-Throws (partition_front_lem pred fuel 0 end front range r fuel_ok)
        (λ info g (u, i, m). partial u) (λ g (u, m). m))
