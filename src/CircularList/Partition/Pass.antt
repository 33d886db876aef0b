-- ===== src/CircularList/Partition/Pass.antt =====
-- A round of the partition: a node stays, or joins those that failed.
use intrusive.Base.{
  ◌+◌, ◌≤◌, ◌≡◌, ◌≢◌, refl, [], ◌∷◌, List, ◌++◌, arith, last, last-append, count, count-append,
  count-last,
}
use intrusive.Machine.{Ptr, null, ok, update}
use intrusive.CircularList.{Links, relink, pass_node}
use intrusive.CircularList.Ring.{Ring, Linked, Seg, Seg-frame, Seg-append}

-- During the main loop: behind `e` the nodes `ts` that passed, on their own the nodes `f ∷ fs`
-- that failed, and linked behind those the nodes `rs` that are left, up to `e`.
pub record Split (h : Links) (e : Ptr) (ts : List Ptr) (f : Ptr) (fs rs : List Ptr) : Type 0 where
  pub passed : Seg h e ts
  pub out : Seg h f fs
  pub rest : Seg h (last f fs) rs
  pub closed : Linked h (last (last f fs) rs) e
  pub distinct : (a : Ptr) → count a (e ∷ ts) + count a (f ∷ fs) + count a rs ≤ 1
  pub nonnull : count null (e ∷ ts) + count null (f ∷ fs) + count null rs ≡ 0

last-append_last : (f : Ptr) (fs rs : List Ptr) → last f (fs ++ rs) ≡ last (last f fs) rs
last-append_last f [] rs = refl
last-append_last f (x ∷ fs) rs = last-append_last x fs rs

Seg-append_last :
    (h : Links) (f : Ptr) (fs rs : List Ptr)
    → Seg h f fs
    → Seg h (last f fs) rs
    → Seg h f (fs ++ rs)
Seg-append_last h f [] rs s t = t
Seg-append_last h f (x ∷ fs) rs s t = (s.0, Seg-append_last h x fs rs s.1 t)

pub relinked : (last_to_remove new_f : Ptr) → Links → Links
relinked l f h = record { next = update h.next l f; prev = update h.prev f l }

pub relink-ok :
    (l f : Ptr) (h : Links) → l ≢ null → f ≢ null → relink l f h ≡ ok tt (relinked l f h)
unfolding relink relinked
relink-ok l f h n m = ground arith

module _ {h : Links} (e : Ptr) (ts : List Ptr) (f : Ptr) (fs rs : List Ptr)
    (s : Split h e ts f fs rs) where
  -- The writes that end the loop, on each way out of it, put the failed nodes behind the others.
  pub relinked-Ring : Ring (relinked (last e ts) f h) e (ts ++ (f ∷ (fs ++ rs)))
  unfolding relinked
  relinked-Ring =
      let whole = Seg-append_last h f fs rs s.out s.rest in
      let c = λ (a : Ptr). count-append a fs rs in
      let d = s.distinct in
      let m = last f (fs ++ rs) in
      let end : Linked h m e = rw (last-append_last f fs rs) s.closed in
      record {
        seg =
            Seg-append e ts f (fs ++ rs)
              (Seg-frame e ts s.passed (λ a. omega (arith, d a)) (λ a m n. ground arith)
                (λ a m. ground (arith, d a)))
              (ground arith)
              (Seg-frame f (fs ++ rs) whole (λ a. omega (arith, d a, c a))
                (λ a m n. ground (arith, d a, c a, count-last e ts))
                (λ a m. ground (arith, d a, c a)));
        closed =
            rw (last-append e ts f (fs ++ rs))
              (ground (arith, end, d m, d e, c m, count-last f (fs ++ rs), count-last e ts));
        distinct = λ a. omega (arith, d a, c a, count-append a ts (f ∷ (fs ++ rs)));
        nonnull = omega (arith, s.nonnull, c null, count-append null ts (f ∷ (fs ++ rs)));
      }

-- The store after a node `c` that passed has been taken out from behind `b` and put behind `l`.
pub passed_on : (l b c nxt : Ptr) → Links → Links
passed_on l b c nxt h = record {
  next = update (update h.next l c) b nxt;
  prev = update (update h.prev c l) nxt b;
}

pub pass_node-ok :
    (l b c : Ptr) (h : Links)
    → l ≢ null
    → b ≢ null
    → c ≢ null
    → h.next c ≢ null
    → l ≢ c
    → pass_node l b c h ≡ ok (h.next c) (passed_on l b c (h.next c) h)
unfolding pass_node passed_on
pass_node-ok l b c h m n k w d = ground arith

module _ {h : Links} (e : Ptr) (ts : List Ptr) (f : Ptr) (fs : List Ptr) (c : Ptr) where
  pub pass-Split :
      (rs : List Ptr)
      → Split h e ts f fs (c ∷ rs)
      → Split (passed_on (last e ts) (last f fs) c (h.next c) h) e (ts ++ c ∷ []) f fs rs
  unfolding passed_on
  pass-Split [] s = record {
    passed =
        Seg-append e ts c []
          (Seg-frame e ts s.passed (λ a. omega (arith, s.distinct a))
            (λ a m n. ground (arith, s.distinct a, count-last e ts, count-last f fs))
            (λ a m. ground (arith, s.distinct a, s.closed.forth)))
          (ground (
            arith,
            s.distinct (last e ts),
            s.distinct c,
            s.distinct e,
            s.distinct (last f fs),
            count-last e ts,
            count-last f fs,
            s.closed.forth,
          ))
          tt;
    out =
        Seg-frame f fs s.out (λ a. omega (arith, s.distinct a))
          (λ a m n. ground (arith, s.distinct a, count-last e ts, count-last f fs))
          (λ a m. ground (arith, s.distinct a, s.closed.forth));
    rest = tt;
    closed = ground (arith, s.closed.forth);
    distinct = λ a. omega (arith, s.distinct a, count-append a ts (c ∷ []));
    nonnull = omega (arith, s.nonnull, count-append null ts (c ∷ []));
  }
  pass-Split (r ∷ rs) s = record {
    passed =
        Seg-append e ts c []
          (Seg-frame e ts s.passed (λ a. omega (arith, s.distinct a))
            (λ a m n. ground (arith, s.distinct a, count-last e ts, count-last f fs))
            (λ a m. ground (arith, s.distinct a, s.rest.1.0.forth)))
          (ground (
            arith,
            s.distinct (last e ts),
            s.distinct c,
            s.distinct (last f fs),
            count-last e ts,
            count-last f fs,
            s.rest.1.0.forth,
          ))
          tt;
    out =
        Seg-frame f fs s.out (λ a. omega (arith, s.distinct a))
          (λ a m n. ground (arith, s.distinct a, count-last e ts, count-last f fs))
          (λ a m. ground (arith, s.distinct a, s.rest.1.0.forth));
    rest = (
      ground (arith, s.rest.1.0.forth),
      Seg-frame r rs s.rest.1.1 (λ a. omega (arith, s.distinct a))
          (λ a m n. ground (arith, s.distinct a, count-last e ts, count-last f fs))
          (λ a m. ground (arith, s.distinct a, s.distinct r, s.rest.1.0.forth)),
    );
    closed = ground (
      arith,
      s.closed,
      s.rest.1.0.forth,
      s.distinct e,
      s.distinct (last r rs),
      count-last r rs,
      count-last e ts,
      count-last f fs,
    );
    distinct = λ a. omega (arith, s.distinct a, count-append a ts (c ∷ []));
    nonnull = omega (arith, s.nonnull, count-append null ts (c ∷ []));
  }

  pub fail-Split : (rs : List Ptr) → Split h e ts f fs (c ∷ rs) → Split h e ts f (fs ++ c ∷ []) rs
  fail-Split rs s = record {
    passed = s.passed;
    out = Seg-append f fs c [] s.out s.rest.0 tt;
    rest = rw last-append s.rest.1;
    closed = rw last-append s.closed;
    distinct = λ a. omega (arith, s.distinct a, count-append a fs (c ∷ []));
    nonnull = omega (arith, s.nonnull, count-append null fs (c ∷ []));
  }
