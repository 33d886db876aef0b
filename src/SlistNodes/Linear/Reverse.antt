-- ===== src/SlistNodes/Linear/Reverse.antt =====
-- `reverse` of a list that ends in a null pointer.
use mathlib.Core.List.{reverse_aux}
use mathlib.Core.List
use intrusive.Base.{
  ℕ, zero, suc, ◌≤◌, ◌<◌, ◌≡◌, ◌≢◌, refl, ◌∙◌, sym, arith, List, [], ◌∷◌, ◌++◌, count, ◌==◌,
  count-append, count-reverse, length, false,
}
use intrusive.Machine.{Ptr, null, Returns, returns, Returns-imp, update, ok}
use intrusive.BsTree.Access.{update-here, update-other}
use intrusive.BsTree.Shape.{ne_of_hit, hit_self}
use intrusive.SlistNodes.{Nexts, unlink_after}
use intrusive.SlistNodes.Chain.{
  first_or, Chain, LinearList, first_or-append, Chain-front, Chain-behind, Chain-both, Chain-update,
  get_next-ok, set_next-ok,
}
use intrusive.SlistNodes.Linear.{reverse_loop, reverse}

unlink_after-ok :
    (h : Nexts) (p i next : Ptr)
    → p ≢ null
    → h p ≡ i
    → i ≢ null
    → h i ≡ next
    → unlink_after p h ≡ ok tt (update h p next)
unfolding unlink_after
unlink_after-ok h p i next p0 e i0 f =
    rw (get_next-ok p h p0, e, get_next-ok i h i0, f) (set_next-ok p next h p0)

-- A round: the node `i` behind `p` goes to the front.
Chain-turned :
    (h : Nexts) (p i : Ptr) (done rest : List Ptr)
    → Chain h null (done ++ p ∷ i ∷ rest)
    → ((a : Ptr) → count a (done ++ p ∷ i ∷ rest) ≤ 1)
    → Chain
        (update (update h p (first_or null rest)) i (first_or p done))
        null
        (i ∷ done ++ p ∷ rest)
Chain-turned h p i done rest c d =
    let m = update h p (first_or null rest) in
    let v = first_or p done in
    let cp = count-append p done (p ∷ i ∷ rest) in
    let ci = count-append i done (p ∷ i ∷ rest) in
    let ne : p ≢ i = ne_of_hit (omega (arith, d p, cp, hit_self p)) in
    let behind = Chain-behind h null done (p ∷ i ∷ rest) c in
    let front = Chain-update m i v p done (omega (arith, d i, ci, hit_self i)) (
      Chain-update h p (first_or null rest) p done (omega (arith, d p, cp, hit_self p))
        (Chain-front h null done p (i ∷ rest) c)) in
    let back = Chain-update m i v null rest (omega (arith, d i, ci, hit_self i)) (
      Chain-update h p (first_or null rest) null rest (omega (arith, d p, cp, hit_self p))
        behind.1.1) in
    (
      update-here m i v ∙ sym (first_or-append null done p rest),
      Chain-both (update m i v) null done p rest front
          (update-other m i v p ne ∙ update-here h p (first_or null rest), back),
    )

reverse_loop-Chain :
    (k : ℕ) (h : Nexts) (p : Ptr) (done rest : List Ptr)
    → Chain h null (done ++ p ∷ rest)
    → ((a : Ptr) → count a (done ++ p ∷ rest) ≤ 1)
    → count null (done ++ p ∷ rest) ≡ 0
    → length rest < k
    → Returns
        (λ f g.
          (f ≡ first_or null (reverse_aux rest (done ++ p ∷ [])))
          × Chain g null (reverse_aux rest (done ++ p ∷ []))
          × ((a : Ptr) → count a (done ++ p ∷ rest) ≡ 0 → g a ≡ h a))
        (reverse_loop k p (first_or null rest) (first_or p done) h)
unfolding reverse_loop
reverse_loop-Chain zero h p done rest c d z enough = absurd (omega (arith, enough))
reverse_loop-Chain (suc k) h p done [] c d z enough =
    returns (sym (first_or-append null done p []), c, λ a o. refl)
reverse_loop-Chain (suc k) h p done (i ∷ rest) c d z enough =
    let cs = λ (a : Ptr). count-append a done (p ∷ i ∷ rest) in
    let cr = λ (a : Ptr). count-append a done (p ∷ rest) in
    let i0 : i ≢ null = ground (arith, z, cs null) in
    let p0 : p ≢ null = ground (arith, z, cs null) in
    let live : (i == null) ≡ false = ground arith in
    let behind = Chain-behind h null done (p ∷ i ∷ rest) c in
    rw
      (
        live,
        get_next-ok i h i0,
        behind.1.0,
        unlink_after-ok h p i (first_or null rest) p0 behind.0 i0 behind.1.0,
        set_next-ok i (first_or p done) (update h p (first_or null rest)) i0,
      )
      (Returns-imp
        (reverse_loop-Chain k (update (update h p (first_or null rest)) i (first_or p done)) p
          (i ∷ done) rest (Chain-turned h p i done rest c d) (λ a. omega (arith, d a, cs a, cr a))
          (omega (arith, z, cs null, cr null)) (omega (arith, enough)))
        λ f g q. (
          q.0,
          q.1,
          λ a o.
              let m = update h p (first_or null rest) in
              q.2 a (omega (arith, o, cs a, cr a))
              ∙ update-other m i (first_or p done) a (ne_of_hit (omega (arith, o, cs a)))
              ∙ update-other h p (first_or null rest) a (ne_of_hit (omega (arith, o, cs a))),
        ))

-- `reverse` of a list that ends in a null pointer, with fuel for each node: it returns the first
-- node of the reversed list, which ends in a null pointer again; the links of all other nodes are
-- as before.
pub reverse-LinearList :
    {h : Nexts} (p : Ptr) (xs : List Ptr) (fuel : ℕ)
    → LinearList h (p ∷ xs)
    → length xs < fuel
    → Returns
        (λ f g.
          (f ≡ first_or null (mathlib.Core.List.reverse (p ∷ xs)))
          × LinearList g (mathlib.Core.List.reverse (p ∷ xs))
          × ((a : Ptr) → count a (p ∷ xs) ≡ 0 → g a ≡ h a))
        (reverse fuel p h)
unfolding reverse
reverse-LinearList {h} p xs fuel l enough =
    let p0 : p ≢ null = ground (arith, l.nonnull) in
    let live : (p == null) ≡ false = ground arith in
    rw (live, get_next-ok p h p0, l.chain.0)
      (Returns-imp (reverse_loop-Chain fuel h p [] xs l.chain l.distinct l.nonnull enough) λ f g q.
        (
          q.0,
          record {
            chain = q.1;
            distinct = λ a. omega (arith, l.distinct a, count-reverse a (p ∷ xs));
            nonnull = omega (arith, l.nonnull, count-reverse null (p ∷ xs));
          },
          q.2,
        ))
