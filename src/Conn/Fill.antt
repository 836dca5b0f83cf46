-- ===== src/Conn/Fill.antt =====
-- `fill`: what the segments of the stream are does not matter.
use xvc_support.Base.{
  ℕ, zero, suc, ◌+◌, ◌-◌, ◌≤◌, ◌<◌, ◌≡◌, ◌≢◌, refl, ap, ap₂, sym, ◌∙◌, true, false, List, [], ◌∷◌,
  ◌++◌, ◌==◌, leb, All, length, take, drop, write_at, arith, ok, length-append, length-take,
  length-drop, take-append-drop, append_assoc, take-append_eq, take-append, drop-append,
  drop-append_eq, Bool-cases, inl, inr, ne→==_false, drop-drop, take-add, le→leb,
}
use native.Mathlib.Decide.{ℕ_discrete}
use xvc_support.Conn.{Conn, read, fill_loop, fill}

-- All octets that are still to come.
abbrev pub stream : List (List ℕ) → List ℕ
stream [] = []
stream (seg ∷ segs) = seg ++ stream segs

-- The end of the stream is a segment without octets.
abbrev pub IsOpen : List (List ℕ) → Type 0
IsOpen = All (λ seg. 1 ≤ length seg)

-- The block with these octets at `p`.
abbrev pub stored : List ℕ → ℕ → List ℕ → List ℕ
stored mem p bs = take p mem ++ (bs ++ drop (p + length bs) mem)

pub stored_twice :
    (mem : List ℕ) (p : ℕ) (a b : List ℕ)
    → p + length a ≤ length mem
    → stored (stored mem p a) (p + length a) b ≡ stored mem p (a ++ b)
stored_twice mem p a b h =
    let la : length (take p mem) ≡ p = omega (arith, length-take p mem) in
    let sum : length (a ++ b) ≡ length a + length b = length-append a b in
    let front : take (p + length a) (take p mem ++ (a ++ drop (p + length a) mem))
        ≡ take p mem ++ a =
      rw (← append_assoc (take p mem) a (drop (p + length a) mem)) (
        take-append_eq (p + length a) (take p mem ++ a) (drop (p + length a) mem)
          (omega (arith, length-append {0} (take p mem) a))) in
    let cut : drop (p + length a) (take p mem ++ (a ++ drop (p + length a) mem))
        ≡ drop (p + length a) mem =
      rw (← append_assoc (take p mem) a (drop (p + length a) mem)) (
        drop-append_eq (p + length a) (take p mem ++ a) (drop (p + length a) mem)
          (omega (arith, length-append {0} (take p mem) a))) in
    let back : drop (p + length a + length b) (stored mem p a) ≡ drop (p + length (a ++ b)) mem =
      sym (drop-drop (length b) (p + length a) (stored mem p a))
      ∙ ap (drop (length b)) cut
      ∙ drop-drop (length b) (p + length a) mem
      ∙ ap (λ (x : ℕ). drop x mem) (omega arith) in
    ap₂ (λ x y. x ++ (b ++ y)) front back
    ∙ append_assoc (take p mem) a (b ++ drop (p + length (a ++ b)) mem)
    ∙ ap (λ t. take p mem ++ t) (sym (append_assoc a b (drop (p + length (a ++ b)) mem)))

pub stored_nil : (mem : List ℕ) (p : ℕ) → stored mem p [] ≡ mem
stored_nil mem p = ap (λ (x : ℕ). take p mem ++ drop x mem) (omega arith) ∙ take-append-drop p mem

pub length-stored :
    (mem : List ℕ) (p : ℕ) (bs : List ℕ)
    → p + length bs ≤ length mem
    → length (stored mem p bs) ≡ length mem
length-stored mem p bs h = omega (
  arith,
  length-append {0} (take p mem) (bs ++ drop (p + length bs) mem),
  length-append {0} bs (drop (p + length bs) mem),
  length-take p mem,
  length-drop (p + length bs) mem,
)

-- A part of a list that reaches beyond its front.
take_through :
    (k : ℕ) (bs rest : List ℕ)
    → length bs ≤ k
    → take k (bs ++ rest) ≡ bs ++ take (k - length bs) rest
take_through k bs rest h =
    let e : k ≡ length bs + (k - length bs) = omega arith in
    ap (λ (x : ℕ). take x (bs ++ rest)) e
    ∙ take-add (length bs) (k - length bs) (bs ++ rest)
    ∙ ap₂ (λ x y. x ++ take (k - length bs) y) (take-append bs rest) (drop-append bs rest)

drop_through :
    (k : ℕ) (bs rest : List ℕ) → length bs ≤ k → drop k (bs ++ rest) ≡ drop (k - length bs) rest
drop_through k bs rest h =
    let e : k ≡ length bs + (k - length bs) = omega arith in
    ap (λ (x : ℕ). drop x (bs ++ rest)) e
    ∙ sym (drop-drop (k - length bs) (length bs) (bs ++ rest))
    ∙ ap (drop (k - length bs)) (drop-append bs rest)

module _ {D : Type 0} where
  -- A read brings some of the next octets.
  pub read_lem :
      (segs : List (List ℕ)) (s : Conn D) (k : ℕ)
      → s.net ≡ segs
      → 1 ≤ k
      → IsOpen segs
      → 1 ≤ length (stream segs)
      → (bs : List ℕ) × (net : List (List ℕ)) × (read k s ≡ (ok bs, record s { net = net }))
        × (1 ≤ length bs)
        × (length bs ≤ k)
        × (stream segs ≡ bs ++ stream net)
        × IsOpen net
  unfolding read
  read_lem [] s k e hk o m = absurd (omega arith)
  read_lem (seg ∷ segs) s k e hk o m = elim (Bool-cases (leb (length seg) k)) [
    | inl f ↦
        let some_there : (length seg == 0) ≡ false = ne→==_false _ _ (omega (arith, o.0)) in
        (seg, segs, rw e (rw (some_there, f)), o.0, ground arith, refl, o.1)
    | inr f ↦
        let some_there : (length seg == 0) ≡ false = ne→==_false _ _ (omega (arith, o.0)) in
        let long : k < length seg = ground arith in
        (
          take k seg,
          drop k seg ∷ segs,
          rw e (rw (some_there, f)),
          omega (arith, length-take k seg),
          omega (arith, length-take k seg),
          ap (λ t. t ++ stream segs) (sym (take-append-drop k seg))
              ∙ append_assoc (take k seg) (drop k seg) (stream segs),
          (omega (arith, length-drop k seg), o.1),
        )
  ]

  one_read :
      (n p k : ℕ) (s : Conn D) (bs : List ℕ) (net : List (List ℕ))
      → k ≢ 0
      → read k s ≡ (ok bs, record s { net = net })
      → p + length bs ≤ length s.rxb
      → fill_loop (suc n) p k s
        ≡ fill_loop n
            (p + length bs)
            (k - length bs)
            (record s { rxb = stored s.rxb p bs; net = net })
  unfolding fill_loop write_at
  one_read n p k s bs net ne e h = rw (ne→==_false k 0 ne) (rw e (rw (le→leb _ _ h)))

  -- What the loop leaves: the next `k` octets at `p`.
  abbrev pub Brings : ℕ → ℕ → ℕ → Conn D → Type 0
  Brings n p k s =
      (net : List (List ℕ)) × (fill_loop n p k s
        ≡ (ok tt, record s { rxb = stored s.rxb p (take k (stream s.net)); net = net }))
      × (stream net ≡ drop k (stream s.net))
      × IsOpen net

  read-Brings :
      (n p k : ℕ) (s : Conn D) (bs : List ℕ) (net : List (List ℕ))
      → k ≢ 0
      → p + k ≤ length s.rxb
      → read k s ≡ (ok bs, record s { net = net })
      → length bs ≤ k
      → stream s.net ≡ bs ++ stream net
      → Brings n (p + length bs) (k - length bs) (record s { rxb = stored s.rxb p bs; net = net })
      → Brings (suc n) p k s
  read-Brings n p k s bs net ne h e hi whole (net', f, g, o2) =
      let part : List ℕ = take (k - length bs) (stream net) in
      let all : stored (stored s.rxb p bs) (p + length bs) part
          ≡ stored s.rxb p (take k (stream s.net)) =
        stored_twice s.rxb p bs part (omega arith)
        ∙ ap (stored s.rxb p) (sym (take_through k bs (stream net) hi) ∙ ap (take k) (sym whole)) in
      (
        net',
        one_read n p k s bs net ne e (omega arith)
            ∙ f
            ∙ ap (λ x. (ok tt, record s { rxb = x; net = net' })) all,
        g ∙ sym (drop_through k bs (stream net) hi) ∙ ap (drop k) (sym whole),
        o2,
      )

  -- The loop brings the next octets into the block, in as many reads as it takes.
  pub fill_loop-Brings :
      (n p k : ℕ) (s : Conn D)
      → k ≤ n
      → IsOpen s.net
      → k ≤ length (stream s.net)
      → p + k ≤ length s.rxb
      → Brings n p k s
  unfolding fill_loop
  fill_loop-Brings zero p k s hn o m h =
      let z : k ≡ 0 = omega arith in
      (
        s.net,
        rw z (ap (λ x. (ok tt, record s { rxb = x })) (sym (stored_nil s.rxb p))),
        rw z refl,
        o,
      )
  fill_loop-Brings (suc n) p k s hn o m h = elim (ℕ_discrete k 0) [
    | yes z ↦ (
      s.net,
      rw z (ap (λ x. (ok tt, record s { rxb = x })) (sym (stored_nil s.rxb p))),
      rw z refl,
      o,
    )
    | no ne ↦
        let (bs, net, e, lo, hi, whole, o') =
          read_lem s.net s k refl (omega arith) o (omega arith) in
        let size : length (stream s.net) ≡ length bs + length (stream net) =
          ap length whole ∙ length-append bs (stream net) in
        read-Brings n p k s bs net ne h e hi whole (
          fill_loop-Brings n (p + length bs) (k - length bs)
            (record s { rxb = stored s.rxb p bs; net = net }) (omega arith) o' (omega arith)
            (omega (arith, length-stored s.rxb p bs (omega arith))))
  ]

  -- While the stream is not over and the block has room, `fill` succeeds, and then the window
  -- holds what it held and the next octets of the stream up to `n`, whatever its segments are;
  -- nothing else of the block or of the stream changes.
  pub fill-stream :
      (n : ℕ) (s : Conn D)
      → s.rl ≤ n
      → IsOpen s.net
      → n - s.rl ≤ length (stream s.net)
      → s.rp + n ≤ length s.rxb
      → (net : List (List ℕ)) × (fill n s ≡ (
        ok tt,
        record s {
          rxb = stored s.rxb (s.rp + s.rl) (take (n - s.rl) (stream s.net));
          rl = n;
          net = net;
        },
      ))
        × (stream net ≡ drop (n - s.rl) (stream s.net))
  unfolding fill
  fill-stream n s low o m h = elim (ℕ_discrete n s.rl) [
    | yes e ↦
        let z : n - s.rl ≡ 0 = omega arith in
        let full : leb n s.rl ≡ true = le→leb _ _ (omega arith) in
        (
          s.net,
          rw (full, z)
              (ap₂ (λ x y. (ok tt, record s { rxb = x; rl = y }))
                (sym (stored_nil s.rxb (s.rp + s.rl))) (sym e)),
          rw z refl,
        )
    | no ne ↦
        let (net, f, g, o2) =
          fill_loop-Brings (n - s.rl) (s.rp + s.rl) (n - s.rl) s (omega arith) o m (omega arith) in
        let more : leb n s.rl ≡ false = ground arith in (net, rw more (rw f), g)
  ]
