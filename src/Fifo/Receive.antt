-- ===== src/Fifo/Receive.antt =====
-- A reply that waits in a FIFO is taken out whole.
use xvc_support.Base.{
  ℕ, zero, suc, ◌+◌, ◌-◌, ◌*◌, ◌/◌, ◌%◌, ◌≤◌, ◌<◌, ◌≡◌, refl, ap, ap₂, sym, ◌∙◌, List, [], ◌∷◌,
  ◌++◌, length, take, drop, some, arith, ok, err, proto_err, Eff, ltb, if◌then◌else◌, lt→ltb,
  le→ltb_false, ne→==_false, write_at, write_at-parts, min, take-append-drop, append_assoc,
  length-append, length-take, length-drop, drop-drop, take-append_eq, drop-append_eq, take-add,
  Bool-cases, inl, inr, ltb_false→le, ◌==◌,
}
use xvc_support.Driver.{RxBuf}
use xvc_support.Fifo.{pop_header, pop_words, pop_rest, discard, receive_body, receive_words}

-- A FIFO that holds a list of words, in which `pop` finds the first one.
pub record IsQueue {S : Type 0} (pop : Eff S ℕ) (octets : ℕ → List ℕ) (Holds : List ℕ → S → Type 0)
    : Type 0 where
  pub pops :
      (w : ℕ) (ws : List ℕ) (s : S) → Holds (w ∷ ws) s → (t : S) × (pop s ≡ (ok w, t)) × Holds ws t
  pub four : (w : ℕ) → length (octets w) ≡ 4

-- The octets of words.
abbrev pub joined : (ℕ → List ℕ) → List ℕ → List ℕ
joined octets [] = []
joined octets (w ∷ ws) = octets w ++ joined octets ws

take_front : (n : ℕ) (x y : List ℕ) → n ≤ length x → take n (x ++ y) ≡ take n x
take_front zero x y h = refl
take_front (suc n) [] y h = elim h [ ]
take_front (suc n) (a ∷ x) y h = ap (λ t. a ∷ t) (take_front n x y (omega arith))

module _ {S : Type 0} (pop : Eff S ℕ) (octets : ℕ → List ℕ) (Holds : List ℕ → S → Type 0)
    (hw : IsQueue pop octets Holds) where
  joined-append : (a b : List ℕ) → joined octets (a ++ b) ≡ joined octets a ++ joined octets b
  joined-append [] b = refl
  joined-append (w ∷ a) b =
      ap (λ t. octets w ++ t) (joined-append a b)
      ∙ sym (append_assoc (octets w) (joined octets a) (joined octets b))

  pub length-joined : (ws : List ℕ) → length (joined octets ws) ≡ 4 * length ws
  length-joined [] = omega arith
  length-joined (w ∷ ws) =
      omega (arith, length-append {0} (octets w) (joined octets ws), hw.four w, length-joined ws)

  pop_header-queue :
      (a q : List ℕ) (got : ℕ) (s : S)
      → 4 * length a ≤ got
      → Holds (a ++ q) s
      → (t : S) × (pop_header pop octets (length a) got s
          ≡ (ok (joined octets a, got - 4 * length a), t))
        × Holds q t
  unfolding pop_header
  pop_header-queue [] q got s h b =
      (s, ap (λ (n : ℕ). (ok ([], n), s)) (let e : got ≡ got - 4 * 0 = omega arith in e), b)
  pop_header-queue (w ∷ a) q got s h b =
      let (t, e, b') = hw.pops w (a ++ q) s b in
      let (u, f, done) = pop_header-queue a q (got - 4) t (omega arith) b' in
      let left : got - 4 - 4 * length a ≡ got - 4 * suc (length a) = omega arith in
      (
        u,
        rw e (rw (le→ltb_false got 4 (omega arith)) (rw f refl))
            ∙ ap (λ (n : ℕ). (ok (octets w ++ joined octets a, n), u)) left,
        done,
      )

  pop_words-queue :
      (b q front rest : List ℕ) (i : ℕ) (s : S)
      → length front ≡ i
      → 4 * length b ≤ length rest
      → Holds (b ++ q) s
      → (t : S) × (pop_words pop octets (length b) i (front ++ rest) s
          ≡ (ok (front ++ (joined octets b ++ drop (4 * length b) rest)), t))
        × Holds q t
  unfolding pop_words
  pop_words-queue [] q front rest i s hi hr h = (s, refl, h)
  pop_words-queue (w ∷ b) q front rest i s hi hr h =
      let (t, e, h') = hw.pops w (b ++ q) s h in
      let old : List ℕ = take 4 rest in
      let back : List ℕ = drop 4 rest in
      let stored : write_at (front ++ rest) i (octets w) ≡ some ((front ++ octets w) ++ back) =
        ap (λ x. write_at (front ++ x) i (octets w)) (sym (take-append-drop 4 rest))
        ∙ write_at-parts front old back (octets w) i hi
            (omega (arith, length-take 4 rest, hw.four w))
        ∙ ap some (sym (append_assoc front (octets w) back)) in
      let (u, f, done) =
        pop_words-queue b q (front ++ octets w) back (i + 4) t
          (omega (arith, length-append {0} front (octets w), hw.four w))
          (omega (arith, length-drop 4 rest)) h' in
      let size : 4 * suc (length b) ≡ 4 + 4 * length b = omega arith in
      let shape : (front ++ octets w) ++ (joined octets b ++ drop (4 * length b) back)
          ≡ front ++ ((octets w ++ joined octets b) ++ drop (4 * suc (length b)) rest) =
        rw (size, drop-drop (4 * length b) 4 rest) (simp append_assoc) in
      (u, rw e (rw stored f) ∙ ap (λ x. (ok x, u)) shape, done)

  -- With the number of words given by an equation.
  header_at :
      (n got : ℕ) (a q : List ℕ) (s : S)
      → length a ≡ n
      → 4 * n ≤ got
      → Holds (a ++ q) s
      → (t : S) × (pop_header pop octets n got s ≡ (ok (joined octets a, got - 4 * n), t))
        × Holds q t
  header_at n got a q s e = rw (← e) (pop_header-queue a q got s)

  words_at :
      (n : ℕ) (b q rest : List ℕ) (s : S)
      → length b ≡ n
      → 4 * n ≤ length rest
      → Holds (b ++ q) s
      → (t : S) × (pop_words pop octets n 0 rest s ≡ (ok (joined octets b ++ drop (4 * n) rest), t))
        × Holds q t
  words_at n b q rest s e = rw (← e) (pop_words-queue b q [] rest 0 s refl)

  discard-queue :
      (q : List ℕ) (n i got : ℕ) (s : S)
      → length q ≡ (got - i + 3) / 4
      → length q ≤ n
      → Holds q s
      → (t : S) × (discard pop octets n i got s ≡ (ok tt, t)) × Holds [] t
  unfolding discard
  discard-queue [] zero i got s hq hn h = (s, rw (le→ltb_false i got (omega arith)) refl, h)
  discard-queue [] (suc n) i got s hq hn h = (s, rw (le→ltb_false i got (omega arith)) refl, h)
  discard-queue (w ∷ q) zero i got s hq hn h = elim hn [ ]
  discard-queue (w ∷ q) (suc n) i got s hq hn h =
      let (t, e, h') = hw.pops w q s h in
      let (u, f, done) = discard-queue q n (i + 4) got t (omega arith) (omega arith) h' in
      (u, rw (lt→ltb i got (omega arith)) (rw e f), done)

  no_words : (r : ℕ) → (suc r + 3) / 4 ≤ 0 → ⊥
  no_words r h = omega arith

  -- The octets behind the whole words, and what is left of the queue.
  pop_rest-queue :
      (rem i : ℕ) (front rest q : List ℕ) (s : S)
      → rem < 4
      → rem ≤ length rest
      → length front ≡ i
      → (rem + 3) / 4 ≤ length q
      → Holds q s
      → (t : S) × (pop_rest pop octets rem i (front ++ rest) s ≡ (
        ok (front ++ (take rem (joined octets q) ++ drop rem rest), i + 4 * ((rem + 3) / 4)),
        t,
      ))
        × Holds (drop ((rem + 3) / 4) q) t
  unfolding pop_rest
  pop_rest-queue zero i front rest q s h4 hr hf hq h =
      let e : i ≡ i + 4 * 0 = omega arith in (s, ap (λ (n : ℕ). (ok (front ++ rest, n), s)) e, h)
  pop_rest-queue (suc r) i front rest [] s h4 hr hf hq h = elim (no_words r hq) [ ]
  pop_rest-queue (suc r) i front rest (c ∷ q) s h4 hr hf hq h =
      let (t, e, h') = hw.pops c q s h in
      let one : (suc r + 3) / 4 ≡ 1 = omega arith in
      let x : List ℕ = take (suc r) (octets c) in
      let lx : length x ≡ suc r = omega (arith, length-take (suc r) (octets c), hw.four c) in
      let same : take (suc r) (octets c ++ joined octets q) ≡ x =
        take_front (suc r) (octets c) (joined octets q) (omega (arith, hw.four c)) in
      let stored : write_at (front ++ rest) i x ≡ some (front ++ (x ++ drop (suc r) rest)) =
        ap (λ y. write_at (front ++ y) i x) (sym (take-append-drop (suc r) rest))
        ∙ write_at-parts front (take (suc r) rest) (drop (suc r) rest) x i hf
            (omega (arith, length-take (suc r) rest)) in
      rw (one, same) (t, rw (ne→==_false (suc r) 0 (omega arith)) (rw e (rw stored refl)), h')

  body_steps :
      (hd rx1 rx2 : List ℕ) (left m i : ℕ) (rxb : RxBuf) (s t1 t2 t3 : S)
      → (if ltb rxb.size left then rxb.size else left) ≡ m
      → pop_words pop octets (m / 4) 0 rxb.block s ≡ (ok rx1, t1)
      → pop_rest pop octets (m - 4 * (m / 4)) (4 * (m / 4)) rx1 t1 ≡ (ok (rx2, i), t2)
      → discard pop octets left i left t2 ≡ (ok tt, t3)
      → receive_body pop octets hd left rxb s ≡ (ok (record { hd = hd; rx = rx2; got = m }), t3)
  unfolding receive_body
  body_steps hd rx1 rx2 left m i rxb s t1 t2 t3 least e1 e2 e3 =
      rw least (rw e1 (rw e2 (rw e3 refl)))

  receive_body-queue :
      (hd ws : List ℕ) (left : ℕ) (rxb : RxBuf) (s : S)
      → let m = min rxb.size left in
        length ws ≡ (left + 3) / 4
        → m ≤ length rxb.block
        → Holds ws s
        → (t : S) × (receive_body pop octets hd left rxb s ≡ (
          ok (record { hd = hd; rx = take m (joined octets ws) ++ drop m rxb.block; got = m }),
          t,
        ))
          × Holds [] t
  receive_body-queue hd ws left rxb s hl hb h =
      let m : ℕ = min rxb.size left in
      let k : ℕ = m / 4 in
      let rem : ℕ = m - 4 * k in
      let least : (if ltb rxb.size left then rxb.size else left) ≡ m = ground arith in
      let b : List ℕ = take k ws in
      let q : List ℕ = drop k ws in
      let lb : length b ≡ k = omega (arith, length-take k ws) in
      let lj : length (joined octets b) ≡ 4 * k = length-joined b ∙ ap (λ (n : ℕ). 4 * n) lb in
      let (t1, e1, h1) =
        words_at k b q rxb.block s lb (omega arith) (rw (take-append-drop k ws) h) in
      let (t2, e2, h2) =
        pop_rest-queue rem (4 * k) (joined octets b) (drop (4 * k) rxb.block) q t1 (omega arith)
          (omega (arith, length-drop (4 * k) rxb.block)) lj (omega (arith, length-drop k ws)) h1 in
      let (t3, e3, h3) =
        discard-queue (drop ((rem + 3) / 4) q) left (4 * k + 4 * ((rem + 3) / 4)) left t2
          (omega (arith, length-drop ((rem + 3) / 4) q, length-drop k ws))
          (omega (arith, length-drop ((rem + 3) / 4) q, length-drop k ws)) h2 in
      let words : joined octets ws ≡ joined octets b ++ joined octets q =
        ap (λ x. joined octets x) (sym (take-append-drop k ws)) ∙ joined-append b q in
      let parts : m ≡ 4 * k + rem = omega arith in
      let taken : take m (joined octets ws) ≡ joined octets b ++ take rem (joined octets q) =
        ap₂ (λ (n : ℕ) x. take n x) parts words
        ∙ take-add (4 * k) rem (joined octets b ++ joined octets q)
        ∙ ap₂ (λ x y. x ++ take rem y)
            (take-append_eq (4 * k) (joined octets b) (joined octets q) lj)
            (drop-append_eq (4 * k) (joined octets b) (joined octets q) lj) in
      let kept : drop rem (drop (4 * k) rxb.block) ≡ drop m rxb.block =
        drop-drop rem (4 * k) rxb.block ∙ ap (λ (n : ℕ). drop n rxb.block) (sym parts) in
      let shape : joined octets b
            ++ (take rem (joined octets q) ++ drop rem (drop (4 * k) rxb.block))
          ≡ take m (joined octets ws) ++ drop m rxb.block =
        sym (append_assoc (joined octets b) (take rem (joined octets q)) _)
        ∙ ap₂ ◌++◌ (sym taken) kept in
      (
        t3,
        body_steps hd _ _ left m _ rxb s t1 t2 t3 least e1 e2 e3
            ∙ ap (λ x. (ok (record { hd = hd; rx = x; got = m }), t3)) shape,
        h3,
      )

  pub receive_words-queue :
      (hsize got : ℕ) (ws : List ℕ) (rxb : RxBuf) (s : S)
      → let m = min rxb.size (got - hsize) in
        let reply = joined octets ws in
        hsize % 4 ≡ 0
        → 1 ≤ got
        → hsize ≤ got
        → length ws ≡ (got + 3) / 4
        → m ≤ length rxb.block
        → Holds ws s
        → (t : S) × (receive_words pop octets hsize got rxb s ≡ (
          ok (record {
            hd = take hsize reply;
            rx = take m (drop hsize reply) ++ drop m rxb.block;
            got = m;
          }),
          t,
        ))
          × Holds [] t
  unfolding receive_words
  receive_words-queue hsize got ws rxb s aligned some_ enough hl hb h =
      let k : ℕ = hsize / 4 in
      let a : List ℕ = take k ws in
      let q : List ℕ = drop k ws in
      let la : length a ≡ k = omega (arith, length-take k ws) in
      let lj : length (joined octets a) ≡ hsize = length-joined a ∙ omega arith in
      let (t1, e1, h1) = header_at k got a q s la (omega arith) (rw (take-append-drop k ws) h) in
      let left : got - 4 * k ≡ got - hsize = omega arith in
      let e1' : pop_header pop octets k got s ≡ (ok (joined octets a, got - hsize), t1) =
        e1 ∙ ap (λ (n : ℕ). (ok (joined octets a, n), t1)) left in
      let (t2, e2, h2) =
        receive_body-queue (joined octets a) q (got - hsize) rxb t1
          (omega (arith, length-drop k ws)) hb h1 in
      let words : joined octets ws ≡ joined octets a ++ joined octets q =
        ap (λ x. joined octets x) (sym (take-append-drop k ws)) ∙ joined-append a q in
      let front : take hsize (joined octets ws) ≡ joined octets a =
        ap (λ x. take hsize x) words
        ∙ take-append_eq hsize (joined octets a) (joined octets q) lj in
      let back : drop hsize (joined octets ws) ≡ joined octets q =
        ap (λ x. drop hsize x) words
        ∙ drop-append_eq hsize (joined octets a) (joined octets q) lj in
      (t2, rw (front, back) (rw (ne→==_false 0 got (omega arith)) (rw e1' e2)), h2)

no_less : {n : ℕ} → n < 4 * 0 → ⊥
no_less h = omega arith

-- A register that can always be read.
module _ {S : Type 0} (pop : Eff S ℕ) (octets : ℕ → List ℕ)
    (reads : (s : S) → (w : ℕ) × (t : S) × (pop s ≡ (ok w, t))) where
  header_short :
      (n got : ℕ) (s : S)
      → got < 4 * n
      → (t : S) × (pop_header pop octets n got s ≡ (err proto_err, t))
  unfolding pop_header
  header_short zero got s h = elim (no_less h) [ ]
  header_short (suc n) got s h =
      let (w, t, e) = reads s in
      elim (Bool-cases (ltb got 4)) [
        | inl short ↦ (t, rw e (rw short refl))
        | inr more ↦
            let (u, f) = header_short n (got - 4) t (omega (arith, ltb_false→le got 4 more)) in
            (u, rw e (rw more (rw f refl)))
      ]

  -- Where the reply has less octets than the header, a multiple of 4, the transfer fails by
  -- `ProtoErr`; the register can always be read.
  pub receive_words-short :
      (hsize got : ℕ) (rxb : RxBuf) (s : S)
      → hsize % 4 ≡ 0
      → got < hsize
      → (t : S) × (receive_words pop octets hsize got rxb s ≡ (err proto_err, t))
  unfolding receive_words
  receive_words-short hsize got rxb s aligned short = elim (Bool-cases (0 == got)) [
    | inl none ↦ rw none (s, refl)
    | inr some_ ↦
        let (t, e) = header_short (hsize / 4) got s (omega arith) in rw some_ (rw e (t, refl))
  ]
