-- ===== src/Conn/Session/Moves.antt =====
-- `fill` and `bump` of xvcSrv/src/xvcConn.cc, seen by what the client has sent and not yet been
-- answered: what is in the window, and what is still to come.
use xvc_support.Base.{
  ℕ, zero, suc, ◌+◌, ◌-◌, ◌≤◌, ◌<◌, ◌≡◌, refl, ap, ap₂, sym, ◌∙◌, inl, inr, List, [], ◌∷◌, ◌++◌,
  length, take, drop, leb, ◌==◌, if◌then◌else◌, arith, Bool-cases, ==→eq, length-take, length-drop,
  length-append, take-add, take-append_eq, drop-append_eq, drop-drop, append_assoc,
  take-append-drop, take_of_le,
}
use xvc_support.Conn.{Conn, fill, bump}
use xvc_support.Conn.Fill.{stream, IsOpen, stored, fill_loop-Brings}
use xvc_support.Conn.Flush.{IsWritable}
use xvc_support.Conn.Safe.{leb_false→lt}
use xvc_support.Conn.Session.Total.{Returns}

pub take-append_of_le : (k : ℕ) (xs ys : List ℕ) → k ≤ length xs → take k (xs ++ ys) ≡ take k xs
take-append_of_le zero xs ys h = refl
take-append_of_le (suc k) [] ys h = elim h [ ]
take-append_of_le (suc k) (x ∷ xs) ys h = ap (λ t. x ∷ t) (take-append_of_le k xs ys (omega arith))

drop-append_of_le : (k : ℕ) (xs ys : List ℕ) → k ≤ length xs → drop k (xs ++ ys) ≡ drop k xs ++ ys
drop-append_of_le zero xs ys h = refl
drop-append_of_le (suc k) [] ys h = elim h [ ]
drop-append_of_le (suc k) (x ∷ xs) ys h = drop-append_of_le k xs ys (omega arith)

drop-take : (n k : ℕ) (xs : List ℕ) → drop n (take k xs) ≡ take (k - n) (drop n xs)
drop-take zero k xs = ap (λ (j : ℕ). take j xs) (omega arith)
drop-take (suc n) zero xs =
    ap (λ (j : ℕ). take j (drop (suc n) xs)) (let z : 0 ≡ 0 - suc n = omega arith in z)
drop-take (suc n) (suc k) [] = sym (take_of_le (suc k - suc n) [] (omega arith))
drop-take (suc n) (suc k) (x ∷ xs) =
    drop-take n k xs ∙ ap (λ (j : ℕ). take j (drop n xs)) (omega arith)

-- A part of what stands in front.
pub part-append :
    (a k : ℕ) (xs ys : List ℕ) → a + k ≤ length xs → take k (drop a (xs ++ ys)) ≡ take k (drop a xs)
part-append zero k xs ys h = take-append_of_le k xs ys (omega arith)
part-append (suc a) k [] ys h = absurd (omega arith)
part-append (suc a) k (x ∷ xs) ys h = part-append a k xs ys (omega arith)

-- `n` octets, if there are less.
abbrev pub at_least : ℕ → ℕ → ℕ
at_least n left = if leb n left then left else n

pub window_stored :
    (mem bs : List ℕ) (rp rl : ℕ)
    → rp + rl ≤ length mem
    → take (rl + length bs) (drop rp (stored mem (rp + rl) bs)) ≡ take rl (drop rp mem) ++ bs
window_stored mem bs rp rl h =
    let a : List ℕ = take rp mem in
    let w : List ℕ = take rl (drop rp mem) in
    let r : List ℕ = drop (rp + rl + length bs) mem in
    let la : length a ≡ rp = omega (arith, length-take rp mem) in
    let lw : length (w ++ bs) ≡ rl + length bs =
      omega (arith, length-append {0} w bs, length-take rl (drop rp mem), length-drop rp mem) in
    let shape : stored mem (rp + rl) bs ≡ a ++ ((w ++ bs) ++ r) =
      ap (λ x. x ++ (bs ++ r)) (take-add rp rl mem)
      ∙ append_assoc a w (bs ++ r)
      ∙ ap (λ x. a ++ x) (sym (append_assoc w bs r)) in
    ap (λ x. take (rl + length bs) (drop rp x)) shape
    ∙ ap (take (rl + length bs)) (drop-append_eq rp a ((w ++ bs) ++ r) la)
    ∙ take-append_eq (rl + length bs) (w ++ bs) r lw

-- What the client has sent and is to be handled, what it was sent, the reply that is ready, the
-- octets in the window, the size of the pieces, and the driver; no write to come fails.
pub record Sees {D : Type 0} (inp out rep : List ℕ) (left sup : ℕ) (d : D) (s : Conn D)
    : Type 0 where
  pub input_is : take s.rl (drop s.rp s.rxb) ++ stream s.net ≡ inp
  pub sent_is : s.sent ≡ out
  pub puts_are : IsWritable s.puts
  pub reply_is : take s.tl s.txb ≡ rep
  pub left_is : s.rl ≡ left
  pub sup_is : s.sup_vec_len ≡ sup
  pub drv_is : s.drv ≡ d
  pub is_open : IsOpen s.net

module _ {D : Type 0} {inp out rep : List ℕ} {left sup : ℕ} {d : D} where
  -- `fill` moves octets into the window.
  pub fill-Sees :
      (n : ℕ) (s : Conn D)
      → s.rp + n ≤ length s.rxb
      → s.rp + s.rl ≤ length s.rxb
      → n ≤ length inp
      → Sees inp out rep left sup d s
      → Returns (λ _ t. Sees inp out rep (at_least n left) sup d t) (fill n s)
  unfolding fill
  fill-Sees n s room fits enough v = elim (Bool-cases (leb n s.rl)) [
    | inl h ↦
        let same : at_least n left ≡ s.rl = rw (← v.left_is) (rw h refl) in
        rw h (record {
          input_is = v.input_is;
          sent_is = v.sent_is;
          puts_are = v.puts_are;
          reply_is = v.reply_is;
          left_is = sym same;
          sup_is = v.sup_is;
          drv_is = v.drv_is;
          is_open = v.is_open;
        })
    | inr h ↦
        let k : ℕ = n - s.rl in
        let less : s.rl < n = leb_false→lt n s.rl h in
        let size : length (stream s.net) + s.rl ≡ length inp = omega (
          arith,
          ap length v.input_is,
          length-append {0} (take s.rl (drop s.rp s.rxb)) (stream s.net),
          length-take s.rl (drop s.rp s.rxb),
          length-drop s.rp s.rxb,
        ) in
        let (net, e, rest, open_) =
          fill_loop-Brings k (s.rp + s.rl) k s (omega arith) v.is_open (omega arith)
            (omega arith) in
        let bs : List ℕ = take k (stream s.net) in
        let long : length bs ≡ k = omega (arith, length-take k (stream s.net)) in
        let n_is : s.rl + length bs ≡ n = omega (arith, long) in
        let same : at_least n left ≡ n = rw (← v.left_is) (rw h refl) in
        rw h (
          rw e (record {
            input_is =
                ap₂ (λ (x : ℕ) y. take x (drop s.rp (stored s.rxb (s.rp + s.rl) bs)) ++ y)
                  (sym n_is) rest
                ∙ ap (λ x. x ++ drop k (stream s.net)) (window_stored s.rxb bs s.rp s.rl fits)
                ∙ append_assoc (take s.rl (drop s.rp s.rxb)) bs (drop k (stream s.net))
                ∙ ap (λ x. take s.rl (drop s.rp s.rxb) ++ x) (take-append-drop k (stream s.net))
                ∙ v.input_is;
            sent_is = v.sent_is;
            puts_are = v.puts_are;
            reply_is = v.reply_is;
            left_is = sym same;
            sup_is = v.sup_is;
            drv_is = v.drv_is;
            is_open = open_;
          }))
  ]

  -- What is read is what the client sent.
  pub peek-Sees :
      (a k : ℕ) (s : Conn D)
      → s.rp + s.rl ≤ length s.rxb
      → a + k ≤ s.rl
      → Sees inp out rep left sup d s
      → take k (drop (s.rp + a) s.rxb) ≡ take k (drop a inp)
  peek-Sees a k s fits h v =
      let x : List ℕ = drop s.rp s.rxb in
      let w : List ℕ = take s.rl x in
      let lw : length w ≡ s.rl = omega (arith, length-take s.rl x, length-drop s.rp s.rxb) in
      ap (take k) (sym (drop-drop a s.rp s.rxb))
      ∙ ap (λ y. take k (drop a y)) (sym (take-append-drop s.rl x))
      ∙ part-append a k w (drop s.rl x) (omega (arith, lw))
      ∙ sym (part-append a k w (stream s.net) (omega (arith, lw)))
      ∙ ap (λ y. take k (drop a y)) v.input_is

  pub bump-Sees :
      (n : ℕ) (s : Conn D)
      → s.rp + s.rl ≤ length s.rxb
      → n ≤ s.rl
      → Sees inp out rep left sup d s
      → Returns (λ _ t. Sees (drop n inp) out rep (left - n) sup d t) (bump n s)
  unfolding bump
  bump-Sees n s fits h v =
      let x : List ℕ = drop s.rp s.rxb in
      let w : List ℕ = take s.rl x in
      let lw : length w ≡ s.rl = omega (arith, length-take s.rl x, length-drop s.rp s.rxb) in
      elim (Bool-cases (s.rl - n == 0)) [
        | inl z ↦
            let none_left : s.rl - n ≡ 0 = ==→eq (s.rl - n) 0 z in
            rw z (record {
              input_is =
                  ap (λ (k : ℕ). take k s.rxb ++ stream s.net) none_left
                  ∙ sym (drop-append_eq n w (stream s.net) (omega (arith, lw)))
                  ∙ ap (drop n) v.input_is;
              sent_is = v.sent_is;
              puts_are = v.puts_are;
              reply_is = v.reply_is;
              left_is = ap (λ (k : ℕ). k - n) v.left_is;
              sup_is = v.sup_is;
              drv_is = v.drv_is;
              is_open = v.is_open;
            })
        | inr z ↦ rw z (record {
          input_is =
              ap (λ y. take (s.rl - n) y ++ stream s.net) (sym (drop-drop n s.rp s.rxb))
              ∙ ap (λ y. y ++ stream s.net) (sym (drop-take n s.rl x))
              ∙ sym (drop-append_of_le n w (stream s.net) (omega (arith, lw)))
              ∙ ap (drop n) v.input_is;
          sent_is = v.sent_is;
          puts_are = v.puts_are;
          reply_is = v.reply_is;
          left_is = ap (λ (k : ℕ). k - n) v.left_is;
          sup_is = v.sup_is;
          drv_is = v.drv_is;
          is_open = v.is_open;
        })
      ]
