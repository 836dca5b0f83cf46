-- ===== src/Conn/Flush.antt =====
-- What `flush` of xvcSrv/src/xvcConn.cc writes.
use xvc_support.Base.{
  ℕ, zero, suc, ◌+◌, ◌-◌, ◌≤◌, ◌≡◌, refl, ap, ap₂, sym, ◌∙◌, ◌⊎◌, inl, inr, List, [], ◌∷◌, ◌++◌,
  length, take, drop, ltb, ◌==◌, if◌then◌else◌, arith, All, read_at, ok, err, sys_err, Result,
  Bool-cases, ==→eq, le→leb, append_assoc, append-nil, take-add, take-append_eq, drop-drop,
  length-take, length-drop, take_of_le, eq→==, ne→==_false,
}
use xvc_support.Conn.{Conn, write_out, flush_loop, flush}
use xvc_support.Conn.Window.Moves.{above}

-- No write fails.
abbrev pub IsWritable : List ℕ → Type 0
IsWritable puts = All (λ k. 1 ≤ k) puts

-- What a call that writes leaves: the octets sent, the octets that are still to go, and whether it
-- has failed, which happens only when a write does.
abbrev pub Ends : {A D : Type 0} → (List ℕ → ℕ → Type 0) → A → Conn D → Result A × Conn D → Type 0
Ends {D = D} Done a s x =
    (ks : List ℕ) × (out : List ℕ) × (k : ℕ) × (k ≤ s.tl)
    × (IsWritable s.puts → IsWritable ks)
    × ((¬ IsWritable s.puts × (x ≡ (err sys_err, record s { puts = ks; sent = out; tl = k })))
        ⊎ (Done out k × (x ≡ (ok a, record s { puts = ks; sent = out; tl = k }))))

-- Octets that are sent in two parts.
all_sent :
    (k l p : ℕ) (mem out : List ℕ)
    → k ≤ l
    → p + l ≤ length mem
    → (out ++ take k (take l (drop p mem))) ++ take (l - k) (drop (p + k) mem)
      ≡ out ++ take l (drop p mem)
all_sent k l p mem out le room =
    let x : List ℕ = drop p mem in
    let sum : k + (l - k) ≡ l = omega arith in
    let parts : take l x ≡ take k x ++ take (l - k) (drop k x) =
      ap (λ (i : ℕ). take i x) (sym sum) ∙ take-add k (l - k) x in
    let first : take k (take l x) ≡ take k x =
      ap (take k) parts
      ∙ take-append_eq k (take k x) (take (l - k) (drop k x))
          (omega (arith, length-take k x, length-drop p mem)) in
    ap₂ (λ y z. (out ++ y) ++ take (l - k) z) first (sym (drop-drop k p mem))
    ∙ append_assoc out (take k x) (take (l - k) (drop k x))
    ∙ ap (λ y. out ++ y) (sym parts)

module _ {D : Type 0} where
  -- A write of some octets fails, or sends some of them.
  abbrev Wrote : List ℕ → Conn D → Type 0
  Wrote bs s =
      (ks : List ℕ) × (IsWritable s.puts → IsWritable ks)
      × ((¬ IsWritable s.puts × (write_out bs s ≡ (err sys_err, record s { puts = ks })))
          ⊎ ((n : ℕ) × (1 ≤ n)
              × (n ≤ length bs)
              × (write_out bs s ≡ (ok n, record s { puts = ks; sent = s.sent ++ take n bs }))))

  whole :
      (bs : List ℕ) (s : Conn D)
      → s.puts ≡ []
      → write_out bs s
        ≡ (ok (length bs), record s { puts = []; sent = s.sent ++ take (length bs) bs })
  unfolding write_out
  whole bs s e = rw e (rw (take_of_le (length bs) bs (omega arith)) refl)

  part :
      (bs : List ℕ) (s : Conn D) (k : ℕ) (ks : List ℕ)
      → s.puts ≡ k ∷ ks
      → 1 ≤ k
      → 1 ≤ length bs
      → (n : ℕ) × (1 ≤ n)
        × (n ≤ length bs)
        × (write_out bs s ≡ (ok n, record s { puts = ks; sent = s.sent ++ take n bs }))
  unfolding write_out
  part bs s k ks e some more =
      let n : ℕ = if ltb k (length bs) then k else length bs in
      let lo : 1 ≤ n = ground arith in
      let hi : n ≤ length bs = ground arith in
      (n, lo, hi, rw e (rw (ne→==_false n 0 (omega arith)) refl))

  failed :
      (bs : List ℕ) (s : Conn D) (k : ℕ) (ks : List ℕ)
      → s.puts ≡ k ∷ ks
      → k ≡ 0
      → write_out bs s ≡ (err sys_err, record s { puts = ks })
  unfolding write_out
  failed bs s k ks e z =
      let n : ℕ = if ltb k (length bs) then k else length bs in
      let none_out : n ≡ 0 = ground arith in rw e (rw (eq→== n 0 none_out) refl)

  write_out-Wrote : (bs ps : List ℕ) (s : Conn D) → s.puts ≡ ps → 1 ≤ length bs → Wrote bs s
  write_out-Wrote bs [] s e more = ([], λ w. tt, inr (length bs, more, omega arith, whole bs s e))
  write_out-Wrote bs (zero ∷ ks) s e more =
      let never : ¬ IsWritable s.puts = λ w. absurd (omega (arith, (rw e at w).0)) in
      (ks, λ w. absurd (never w), inl (never, failed bs s 0 ks e refl))
  write_out-Wrote bs (suc k ∷ ks) s e more =
      (ks, λ w. (rw e at w).1, inr (part bs s (suc k) ks e (omega arith) more))

  loop_none : (n p : ℕ) (s : Conn D) → s.tl ≡ 0 → flush_loop n p s ≡ (ok tt, s)
  unfolding flush_loop
  loop_none zero p s z = rw z refl
  loop_none (suc n) p s z = rw (eq→== s.tl 0 z) refl

  module _ (n p : ℕ) (s : Conn D) (some : 1 ≤ s.tl) (room : p + s.tl ≤ length s.txb) where
    abbrev left_over : List ℕ
    left_over = take s.tl (drop p s.txb)

    loop_failed :
        (t : Conn D)
        → write_out left_over s ≡ (err sys_err, t)
        → flush_loop (suc n) p s ≡ (err sys_err, t)
    unfolding flush_loop read_at
    loop_failed t e =
        rw (ne→==_false s.tl 0 (omega arith))
          (rw (le→leb (p + s.tl) (length s.txb) room) (rw e refl))

    loop_more :
        (k : ℕ) (t : Conn D)
        → write_out left_over s ≡ (ok k, t)
        → flush_loop (suc n) p s ≡ flush_loop n (p + k) (record t { tl = t.tl - k })
    unfolding flush_loop read_at
    loop_more k t e =
        rw (ne→==_false s.tl 0 (omega arith))
          (rw (le→leb (p + s.tl) (length s.txb) room) (rw e refl))

  -- The octets that the loop is to send.
  abbrev pub Sends : ℕ → Conn D → List ℕ → ℕ → Type 0
  Sends p s out k = (k ≡ 0) × (out ≡ s.sent ++ take s.tl (drop p s.txb))

  nothing_sent : (n p : ℕ) (s : Conn D) → s.tl ≡ 0 → Ends (Sends p s) tt s (flush_loop n p s)
  nothing_sent n p s z = (
    s.puts,
    s.sent,
    s.tl,
    omega arith,
    λ w. w,
    inr (
      (z, sym (ap (λ (i : ℕ). s.sent ++ take i (drop p s.txb)) z ∙ append-nil s.sent)),
      loop_none n p s z,
    ),
  )

  pub flush_loop_lem :
      (n p : ℕ) (s : Conn D)
      → s.tl ≤ n
      → p + s.tl ≤ length s.txb
      → Ends (Sends p s) tt s (flush_loop n p s)
  flush_loop_lem zero p s enough room = nothing_sent zero p s (omega arith)
  flush_loop_lem (suc n) p s enough room = elim (Bool-cases (s.tl == 0)) [
    | inl z ↦ nothing_sent (suc n) p s (==→eq s.tl 0 z)
    | inr h ↦
        let some : 1 ≤ s.tl = above s.tl h in
        let bs : List ℕ = take s.tl (drop p s.txb) in
        let long : length bs ≡ s.tl =
          omega (arith, length-take s.tl (drop p s.txb), length-drop p s.txb) in
        let (ks, keeps, done) = write_out-Wrote bs s.puts s refl (omega (arith, long)) in
        elim done [
          | inl (never, e) ↦
              (ks, s.sent, s.tl, omega arith, keeps, inl (never, loop_failed n p s some room _ e))
          | inr (k, lo, hi, e) ↦
              let t : Conn D = record s { puts = ks; sent = s.sent ++ take k bs; tl = s.tl - k } in
              let step : flush_loop (suc n) p s ≡ flush_loop n (p + k) t =
                loop_more n p s some room k _ e in
              let (js, out, l, fewer, kept, rest) =
                flush_loop_lem n (p + k) t (omega (arith, lo)) (omega (arith, hi, long)) in
              (
                js,
                out,
                l,
                omega arith,
                λ w. kept (keeps w),
                elim rest [
                  | inl (never, f) ↦ inl ((λ w. never (keeps w)), step ∙ f)
                  | inr ((none_left, whole_out), f) ↦ inr (
                    (
                      none_left,
                      whole_out ∙ all_sent k s.tl p s.txb s.sent (omega (arith, hi, long)) room,
                    ),
                    step ∙ f,
                  )
                ],
              )
        ]
  ]

  -- `flush` sends the reply, or fails where a write does.
  pub flush_lem :
      (s : Conn D)
      → s.tl ≤ length s.txb
      → Ends (λ out k. (k ≡ 0) × (out ≡ s.sent ++ take s.tl s.txb)) tt s (flush s)
  unfolding flush
  flush_lem s room = flush_loop_lem s.tl 0 s (omega arith) (omega (arith, room))
