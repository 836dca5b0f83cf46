-- ===== src/Conn/Window/Moves.antt =====
-- `read`, `fill` and `bump` of xvcSrv/src/xvcConn.cc move the window within its block.
use xvc_support.Base.{
  ℕ, zero, suc, ◌+◌, ◌-◌, ◌*◌, ◌≤◌, ◌<◌, ◌≡◌, refl, ◌⊎◌, inl, inr, false, List, [], ◌∷◌, length,
  drop, leb, ◌==◌, arith, All, IsBytes, IsBytes-take, IsBytes-drop, length-take, Bool-cases, ==→eq,
}
use xvc_support.Conn.{Conn, read, fill_loop, fill, bump}
use xvc_support.Conn.Safe.{Safe, Safe-bind, Safe-write, leb→le, leb_false→lt}
use xvc_support.Conn.Window.{IsWindow, with_net, with_rxb, with_place}

pub above : (n : ℕ) → (n == 0) ≡ false → 1 ≤ n
above n h = ground arith

module _ {D : Type 0} (P : D → ℕ → Type 0) (m : ℕ) where
  abbrev pub Got : ℕ → ℕ → ℕ → List ℕ → Conn D → Type 0
  Got k rp rl bs t = (length bs ≤ k) × (IsBytes bs × IsWindow P m rp rl t)

  pub read-Safe :
      (segs : List (List ℕ)) (k rp rl : ℕ) (s : Conn D)
      → s.net ≡ segs
      → IsWindow P m rp rl s
      → Safe (Got k rp rl) (read k s)
  unfolding read
  read-Safe [] k rp rl s e w = rw e tt
  read-Safe (seg ∷ segs) k rp rl s e w =
      let b : All IsBytes (seg ∷ segs) = rw e at w.net_bytes in
      elim (Bool-cases (length seg == 0)) [
        | inl z ↦ rw (e, z) tt
        | inr z ↦ elim (Bool-cases (leb (length seg) k)) [
          | inl h ↦ rw (e, z, h) (leb→le (length seg) k h, (b.0, with_net m s segs w b.1))
          | inr h ↦
              rw (e, z, h)
                (
                  omega (arith, length-take k seg),
                  (
                    IsBytes-take k seg b.0,
                    with_net m s (drop k seg ∷ segs) w (IsBytes-drop k seg b.0, b.1),
                  ),
                )
        ]
      ]

  fill_loop-Safe :
      (n p k rp rl : ℕ) (s : Conn D)
      → p + k ≤ 2 * (2 * m + 128)
      → IsWindow P m rp rl s
      → Safe (λ _ t. IsWindow P m rp rl t) (fill_loop n p k s)
  unfolding fill_loop
  fill_loop-Safe zero p k rp rl s h w = elim (Bool-cases (k == 0)) [
    | inl z ↦ rw z w
    | inr z ↦ rw z tt
  ]
  fill_loop-Safe (suc n) p k rp rl s h w = elim (Bool-cases (k == 0)) [
    | inl z ↦ rw z w
    | inr z ↦ rw z (
        Safe-bind (Got k rp rl) (λ _ t. IsWindow P m rp rl t) (read k s) _
          (read-Safe s.net k rp rl s refl w)
          (λ bs t g.
            Safe-write (λ _ t. IsWindow P m rp rl t) t t.rxb bs p _
              (omega (arith, g.0, g.1.1.rx_size))
              (λ mem size bytes.
                fill_loop-Safe n (p + length bs) (k - length bs) rp rl (record t { rxb = mem })
                  (omega (arith, g.0)) (with_rxb m t mem g.1.1 size (bytes g.1.1.rx_bytes g.1.0)))))
  ]

  -- The window before `n` octets are taken: they fit, as do the octets that it has.
  pub record IsBefore (n : ℕ) (s : Conn D) : Type 0 where
    pub rp : ℕ
    pub rl : ℕ
    pub window : IsWindow P m rp rl s
    pub low : rp ≤ 2 * m + 128
    pub near : (rl ≤ n) ⊎ (rp + rl ≤ 2 * m + 128)

  -- A window that more octets may be asked of.
  pub widen : (a b : ℕ) (s : Conn D) → a ≤ b → IsBefore a s → IsBefore b s
  widen a b s h w = record {
    rp = w.rp;
    rl = w.rl;
    window = w.window;
    low = w.low;
    near = elim w.near [ inl q ↦ inl (omega arith) | inr q ↦ inr q ];
  }

  abbrev pub IsFilled : ℕ → Conn D → Type 0
  IsFilled n t = (b : IsBefore n t) × (n ≤ b.rl)

  pub fill-Safe :
      (n : ℕ) (s : Conn D) → n ≤ 2 * m + 128 → IsBefore n s → Safe (λ _ t. IsFilled n t) (fill n s)
  unfolding fill
  fill-Safe n s small b =
      let w = b.window in
      elim (Bool-cases (leb n s.rl)) [
        | inl h ↦ rw h (b, omega (arith, leb→le n s.rl h, w.rl_is))
        | inr h ↦ rw h (
            Safe-bind (λ _ t. IsWindow P m b.rp b.rl t) (λ _ t. IsFilled n t)
              (fill_loop (n - s.rl) (s.rp + s.rl) (n - s.rl) s) _
              (fill_loop-Safe (n - s.rl) (s.rp + s.rl) (n - s.rl) b.rp b.rl s
                (omega (arith, leb_false→lt n s.rl h, w.rp_is, w.rl_is, b.low)) w)
              (λ u t v. (
                record {
                  rp = b.rp;
                  rl = n;
                  window = with_place m t t.rp n b.rp n v v.rp_is refl;
                  low = b.low;
                  near = inl (omega arith);
                },
                omega arith,
              )))
      ]

  -- What an operation leaves; a window without octets is at the front of its block.
  abbrev pub IsDone : Conn D → Type 0
  IsDone t = IsBefore 0 t × (t.rl ≡ 0 → t.rp ≡ 0)

  pub bump-Safe : (n : ℕ) (s : Conn D) → IsFilled n s → Safe (λ _ t. IsDone t) (bump n s)
  unfolding bump
  bump-Safe n s (b, full) = elim (Bool-cases (s.rl - n == 0)) [
    | inl z ↦ rw z (
      (record {
        rp = 0;
        rl = 0;
        window = with_place m s 0 (s.rl - n) 0 0 b.window refl (==→eq (s.rl - n) 0 z);
        low = omega arith;
        near = inl (omega arith);
      }),
      λ q. refl,
    )
    | inr z ↦
        let more : n < b.rl = omega (arith, above (s.rl - n) z, b.window.rl_is) in
        let whole : b.rp + b.rl ≤ 2 * m + 128 = elim b.near [ inl q ↦ omega arith | inr q ↦ q ] in
        rw z (
          (record {
            rp = b.rp + n;
            rl = b.rl - n;
            window =
                with_place m s (s.rp + n) (s.rl - n) (b.rp + n) (b.rl - n) b.window
                  (omega (arith, b.window.rp_is)) (omega (arith, b.window.rl_is));
            low = omega arith;
            near = inr (omega arith);
          }),
          λ q. omega (arith, above (s.rl - n) z),
        )
  ]
