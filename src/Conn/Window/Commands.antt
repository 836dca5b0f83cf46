-- ===== src/Conn/Window/Commands.antt =====
-- The commands of xvcSrv/src/xvcConn.cc: no access leaves the blocks that `allocBufs` reserves.
use xvc_support.Base.{
  ℕ, zero, suc, ◌+◌, ◌*◌, ◌^◌, ◌≤◌, ◌<◌, ◌≡◌, refl, ap, inl, inr, List, [], ◌∷◌, length-append,
  ◌++◌, length, take, drop, leb, ltb, ◌==◌, if◌then◌else◌, of_le, of_le-lt, to_le, length-to_le,
  throw, proto_err, arith, IsBytes-take, IsBytes-drop, length-take, length-drop, Bool-cases, ltb→lt,
  ltb_false→le, ==→eq,
}
use xvc_support.Conn.{
  Driver, Conn, send_pieces, fill, bump, flush, shift, set_tck, get_info, command, commands,
  vector_bytes,
}
use xvc_support.Conn.Safe.{Safe, Safe-bind, Safe-read, Safe-write, Safe-guard, Safe-drive, leb→le}
use xvc_support.Conn.Limits.{agreed}
use xvc_support.Conn.Flush.{flush_lem}
use xvc_support.Conn.Window.{IsWindow, with_reply, with_drv, with_sent}
use xvc_support.Conn.Window.Moves.{IsBefore, IsFilled, IsDone, widen, fill-Safe, bump-Safe}
use xvc_support.Conn.Window.Pieces.{IsKeeper, Works, Fits, send_pieces-Safe}

vector_bytes-Fits :
    (bits vec_len : ℕ)
    → bits < 2 ^ 32
    → vec_len ≤ vector_bytes bits
    → (8 * vector_bytes bits < 2 ^ 32) × Fits (vector_bytes bits) vec_len 0 bits
unfolding vector_bytes
vector_bytes-Fits bits vec_len h small = elim (Bool-cases (ltb (bits + 7) (2 ^ 32))) [
  | inl l ↦
      let q : bits + 7 < 2 ^ 32 = ltb→lt (bits + 7) (2 ^ 32) l in
      (omega arith, inr (inr (omega arith)))
  | inr l ↦
      let q : 2 ^ 32 ≤ bits + 7 = ltb_false→le (bits + 7) (2 ^ 32) l in
      (omega arith, inr (inl (omega arith)))
]

shorter : (bytes sup : ℕ) → (if ltb sup bytes then sup else bytes) ≤ bytes
shorter bytes sup = ground arith

shorter_or :
    (bytes sup : ℕ) {limit : ℕ} → sup ≤ limit → (if ltb sup bytes then sup else bytes) ≤ limit
shorter_or bytes sup h = ground arith

module _ {D : Type 0} (limit m : ℕ) (Inv : D → Type 0) (api : Driver D)
    (keeper : IsKeeper limit m Inv api) where
  set_tck-Safe :
      (s : Conn D)
      → IsBefore (Works limit Inv) m 11 s
      → Safe (λ _ t. IsDone (Works limit Inv) m t) (set_tck api s)
  unfolding set_tck
  set_tck-Safe s b =
      Safe-bind (λ _ t. IsFilled (Works limit Inv) m 11 t) (λ _ t. IsDone (Works limit Inv) m t)
        (fill 11 s) _ (fill-Safe (Works limit Inv) m 11 s (omega arith) b)
        (λ u t (c, full).
          Safe-read (λ _ t. IsDone (Works limit Inv) m t) t t.rxb (t.rp + 7) 4 _
            (omega (arith, c.window.rx_size, c.window.rp_is, c.low))
            (Safe-drive (λ n d. Inv d) (λ _ t. IsDone (Works limit Inv) m t)
              (api.set_period_ns (of_le (take 4 (drop (t.rp + 7) t.rxb)))) t _
              (keeper.on_period _ t.drv c.window.kept.0)
              (λ period d v.
                Safe-write (λ _ t. IsDone (Works limit Inv) m t) (record t { drv = d }) t.txb
                  (to_le 4 period) 0 _ (omega (arith, length-to_le 4 period, c.window.tx_size))
                  (λ mem size bytes. bump-Safe (Works limit Inv) m 11 _ (
                    record {
                      rp = c.rp;
                      rl = c.rl;
                      window =
                          with_reply m (record t { drv = d }) mem 4
                            (with_drv m t d c.window (v, c.window.kept.1)) size (omega arith);
                      low = c.low;
                      near = c.near;
                    },
                    full,
                  )))))

  shift-Safe :
      (s : Conn D)
      → IsBefore (Works limit Inv) m 10 s
      → Safe (λ _ t. IsDone (Works limit Inv) m t) (shift api s)
  unfolding shift
  shift-Safe s b =
      Safe-bind (λ _ t. IsFilled (Works limit Inv) m 10 t) (λ _ t. IsDone (Works limit Inv) m t)
        (fill 10 s) _ (fill-Safe (Works limit Inv) m 10 s (omega arith) b)
        (λ u t (c, full).
          Safe-read (λ _ t. IsDone (Works limit Inv) m t) t t.rxb (t.rp + 6) 4 _
            (omega (arith, c.window.rx_size, c.window.rp_is, c.low))
            (let num : List ℕ = take 4 (drop (t.rp + 6) t.rxb) in
              let bits : ℕ = of_le num in
              let bytes : ℕ = vector_bytes bits in
              let long : length num ≡ 4 = omega (
                arith,
                length-take 4 (drop (t.rp + 6) t.rxb),
                length-drop (t.rp + 6) t.rxb,
                c.window.rx_size,
                c.window.rp_is,
                c.low,
              ) in
              let small : bits < 2 ^ 32 = rw long at (
                of_le-lt num (
                  IsBytes-take 4 (drop (t.rp + 6) t.rxb)
                    (IsBytes-drop (t.rp + 6) t.rxb c.window.rx_bytes))) in
              Safe-guard (λ _ t. IsDone (Works limit Inv) m t) t (leb bytes t.max_vec_len) _
                (λ short.
                  let fit : bytes ≤ m =
                    omega (arith, leb→le bytes t.max_vec_len short, c.window.max_is) in
                  Safe-bind (λ _ t. IsDone (Works limit Inv) m t)
                    (λ _ t. IsDone (Works limit Inv) m t) (bump 10 t) _
                    (bump-Safe (Works limit Inv) m 10 t (c, full))
                    (λ v x e.
                      Safe-bind (λ _ t. IsFilled (Works limit Inv) m (2 * bytes) t)
                        (λ _ t. IsDone (Works limit Inv) m t) (fill (2 * bytes) x) _
                        (fill-Safe (Works limit Inv) m (2 * bytes) x (omega arith)
                          (widen (Works limit Inv) m 0 (2 * bytes) x (omega arith) e.0))
                        (λ v2 y (g, full2).
                          let vec_len : ℕ =
                            if ltb t.sup_vec_len bytes then t.sup_vec_len else bytes in
                          let (wide, fits) =
                            vector_bytes-Fits bits vec_len small (shorter bytes t.sup_vec_len) in
                          Safe-bind (λ _ t. IsWindow (Works limit Inv) m g.rp g.rl t)
                            (λ _ t. IsDone (Works limit Inv) m t)
                            (send_pieces api bits bytes vec_len 0 bits y) _
                            (send_pieces-Safe limit m Inv api keeper bits bytes vec_len 0 bits g.rp
                              g.rl y (omega (arith, g.low)) fit (shorter bytes t.sup_vec_len) wide
                              fits (shorter_or bytes t.sup_vec_len c.window.kept.1) g.window)
                            (λ v3 z w.
                              bump-Safe (Works limit Inv) m (2 * bytes) (record z { tl = bytes })
                                (
                                  record {
                                    rp = g.rp;
                                    rl = g.rl;
                                    window = with_reply m z z.txb bytes w refl (omega arith);
                                    low = g.low;
                                    near = g.near;
                                  },
                                  full2,
                                )))))))

module _ {D : Type 0} (limit m : ℕ) (Inv : D → Type 0) (api : Driver D)
    (keeper : IsKeeper limit m Inv api) (greeting : ℕ → List ℕ)
    (fits : length (greeting m) < m + 128) where
  get_info-Safe :
      (s : Conn D)
      → IsBefore (Works limit Inv) m 8 s
      → Safe (λ _ t. IsDone (Works limit Inv) m t) (get_info api greeting s)
  unfolding get_info
  get_info-Safe s b =
      Safe-bind (λ _ t. IsFilled (Works limit Inv) m 8 t) (λ _ t. IsDone (Works limit Inv) m t)
        (fill 8 s) _ (fill-Safe (Works limit Inv) m 8 s (omega arith) b)
        (λ u t (c, full).
          Safe-drive (λ n d. Inv d × (agreed m n (api.get_max_vector_size d) ≤ limit))
            (λ _ t. IsDone (Works limit Inv) m t) api.query t _
            (keeper.on_query t.drv c.window.kept.0)
            (λ n d v.
              let text : List ℕ = greeting t.max_vec_len in
              let same : length text ≡ length (greeting m) =
                ap (λ (x : ℕ). length (greeting x)) c.window.max_is in
              let long : length text < m + 128 = omega (arith, same) in
              Safe-write (λ _ t. IsDone (Works limit Inv) m t) (record t { drv = d }) t.txb
                (text ++ (0 ∷ [])) 0 _
                (omega (arith, c.window.tx_size, long, length-append {0} text (0 ∷ [])))
                (λ mem size bytes. bump-Safe (Works limit Inv) m 8 _ (
                  record {
                    rp = c.rp;
                    rl = c.rl;
                    window =
                        with_reply m (record t { drv = d }) mem (length text)
                          (with_drv m t d c.window (v.0, c.window.kept.1)) size
                          (omega (arith, long));
                    low = c.low;
                    near = c.near;
                  },
                  full,
                ))))

  flush-Safe :
      (s : Conn D)
      → IsDone (Works limit Inv) m s
      → Safe (λ _ t. IsDone (Works limit Inv) m t) (flush s)
  flush-Safe s (b, start) =
      let w = b.window in
      let (ks, out, k, le, _, ends) = flush_lem s (omega (arith, w.reply_le, w.tx_size)) in
      elim ends [
        | inl (_, e) ↦ rw e tt
        | inr (_, e) ↦ rw e (
          record {
            rp = b.rp;
            rl = b.rl;
            low = b.low;
            near = b.near;
            window = with_sent m s ks out k w le;
          },
          start,
        )
      ]

  on_word :
      (word : ℕ) (t : Conn D)
      → IsBefore (Works limit Inv) m 2 t
      → Safe
          (λ _ t. IsDone (Works limit Inv) m t)
          ((if word == 0x6567
              then get_info api greeting
              else if word == 0x6573
              then set_tck api
              else if word == 0x6873
              then shift api
              else throw proto_err)
            t)
  on_word word t b = elim (Bool-cases (word == 0x6567)) [
    | inl h ↦ rw h (get_info-Safe t (widen (Works limit Inv) m 2 8 t (omega arith) b))
    | inr h ↦ elim (Bool-cases (word == 0x6573)) [
      | inl i ↦
          rw (h, i)
            (set_tck-Safe limit m Inv api keeper t
              (widen (Works limit Inv) m 2 11 t (omega arith) b))
      | inr i ↦ elim (Bool-cases (word == 0x6873)) [
        | inl j ↦
            rw (h, i, j)
              (shift-Safe limit m Inv api keeper t
                (widen (Works limit Inv) m 2 10 t (omega arith) b))
        | inr j ↦ rw (h, i, j) tt
      ]
    ]
  ]

  command-Safe :
      (s : Conn D)
      → IsBefore (Works limit Inv) m 2 s
      → Safe (λ _ t. IsDone (Works limit Inv) m t) (command api greeting s)
  unfolding command
  command-Safe s b =
      Safe-bind (λ _ t. IsFilled (Works limit Inv) m 2 t) (λ _ t. IsDone (Works limit Inv) m t)
        (fill 2 s) _ (fill-Safe (Works limit Inv) m 2 s (omega arith) b)
        (λ u t (c, full).
          Safe-read (λ _ t. IsDone (Works limit Inv) m t) t t.rxb t.rp 2 _
            (omega (arith, c.window.rx_size, c.window.rp_is, c.low))
            (Safe-bind (λ _ t. IsDone (Works limit Inv) m t) (λ _ t. IsDone (Works limit Inv) m t) _
              _ (on_word (of_le (take 2 (drop t.rp t.rxb))) t c) (λ v x d. flush-Safe x d)))

  pub commands-Safe :
      (n : ℕ) (s : Conn D)
      → IsBefore (Works limit Inv) m 0 s
      → Safe (λ _ t. IsDone (Works limit Inv) m t × (t.rl ≡ 0)) (commands api greeting n s)
  unfolding commands
  commands-Safe zero s b = tt
  commands-Safe (suc n) s b =
      Safe-bind (λ _ t. IsDone (Works limit Inv) m t)
        (λ _ t. IsDone (Works limit Inv) m t × (t.rl ≡ 0)) (command api greeting s) _
        (command-Safe s (widen (Works limit Inv) m 0 2 s (omega arith) b))
        (λ u t d. elim (Bool-cases (t.rl == 0)) [
          | inl h ↦ rw h (d, ==→eq t.rl 0 h)
          | inr h ↦ rw h (commands-Safe n t d.0)
        ])
