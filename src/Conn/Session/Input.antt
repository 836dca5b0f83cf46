-- ===== src/Conn/Session/Input.antt =====
-- `fill` and `bump` of xvcSrv/src/xvcConn.cc on what a client sends.
use xvc_support.Base.{ℕ, ◌+◌, ◌-◌, ◌*◌, ◌≤◌, ◌≡◌, refl, inl, inr, List, length, take, drop, arith}
use xvc_support.Conn.{Conn, fill, bump}
use xvc_support.Conn.Window.{Any, with_reply, with_drv}
use xvc_support.Conn.Window.Moves.{IsBefore, IsFilled, IsDone, fill-Safe, bump-Safe}
use xvc_support.Conn.Session.Total.{Returns, Returns-Safe}
use xvc_support.Conn.Session.Moves.{at_least, Sees, fill-Sees, bump-Sees}

module _ {D : Type 0} (m : ℕ) where
  abbrev pub Before : ℕ → List ℕ → List ℕ → List ℕ → ℕ → ℕ → D → Conn D → Type 0
  Before n inp out rep left sup d s = IsBefore Any m n s × Sees inp out rep left sup d s

  abbrev pub Filled : ℕ → List ℕ → List ℕ → List ℕ → ℕ → ℕ → D → Conn D → Type 0
  Filled n inp out rep left sup d s = IsFilled Any m n s × Sees inp out rep left sup d s

  abbrev pub Done : List ℕ → List ℕ → List ℕ → ℕ → ℕ → D → Conn D → Type 0
  Done inp out rep left sup d s = IsDone Any m s × Sees inp out rep left sup d s

  pub in_block :
      (n : ℕ) (s : Conn D) → n ≤ 2 * m + 128 → IsBefore Any m n s → s.rp + s.rl ≤ length s.rxb
  in_block n s small b = elim b.near [
    | inl q ↦ omega (arith, b.low, b.window.rx_size, b.window.rp_is, b.window.rl_is)
    | inr q ↦ omega (arith, b.window.rx_size, b.window.rp_is, b.window.rl_is)
  ]

  module _ {inp out rep : List ℕ} {left sup : ℕ} {d : D} where
    pub fill_total :
        (n : ℕ) (s : Conn D)
        → n ≤ 2 * m + 128
        → n ≤ length inp
        → Before n inp out rep left sup d s
        → Returns (λ _ t. Filled n inp out rep (at_least n left) sup d t) (fill n s)
    fill_total n s small enough (b, v) =
        Returns-Safe (λ _ t. Sees inp out rep (at_least n left) sup d t) (λ _ t. IsFilled Any m n t)
          (fill n s)
          (fill-Sees n s (omega (arith, b.low, b.window.rx_size, b.window.rp_is))
            (in_block n s small b) enough v)
          (fill-Safe Any m n s small b)

    pub bump_total :
        (n : ℕ) (s : Conn D)
        → n ≤ 2 * m + 128
        → Filled n inp out rep left sup d s
        → Returns (λ _ t. Done (drop n inp) out rep (left - n) sup d t) (bump n s)
    bump_total n s small ((b, full), v) =
        Returns-Safe (λ _ t. Sees (drop n inp) out rep (left - n) sup d t) (λ _ t. IsDone Any m t)
          (bump n s) (bump-Sees n s (in_block n s small b) (omega (arith, full, b.window.rl_is)) v)
          (bump-Safe Any m n s (b, full))

    -- A reply is put into the block.
    pub replied :
        (n k : ℕ) (s : Conn D) (d' : D) (mem rep' : List ℕ)
        → length mem ≡ length s.txb
        → k ≤ m + 128
        → take k mem ≡ rep'
        → Filled n inp out rep left sup d s
        → Filled n inp out rep' left sup d' (record s { drv = d'; txb = mem; tl = k })
    replied n k s d' mem rep' size small e ((b, full), v) = (
      (
        record {
          rp = b.rp;
          rl = b.rl;
          window =
              with_reply m (record s { drv = d' }) mem k (with_drv m s d' b.window tt) size small;
          low = b.low;
          near = b.near;
        },
        full,
      ),
      record {
        input_is = v.input_is;
        sent_is = v.sent_is;
        puts_are = v.puts_are;
        reply_is = e;
        left_is = v.left_is;
        sup_is = v.sup_is;
        drv_is = refl;
        is_open = v.is_open;
      },
    )

pub taken : (n left : ℕ) → at_least n left - n ≡ left - n
taken n left = ground arith
