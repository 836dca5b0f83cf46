-- ===== src/Mmio/Polling.antt =====
-- The loop that polls a register ends when the device is ready in time.
use xvc_support.Base.{ℕ, zero, suc, ◌<◌, ◌≡◌, refl, Bool, true, false, arith, ok, Eff}
use xvc_support.Mmio.{poll}

-- A device that is busy for a number of looks: a look at it while it is busy is not `done`, and
-- brings it one nearer to the end; then a look is `done`, and leaves `Ready`.
pub record Settles {D : Type 0} (look : Eff D ℕ) (done : ℕ → Bool) (wait : Eff D (Unit {0}))
    (busy : D → ℕ) (Busy Ready : D → Type 0) : Type 0 where
  pub idle :
      (d : D)
      → Busy d
      → busy d ≡ 0
      → (v : ℕ) × (t : D) × (look d ≡ (ok v, t)) × (done v ≡ true) × Ready t
  pub working :
      (d : D) (n : ℕ)
      → Busy d
      → busy d ≡ suc n
      → (v : ℕ) × (t : D) × (u : D) × (look d ≡ (ok v, t))
        × (done v ≡ false)
        × (wait t ≡ (ok tt, u))
        × Busy u
        × (busy u ≡ n)

pub poll_settles :
    {D : Type 0} (look : Eff D ℕ) (done : ℕ → Bool) (wait : Eff D (Unit {0})) (busy : D → ℕ)
    (Busy Ready : D → Type 0)
    → Settles look done wait busy Busy Ready
    → (n patience : ℕ) (d : D) → Busy d
    → busy d ≡ n
    → n < patience
    → (v : ℕ) × (t : D) × (poll look done wait patience d ≡ (ok v, t)) × Ready t
unfolding poll
poll_settles look done wait busy Busy Ready s n zero d b e h = elim h [ ]
poll_settles look done wait busy Busy Ready s zero (suc m) d b e h =
    let (v, t, l, fin, ready) = s.idle d b e in (v, t, rw l (rw fin refl), ready)
poll_settles look done wait busy Busy Ready s (suc n) (suc m) d b e h =
    let (v, t, u, l, more, w, b', e') = s.working d n b e in
    let (x, y, p, ready) =
      poll_settles look done wait busy Busy Ready s n m u b' e' (omega arith) in
    (x, y, rw l (rw more (rw w p)), ready)
