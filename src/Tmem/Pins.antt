-- ===== src/Tmem/Pins.antt =====
-- Bit-banging: `xfer32bb` of xvcSrv/src/xvcDrvAxisTmem.cc sets the pins of the JTAG port one after
-- the other, and so clocks the target bit by bit.
use xvc_support.Base.{
  ℕ, zero, suc, ◌+◌, ◌*◌, ◌/◌, ◌%◌, ◌^◌, ◌≤◌, ◌<◌, ◌≡◌, refl, ap, ap₂, sym, ◌∙◌, Bool, true, false,
  bit_and, bit_or, arith, ◌==◌, not, if◌then◌else◌, u32, sub32, ok, eq→==, ne→==_false, Bool-cases,
  inl, inr,
}
use native.Mathlib.Decide.{ℕ_discrete}
use native.Mathlib.Nat.{pow-suc, one-le-pow, pow-le-pow_right, div-div-eq-div-mul}
use xvc_support.Base.Bits.{and_high, and_low, or_comm_parts}
use xvc_support.Base.Bits.Single.{bit_of, bit_of-and, bit_of-or, bit_of-lt}
use xvc_support.Serial.{serial, to_bit}
use xvc_support.Mmio.{Device}
use xvc_support.Tmem.{
  sdes_csr_idx, sdes_csr_bbmsk, sdes_csr_bb_tck, sdes_csr_bb_tms, sdes_csr_bb_tdi, sdes_csr_bb_tdo,
  clear_bits, copy_bit, bb_loop, xfer32bb, log_level,
}

-- The pins, as the bits of the control register that was written last, and the target behind them.
pub record Port (J : Type 0) : Type 0 where
  pub csr : ℕ
  pub target : J

-- A device whose control register drives the pins while it is enabled (bit 31): a rising edge of
-- TCK (bit 16) clocks the target with TMS (bit 17) and TDI (bit 18); bit 19 reads TDO.
pub record IsPort {D J : Type 0} (clock : ℕ → ℕ → J → Bool × J) (dev : Device D) (view : D → Port J)
    : Type 0 where
  pub wr_low :
      (v : ℕ) (d : D)
      → bit_of 31 v ≡ 1
      → bit_of 16 v ≡ 0
      → view (dev.wr sdes_csr_idx v d) ≡ record (view d) { csr = v }
  pub wr_edge :
      (v : ℕ) (d : D)
      → bit_of 31 v ≡ 1
      → bit_of 16 (view d).csr ≡ 0
      → bit_of 16 v ≡ 1
      → view (dev.wr sdes_csr_idx v d)
        ≡ record { csr = v; target = (clock (bit_of 17 v) (bit_of 18 v) (view d).target).1 }
  pub rd_tdo :
      (d : D)
      → let p = view d in
        bit_of 19 (dev.rd sdes_csr_idx d).0
        ≡ to_bit (clock (bit_of 17 p.csr) (bit_of 18 p.csr) p.target).0
  pub rd_enable : (d : D) → bit_of 31 (dev.rd sdes_csr_idx d).0 ≡ bit_of 31 (view d).csr
  pub rd_view : (d : D) → view (dev.rd sdes_csr_idx d).1 ≡ view d

half_shift : (w i : ℕ) → w / 2 ^ suc i ≡ w / 2 ^ i / 2
half_shift w i = ap (λ (m : ℕ). w / m) (pow-suc 2 i) ∙ sym (div-div-eq-div-mul w (2 ^ i) 2)

next_mask : (i : ℕ) → i ≤ 30 → u32 (2 ^ i * 2) ≡ 2 ^ suc i
next_mask i h =
    let bound : 2 ^ i ≤ 2 ^ 30 = pow-le-pow_right (let o : 0 < 2 = omega arith in o) h in
    omega (arith, pow-suc 2 i)

bit_fits : (i tdo : ℕ) (b : Bool) → tdo < 2 ^ i → tdo + 2 ^ i * to_bit b < 2 ^ suc i
bit_fits i tdo true h = omega (arith, pow-suc 2 i)
bit_fits i tdo false h = omega (arith, pow-suc 2 i)

-- A test of one bit.
mask_test : (i w : ℕ) → bit_and w (2 ^ i) ≡ w / 2 ^ i % 2 * 2 ^ i
mask_test i w =
    let one : 2 ^ i ≡ 1 * 2 ^ i = omega arith in
    ap (λ (m : ℕ). bit_and w m) one
    ∙ and_high i w 1
    ∙ ap (λ (x : ℕ). x * 2 ^ i) (and_low 1 (w / 2 ^ i))

mask_zero : (i w : ℕ) → w / 2 ^ i % 2 ≡ 0 → (bit_and w (2 ^ i) == 0) ≡ true
mask_zero i w e = eq→== _ 0 (omega (arith, rw e at (mask_test i w)))

mask_one : (i w : ℕ) → w / 2 ^ i % 2 ≡ 1 → (bit_and w (2 ^ i) == 0) ≡ false
mask_one i w e =
    ne→==_false _ 0 (omega (arith, rw e at (mask_test i w), one-le-pow i 2 (omega arith)))

-- The copied bit.
copy_bit-set :
    (k i csr mask w : ℕ)
    → bit_of k mask ≡ 1
    → bit_of k (sub32 0xffffffff mask) ≡ 0
    → bit_of k (copy_bit csr mask w (2 ^ i)) ≡ w / 2 ^ i % 2
copy_bit-set k i csr mask w on off = elim (ℕ_discrete (w / 2 ^ i % 2) 0) [
  | yes e ↦ rw (mask_zero i w e) (omega (arith, bit_of-and k csr (sub32 0xffffffff mask)))
  | no ne ↦
      let e : w / 2 ^ i % 2 ≡ 1 = omega arith in
      rw (mask_one i w e) (omega (arith, bit_of-or k csr mask, bit_of-lt k csr))
]

-- The other bits.
copy_bit-kept :
    (k csr mask w m : ℕ)
    → bit_of k mask ≡ 0
    → bit_of k (sub32 0xffffffff mask) ≡ 1
    → bit_of k (copy_bit csr mask w m) ≡ bit_of k csr
copy_bit-kept k csr mask w m off on = elim (Bool-cases (bit_and w m == 0)) [
  | inl z ↦ rw z (omega (arith, bit_of-and k csr (sub32 0xffffffff mask), bit_of-lt k csr))
  | inr o ↦ rw o (omega (arith, bit_of-or k csr mask))
]

-- TDO is collected bit by bit.
collected :
    (i tdo m v : ℕ)
    → m ≡ 2 ^ i
    → tdo < 2 ^ i
    → (if not (bit_and v sdes_csr_bb_tdo == 0) then bit_or tdo m else tdo)
      ≡ tdo + 2 ^ i * bit_of 19 v
collected i tdo m v e small =
    let test : bit_and v sdes_csr_bb_tdo ≡ bit_of 19 v * 2 ^ 19 = omega (arith, mask_test 19 v) in
    elim (ℕ_discrete (bit_of 19 v) 0) [
      | yes z ↦ rw (eq→== (bit_and v sdes_csr_bb_tdo) 0 (omega arith), z) (omega arith)
      | no nz ↦
          let one : bit_of 19 v ≡ 1 = omega (arith, bit_of-lt 19 v) in
          let unit : 2 ^ i ≡ 1 * 2 ^ i = omega arith in
          rw (ne→==_false (bit_and v sdes_csr_bb_tdo) 0 (omega arith), one, e)
            (ap (λ (x : ℕ). bit_or tdo x) unit ∙ or_comm_parts i 1 tdo small ∙ omega arith)
    ]

module _ {D J : Type 0} (clock : ℕ → ℕ → J → Bool × J) (dev : Device D) (view : D → Port J)
    (hw : IsPort clock dev view) (log_bscn : Bool) where
  -- The target is `j`, and the port is enabled.
  abbrev pub Enabled : D → J → Type 0
  Enabled d j = (bit_of 31 (view d).csr ≡ 1) × ((view d).target ≡ j)

  logged :
      (log_bscn : Bool) (d : D)
      → (t : D) × (log_level dev log_bscn d ≡ (ok tt, t)) × (view t ≡ view d)
  logged true d = (_, refl, hw.rd_view d)
  logged false d = (_, refl, refl)

  -- One bit: the pins go low with the bits of TMS and TDI, and then TCK goes high.
  bb_bit :
      (n i csr tms tdi tdo : ℕ) (d : D)
      → bit_of 31 csr ≡ 1
      → bit_of 16 csr ≡ 0
      → tdo < 2 ^ i
      → let b = clock (tms / 2 ^ i % 2) (tdi / 2 ^ i % 2) (view d).target in
        (t : D) × (csr' : ℕ) × (bb_loop dev log_bscn (suc n) (2 ^ i) csr tms tdi tdo d
          ≡ bb_loop dev log_bscn n (u32 (2 ^ i * 2)) csr' tms tdi (tdo + 2 ^ i * to_bit b.0) t)
        × (bit_of 31 csr' ≡ 1)
        × (bit_of 16 csr' ≡ 0)
        × (bit_of 31 (view t).csr ≡ 1)
        × ((view t).target ≡ b.1)
  unfolding bb_loop
  bb_bit n i csr tms tdi tdo d ena tck small =
      let m : ℕ = 2 ^ i in
      let c1 : ℕ = copy_bit csr sdes_csr_bb_tms tms m in
      let low : ℕ = copy_bit c1 sdes_csr_bb_tdi tdi m in
      let high : ℕ = bit_or low sdes_csr_bb_tck in
      let low31 : bit_of 31 low ≡ 1 =
        copy_bit-kept 31 c1 sdes_csr_bb_tdi tdi m refl refl
        ∙ copy_bit-kept 31 csr sdes_csr_bb_tms tms m refl refl
        ∙ ena in
      let low16 : bit_of 16 low ≡ 0 =
        copy_bit-kept 16 c1 sdes_csr_bb_tdi tdi m refl refl
        ∙ copy_bit-kept 16 csr sdes_csr_bb_tms tms m refl refl
        ∙ tck in
      let low17 : bit_of 17 low ≡ tms / 2 ^ i % 2 =
        copy_bit-kept 17 c1 sdes_csr_bb_tdi tdi m refl refl
        ∙ copy_bit-set 17 i csr sdes_csr_bb_tms tms refl refl in
      let low18 : bit_of 18 low ≡ tdi / 2 ^ i % 2 =
        copy_bit-set 18 i c1 sdes_csr_bb_tdi tdi refl refl in
      let high31 : bit_of 31 high ≡ 1 = bit_of-or 31 low sdes_csr_bb_tck ∙ omega arith in
      let high16 : bit_of 16 high ≡ 1 = bit_of-or 16 low sdes_csr_bb_tck ∙ omega arith in
      let high17 : bit_of 17 high ≡ bit_of 17 low =
        bit_of-or 17 low sdes_csr_bb_tck ∙ omega arith in
      let high18 : bit_of 18 high ≡ bit_of 18 low =
        bit_of-or 18 low sdes_csr_bb_tck ∙ omega arith in
      let d1 : D = dev.wr sdes_csr_idx low d in
      let v1 : view d1 ≡ record (view d) { csr = low } = hw.wr_low low d low31 low16 in
      let d2 : D = (dev.rd sdes_csr_idx d1).1 in
      let v2 : view d2 ≡ record (view d) { csr = low } = hw.rd_view d1 ∙ v1 in
      let b = clock (tms / 2 ^ i % 2) (tdi / 2 ^ i % 2) (view d).target in
      let seen : bit_of 19 (dev.rd sdes_csr_idx d1).0 ≡ to_bit b.0 =
        hw.rd_tdo d1
        ∙ ap (λ (p : Port J). to_bit (clock (bit_of 17 p.csr) (bit_of 18 p.csr) p.target).0) v1
        ∙ ap₂ (λ (x y : ℕ). to_bit (clock x y (view d).target).0) low17 low18 in
      let taken = collected i tdo m (dev.rd sdes_csr_idx d1).0 refl small in
      let d3 : D = dev.wr sdes_csr_idx high d2 in
      let v3 : view d3 ≡ record { csr = high; target = b.1 } =
        hw.wr_edge high d2 high31 (ap (λ (p : Port J). bit_of 16 p.csr) v2 ∙ low16) high16
        ∙ ap
            (λ (p : Port J). record {
              csr = high;
              target = (clock (bit_of 17 high) (bit_of 18 high) p.target).1;
            })
            v2
        ∙ ap₂ (λ (x y : ℕ). record { csr = high; target = (clock x y (view d).target).1 })
            (high17 ∙ low17) (high18 ∙ low18) in
      let (t, e, same) = logged log_bscn d3 in
      let off31 : bit_of 31 (clear_bits high sdes_csr_bb_tck) ≡ 1 =
        bit_of-and 31 high (sub32 0xffffffff sdes_csr_bb_tck) ∙ omega (arith, high31) in
      let off16 : bit_of 16 (clear_bits high sdes_csr_bb_tck) ≡ 0 =
        bit_of-and 16 high (sub32 0xffffffff sdes_csr_bb_tck) ∙ omega (arith, high16) in
      (
        t,
        clear_bits high sdes_csr_bb_tck,
        rw e (
            ap
              (λ (x : ℕ).
                bb_loop dev log_bscn n (u32 (m * 2)) (clear_bits high sdes_csr_bb_tck) tms tdi x t)
              (taken ∙ ap (λ (x : ℕ). tdo + 2 ^ i * x) seen)),
        off31,
        off16,
        ap (λ (p : Port J). bit_of 31 p.csr) (same ∙ v3) ∙ high31,
        ap (λ (p : Port J). p.target) (same ∙ v3),
      )

  bb_loop-serial :
      (n i m csr tms tdi tdo : ℕ) (d : D)
      → i + n ≤ 32
      → (1 ≤ n → m ≡ 2 ^ i)
      → bit_of 31 csr ≡ 1
      → bit_of 16 csr ≡ 0
      → tdo < 2 ^ i
      → bit_of 31 (view d).csr ≡ 1
      → let x = serial clock n (tms / 2 ^ i) (tdi / 2 ^ i) (view d).target in
        (t : D) × (bb_loop dev log_bscn n m csr tms tdi tdo d ≡ (ok (tdo + 2 ^ i * x.0), t))
        × Enabled t x.1
  unfolding serial bb_loop
  bb_loop-serial zero i m csr tms tdi tdo d h hm ena tck small on =
      let same : tdo ≡ tdo + 2 ^ i * 0 = omega arith in
      (d, ap (λ (y : ℕ). (ok y, d)) same, (on, refl))
  bb_loop-serial (suc n) i m csr tms tdi tdo d h hm ena tck small on =
      let b = clock (tms / 2 ^ i % 2) (tdi / 2 ^ i % 2) (view d).target in
      let (t, csr', e, ena', tck', on', target) = bb_bit n i csr tms tdi tdo d ena tck small in
      let (u, f, done) =
        bb_loop-serial n (suc i) (u32 (2 ^ i * 2)) csr' tms tdi (tdo + 2 ^ i * to_bit b.0) t
          (omega arith) (λ more. next_mask i (omega arith)) ena' tck' (bit_fits i tdo b.0 small)
          on' in
      let same : serial clock n (tms / 2 ^ suc i) (tdi / 2 ^ suc i) (view t).target
          ≡ serial clock n (tms / 2 ^ i / 2) (tdi / 2 ^ i / 2) b.1 =
        ap₂ (λ (x y : ℕ). serial clock n x y (view t).target) (half_shift tms i) (half_shift tdi i)
        ∙ ap (λ (x : J). serial clock n (tms / 2 ^ i / 2) (tdi / 2 ^ i / 2) x) target in
      let rest = serial clock n (tms / 2 ^ i / 2) (tdi / 2 ^ i / 2) b.1 in
      let sum : tdo + 2 ^ i * to_bit b.0 + 2 ^ suc i * rest.0
          ≡ tdo + 2 ^ i * (to_bit b.0 + 2 * rest.0) =
        rw (pow-suc 2 i) (omega arith) in
      let mask : m ≡ 2 ^ i = hm (omega arith) in
      (
        u,
        ap (λ (x : ℕ). bb_loop dev log_bscn (suc n) x csr tms tdi tdo d) mask
            ∙ e
            ∙ f
            ∙ ap (λ (x : ℕ × J). (ok (tdo + 2 ^ i * to_bit b.0 + 2 ^ suc i * x.0), u)) same
            ∙ ap (λ (x : ℕ). (ok x, u)) sum,
        (done.0, done.1 ∙ ap (λ (x : ℕ × J). x.1) same),
      )

  -- At most 32 bits that `xfer32bb` sets on the pins of an enabled port, logged or not, clock the
  -- target as the bits of the two numbers do one after the other, the lowest first; TDO is
  -- returned, and the port stays enabled.
  pub xfer32bb-serial :
      (l tms tdi : ℕ) (d : D) (j : J)
      → l ≤ 32
      → Enabled d j
      → let x = serial clock l tms tdi j in
        (t : D) × (xfer32bb dev log_bscn tms tdi l d ≡ (ok x.0, t)) × Enabled t x.1
  unfolding xfer32bb
  xfer32bb-serial l tms tdi d j h (on, target) =
      let c : ℕ = (dev.rd sdes_csr_idx d).0 in
      let d1 : D = (dev.rd sdes_csr_idx d).1 in
      let v1 : view d1 ≡ view d = hw.rd_view d in
      let off31 : bit_of 31 (clear_bits c sdes_csr_bbmsk) ≡ 1 =
        bit_of-and 31 c (sub32 0xffffffff sdes_csr_bbmsk) ∙ omega (arith, hw.rd_enable d, on) in
      let off16 : bit_of 16 (clear_bits c sdes_csr_bbmsk) ≡ 0 =
        bit_of-and 16 c (sub32 0xffffffff sdes_csr_bbmsk) ∙ omega arith in
      let (t, e, done) =
        bb_loop-serial l 0 1 (clear_bits c sdes_csr_bbmsk) tms tdi 0 d1 (omega arith) (λ more. refl)
          off31 off16 (omega arith) (ap (λ (p : Port J). bit_of 31 p.csr) v1 ∙ on) in
      let whole : (w : ℕ) → w / 2 ^ 0 ≡ w = λ w. omega arith in
      let same : serial clock l (tms / 2 ^ 0) (tdi / 2 ^ 0) (view d1).target
          ≡ serial clock l tms tdi j =
        ap₂ (λ (x y : ℕ). serial clock l x y (view d1).target) (whole tms) (whole tdi)
        ∙ ap (λ (x : J). serial clock l tms tdi x) (ap (λ (p : Port J). p.target) v1 ∙ target) in
      let x = serial clock l tms tdi j in
      let value : 0 + 2 ^ 0 * x.0 ≡ x.0 = omega arith in
      (
        t,
        e ∙ ap (λ (y : ℕ × J). (ok (0 + 2 ^ 0 * y.0), t)) same ∙ ap (λ (y : ℕ). (ok y, t)) value,
        (done.0, done.1 ∙ ap (λ (y : ℕ × J). y.1) same),
      )
