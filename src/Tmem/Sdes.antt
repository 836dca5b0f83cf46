-- ===== src/Tmem/Sdes.antt =====
-- The serialiser: `xfer32sdes` of xvcSrv/src/xvcDrvAxisTmem.cc.
use xvc_support.Base.{
  ℕ, suc, ◌+◌, ◌-◌, ◌*◌, ◌/◌, ◌%◌, ◌^◌, ◌≤◌, ◌<◌, ◌≡◌, refl, ap, ◌∙◌, Bool, bit_and, bit_or, arith,
  ◌==◌, ok, Eff, eq→==, ne→==_false,
}
use xvc_support.Base.Bits.{and_high, and_low, or_parts, or-zero}
use xvc_support.Base.Bits.Single.{bit_of, bit_of-or, bit_of-lt, or_split}
use xvc_support.Serial.{serial}
use xvc_support.Mmio.{Device, i32}
use xvc_support.Mmio.Polling.{Settles, poll_settles}
use xvc_support.Tmem.{
  sdes_tms_idx, sdes_tdi_idx, sdes_csr_idx, sdes_tdo_idx, sdes_csr_run, sdes_csr_bsy,
  sdes_csr_lrmsk, clear_bits, xfer32sdes,
}

-- The registers, for how many reads of the control register the serialiser stays busy, and the
-- target behind it.
pub record Shifter (J : Type 0) : Type 0 where
  pub tms : ℕ
  pub tdi : ℕ
  pub tdo : ℕ
  pub busy : ℕ
  pub target : J

-- A device that is such a serialiser: setting the run bit (bit 8) clocks the target as often as
-- the low octet of the control register says, plus once, and leaves the bits of TDO at the upper end
-- of its register. While it is busy (bit 9) waiting does not change it otherwise.
pub record IsShifter {D J : Type 0} (clock : ℕ → ℕ → J → Bool × J) (dev : Device D)
    (wait : Eff D (Unit {0})) (patience : ℕ) (view : D → Shifter J) : Type 0 where
  pub wr_tms : (v : ℕ) (d : D) → view (dev.wr sdes_tms_idx v d) ≡ record (view d) { tms = v }
  pub wr_tdi : (v : ℕ) (d : D) → view (dev.wr sdes_tdi_idx v d) ≡ record (view d) { tdi = v }
  pub wr_run :
      (v l : ℕ) (d : D)
      → bit_of 8 v ≡ 1
      → v % 256 + 1 ≡ l
      → l ≤ 32
      → let r = view d in
        let x = serial clock l r.tms r.tdi r.target in
        (n : ℕ) × (tdo : ℕ) × (n < patience)
        × (tdo / 2 ^ (32 - l) ≡ x.0)
        × (view (dev.wr sdes_csr_idx v d) ≡ record r { tdo = tdo; busy = n; target = x.1 })
  pub rd_idle : (d : D) → (view d).busy ≡ 0 → bit_of 9 (dev.rd sdes_csr_idx d).0 ≡ 0
  pub rd_busy : (d : D) (n : ℕ) → (view d).busy ≡ suc n → bit_of 9 (dev.rd sdes_csr_idx d).0 ≡ 1
  pub rd_csr :
      (d : D) → view (dev.rd sdes_csr_idx d).1 ≡ record (view d) { busy = (view d).busy - 1 }
  pub waits : (d : D) → (t : D) × (wait d ≡ (ok tt, t)) × (view t ≡ view d)
  pub rd_tdo : (d : D) → (view d).busy ≡ 0 → (dev.rd sdes_tdo_idx d).0 ≡ (view d).tdo
  pub rd_tdo_view : (d : D) → view (dev.rd sdes_tdo_idx d).1 ≡ view d

-- The value written to the control register.
run_value :
    (v l : ℕ)
    → 1 ≤ l
    → l ≤ 32
    → let c = bit_or (bit_or (clear_bits v sdes_csr_lrmsk) (l - 1)) sdes_csr_run in
      (bit_of 8 c ≡ 1) × (c % 256 + 1 ≡ l)
run_value v l lo hi =
    let q : ℕ = bit_and (v / 2 ^ 12) 0xfffff in
    let high : clear_bits v sdes_csr_lrmsk ≡ q * 2 ^ 12 = and_high 12 v 0xfffff in
    let part : bit_or (q * 2 ^ 12) (l - 1) ≡ q * 2 ^ 12 + (l - 1) =
      or_parts 12 q (l - 1) (omega arith) in
    let shape : q * 2 ^ 12 + (l - 1) ≡ q * 16 * 2 ^ 8 + (l - 1) = omega arith in
    let both : bit_or (q * 16 * 2 ^ 8 + (l - 1)) (1 * 2 ^ 8 + 0)
        ≡ bit_or (q * 16) 1 * 2 ^ 8 + bit_or (l - 1) 0 =
      or_split 8 (q * 16) 1 (l - 1) 0 (omega arith) (omega arith) in
    (
      omega (
        arith,
        bit_of-or 8 (bit_or (clear_bits v sdes_csr_lrmsk) (l - 1)) sdes_csr_run,
        bit_of-lt 8 (bit_or (clear_bits v sdes_csr_lrmsk) (l - 1)),
      ),
      rw (high, part, shape, both, or-zero (l - 1)) (omega arith),
    )

module _ {D J : Type 0} (clock : ℕ → ℕ → J → Bool × J) (dev : Device D) (wait : Eff D (Unit {0}))
    (patience : ℕ) (view : D → Shifter J) (hw : IsShifter clock dev wait patience view) where
  abbrev IsLike : Shifter J → D → Type 0
  IsLike r d = record (view d) { busy = 0 } ≡ record r { busy = 0 }

  busy_bit : (v : ℕ) → bit_and v sdes_csr_bsy ≡ bit_of 9 v * 2 ^ 9
  busy_bit v = and_high 9 v 1 ∙ omega (arith, and_low 1 (v / 2 ^ 9))

  settles :
      (r : Shifter J)
      → Settles
          (i32 dev sdes_csr_idx)
          (λ v. bit_and v sdes_csr_bsy == 0)
          wait
          (λ d. (view d).busy)
          (IsLike r)
          (λ d. view d ≡ record r { busy = 0 })
  settles r = record {
    idle = λ d like e. (
      _,
      _,
      refl,
      eq→== _ 0 (omega (arith, busy_bit (dev.rd sdes_csr_idx d).0, hw.rd_idle d e)),
      hw.rd_csr d ∙ ap (λ (n : ℕ). record (view d) { busy = n - 1 }) e ∙ like,
    );
    working = λ d n like e.
        let (t, w, same) = hw.waits (dev.rd sdes_csr_idx d).1 in
        let after : view t ≡ record (view d) { busy = (view d).busy - 1 } = same ∙ hw.rd_csr d in
        (
          _,
          _,
          t,
          refl,
          ne→==_false _ 0 (omega (arith, busy_bit (dev.rd sdes_csr_idx d).0, hw.rd_busy d n e)),
          w,
          ap (λ (x : Shifter J). record x { busy = 0 }) after ∙ like,
          ap (λ (x : Shifter J). x.busy) after ∙ omega arith,
        );
  }

  -- A word of up to 32 bits.
  pub xfer32sdes-serial :
      (l a b : ℕ) (d : D)
      → 1 ≤ l
      → l ≤ 32
      → let x = serial clock l a b (view d).target in
        (t : D) × (xfer32sdes dev wait patience a b l d ≡ (ok x.0, t)) × ((view t).target ≡ x.1)
  unfolding xfer32sdes
  xfer32sdes-serial l a b d lo hi =
      let c : ℕ = (dev.rd sdes_csr_idx d).0 in
      let d1 : D = (dev.rd sdes_csr_idx d).1 in
      let d2 : D = dev.wr sdes_tms_idx a d1 in
      let d3 : D = dev.wr sdes_tdi_idx b d2 in
      let v3 : view d3 ≡ record (view d) { tms = a; tdi = b; busy = (view d).busy - 1 } =
        hw.wr_tdi b d2
        ∙ ap (λ (r : Shifter J). record r { tdi = b })
            (hw.wr_tms a d1 ∙ ap (λ (r : Shifter J). record r { tms = a }) (hw.rd_csr d)) in
      let csr : ℕ = bit_or (bit_or (clear_bits c sdes_csr_lrmsk) (l - 1)) sdes_csr_run in
      let (run, len) = run_value c l lo hi in
      let (n, tdo, small, value, v4) = hw.wr_run csr l d3 run len hi in
      let d4 : D = dev.wr sdes_csr_idx csr d3 in
      let x = serial clock l a b (view d).target in
      let clocked : Shifter J = record { tms = a; tdi = b; tdo = tdo; busy = 0; target = x.1 } in
      let r4 : view d4 ≡ record clocked { busy = n } =
        v4
        ∙ ap
            (λ (r : Shifter J). record r {
              tdo = tdo;
              busy = n;
              target = (serial clock l r.tms r.tdi r.target).1;
            })
            v3 in
      let (_, d5, polled, v5) =
        poll_settles _ _ _ (λ s. (view s).busy) _ _ (settles clocked) n patience d4
          (ap (λ (r : Shifter J). record r { busy = 0 }) r4) (ap (λ (r : Shifter J). r.busy) r4)
          small in
      let out : (dev.rd sdes_tdo_idx d5).0 ≡ tdo =
        hw.rd_tdo d5 (ap (λ (r : Shifter J). r.busy) v5) ∙ ap (λ (r : Shifter J). r.tdo) v5 in
      let bits : (dev.rd sdes_tdo_idx d5).0 / 2 ^ (32 - l) ≡ x.0 =
        ap (λ (y : ℕ). y / 2 ^ (32 - l)) out
        ∙ value
        ∙ ap (λ (r : Shifter J). (serial clock l r.tms r.tdi r.target).0) v3 in
      (
        (dev.rd sdes_tdo_idx d5).1,
        rw polled (ap (λ (y : ℕ). (ok y, (dev.rd sdes_tdo_idx d5).1)) bits),
        ap (λ (r : Shifter J). r.target) (hw.rd_tdo_view d5 ∙ v5),
      )
