-- ===== src/Serial.antt =====
-- What a JTAG target is to a driver: it takes one bit of TMS and of TDI at a clock and puts out one
-- bit of TDO. The drivers for hardware hand it vectors; this is the independent description of
-- what a vector does, one clock after the other, the lowest bit first.
use xvc_support.Base.{
  ℕ, zero, suc, ◌+◌, ◌*◌, ◌/◌, ◌%◌, ◌^◌, ◌≤◌, ◌<◌, ◌≡◌, refl, ap, ap₂, sym, ◌∙◌, Bool, true, false,
  arith,
}
use native.Mathlib.Nat.{pow-suc, one-le-pow}

abbrev pub to_bit : Bool → ℕ
to_bit true = 1
to_bit false = 0

to_bit-lt : (b : Bool) → to_bit b < 2
to_bit-lt true = omega arith
to_bit-lt false = omega arith

low_half : (p a : ℕ) → 1 ≤ p → (a % (2 * p) % 2 ≡ a % 2) × (a % (2 * p) / 2 ≡ a / 2 % p)
low_half p a h = (grind arith, grind arith)

high_half : (p a : ℕ) → 1 ≤ p → a / (2 * p) ≡ a / 2 / p
high_half p a h = grind arith

module _ {J : Type 0} (clock : ℕ → ℕ → J → Bool × J) where
  -- `n` clocks with the bits of two numbers: the number that the bits of TDO make, and the target.
  unfoldable pub serial : ℕ → ℕ → ℕ → J → ℕ × J
  serial zero tms tdi j = (0, j)
  serial (suc n) tms tdi j =
      let b = clock (tms % 2) (tdi % 2) j in
      let rest = serial n (tms / 2) (tdi / 2) b.1 in (to_bit b.0 + 2 * rest.0, rest.1)

  pub serial-lt : (n tms tdi : ℕ) (j : J) → (serial n tms tdi j).0 < 2 ^ n
  unfolding serial
  serial-lt zero tms tdi j = omega arith
  serial-lt (suc n) tms tdi j =
      let b = clock (tms % 2) (tdi % 2) j in
      omega (arith, to_bit-lt b.0, serial-lt n (tms / 2) (tdi / 2) b.1, pow-suc 2 n)

  -- Only the low bits count.
  pub serial-low :
      (n k tms tdi : ℕ) (j : J)
      → n ≤ k
      → serial n (tms % 2 ^ k) (tdi % 2 ^ k) j ≡ serial n tms tdi j
  unfolding serial
  serial-low zero k tms tdi j h = refl
  serial-low (suc n) zero tms tdi j h = elim h [ ]
  serial-low (suc n) (suc k) tms tdi j h =
      let e : 2 ^ suc k ≡ 2 * 2 ^ k = omega (arith, pow-suc 2 k) in
      let (a1, a2) = low_half (2 ^ k) tms (one-le-pow k 2 (omega arith)) in
      let (b1, b2) = low_half (2 ^ k) tdi (one-le-pow k 2 (omega arith)) in
      let b = clock (tms % 2) (tdi % 2) j in
      rw (e, a1, a2, b1, b2)
        (ap (λ (r : ℕ × J). (to_bit b.0 + 2 * r.0, r.1))
          (serial-low n k (tms / 2) (tdi / 2) b.1 (omega arith)))

  pub serial-cong :
      (n k tms tms' tdi tdi' : ℕ) (j : J)
      → n ≤ k
      → tms % 2 ^ k ≡ tms' % 2 ^ k
      → tdi % 2 ^ k ≡ tdi' % 2 ^ k
      → serial n tms tdi j ≡ serial n tms' tdi' j
  serial-cong n k tms tms' tdi tdi' j h e f =
      sym (serial-low n k tms tdi j h)
      ∙ ap₂ (λ (x y : ℕ). serial n x y j) e f
      ∙ serial-low n k tms' tdi' j h

  pub serial-add :
      (m n tms tdi : ℕ) (j : J)
      → let lo = serial m tms tdi j in
        let hi = serial n (tms / 2 ^ m) (tdi / 2 ^ m) lo.1 in
        serial (m + n) tms tdi j ≡ (lo.0 + 2 ^ m * hi.0, hi.1)
  unfolding serial
  serial-add zero n tms tdi j =
      let a : tms / 2 ^ zero ≡ tms = omega arith in
      let b : tdi / 2 ^ zero ≡ tdi = omega arith in
      let r = serial n tms tdi j in
      let c : 0 + 2 ^ zero * r.0 ≡ r.0 = omega arith in
      let d : 0 + n ≡ n = omega arith in rw (d, a, b, c) refl
  serial-add (suc m) n tms tdi j =
      let b = clock (tms % 2) (tdi % 2) j in
      let lo = serial m (tms / 2) (tdi / 2) b.1 in
      let e : 2 ^ suc m ≡ 2 * 2 ^ m = omega (arith, pow-suc 2 m) in
      let a1 : tms / (2 * 2 ^ m) ≡ tms / 2 / 2 ^ m =
        high_half (2 ^ m) tms (one-le-pow m 2 (omega arith)) in
      let a2 : tdi / (2 * 2 ^ m) ≡ tdi / 2 / 2 ^ m =
        high_half (2 ^ m) tdi (one-le-pow m 2 (omega arith)) in
      let hi = serial n (tms / 2 / 2 ^ m) (tdi / 2 / 2 ^ m) lo.1 in
      let sum : to_bit b.0 + 2 * (lo.0 + 2 ^ m * hi.0) ≡ to_bit b.0 + 2 * lo.0 + 2 * 2 ^ m * hi.0 =
        omega arith in
      let n' : suc m + n ≡ suc (m + n) = omega arith in
      rw (n', e, a1, a2)
        (ap (λ (r : ℕ × J). (to_bit b.0 + 2 * r.0, r.1)) (serial-add m n (tms / 2) (tdi / 2) b.1)
          ∙ ap (λ (t : ℕ). (t, hi.1)) sum)
