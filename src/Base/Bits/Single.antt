-- ===== src/Base/Bits/Single.antt =====
-- Single bits of a number, and `&` and `|` on them.
use Prim.Native.Nat.{ℕ, zero, suc, ◌+◌, ◌*◌, ◌/◌, ◌%◌, ◌^◌, ◌<◌, min, max, bit_and, bit_or}
use mathlib.Core.Path.{◌≡◌}
use native.Mathlib.Nat.{pow-suc}
use native.Mathlib.Omega.{arith}
use xvc_support.Base.Bits.Digit.{bit_and_digit, bit_or_digit}

abbrev pub bit_of : ℕ → ℕ → ℕ
bit_of zero a = a % 2
bit_of (suc k) a = bit_of k (a / 2)

pub bit_of-and : (k a b : ℕ) → bit_of k (bit_and a b) ≡ min (bit_of k a) (bit_of k b)
bit_of-and zero a b = omega (arith, bit_and_digit a b)
bit_of-and (suc k) a b =
    let half : bit_and a b / 2 ≡ bit_and (a / 2) (b / 2) = omega (arith, bit_and_digit a b) in
    rw half (bit_of-and k (a / 2) (b / 2))

pub bit_of-or : (k a b : ℕ) → bit_of k (bit_or a b) ≡ max (bit_of k a) (bit_of k b)
bit_of-or zero a b = omega (arith, bit_or_digit a b)
bit_of-or (suc k) a b =
    let half : bit_or a b / 2 ≡ bit_or (a / 2) (b / 2) = omega (arith, bit_or_digit a b) in
    rw half (bit_of-or k (a / 2) (b / 2))

pub bit_of-lt : (k a : ℕ) → bit_of k a < 2
bit_of-lt zero a = omega arith
bit_of-lt (suc k) a = bit_of-lt k (a / 2)

-- `|` on two parts of a number.
pub or_split :
    (k a b r t : ℕ)
    → r < 2 ^ k
    → t < 2 ^ k
    → bit_or (a * 2 ^ k + r) (b * 2 ^ k + t) ≡ bit_or a b * 2 ^ k + bit_or r t
or_split zero a b r t hr ht =
    let r0 : r ≡ 0 = omega arith in
    let t0 : t ≡ 0 = omega arith in
    let a1 : a * 2 ^ 0 + 0 ≡ a = omega arith in
    let b1 : b * 2 ^ 0 + 0 ≡ b = omega arith in rw (r0, t0, a1, b1) (omega arith)
or_split (suc k) a b r t hr ht =
    let x : ℕ = a * 2 ^ suc k + r in
    let y : ℕ = b * 2 ^ suc k + t in
    let p : 2 ^ suc k ≡ 2 ^ k * 2 = pow-suc 2 k in
    let ea : a * 2 ^ suc k ≡ a * 2 ^ k * 2 = rw p (omega arith) in
    let eb : b * 2 ^ suc k ≡ b * 2 ^ k * 2 = rw p (omega arith) in
    let ex : x / 2 ≡ a * 2 ^ k + r / 2 = omega arith in
    let ey : y / 2 ≡ b * 2 ^ k + t / 2 = omega arith in
    let mx : x % 2 ≡ r % 2 = omega arith in
    let my : y % 2 ≡ t % 2 = omega arith in
    let o : ℕ = bit_or a b in
    let eo : o * 2 ^ suc k ≡ o * 2 ^ k * 2 = rw p (omega arith) in
    let half : bit_or (x / 2) (y / 2) ≡ o * 2 ^ k + bit_or (r / 2) (t / 2) =
      rw (ex, ey) (or_split k a b (r / 2) (t / 2) (omega arith) (omega arith)) in
    omega (arith, bit_or_digit x y, bit_or_digit r t, half, eo, mx, my)
