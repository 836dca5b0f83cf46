-- ===== src/Base/Bits.antt =====
-- `&` and `|` of C at variables: a mask of low bits is a remainder, a mask of higher bits acts on
-- the quotient, and `|` of values with no common bit is a sum.
pub mod Digit
pub mod Single
use Digit.{bit_and_digit, bit_or_digit}
use Prim.Native.Nat.{
  ℕ, zero, suc, ◌+◌, ◌-◌, ◌*◌, ◌/◌, ◌%◌, ◌^◌, ◌≤◌, ◌<◌, bit_and, bit_or, bit_or-bitwise,
}
use mathlib.Core.Path.{◌≡◌, refl, ap}
use native.Mathlib.Nat.{pow-suc, one-le-pow}
use native.Mathlib.Omega.{arith}

and-zero_upto : (n a : ℕ) → a ≤ n → bit_and a 0 ≡ 0
and-zero_upto n zero h = refl
and-zero_upto zero (suc a) h = elim h [ ]
and-zero_upto (suc n) (suc a) h =
    omega (arith, bit_and_digit (suc a) 0, and-zero_upto n (suc a / 2) (omega arith))

pub and-zero : (a : ℕ) → bit_and a 0 ≡ 0
and-zero a = and-zero_upto a a (omega arith)

or-zero_upto : (n a : ℕ) → a ≤ n → bit_or a 0 ≡ a
or-zero_upto n zero h = refl
or-zero_upto zero (suc a) h = elim h [ ]
or-zero_upto (suc n) (suc a) h =
    omega (arith, bit_or_digit (suc a) 0, or-zero_upto n (suc a / 2) (omega arith))

pub or-zero : (a : ℕ) → bit_or a 0 ≡ a
or-zero a = or-zero_upto a a (omega arith)

pub zero-or : (a : ℕ) → bit_or 0 a ≡ a
zero-or a = bit_or-bitwise 0 a

double : (q k : ℕ) → q * 2 ^ suc k ≡ 2 * (q * 2 ^ k)
double q k = omega (arith, ap (λ (t : ℕ). q * t) (pow-suc 2 k))

-- Every number is `q * 2 ^ k + r` with `r < 2 ^ k`; the laws are stated over `q` and `r`.
pub and_low_parts : (k q r : ℕ) → r < 2 ^ k → bit_and (q * 2 ^ k + r) (2 ^ k - 1) ≡ r
and_low_parts zero q r h = ground (arith, and-zero (q * 2 ^ zero + r))
and_low_parts (suc k) q r h = ground (
  arith,
  bit_and_digit (q * 2 ^ suc k + r) (2 ^ suc k - 1),
  double q k,
  pow-suc 2 k,
  one-le-pow k 2,
  and_low_parts k q (r / 2),
)

pub and_low : (k a : ℕ) → bit_and a (2 ^ k - 1) ≡ a % 2 ^ k
and_low k a = ground (arith, one-le-pow k 2, and_low_parts k (a / 2 ^ k) (a % 2 ^ k))

pub and_high_parts :
    (k q r m : ℕ) → r < 2 ^ k → bit_and (q * 2 ^ k + r) (m * 2 ^ k) ≡ bit_and q m * 2 ^ k
and_high_parts zero q r m h =
    let r0 : r ≡ 0 = omega arith in
    let e : q * 2 ^ zero + r ≡ q = omega arith in
    let f : m * 2 ^ zero ≡ m = omega arith in rw (e, f) (omega arith)
and_high_parts (suc k) q r m h = ground (
  arith,
  bit_and_digit (q * 2 ^ suc k + r) (m * 2 ^ suc k),
  double q k,
  double m k,
  double (bit_and q m) k,
  and_high_parts k q (r / 2) m,
)

pub and_high : (k a m : ℕ) → bit_and a (m * 2 ^ k) ≡ bit_and (a / 2 ^ k) m * 2 ^ k
and_high k a m = ground (arith, one-le-pow k 2, and_high_parts k (a / 2 ^ k) (a % 2 ^ k) m)

pub or_parts : (k q r : ℕ) → r < 2 ^ k → bit_or (q * 2 ^ k) r ≡ q * 2 ^ k + r
or_parts zero q r h = ground (arith, or-zero (q * 2 ^ zero))
or_parts (suc k) q r h =
    ground (arith, bit_or_digit (q * 2 ^ suc k) r, double q k, or_parts k q (r / 2))

pub or_comm_parts : (k q r : ℕ) → r < 2 ^ k → bit_or r (q * 2 ^ k) ≡ q * 2 ^ k + r
or_comm_parts zero q r h =
    let r0 : r ≡ 0 = omega arith in rw r0 (omega (arith, zero-or (q * 2 ^ zero)))
or_comm_parts (suc k) q r h =
    ground (arith, bit_or_digit r (q * 2 ^ suc k), double q k, or_comm_parts k q (r / 2))
