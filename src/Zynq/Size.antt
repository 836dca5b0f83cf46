-- ===== src/Zynq/Size.antt =====
-- The largest vector of `JtagDriverZynqFifo`.
use xvc_support.Base.{ℕ, ◌+◌, ◌-◌, ◌*◌, ◌/◌, ◌%◌, ◌^◌, ◌≤◌, ◌<◌, ◌≡◌, bit_and, sub32, arith}
use xvc_support.Base.Bits.{and_low}
use xvc_support.Zynq.{zynq_wrd_siz, zynq_max_vec}

product_bound : (a b c d : ℕ) → a ≤ c → b ≤ d → a * b ≤ c * d
product_bound a b c d h k = grind arith

one_less : (d w : ℕ) → 2 ≤ d → (d - 1) * w ≡ (d - 2) * w + w
one_less d w h = let e : d - 1 ≡ (d - 2) + 1 = omega arith in rw e (omega arith)

-- For a FIFO of two words at least, the header word and two vectors of the largest size fit the FIFO
-- but for one word, and at most one octet more would.
pub zynq_max_vec-fits :
    (siz_val : ℕ)
    → let depth = siz_val % 2 ^ 24 in
      let wrd = zynq_wrd_siz siz_val in
      siz_val < 2 ^ 32
      → 2 ≤ depth
      → (wrd + 2 * zynq_max_vec siz_val ≤ (depth - 1) * wrd)
        × ((depth - 1) * wrd ≤ wrd + 2 * zynq_max_vec siz_val + 1)
unfolding zynq_wrd_siz zynq_max_vec
zynq_max_vec-fits siz_val small two =
    let low : bit_and siz_val 0x00ffffff ≡ siz_val % 2 ^ 24 = and_low 24 siz_val in
    let words : sub32 (bit_and siz_val 0x00ffffff) 1 ≡ siz_val % 2 ^ 24 - 1 = omega (arith, low) in
    let less : (siz_val % 2 ^ 24 - 1 + 2 ^ 64 - 1) % 2 ^ 64 ≡ siz_val % 2 ^ 24 - 2 = omega arith in
    let wrd : ℕ = siz_val / 2 ^ 24 in
    let wrd_small : wrd < 256 = omega arith in
    let prod : (siz_val % 2 ^ 24 - 2) * wrd ≤ 2 ^ 24 * 256 =
      product_bound (siz_val % 2 ^ 24 - 2) wrd (2 ^ 24) 256 (omega arith) (omega arith) in
    let whole : (siz_val % 2 ^ 24 - 2) * wrd % 2 ^ 64 ≡ (siz_val % 2 ^ 24 - 2) * wrd =
      omega arith in
    let step : (siz_val % 2 ^ 24 - 1) * wrd ≡ (siz_val % 2 ^ 24 - 2) * wrd + wrd =
      one_less (siz_val % 2 ^ 24) wrd two in
    rw (words, less, whole) (omega arith, omega arith)
