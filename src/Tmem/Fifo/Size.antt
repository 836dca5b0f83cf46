-- ===== src/Tmem/Fifo/Size.antt =====
-- The largest vector, and the setup, of `JtagDriverTmemFifo`.
use xvc_support.Base.{ℕ, ◌+◌, ◌-◌, ◌*◌, ◌/◌, ◌%◌, ◌^◌, ◌≤◌, ◌≡◌, bit_and, arith, ap, ◌∙◌}
use xvc_support.Base.Bits.{and_high, and_low}
use xvc_support.Driver.Pack.Layout.{rounded}
use xvc_support.Tmem.Fifo.{tmem_max_vec, fifo_csr_maxwm}

-- For a FIFO of at least one word, the header word and two vectors of the size that the driver
-- allows are as many octets as the FIFO has, but in the message, which fills each vector up to
-- whole words, they are one word more.
pub tmem_max_vec-overfull :
    (csr_val : ℕ)
    → let words = csr_val / 2 ^ 24 % 16 * 256 in
      1 ≤ words
      → (4 + 2 * tmem_max_vec csr_val ≡ words * 4)
        × (4 + 2 * rounded (tmem_max_vec csr_val) 4 ≡ words * 4 + 4)
unfolding tmem_max_vec
tmem_max_vec-overfull csr_val some_ =
    let n : ℕ = csr_val / 2 ^ 24 % 16 in
    let field : bit_and csr_val fifo_csr_maxwm ≡ n * 2 ^ 24 =
      and_high 24 csr_val 15 ∙ ap (λ (x : ℕ). x * 2 ^ 24) (and_low 4 (csr_val / 2 ^ 24)) in
    let words : n * 2 ^ 24 / 2 ^ 24 * 2 ^ 10 / 4 ≡ n * 256 = omega arith in
    let less : (n * 256 + 2 ^ 64 - 1) % 2 ^ 64 * 4 % 2 ^ 64 / 2 ≡ n * 512 - 2 = omega arith in
    rw (field, words, less) (omega arith, omega arith)
