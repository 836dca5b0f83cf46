-- ===== src/Dump/Register/Bits.antt =====
-- What a register holds after bits were added.
use xvc_support.Base.{
  ℕ, suc, ◌+◌, ◌-◌, ◌*◌, ◌^◌, ◌≤◌, ◌<◌, ◌≡◌, ap, Option, none, some, List, [], ◌∷◌, ◌==◌,
  if◌then◌else◌, length, arith, ◌≢◌,
}
use native.Mathlib.Nat.{pow-suc}
use native.Mathlib.Decide.{ℕ_discrete}
use native.Mathlib.Numerals.{towards_suc}
use xvc_support.Base.Bits.{or_comm_parts}
use mathlib.Core.Option
use xvc_support.Dump.Register.{JtagReg, cleared, get_num_bits, add_bit}

-- The bits added one after the other.
unfoldable pub add_bits : JtagReg → List ℕ → Option JtagReg
unfolding Option.bind
add_bits r [] = some r
add_bits r (b ∷ bs) = Option.bind (add_bit r b) (λ r'. add_bits r' bs)

-- The number whose binary digits, the lowest first, are the truth values of the bits.
abbrev pub value_of : List ℕ → ℕ
value_of [] = 0
value_of (b ∷ bs) = (if b == 0 then 0 else 1) + 2 * value_of bs

abbrev pub digit : ℕ → ℕ
digit b = if b == 0 then 0 else 1

add_bit_low :
    (p w b : ℕ)
    → p < 31
    → w < 2 ^ p
    → add_bit (record { bitpos = p; v = w ∷ [] }) b
      ≡ some (record { bitpos = p + 1; v = (w + digit b * 2 ^ p) ∷ [] })
unfolding add_bit
add_bit_low p w b hp hw = ground (arith, or_comm_parts p 1 w)

digit-le : (b : ℕ) → digit b ≤ 1
digit-le b = ground arith

add_bits_low :
    (p w : ℕ) (bs : List ℕ)
    → p + length bs ≤ 31
    → w < 2 ^ p
    → add_bits (record { bitpos = p; v = w ∷ [] }) bs
      ≡ some (record { bitpos = p + length bs; v = (w + value_of bs * 2 ^ p) ∷ [] })
unfolding add_bits
add_bits_low p w [] hp hw = ground arith
add_bits_low p w (b ∷ bs) hp hw =
    let twice : 2 ^ (p + 1) ≡ 2 * 2 ^ p = simp towards_suc (omega (arith, pow-suc 2 p)) in
    let small : digit b * 2 ^ p ≤ 2 ^ p = ground arith in
    let ih : add_bits (record { bitpos = p + 1; v = (w + digit b * 2 ^ p) ∷ [] }) bs
        ≡ some (record {
          bitpos = p + 1 + length bs;
          v = (w + digit b * 2 ^ p + value_of bs * 2 ^ (p + 1)) ∷ [];
        }) =
      add_bits_low (p + 1) (w + digit b * 2 ^ p) bs (omega arith) (omega arith) in
    let e : w + digit b * 2 ^ p + value_of bs * 2 ^ (p + 1)
        ≡ w + (digit b + 2 * value_of bs) * 2 ^ p =
      omega (arith, ap (λ (t : ℕ). value_of bs * t) twice) in
    let n : p + 1 + length bs ≡ p + suc (length bs) = omega arith in
    rw (add_bit_low p w b (omega arith) hw) (rw (e, n) at ih)

-- A register that was cleared and then took at most 31 bits holds exactly these, the first one
-- lowest, and counts them.
pub add_bits-cleared :
    (bs : List ℕ)
    → length bs ≤ 31
    → (r : JtagReg) × (add_bits cleared bs ≡ some r)
      × (r.v ≡ value_of bs ∷ [])
      × (get_num_bits r ≡ length bs)
unfolding get_num_bits
add_bits-cleared bs h = (
  record { bitpos = 0 + length bs; v = (0 + value_of bs * 2 ^ 0) ∷ [] },
  add_bits_low 0 0 bs (omega arith) (omega arith),
  ap (λ x. x ∷ []) (omega arith),
  omega arith,
)

-- In a word with no bit set from the 32nd on, a set bit is not recorded there: as the 32nd it sets
-- the 33 upper bits of the word, and from the 33rd to the 64th of a word it is undefined
-- behaviour.
pub add_bit_high :
    (p w b : ℕ)
    → 31 ≤ p
    → p < 64
    → w < 2 ^ 31
    → b ≢ 0
    → add_bit (record { bitpos = p; v = w ∷ [] }) b
      ≡ (if p == 31 then some (record { bitpos = 32; v = (w + (2 ^ 64 - 2 ^ 31)) ∷ [] }) else none)
unfolding add_bit
add_bit_high p w b lo hi hw hb = elim (ℕ_discrete p 31) [
  | yes e ↦ ground (arith, or_comm_parts 31 (2 ^ 33 - 1) w)
  | no ne ↦ ground arith
]
