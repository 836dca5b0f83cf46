-- ===== src/Dump/Register.antt =====
-- `JtagRegType`: a shift register kept in 64-bit words. `none` is undefined behaviour in C++.
pub mod Bits
use xvc_support.Base.{
  ℕ, zero, suc, ◌+◌, ◌-◌, ◌*◌, ◌^◌, bit_or, Option, none, some, List, [], ◌∷◌, ltb, leb, ◌==◌,
  if◌then◌else◌, length, u32,
}
use mathlib.Core.Option

pub record JtagReg : Type 0 where
  pub bitpos : ℕ
  pub v : List ℕ

-- The state after the constructor, and after `clear()`.
abbrev pub cleared : JtagReg
cleared = record { bitpos = 0; v = 0 ∷ [] }

unfoldable pub clear : JtagReg → JtagReg
clear r = cleared

-- `(v_.size() - 1) * 8 * sizeof(uint64_t) + bitpos_`, an `unsigned`.
unfoldable pub get_num_bits : JtagReg → ℕ
get_num_bits r = u32 ((length r.v - 1) * 8 * 8 + r.bitpos)

-- `1<<bitpos_` is computed on a 32-bit `int` and then converted to `uint64_t`: bit 31 is the sign,
-- which fills the upper half, and a shift by 32 or more is undefined.
unfoldable pub int_bit : ℕ → Option ℕ
int_bit p = if ltb p 31 then some (2 ^ p) else if p == 31 then some (2 ^ 64 - 2 ^ 31) else none

-- `v_.back() |= m`; a `v_` without words has no `back()`.
unfoldable pub or_back : List ℕ → ℕ → Option (List ℕ)
or_back [] m = none
or_back (w ∷ []) m = some (bit_or w m ∷ [])
or_back (w ∷ x ∷ ws) m = Option.map (λ r. w ∷ r) (or_back (x ∷ ws) m)

abbrev pub push_back : List ℕ → ℕ → List ℕ
push_back [] x = x ∷ []
push_back (w ∷ ws) x = w ∷ push_back ws x

-- `bitpos_++`, and a new word where the last one is full.
unfoldable pub next_bit : JtagReg → JtagReg
next_bit r =
    if leb (8 * 8) (r.bitpos + 1)
    then record r { bitpos = 0; v = push_back r.v 0 }
    else record r { bitpos = r.bitpos + 1 }

unfoldable pub add_bit : JtagReg → ℕ → Option JtagReg
unfolding next_bit int_bit or_back Option.bind
add_bit r b =
    if b == 0
    then some (next_bit r)
    else Option.bind (int_bit r.bitpos)
        (λ m. Option.map (λ w. next_bit (record r { v = w })) (or_back r.v m))
