-- ===== src/LoopBack/Values.antt =====
-- Values of the playback file as octets of the vectors.
use xvc_support.Base.{
  ℕ, zero, suc, ◌*◌, ◌/◌, ◌%◌, ◌^◌, ◌≤◌, ◌<◌, ◌≡◌, ◌∙◌, refl, ap, List, [], ◌∷◌, length, arith,
  IsBytes, of_le, of_le-lt, to_le-of_le, to_le,
}
use native.Mathlib.Nat.{pow-le-pow_right}
use xvc_support.Base.Bits.{or_parts}
use xvc_support.LoopBack.{get_val_le, set_val_le}

pow_bound : (n : ℕ) → n ≤ 7 → 256 ^ n ≤ 2 ^ 56
pow_bound n h = pow-le-pow_right {n = 256} (omega arith) {i = n} {j = 7} h

get_val_le_lem : (bs : List ℕ) → IsBytes bs → length bs ≤ 8 → get_val_le bs ≡ of_le bs
unfolding get_val_le
get_val_le_lem [] h n = refl
get_val_le_lem (b ∷ bs) h n =
    let small : of_le bs < 2 ^ 56 =
      omega (arith, of_le-lt bs h.1, pow_bound (length bs) (omega arith)) in
    let fits : of_le bs * 2 ^ 8 % 2 ^ 64 ≡ of_le bs * 2 ^ 8 = omega arith in
    rw (get_val_le_lem bs h.1 (omega arith), fits) (or_parts 8 (of_le bs) b h.0 ∙ omega arith)

set_val_le_lem : (n val : ℕ) → set_val_le val n ≡ to_le n val
unfolding set_val_le
set_val_le_lem zero val = refl
set_val_le_lem (suc n) val = ap (λ t. val % 256 ∷ t) (set_val_le_lem n (val / 256))

-- At most 8 octets read by `getValLE` and written again by `setValLE` are the same octets.
set_val_le-get_val_le :
    (bs : List ℕ) → IsBytes bs → length bs ≤ 8 → set_val_le (get_val_le bs) (length bs) ≡ bs
set_val_le-get_val_le bs h n =
    rw (get_val_le_lem bs h n, set_val_le_lem (length bs) (of_le bs)) (to_le-of_le bs h)
