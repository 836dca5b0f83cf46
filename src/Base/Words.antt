-- ===== src/Base/Words.antt =====
-- Fixed-width integers, and their octets in memory. A block of memory is the list of its octets;
-- an access out of its range is left to the caller as `none`.
use Prim.Native.Nat.{ℕ, zero, suc, ◌+◌, ◌-◌, ◌*◌, ◌/◌, ◌%◌, ◌^◌, ◌<◌}
use mathlib.Core.Path.{◌≡◌, refl, ap, ap₂}
use mathlib.Core.Bool.{true}
use mathlib.Core.List.{List, [], ◌∷◌, ◌++◌, append_assoc}
use mathlib.Core.Option.{Option, none, some}
use native.Mathlib.Nat.{pow-suc}
use native.Mathlib.Omega.{arith}
use xvc_support.Base.Tests.{leb, if◌then◌else◌, le→leb}
use xvc_support.Base.Lists.{length, take, drop, All, length-append, take-append_eq, drop-append_eq}

abbrev pub u8 : ℕ → ℕ
u8 n = n % 256

abbrev pub u16 : ℕ → ℕ
u16 n = n % 65536

abbrev pub u32 : ℕ → ℕ
u32 n = n % 4294967296

-- `a - b` on `unsigned`.
abbrev pub sub32 : ℕ → ℕ → ℕ
sub32 a b = (a + 4294967296 - b) % 4294967296

abbrev pub IsByte : ℕ → Type 0
IsByte b = b < 256

abbrev pub IsBytes : List ℕ → Type 0
IsBytes bs = All IsByte bs

-- The `n` low octets of `w`, the lowest first, and back.
abbrev pub to_le : ℕ → ℕ → List ℕ
to_le zero w = []
to_le (suc n) w = w % 256 ∷ to_le n (w / 256)

abbrev pub of_le : List ℕ → ℕ
of_le [] = 0
of_le (b ∷ bs) = b + 256 * of_le bs

pub length-to_le : (n w : ℕ) → length (to_le n w) ≡ n
length-to_le zero w = refl
length-to_le (suc n) w = ap suc (length-to_le n (w / 256))

pub to_le-IsBytes : (n w : ℕ) → IsBytes (to_le n w)
to_le-IsBytes zero w = tt
to_le-IsBytes (suc n) w = (omega arith, to_le-IsBytes n (w / 256))

-- The value of `n` octets is the number cut to `8 * n` bits.
pub of_le-to_le : (n w : ℕ) → w < 256 ^ n → of_le (to_le n w) ≡ w
of_le-to_le zero w h = omega arith
of_le-to_le (suc n) w h = omega (arith, of_le-to_le n (w / 256) (omega (arith, pow-suc 256 n)))

pub of_le-lt : (bs : List ℕ) → IsBytes bs → of_le bs < 256 ^ length bs
of_le-lt [] h = omega arith
of_le-lt (b ∷ bs) h = omega (arith, of_le-lt bs h.1, pow-suc 256 (length bs), h.0)

pub to_le-of_le : (bs : List ℕ) → IsBytes bs → to_le (length bs) (of_le bs) ≡ bs
to_le-of_le [] h = refl
to_le-of_le (b ∷ bs) h =
    let low : (b + 256 * of_le bs) % 256 ≡ b = omega (arith, h.0) in
    let high : (b + 256 * of_le bs) / 256 ≡ of_le bs = omega (arith, h.0) in
    ap₂ ◌∷◌ low (rw high (to_le-of_le bs h.1))

pub IsBytes-append : (xs ys : List ℕ) → IsBytes xs → IsBytes ys → IsBytes (xs ++ ys)
IsBytes-append [] ys p q = q
IsBytes-append (x ∷ xs) ys p q = (p.0, IsBytes-append xs ys p.1 q)

pub IsBytes-take : (n : ℕ) (xs : List ℕ) → IsBytes xs → IsBytes (take n xs)
IsBytes-take zero xs p = tt
IsBytes-take (suc n) [] p = tt
IsBytes-take (suc n) (x ∷ xs) p = (p.0, IsBytes-take n xs p.1)

pub IsBytes-drop : (n : ℕ) (xs : List ℕ) → IsBytes xs → IsBytes (drop n xs)
IsBytes-drop zero xs p = p
IsBytes-drop (suc n) [] p = tt
IsBytes-drop (suc n) (x ∷ xs) p = IsBytes-drop n xs p.1

-- `memcpy` from and to a block: `none` where the range leaves the block.
unfoldable pub read_at : List ℕ → ℕ → ℕ → Option (List ℕ)
read_at mem off n = if leb (off + n) (length mem) then some (take n (drop off mem)) else none

unfoldable pub write_at : List ℕ → ℕ → List ℕ → Option (List ℕ)
write_at mem off bs =
    if leb (off + length bs) (length mem)
    then some (take off mem ++ (bs ++ drop (off + length bs) mem))
    else none

-- A block that is `front`, then as many octets as `old`, then `back` takes `bs` in the middle.
pub write_at-parts :
    (front old back bs : List ℕ) (off : ℕ)
    → length front ≡ off
    → length old ≡ length bs
    → write_at (front ++ (old ++ back)) off bs ≡ some (front ++ (bs ++ back))
unfolding write_at
write_at-parts front old back bs off hf ho =
    let sizes : length (front ++ (old ++ back)) ≡ off + (length bs + length back) =
      omega (arith, length-append {0} front (old ++ back), length-append {0} old back) in
    let fits : leb (off + length bs) (length (front ++ (old ++ back))) ≡ true =
      le→leb _ _ (omega arith) in
    let cut : drop (off + length bs) (front ++ (old ++ back)) ≡ back =
      rw (← append_assoc front old back) (
        drop-append_eq (off + length bs) (front ++ old) back
          (omega (arith, length-append {0} front old))) in
    rw (fits, cut, take-append_eq off front (old ++ back) hf)

pub read_at-parts :
    (front mid back : List ℕ) (off n : ℕ)
    → length front ≡ off
    → length mid ≡ n
    → read_at (front ++ (mid ++ back)) off n ≡ some mid
unfolding read_at
read_at-parts front mid back off n hf hm =
    let fits : leb (off + n) (length (front ++ (mid ++ back))) ≡ true =
      le→leb _ _
        (omega (arith, length-append {0} front (mid ++ back), length-append {0} mid back)) in
    rw (fits, drop-append_eq off front (mid ++ back) hf, take-append_eq n mid back hm)
