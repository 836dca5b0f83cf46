-- ===== src/Conn/Session/Vectors.antt =====
-- Vectors cut in two: their octets, and what they do to the target.
use xvc_support.Base.{
  ℕ, zero, suc, ◌+◌, ◌*◌, ◌/◌, ◌%◌, ◌^◌, ◌≤◌, ◌<◌, ◌≡◌, ap, ap₂, sym, ◌∙◌, Bool, List, ◌∷◌, ◌++◌,
  length, take, drop, arith, to_le, of_le, of_le-lt, IsBytes, IsBytes-take, length-take,
  length-drop, drop-drop, take-add, take-append_eq,
}
use mathlib.Core.Path.{subst}
use native.Mathlib.Nat.{pow-suc, mul_assoc, add-mul-mod_self_left, add-mul-div_left, div-eq_of_lt}
use xvc_support.Raw.Octets.{of_le-append, octets_pow, IsBytes-append_right}
use xvc_support.Serial.{serial, serial-lt, serial-cong, serial-add}
use xvc_support.Conn.Session.{octets}

-- The octets of a number whose high part stands apart.
to_le-add : (v r a b : ℕ) → a < 256 ^ v → to_le (v + r) (a + 256 ^ v * b) ≡ to_le v a ++ to_le r b
to_le-add zero r a b h =
    ap₂ to_le (let z : 0 + r ≡ r = omega arith in z)
      (let z : a + 256 ^ 0 * b ≡ b = omega arith in z)
to_le-add (suc v) r a b h =
    let p : 256 ^ suc v ≡ 256 * 256 ^ v = omega (arith, pow-suc 256 v) in
    let x : ℕ = 256 ^ v * b in
    let e : 256 ^ suc v * b ≡ 256 * x = rw p (mul_assoc 256 (256 ^ v) b) in
    let more : suc v + r ≡ suc (v + r) = omega arith in
    let low : (a + 256 * x) % 256 ≡ a % 256 = omega arith in
    let high : (a + 256 * x) / 256 ≡ a / 256 + x = omega arith in
    rw (e, more)
      (ap₂ ◌∷◌ low (ap (to_le (v + r)) high ∙ to_le-add v r (a / 256) b (omega (arith, p))))

two_parts :
    (v : ℕ) (a b : List ℕ)
    → length a ≡ v
    → IsBytes a
    → (of_le (a ++ b) % 2 ^ (8 * v) ≡ of_le a % 2 ^ (8 * v))
      × (of_le (a ++ b) / 2 ^ (8 * v) ≡ of_le b)
      × (of_le a < 2 ^ (8 * v))
two_parts v a b la ba =
    let p : ℕ = 2 ^ (8 * v) in
    let e : 256 ^ length a ≡ p = ap (λ (n : ℕ). 256 ^ n) la ∙ octets_pow v in
    let whole : of_le (a ++ b) ≡ of_le a + p * of_le b =
      of_le-append a b ∙ ap (λ (k : ℕ). of_le a + k * of_le b) e in
    let small : of_le a < p = rw e at (of_le-lt a ba) in
    let some_p : 0 < p = omega arith in
    (
      ap (λ (k : ℕ). k % p) whole ∙ add-mul-mod_self_left (of_le a) p (of_le b),
      ap (λ (k : ℕ). k / p) whole
          ∙ add-mul-div_left (of_le a) (of_le b) some_p
          ∙ ap (λ (k : ℕ). k + of_le b) (div-eq_of_lt small)
          ∙ omega arith,
      small,
    )

module _ {J : Type 0} (clock : ℕ → ℕ → J → Bool × J) where
  -- A vector in two parts, of which the first has whole octets.
  pub serial-append :
      (v bits : ℕ) (a b a' b' : List ℕ) (j : J)
      → length a ≡ v
      → length b ≡ v
      → IsBytes a
      → IsBytes b
      → let lo = serial clock (8 * v) (of_le a) (of_le b) j in
        let hi = serial clock bits (of_le a') (of_le b') lo.1 in
        (to_le
            (v + octets bits)
            (serial clock (8 * v + bits) (of_le (a ++ a')) (of_le (b ++ b')) j).0
          ≡ to_le v lo.0 ++ to_le (octets bits) hi.0)
        × ((serial clock (8 * v + bits) (of_le (a ++ a')) (of_le (b ++ b')) j).1 ≡ hi.1)
  serial-append v bits a b a' b' j la lb ba bb =
      let p : ℕ = 2 ^ (8 * v) in
      let lo = serial clock (8 * v) (of_le a) (of_le b) j in
      let hi = serial clock bits (of_le a') (of_le b') lo.1 in
      let (a1, a2, a3) = two_parts v a a' la ba in
      let (b1, b2, b3) = two_parts v b b' lb bb in
      let same : serial clock (8 * v) (of_le (a ++ a')) (of_le (b ++ b')) j ≡ lo =
        serial-cong clock (8 * v) (8 * v) (of_le (a ++ a')) (of_le a) (of_le (b ++ b')) (of_le b) j
          (omega arith) a1 b1 in
      let sum : serial clock (8 * v + bits) (of_le (a ++ a')) (of_le (b ++ b')) j
          ≡ (lo.0 + p * hi.0, hi.1) =
        rw (same, a2, b2) at
          (serial-add clock (8 * v) bits (of_le (a ++ a')) (of_le (b ++ b')) j) in
      let small : lo.0 < 256 ^ v =
        rw (octets_pow v) (serial-lt clock (8 * v) (of_le a) (of_le b) j) in
      (
        ap (λ (r : ℕ × J). to_le (v + octets bits) r.0) sum
            ∙ ap (λ (k : ℕ). to_le (v + octets bits) (lo.0 + k * hi.0)) (sym (octets_pow v))
            ∙ to_le-add v (octets bits) lo.0 hi.0 small,
        ap (λ (r : ℕ × J). r.1) sum,
      )

-- A part of memory, cut in two.
vector_parts :
    (v r rp off n : ℕ) (mem : List ℕ)
    → n ≡ v + r
    → take v (drop (rp + off) mem) ++ take r (drop (rp + (off + v)) mem)
      ≡ take n (drop (rp + off) mem)
vector_parts v r rp off n mem e =
    let index : rp + (off + v) ≡ rp + off + v = omega arith in
    ap (λ x. take v (drop (rp + off) mem) ++ take r x)
      (ap (λ (k : ℕ). drop k mem) index ∙ sym (drop-drop v (rp + off) mem))
    ∙ sym (take-add v r (drop (rp + off) mem))
    ∙ ap (λ (k : ℕ). take k (drop (rp + off) mem)) (sym e)

pub cut_vector :
    (v r rp off n : ℕ) (mem vec : List ℕ)
    → n ≡ v + r
    → rp + off + v ≤ length mem
    → take n (drop (rp + off) mem) ≡ vec
    → IsBytes vec
    → let a = take v (drop (rp + off) mem) in
      let b = take r (drop (rp + (off + v)) mem) in
      (a ++ b ≡ vec) × (length a ≡ v) × IsBytes a × IsBytes b
cut_vector v r rp off n mem vec sum inside e bytes =
    let a : List ℕ = take v (drop (rp + off) mem) in
    let b : List ℕ = take r (drop (rp + (off + v)) mem) in
    let p : a ++ b ≡ vec = vector_parts v r rp off n mem sum ∙ e in
    let whole : IsBytes (a ++ b) = subst IsBytes (sym p) bytes in
    let l : length a ≡ v =
      omega (arith, length-take v (drop (rp + off) mem), length-drop (rp + off) mem) in
    (
      p,
      l,
      subst IsBytes (take-append_eq v a b l) (IsBytes-take v (a ++ b) whole),
      IsBytes-append_right a b whole,
    )
