-- ===== src/Raw/Octets.antt =====
-- The octets of a vector as words of 32 bits.
use xvc_support.Base.{
  ℕ, zero, suc, ◌+◌, ◌-◌, ◌*◌, ◌/◌, ◌%◌, ◌^◌, ◌≤◌, ◌<◌, ◌≡◌, refl, ap, sym, ◌∙◌, Bool, true, some,
  List, [], ◌∷◌, ◌++◌, length, take, drop, arith, to_le, of_le, of_le-lt, IsBytes, read_at-parts,
  length-take, take-append-drop, take-add,
}
use native.Mathlib.Nat.{pow-suc, add-mul-mod_self_left}
use xvc_support.Header.Memory.{getw32, word_of}
use xvc_support.Serial.{serial, serial-cong, serial-add}

pub of_le-append : (xs ys : List ℕ) → of_le (xs ++ ys) ≡ of_le xs + 256 ^ length xs * of_le ys
of_le-append [] ys = omega arith
of_le-append (x ∷ xs) ys =
    let e : 256 ^ suc (length xs) * of_le ys ≡ 256 * (256 ^ length xs * of_le ys) =
      let p : 256 ^ suc (length xs) ≡ 256 ^ length xs * 256 = pow-suc 256 (length xs) in
      rw p (omega arith) in
    omega (arith, of_le-append xs ys, e)

pub take-to_le : (l n w : ℕ) → l ≤ n → take l (to_le n w) ≡ to_le l w
take-to_le zero n w h = refl
take-to_le (suc l) zero w h = elim h [ ]
take-to_le (suc l) (suc n) w h = ap (λ t. w % 256 ∷ t) (take-to_le l n (w / 256) (omega arith))

-- The first four octets of a vector, and the rest.
pub word_and_rest :
    (v : List ℕ) → 4 ≤ length v → of_le v ≡ of_le (take 4 v) + 2 ^ 32 * of_le (drop 4 v)
word_and_rest v h =
    ap of_le (sym (take-append-drop 4 v))
    ∙ of_le-append (take 4 v) (drop 4 v)
    ∙ ap (λ (n : ℕ). of_le (take 4 v) + 256 ^ n * of_le (drop 4 v))
        (let e : length (take 4 v) ≡ 4 = omega (arith, length-take 4 v) in e)

pub IsBytes-append_right : (xs ys : List ℕ) → IsBytes (xs ++ ys) → IsBytes ys
IsBytes-append_right [] ys h = h
IsBytes-append_right (x ∷ xs) ys h = IsBytes-append_right xs ys h.1

pub IsBytes-shorter : (m n : ℕ) (xs : List ℕ) → m ≤ n → IsBytes (take n xs) → IsBytes (take m xs)
IsBytes-shorter zero n xs h bytes = tt
IsBytes-shorter (suc m) zero xs h bytes = elim h [ ]
IsBytes-shorter (suc m) (suc n) [] h bytes = tt
IsBytes-shorter (suc m) (suc n) (x ∷ xs) h bytes =
    (bytes.0, IsBytes-shorter m n xs (omega arith) bytes.1)

pub IsBytes-later :
    (k m n : ℕ) (xs : List ℕ) → k + m ≤ n → IsBytes (take n xs) → IsBytes (take m (drop k xs))
IsBytes-later k m n xs h bytes =
    IsBytes-append_right (take k xs) (take m (drop k xs))
      (rw (take-add k m xs) at (IsBytes-shorter (k + m) n xs h bytes))

pub getw32-word :
    (front w back : List ℕ) (off : ℕ)
    → length front ≡ off
    → length w ≡ 4
    → getw32 true (front ++ (w ++ back)) off ≡ some (of_le w)
unfolding getw32 word_of
getw32-word front w back off hf hw = rw (read_at-parts front w back off 4 hf hw) refl

-- A vector without its first four octets, if these are octets.
pub rest_of_word :
    (v : List ℕ) → 4 ≤ length v → IsBytes (take 4 v) → of_le v / 2 ^ 32 ≡ of_le (drop 4 v)
rest_of_word v h bytes =
    let n : length (take 4 v) ≡ 4 = omega (arith, length-take 4 v) in
    let low : of_le (take 4 v) < 2 ^ 32 = rw n at (of_le-lt (take 4 v) bytes) in
    omega (arith, word_and_rest v h)

pub to_le-word :
    (n lo hi : ℕ) → lo < 2 ^ 32 → to_le (4 + n) (lo + 2 ^ 32 * hi) ≡ to_le 4 lo ++ to_le n hi
to_le-word n lo hi h =
    let x : ℕ = lo + 2 ^ 32 * hi in
    let b0 : x % 256 ≡ lo % 256 = omega arith in
    let b1 : x / 256 % 256 ≡ lo / 256 % 256 = omega arith in
    let b2 : x / 256 / 256 % 256 ≡ lo / 256 / 256 % 256 = omega arith in
    let b3 : x / 256 / 256 / 256 % 256 ≡ lo / 256 / 256 / 256 % 256 = omega arith in
    let up : x / 256 / 256 / 256 / 256 ≡ hi = omega arith in
    let size : 4 + n ≡ suc (suc (suc (suc n))) = omega arith in rw (size, b0, b1, b2, b3, up) refl

pub serial-words :
    {J : Type 0} (clock : ℕ → ℕ → J → Bool × J) (nbits : ℕ) (a b : List ℕ) (j : J)
    → 32 ≤ nbits
    → 4 ≤ length a
    → 4 ≤ length b
    → IsBytes (take 4 a)
    → IsBytes (take 4 b)
    → let w = serial clock 32 (of_le (take 4 a)) (of_le (take 4 b)) j in
      let more = serial clock (nbits - 32) (of_le (drop 4 a)) (of_le (drop 4 b)) w.1 in
      serial clock nbits (of_le a) (of_le b) j ≡ (w.0 + 2 ^ 32 * more.0, more.1)
serial-words clock nbits a b j many ha hb ba bb =
    let split : 32 + (nbits - 32) ≡ nbits = omega arith in
    let same : serial clock 32 (of_le a) (of_le b) j
        ≡ serial clock 32 (of_le (take 4 a)) (of_le (take 4 b)) j =
      serial-cong clock 32 32 (of_le a) (of_le (take 4 a)) (of_le b) (of_le (take 4 b)) j
        (omega arith) (omega (arith, word_and_rest a ha)) (omega (arith, word_and_rest b hb)) in
    let sum = serial-add clock 32 (nbits - 32) (of_le a) (of_le b) j in
    rw (split, rest_of_word a ha ba, rest_of_word b hb bb, same) at sum

pub octets_pow : (n : ℕ) → 256 ^ n ≡ 2 ^ (8 * n)
octets_pow zero = refl
octets_pow (suc n) =
    let m : ℕ = 8 * n in
    let e : 8 * suc n ≡ suc (suc (suc (suc (suc (suc (suc (suc m))))))) = omega arith in
    rw e (
      omega (
        arith,
        octets_pow n,
        pow-suc 256 n,
        pow-suc 2 m,
        pow-suc 2 (suc m),
        pow-suc 2 (suc (suc m)),
        pow-suc 2 (suc (suc (suc m))),
        pow-suc 2 (suc (suc (suc (suc m)))),
        pow-suc 2 (suc (suc (suc (suc (suc m))))),
        pow-suc 2 (suc (suc (suc (suc (suc (suc m)))))),
        pow-suc 2 (suc (suc (suc (suc (suc (suc (suc m))))))),
      ))

-- Its first octets decide the low bits of a vector.
pub of_le-front :
    (n : ℕ) (v p : List ℕ)
    → n ≤ length v
    → of_le (take n v ++ p) % 2 ^ (8 * n) ≡ of_le v % 2 ^ (8 * n)
of_le-front n v p h =
    let size : length (take n v) ≡ n = omega (arith, length-take n v) in
    let front : (w : List ℕ) → of_le (take n v ++ w) % 256 ^ n ≡ of_le (take n v) % 256 ^ n = λ w.
      rw (of_le-append (take n v) w, size)
        (add-mul-mod_self_left (of_le (take n v)) (256 ^ n) (of_le w)) in
    rw (octets_pow n) at
      (front p ∙ sym (front (drop n v)) ∙ ap (λ w. of_le w % 256 ^ n) (take-append-drop n v))
