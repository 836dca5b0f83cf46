-- ===== src/Driver/Pack.antt =====
-- The message that `sendVectors` builds: the header word, then the vectors of TMS and TDI word by
-- word in turns, the last word of each filled up.
pub mod Layout
use xvc_support.Base.{
  ℕ, zero, suc, ◌+◌, ◌-◌, ◌*◌, ◌/◌, ◌%◌, ◌≤◌, ◌<◌, ◌≡◌, refl, ap, ap₂, sym, ◌∙◌, Bool, true, false,
  Option, none, some, List, [], ◌∷◌, ◌++◌, ◌==◌, if◌then◌else◌, length, take, drop, replicate,
  read_at, write_at, write_at-parts, length-append, length-take, length-drop, take-append-drop,
  append_assoc, drop-drop, arith, u32, le→leb, leb, to_le, length-replicate, length-to_le,
  Bool-cases, inl, inr, ==→eq, append-nil, drop_of_le, min,
}
use mathlib.Core.Option
use xvc_support.Header.Memory.{set_hdr}
use xvc_support.Header.Wire.{set_hdr-parts}
use xvc_support.Driver.Message.{memcpy, store_words, pack}

-- `n` words of each vector.
abbrev pub pairs : ℕ → ℕ → List ℕ → List ℕ → List ℕ
pairs zero wsz tms tdi = []
pairs (suc n) wsz tms tdi =
    take wsz tms ++ (take wsz tdi ++ pairs n wsz (drop wsz tms) (drop wsz tdi))

pub length-pairs :
    (n wsz : ℕ) (tms tdi : List ℕ)
    → n * wsz ≤ length tms
    → n * wsz ≤ length tdi
    → length (pairs n wsz tms tdi) ≡ 2 * (n * wsz)
length-pairs zero wsz tms tdi p q = omega arith
length-pairs (suc n) wsz tms tdi p q =
    let room : suc n * wsz ≡ wsz + n * wsz = omega arith in
    omega (
      arith,
      length-append {0} (take wsz tms) (take wsz tdi ++ pairs n wsz (drop wsz tms) (drop wsz tdi)),
      length-append {0} (take wsz tdi) (pairs n wsz (drop wsz tms) (drop wsz tdi)),
      length-take wsz tms,
      length-take wsz tdi,
      length-pairs n wsz (drop wsz tms) (drop wsz tdi) (omega (arith, length-drop wsz tms))
          (omega (arith, length-drop wsz tdi)),
    )

pub read_at-in :
    (mem : List ℕ) (off n : ℕ)
    → off + n ≤ length mem
    → read_at mem off n ≡ some (take n (drop off mem))
unfolding read_at
read_at-in mem off n h = rw (le→leb _ _ h)

pub length-slice :
    (src : List ℕ) (idx n : ℕ) → idx + n ≤ length src → length (take n (drop idx src)) ≡ n
length-slice src idx n h = omega (arith, length-take n (drop idx src), length-drop idx src)

pub memcpy-parts :
    (front old back src : List ℕ) (wp idx n : ℕ)
    → length front ≡ wp
    → length old ≡ n
    → idx + n ≤ length src
    → memcpy (front ++ (old ++ back)) wp src idx n ≡ some (front ++ (take n (drop idx src) ++ back))
unfolding Option.bind
memcpy-parts front old back src wp idx n hf ho h = rw (read_at-in src idx n h) (
    write_at-parts front old back (take n (drop idx src)) wp hf
      (ho ∙ sym (length-slice src idx n h)))

-- A block cut behind its first `n` octets.
cut :
    (front old back : List ℕ) (n : ℕ)
    → front ++ (old ++ back) ≡ front ++ (take n old ++ (drop n old ++ back))
cut front old back n =
    ap (λ t. front ++ t)
      (ap (λ t. t ++ back) (sym (take-append-drop n old)) ∙ append_assoc (take n old) _ back)

-- Two copies side by side.
memcpy-twice :
    (front old back a b : List ℕ) (wp ia ib n : ℕ)
    → length front ≡ wp
    → 2 * n ≤ length old
    → ia + n ≤ length a
    → ib + n ≤ length b
    → Option.bind (memcpy (front ++ (old ++ back)) wp a ia n) (λ m. memcpy m (wp + n) b ib n)
      ≡ some (((front ++ take n (drop ia a)) ++ take n (drop ib b)) ++ (drop (2 * n) old ++ back))
unfolding Option.bind
memcpy-twice front old back a b wp ia ib n hf ho ha hb =
    let w : List ℕ = take n (drop ia a) in
    let first : memcpy (front ++ (old ++ back)) wp a ia n
        ≡ some (front ++ (w ++ (drop n old ++ back))) =
      rw (cut front old back n) (
        memcpy-parts front (take n old) (drop n old ++ back) a wp ia n hf
          (omega (arith, length-take n old)) ha) in
    let split : front ++ (w ++ (drop n old ++ back))
        ≡ (front ++ w) ++ (take n (drop n old) ++ (drop n (drop n old) ++ back)) =
      sym (append_assoc front w (drop n old ++ back)) ∙ cut (front ++ w) (drop n old) back n in
    let second : memcpy (front ++ (w ++ (drop n old ++ back))) (wp + n) b ib n
        ≡ some ((front ++ w) ++ (take n (drop ib b) ++ (drop n (drop n old) ++ back))) =
      rw split (
        memcpy-parts (front ++ w) (take n (drop n old)) (drop n (drop n old) ++ back) b (wp + n) ib
          n (omega (arith, length-append {0} front w, length-slice a ia n ha))
          (omega (arith, length-take n (drop n old), length-drop n old)) hb) in
    let last : drop n (drop n old) ≡ drop (2 * n) old =
      drop-drop n n old ∙ ap (λ (k : ℕ). drop k old) (let e : n + n ≡ 2 * n = omega arith in e) in
    rw (first, second, last)
      (ap some (sym (append_assoc (front ++ w) (take n (drop ib b)) (drop (2 * n) old ++ back))))

bind_assoc :
    {A B C : Type 0} (m : Option A) (f : A → Option B) (g : B → Option C)
    → Option.bind m (λ a. Option.bind (f a) g) ≡ Option.bind (Option.bind m f) g
unfolding Option.bind
bind_assoc none f g = refl
bind_assoc (some a) f g = refl

regroup : (a b c d e : List ℕ) → ((a ++ b) ++ c) ++ (d ++ e) ≡ a ++ ((b ++ (c ++ d)) ++ e)
regroup a b c d e = simp append_assoc

module _ (wsz : ℕ) (tms tdi : List ℕ) where
  pub store_words-pairs :
      (n : ℕ) (front old back : List ℕ) (idx wp : ℕ)
      → length front ≡ wp
      → 2 * (n * wsz) ≤ length old
      → idx + n * wsz ≤ length tms
      → idx + n * wsz ≤ length tdi
      → store_words n wsz tms tdi idx wp (front ++ (old ++ back))
        ≡ some (
            front
            ++ (pairs n wsz (drop idx tms) (drop idx tdi) ++ (drop (2 * (n * wsz)) old ++ back)))
  unfolding store_words Option.bind
  store_words-pairs zero front old back idx wp hf ho ha hb =
      let z : 2 * (0 * wsz) ≡ 0 = omega arith in rw z
  store_words-pairs (suc n) front old back idx wp hf ho ha hb =
      let room : suc n * wsz ≡ wsz + n * wsz = omega arith in
      let t : List ℕ = take wsz (drop idx tms) in
      let d : List ℕ = take wsz (drop idx tdi) in
      let two : Option.bind (memcpy (front ++ (old ++ back)) wp tms idx wsz)
            (λ m. memcpy m (wp + wsz) tdi idx wsz)
          ≡ some (((front ++ t) ++ d) ++ (drop (2 * wsz) old ++ back)) =
        memcpy-twice front old back tms tdi wp idx idx wsz hf (omega arith) (omega arith)
          (omega arith) in
      let front_size : length ((front ++ t) ++ d) ≡ wp + wsz + wsz = omega (
        arith,
        length-append {0} (front ++ t) d,
        length-append {0} front t,
        length-slice tms idx wsz (omega arith),
        length-slice tdi idx wsz (omega arith),
      ) in
      let ih : store_words n wsz tms tdi (idx + wsz) (wp + wsz + wsz)
            (((front ++ t) ++ d) ++ (drop (2 * wsz) old ++ back))
          ≡ some (
              ((front ++ t) ++ d)
              ++ (pairs n wsz (drop (idx + wsz) tms) (drop (idx + wsz) tdi)
                  ++ (drop (2 * (n * wsz)) (drop (2 * wsz) old) ++ back))) =
        store_words-pairs n ((front ++ t) ++ d) (drop (2 * wsz) old) back (idx + wsz)
          (wp + wsz + wsz) front_size (omega (arith, length-drop (2 * wsz) old)) (omega arith)
          (omega arith) in
      let gone : drop (2 * (n * wsz)) (drop (2 * wsz) old) ≡ drop (2 * (suc n * wsz)) old =
        drop-drop (2 * (n * wsz)) (2 * wsz) old
        ∙ ap (λ (k : ℕ). drop k old)
            (let e : 2 * wsz + 2 * (n * wsz) ≡ 2 * (suc n * wsz) = omega arith in e) in
      bind_assoc (memcpy (front ++ (old ++ back)) wp tms idx wsz)
        (λ m. memcpy m (wp + wsz) tdi idx wsz)
        (λ m. store_words n wsz tms tdi (idx + wsz) (wp + wsz + wsz) m)
      ∙ rw (two, drop-drop wsz idx tms, drop-drop wsz idx tdi, ← gone)
          (ih
            ∙ ap some (
                regroup front t d (pairs n wsz (drop (idx + wsz) tms) (drop (idx + wsz) tdi))
                  (drop (2 * (n * wsz)) (drop (2 * wsz) old) ++ back)))
