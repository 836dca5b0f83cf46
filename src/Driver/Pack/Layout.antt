-- ===== src/Driver/Pack/Layout.antt =====
-- The whole message, its last words included.
use xvc_support.Base.{
  ℕ, ◌+◌, ◌-◌, ◌*◌, ◌/◌, ◌%◌, ◌≤◌, ◌<◌, ◌≡◌, refl, ap, sym, ◌∙◌, Bool, some, List, [], ◌++◌, ◌==◌,
  if◌then◌else◌, length, take, drop, replicate, length-append, length-take, length-drop,
  take-append-drop, append_assoc, drop-drop, arith, u32, to_le, length-replicate, eq→==,
  ne→==_false, append-nil, ◌≢◌,
}
use mathlib.Core.Option
use xvc_support.Base.Rounding.{div_mod, ceil_exact, ceil_over}
use native.Mathlib.Nat.{div-le_self}
use native.Mathlib.Decide.{ℕ_discrete}
use xvc_support.Header.Memory.{set_hdr}
use xvc_support.Header.Wire.{set_hdr-parts}
use xvc_support.Driver.Message.{memcpy, store_words, pack}
use xvc_support.Driver.Pack.{pairs, length-pairs, memcpy-parts, length-slice, store_words-pairs}

-- A block cut at `l` and at `w`.
cut_twice :
    (l w : ℕ) (rest : List ℕ)
    → l ≤ w
    → rest ≡ take l rest ++ (take (w - l) (drop l rest) ++ drop w rest)
cut_twice l w rest h =
    let e : l + (w - l) ≡ w = omega arith in
    let back : drop (w - l) (drop l rest) ≡ drop w rest =
      drop-drop (w - l) l rest ∙ ap (λ (k : ℕ). drop k rest) e in
    sym (take-append-drop l rest)
    ∙ ap (λ t. take l rest ++ t)
        (sym (take-append-drop (w - l) (drop l rest))
          ∙ ap (λ t. take (w - l) (drop l rest) ++ t) back)

-- The octets between and behind the two pieces of the last words keep what the block held.
abbrev pub pad : ℕ → ℕ → List ℕ → List ℕ
pad l w rest = take (w - l) (drop l rest)

last_words :
    (front rest a b : List ℕ) (wp ia ib l w : ℕ)
    → length front ≡ wp
    → 2 * w ≤ length rest
    → l ≤ w
    → ia + l ≤ length a
    → ib + l ≤ length b
    → Option.bind (memcpy (front ++ rest) wp a ia l) (λ m. memcpy m (wp + w) b ib l)
      ≡ some (
          front
          ++ (take l (drop ia a)
              ++ (pad l w rest
                  ++ (take l (drop ib b) ++ (pad l w (drop w rest) ++ drop w (drop w rest))))))
unfolding Option.bind
last_words front rest a b wp ia ib l w hf hr hl ha hb =
    let t : List ℕ = take l (drop ia a) in
    let d : List ℕ = take l (drop ib b) in
    let p : List ℕ = pad l w rest in
    let q : List ℕ = drop w rest in
    let end : List ℕ = pad l w q ++ drop w q in
    let first : memcpy (front ++ rest) wp a ia l ≡ some (front ++ (t ++ (p ++ q))) =
      ap (λ m. memcpy (front ++ m) wp a ia l) (cut_twice l w rest hl)
      ∙ memcpy-parts front (take l rest) (p ++ q) a wp ia l hf (omega (arith, length-take l rest))
          ha in
    let split : front ++ (t ++ (p ++ q)) ≡ (front ++ (t ++ p)) ++ (take l q ++ end) =
      ap (λ m. front ++ m) (sym (append_assoc t p q))
      ∙ sym (append_assoc front (t ++ p) q)
      ∙ ap (λ m. (front ++ (t ++ p)) ++ m) (cut_twice l w q hl) in
    let size : length (front ++ (t ++ p)) ≡ wp + w = omega (
      arith,
      length-append {0} front (t ++ p),
      length-append {0} t p,
      length-slice a ia l ha,
      length-slice rest l (w - l) (omega arith),
    ) in
    let second : memcpy (front ++ (t ++ (p ++ q))) (wp + w) b ib l
        ≡ some ((front ++ (t ++ p)) ++ (d ++ end)) =
      rw split (
        memcpy-parts (front ++ (t ++ p)) (take l q) end b (wp + w) ib l size
          (omega (arith, length-take l q, length-drop w rest)) hb) in
    rw (first, second)
      (ap some (
        append_assoc front (t ++ p) (d ++ end)
        ∙ ap (λ m. front ++ m) (append_assoc t p (d ++ end))))

abbrev pub rounded : ℕ → ℕ → ℕ
rounded n wsz = (n + wsz - 1) / wsz * wsz

-- The header word on the wire.
abbrev pub header_word : ℕ → ℕ → List ℕ
header_word wsz hdr = to_le 4 hdr ++ replicate (wsz - 4) 0

pub length-header_word : (wsz hdr : ℕ) → 4 ≤ wsz → length (header_word wsz hdr) ≡ wsz
length-header_word wsz hdr h = omega (
  arith,
  length-append {0} (to_le 4 hdr) (replicate (wsz - 4) 0),
  length-replicate {0} (wsz - 4) (let z : ℕ = 0 in z),
)

-- A vector's last octets, which do not fill a word.
abbrev pub leftover : ℕ → ℕ → List ℕ → List ℕ
leftover n wsz v = take (n % wsz) (drop (n / wsz * wsz) v)

-- The message: `p` and `q` fill up the last words, `back` is what follows in the block.
abbrev pub message : ℕ → ℕ → ℕ → List ℕ → List ℕ → List ℕ → List ℕ → List ℕ → List ℕ
message wsz hdr n tms tdi p q back =
    header_word wsz hdr
    ++ (pairs (n / wsz) wsz tms tdi
        ++ (leftover n wsz tms ++ (p ++ (leftover n wsz tdi ++ (q ++ back)))))

module _ (le : Bool) (wsz n hdr : ℕ) (tms tdi buf : List ℕ) (w4 : 4 ≤ wsz) (w16 : wsz ≤ 16)
    (small : n < 2147483648) (ha : n ≤ length tms) (hb : n ≤ length tdi)
    (fits : wsz + 2 * rounded n wsz ≤ length buf) where
  words_le : n / wsz * wsz ≤ rounded n wsz
  words_le = elim (ℕ_discrete (n % wsz) 0) [
    | yes e ↦ omega (arith, ceil_exact n wsz (omega arith) e, div_mod n wsz)
    | no e ↦ omega (arith, ceil_over n wsz (omega arith) e)
  ]

  -- The header and the whole words are in place.
  stored : List ℕ
  stored = header_word wsz hdr ++ pairs (n / wsz) wsz tms tdi

  rest : List ℕ
  rest = drop (2 * (n / wsz * wsz)) (drop wsz buf)

  header_set : set_hdr le wsz buf 0 hdr ≡ some (header_word wsz hdr ++ (drop wsz buf ++ []))
  header_set =
      let whole : buf ≡ [] ++ (take wsz buf ++ drop wsz buf) = sym (take-append-drop wsz buf) in
      let e : set_hdr le wsz ([] ++ (take wsz buf ++ drop wsz buf)) 0 hdr
          ≡ some ([] ++ (to_le 4 hdr ++ (replicate (wsz - 4) 0 ++ drop wsz buf))) =
        set_hdr-parts le wsz [] (take wsz buf) (drop wsz buf) 0 hdr refl
          (omega (arith, length-take wsz buf)) w4 w16 in
      ap (λ b. set_hdr le wsz b 0 hdr) whole
      ∙ e
      ∙ ap some (
          sym (append_assoc (to_le 4 hdr) (replicate (wsz - 4) 0) (drop wsz buf))
          ∙ ap (λ b. header_word wsz hdr ++ b) (sym (append-nil (drop wsz buf))))

  words_set :
      store_words (n / wsz) wsz tms tdi 0 wsz (header_word wsz hdr ++ (drop wsz buf ++ []))
      ≡ some (stored ++ rest)
  unfolding stored rest
  words_set =
      store_words-pairs wsz tms tdi (n / wsz) (header_word wsz hdr) (drop wsz buf) [] 0 wsz
        (length-header_word wsz hdr w4) (omega (arith, length-drop wsz buf, words_le))
        (omega (arith, div_mod n wsz)) (omega (arith, div_mod n wsz))
      ∙ ap some (
          ap (λ b. header_word wsz hdr ++ (pairs (n / wsz) wsz tms tdi ++ b))
            (append-nil (drop (2 * (n / wsz * wsz)) (drop wsz buf)))
          ∙ sym (
              append_assoc (header_word wsz hdr) (pairs (n / wsz) wsz tms tdi)
                (drop (2 * (n / wsz * wsz)) (drop wsz buf))))

  stored_size : length stored ≡ wsz + n / wsz * wsz * 2
  unfolding stored
  stored_size = omega (
    arith,
    length-append {0} (header_word wsz hdr) (pairs (n / wsz) wsz tms tdi),
    length-header_word wsz hdr w4,
    length-pairs (n / wsz) wsz tms tdi (omega (arith, div_mod n wsz))
        (omega (arith, div_mod n wsz)),
  )

  -- `sendVectors` with the conversions to `unsigned` gone, which lose nothing at such sizes.
  pack_steps : pack le wsz hdr n tms tdi buf ≡ (
      if n % wsz == 0
      then some (stored ++ rest)
      else Option.bind
          (memcpy (stored ++ rest) (wsz + n / wsz * wsz * 2) tms (n / wsz * wsz) (n % wsz))
          (λ m. memcpy m (wsz + n / wsz * wsz * 2 + wsz) tdi (n / wsz * wsz) (n % wsz)))
  unfolding pack Option.bind
  pack_steps =
      let q : u32 (n / wsz) ≡ n / wsz = omega (arith, div-le_self n wsz) in
      let m : u32 (n / wsz * wsz) ≡ n / wsz * wsz = omega (arith, div_mod n wsz) in
      let l : u32 (n - n / wsz * wsz) ≡ n % wsz = omega (arith, div_mod n wsz) in
      rw (q, m, l, header_set) (rw words_set)

  rest_size : length rest ≡ length buf - wsz - 2 * (n / wsz * wsz)
  unfolding rest
  rest_size = omega (arith, length-drop (2 * (n / wsz * wsz)) (drop wsz buf), length-drop wsz buf)

  -- What the message says, for either way in which the vectors can end.
  abbrev pub Layout : List ℕ → List ℕ → List ℕ → Type 0
  Layout p q back =
      (pack le wsz hdr n tms tdi buf ≡ some (message wsz hdr n tms tdi p q back))
      × (length p ≡ rounded n wsz - n)
      × (length q ≡ rounded n wsz - n)
      × (length back ≡ length buf - (wsz + 2 * rounded n wsz))

  Layout-exact : n % wsz ≡ 0 → Layout [] [] rest
  Layout-exact e =
      let whole : rounded n wsz ≡ n = ceil_exact n wsz (omega arith) e in
      let none_left : stored ++ rest ≡ message wsz hdr n tms tdi [] [] rest =
        unfold stored in
        rw e (append_assoc (header_word wsz hdr) (pairs (n / wsz) wsz tms tdi) rest) in
      (
        pack_steps ∙ rw (eq→== (n % wsz) 0 e) (ap some none_left),
        omega arith,
        omega arith,
        omega (arith, rest_size, div_mod n wsz),
      )

  ending : List ℕ
  ending =
      leftover n wsz tms
      ++ (pad (n % wsz) wsz rest
          ++ (leftover n wsz tdi
              ++ (pad (n % wsz) wsz (drop wsz rest) ++ drop wsz (drop wsz rest))))

  Layout-over :
      n % wsz ≢ 0
      → Layout
          (pad (n % wsz) wsz rest)
          (pad (n % wsz) wsz (drop wsz rest))
          (drop wsz (drop wsz rest))
  unfolding ending
  Layout-over ne =
      let over : rounded n wsz ≡ n / wsz * wsz + wsz = ceil_over n wsz (omega arith) ne in
      let dm : n / wsz * wsz + n % wsz ≡ n = div_mod n wsz in
      let l : n % wsz < wsz = omega arith in
      let room : 2 * wsz ≤ length rest = omega (arith, rest_size) in
      let last : Option.bind
            (memcpy (stored ++ rest) (wsz + n / wsz * wsz * 2) tms (n / wsz * wsz) (n % wsz))
            (λ m. memcpy m (wsz + n / wsz * wsz * 2 + wsz) tdi (n / wsz * wsz) (n % wsz))
          ≡ some (stored ++ ending) =
        last_words stored rest tms tdi (wsz + n / wsz * wsz * 2) (n / wsz * wsz) (n / wsz * wsz)
          (n % wsz) wsz stored_size room (omega arith) (omega arith) (omega arith) in
      (
        pack_steps
            ∙ rw (ne→==_false (n % wsz) 0 ne) (
                last
                ∙ ap some (
                    unfold stored in
                    append_assoc (header_word wsz hdr) (pairs (n / wsz) wsz tms tdi) ending)),
        omega (arith, length-slice rest (n % wsz) (wsz - n % wsz) (omega arith)),
        omega (
          arith,
          length-slice (drop wsz rest) (n % wsz) (wsz - n % wsz)
              (omega (arith, length-drop wsz rest)),
        ),
        omega (arith, length-drop wsz (drop wsz rest), length-drop wsz rest, rest_size),
      )

  -- For a word size of 4 to 16 and vectors of less than 2^31 octets that fit the block,
  -- `sendVectors` stores the header word, the words of TMS and TDI in turns, and the last octets
  -- of each, filled up to a word; the rest of the block stays.
  pub pack-Layout : (p : List ℕ) × (q : List ℕ) × (back : List ℕ) × Layout p q back
  pack-Layout = elim (ℕ_discrete (n % wsz) 0) [
    | yes e ↦ ([], [], rest, Layout-exact e)
    | no ne ↦ (
      pad (n % wsz) wsz rest,
      pad (n % wsz) wsz (drop wsz rest),
      drop wsz (drop wsz rest),
      Layout-over ne,
    )
  ]
