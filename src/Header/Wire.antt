-- ===== src/Header/Wire.antt =====
-- The octets of a header word on the wire, whatever the octet order of the host.
use xvc_support.Base.{
  ℕ, ◌+◌, ◌-◌, ◌^◌, ◌≤◌, ◌<◌, ◌≡◌, refl, Bool, true, false, some, List, ◌++◌, sub32, length, to_le,
  of_le, write_at, of_le-to_le, to_le-of_le, take, leb, read_at-parts, write_at-parts, arith, ap,
  sym, ◌∙◌, replicate, length-replicate, length-append, append_assoc, drop, length-drop,
  length-take, take-append-drop, if◌then◌else◌,
}
use mathlib.Core.List.{reverse}
use xvc_support.Header.Memory.{word_bytes, word_of, bswap32, getw32, setw32, set_hdr}

swapped_bytes : (w : ℕ) → word_bytes false (bswap32 w) ≡ to_le 4 w
unfolding word_bytes bswap32
swapped_bytes w = ap reverse (to_le-of_le (reverse (to_le 4 w)) (omega arith))

wire_bytes : (le : Bool) (w : ℕ) → word_bytes le (if le then w else bswap32 w) ≡ to_le 4 w
wire_bytes true w = unfold word_bytes in refl
wire_bytes false w = swapped_bytes w

wire_word :
    (le : Bool) (w : ℕ)
    → w < 2 ^ 32
    → (if le then word_of le (to_le 4 w) else bswap32 (word_of le (to_le 4 w))) ≡ w
unfolding word_of bswap32
wire_word true w h = of_le-to_le 4 w h
wire_word false w h =
    ap (λ bs. of_le (reverse bs)) (to_le-of_le (reverse (to_le 4 w)) (omega arith))
    ∙ of_le-to_le 4 w h

-- `setw32` of `l` octets, between what stands before and after them.
pub setw32-parts :
    (le : Bool) (front old back : List ℕ) (off w l : ℕ)
    → length front ≡ off
    → length old ≡ l
    → l ≤ 4
    → setw32 le (front ++ (old ++ back)) off w l ≡ some (front ++ (take l (to_le 4 w) ++ back))
unfolding setw32
setw32-parts le front old back off w l hf ho h4 =
    let n : (if leb 4 l then 4 else l) ≡ l = ground arith in
    let size : length (take l (to_le 4 w)) ≡ l = omega (arith, length-take l (to_le 4 w)) in
    rw (n, wire_bytes le w)
      (write_at-parts front old back (take l (to_le 4 w)) off hf (ho ∙ sym size))

pub getw32-parts :
    (le : Bool) (front back : List ℕ) (off w : ℕ)
    → length front ≡ off
    → w < 2 ^ 32
    → getw32 le (front ++ (to_le 4 w ++ back)) off ≡ some w
unfolding getw32
getw32-parts le front back off w hf hw =
    rw (read_at-parts front (to_le 4 w) back off 4 hf refl) (ap some (wire_word le w hw))

pub set_hdr-parts :
    (le : Bool) (ws : ℕ) (front old back : List ℕ) (off hdr : ℕ)
    → length front ≡ off
    → length old ≡ ws
    → 4 ≤ ws
    → ws ≤ 16
    → set_hdr le ws (front ++ (old ++ back)) off hdr
      ≡ some (front ++ (to_le 4 hdr ++ (replicate (ws - 4) 0 ++ back)))
unfolding set_hdr
set_hdr-parts le ws front old back off hdr hf ho h4 h16 =
    let split : old ++ back ≡ take 4 old ++ (drop 4 old ++ back) =
      ap (λ t. t ++ back) (sym (take-append-drop 4 old)) ∙ append_assoc (take 4 old) _ back in
    let first : setw32 le (front ++ (old ++ back)) off hdr 4
        ≡ some (front ++ (to_le 4 hdr ++ (drop 4 old ++ back))) =
      rw split (
        setw32-parts le front (take 4 old) (drop 4 old ++ back) off hdr 4 hf
          (omega (arith, length-take 4 old)) (omega arith)) in
    let pad : sub32 ws 4 ≡ ws - 4 = omega arith in
    let second : write_at ((front ++ to_le 4 hdr) ++ (drop 4 old ++ back)) (off + 4)
          (replicate (ws - 4) 0)
        ≡ some ((front ++ to_le 4 hdr) ++ (replicate (ws - 4) 0 ++ back)) =
      write_at-parts (front ++ to_le 4 hdr) (drop 4 old) back (replicate (ws - 4) 0) (off + 4)
        (omega (arith, length-append {0} front (to_le 4 hdr)))
        (omega (arith, length-drop 4 old, length-replicate {0} (ws - 4) (let z : ℕ = 0 in z))) in
    rw (first, set_hdr)
      (rw pad (
        rw
          (
            append_assoc front (to_le 4 hdr) (drop 4 old ++ back),
            append_assoc front (to_le 4 hdr) (replicate (ws - 4) 0 ++ back),
          )
          at second))

-- A 32-bit word that `setw32` writes inside a block on one host and `getw32` reads on another, of
-- either octet order, is the same word; the block keeps its length.
pub getw32-setw32 :
    (le le' : Bool) (mem : List ℕ) (off w : ℕ)
    → off + 4 ≤ length mem
    → w < 2 ^ 32
    → (mem' : List ℕ) × (setw32 le mem off w 4 ≡ some mem')
      × (length mem' ≡ length mem)
      × (getw32 le' mem' off ≡ some w)
getw32-setw32 le le' mem off w fits hw =
    let front : List ℕ = take off mem in
    let old : List ℕ = take 4 (drop off mem) in
    let back : List ℕ = drop 4 (drop off mem) in
    let hf : length front ≡ off = omega (arith, length-take off mem) in
    let ho : length old ≡ 4 = omega (arith, length-take 4 (drop off mem), length-drop off mem) in
    let whole : front ++ (old ++ back) ≡ mem =
      ap (λ t. front ++ t) (take-append-drop 4 (drop off mem)) ∙ take-append-drop off mem in
    let sizes : length (front ++ (to_le 4 w ++ back)) ≡ length mem = omega (
      arith,
      length-append {0} front (to_le 4 w ++ back),
      length-append {0} (to_le 4 w) back,
      length-drop 4 (drop off mem),
      length-drop off mem,
    ) in
    (
      front ++ (to_le 4 w ++ back),
      rw whole at (setw32-parts le front old back off w 4 hf ho (omega arith)),
      sizes,
      getw32-parts le' front back off w hf hw,
    )
