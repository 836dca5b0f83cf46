-- ===== src/Mmio/Map.antt =====
-- The constructor of `MemMap`, xvcSrv/src/mmioHelper.h: the part of the device file that is mapped.
-- strtoul, open, mmap and the page size are parameters.
use xvc_support.Base.{
  ℕ, ◌+◌, ◌-◌, ◌*◌, ◌/◌, ◌%◌, ◌^◌, ◌≤◌, ◌<◌, ◌≡◌, bit_and, Bool, Option, none, some, List, [], ◌∷◌,
  ◌==◌, if◌then◌else◌, sys_err, runtime_error, Result, ok, err, arith,
}
use native.Mathlib.Nat.{one-le-pow, mod-lt, mul-mod_left}
use xvc_support.Base.Bits.{and_low}
use xvc_support.Base.Rounding.{div_mod}

-- The name before the first colon, and what follows it.
unfoldable pub split_name : List ℕ → List ℕ × Option (List ℕ)
split_name [] = ([], none)
split_name (c ∷ cs) =
    let rest = split_name cs in if c == 58 then ([], some cs) else (c ∷ rest.0, rest.1)

-- `strtoul` gives `none` if it does not take all of a text.
unfoldable pub map_offset : (List ℕ → Option ℕ) → Option (List ℕ) → Result ℕ
map_offset strtoul none = ok 0
map_offset strtoul (some []) = ok 0
map_offset strtoul (some (c ∷ cs)) = elim (strtoul (c ∷ cs)) [
  | none ↦ err runtime_error
  | some off ↦ ok off
]

-- The offset in the file and the size of what is mapped, and where the registers begin in it.
pub record Area : Type 0 where
  pub file_off : ℕ
  pub map_siz : ℕ
  pub map_off : ℕ

-- On `unsigned long` (64 bits).
unfoldable pub map_area : ℕ → ℕ → ℕ → Area
map_area pgsz off siz =
    let map_off = bit_and off (pgsz - 1) in
    record {
      file_off = (off + 2 ^ 64 - map_off) % 2 ^ 64;
      map_siz = (map_off + siz + pgsz - 1) % 2 ^ 64 / pgsz * pgsz % 2 ^ 64;
      map_off = map_off;
    }

unfoldable pub mem_map :
    (List ℕ → Option ℕ) → (List ℕ → Bool) → (Area → Bool) → ℕ → List ℕ → ℕ → Result Area
mem_map strtoul opens mmaps pgsz name siz =
    let parts = split_name name in
    elim (map_offset strtoul parts.1) [
      | err e ↦ err e
      | ok off ↦
          if opens parts.0
          then (let area = map_area pgsz off siz in if mmaps area then ok area else err sys_err)
          else err sys_err
    ]

pages : (n p : ℕ) → 1 ≤ p → (n ≤ (n + p - 1) / p * p) × ((n + p - 1) / p * p < n + p)
pages n p h = (grind arith, grind arith)

-- For a page size that is a power of 2, and an offset and a size that do not wrap around, the part
-- of the file that is mapped begins and ends at a page, has the registers at the offset asked for,
-- covers all of the size, and is less than a page longer than that.
pub map_area-covers :
    (k off siz : ℕ)
    → let p = 2 ^ k in
      let a = map_area p off siz in
      off + siz + 2 * p ≤ 2 ^ 64
      → (a.file_off % p ≡ 0)
        × (a.file_off + a.map_off ≡ off)
        × (a.map_siz % p ≡ 0)
        × (a.map_off + siz ≤ a.map_siz)
        × (a.map_siz < a.map_off + siz + p)
unfolding map_area
map_area-covers k off siz fits =
    let p : ℕ = 2 ^ k in
    let pos : 1 ≤ p = one-le-pow k 2 (omega arith) in
    let low : bit_and off (p - 1) ≡ off % p = and_low k off in
    let parts : off / p * p + off % p ≡ off = div_mod off p in
    let start : (off + 2 ^ 64 - off % p) % 2 ^ 64 ≡ off / p * p = omega arith in
    let n : ℕ = off % p + siz in
    let (enough, little) = pages n p pos in
    let less : off % p < p = mod-lt off pos in
    let whole : (n + p - 1) % 2 ^ 64 ≡ n + p - 1 = omega arith in
    let size : (n + p - 1) / p * p % 2 ^ 64 ≡ (n + p - 1) / p * p = omega arith in
    rw (low, start, whole, size)
      (mul-mod_left (off / p) p, parts, mul-mod_left ((n + p - 1) / p) p, enough, little)
