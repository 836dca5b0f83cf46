-- ===== src/Header/Fields.antt =====
-- The fields of a header as quotients and remainders of its number.
use xvc_support.Base.{
  ℕ, ◌+◌, ◌-◌, ◌*◌, ◌/◌, ◌%◌, ◌^◌, ◌≤◌, ◌<◌, ◌≡◌, bit_or, arith, u32, sub32, ok, ◌∙◌, ap,
}
use xvc_support.Base.Bits.{and_low, and_high, or_parts}
use xvc_support.Header.{
  get_xid, get_cmd, get_err, get_len, get_vrs, cmd_s, cmd_e, word_size, mem_depth, mk_shift,
  new_xid,
}

pub get_xid_lem : (x : ℕ) → get_xid x ≡ x / 2 ^ 20 % 256
unfolding get_xid
get_xid_lem x = and_low 8 (x / 2 ^ 20)

pub get_cmd_lem : (x : ℕ) → get_cmd x ≡ x / 2 ^ 28 % 4 * 2 ^ 28
unfolding get_cmd
get_cmd_lem x = and_high 28 x 3 ∙ ap (λ (t : ℕ). t * 2 ^ 28) (and_low 2 (x / 2 ^ 28))

pub get_vrs_lem : (x : ℕ) → get_vrs x ≡ x / 2 ^ 30 % 4 * 2 ^ 30
unfolding get_vrs
get_vrs_lem x = and_high 30 x 3 ∙ ap (λ (t : ℕ). t * 2 ^ 30) (and_low 2 (x / 2 ^ 30))

pub get_len_lem : (x : ℕ) → get_cmd x ≡ cmd_s → get_len x ≡ ok (x % 2 ^ 20 + 1)
unfolding get_len
get_len_lem x h = ground (arith, and_low 20 x)

pub get_err_lem : (x : ℕ) → get_cmd x ≡ cmd_e → get_err x ≡ x % 256
unfolding get_err
get_err_lem x h = ground (arith, and_low 8 x)

pub word_size_lem : (x : ℕ) → word_size x ≡ x % 16 + 1
unfolding word_size
word_size_lem x = ap (λ (t : ℕ). t + 1) (and_low 4 x)

pub mem_depth_lem : (x : ℕ) → mem_depth x ≡ x / 16 % 65536
unfolding mem_depth
mem_depth_lem x = and_low 16 (x / 2 ^ 4)

pub new_xid-lt : (x : ℕ) → new_xid x < 256
unfolding new_xid
new_xid-lt x = ground arith

-- A shift header is the sum of its fields where the length fits its 20 bits.
pub mk_shift_sum :
    (xid len : ℕ)
    → 1 ≤ len
    → len ≤ 2 ^ 20
    → mk_shift xid len ≡ (cmd_s + new_xid xid * 2 ^ 20 + (len - 1), new_xid xid)
unfolding mk_shift
mk_shift_sum xid len lo hi =
    let bound : new_xid xid < 256 = new_xid-lt xid in
    let low : sub32 (u32 len) 1 ≡ len - 1 = omega arith in
    let shifted : u32 (new_xid xid * 2 ^ 20) ≡ new_xid xid * 2 ^ 20 = omega arith in
    let upper : bit_or cmd_s (new_xid xid * 2 ^ 20) ≡ cmd_s + new_xid xid * 2 ^ 20 =
      or_parts 28 1 (new_xid xid * 2 ^ 20) (omega arith) in
    let all : bit_or (cmd_s + new_xid xid * 2 ^ 20) (len - 1)
        ≡ cmd_s + new_xid xid * 2 ^ 20 + (len - 1) =
      let e : cmd_s + new_xid xid * 2 ^ 20 ≡ (256 + new_xid xid) * 2 ^ 20 = omega arith in
      rw e (or_parts 20 (256 + new_xid xid) (len - 1) (omega arith)) in
    rw (low, shifted, upper, all)

-- The command of a shift is no error.
pub get_err-shift : (h : ℕ) → get_cmd h ≡ cmd_s → get_err h ≡ 0
unfolding get_err
get_err-shift h e = rw e
