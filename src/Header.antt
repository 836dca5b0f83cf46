-- ===== src/Header.antt =====
-- The 32-bit message header of the AxisToJtag stream: xvcSrv/src/xvcSrv.cc (newXid to setHdr) and
-- the constants of xvcSrv/src/xvcDriver.h. The floating-point code of `cvtPerNs` and `encPerNs`
-- calls libm: `pow_code` and `log_code` stand for the numbers that it rounds to.
pub mod Memory
pub mod Fields
pub mod Xids
pub mod RoundTrip
pub mod Wire
use xvc_support.Base.{
  ℕ, ◌+◌, ◌-◌, ◌*◌, ◌/◌, ◌%◌, ◌^◌, bit_and, bit_or, Bool, true, false, Option, none, some, List,
  ◌≡◌, ltb, ◌==◌, not, if◌then◌else◌, u8, u32, sub32, Result, ok, err, proto_err, runtime_error,
}

abbrev pub xid_any : ℕ
xid_any = 0

abbrev pub pver0 : ℕ
pver0 = 0x00000000

abbrev pub pvers : ℕ
pvers = pver0

abbrev pub cmd_q : ℕ
cmd_q = 0x00000000

abbrev pub cmd_s : ℕ
cmd_s = 0x10000000

abbrev pub cmd_e : ℕ
cmd_e = 0x20000000

abbrev pub vrs_mask : ℕ
vrs_mask = 0xc0000000

abbrev pub cmd_mask : ℕ
cmd_mask = 0x30000000

abbrev pub err_mask : ℕ
err_mask = 0x000000ff

abbrev pub len_mask : ℕ
len_mask = 0x000fffff

abbrev pub err_bad_version : ℕ
err_bad_version = 1

abbrev pub err_bad_command : ℕ
err_bad_command = 2

abbrev pub err_truncated : ℕ
err_truncated = 3

abbrev pub err_not_present : ℕ
err_not_present = 4

abbrev pub unknown_period : ℕ
unknown_period = 0

-- `getXid`, with the cast of its result to `Xid`.
unfoldable pub get_xid : ℕ → ℕ
get_xid x = bit_and (x / 2 ^ 20) 0xff

unfoldable pub get_cmd : ℕ → ℕ
get_cmd x = bit_and x cmd_mask

unfoldable pub get_err : ℕ → ℕ
get_err x = if not (get_cmd x == cmd_e) then 0 else bit_and x err_mask

unfoldable pub get_len : ℕ → Result ℕ
get_len x = if not (get_cmd x == cmd_s) then err proto_err else ok (bit_and x len_mask + 1)

unfoldable pub get_vrs : ℕ → ℕ
get_vrs x = bit_and x vrs_mask

-- The texts of `getMsg`; `none` is the NULL of an unknown error.
pub data Message : Type 0 where
  no_error unsupported_version unsupported_command no_firmware_support : Message

unfoldable pub get_msg : ℕ → Option Message
get_msg e =
    if e == 0
    then some no_error
    else if e == err_bad_version
    then some unsupported_version
    else if e == err_bad_command
    then some unsupported_command
    else if e == err_truncated
    then some unsupported_command
    else if e == err_not_present
    then some no_firmware_support
    else none

-- The new value of `xid_`: it is increased, and once more if it has become `XID_ANY`.
unfoldable pub new_xid : ℕ → ℕ
new_xid xid = let x = u8 (xid + 1) in if xid_any == x then u8 (x + 1) else x

unfoldable pub mk_query : ℕ
mk_query = bit_or (bit_or pvers cmd_q) xid_any

-- The header and the new `xid_`.
unfoldable pub mk_shift : ℕ → ℕ → ℕ × ℕ
unfolding new_xid
mk_shift xid len =
    let len' = sub32 (u32 len) 1 in
    let x = new_xid xid in (bit_or (bit_or (bit_or pvers cmd_s) (u32 (x * 2 ^ 20))) len', x)

unfoldable pub word_size : ℕ → ℕ
word_size reply = bit_and reply 0x0000000f + 1

unfoldable pub mem_depth : ℕ → ℕ
mem_depth reply = bit_and (reply / 2 ^ 4) 0xffff

-- `pow_code r` is `round( pow( 10.0, r*4.0/256.0 )*1.0E9/REF_FREQ_HZ )`.
unfoldable pub cvt_per_ns : (ℕ → ℕ) → ℕ → ℕ
cvt_per_ns pow_code reply =
    let raw = bit_and (reply / 2 ^ 20) 0xff in if 0 == raw then unknown_period else pow_code raw

-- `log_code n` is `round( log10( n*REF_FREQ_HZ/1.0E9 ) * 256.0/4.0 )`.
unfoldable pub enc_per_ns : (ℕ → ℕ) → ℕ → ℕ
enc_per_ns log_code per_ns = if unknown_period == per_ns then 0 else log_code per_ns

unfoldable pub mk_query_reply : (ℕ → ℕ) → ℕ → ℕ → ℕ → ℕ → Result ℕ
unfolding enc_per_ns
mk_query_reply log_code proto_vers word_size mem_depth period_ns =
    let period_encoded = enc_per_ns log_code period_ns in
    if not (proto_vers == pver0)
    then err runtime_error
    else if ltb 16 word_size
    then err runtime_error
    else if not (ltb mem_depth (2 ^ 16))
    then err runtime_error
    else if not (ltb period_ns (2 ^ 8))
    then err runtime_error
    else let rval = bit_or proto_vers cmd_q in
      let rval = bit_or rval (bit_and period_encoded 0xff * 2 ^ 20) in
      let rval = bit_or rval (bit_and mem_depth 0xffff * 2 ^ 4) in
      ok (bit_or rval (bit_and (sub32 word_size 1) 0xf))
