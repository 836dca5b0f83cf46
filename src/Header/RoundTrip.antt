-- ===== src/Header/RoundTrip.antt =====
-- What the sender puts into a header is what the receiver reads from it.
use xvc_support.Base.{
  ℕ, ◌+◌, ◌-◌, ◌*◌, ◌%◌, ◌^◌, ◌≤◌, ◌<◌, ◌≡◌, bit_and, bit_or, sub32, ok, arith, ap, ◌∙◌,
}
use xvc_support.Base.Bits.{and_low, or_parts, zero-or}
use xvc_support.Header.{
  get_xid, get_cmd, get_len, get_vrs, cmd_s, cmd_q, pver0, word_size, mem_depth, enc_per_ns,
  mk_shift, new_xid, mk_query_reply,
}
use xvc_support.Header.Fields.{
  get_xid_lem, get_cmd_lem, get_vrs_lem, get_len_lem, word_size_lem, mem_depth_lem, mk_shift_sum,
  new_xid-lt,
}

-- A shift header for 1 to 2^20 bits carries the protocol version, the shift command, the new
-- transaction id and the number of bits.
pub fields-mk_shift :
    (xid len : ℕ)
    → 1 ≤ len
    → len ≤ 2 ^ 20
    → let h = (mk_shift xid len).0 in
      (get_vrs h ≡ pver0) × (get_cmd h ≡ cmd_s) × (get_xid h ≡ new_xid xid) × (get_len h ≡ ok len)
fields-mk_shift xid len lo hi =
    let bound : new_xid xid < 256 = new_xid-lt xid in
    let h : ℕ = cmd_s + new_xid xid * 2 ^ 20 + (len - 1) in
    let cmd : get_cmd h ≡ cmd_s = omega (arith, get_cmd_lem h) in
    let body : (h % 2 ^ 20) + 1 ≡ len = omega arith in
    rw (mk_shift_sum xid len lo hi) (
      omega (arith, get_vrs_lem h),
      cmd,
      omega (arith, get_xid_lem h),
      get_len_lem h cmd ∙ ap ok body,
    )

module _ (log_code : ℕ → ℕ) where
  reply_sum :
      (ws depth period : ℕ)
      → 1 ≤ ws
      → ws ≤ 16
      → depth < 2 ^ 16
      → period < 2 ^ 8
      → mk_query_reply log_code pver0 ws depth period
        ≡ ok (enc_per_ns log_code period % 256 * 2 ^ 20 + depth * 2 ^ 4 + (ws - 1))
  unfolding mk_query_reply
  reply_sum ws depth period w1 w16 d p =
      let e : ℕ = enc_per_ns log_code period in
      let m1 : bit_and e 0xff ≡ e % 256 = and_low 8 e in
      let m2 : bit_and depth 0xffff ≡ depth = omega (arith, and_low 16 depth) in
      let m3 : bit_and (sub32 ws 1) 0xf ≡ ws - 1 = omega (arith, and_low 4 (sub32 ws 1)) in
      let o1 : bit_or (e % 256 * 2 ^ 20) (depth * 2 ^ 4) ≡ e % 256 * 2 ^ 20 + depth * 2 ^ 4 =
        or_parts 20 (e % 256) (depth * 2 ^ 4) (omega arith) in
      let o2 : bit_or (e % 256 * 2 ^ 20 + depth * 2 ^ 4) (ws - 1)
          ≡ e % 256 * 2 ^ 20 + depth * 2 ^ 4 + (ws - 1) =
        let g : e % 256 * 2 ^ 20 + depth * 2 ^ 4 ≡ (e % 256 * 2 ^ 16 + depth) * 2 ^ 4 =
          omega arith in
        rw g (or_parts 4 (e % 256 * 2 ^ 16 + depth) (ws - 1) (omega arith)) in
      ground (arith, m1, m2, m3, o1, o2, zero-or (e % 256 * 2 ^ 20))

  -- A query reply made for a word size of 1 to 16, a 16-bit memory depth and a period below 256 is
  -- read back as that word size, that depth, and the low octet of the encoded period.
  pub query-mk_query_reply :
      (ws depth period : ℕ)
      → 1 ≤ ws
      → ws ≤ 16
      → depth < 2 ^ 16
      → period < 2 ^ 8
      → (h : ℕ) × (mk_query_reply log_code pver0 ws depth period ≡ ok h)
        × (get_cmd h ≡ cmd_q)
        × (get_xid h ≡ enc_per_ns log_code period % 256)
        × (word_size h ≡ ws)
        × (mem_depth h ≡ depth)
  query-mk_query_reply ws depth period w1 w16 d p =
      let h : ℕ = enc_per_ns log_code period % 256 * 2 ^ 20 + depth * 2 ^ 4 + (ws - 1) in
      (
        h,
        reply_sum ws depth period w1 w16 d p,
        omega (arith, get_cmd_lem h),
        omega (arith, get_xid_lem h),
        omega (arith, word_size_lem h),
        omega (arith, mem_depth_lem h),
      )
