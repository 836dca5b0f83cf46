-- ===== src/LoopBack/EndToEnd.antt =====
-- The driver over the loopback.
use xvc_support.Base.{
  ℕ, ◌+◌, ◌-◌, ◌*◌, ◌/◌, ◌%◌, ◌^◌, ◌≤◌, ◌<◌, ◌≡◌, refl, ap, sym, ◌∙◌, true, false, Option, some,
  List, [], ◌++◌, length, take, drop, write_at, bit_or, u32, write_at-parts, length-take,
  take-append-drop, arith, ok, to_le,
}
use Prim.Native.String.{String}
use xvc_support.Base.Bits.{or_parts}
use xvc_support.Header.Fields.{get_err-shift}
use xvc_support.Header.{get_vrs, get_cmd, cmd_s, pver0, mk_shift}
use xvc_support.Header.Memory.{word_bytes}
use xvc_support.Header.Wire.{getw32-parts}
use xvc_support.Header.RoundTrip.{fields-mk_shift}
use xvc_support.Driver.{RxBuf, Drv, send_vectors, get_sniff}
use xvc_support.Driver.Ready.{IsReady}
use xvc_support.Driver.Pack.Layout.{message, rounded}
use xvc_support.Driver.Send.{Answers, mk_shift-lt, send_vectors_answered}
use xvc_support.LoopBack.{
  Format, Loop, emul_word_size, request_header, shift, dispatch, respond, loop_xfer,
}
use xvc_support.LoopBack.Echo.{shift_echo}

pub request_header-to_le :
    (h : ℕ) (rest : List ℕ) → h < 2 ^ 32 → request_header (to_le 4 h ++ rest) ≡ some h
unfolding request_header
request_header-to_le h rest lt =
    let b0 : ℕ = h % 256 in
    let b1 : ℕ = h / 256 % 256 in
    let b2 : ℕ = h / 256 / 256 % 256 in
    let b3 : ℕ = h / 256 / 256 / 256 % 256 in
    let o2 : bit_or (u32 (b3 * 2 ^ 8)) b2 ≡ b3 * 2 ^ 8 + b2 =
      let e : u32 (b3 * 2 ^ 8) ≡ b3 * 2 ^ 8 = omega arith in
      rw e (or_parts 8 b3 b2 (omega arith)) in
    let o1 : bit_or (u32 ((b3 * 2 ^ 8 + b2) * 2 ^ 8)) b1 ≡ (b3 * 2 ^ 8 + b2) * 2 ^ 8 + b1 =
      let e : u32 ((b3 * 2 ^ 8 + b2) * 2 ^ 8) ≡ (b3 * 2 ^ 8 + b2) * 2 ^ 8 = omega arith in
      rw e (or_parts 8 (b3 * 2 ^ 8 + b2) b1 (omega arith)) in
    let x : ℕ = (b3 * 2 ^ 8 + b2) * 2 ^ 8 + b1 in
    let o0 : bit_or (u32 (x * 2 ^ 8)) b0 ≡ x * 2 ^ 8 + b0 =
      let e : u32 (x * 2 ^ 8) ≡ x * 2 ^ 8 = omega arith in rw e (or_parts 8 x b0 (omega arith)) in
    let whole : x * 2 ^ 8 + b0 ≡ h = omega arith in rw (o2, o1, o0, whole)

pub write_front :
    (mem bs : List ℕ)
    → length bs ≤ length mem
    → write_at mem 0 bs ≡ some (bs ++ drop (length bs) mem)
write_front mem bs h =
    let n : ℕ = length bs in
    ap (λ m. write_at m 0 bs) (sym (take-append-drop n mem))
    ∙ write_at-parts [] (take n mem) (drop n mem) bs 0 refl (omega (arith, length-take n mem))

module _ (scan : Format → String → Option ℕ) (dpt : ℕ) where
  pub loop_xfer-shift :
      (wsz hsize h : ℕ) (tx : List ℕ) (rxb : RxBuf) (s t : Loop) (n : ℕ) (rx : List ℕ)
      → request_header tx ≡ some h
      → get_vrs h ≡ pver0
      → get_cmd h ≡ cmd_s
      → shift scan wsz dpt true h tx rxb.block s ≡ (ok (n, rx), t)
      → loop_xfer scan wsz dpt true tx hsize rxb s
        ≡ (ok (record { hd = to_le 4 h; rx = rx; got = n }), t)
  unfolding loop_xfer respond dispatch word_bytes
  loop_xfer-shift wsz hsize h tx rxb s t n rx request vrs cmd e = rw request (rw (vrs, cmd) (rw e))

  module _ (s : Drv Loop) (bits : ℕ) (tms tdi tdo : List ℕ) (ready : IsReady s)
      (skips : s.io.skip ≡ true) (lo : 1 ≤ bits) (hi : bits ≤ 2 ^ 20)
      (ha : (bits + 8 - 1) / 8 ≤ length tms) (hb : (bits + 8 - 1) / 8 ≤ length tdi)
      (hc : (bits + 8 - 1) / 8 ≤ length tdo) where
    echo_answer :
        (p q : List ℕ)
        → let n = (bits + 8 - 1) / 8 in
          let hdr = (mk_shift s.xid bits).0 in
          length p ≡ rounded n s.word_size_ - n
          → length q ≡ rounded n s.word_size_ - n
          → loop_xfer scan s.word_size_ dpt true
              (message s.word_size_ hdr n tms tdi p q [])
              s.word_size_
              (record { block = tdo; size = n })
              s.io
            ≡ (ok (record { hd = to_le 4 hdr; rx = take n tdi ++ drop n tdo; got = n }), s.io)
    unfolding loop_xfer respond dispatch word_bytes
    echo_answer p q hp hq =
        let n : ℕ = (bits + 8 - 1) / 8 in
        let ws : ℕ = s.word_size_ in
        let hdr : ℕ = (mk_shift s.xid bits).0 in
        let msg : List ℕ = message ws hdr n tms tdi p q [] in
        let (vrs, cmd, _, len) = fields-mk_shift s.xid bits lo hi in
        let request : request_header msg ≡ some hdr =
          request_header-to_le hdr _ (mk_shift-lt s.xid bits lo hi) in
        let echo =
          shift_echo scan ws dpt true hdr bits tms tdi p q tdo s.io skips ready.word_low len ha hb
            hc hp hq in
        loop_xfer-shift ws ws hdr msg (record { block = tdo; size = n }) s.io s.io n
          (take n tdi ++ drop n tdo) request vrs cmd echo

    pub echo_answers : Answers true (loop_xfer scan s.word_size_ dpt true) s bits tms tdi tdo
    echo_answers =
        let n : ℕ = (bits + 8 - 1) / 8 in
        let hdr : ℕ = (mk_shift s.xid bits).0 in
        let (_, cmd, _, _) = fields-mk_shift s.xid bits lo hi in
        record {
          reply = record { hd = to_le 4 hdr; rx = take n tdi ++ drop n tdo; got = n };
          io' = s.io;
          answer = echo_answer;
          hd' = to_le 4 hdr ++ drop 4 s.hd_buf;
          hdr' = hdr;
          header_stored = write_front s.hd_buf (to_le 4 hdr) (omega (arith, ready.header_room));
          header_read =
              getw32-parts true [] (drop 4 s.hd_buf) 0 hdr refl (mk_shift-lt s.xid bits lo hi);
          no_error = get_err-shift hdr cmd;
          same_id = refl;
        }

  -- A vector of 1 to 2^20 bits that fits `txBuf_` comes back from the loopback without a file: the
  -- caller's block begins with the octets of TDI, the rest of it stays, and so does the loopback.
  -- The driver is ready, does not sniff, runs on a host of low octet first, and has taken over the
  -- loopback's word size.
  pub send_vectors_echo :
      (s : Drv Loop) (bits : ℕ) (tms tdi tdo : List ℕ)
      → IsReady s
      → s.word_size_ ≡ emul_word_size
      → s.io.skip ≡ true
      → get_sniff s.debug ≡ false
      → 1 ≤ bits
      → bits ≤ 2 ^ 20
      → (bits + 8 - 1) / 8 ≤ length tms
      → (bits + 8 - 1) / 8 ≤ length tdi
      → (bits + 8 - 1) / 8 ≤ length tdo
      → s.word_size_ + 2 * rounded ((bits + 8 - 1) / 8) s.word_size_ ≤ length s.tx_buf
      → (t : Drv Loop) × (send_vectors true
            (loop_xfer scan emul_word_size dpt true)
            bits
            tms
            tdi
            tdo
            s
          ≡ (ok (take ((bits + 8 - 1) / 8) tdi ++ drop ((bits + 8 - 1) / 8) tdo), t))
        × (t.io ≡ s.io)
  unfolding echo_answers
  send_vectors_echo s bits tms tdi tdo ready word skips quiet lo hi ha hb hc room =
      let (t, e, io) =
        send_vectors_answered true (loop_xfer scan s.word_size_ dpt true) s bits tms tdi tdo ready
          lo hi ha hb room quiet (echo_answers s bits tms tdi tdo ready skips lo hi ha hb hc) in
      (
        t,
        ap (λ (w : ℕ). send_vectors true (loop_xfer scan w dpt true) bits tms tdi tdo s) (sym word)
            ∙ e,
        io,
      )
