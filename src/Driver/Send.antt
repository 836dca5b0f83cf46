-- ===== src/Driver/Send.antt =====
-- `sendVectors` over a transport that answers at the first attempt.
use xvc_support.Base.{
  ℕ, suc, ◌+◌, ◌-◌, ◌*◌, ◌/◌, ◌%◌, ◌^◌, ◌≤◌, ◌<◌, ◌≡◌, refl, ap, ◌∙◌, Bool, false, some, List, [],
  ◌++◌, length, replicate, arith, u32, ok, read_at, write_at, read_at-parts, length-append,
  append_assoc, append-nil, to_le,
}
use native.Mathlib.Decide.{ℕ_discrete}
use xvc_support.Base.Rounding.{div_mod, ceil_exact, ceil_over}
use xvc_support.Header.{get_err, get_xid, mk_shift}
use xvc_support.Header.Fields.{mk_shift_sum, new_xid-lt}
use xvc_support.Header.Memory.{getw32}
use xvc_support.Header.Wire.{getw32-parts}
use xvc_support.Driver.Message.{bytes_tot}
use xvc_support.Driver.Pack.{pairs, length-pairs, length-slice}
use xvc_support.Driver.Pack.Layout.{
  rounded, message, header_word, leftover, length-header_word, pack-Layout,
}
use xvc_support.Driver.{
  RxBuf, Reply, Xfer, Drv, attempt, attempts, xfer_rel, send_vectors, get_sniff,
}
use xvc_support.Driver.Ready.{IsReady}

pub rounded_bounds : (n w : ℕ) → 0 < w → (n ≤ rounded n w) × (rounded n w ≤ n + w)
rounded_bounds n w h = elim (ℕ_discrete (n % w) 0) [
  | yes e ↦ omega (arith, ceil_exact n w h e)
  | no ne ↦ omega (arith, ceil_over n w h ne, div_mod n w)
]

-- What goes out is the message without the rest of the block.
message-append :
    (wsz hdr n : ℕ) (tms tdi p q back : List ℕ)
    → message wsz hdr n tms tdi p q back ≡ message wsz hdr n tms tdi p q [] ++ back
message-append wsz hdr n tms tdi p q back = simp (append_assoc, append-nil)

pub length-message :
    (wsz hdr n : ℕ) (tms tdi p q : List ℕ)
    → 4 ≤ wsz
    → n ≤ length tms
    → n ≤ length tdi
    → length p ≡ rounded n wsz - n
    → length q ≡ rounded n wsz - n
    → length (message wsz hdr n tms tdi p q []) ≡ wsz + 2 * rounded n wsz
length-message wsz hdr n tms tdi p q h4 ha hb hp hq =
    let (low, high) = rounded_bounds n wsz (omega arith) in
    let e : length (leftover n wsz tdi ++ (q ++ [])) ≡ n % wsz + length q = omega (
      arith,
      length-append {0} (leftover n wsz tdi) (q ++ []),
      length-append {0} q [],
      length-slice tdi (n / wsz * wsz) (n % wsz) (omega (arith, div_mod n wsz)),
    ) in
    let f : length (leftover n wsz tms ++ (p ++ (leftover n wsz tdi ++ (q ++ []))))
        ≡ n % wsz + length p + (n % wsz + length q) =
      omega (
        arith,
        length-append {0} (leftover n wsz tms) (p ++ (leftover n wsz tdi ++ (q ++ []))),
        length-append {0} p (leftover n wsz tdi ++ (q ++ [])),
        length-slice tms (n / wsz * wsz) (n % wsz) (omega (arith, div_mod n wsz)),
      ) in
    omega (
      arith,
      f,
      div_mod n wsz,
      length-append {0} (header_word wsz hdr) (
          pairs (n / wsz) wsz tms tdi
          ++ (leftover n wsz tms ++ (p ++ (leftover n wsz tdi ++ (q ++ []))))),
      length-append {0} (pairs (n / wsz) wsz tms tdi)
          (leftover n wsz tms ++ (p ++ (leftover n wsz tdi ++ (q ++ [])))),
      length-header_word wsz hdr h4,
      length-pairs (n / wsz) wsz tms tdi (omega (arith, div_mod n wsz))
          (omega (arith, div_mod n wsz)),
    )

pub bytes_tot_lem :
    (wsz n : ℕ) → 4 ≤ wsz → wsz ≤ 16 → n < 2 ^ 29 → bytes_tot wsz n ≡ wsz + 2 * rounded n wsz
bytes_tot_lem wsz n h4 h16 small =
    let (low, high) = rounded_bounds n wsz (omega arith) in omega arith

pub mk_shift-lt : (xid bits : ℕ) → 1 ≤ bits → bits ≤ 2 ^ 20 → (mk_shift xid bits).0 < 2 ^ 32
mk_shift-lt xid bits lo hi = rw (mk_shift_sum xid bits lo hi) (omega (arith, new_xid-lt xid))

-- A transport that answers the message for these vectors at once: with the header of the same
-- transaction and no error.
pub record Answers {T : Type 0} (le : Bool) (xfer : Xfer T) (s : Drv T) (bits : ℕ)
    (tms tdi tdo : List ℕ) : Type 0 where
  pub reply : Reply
  pub io' : T
  pub answer :
      (p q : List ℕ)
      → let n = (bits + 8 - 1) / 8 in
        length p ≡ rounded n s.word_size_ - n
        → length q ≡ rounded n s.word_size_ - n
        → xfer
            (message s.word_size_ (mk_shift s.xid bits).0 n tms tdi p q [])
            s.word_size_
            (record { block = tdo; size = n })
            s.io
          ≡ (ok reply, io')
  pub hd' : List ℕ
  pub hdr' : ℕ
  pub header_stored : write_at s.hd_buf 0 reply.hd ≡ some hd'
  pub header_read : getw32 le hd' 0 ≡ some hdr'
  pub no_error : get_err hdr' ≡ 0
  pub same_id : get_xid hdr' ≡ get_xid (mk_shift s.xid bits).0

-- A reply to one message, accepted at once: its header has the same transaction and no error.
pub record Replies {T : Type 0} (le : Bool) (xfer : Xfer T) (s : Drv T) (bits : ℕ)
    (tdo msg : List ℕ) (Outcome : Reply → T → Type 0) : Type 0 where
  pub reply : Reply
  pub io' : T
  pub answer :
      xfer msg s.word_size_ (record { block = tdo; size = (bits + 8 - 1) / 8 }) s.io
      ≡ (ok reply, io')
  pub outcome : Outcome reply io'
  pub hd' : List ℕ
  pub hdr' : ℕ
  pub header_stored : write_at s.hd_buf 0 reply.hd ≡ some hd'
  pub header_read : getw32 le hd' 0 ≡ some hdr'
  pub no_error : get_err hdr' ≡ 0
  pub same_id : get_xid hdr' ≡ get_xid (mk_shift s.xid bits).0

message_header :
    (le : Bool) (wsz hdr n : ℕ) (tms tdi p q back : List ℕ)
    → hdr < 2 ^ 32
    → getw32 le (message wsz hdr n tms tdi p q back) 0 ≡ some hdr
message_header le wsz hdr n tms tdi p q back h =
    let body : List ℕ =
      pairs (n / wsz) wsz tms tdi
      ++ (leftover n wsz tms ++ (p ++ (leftover n wsz tdi ++ (q ++ back)))) in
    rw (append_assoc (to_le 4 hdr) (replicate (wsz - 4) 0) body)
      (getw32-parts le [] (replicate (wsz - 4) 0 ++ body) 0 hdr refl h)

module _ {T : Type 0} (le : Bool) (xfer : Xfer T) where
  -- One attempt that is answered.
  pub attempt_answered :
      (xid tx_bytes : ℕ) (rxb : RxBuf) (h : ℕ) (s : Drv T) (msg hd : List ℕ) (r : Reply) (io : T)
      → read_at s.tx_buf 0 tx_bytes ≡ some msg
      → xfer msg s.word_size_ rxb s.io ≡ (ok r, io)
      → write_at s.hd_buf 0 r.hd ≡ some hd
      → getw32 le hd 0 ≡ some h
      → get_err h ≡ 0
      → get_xid h ≡ xid
      → attempt le xfer xid tx_bytes rxb s ≡ (ok (some h, r), record s { io = io; hd_buf = hd })
  unfolding attempt
  attempt_answered xid tx_bytes rxb h s msg hd r io e1 e2 e3 e4 e5 e6 =
      rw (e1, e2, e3, e4) (ground arith)

  -- The same for a reply of which only a property is known, as the hardware's state may depend on
  -- the octets that fill up the message.
  pub send_vectors_replied :
      (s : Drv T) (bits : ℕ) (tms tdi tdo : List ℕ) (Outcome : Reply → T → Type 0)
      → IsReady s
      → 1 ≤ bits
      → bits ≤ 2 ^ 20
      → (bits + 8 - 1) / 8 ≤ length tms
      → (bits + 8 - 1) / 8 ≤ length tdi
      → s.word_size_ + 2 * rounded ((bits + 8 - 1) / 8) s.word_size_ ≤ length s.tx_buf
      → get_sniff s.debug ≡ false
      → ((p q : List ℕ)
          → let n = (bits + 8 - 1) / 8 in
            length p ≡ rounded n s.word_size_ - n
            → length q ≡ rounded n s.word_size_ - n
            → Replies le xfer s bits tdo
                (message s.word_size_ (mk_shift s.xid bits).0 n tms tdi p q [])
                Outcome)
      → (t : Drv T) × (r : Reply) × (send_vectors le xfer bits tms tdi tdo s ≡ (ok r.rx, t))
        × Outcome r t.io
  unfolding send_vectors xfer_rel attempts
  send_vectors_replied s bits tms tdi tdo Outcome ready lo hi ha hb room quiet replies =
      let n : ℕ = (bits + 8 - 1) / 8 in
      let ws : ℕ = s.word_size_ in
      let hdr : ℕ = (mk_shift s.xid bits).0 in
      let x : ℕ = (mk_shift s.xid bits).1 in
      let (p, q, back, (packed, hp, hq, _)) =
        pack-Layout le ws n hdr tms tdi s.tx_buf ready.word_low ready.word_high (omega arith) ha hb
          room in
      let a = replies p q hp hq in
      let msg : List ℕ = message ws hdr n tms tdi p q [] in
      let tx : List ℕ = message ws hdr n tms tdi p q back in
      let s1 : Drv T = record s { xid = x; tx_buf = tx } in
      let rxb : RxBuf = record { block = tdo; size = n } in
      let size : u32 n ≡ n = omega arith in
      let total : bytes_tot ws n ≡ ws + 2 * rounded n ws =
        bytes_tot_lem ws n ready.word_low ready.word_high (omega arith) in
      let sent : read_at tx 0 (bytes_tot ws n) ≡ some msg =
        rw (message-append ws hdr n tms tdi p q back, total)
          (read_at-parts [] msg back 0 (ws + 2 * rounded n ws) refl
            (length-message ws hdr n tms tdi p q ready.word_low ha hb hp hq)) in
      let request : getw32 le tx 0 ≡ some hdr =
        message_header le ws hdr n tms tdi p q back (mk_shift-lt s.xid bits lo hi) in
      let s2 : Drv T = record s1 { io = a.io'; hd_buf = a.hd' } in
      let turn : attempt le xfer (get_xid hdr) (bytes_tot ws n) rxb s1
          ≡ (ok (some a.hdr', a.reply), s2) =
        attempt_answered (get_xid hdr) (bytes_tot ws n) rxb a.hdr' s1 msg a.hd' a.reply a.io' sent
          a.answer a.header_stored a.header_read a.no_error a.same_id in
      let one_more : s.retry + 1 ≡ suc s.retry = omega arith in
      (s2, a.reply, rw packed (rw (size, request) (rw (one_more, turn) (rw quiet))), a.outcome)

  -- A vector of 1 to 2^20 bits that fits `txBuf_` reaches a transport that answers at once as one
  -- message, and the caller's block is left as the reply has it; conditions: the driver is ready,
  -- both vectors have the octets, sniffing is off, and the reply has no error and the id of the
  -- message.
  pub send_vectors_answered :
      (s : Drv T) (bits : ℕ) (tms tdi tdo : List ℕ)
      → IsReady s
      → 1 ≤ bits
      → bits ≤ 2 ^ 20
      → (bits + 8 - 1) / 8 ≤ length tms
      → (bits + 8 - 1) / 8 ≤ length tdi
      → s.word_size_ + 2 * rounded ((bits + 8 - 1) / 8) s.word_size_ ≤ length s.tx_buf
      → get_sniff s.debug ≡ false
      → (a : Answers le xfer s bits tms tdi tdo)
      → (t : Drv T) × (send_vectors le xfer bits tms tdi tdo s ≡ (ok a.reply.rx, t))
        × (t.io ≡ a.io')
  send_vectors_answered s bits tms tdi tdo ready lo hi ha hb room quiet a =
      let (t, r, e, same) =
        send_vectors_replied s bits tms tdi tdo (λ r io. (r ≡ a.reply) × (io ≡ a.io')) ready lo hi
          ha hb room quiet
          (λ p q hp hq. record {
            reply = a.reply;
            io' = a.io';
            answer = a.answer p q hp hq;
            outcome = (refl, refl);
            hd' = a.hd';
            hdr' = a.hdr';
            header_stored = a.header_stored;
            header_read = a.header_read;
            no_error = a.no_error;
            same_id = a.same_id;
          }) in
      (t, e ∙ ap (λ (x : Reply). (ok x.rx, t)) same.0, same.1)
