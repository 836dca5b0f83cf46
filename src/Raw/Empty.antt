-- ===== src/Raw/Empty.antt =====
-- A raw driver that is asked for no bits, as `XvcConn` asks it where the number of octets has
-- wrapped (xvcSrv/src/xvcConn.cc:230), and what it keeps to behind any client.
use native.Mathlib.Nat.{pow-suc}
use xvc_support.Base.{
  ℕ, zero, suc, ◌+◌, ◌-◌, ◌*◌, ◌/◌, ◌%◌, ◌^◌, ◌≤◌, ◌<◌, ◌≡◌, refl, ap, sym, ◌∙◌, true, some, List,
  [], ◌++◌, take, drop, arith, err, runtime_error, Eff, u32, bit_or, to_le, of_le, length-to_le,
  length-append, length-drop, read_at, read_at-parts, take-append-drop, length-take, Bool, inl, inr,
  ◌==◌, Bool-cases, ==→eq, IsBytes-take,
}
use xvc_support.Base.Bits.{zero-or, or_parts}
use xvc_support.Base.Bits.Digit.{bit_or_digit}
use xvc_support.Header.{mk_shift, new_xid, cmd_s, get_vrs}
use xvc_support.Header.Fields.{new_xid-lt}
use xvc_support.Header.Memory.{getw32, set_hdr, word_of}
use xvc_support.Header.Wire.{getw32-parts, set_hdr-parts}
use xvc_support.Driver.{RxBuf, Drv, xfer_rel, attempt, attempts, send_vectors}
use xvc_support.Driver.Message.{pack, store_words}
use xvc_support.Driver.Ready.{IsReady}
use xvc_support.Conn.Limits.{agreed}
use xvc_support.Conn.Session.{octets}
use xvc_support.Conn.Window.Moves.{above}
use xvc_support.Serial.{serial}
use xvc_support.Conn.Window.Pieces.{IsKeeper}
use xvc_support.Raw.{raw_xfer}
use xvc_support.Raw.Words.{Clocks}
use xvc_support.Raw.Driven.{jtag_driver, Idle, raw-Serves}

or_ones : (k a : ℕ) → a < 2 ^ k → bit_or a (2 ^ k - 1) ≡ 2 ^ k - 1
or_ones zero a h = let z : a ≡ 0 = omega arith in rw z (zero-or 0)
or_ones (suc k) a h =
    let p : 2 ^ suc k ≡ 2 * 2 ^ k = omega (arith, pow-suc 2 k) in
    let half : (2 ^ suc k - 1) / 2 ≡ 2 ^ k - 1 = omega (arith, p) in
    let low : (2 ^ suc k - 1) % 2 ≡ 1 = omega (arith, p) in
    let rest : bit_or (a / 2) (2 ^ k - 1) ≡ 2 ^ k - 1 = or_ones k (a / 2) (omega (arith, p)) in
    bit_or_digit a (2 ^ suc k - 1) ∙ rw (half, low, rest) (omega (arith, p))

-- All fields of the header are set: 0 - 1 wraps.
mk_shift-none : (xid : ℕ) → (mk_shift xid 0).0 ≡ 0xffffffff
unfolding mk_shift
mk_shift-none xid =
    let bound : new_xid xid < 256 = new_xid-lt xid in
    let shifted : u32 (new_xid xid * 2 ^ 20) ≡ new_xid xid * 2 ^ 20 = omega arith in
    let upper : bit_or cmd_s (new_xid xid * 2 ^ 20) ≡ cmd_s + new_xid xid * 2 ^ 20 =
      or_parts 28 1 (new_xid xid * 2 ^ 20) (omega arith) in
    rw (shifted, upper) (or_ones 32 (cmd_s + new_xid xid * 2 ^ 20) (omega arith))

module _ {S : Type 0} (log_code : ℕ → ℕ) (start : Eff S (Unit {0}))
    (word : ℕ → ℕ → ℕ → Eff S ℕ) where
  raw_xfer-none :
      (rxb : RxBuf) (io : S)
      → raw_xfer true log_code start word (to_le 4 0xffffffff) 4 rxb io ≡ (err runtime_error, io)
  unfolding raw_xfer getw32 read_at get_vrs word_of
  raw_xfer-none rxb io = refl

  -- Asked for 0 bits (0 - 1 wraps, and every field of the header is set), a ready driver with
  -- words of 4 octets that handles the message itself, on a host of low octet first, throws a
  -- runtime_error, and nothing is done to the device.
  pub send_vectors-none :
      (s : Drv S) (tms tdi tdo : List ℕ)
      → IsReady s
      → s.word_size_ ≡ 4
      → (t : Drv S) × (send_vectors true (raw_xfer true log_code start word) 0 tms tdi tdo s
          ≡ (err runtime_error, t))
        × (t.io ≡ s.io)
  unfolding send_vectors xfer_rel attempts attempt pack store_words
  send_vectors-none s tms tdi tdo ready four =
      let old : List ℕ = take 4 s.tx_buf in
      let back : List ℕ = drop 4 s.tx_buf in
      let tx : List ℕ = to_le 4 0xffffffff ++ back in
      let stored : set_hdr true 4 s.tx_buf 0 0xffffffff ≡ some tx =
        ap (λ (m : List ℕ). set_hdr true 4 m 0 0xffffffff) (sym (take-append-drop 4 s.tx_buf))
        ∙ set_hdr-parts true 4 [] old back 0 0xffffffff refl
            (omega (arith, length-take 4 s.tx_buf, ready.reserved, ready.least)) (omega arith)
            (omega arith) in
      let request : getw32 true tx 0 ≡ some 0xffffffff =
        getw32-parts true [] back 0 0xffffffff refl (omega arith) in
      let sent : read_at tx 0 4 ≡ some (to_le 4 0xffffffff) =
        read_at-parts [] (to_le 4 0xffffffff) back 0 4 refl refl in
      let one_more : s.retry + 1 ≡ suc s.retry = omega arith in
      rw (four, mk_shift-none s.xid)
        (rw stored (rw request (rw one_more (rw sent (rw (raw_xfer-none _ s.io) (_, refl, refl))))))

  -- What the drivers for hardware keep to behind any client.
  pub raw-IsKeeper :
      {J : Type 0} (clock : ℕ → ℕ → J → Bool × J) (Rest Running : S → J → Type 0) (pow_code : ℕ → ℕ)
      (max_vec m : ℕ)
      → Clocks clock start word Rest Running
      → agreed m 0 max_vec ≤ 1020
      → IsKeeper
          (agreed m 0 max_vec)
          m
          (λ s. (j : J) × Idle Rest s j)
          (jtag_driver (raw_xfer true log_code start word) pow_code max_vec)
  raw-IsKeeper clock Rest Running pow_code max_vec m hw hi =
      let serves = raw-Serves log_code pow_code start word clock Rest Running hw max_vec m hi in
      record {
        on_query =
            λ s (j, i). let (v, t, e, at_j, le) = serves.queried s j i in rw e ((j, at_j), le);
        on_period = λ p s (j, i). (j, i);
        on_vectors = λ bits tms tdi tdo s (j, i) short la lb lc ba bb.
            elim (Bool-cases (bits == 0)) [
              | inl z ↦
                  let none_sent : bits ≡ 0 = ==→eq bits 0 z in
                  let (t, e, _) = send_vectors-none s tms tdi tdo i.ready i.four in
                  rw none_sent (rw e tt)
              | inr z ↦
                  let n : ℕ = octets bits in
                  let (t, e, at_j) =
                    serves.shifted bits tms tdi tdo s j i (above bits z) short la lb lc
                      (IsBytes-take n tms ba) (IsBytes-take n tdi bb) in
                  let x = serial clock bits (of_le (take n tms)) (of_le (take n tdi)) j in
                  rw e (
                    omega (
                      arith,
                      length-append {0} (to_le n x.0) (drop n tdo),
                      length-to_le n x.0,
                      length-drop n tdo,
                    ),
                    (x.1, at_j),
                  )
            ];
      }
