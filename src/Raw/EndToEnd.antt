-- ===== src/Raw/EndToEnd.antt =====
-- `sendVectors` over a driver that hands the vectors over in words of 32 bits.
use xvc_support.Base.{
  ℕ, ◌+◌, ◌-◌, ◌*◌, ◌/◌, ◌^◌, ◌≤◌, ◌≡◌, refl, ap, ◌∙◌, Bool, true, false, List, [], ◌++◌, length,
  take, drop, arith, ok, Eff, to_le, of_le, IsBytes,
}
use xvc_support.Header.Fields.{get_err-shift}
use xvc_support.Header.{mk_shift}
use xvc_support.Header.Wire.{getw32-parts}
use xvc_support.Header.RoundTrip.{fields-mk_shift}
use xvc_support.Driver.{Reply, Drv, send_vectors, get_sniff}
use xvc_support.Driver.Ready.{IsReady}
use xvc_support.Driver.Pack.Layout.{message, rounded}
use xvc_support.Driver.Send.{mk_shift-lt, send_vectors_replied}
use xvc_support.LoopBack.EndToEnd.{write_front}
use xvc_support.Serial.{serial}
use xvc_support.Raw.{raw_xfer}
use xvc_support.Raw.Words.{Clocks}
use xvc_support.Raw.Serial.{raw_xfer-serial}

room_at : (ws n k : ℕ) → ws ≡ 4 → 4 + 2 * rounded n 4 ≤ k → ws + 2 * rounded n ws ≤ k
room_at ws n k e h = rw e h

module _ {S J : Type 0} (log_code : ℕ → ℕ) (start : Eff S (Unit {0})) (word : ℕ → ℕ → ℕ → Eff S ℕ)
    (clock : ℕ → ℕ → J → Bool × J) (Rest Running : S → J → Type 0)
    (hw : Clocks clock start word Rest Running) where
  -- What is left of a shift: TDO in the caller's block, and the target after the clocks.
  abbrev pub Shifted : ℕ → List ℕ → List ℕ → List ℕ → J → Reply → S → Type 0
  Shifted bits tms tdi tdo j r io =
      let n = (bits + 8 - 1) / 8 in
      let x = serial clock bits (of_le tms) (of_le tdi) j in
      (r.rx ≡ to_le n x.0 ++ drop n tdo) × Rest io x.1

  raw_replies_four :
      (s : Drv S) (j : J) (bits : ℕ) (tms tdi tdo p q : List ℕ)
      → let n = (bits + 8 - 1) / 8 in
        let hdr = (mk_shift s.xid bits).0 in
        let msg = message 4 hdr n tms tdi p q [] in
        IsReady s
        → Rest s.io j
        → 1 ≤ bits
        → bits ≤ 2 ^ 20
        → n ≤ length tms
        → n ≤ length tdi
        → n ≤ length tdo
        → IsBytes (take n tms)
        → IsBytes (take n tdi)
        → length p ≡ rounded n 4 - n
        → length q ≡ rounded n 4 - n
        → (r : Reply) × (io : S) × (raw_xfer true log_code start word msg 4
              (record { block = tdo; size = n })
              s.io
            ≡ (ok r, io))
          × (r.hd ≡ to_le 4 hdr)
          × Shifted bits tms tdi tdo j r io
  raw_replies_four s j bits tms tdi tdo p q ready rest lo hi ha hb hc ba bb hp hq =
      let same : (bits + 7) / 8 ≡ (bits + 8 - 1) / 8 = omega arith in
      let (vrs, cmd, _, len) = fields-mk_shift s.xid bits lo hi in
      let whole = rw same at (
        raw_xfer-serial log_code start word clock Rest Running hw (mk_shift s.xid bits).0 bits
          ((bits + 8 - 1) / 8) tms tdi p q tdo s.io j (mk_shift-lt s.xid bits lo hi) vrs cmd len) in
      let (t, e, done) = whole ha hb ba bb hp hq (omega arith) hc rest in
      let n : ℕ = (bits + 8 - 1) / 8 in
      let x = serial clock bits (of_le tms) (of_le tdi) j in
      let reply : Reply = record {
        hd = to_le 4 (mk_shift s.xid bits).0;
        rx = to_le n x.0 ++ drop n tdo;
        got = n;
      } in
      (reply, t, e, refl, (refl, done))

  raw_replies :
      (ws : ℕ) (s : Drv S) (j : J) (bits : ℕ) (tms tdi tdo p q : List ℕ)
      → let n = (bits + 8 - 1) / 8 in
        let hdr = (mk_shift s.xid bits).0 in
        let msg = message ws hdr n tms tdi p q [] in
        ws ≡ 4
        → IsReady s
        → Rest s.io j
        → 1 ≤ bits
        → bits ≤ 2 ^ 20
        → n ≤ length tms
        → n ≤ length tdi
        → n ≤ length tdo
        → IsBytes (take n tms)
        → IsBytes (take n tdi)
        → length p ≡ rounded n ws - n
        → length q ≡ rounded n ws - n
        → (r : Reply) × (io : S) × (raw_xfer true log_code start word msg ws
              (record { block = tdo; size = n })
              s.io
            ≡ (ok r, io))
          × (r.hd ≡ to_le 4 hdr)
          × Shifted bits tms tdi tdo j r io
  raw_replies ws s j bits tms tdi tdo p q four ready rest lo hi ha hb hc ba bb =
      rw four (raw_replies_four s j bits tms tdi tdo p q ready rest lo hi ha hb hc ba bb)

  -- From a driver that is ready, with words of 4 octets, room for the message, and sniffing off, and a
  -- device at rest, `sendVectors` succeeds: TDO starts with the octets that the target gives when it
  -- is clocked with the bits of TMS and TDI one after the other, and the device is at rest again.
  pub send_vectors-serial :
      (s : Drv S) (j : J) (bits : ℕ) (tms tdi tdo : List ℕ)
      → let n = (bits + 8 - 1) / 8 in
        let x = serial clock bits (of_le tms) (of_le tdi) j in
        IsReady s
        → s.word_size_ ≡ 4
        → get_sniff s.debug ≡ false
        → Rest s.io j
        → 1 ≤ bits
        → bits ≤ 2 ^ 20
        → n ≤ length tms
        → n ≤ length tdi
        → n ≤ length tdo
        → IsBytes (take n tms)
        → IsBytes (take n tdi)
        → 4 + 2 * rounded n 4 ≤ length s.tx_buf
        → (t : Drv S) × (send_vectors true (raw_xfer true log_code start word) bits tms tdi tdo s
            ≡ (ok (to_le n x.0 ++ drop n tdo), t))
          × Rest t.io x.1
  send_vectors-serial s j bits tms tdi tdo ready four quiet rest lo hi ha hb hc ba bb room =
      let n : ℕ = (bits + 8 - 1) / 8 in
      let hdr : ℕ = (mk_shift s.xid bits).0 in
      let (_, cmd, _, _) = fields-mk_shift s.xid bits lo hi in
      let four_room : s.word_size_ + 2 * rounded n s.word_size_ ≤ length s.tx_buf =
        room_at s.word_size_ n (length s.tx_buf) four room in
      let (t, r, e, (stored, done)) =
        send_vectors_replied true (raw_xfer true log_code start word) s bits tms tdi tdo
          (Shifted bits tms tdi tdo j) ready lo hi ha hb four_room quiet
          (λ p q hp hq.
            let (r, io, e, hd, out) =
              raw_replies s.word_size_ s j bits tms tdi tdo p q four ready rest lo hi ha hb hc ba bb
                hp hq in
            record {
              reply = r;
              io' = io;
              answer = e;
              outcome = out;
              hd' = to_le 4 hdr ++ drop 4 s.hd_buf;
              hdr' = hdr;
              header_stored =
                  rw hd (write_front s.hd_buf (to_le 4 hdr) (omega (arith, ready.header_room)));
              header_read =
                  getw32-parts true [] (drop 4 s.hd_buf) 0 hdr refl (mk_shift-lt s.xid bits lo hi);
              no_error = get_err-shift hdr cmd;
              same_id = refl;
            }) in
      (t, e ∙ ap (λ (y : List ℕ). (ok y, t)) stored, done)
