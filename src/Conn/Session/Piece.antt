-- ===== src/Conn/Session/Piece.antt =====
-- One piece of a vector, and the piece with those that follow.
use xvc_support.Base.{
  ℕ, suc, ◌+◌, ◌-◌, ◌*◌, ◌≤◌, ◌≡◌, ◌≢◌, ap, ap₂, sym, ◌∙◌, Bool, List, ◌++◌, ltb, if◌then◌else◌,
  length, take, drop, arith, u32, Result, ok, ne→==_false, to_le, of_le, length-to_le, IsBytes,
  length-drop, drop-drop,
}
use mathlib.Core.Path.{subst}
use xvc_support.Serial.{serial}
use xvc_support.Conn.Fill.{stored, stored_twice}
use xvc_support.Conn.{Driver, Conn, drive, send_pieces}
use xvc_support.Conn.Session.{octets, Serves}
use xvc_support.Conn.Session.Vectors.{serial-append}

module _ {D J : Type 0} (clock : ℕ → ℕ → J → Bool × J) (period : ℕ → ℕ) (limit m : ℕ)
    (api : Driver D) (At : D → J → Type 0) (hw : Serves clock period limit m api At) where
  sent_piece :
      (n bytes vec_len off bits sent : ℕ) (out : List ℕ) (d : D) (s : Conn D)
      → bits ≢ 0
      → (if ltb bits (u32 (8 * vec_len)) then bits else u32 (8 * vec_len)) ≡ sent
      → api.send_vectors sent
          (drop (s.rp + off) s.rxb)
          (drop (s.rp + bytes + off) s.rxb)
          (drop off s.txb)
          s.drv
        ≡ (ok out, d)
      → send_pieces api (suc n) bytes vec_len off bits s
        ≡ send_pieces api n bytes vec_len
            (off + vec_len)
            (bits - sent)
            (record s { drv = d; txb = take off s.txb ++ out })
  unfolding send_pieces drive
  sent_piece n bytes vec_len off bits sent out d s ne e f = rw (ne→==_false bits 0 ne, e) (rw f)

  pub one_piece :
      (n bytes vec_len off bits sent : ℕ) (tms tdi : List ℕ) (s : Conn D) (j : J)
      → At s.drv j
      → bits ≢ 0
      → (if ltb bits (u32 (8 * vec_len)) then bits else u32 (8 * vec_len)) ≡ sent
      → 1 ≤ sent
      → octets sent ≤ limit
      → off + octets sent ≤ bytes
      → bytes ≤ length s.txb
      → s.rp + 2 * bytes ≤ length s.rxb
      → take (octets sent) (drop (s.rp + off) s.rxb) ≡ tms
      → take (octets sent) (drop (s.rp + bytes + off) s.rxb) ≡ tdi
      → IsBytes tms
      → IsBytes tdi
      → let x = serial clock sent (of_le tms) (of_le tdi) j in
        (d : D) × (send_pieces api (suc n) bytes vec_len off bits s
          ≡ send_pieces api n bytes vec_len
              (off + vec_len)
              (bits - sent)
              (record s { drv = d; txb = stored s.txb off (to_le (octets sent) x.0) }))
        × At d x.1
  one_piece n bytes vec_len off bits sent tms tdi s j at_j ne e lo small fits room window ea eb ba
        bb =
      let k : ℕ = octets sent in
      let a : List ℕ = drop (s.rp + off) s.rxb in
      let b : List ℕ = drop (s.rp + bytes + off) s.rxb in
      let (d, f, at_d) =
        hw.shifted sent a b (drop off s.txb) s.drv j at_j lo small
          (omega (arith, length-drop (s.rp + off) s.rxb))
          (omega (arith, length-drop (s.rp + bytes + off) s.rxb))
          (omega (arith, length-drop off s.txb)) (rw ea ba) (rw eb bb) in
      let x = serial clock sent (of_le tms) (of_le tdi) j in
      let y = serial clock sent (of_le (take k a)) (of_le (take k b)) j in
      let same : y ≡ x = ap₂ (λ u v. serial clock sent (of_le u) (of_le v) j) ea eb in
      let block : take off s.txb ++ (to_le k y.0 ++ drop k (drop off s.txb))
          ≡ stored s.txb off (to_le k x.0) =
        ap (λ (r : ℕ × J). take off s.txb ++ (to_le k r.0 ++ drop k (drop off s.txb))) same
        ∙ ap (λ z. take off s.txb ++ (to_le k x.0 ++ z))
            (drop-drop k off s.txb
              ∙ ap (λ (i : ℕ). drop (off + i) s.txb) (sym (length-to_le k x.0))) in
      (
        d,
        sent_piece n bytes vec_len off bits sent (to_le k y.0 ++ drop k (drop off s.txb)) d s ne e f
            ∙ ap
                (λ z.
                  send_pieces api n bytes vec_len (off + vec_len) (bits - sent)
                    (record s { drv = d; txb = z }))
                block,
        subst (λ (r : ℕ × J). At d r.1) same at_d,
      )

  pub two_pieces :
      (r : Result (Unit {0}) × Conn D) (s : Conn D) (off v bits bits' : ℕ)
      (a1 a2 b1 b2 tms tdi : List ℕ) (j : J) (d : D)
      → let x1 = serial clock (8 * v) (of_le a1) (of_le b1) j in
        let x2 = serial clock bits' (of_le a2) (of_le b2) x1.1 in
        let x = serial clock bits (of_le tms) (of_le tdi) j in
        length a1 ≡ v
        → length b1 ≡ v
        → IsBytes a1
        → IsBytes b1
        → a1 ++ a2 ≡ tms
        → b1 ++ b2 ≡ tdi
        → 8 * v + bits' ≡ bits
        → octets bits ≡ v + octets bits'
        → off + v ≤ length s.txb
        → r ≡ (
          ok tt,
          record s {
            drv = d;
            txb = stored (stored s.txb off (to_le v x1.0)) (off + v) (to_le (octets bits') x2.0);
          },
        )
        → At d x2.1
        → (r ≡ (ok tt, record s { drv = d; txb = stored s.txb off (to_le (octets bits) x.0) }))
          × At d x.1
  two_pieces r s off v bits bits' a1 a2 b1 b2 tms tdi j d la lb ba bb pa pb count sum room e at_d =
      let x1 = serial clock (8 * v) (of_le a1) (of_le b1) j in
      let x2 = serial clock bits' (of_le a2) (of_le b2) x1.1 in
      let x = serial clock bits (of_le tms) (of_le tdi) j in
      let y = serial clock (8 * v + bits') (of_le (a1 ++ a2)) (of_le (b1 ++ b2)) j in
      let same : y ≡ x =
        ap (λ (k : ℕ). serial clock k (of_le (a1 ++ a2)) (of_le (b1 ++ b2)) j) count
        ∙ ap₂ (λ u w. serial clock bits (of_le u) (of_le w) j) pa pb in
      let (joined, final) = serial-append clock v bits' a1 b1 a2 b2 j la lb ba bb in
      let l1 : length (to_le v x1.0) ≡ v = length-to_le v x1.0 in
      let block : stored (stored s.txb off (to_le v x1.0)) (off + v) (to_le (octets bits') x2.0)
          ≡ stored s.txb off (to_le (octets bits) x.0) =
        ap
          (λ (k : ℕ).
            stored (stored s.txb off (to_le v x1.0)) (off + k) (to_le (octets bits') x2.0))
          (sym l1)
        ∙ stored_twice s.txb off (to_le v x1.0) (to_le (octets bits') x2.0) (omega (arith, l1))
        ∙ ap (stored s.txb off)
            (sym joined ∙ ap₂ (λ (k : ℕ) (t : ℕ × J). to_le k t.0) (sym sum) same) in
      (
        e ∙ ap (λ z. (ok tt, record s { drv = d; txb = z })) block,
        subst (At d) (sym final ∙ ap (λ (t : ℕ × J). t.1) same) at_d,
      )
