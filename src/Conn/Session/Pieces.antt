-- ===== src/Conn/Session/Pieces.antt =====
-- The pieces of a vector, where the driver does to the target what the bits of each piece do: they
-- do together what the bits of the vector do.
use xvc_support.Base.{
  ℕ, zero, suc, ◌+◌, ◌-◌, ◌*◌, ◌^◌, ◌≤◌, ◌<◌, ◌≡◌, ◌≢◌, refl, ap, sym, ◌∙◌, Bool, List, ltb,
  if◌then◌else◌, length, take, drop, arith, u32, ok, Bool-cases, inl, inr, to_le, of_le,
  length-to_le, IsBytes, ltb→lt, ltb_false→le, [],
}
use native.Mathlib.Decide.{ℕ_discrete}
use xvc_support.Serial.{serial}
use xvc_support.Conn.Fill.{stored, stored_nil, length-stored}
use xvc_support.Conn.{Driver, Conn, send_pieces}
use xvc_support.Conn.Session.{octets, Serves}
use xvc_support.Conn.Session.Vectors.{cut_vector}
use xvc_support.Conn.Session.Piece.{one_piece, two_pieces}

no_bits :
    {D : Type 0} (api : Driver D) (n bytes vec_len off : ℕ) (s : Conn D)
    → send_pieces api n bytes vec_len off 0 s ≡ (ok tt, s)
unfolding send_pieces
no_bits api zero bytes vec_len off s = refl
no_bits api (suc n) bytes vec_len off s = refl

module _ {D J : Type 0} (clock : ℕ → ℕ → J → Bool × J) (period : ℕ → ℕ) (limit m : ℕ)
    (api : Driver D) (At : D → J → Type 0) (hw : Serves clock period limit m api At) where
  no_piece :
      (n bytes vec_len off : ℕ) (s : Conn D)
      → send_pieces api n bytes vec_len off 0 s
        ≡ (ok tt, record s { drv = s.drv; txb = stored s.txb off [] })
  no_piece n bytes vec_len off s =
      no_bits api n bytes vec_len off s
      ∙ ap (λ x. (ok tt, record s { txb = x })) (sym (stored_nil s.txb off))

  -- The last piece has all the bits that are left.
  last_piece :
      (n bytes vec_len off bits : ℕ) (tms tdi : List ℕ) (s : Conn D) (j : J)
      → At s.drv j
      → bits ≢ 0
      → bits ≤ 8 * vec_len
      → vec_len ≤ limit
      → vec_len < 2 ^ 29
      → off + octets bits ≤ bytes
      → bytes ≤ length s.txb
      → s.rp + 2 * bytes ≤ length s.rxb
      → take (octets bits) (drop (s.rp + off) s.rxb) ≡ tms
      → take (octets bits) (drop (s.rp + bytes + off) s.rxb) ≡ tdi
      → IsBytes tms
      → IsBytes tdi
      → let x = serial clock bits (of_le tms) (of_le tdi) j in
        (d : D) × (send_pieces api (suc n) bytes vec_len off bits s
          ≡ (ok tt, record s { drv = d; txb = stored s.txb off (to_le (octets bits) x.0) }))
        × At d x.1
  last_piece n bytes vec_len off bits tms tdi s j at_j ne last le hi fits room window ea eb ba bb =
      let sent : (if ltb bits (u32 (8 * vec_len)) then bits else u32 (8 * vec_len)) ≡ bits =
        ground arith in
      let none_left : bits - bits ≡ 0 = omega arith in
      let short : octets bits ≤ limit = omega arith in
      let x = serial clock bits (of_le tms) (of_le tdi) j in
      let s1 = λ (d : D). record s { drv = d; txb = stored s.txb off (to_le (octets bits) x.0) } in
      let (d, e, at_d) =
        one_piece clock period limit m api At hw n bytes vec_len off bits bits tms tdi s j at_j ne
          sent (omega arith) short fits room window ea eb ba bb in
      (
        d,
        e
            ∙ ap (λ (k : ℕ). send_pieces api n bytes vec_len (off + vec_len) k (s1 d)) none_left
            ∙ no_bits api n bytes vec_len (off + vec_len) (s1 d),
        at_d,
      )

  -- The pieces of a vector do to the target what its bits do one clock after the other, whatever
  -- the size of a piece is.
  pub send_pieces-serial :
      (n bytes vec_len off bits : ℕ) (tms tdi : List ℕ) (s : Conn D) (j : J)
      → At s.drv j
      → bits ≤ n
      → 1 ≤ vec_len
      → vec_len ≤ limit
      → vec_len < 2 ^ 29
      → off + octets bits ≤ bytes
      → bytes ≤ length s.txb
      → s.rp + 2 * bytes ≤ length s.rxb
      → take (octets bits) (drop (s.rp + off) s.rxb) ≡ tms
      → take (octets bits) (drop (s.rp + bytes + off) s.rxb) ≡ tdi
      → IsBytes tms
      → IsBytes tdi
      → let x = serial clock bits (of_le tms) (of_le tdi) j in
        (d : D) × (send_pieces api n bytes vec_len off bits s
          ≡ (ok tt, record s { drv = d; txb = stored s.txb off (to_le (octets bits) x.0) }))
        × At d x.1
  unfolding serial
  send_pieces-serial zero bytes vec_len off bits tms tdi s j at_j hn lo le hi fits room window ea eb
        ba bb =
      let z : bits ≡ 0 = omega arith in (s.drv, rw z (no_piece zero bytes vec_len off s), rw z at_j)
  send_pieces-serial (suc n) bytes vec_len off bits tms tdi s j at_j hn lo le hi fits room window ea
        eb ba bb =
      elim (ℕ_discrete bits 0) [
        | yes z ↦ (s.drv, rw z (no_piece (suc n) bytes vec_len off s), rw z at_j)
        | no ne ↦ elim (Bool-cases (ltb (8 * vec_len) bits)) [
          | inr last ↦
              last_piece n bytes vec_len off bits tms tdi s j at_j ne
                (ltb_false→le (8 * vec_len) bits last) le hi fits room window ea eb ba bb
          | inl more ↦
              let long : 8 * vec_len < bits = ltb→lt (8 * vec_len) bits more in
              let sent : (if ltb bits (u32 (8 * vec_len)) then bits else u32 (8 * vec_len))
                  ≡ 8 * vec_len =
                ground arith in
              let bits' : ℕ = bits - 8 * vec_len in
              let whole : octets (8 * vec_len) ≡ vec_len = omega arith in
              let sum : octets bits ≡ vec_len + octets bits' = omega arith in
              let (pa, la, ba1, ba2) =
                cut_vector vec_len (octets bits') s.rp off (octets bits) s.rxb tms sum (omega arith)
                  ea ba in
              let (pb, lb, bb1, bb2) =
                cut_vector vec_len (octets bits') (s.rp + bytes) off (octets bits) s.rxb tdi sum
                  (omega arith) eb bb in
              let a1 : List ℕ = take vec_len (drop (s.rp + off) s.rxb) in
              let b1 : List ℕ = take vec_len (drop (s.rp + bytes + off) s.rxb) in
              let x1 = serial clock (8 * vec_len) (of_le a1) (of_le b1) j in
              let out1 : List ℕ = to_le vec_len x1.0 in
              let l1 : length out1 ≡ vec_len = length-to_le vec_len x1.0 in
              let (d1, e1, at1) =
                one_piece clock period limit m api At hw n bytes vec_len off bits (8 * vec_len) a1
                  b1 s j at_j ne sent (omega arith) (omega arith) (omega arith) room window
                  (ap (λ (k : ℕ). take k (drop (s.rp + off) s.rxb)) whole)
                  (ap (λ (k : ℕ). take k (drop (s.rp + bytes + off) s.rxb)) whole) ba1 bb1 in
              let s1 : Conn D = record s { drv = d1; txb = stored s.txb off out1 } in
              let (d2, e2, at2) =
                send_pieces-serial n bytes vec_len (off + vec_len) bits' _ _ s1 x1.1 at1
                  (omega arith) lo le hi (omega arith)
                  (omega (arith, length-stored s.txb off out1 (omega (arith, l1)))) window refl refl
                  ba2 bb2 in
              let (e, at_d) =
                two_pieces clock period limit m api At hw _ s off vec_len bits bits' a1 _ b1 _ tms
                  tdi j d2 la lb ba1 bb1 pa pb (omega arith) sum (omega arith)
                  (e1
                    ∙ ap
                        (λ (k : ℕ).
                          send_pieces api n bytes vec_len (off + vec_len) bits'
                            (record s { drv = d1; txb = stored s.txb off (to_le k x1.0) }))
                        whole
                    ∙ e2)
                  at2 in
              (d2, e, at_d)
        ]
      ]

  -- The pieces that `run` chooses.
  pub agreed_pieces-serial :
      (bits bytes sup : ℕ) (tms tdi : List ℕ) (y : Conn D) (j : J)
      → let x = serial clock bits (of_le tms) (of_le tdi) j in
        bytes ≡ octets bits
        → bits + 7 < 2 ^ 32
        → 1 ≤ sup
        → sup ≤ limit
        → bytes ≤ length y.txb
        → y.rp + 2 * bytes ≤ length y.rxb
        → take bytes (drop (y.rp + 0) y.rxb) ≡ tms
        → take bytes (drop (y.rp + bytes + 0) y.rxb) ≡ tdi
        → IsBytes tms
        → IsBytes tdi
        → At y.drv j
        → (d' : D) × (send_pieces api bits bytes (if ltb sup bytes then sup else bytes) 0 bits y
            ≡ (ok tt, record y { drv = d'; txb = stored y.txb 0 (to_le bytes x.0) }))
          × At d' x.1
  agreed_pieces-serial zero bytes sup tms tdi y j e narrow lo hi room window ea eb ba bb at_j =
      let z : bytes ≡ 0 = omega (arith, e) in
      (y.drv, rw z (no_piece zero 0 (if ltb sup 0 then sup else 0) 0 y), unfold serial in at_j)
  agreed_pieces-serial (suc k) bytes sup tms tdi y j e narrow lo hi room window ea eb ba bb at_j =
      let bits : ℕ = suc k in
      rw e (
        send_pieces-serial bits (octets bits) (if ltb sup (octets bits) then sup else octets bits) 0
          bits tms tdi y j at_j (omega arith) (ground arith) (ground arith) (ground arith)
          (omega arith) (omega (arith, e)) (omega (arith, e)) (rw e at ea) (rw e at eb) ba bb)
