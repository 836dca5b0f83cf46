-- ===== src/Conn/Session/Commands.antt =====
-- The commands of xvcSrv/src/xvcConn.cc on what a client sends.
use xvc_support.Base.{
  ℕ, ◌+◌, ◌-◌, ◌*◌, ◌/◌, ◌^◌, ◌≤◌, ◌<◌, ◌≡◌, refl, ap, sym, ◌∙◌, Bool, List, [], ◌∷◌, append_assoc,
  ◌++◌, length, take, drop, ltb, if◌then◌else◌, of_le, to_le, length-to_le, of_le-to_le, arith,
  take-append, take-append_eq, drop-append_eq, length-append, le→leb, after, take_of_le, u32,
  IsBytes,
}
use mathlib.Core.Path.{subst}
use xvc_support.Serial.{serial}
use xvc_support.Conn.{Driver, Conn, send_pieces, fill, bump, shift, set_tck, get_info, vector_bytes}
use xvc_support.Conn.Fill.{stored, length-stored}
use xvc_support.Conn.Window.{Any}
use xvc_support.Conn.Window.Moves.{widen}
use xvc_support.Conn.Session.{info, tck, shift_of, encode, octets, IsRequest, Serves}
use xvc_support.Conn.Session.Total.{
  Returns, Returns-bind, Returns-read, Returns-write, Returns-drive, Returns_mono, Returns-after,
}
use xvc_support.Conn.Session.Moves.{at_least, part-append, peek-Sees}
use xvc_support.Conn.Session.Pieces.{agreed_pieces-serial}
use xvc_support.Conn.Session.Input.{
  Before, Filled, Done, in_block, fill_total, bump_total, replied, taken,
}

module _ {D J : Type 0} (clock : ℕ → ℕ → J → Bool × J) (greeting : ℕ → List ℕ) (period : ℕ → ℕ)
    (limit m : ℕ) (api : Driver D) (At : D → J → Type 0)
    (hw : Serves clock period limit m api At) where
  -- What a command leaves: the rest of the input, and its reply.
  abbrev pub Leaves : List ℕ → List ℕ → List ℕ → ℕ → ℕ → J → Conn D → Type 0
  Leaves inp out rep left sup j t = (d : D) × Done m inp out rep left sup d t × At d j

  -- A reply is put into the block, and the request is taken from the window.
  answered :
      {inp out rep : List ℕ} {sup : ℕ} {d : D} (left n k : ℕ) (t : Conn D) (d' : D) (j : J)
      (mem reply : List ℕ)
      → At d' j
      → n ≤ 2 * m + 128
      → length mem ≡ length t.txb
      → k ≤ m + 128
      → take k mem ≡ reply
      → Filled m n inp out rep (at_least n left) sup d t
      → Returns
          (λ _ y. Leaves (drop n inp) out reply (left - n) sup j y)
          (bump n (record t { drv = d'; txb = mem; tl = k }))
  answered {inp} {out} {rep} {sup} left n k t d' j mem reply at_d small size le e f =
      Returns_mono (λ _ y. Done m (drop n inp) out reply (at_least n left - n) sup d' y)
        (λ _ y. Leaves (drop n inp) out reply (left - n) sup j y)
        (bump n (record t { drv = d'; txb = mem; tl = k }))
        (bump_total m n _ small (replied m n k t d' mem reply size le e f))
        (λ w y q. (d', rw (taken n left) at q, at_d))

  module _ {out rep : List ℕ} (rest : List ℕ) (left : ℕ) {sup : ℕ} {d : D} {j : J}
      (at_d : At d j) where
    pub set_tck_total :
        (p : ℕ) (s : Conn D)
        → p < 2 ^ 32
        → Before m 11 (encode (tck p) ++ rest) out rep left sup d s
        → Returns (λ _ t. Leaves rest out (to_le 4 (period p)) (left - 11) sup j t) (set_tck api s)
    unfolding set_tck
    set_tck_total p s small b =
        let reply : List ℕ = to_le 4 (period p) in
        let four : length reply ≡ 4 = length-to_le 4 (period p) in
        Returns-bind
          (λ _ t. Filled m 11 (encode (tck p) ++ rest) out rep (at_least 11 left) sup d t)
          (λ _ t. Leaves rest out reply (left - 11) sup j t) (fill 11 s) _
          (fill_total m 11 s (omega arith) (omega arith) b)
          (λ u t f.
            let ((c, full), v) = f in
            let (d', e, at_d') =
              hw.timed p t.drv j (subst (λ (x : D). At x j) (sym v.drv_is) at_d) in
            let num : of_le (take 4 (drop (t.rp + 7) t.rxb)) ≡ p =
              ap of_le (
                peek-Sees 7 4 t (in_block m 11 t (omega arith) c)
                  (omega (arith, full, c.window.rl_is)) v)
              ∙ of_le-to_le 4 p (omega arith) in
            let room : 0 + length reply ≤ length t.txb = omega (arith, c.window.tx_size, four) in
            Returns-read (λ _ t. Leaves rest out reply (left - 11) sup j t) t t.rxb (t.rp + 7) 4 _
              (omega (arith, c.window.rx_size, c.window.rp_is, c.low))
              (Returns-drive (λ _ t. Leaves rest out reply (left - 11) sup j t) _ t _ (period p) d'
                (rw num e)
                (Returns-write (λ _ t. Leaves rest out reply (left - 11) sup j t)
                  (record t { drv = d' }) t.txb reply 0 _ room
                  (answered left 11 4 t d' j (stored t.txb 0 reply) reply at_d' (omega arith)
                    (length-stored t.txb 0 reply room) (omega arith) refl f))))

    pub get_info_total :
        (s : Conn D)
        → length (greeting m) < m + 128
        → Before m 8 (encode info ++ rest) out rep left sup d s
        → Returns (λ _ t. Leaves rest out (greeting m) (left - 8) sup j t) (get_info api greeting s)
    unfolding get_info
    get_info_total s short b =
        Returns-bind (λ _ t. Filled m 8 (encode info ++ rest) out rep (at_least 8 left) sup d t)
          (λ _ t. Leaves rest out (greeting m) (left - 8) sup j t) (fill 8 s) _
          (fill_total m 8 s (omega arith) (omega arith) b)
          (λ u t f.
            let ((c, full), v) = f in
            let (w, d', e, at_d', _) =
              hw.queried t.drv j (subst (λ (x : D). At x j) (sym v.drv_is) at_d) in
            let text : List ℕ = greeting t.max_vec_len in
            let same : text ≡ greeting m = ap greeting c.window.max_is in
            let long : length text < m + 128 = omega (arith, ap length same) in
            let ended : List ℕ = text ++ (0 ∷ []) in
            let room : 0 + length ended ≤ length t.txb =
              omega (arith, c.window.tx_size, long, length-append {0} text (0 ∷ [])) in
            let after_end : List ℕ = drop (0 + length ended) t.txb in
            let front : take (length text) (ended ++ after_end) ≡ text =
              ap (take (length text)) (append_assoc text (0 ∷ []) after_end)
              ∙ take-append text ((0 ∷ []) ++ after_end) in
            Returns-drive (λ _ t. Leaves rest out (greeting m) (left - 8) sup j t) api.query t _ w
              d' e
              (Returns-write (λ _ t. Leaves rest out (greeting m) (left - 8) sup j t)
                (record t { drv = d' }) t.txb ended 0 _ room
                (answered left 8 (length text) t d' j (stored t.txb 0 ended) (greeting m) at_d'
                  (omega arith) (length-stored t.txb 0 ended room) (omega (arith, long))
                  (front ∙ same) f)))

    vectors_total :
        (bits left' sup' : ℕ) (tms tdi : List ℕ) (z : Conn D)
        → let x = serial clock bits (of_le tms) (of_le tdi) j in
          let bytes = octets bits in
          bits + 7 < 2 ^ 32
          → bytes ≤ m
          → length tms ≡ bytes
          → length tdi ≡ bytes
          → IsBytes tms
          → IsBytes tdi
          → 1 ≤ sup
          → sup ≤ limit
          → sup' ≡ sup
          → Filled m (2 * bytes) ((tms ++ tdi) ++ rest) out rep (at_least (2 * bytes) left') sup d z
          → Returns
              (λ _ t. Leaves rest out (to_le bytes x.0) (left' - 2 * bytes) sup x.1 t)
              (after
                (λ _ w. bump (2 * bytes) (record w { tl = bytes }))
                (send_pieces api bits bytes (if ltb sup' bytes then sup' else bytes) 0 bits z))
    vectors_total bits left' sup' tms tdi z narrow fits la lb ba bb lo hi es h =
        let ((c, full), v) = h in
        let bytes : ℕ = octets bits in
        let x = serial clock bits (of_le tms) (of_le tdi) j in
        let out_x : List ℕ = to_le bytes x.0 in
        let lx : length out_x ≡ bytes = length-to_le bytes x.0 in
        let both : length (tms ++ tdi) ≡ 2 * bytes = omega (arith, length-append {0} tms tdi) in
        let inside : z.rp + z.rl ≤ length z.rxb = in_block m (2 * bytes) z (omega arith) c in
        let ea : take bytes (drop (z.rp + 0) z.rxb) ≡ tms =
          peek-Sees 0 bytes z inside (omega (arith, full, c.window.rl_is)) v
          ∙ part-append 0 bytes (tms ++ tdi) rest (omega (arith, both))
          ∙ take-append_eq bytes tms tdi la in
        let index : z.rp + bytes + 0 ≡ z.rp + bytes = omega arith in
        let eb : take bytes (drop (z.rp + bytes + 0) z.rxb) ≡ tdi =
          ap (λ (k : ℕ). take bytes (drop k z.rxb)) index
          ∙ peek-Sees bytes bytes z inside (omega (arith, full, c.window.rl_is)) v
          ∙ part-append bytes bytes (tms ++ tdi) rest (omega (arith, both))
          ∙ ap (take bytes) (drop-append_eq bytes tms tdi la)
          ∙ take_of_le bytes tdi (omega (arith, lb)) in
        let room : 0 + length out_x ≤ length z.txb = omega (arith, c.window.tx_size, lx) in
        let (d', e, at_d') =
          agreed_pieces-serial clock period limit m api At hw bits bytes sup tms tdi z j refl narrow
            lo hi (omega (arith, room, lx)) (omega (arith, inside, full, c.window.rl_is)) ea eb ba
            bb (subst (λ (k : D). At k j) (sym v.drv_is) at_d) in
        let rest_is : drop (2 * bytes) ((tms ++ tdi) ++ rest) ≡ rest =
          drop-append_eq (2 * bytes) (tms ++ tdi) rest both in
        rw es (
          Returns-after (λ _ t. Leaves rest out out_x (left' - 2 * bytes) sup x.1 t)
            (send_pieces api bits bytes (if ltb sup bytes then sup else bytes) 0 bits z)
            (λ _ w. bump (2 * bytes) (record w { tl = bytes })) tt
            (record z { drv = d'; txb = stored z.txb 0 out_x }) e
            (subst
              (λ i.
                Returns (λ _ t. Leaves i out out_x (left' - 2 * bytes) sup x.1 t)
                  (bump (2 * bytes)
                    (record z { drv = d'; txb = stored z.txb 0 out_x; tl = bytes })))
              rest_is
              (answered left' (2 * bytes) bytes z d' x.1 (stored z.txb 0 out_x) out_x at_d'
                (omega arith) (length-stored z.txb 0 out_x room) (omega arith)
                (take-append_eq bytes out_x (drop (0 + length out_x) z.txb) lx) h)))

    pub shift_total :
        (bits : ℕ) (tms tdi : List ℕ) (s : Conn D)
        → let x = serial clock bits (of_le tms) (of_le tdi) j in
          IsRequest m (shift_of bits tms tdi)
          → 1 ≤ sup
          → sup ≤ limit
          → Before m 10 (encode (shift_of bits tms tdi) ++ rest) out rep left sup d s
          → Returns
              (λ _ t.
                Leaves rest out (to_le (octets bits) x.0) (left - 10 - 2 * octets bits) sup x.1 t)
              (shift api s)
    unfolding shift vector_bytes
    shift_total bits tms tdi s (narrow, fits, la, lb, ba, bb) lo hi b =
        let inp : List ℕ = encode (shift_of bits tms tdi) ++ rest in
        let x = serial clock bits (of_le tms) (of_le tdi) j in
        Returns-bind (λ _ t. Filled m 10 inp out rep (at_least 10 left) sup d t)
          (λ _ t. Leaves rest out (to_le (octets bits) x.0) (left - 10 - 2 * octets bits) sup x.1 t)
          (fill 10 s) _ (fill_total m 10 s (omega arith) (omega arith) b)
          (λ u t f.
            let ((c, full), v) = f in
            let num : of_le (take 4 (drop (t.rp + 6) t.rxb)) ≡ bits =
              ap of_le (
                peek-Sees 6 4 t (in_block m 10 t (omega arith) c)
                  (omega (arith, full, c.window.rl_is)) v)
              ∙ of_le-to_le 4 bits (omega arith) in
            let bytes : u32 (bits + 7) / 8 ≡ octets bits = omega arith in
            Returns-read
              (λ _ t.
                Leaves rest out (to_le (octets bits) x.0) (left - 10 - 2 * octets bits) sup x.1 t)
              t t.rxb (t.rp + 6) 4 _ (omega (arith, c.window.rx_size, c.window.rp_is, c.low))
              (rw (num, bytes)
                (rw (le→leb (octets bits) t.max_vec_len (omega (arith, c.window.max_is))) (
                  Returns-bind (λ _ t. Done m (drop 10 inp) out rep (left - 10) sup d t)
                    (λ _ t.
                      Leaves rest out (to_le (octets bits) x.0) (left - 10 - 2 * octets bits) sup
                        x.1 t)
                    (bump 10 t) _ (rw (taken 10 left) at (bump_total m 10 t (omega arith) f))
                    (λ v2 y g.
                      let ((b0, _), w0) = g in
                      Returns-bind
                        (λ _ t.
                          Filled m (2 * octets bits) (drop 10 inp) out rep
                            (at_least (2 * octets bits) (left - 10)) sup d t)
                        (λ _ t.
                          Leaves rest out (to_le (octets bits) x.0) (left - 10 - 2 * octets bits)
                            sup x.1 t)
                        (fill (2 * octets bits) y) _
                        (fill_total m (2 * octets bits) y (omega arith)
                          (omega
                            (arith, length-append {0} (tms ++ tdi) rest, length-append {0} tms tdi))
                          (widen Any m 0 (2 * octets bits) y (omega arith) b0, w0))
                        (λ v3 z h.
                          vectors_total bits (left - 10) t.sup_vec_len tms tdi z narrow fits la lb
                            ba bb lo hi v.sup_is h))))))
