-- ===== src/Conn/Session/Chunk.antt =====
-- A chunk that the outer loop of `run` (xvcSrv/src/xvcConn.cc) reads.
use mathlib.Core.Path.{subst}
use xvc_support.Base.{
  ok, ℕ, ◌+◌, ◌*◌, ◌≤◌, ◌≡◌, refl, ap, ap₂, sym, ◌∙◌, inl, inr, List, [], ◌++◌, length, take, drop,
  arith, All, IsBytes, IsBytes-append, IsBytes-take, IsBytes-drop, length-append, length-take,
}
use xvc_support.Conn.{Conn, read}
use xvc_support.Conn.Fill.{stream, IsOpen, stored, read_lem, length-stored}
use xvc_support.Conn.Flush.{IsWritable}
use xvc_support.Conn.Safe.{Safe}
use xvc_support.Conn.Window.{Any, with_net, with_place, with_rxb}
use xvc_support.Conn.Window.Moves.{Got, read-Safe}
use xvc_support.Conn.Window.Run.{fresh, fresh-IsWindow}
use xvc_support.Conn.Session.Moves.{window_stored}
use xvc_support.Conn.Session.Input.{Done}

module _ {D : Type 0} (m : ℕ) {inp out rep : List ℕ} {sup : ℕ} {d : D} where
  -- The window after a chunk is read.
  chunk_read :
      (t : Conn D) (bs : List ℕ) (net : List (List ℕ))
      → 1 ≤ length bs
      → length bs ≤ 2 * m + 128
      → IsBytes bs
      → All IsBytes net
      → IsOpen net
      → stream t.net ≡ bs ++ stream net
      → Done m inp out rep 0 sup d t
      → Done m inp out rep
          (length bs)
          sup
          d
          (record t { net = net; rxb = stored t.rxb t.rp bs; rl = length bs })
  chunk_read t bs net lo1 short bb bn open_ e ((b, start), v) =
      let w = b.window in
      let none_in : t.rl ≡ 0 = v.left_is in
      let front : t.rp ≡ 0 = start none_in in
      let mem : List ℕ = stored t.rxb t.rp bs in
      let size : length mem ≡ length t.rxb =
        length-stored t.rxb t.rp bs (omega (arith, front, w.rx_size)) in
      let bytes : IsBytes mem =
        IsBytes-append (take t.rp t.rxb) (bs ++ drop (t.rp + length bs) t.rxb)
          (IsBytes-take t.rp t.rxb w.rx_bytes)
          (IsBytes-append bs (drop (t.rp + length bs) t.rxb) bb
            (IsBytes-drop (t.rp + length bs) t.rxb w.rx_bytes)) in
      let place : t.rp + 0 ≡ t.rp = omega arith in
      let count : 0 + length bs ≡ length bs = omega arith in
      let chunk : take (length bs) (drop t.rp mem) ≡ bs =
        ap₂ (λ (k i : ℕ). take k (drop t.rp (stored t.rxb i bs))) (sym count) (sym place)
        ∙ window_stored t.rxb bs t.rp 0 (omega (arith, front)) in
      (
        (
          record {
            rp = 0;
            rl = length bs;
            window =
                with_place m (record t { net = net; rxb = mem }) t.rp (length bs) 0 (length bs)
                  (with_rxb m (record t { net = net }) mem (with_net m t net w bn) size bytes) front
                  refl;
            low = omega arith;
            near = inr (omega arith);
          },
          λ q. front,
        ),
        record {
          input_is =
              ap (λ x. x ++ stream net) chunk
              ∙ sym e
              ∙ ap (λ (k : ℕ). take k (drop t.rp t.rxb) ++ stream t.net) (sym none_in)
              ∙ v.input_is;
          sent_is = v.sent_is;
          puts_are = v.puts_are;
          reply_is = v.reply_is;
          left_is = refl;
          sup_is = v.sup_is;
          drv_is = v.drv_is;
          is_open = open_;
        },
      )

  -- While the stream has an octet, a read brings a chunk.
  pub next_chunk :
      (s : Conn D)
      → Done m inp out rep 0 sup d s
      → 1 ≤ length inp
      → (bs : List ℕ) × (net : List (List ℕ)) × (read s.chunk s ≡ (ok bs, record s { net = net }))
        × (1 ≤ length bs)
        × (s.rp + length bs ≤ length s.rxb)
        × Done m inp out rep
            (length bs)
            sup
            d
            (record s { net = net; rxb = stored s.rxb s.rp bs; rl = length bs })
  next_chunk s ((b, start), v) more =
      let w = b.window in
      let front : s.rp ≡ 0 = start v.left_is in
      let some_left : 1 ≤ length (stream s.net) = omega (
        arith,
        ap length v.input_is,
        length-append {0} (take s.rl (drop s.rp s.rxb)) (stream s.net),
        length-take s.rl (drop s.rp s.rxb),
        more,
        v.left_is,
      ) in
      let (bs, net, e, lo1, short, whole, open_) =
        read_lem s.net s s.chunk refl (omega (arith, w.chunk_is)) v.is_open some_left in
      let (_, (bb, w')) =
        subst (Safe (Got Any m s.chunk b.rp b.rl)) e
          (read-Safe Any m s.net s.chunk b.rp b.rl s refl w) in
      (
        bs,
        net,
        e,
        lo1,
        omega (arith, front, w.rx_size, w.chunk_is),
        chunk_read s bs net lo1 (omega (arith, w.chunk_is)) bb w'.net_bytes open_ whole
            ((b, start), v),
      )

-- The connection after `allocBufs`.
pub fresh-Done :
    {D : Type 0} (sup : ℕ) (d : D) (s : Conn D)
    → All IsBytes s.net
    → IsOpen s.net
    → IsWritable s.puts
    → Done s.max_vec_len (stream s.net) s.sent [] 0 sup d (fresh s.max_vec_len d sup s)
fresh-Done sup d s bytes open_ writable = (
  (
    record {
      rp = 0;
      rl = 0;
      window = fresh-IsWindow Any s.max_vec_len sup d s refl bytes tt;
      low = omega arith;
      near = inl (omega arith);
    },
    λ q. refl,
  ),
  record {
    input_is = refl;
    sent_is = refl;
    puts_are = writable;
    reply_is = refl;
    left_is = refl;
    sup_is = refl;
    drv_is = refl;
    is_open = open_;
  },
)
