-- ===== src/Udp/Loss.antt =====
-- The driver over a socket on which datagrams are lost.
use xvc_support.Base.{
  ℕ, zero, suc, ◌≤◌, ◌≡◌, refl, sym, Bool, some, List, [], ◌∷◌, ◌++◌, replicate, ok, err,
  timeout_err, read_at, write_at, append_assoc, append-nil, arith,
}
use mathlib.Core.Path.{subst, ap₂}
use xvc_support.Header.{get_xid, get_err}
use xvc_support.Header.Memory.{getw32}
use xvc_support.Driver.{RxBuf, Reply, Drv, attempt, xfer_rel}
use xvc_support.Driver.Attempts.{Lost, here, timeout}
use xvc_support.Driver.Retry.{xfer_rel_recovers}
use xvc_support.Driver.Send.{attempt_answered}
use xvc_support.Udp.{Event, timed_out, datagram, Socket, receive, on_event, xfer}

module _ (le : Bool) (xid n : ℕ) (rxb : RxBuf) (tx : List ℕ) where
  one_timeout :
      (s : Drv Socket) (es : List Event)
      → read_at s.tx_buf 0 n ≡ some tx
      → s.io.events ≡ timed_out ∷ es
      → attempt le xfer xid n rxb s ≡ (
        err timeout_err,
        record s { io = record { events = es; written = s.io.written ++ (tx ∷ []) } },
      )
  unfolding attempt xfer on_event
  one_timeout s es e f = ground arith

  timeouts-Lost :
      (k : ℕ) (s : Drv Socket) (es : List Event)
      → read_at s.tx_buf 0 n ≡ some tx
      → s.io.events ≡ replicate k timed_out ++ es
      → Lost le xfer xid n k rxb rxb s
          (record s { io = record { events = es; written = s.io.written ++ replicate k tx } })
  timeouts-Lost zero s es e f =
      subst (λ t. Lost le xfer xid n 0 rxb rxb s t)
        (ap₂ (λ x y. record s { io = record { events = x; written = y } }) f
          (sym (append-nil s.io.written)))
        here
  timeouts-Lost (suc k) s es e f = timeout (one_timeout s (replicate k timed_out ++ es) e f) (
      rw (append_assoc s.io.written (tx ∷ []) (replicate k tx)) at (
        timeouts-Lost k
          (record s {
            io = record {
              events = replicate k timed_out ++ es;
              written = s.io.written ++ (tx ∷ []);
            };
          })
          es e refl))

module _ (le : Bool) (n : ℕ) (rxb : RxBuf) where
  -- Where a socket runs out of time at most `retry_` times and then brings a datagram with the id
  -- of the request and no error, `xferRel` has sent the same message once more than that and
  -- returns the octets of this datagram.
  pub xfer_rel_over_loss :
      (s : Drv Socket) (k h h' : ℕ) (tx msg hd : List ℕ) (r : Reply) (es : List Event)
      → read_at s.tx_buf 0 n ≡ some tx
      → getw32 le s.tx_buf 0 ≡ some h
      → s.io.events ≡ replicate k timed_out ++ (datagram msg ∷ es)
      → k ≤ s.retry
      → receive msg s.word_size_ rxb ≡ ok r
      → write_at s.hd_buf 0 r.hd ≡ some hd
      → getw32 le hd 0 ≡ some h'
      → get_err h' ≡ 0
      → get_xid h' ≡ get_xid h
      → xfer_rel le xfer n rxb s ≡ (
        ok (h', r),
        record s {
          io = record { events = es; written = (s.io.written ++ replicate k tx) ++ (tx ∷ []) };
          hd_buf = hd;
        },
      )
  unfolding xfer on_event
  xfer_rel_over_loss s k h h' tx msg hd r es e1 e2 e3 hk e4 e5 e6 e7 e8 =
      let t : Drv Socket = record s {
        io = record { events = datagram msg ∷ es; written = s.io.written ++ replicate k tx };
      } in
      let io : Socket = record {
        events = es;
        written = (s.io.written ++ replicate k tx) ++ (tx ∷ []);
      } in
      let answer : xfer tx s.word_size_ rxb t.io ≡ (ok r, io) = rw e4 refl in
      xfer_rel_recovers le xfer n rxb rxb s t (record s { io = io; hd_buf = hd }) h k h' r e2 hk
        (timeouts-Lost le (get_xid h) n rxb tx k s (datagram msg ∷ es) e1 e3)
        (attempt_answered le xfer (get_xid h) n rxb h' t tx hd r io e1 answer e5 e6 e7 e8)
