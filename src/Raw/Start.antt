-- ===== src/Raw/Start.antt =====
-- The query of a driver that handles the message itself.
use xvc_support.Base.{
  ℕ, ◌+◌, ◌^◌, ◌≤◌, ◌<◌, ◌≡◌, refl, ap, sym, ◌∙◌, true, some, List, [], ◌++◌, take, drop, suc,
  arith, ok, Eff, to_le, read_at, read_at-parts, le→ltb_false, eq→==, take-append-drop, length-take,
}
use xvc_support.Header.{
  mk_query, get_err, get_xid, word_size, mem_depth, mk_query_reply, enc_per_ns, get_vrs, get_cmd,
  cvt_per_ns, unknown_period,
}
use xvc_support.Header.Memory.{getw32, set_hdr, word_of}
use xvc_support.Header.Wire.{getw32-parts, set_hdr-parts}
use xvc_support.Driver.{null_buf, Drv, query, xfer_rel, attempts, adopt}
use xvc_support.Driver.Ready.{IsReady, query-IsReady}
use xvc_support.Driver.Send.{attempt_answered}
use xvc_support.Driver.Start.{init_checked}
use xvc_support.LoopBack.EndToEnd.{write_front}
use xvc_support.Raw.{raw_xfer}

query_small : mk_query < 2 ^ 32
unfolding mk_query
query_small = omega arith

reply_no_error : get_err 3 ≡ 0
unfolding get_err get_cmd
reply_no_error = refl

reply_id : get_xid 3 ≡ get_xid mk_query
unfolding get_xid mk_query
reply_id = refl

module _ {S : Type 0} (log_code pow_code : ℕ → ℕ) (start : Eff S (Unit {0}))
    (word : ℕ → ℕ → ℕ → Eff S ℕ) where
  raw_xfer-query :
      (s : S)
      → raw_xfer true log_code start word (to_le 4 mk_query) 4 null_buf s
        ≡ (ok (record { hd = to_le 4 3; rx = []; got = 4 }), s)
  unfolding raw_xfer mk_query getw32 read_at get_vrs get_cmd mk_query_reply enc_per_ns word_of
  raw_xfer-query s =
      rw (set_hdr-parts true 4 [] (to_le 4 0) [] 0 3 refl refl (omega arith) (omega arith)) refl

  adopt-raw :
      (s : Drv S)
      → 4 ≤ s.buf_sz
      → (t : Drv S) × (adopt true (raw_xfer true log_code start word) pow_code 3 s ≡ (ok 0, t))
        × (t.word_size_ ≡ 4)
        × (t.io ≡ s.io)
        × (t.debug ≡ s.debug)
        × (t.period_ns ≡ unknown_period)
  unfolding adopt word_size mem_depth cvt_per_ns
  adopt-raw s room = rw (le→ltb_false s.buf_sz 4 room) (_, refl, refl, refl, refl, refl)

  pub query-raw :
      (s : Drv S)
      → IsReady s
      → s.word_size_ ≡ 4
      → (t : Drv S) × (query true (raw_xfer true log_code start word) pow_code s ≡ (ok 0, t))
        × (t.word_size_ ≡ 4)
        × (t.io ≡ s.io)
        × (t.debug ≡ s.debug)
        × (t.period_ns ≡ unknown_period)
  unfolding query xfer_rel attempts
  query-raw s ready four =
      let old : List ℕ = take 4 s.tx_buf in
      let back : List ℕ = drop 4 s.tx_buf in
      let tx : List ℕ = to_le 4 mk_query ++ back in
      let stored : set_hdr true 4 s.tx_buf 0 mk_query ≡ some tx =
        ap (λ (m : List ℕ). set_hdr true 4 m 0 mk_query) (sym (take-append-drop 4 s.tx_buf))
        ∙ set_hdr-parts true 4 [] old back 0 mk_query refl
            (omega (arith, length-take 4 s.tx_buf, ready.reserved, ready.least)) (omega arith)
            (omega arith) in
      let stored' : set_hdr true s.word_size_ s.tx_buf 0 mk_query ≡ some tx =
        ap (λ (w : ℕ). set_hdr true w s.tx_buf 0 mk_query) four ∙ stored in
      let s1 : Drv S = record s { tx_buf = tx } in
      let request : getw32 true tx 0 ≡ some mk_query =
        getw32-parts true [] back 0 mk_query refl query_small in
      let sent : read_at tx 0 s.word_size_ ≡ some (to_le 4 mk_query) =
        ap (λ (w : ℕ). read_at tx 0 w) four
        ∙ read_at-parts [] (to_le 4 mk_query) back 0 4 refl refl in
      let asked : raw_xfer true log_code start word (to_le 4 mk_query) s.word_size_ null_buf s.io
          ≡ (ok (record { hd = to_le 4 3; rx = []; got = 4 }), s.io) =
        ap (λ (w : ℕ). raw_xfer true log_code start word (to_le 4 mk_query) w null_buf s.io) four
        ∙ raw_xfer-query s.io in
      let hd : List ℕ = to_le 4 3 ++ drop 4 s.hd_buf in
      let s2 : Drv S = record s1 { io = s.io; hd_buf = hd } in
      let turn =
        attempt_answered true (raw_xfer true log_code start word) (get_xid mk_query) s.word_size_
          null_buf 3 s1 (to_le 4 mk_query) hd _ s.io sent asked
          (write_front s.hd_buf (to_le 4 3) (omega (arith, ready.header_room)))
          (getw32-parts true [] (drop 4 s.hd_buf) 0 3 refl (omega arith)) reply_no_error reply_id in
      let one_more : s.retry + 1 ≡ suc s.retry = omega arith in
      let (t, e, word4, io, debug, period) = adopt-raw s2 (omega (arith, ready.least)) in
      (t, rw stored' (rw request (rw (one_more, turn) e)), word4, io, debug, period)

  -- Where the reset succeeds, `init` of a ready driver with words of 4 octets does, and the driver is
  -- ready; apart from the reset nothing is done to the device.
  pub init_checked-raw :
      (s : Drv S) (reset : Eff S (Unit {0})) (io : S)
      → IsReady s
      → s.word_size_ ≡ 4
      → reset s.io ≡ (ok tt, io)
      → (t : Drv S) × (init_checked true (raw_xfer true log_code start word) pow_code reset 4 s
          ≡ (ok tt, t))
        × IsReady t
        × (t.word_size_ ≡ 4)
        × (t.io ≡ io)
        × (t.debug ≡ s.debug)
        × (t.period_ns ≡ unknown_period)
  unfolding init_checked
  init_checked-raw s reset io ready four e =
      let s1 : Drv S = record s { io = io } in
      let ready1 : IsReady s1 = ground arith in
      let (t, q, word4, same, debug, period) = query-raw s1 ready1 four in
      let (ready', _) =
        query-IsReady true (raw_xfer true log_code start word) pow_code s1 t 0 ready1 q in
      (t, rw e (rw q (rw (eq→== t.word_size_ 4 word4) refl)), ready', word4, same, debug, period)
