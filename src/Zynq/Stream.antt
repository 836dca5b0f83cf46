-- ===== src/Zynq/Stream.antt =====
-- The driver over a stream FIFO: what it sends, and what it makes of the reply.
use xvc_support.Base.{
  ℕ, zero, suc, ◌+◌, ◌-◌, ◌*◌, ◌/◌, ◌%◌, ◌^◌, ◌≤◌, ◌<◌, ◌≡◌, refl, ap, sym, ◌∙◌, Bool, true, false,
  List, [], ◌∷◌, ◌++◌, length, take, drop, some, min, arith, ok, Eff, bit_and, not, ◌==◌, u32,
  sub32, eq→==, ne→==_false, append_assoc, append-nil, length-take, length-drop, length-append,
  take-append-drop, read_at, read_at-parts,
}
use xvc_support.Base.Bits.{and_high, and_low}
use xvc_support.Base.Bits.Single.{bit_of}
use xvc_support.Header.Memory.{word_bytes, word_of}
use xvc_support.Driver.{RxBuf}
use xvc_support.Mmio.{Device, i32}
use xvc_support.Mmio.Polling.{Settles, poll_settles}
use xvc_support.Fifo.{Link, drop_some}
use xvc_support.Fifo.Receive.{IsQueue, joined, receive_words-queue}
use xvc_support.Zynq.{
  tx_dat_idx, tx_end_idx, rx_sta_idx, rx_rdy, rx_dat_idx, rx_cnt_idx, send_words, zynq_send,
  zynq_xfer,
}

-- The words that are written but not sent, for how many reads of the status the reply is not there,
-- how many octets it has, and its words.
pub record Stream : Type 0 where
  pub out : List ℕ
  pub busy : ℕ
  pub count : ℕ
  pub reply : List ℕ

-- A device that is such a FIFO before a target that answers the words of a message, of which the
-- last has so many octets, by octets in words.
pub record IsStream {D : Type 0} (dev : Device D) (wait : Eff D (Unit {0})) (patience : ℕ)
    (answer : List ℕ → ℕ → ℕ × List ℕ) (view : D → Stream) : Type 0 where
  pub wr_dat :
      (v : ℕ) (d : D)
      → view (dev.wr tx_dat_idx v d) ≡ record (view d) { out = (view d).out ++ (v ∷ []) }
  pub wr_end :
      (v : ℕ) (d : D)
      → let a = answer (view d).out v in
        (n : ℕ) × (n < patience)
        × (view (dev.wr tx_end_idx v d) ≡ record { out = []; busy = n; count = a.0; reply = a.1 })
  pub rd_ready : (d : D) → (view d).busy ≡ 0 → bit_of 5 (dev.rd rx_sta_idx d).0 ≡ 1
  pub rd_busy : (d : D) (n : ℕ) → (view d).busy ≡ suc n → bit_of 5 (dev.rd rx_sta_idx d).0 ≡ 0
  pub rd_sta : (d : D) → view (dev.rd rx_sta_idx d).1 ≡ record (view d) { busy = (view d).busy - 1 }
  pub waits : (d : D) → (t : D) × (wait d ≡ (ok tt, t)) × (view t ≡ view d)
  pub wr_sta : (v : ℕ) (d : D) → view (dev.wr rx_sta_idx v d) ≡ view d
  pub rd_cnt : (d : D) → (dev.rd rx_cnt_idx d).0 ≡ (view d).count
  pub rd_cnt_view : (d : D) → view (dev.rd rx_cnt_idx d).1 ≡ view d
  pub rd_dat :
      (w : ℕ) (ws : List ℕ) (d : D)
      → (view d).reply ≡ w ∷ ws
      → ((dev.rd rx_dat_idx d).0 ≡ w) × ((view (dev.rd rx_dat_idx d).1).reply ≡ ws)

-- The words of a message on a host of either octet order.
abbrev pub words_of : Bool → ℕ → List ℕ → List ℕ
words_of le zero tx = []
words_of le (suc n) tx = word_of le (take 4 tx) ∷ words_of le n (drop 4 tx)

module _ {D : Type 0} (dev : Device D) (wait : Eff D (Unit {0})) (patience : ℕ)
    (answer : List ℕ → ℕ → ℕ × List ℕ) (view : D → Stream)
    (hw : IsStream dev wait patience answer view) (use_irq : Bool) (le : Bool) where
  send_words-out :
      (n i : ℕ) (front tx : List ℕ) (d : D)
      → length front ≡ i
      → length tx ≡ 4 * n
      → (t : D) × (send_words dev use_irq wait patience le n i (front ++ tx) d ≡ (ok tt, t))
        × (view t ≡ record (view d) { out = (view d).out ++ words_of le n tx })
  unfolding send_words
  send_words-out zero i front tx d hf ht =
      (d, refl, ap (λ (o : List ℕ). record (view d) { out = o }) (sym (append-nil (view d).out)))
  send_words-out (suc n) i front tx d hf ht =
      let a : List ℕ = take 4 tx in
      let b : List ℕ = drop 4 tx in
      let d1 : D = dev.wr tx_dat_idx (word_of le a) d in
      let read : read_at (front ++ tx) i 4 ≡ some a =
        ap (λ x. read_at (front ++ x) i 4) (sym (take-append-drop 4 tx))
        ∙ read_at-parts front a b i 4 hf (omega (arith, length-take 4 tx)) in
      let (t, e, v) =
        send_words-out n (i + 4) (front ++ a) b d1
          (omega (arith, length-append {0} front a, length-take 4 tx))
          (omega (arith, length-drop 4 tx)) in
      let same : (front ++ a) ++ b ≡ front ++ tx =
        append_assoc front a b ∙ ap (λ x. front ++ x) (take-append-drop 4 tx) in
      let e' : send_words dev use_irq wait patience le n (i + 4) (front ++ tx) d1 ≡ (ok tt, t) =
        ap (λ x. send_words dev use_irq wait patience le n (i + 4) x d1) (sym same) ∙ e in
      (
        t,
        rw read e',
        v
            ∙ ap (λ (r : Stream). record r { out = r.out ++ words_of le n b })
                (hw.wr_dat (word_of le a) d)
            ∙ ap (λ (o : List ℕ). record (view d) { out = o })
                (append_assoc (view d).out (word_of le a ∷ []) (words_of le n b)),
      )

  abbrev IsLike : Stream → D → Type 0
  IsLike r d = record (view d) { busy = 0 } ≡ record r { busy = 0 }

  ready_bit : (v : ℕ) → bit_and v rx_rdy ≡ bit_of 5 v * 2 ^ 5
  ready_bit v = and_high 5 v 1 ∙ omega (arith, and_low 1 (v / 2 ^ 5))

  settles :
      (r : Stream)
      → Settles
          (i32 dev rx_sta_idx)
          (λ v. not (bit_and v rx_rdy == 0))
          wait
          (λ d. (view d).busy)
          (IsLike r)
          (λ d. view d ≡ record r { busy = 0 })
  settles r = record {
    idle = λ d like e. (
      _,
      _,
      refl,
      ap not (ne→==_false _ 0 (omega (arith, ready_bit (dev.rd rx_sta_idx d).0, hw.rd_ready d e))),
      hw.rd_sta d ∙ ap (λ (n : ℕ). record (view d) { busy = n - 1 }) e ∙ like,
    );
    working = λ d n like e.
        let (t, w, same) = hw.waits (dev.rd rx_sta_idx d).1 in
        let after : view t ≡ record (view d) { busy = (view d).busy - 1 } = same ∙ hw.rd_sta d in
        (
          _,
          _,
          t,
          refl,
          ap not (eq→== _ 0 (omega (arith, ready_bit (dev.rd rx_sta_idx d).0, hw.rd_busy d n e))),
          w,
          ap (λ (x : Stream). record x { busy = 0 }) after ∙ like,
          ap (λ (x : Stream). x.busy) after ∙ omega arith,
        );
  }

  -- The message, of whole words, is sent, and the driver waits for the reply.
  zynq_send-reply :
      (n : ℕ) (tx : List ℕ) (d : D)
      → (view d).out ≡ []
      → length tx ≡ 4 * suc n
      → length tx < 2 ^ 31
      → let a = answer (words_of le (suc n) tx) 4 in
        (t : D) × (zynq_send dev use_irq wait patience le tx d ≡ (ok a.0, t))
        × (view t ≡ record { out = []; busy = 0; count = a.0; reply = a.1 })
  unfolding zynq_send
  zynq_send-reply n tx d empty size small =
      let ws : List ℕ = words_of le (suc n) tx in
      let a : ℕ × List ℕ = answer ws 4 in
      let count : u32 (length tx + 3) / 4 ≡ suc n = omega arith in
      let last : sub32 (length tx) (u32 (4 * sub32 (suc n) 1)) ≡ 4 = omega arith in
      let (d1, e1, v1) = send_words-out (suc n) 0 [] tx d refl size in
      let out1 : (view d1).out ≡ ws =
        ap (λ (r : Stream). r.out) v1 ∙ ap (λ (o : List ℕ). o ++ ws) empty in
      let (k, soon, v2) = hw.wr_end 4 d1 in
      let d2 : D = dev.wr tx_end_idx 4 d1 in
      let replied : Stream = record { out = []; busy = 0; count = a.0; reply = a.1 } in
      let r2 : view d2 ≡ record replied { busy = k } =
        v2
        ∙ ap
            (λ (o : List ℕ). record {
              out = [];
              busy = k;
              count = (answer o 4).0;
              reply = (answer o 4).1;
            })
            out1 in
      let (_, d3, polled, v3) =
        poll_settles _ _ _ (λ s. (view s).busy) _ _ (settles replied) k patience d2
          (ap (λ (r : Stream). record r { busy = 0 }) r2) (ap (λ (r : Stream). r.busy) r2) soon in
      let d4 : D = dev.wr rx_sta_idx rx_rdy d3 in
      let v4 : view d4 ≡ replied = hw.wr_sta rx_rdy d3 ∙ v3 in
      let d5 : D = (dev.rd rx_cnt_idx d4).1 in
      let value : (dev.rd rx_cnt_idx d4).0 ≡ a.0 = hw.rd_cnt d4 ∙ ap (λ (r : Stream). r.count) v4 in
      (
        d5,
        rw (count, last) (rw e1 (rw polled (ap (λ (x : ℕ). (ok x, d5)) value))),
        hw.rd_cnt_view d4 ∙ v4,
      )

  queue :
      (octets : ℕ → List ℕ)
      → ((w : ℕ) → length (octets w) ≡ 4)
      → IsQueue (i32 dev rx_dat_idx) octets (λ ws d. (view d).reply ≡ ws)
  queue octets four = record {
    pops = λ w ws d e.
        let (v, r) = hw.rd_dat w ws d e in
        (_, ap (λ (x : ℕ). (ok x, (dev.rd rx_dat_idx d).1)) v, r);
    four = four;
  }

  length-word_bytes : (b : Bool) (w : ℕ) → length (word_bytes b w) ≡ 4
  unfolding word_bytes
  length-word_bytes true w = refl
  length-word_bytes false w = refl

  -- Over a FIFO that behaves as the driver expects, a message of one whole word or more is sent as
  -- its words, and where the reply has the header and its octets are in words, `xfer` returns the
  -- octets of the header and as many of the body as `size` allows: the rest of the block stays,
  -- and no word of the reply is left in the FIFO. Test mode is off, the header is a multiple of 4
  -- octets, and the block has room.
  pub zynq_xfer-reply :
      (n hsize : ℕ) (tx : List ℕ) (rxb : RxBuf) (s : Link D)
      → let a = answer (words_of le (suc n) tx) 4 in
        let reply = joined (word_bytes le) a.1 in
        let m = min rxb.size (a.0 - hsize) in
        s.dr_en ≡ false
        → (view s.dev).out ≡ []
        → length tx ≡ 4 * suc n
        → length tx < 2 ^ 31
        → hsize % 4 ≡ 0
        → 1 ≤ a.0
        → hsize ≤ a.0
        → length a.1 ≡ (a.0 + 3) / 4
        → m ≤ length rxb.block
        → (t : Link D) × (zynq_xfer dev use_irq wait patience le tx hsize rxb s ≡ (
          ok (record {
            hd = take hsize reply;
            rx = take m (drop hsize reply) ++ drop m rxb.block;
            got = m;
          }),
          t,
        ))
          × ((view t.dev).reply ≡ [])
          × (t.dr_en ≡ false)
  unfolding zynq_xfer drop_some
  zynq_xfer-reply n hsize tx rxb s keep empty size small aligned some_ enough words room =
      let a : ℕ × List ℕ = answer (words_of le (suc n) tx) 4 in
      let (d1, e1, v1) = zynq_send-reply n tx s.dev empty size small in
      let (d2, e2, done) =
        receive_words-queue (i32 dev rx_dat_idx) (word_bytes le) (λ ws d. (view d).reply ≡ ws)
          (queue (word_bytes le) (length-word_bytes le)) hsize a.0 a.1 rxb d1 aligned some_ enough
          words room (ap (λ (r : Stream). r.reply) v1) in
      (
        record { dev = d2; dr_en = false; dropped = s.dropped },
        rw (eq→== (hsize % 4) 0 aligned) (rw e1 (rw e2 (rw keep refl))),
        done,
        refl,
      )
