-- ===== src/Examples/Hardware.antt =====
-- Runs of the drivers for hardware: xvcSrv/src/xvcDrvAxiDbgBridgeIP.cc, xvcDrvAxisTmem.cc and
-- xvcDrvAxisFifo.cc.
use xvc_support.Base.{
  ℕ, ◌+◌, ◌-◌, ◌*◌, ◌/◌, ◌≡◌, refl, true, false, List, [], ◌∷◌, ◌++◌, take, drop, min, ok, err,
  proto_err, arith, pure,
}
use xvc_support.Header.{get_vrs, get_cmd, get_len}
use xvc_support.Header.Memory.{word_bytes}
use xvc_support.Driver.{RxBuf, Reply}
use xvc_support.Driver.Pack.Layout.{message, rounded}
use xvc_support.Serial.{serial}
use xvc_support.Tmem.{xfer32bb, xfer_sdes}
use xvc_support.Tmem.Pins.{Port, Enabled, xfer32bb-serial}
use xvc_support.Tmem.Sdes.{Shifter}
use xvc_support.Tmem.Equal.{xfer_sdes-equal}
use xvc_support.Tmem.Fifo.{tmem_max_vec}
use xvc_support.Tmem.Fifo.Size.{tmem_max_vec-overfull}
use xvc_support.Mmio.{i32}
use xvc_support.Fifo.{Link, receive_words}
use xvc_support.Fifo.Receive.{joined, receive_words-short}
use xvc_support.Zynq.{zynq_xfer, rx_dat_idx}
use xvc_support.Zynq.Stream.{Stream, words_of, zynq_xfer-reply}
use xvc_support.Examples.Targets.{
  delay, itself, port, port-IsPort, shifter, shifter-IsShifter, stream, stream-IsStream, mirror,
}

abbrev five : List ℕ
five = 1 ∷ 2 ∷ 3 ∷ 4 ∷ 5 ∷ []

abbrev six : List ℕ
six = 9 ∷ 8 ∷ 7 ∷ 6 ∷ 5 ∷ 4 ∷ []

abbrev no_code : ℕ → ℕ
no_code n = 0

abbrev raised : Port ℕ
raised = record { csr = 0x80000000; target = 1 }

xfer32bb-serial_example :
    let x = serial delay 5 22 13 1 in
    (t : Port ℕ) × (xfer32bb port true 22 13 5 raised ≡ (ok x.0, t))
    × Enabled delay port itself port-IsPort true t x.1
xfer32bb-serial_example =
    xfer32bb-serial delay port itself port-IsPort true 5 22 13 raised 1 (omega arith) (refl, refl)

abbrev shift_header : ℕ
shift_header = 0x10500026

abbrev at_shifter : Shifter ℕ
at_shifter = record { tms = 0; tdi = 0; tdo = 0; busy = 0; target = 1 }

abbrev three : List ℕ
three = 0 ∷ 0 ∷ 0 ∷ []

abbrev into_six : RxBuf
into_six = record { block = six; size = 5 }

xfer_sdes-equal_example :
    let msg = message 4 shift_header ((39 + 7) / 8) five six three three [] in
    (r : Reply) × (d : Port ℕ) × (e : Shifter ℕ) × (xfer_sdes port true false
        (pure tt)
        3
        true
        no_code
        msg
        4
        into_six
        raised
      ≡ (ok r, d))
    × (xfer_sdes shifter false false (pure tt) 3 true no_code msg 4 into_six at_shifter ≡ (ok r, e))
    × (d.target ≡ e.target)
unfolding get_vrs get_cmd get_len
xfer_sdes-equal_example =
    xfer_sdes-equal delay port itself shifter (pure tt) (pure tt) 3 3 itself false false no_code
      shift_header 39 5 five six three three six raised at_shifter port-IsPort shifter-IsShifter
      (omega arith) refl refl refl (omega arith) (omega arith) (omega arith) (omega arith) refl refl
      (omega arith) (omega arith) refl refl

abbrev at_stream : Link Stream
at_stream = record {
  dev = record { out = []; busy = 0; count = 0; reply = [] };
  dr_en = false;
  dropped = 0;
}

abbrev eight : List ℕ
eight = 1 ∷ 2 ∷ 3 ∷ 4 ∷ 5 ∷ 6 ∷ 7 ∷ 8 ∷ []

abbrev into_three : RxBuf
into_three = record { block = six; size = 3 }

zynq_xfer-reply_example :
    let a = mirror (words_of true 2 eight) 4 in
    let reply = joined (word_bytes true) a.1 in
    let m = min 3 (a.0 - 4) in
    (t : Link Stream) × (zynq_xfer stream false (pure tt) 3 true eight 4 into_three at_stream
      ≡ (ok (record { hd = take 4 reply; rx = take m (drop 4 reply) ++ drop m six; got = m }), t))
    × (t.dev.reply ≡ [])
    × (t.dr_en ≡ false)
zynq_xfer-reply_example =
    zynq_xfer-reply stream (pure tt) 3 mirror itself stream-IsStream false true 1 4 eight into_three
      at_stream refl refl refl (omega arith) refl (omega arith) (omega arith) refl (omega arith)

receive_words-short_example :
    (t : Stream) × (receive_words
        (i32 stream rx_dat_idx)
        (word_bytes true)
        8
        5
        into_three
        at_stream.dev
      ≡ (err proto_err, t))
receive_words-short_example =
    receive_words-short (i32 stream rx_dat_idx) (word_bytes true) (λ s. (_, _, refl)) 8 5 into_three
      at_stream.dev refl (omega arith)

tmem_max_vec-overfull_example :
    (4 + 2 * tmem_max_vec 0x11000000 ≡ 256 * 4)
    × (4 + 2 * rounded (tmem_max_vec 0x11000000) 4 ≡ 256 * 4 + 4)
tmem_max_vec-overfull_example = tmem_max_vec-overfull 0x11000000 (omega arith)
