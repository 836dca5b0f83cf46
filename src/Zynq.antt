-- ===== src/Zynq.antt =====
-- `JtagDriverZynqFifo`, xvcSrv/src/xvcDrvAxisFifo.cc and xvcDrvAxisFifo.h: the driver for an AXI
-- stream FIFO. The device is a parameter, as are what getopt returns and `wait()`, which waits for
-- an interrupt unless that is disabled; `patience` bounds the rounds of the loops that poll.
pub mod Stream
pub mod Size
use xvc_support.Base.{
  ℕ, zero, suc, ◌+◌, ◌-◌, ◌*◌, ◌/◌, ◌%◌, ◌^◌, bit_and, bit_or, Bool, true, false, List, [], ◌∷◌,
  ◌==◌, not, if◌then◌else◌, u32, sub32, length, read_at, runtime_error, hang, Result, ok, err, Eff,
  pure, throw, guard, after, ◌>>=◌, ◌>>◌, access,
}
use xvc_support.Header.Memory.{word_bytes, word_of}
use xvc_support.Driver.{RxBuf, Reply, Xfer}
use xvc_support.Mmio.{Device, i32, o32, poll}
use xvc_support.Fifo.{Link, on_dev, drop_some, receive_words}

abbrev pub tx_sta_idx : ℕ
tx_sta_idx = 0

abbrev pub tx_ien_idx : ℕ
tx_ien_idx = 1

abbrev pub tx_rst_idx : ℕ
tx_rst_idx = 2

abbrev pub rst_magic : ℕ
rst_magic = 0xa5

abbrev pub tx_dat_idx : ℕ
tx_dat_idx = 4

abbrev pub tx_end_idx : ℕ
tx_end_idx = 5

abbrev pub tx_siz_idx : ℕ
tx_siz_idx = 6

abbrev pub rx_sta_idx : ℕ
rx_sta_idx = 8

abbrev pub rx_ien_idx : ℕ
rx_ien_idx = 9

abbrev pub rx_rst_idx : ℕ
rx_rst_idx = 10

abbrev pub rx_dat_idx : ℕ
rx_dat_idx = 12

abbrev pub rx_cnt_idx : ℕ
rx_cnt_idx = 13

abbrev pub rx_siz_idx : ℕ
rx_siz_idx = 14

abbrev pub rx_rdy : ℕ
rx_rdy = 0x20

abbrev pub rx_rst : ℕ
rx_rst = 1

abbrev pub tx_rst : ℕ
tx_rst = 1

-- The word size and the largest vector that the constructor computes from the size register:
-- `uint32_t` first, then `unsigned long` (64 bits).
unfoldable pub zynq_wrd_siz : ℕ → ℕ
zynq_wrd_siz siz_val = siz_val / 2 ^ 24

unfoldable pub zynq_max_vec : ℕ → ℕ
zynq_max_vec siz_val =
    let max_words = sub32 (bit_and siz_val 0x00ffffff) 1 in
    let max_bytes = (max_words + 2 ^ 64 - 1) % 2 ^ 64 * (siz_val / 2 ^ 24) % 2 ^ 64 in max_bytes / 2

-- What getopt returns: -i, or another letter.
pub data Letter : Type 0 where
  letter_i other_letter : Letter

unfoldable pub zynq_options : List Letter → Bool → Result Bool
zynq_options [] use_irq = ok use_irq
zynq_options (letter_i ∷ opts) use_irq = zynq_options opts false
zynq_options (other_letter ∷ opts) use_irq = err runtime_error

module _ {D : Type 0} (dev : Device D) (use_irq : Bool) (wait : Eff D (Unit {0}))
    (patience : ℕ) where
  -- One of the two flags of the loop in `reset`.
  unfoldable pub reset_flag : ℕ → ℕ → ℕ → ℕ → ℕ → Eff D ℕ
  reset_flag flag rst_idx sta_idx bit set =
      if bit_and set flag == 0
      then (do
        v ← i32 dev rst_idx
        if bit_and v bit == 0 then pure set else (do o32 dev sta_idx bit; pure (bit_or set flag)))
      else pure set

  -- The loop of `reset`, with `n` rounds left.
  unfoldable pub reset_loop : ℕ → ℕ → Eff D (Unit {0})
  reset_loop zero set = throw hang
  reset_loop (suc n) set = do
    s1 ← reset_flag 1 rx_rst_idx rx_sta_idx rx_rst set
    s2 ← reset_flag 2 tx_rst_idx tx_sta_idx tx_rst s1
    if s2 == 3 then pure tt else (do wait; reset_loop n s2)

  unfoldable pub zynq_reset : Eff D (Unit {0})
  zynq_reset = do
    o32 dev rx_rst_idx rst_magic
    o32 dev tx_rst_idx rst_magic
    (if use_irq
        then (do o32 dev rx_ien_idx (bit_or rx_rst rx_rdy); o32 dev tx_ien_idx tx_rst)
        else pure tt)
    reset_loop patience 0

  -- The loop that sends, with `n` words left. The octets behind `tx` count as a fault.
  unfoldable pub send_words : Bool → ℕ → ℕ → List ℕ → Eff D (Unit {0})
  send_words le zero i tx = pure tt
  send_words le (suc n) i tx = do
    bs ← access (read_at tx i 4)
    o32 dev tx_dat_idx (word_of le bs)
    send_words le n (i + 4) tx

  -- What precedes the reply: `got`.
  unfoldable pub zynq_send : Bool → List ℕ → Eff D ℕ
  zynq_send le tx = do
    let tx_bytes = length tx
    let tx_words = u32 (tx_bytes + 3) / 4
    send_words le tx_words 0 tx
    o32 dev tx_end_idx (sub32 tx_bytes (u32 (4 * sub32 tx_words 1)))
    _ ← poll (i32 dev rx_sta_idx) (λ v. not (bit_and v rx_rdy == 0)) wait patience
    o32 dev rx_sta_idx rx_rdy
    i32 dev rx_cnt_idx

  unfoldable pub zynq_xfer : Bool → Xfer (Link D)
  zynq_xfer le tx hsize rxb = do
    guard (hsize % 4 == 0) runtime_error
    got ← on_dev (zynq_send le tx)
    r ← on_dev (receive_words (i32 dev rx_dat_idx) (word_bytes le) hsize got rxb)
    drop_some r
