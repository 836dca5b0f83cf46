-- ===== src/Tmem.antt =====
-- `JtagDriverTmemFifo`, xvcSrv/src/xvcDrvAxisTmem.cc and xvcDrvAxisTmem.h: the driver for a target
-- on the TMEM bus, which has a FIFO (Tmem/Fifo) and, from version 1 of the firmware on, a raw
-- interface of serialiser and bit-bang registers. The registers at `toscaBase_` are a device;
-- what getopt returns and the interrupt's descriptor are parameters, and `patience` bounds the
-- rounds of the loops that poll.
pub mod Pins
pub mod Sdes
pub mod Equal
pub mod Session
pub mod Fifo
use xvc_support.Base.{
  ℕ, zero, suc, ◌+◌, ◌-◌, ◌*◌, ◌/◌, ◌^◌, bit_and, bit_or, Bool, true, false, Option, none, some,
  List, [], ◌∷◌, ◌==◌, not, ◌||◌, ltb, if◌then◌else◌, u32, sub32, runtime_error, Result, ok, err,
  Eff, pure, throw, guard, after, ◌>>=◌, ◌>>◌,
}
use xvc_support.Driver.{Xfer}
use xvc_support.Mmio.{Device, i32, o32, poll}
use xvc_support.Raw.{raw_xfer}

abbrev pub sdes_tms_idx : ℕ
sdes_tms_idx = 4

abbrev pub sdes_tdi_idx : ℕ
sdes_tdi_idx = 5

abbrev pub sdes_csr_idx : ℕ
sdes_csr_idx = 6

abbrev pub sdes_tdo_idx : ℕ
sdes_tdo_idx = 7

abbrev pub sdes_csr_run : ℕ
sdes_csr_run = 0x00000100

abbrev pub sdes_csr_bsy : ℕ
sdes_csr_bsy = 0x00000200

abbrev pub sdes_csr_lrmsk : ℕ
sdes_csr_lrmsk = 0x00000fff

abbrev pub sdes_csr_bbmsk : ℕ
sdes_csr_bbmsk = 0x000f0000

abbrev pub sdes_csr_bb_tck : ℕ
sdes_csr_bb_tck = 0x00010000

abbrev pub sdes_csr_bb_tms : ℕ
sdes_csr_bb_tms = 0x00020000

abbrev pub sdes_csr_bb_tdi : ℕ
sdes_csr_bb_tdi = 0x00040000

abbrev pub sdes_csr_bb_tdo : ℕ
sdes_csr_bb_tdo = 0x00080000

abbrev pub sdes_csr_bb_ena : ℕ
sdes_csr_bb_ena = 0x80000000

-- `csr & ~ mask`.
abbrev pub clear_bits : ℕ → ℕ → ℕ
clear_bits csr mask = bit_and csr (sub32 0xffffffff mask)

-- The bit `mask` of `csr` as the bit `m` of `word`.
abbrev pub copy_bit : ℕ → ℕ → ℕ → ℕ → ℕ
copy_bit csr mask word m =
    if not (bit_and word m == 0) then bit_or csr mask else clear_bits csr mask

module _ {D : Type 0} (dev : Device D) where
  -- The read for the log.
  abbrev pub log_level : Bool → Eff D (Unit {0})
  log_level true = do _ ← i32 dev sdes_csr_idx; pure tt
  log_level false = pure tt

  -- The loop of `xfer32bb`, with `n` bits left.
  unfoldable pub bb_loop : Bool → ℕ → ℕ → ℕ → ℕ → ℕ → ℕ → Eff D ℕ
  bb_loop log_bscn zero m csr tms tdi tdo = pure tdo
  bb_loop log_bscn (suc n) m csr tms tdi tdo = do
    let low = copy_bit (copy_bit csr sdes_csr_bb_tms tms m) sdes_csr_bb_tdi tdi m
    o32 dev sdes_csr_idx low
    csrrb ← i32 dev sdes_csr_idx
    let tdo' = if not (bit_and csrrb sdes_csr_bb_tdo == 0) then bit_or tdo m else tdo
    let high = bit_or low sdes_csr_bb_tck
    o32 dev sdes_csr_idx high
    log_level log_bscn
    bb_loop log_bscn n (u32 (m * 2)) (clear_bits high sdes_csr_bb_tck) tms tdi tdo'

  unfoldable pub xfer32bb : Bool → ℕ → ℕ → ℕ → Eff D ℕ
  xfer32bb log_bscn tms tdi nbits = do
    csr ← i32 dev sdes_csr_idx
    bb_loop log_bscn nbits 1 (clear_bits csr sdes_csr_bbmsk) tms tdi 0

  -- Without the measurement of time.
  unfoldable pub xfer32sdes : Eff D (Unit {0}) → ℕ → ℕ → ℕ → ℕ → Eff D ℕ
  xfer32sdes wait patience tms tdi nbits = do
    v ← i32 dev sdes_csr_idx
    let csr = bit_or (clear_bits v sdes_csr_lrmsk) (nbits - 1)
    o32 dev sdes_tms_idx tms
    o32 dev sdes_tdi_idx tdi
    o32 dev sdes_csr_idx (bit_or csr sdes_csr_run)
    _ ← poll (i32 dev sdes_csr_idx) (λ x. bit_and x sdes_csr_bsy == 0) wait patience
    tdo ← i32 dev sdes_tdo_idx
    pure (tdo / 2 ^ (32 - nbits))

  unfoldable pub xfer_sdes : Bool → Bool → Eff D (Unit {0}) → ℕ → Bool → (ℕ → ℕ) → Xfer D
  xfer_sdes bit_bang log_bscn wait patience le log_code =
      raw_xfer le log_code (pure tt) (λ tms tdi l.
        if bit_bang then xfer32bb log_bscn tms tdi l else xfer32sdes wait patience tms tdi l)
