-- ===== src/Bridge.antt =====
-- `JtagDriverZynqAxiDbgBridgeIP`, xvcSrv/src/xvcDrvAxiDbgBridgeIP.cc: the driver for the AXI debug
-- bridge, which takes 32 bits of TMS and TDI and a length in registers. The device is a parameter,
-- as is what getopt returns; `patience` bounds the rounds of the loop that polls.
pub mod Steps
pub mod EndToEnd
pub mod Session
use xvc_support.Base.{
  ℕ, zero, suc, bit_and, bit_or, Bool, Option, none, some, List, [], ◌∷◌, ◌==◌, ltb, if◌then◌else◌,
  runtime_error, Result, ok, err, Eff, pure, after, ◌>>=◌, ◌>>◌,
}
use xvc_support.Driver.{Xfer}
use xvc_support.Mmio.{Device, i32, o32, poll}
use xvc_support.Raw.{raw_xfer}

abbrev pub length_idx : ℕ
length_idx = 0

abbrev pub tmsvec_idx : ℕ
tmsvec_idx = 1

abbrev pub tdivec_idx : ℕ
tdivec_idx = 2

abbrev pub tdovec_idx : ℕ
tdovec_idx = 3

abbrev pub csr_idx : ℕ
csr_idx = 4

abbrev pub csr_run : ℕ
csr_run = 0x00000001

-- What getopt returns: -M with what sscanf makes of its argument, or another letter.
pub data BridgeOption : Type 0 where
  max_bytes : Option ℕ → BridgeOption
  unknown : BridgeOption

-- The constructor: the largest vector.
unfoldable pub bridge_options : List BridgeOption → ℕ → Result ℕ
bridge_options [] max_vec = ok max_vec
bridge_options (max_bytes (some n) ∷ opts) max_vec = bridge_options opts n
bridge_options (max_bytes none ∷ opts) max_vec = err runtime_error
bridge_options (unknown ∷ opts) max_vec = err runtime_error

module _ {D : Type 0} (dev : Device D) (patience : ℕ) where
  -- The part of the loop of `xfer` that accesses the device.
  unfoldable pub bridge_word : ℕ → ℕ → ℕ → Eff D ℕ
  bridge_word tms tdi l = do
    o32 dev tmsvec_idx tms
    o32 dev tdivec_idx tdi
    (if ltb l 32 then o32 dev length_idx l else pure tt)
    csr ← i32 dev csr_idx
    o32 dev csr_idx (bit_or csr csr_run)
    _ ← poll (i32 dev csr_idx) (λ v. bit_and v csr_run == 0) (pure tt) patience
    i32 dev tdovec_idx

  unfoldable pub bridge_start : Eff D (Unit {0})
  bridge_start = o32 dev length_idx 32

  unfoldable pub bridge_xfer : Bool → (ℕ → ℕ) → Xfer D
  bridge_xfer le log_code = raw_xfer le log_code bridge_start bridge_word
