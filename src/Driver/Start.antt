-- ===== src/Driver/Start.antt =====
-- `init` of a driver for hardware: the device is reset, the target is queried, and its word size is
-- compared with the one of the hardware (xvcSrv/src/xvcDrvAxisFifo.cc, xvcDrvAxiDbgBridgeIP.cc and
-- xvcDrvAxisTmem.cc).
use xvc_support.Base.{ℕ, ◌==◌, Bool, runtime_error, Eff, guard, ◌>>=◌, ◌>>◌, get}
use xvc_support.Driver.{Xfer, Drv, query}

-- A call of the transport's own code.
abbrev pub on_io : {T : Type 0} → Eff T (Unit {0}) → Eff (Drv T) (Unit {0})
on_io act s = let r = act s.io in (r.0, record s { io = r.1 })

abbrev pub check_word_size : {T : Type 0} → ℕ → Eff (Drv T) (Unit {0})
check_word_size wrd_siz = do s ← get; guard (s.word_size_ == wrd_siz) runtime_error

unfoldable pub init_checked :
    {T : Type 0} → Bool → Xfer T → (ℕ → ℕ) → Eff T (Unit {0}) → ℕ → Eff (Drv T) (Unit {0})
init_checked le xfer pow_code reset wrd_siz = do
  on_io reset
  _ ← query le xfer pow_code
  check_word_size wrd_siz
