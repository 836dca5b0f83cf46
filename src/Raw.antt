-- ===== src/Raw.antt =====
-- The message of `sendVectors` handled in the driver, for hardware that takes 32 bits of TMS and
-- TDI in registers: `xfer` of xvcSrv/src/xvcDrvAxiDbgBridgeIP.cc and `xferSdes` of
-- xvcDrvAxisTmem.cc, which are the same code up to the access of the hardware. That is a parameter:
-- `start` before the first word, `word` for one word. The time that the polling takes is measured
-- in order to choose a delay, and is left out.
pub mod Octets
pub mod Words
pub mod Serial
pub mod EndToEnd
pub mod Start
pub mod Driven
pub mod Empty
use xvc_support.Base.{
  ℕ, zero, suc, ◌+◌, ◌-◌, ◌*◌, ◌/◌, Bool, List, ◌==◌, not, ltb, if◌then◌else◌, length, replicate,
  Error, runtime_error, hang, Result, ok, err, Eff, pure, throw, guard, after, ◌>>=◌, ◌>>◌, access,
  lift,
}
use xvc_support.Header.{
  pver0, cmd_q, cmd_s, unknown_period, get_vrs, get_cmd, get_len, mk_query_reply,
}
use xvc_support.Header.Memory.{getw32, setw32, set_hdr}
use xvc_support.Driver.{RxBuf, Reply, Xfer}

-- `word tms tdi l` clocks the low `l` bits and returns TDO.
module _ {S : Type 0} (le : Bool) (log_code : ℕ → ℕ) (start : Eff S (Unit {0}))
    (word : ℕ → ℕ → ℕ → Eff S ℕ) where
  -- The loop, with `n` words left.
  unfoldable pub raw_words : ℕ → ℕ → List ℕ → ℕ → List ℕ → ℕ → Eff S (List ℕ)
  raw_words zero nbits tx pi rx po = if nbits == 0 then pure rx else throw hang
  raw_words (suc n) nbits tx pi rx po = if nbits == 0 then pure rx else (do
    tms ← access (getw32 le tx pi)
    tdi ← access (getw32 le tx (pi + 4))
    let l = if ltb nbits 32 then nbits else 32
    let lb = if ltb nbits 32 then (l + 7) / 8 else 4
    tdo ← word tms tdi l
    rx' ← access (setw32 le rx po tdo lb)
    raw_words n (nbits - l) tx (pi + 8) rx' (po + lb))

  -- A shift of `nbits` bits.
  unfoldable pub raw_shift : ℕ → ℕ → List ℕ → ℕ → RxBuf → Eff S Reply
  raw_shift hdr nbits tx wsz rxb = do
    let nbytes = (nbits + 7) / 8
    let nwords = (nbytes + wsz - 1) / wsz
    guard (not (ltb (length tx) (nwords * 2 * wsz))) runtime_error
    guard (not (ltb rxb.size nbytes)) runtime_error
    hd ← access (set_hdr le wsz (replicate wsz 0) 0 hdr)
    start
    rx ← raw_words nwords nbits tx wsz rxb.block 0
    pure (record { hd = hd; rx = rx; got = nbytes })

  -- The header buffer has the octets of a header word, `getWordSize()` (`hsize`) many.
  unfoldable pub raw_xfer : Xfer S
  raw_xfer tx hsize rxb = do
    hdr ← access (getw32 le tx 0)
    guard (get_vrs hdr == pver0) runtime_error
    guard (hsize == 4) runtime_error
    if get_cmd hdr == cmd_s
        then (do nbits ← lift (get_len hdr); raw_shift hdr nbits tx hsize rxb)
        else if get_cmd hdr == cmd_q
        then (do
          reply ← lift (mk_query_reply log_code pver0 4 0 unknown_period)
          hd ← access (set_hdr le hsize (replicate hsize 0) 0 reply)
          pure (record { hd = hd; rx = rxb.block; got = 4 }))
        else throw runtime_error
