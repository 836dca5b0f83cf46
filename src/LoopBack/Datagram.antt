-- ===== src/LoopBack/Datagram.antt =====
-- `UdpLoopBack`, xvcSrv/src/xvcDrvLoopBack.cc: the loopback as a server of datagrams, which repeats
-- its last reply when a request comes again. The socket is left out: `serve` is one round of
-- `run`, from the datagram received to the one sent.
pub mod Replay
use xvc_support.Base.{
  ℕ, zero, suc, ◌+◌, ◌-◌, ◌/◌, bit_and, Bool, true, false, Option, none, some, List, [], ◌∷◌, ◌++◌,
  ◌==◌, not, ltb, if◌then◌else◌, u32, length, take, drop, read_at, write_at, proto_err,
  runtime_error, Result, ok, err, Eff, pure, throw, guard, after, ◌>>=◌, ◌>>◌, get, put, access,
  lift,
}
use Prim.Native.String.{String}
use xvc_support.Header.{cmd_q, cmd_s, get_cmd, get_xid}
use xvc_support.Header.Memory.{getw32}
use xvc_support.Driver.{RxBuf, Reply}
use xvc_support.LoopBack.{Format, Loop, emul_word_size, loop_xfer}

-- `tsiz` is `none` for -1. `tbuf` is the memory of `tbuf_`.
pub record Server : Type 0 where
  pub loop : Loop
  pub tsiz : Option ℕ
  pub tbuf : List ℕ
  pub drop_count : ℕ
  pub drop_enabled : Bool

abbrev pub udp_mem_depth : ℕ
udp_mem_depth = 1450 / 2 / emul_word_size - 1

module _ (scan : Format → String → Option ℕ) (le : Bool) where
  -- `JtagDriverLoopBack::xfer` with the reply in `tbuf`, and the size kept if the shift is new.
  unfoldable pub answer : Bool → List ℕ → Eff Server ℕ
  answer is_new_shift tx = do
    s ← get
    let (r, l) =
        loop_xfer scan emul_word_size udp_mem_depth le tx 4
          (record { block = drop 4 s.tbuf; size = 1500 - 4 }) s.loop
    put (record s { loop = l })
    reply ← lift r
    tbuf ← access (write_at (take 4 s.tbuf ++ reply.rx) 0 reply.hd)
    put (record s { loop = l; tbuf = tbuf; tsiz = if is_new_shift then some reply.got else s.tsiz })
    pure reply.got

  unfoldable pub udp_xfer : List ℕ → Eff Server ℕ
  udp_xfer tx = do
    s ← get
    txh ← access (getw32 le tx 0)
    rxh ← access (getw32 le s.tbuf 0)
    if get_cmd txh == cmd_q
        then (do put (record s { tsiz = none }); answer false tx)
        else if get_cmd txh == cmd_s
        then (if get_xid txh == get_xid rxh
            then elim s.tsiz [ none ↦ throw runtime_error | some n ↦ pure n ]
            else answer true tx)
        else answer false tx

  -- `none` is a datagram that is dropped on purpose.
  unfoldable pub serve : List ℕ → Eff Server (Option (List ℕ))
  serve tx = do
    s ← get
    guard (not (ltb (length tx) 4)) proto_err
    let n = u32 (s.drop_count + 1)
    put (if s.drop_enabled then record s { drop_count = n } else s)
    if (if s.drop_enabled then bit_and n 0xff == 0 else false) then pure none else (do
      pld ← udp_xfer tx
      t ← get
      reply ← access (read_at t.tbuf 0 (pld + 4))
      pure (some reply))
