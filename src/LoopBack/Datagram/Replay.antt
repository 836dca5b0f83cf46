-- ===== src/LoopBack/Datagram/Replay.antt =====
-- A request that comes again.
use xvc_support.Base.{
  ℕ, u32, bit_and, Bool, if◌then◌else◌, ◌+◌, ◌^◌, ◌<◌, ◌≡◌, true, false, Option, some, List, ◌++◌,
  ◌==◌, read_at, Result, access, after, pure, to_le,
}
use Prim.Native.String.{String}
use xvc_support.Header.{get_vrs, get_cmd, cmd_s, pver0}
use xvc_support.LoopBack.{Format}
use xvc_support.LoopBack.Datagram.{Server, udp_xfer}

module _ (scan : Format → String → Option ℕ) (h : ℕ) (body : List ℕ) (lt : h < 2 ^ 32)
    (vrs : get_vrs h ≡ pver0) (cmd : get_cmd h ≡ cmd_s) where
  -- `serve` of a datagram that is not dropped.
  abbrev taken : Server → Result (Option (List ℕ)) × Server
  taken s =
      after (λ n t. after (λ r. pure (some r)) (access (read_at t.tbuf 0 (n + 4)) t))
        (udp_xfer scan true (to_le 4 h ++ body) s)

  -- The server after it has counted a datagram, where it counts them.
  abbrev pub counted : Server → Server
  counted s = if s.drop_enabled then record s { drop_count = u32 (s.drop_count + 1) } else s

  -- The next datagram is dropped: one in 256 is.
  abbrev pub drops_next : Server → Bool
  drops_next s = if s.drop_enabled then bit_and (u32 (s.drop_count + 1)) 0xff == 0 else false
