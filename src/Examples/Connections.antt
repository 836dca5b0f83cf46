-- ===== src/Examples/Connections.antt =====
-- Runs of xvcSrv/src/xvcConn.cc.
use xvc_support.Base.{
  ℕ, ◌+◌, ◌-◌, ◌≡◌, ◌≢◌, true, List, [], ◌∷◌, take, drop, ok, err, fault, runtime_error, arith, All,
  IsBytes,
}
use xvc_support.Bridge.{bridge_start, bridge_word}
use xvc_support.Bridge.Steps.{Regs, bridge-Clocks}
use xvc_support.Driver.{Drv, send_vectors}
use xvc_support.Raw.{raw_xfer}
use xvc_support.Raw.Driven.{Idle}
use xvc_support.Raw.Empty.{raw-IsKeeper, send_vectors-none}
use xvc_support.Examples.Sessions.{
  no_code, greeting, client, over_bridge, over_jtag, AtTarget, idle,
}
use xvc_support.Examples.Targets.{delay, itself, bridge, bridge-IsBridge}
use xvc_support.Conn.Window.Run.{run-ne-fault}
use xvc_support.Conn.{Conn, fill, run}
use xvc_support.Conn.Fill.{stored, stream, fill-stream}

-- Two octets in the window, and a stream in three segments.
abbrev waiting : Conn (Unit {0})
waiting = record {
  drv = tt;
  rxb = 1 ∷ 2 ∷ 0 ∷ 0 ∷ 0 ∷ 0 ∷ 0 ∷ 0 ∷ [];
  rp = 0;
  rl = 2;
  tl = 0;
  txb = 0 ∷ 0 ∷ 0 ∷ 0 ∷ [];
  max_vec_len = 4;
  sup_vec_len = 1;
  chunk = 4;
  net = (3 ∷ []) ∷ (4 ∷ 5 ∷ []) ∷ (6 ∷ 7 ∷ 8 ∷ []) ∷ [];
  sent = [];
  puts = [];
}

fill-stream_example :
    (net : List (List ℕ)) × (fill 6 waiting ≡ (
      ok tt,
      record waiting {
        rxb = stored waiting.rxb (0 + 2) (take (6 - 2) (stream waiting.net));
        rl = 6;
        net = net;
      },
    ))
    × (stream net ≡ drop (6 - 2) (stream waiting.net))
fill-stream_example =
    fill-stream 6 waiting (omega arith) (omega arith, (omega arith, (omega arith, tt)))
      (omega arith) (omega arith)

-- "getinfo:" in two segments, then "shift:" for 2^32 - 1 bits, whose number of octets wraps to 0.
abbrev calling : Conn (Drv (Regs ℕ))
calling = record client {
  net =
      (103 ∷ 101 ∷ 116 ∷ [])
      ∷ (105 ∷ 110 ∷ 102 ∷ 111 ∷ 58 ∷ [])
      ∷ (115 ∷ 104 ∷ 105 ∷ 102 ∷ 116 ∷ 58 ∷ 255 ∷ 255 ∷ 255 ∷ 255 ∷ [])
      ∷ [];
}

calling-IsBytes : All IsBytes calling.net
calling-IsBytes = omega arith

run-ne-fault_example : (run over_jtag greeting true 3 calling).0 ≢ err fault
run-ne-fault_example =
    run-ne-fault 2 (λ s. (j : ℕ) × Idle AtTarget s j) over_jtag greeting true 3 calling
      (raw-IsKeeper no_code (bridge_start bridge 3) (bridge_word bridge 3) delay _ _ no_code 2 4
        (bridge-Clocks delay bridge 3 itself bridge-IsBridge) (omega arith))
      (1, idle) (omega arith) calling-IsBytes

send_vectors-none_example :
    let x = raw_xfer true no_code (bridge_start bridge 3) (bridge_word bridge 3) in
    (t : Drv (Regs ℕ)) × (send_vectors true x 0 (1 ∷ []) (2 ∷ []) (3 ∷ []) over_bridge
      ≡ (err runtime_error, t))
    × (t.io ≡ over_bridge.io)
send_vectors-none_example =
    send_vectors-none no_code (bridge_start bridge 3) (bridge_word bridge 3) over_bridge (1 ∷ [])
      (2 ∷ []) (3 ∷ []) idle.ready idle.four
