-- ===== src/Examples/Sessions.antt =====
-- Runs of a whole connection (xvcSrv/src/xvcConn.cc) over the debug bridge.
use xvc_support.Base.{
  ℕ, ◌+◌, ◌≡◌, refl, true, false, List, [], ◌∷◌, ◌++◌, replicate, arith, ok, err, sys_err,
  proto_err, pure, All, length-replicate,
}
use xvc_support.Driver.{Drv, new_driver, get_sniff}
use xvc_support.Driver.Ready.{IsReady, new_driver-IsReady}
use xvc_support.Driver.Start.{init_checked}
use xvc_support.Conn.{Driver, Conn, run}
use xvc_support.Conn.Session.{Request, info, tck, shift_of, IsRequest, IsClient, Serves}
use xvc_support.Conn.Session.Run.{run-session}
use xvc_support.Serial.{serial}
use xvc_support.Bridge.{bridge_start, bridge_word, bridge_xfer, bridge_options}
use xvc_support.Bridge.Steps.{Regs, bridge-Clocks}
use xvc_support.Bridge.Session.{run-bridge}
use xvc_support.Raw.{raw_xfer}
use xvc_support.Raw.Driven.{jtag_driver, Idle, raw-Serves}
use xvc_support.Server.{server_run}
use xvc_support.Server.Clients.{
  Serving, Clients, no_client, a_client, next_conn, run_conn, server_run-Clients,
}
use xvc_support.Examples.Targets.{
  delay, itself, bridge, bridge-IsBridge, port, port-IsPort, shifter, shifter-IsShifter,
}
use xvc_support.Server.Clients.Refused.{server_run-refused}
use xvc_support.Tmem.{xfer_sdes}
use xvc_support.Tmem.Pins.{Port}
use xvc_support.Tmem.Sdes.{Shifter}
use xvc_support.Tmem.Session.{Session, run-interfaces}

abbrev pub no_code : ℕ → ℕ
no_code n = 0

abbrev idle_regs : Regs ℕ
idle_regs = record { len = 0; tms = 0; tdi = 0; tdo = 0; busy = 0; target = 1 }

abbrev pub over_bridge : Drv (Regs ℕ)
over_bridge = new_driver 0 7 (replicate 2048 0) idle_regs

over_bridge-IsReady : IsReady over_bridge
over_bridge-IsReady =
    new_driver-IsReady 0 7 (replicate 2048 0) _ (length-replicate {0} 2048 (let z : ℕ = 0 in z))

-- "xvcServer_v1.0:", a digit and the end of the line.
abbrev pub greeting : ℕ → List ℕ
greeting n =
    120
    ∷ 118
    ∷ 99
    ∷ 83
    ∷ 101
    ∷ 114
    ∷ 118
    ∷ 101
    ∷ 114
    ∷ 95
    ∷ 118
    ∷ 49
    ∷ 46
    ∷ 48
    ∷ 58
    ∷ (48 + n)
    ∷ 10
    ∷ []

-- A period of 100 ns, then 20 bits.
abbrev requests : List Request
requests = info ∷ tck 100 ∷ shift_of 20 (0 ∷ 1 ∷ 2 ∷ []) (13 ∷ 0 ∷ 13 ∷ []) ∷ []

-- The segments end in the middle of "getinfo:", of the number of bits and of TDI.
abbrev segments : List (List ℕ)
segments =
    (103 ∷ 101 ∷ 116 ∷ [])
    ∷ (105 ∷ 110 ∷ 102 ∷ 111 ∷ 58 ∷ 115 ∷ 101 ∷ 116 ∷ 116 ∷ 99 ∷ 107 ∷ 58 ∷ 100 ∷ 0 ∷ 0 ∷ 0 ∷ 115
        ∷ 104 ∷ 105 ∷ 102 ∷ 116 ∷ 58 ∷ 20 ∷ [])
    ∷ (0 ∷ 0 ∷ 0 ∷ 0 ∷ 1 ∷ 2 ∷ 13 ∷ [])
    ∷ (0 ∷ 13 ∷ [])
    ∷ []

-- The first reply is written in three parts, the second at once, and the third in two parts.
abbrev some_out : List ℕ
some_out = 1 ∷ 5 ∷ 20 ∷ 4 ∷ 1 ∷ []

abbrev pub client : Conn (Drv (Regs ℕ))
client = record {
  drv = over_bridge;
  rxb = [];
  rp = 0;
  rl = 0;
  tl = 0;
  txb = [];
  max_vec_len = 4;
  sup_vec_len = 0;
  chunk = 0;
  net = segments;
  sent = [];
  puts = some_out;
}

-- The greeting, the period, and TDO: TDI a clock later, behind the 1 that the target holds.
abbrev replies : List ℕ
replies = greeting 4 ++ (100 ∷ 0 ∷ 0 ∷ 0 ∷ []) ++ (27 ∷ 0 ∷ 10 ∷ [])

requests-IsRequest : All (IsRequest 4) requests
requests-IsRequest =
    (tt, (omega arith, ((omega arith, omega arith, refl, refl, omega arith, omega arith), tt)))

abbrev pub AtTarget : Regs ℕ → ℕ → Type 0
AtTarget r j = r.target ≡ j

pub idle : Idle AtTarget over_bridge 1
unfolding new_driver get_sniff
idle = record { ready = over_bridge-IsReady; four = refl; quiet = refl; free = refl; rest = refl }

abbrev pub over_jtag : Driver (Drv (Regs ℕ))
over_jtag =
    jtag_driver (raw_xfer true no_code (bridge_start bridge 3) (bridge_word bridge 3)) no_code 2

over_jtag-Serves : Serves delay (λ p. p) 2 4 over_jtag (Idle AtTarget)
over_jtag-Serves =
    raw-Serves no_code no_code (bridge_start bridge 3) (bridge_word bridge 3) delay _ _
      (bridge-Clocks delay bridge 3 itself bridge-IsBridge) 2 4 (omega arith)

run-session_example :
    (t : Conn (Drv (Regs ℕ))) × (run
        (jtag_driver (bridge_xfer bridge 3 true no_code) no_code 2)
        greeting
        true
        4
        client
      ≡ (err sys_err, t))
    × (t.sent ≡ replies)
    × Idle AtTarget t.drv 1
unfolding bridge_xfer new_driver serial
run-session_example =
    run-session delay greeting (λ p. p) 2 over_jtag _ client 1 requests 4 over_jtag-Serves
      (omega arith) (omega arith) idle requests-IsRequest (omega arith) (omega arith) (omega arith)
      refl (omega arith)

first-IsClient : IsClient 4 4 requests segments some_out
first-IsClient = record {
  proper = requests-IsRequest;
  bytes = omega arith;
  is_open = omega arith;
  writable = omega arith;
  sends = refl;
  many = omega arith;
}

-- The same octets in one segment.
abbrev one_segment : List (List ℕ)
one_segment =
    (103 ∷ 101 ∷ 116 ∷ 105 ∷ 110 ∷ 102 ∷ 111 ∷ 58 ∷ 115 ∷ 101 ∷ 116 ∷ 116 ∷ 99 ∷ 107 ∷ 58 ∷ 100 ∷ 0
      ∷ 0 ∷ 0 ∷ 115 ∷ 104 ∷ 105 ∷ 102 ∷ 116 ∷ 58 ∷ 20 ∷ 0 ∷ 0 ∷ 0 ∷ 0 ∷ 1 ∷ 2 ∷ 13 ∷ 0 ∷ 13 ∷ [])
    ∷ []

one_segment-IsClient : IsClient 4 4 requests one_segment (3 ∷ [])
one_segment-IsClient = record {
  proper = requests-IsRequest;
  bytes = omega arith;
  is_open = omega arith;
  writable = omega arith;
  sends = refl;
  many = omega arith;
}

abbrev over_port : Drv (Port ℕ)
over_port = new_driver 0 7 (replicate 2048 0) (record { csr = 0x80000000; target = 1 })

abbrev over_shifter : Drv (Shifter ℕ)
over_shifter =
    new_driver 0 9 (replicate 2048 0) (record { tms = 0; tdi = 0; tdo = 0; busy = 0; target = 1 })

rested :
    {S : Type 0} (xid : ℕ) (io : S) {Rest : S → ℕ → Type 0} {j : ℕ}
    → Rest io j
    → Idle Rest (new_driver 0 xid (replicate 2048 0) io) j
unfolding new_driver get_sniff
rested xid io r = record {
  ready =
      new_driver-IsReady 0 xid (replicate 2048 0) io
        (length-replicate {0} 2048 (let z : ℕ = 0 in z));
  four = refl;
  quiet = refl;
  free = refl;
  rest = r;
}

run-interfaces_example :
    Session delay no_code no_code
      (xfer_sdes port true true (pure tt) 3 true no_code)
      over_port
      greeting
      2
      4
      4
      segments
      some_out
      (λ p. p.target)
      (replies, 1)
    × Session delay no_code no_code
        (xfer_sdes shifter false false (pure tt) 3 true no_code)
        over_shifter
        greeting
        2
        4
        4
        one_segment
        (3 ∷ [])
        (λ r. r.target)
        (replies, 1)
unfolding serial new_driver
run-interfaces_example =
    run-interfaces delay no_code no_code port itself shifter itself (pure tt) (pure tt) 3 3 true
      false greeting 4 4 2 requests segments one_segment some_out (3 ∷ []) over_port over_shifter 1
      port-IsPort shifter-IsShifter (omega arith) (omega arith) (omega arith) (rested 7 _ refl) refl
      (rested 9 _ refl) first-IsClient one_segment-IsClient

run-bridge_example :
    let xfer = bridge_xfer bridge 3 true no_code in
    (t : Drv (Regs ℕ)) × (d : Conn (Drv (Regs ℕ))) × (init_checked true xfer no_code
        (pure tt)
        4
        over_bridge
      ≡ (ok tt, t))
    × (run (jtag_driver xfer no_code 1024) greeting true 4 (record client { drv = t })
        ≡ (err sys_err, d))
    × (d.sent ≡ replies)
    × (d.drv.io.target ≡ 1)
unfolding new_driver get_sniff serial bridge_options
run-bridge_example =
    run-bridge delay bridge 3 itself bridge-IsBridge no_code no_code over_bridge client greeting []
      1024 requests 4 over_bridge-IsReady refl refl refl (omega arith) (omega arith) (omega arith)
      first-IsClient

-- A second client sends 4 bits.
abbrev short_request : List Request
short_request = shift_of 4 (0 ∷ []) (5 ∷ []) ∷ []

abbrev short_segments : List (List ℕ)
short_segments = (115 ∷ 104 ∷ 105 ∷ 102 ∷ 116 ∷ 58 ∷ 4 ∷ 0 ∷ 0 ∷ 0 ∷ 0 ∷ 5 ∷ []) ∷ []

abbrev serving : Serving (Drv (Regs ℕ))
serving = record {
  drv_ = over_bridge;
  max_msg_size = 4;
  conn = client;
  waiting = (segments, some_out) ∷ (short_segments, []) ∷ [];
  replies = [];
}

two-Clients :
    Clients 4 4 (requests ∷ short_request ∷ []) ((segments, some_out) ∷ (short_segments, []) ∷ [])
two-Clients = a_client first-IsClient (
    a_client
      (record {
        proper = ((omega arith, omega arith, refl, refl, omega arith, omega arith), tt);
        bytes = omega arith;
        is_open = omega arith;
        writable = omega arith;
        sends = refl;
        many = omega arith;
      })
      no_client)

-- The second client gets the bit that the first one left in the target.
server_run-Clients_example :
    let serve =
      server_run (next_conn over_jtag greeting) (run_conn over_jtag greeting true 4) false in
    (t : Serving (Drv (Regs ℕ))) × (serve (2 + 1) serving ≡ serve 1 t)
    × (t.replies ≡ replies ∷ (11 ∷ []) ∷ [])
    × (t.waiting ≡ [])
    × Idle AtTarget t.drv_ 0
unfolding serial
server_run-Clients_example =
    server_run-Clients delay greeting (λ p. p) 2 4 1 over_jtag (Idle AtTarget) serving 1
      (requests ∷ short_request ∷ []) over_jtag-Serves (omega arith) (omega arith) idle two-Clients

-- After the first client one comes that speaks HTTP: "GE", "T ".
abbrev http : List (List ℕ)
http = (71 ∷ 69 ∷ []) ∷ (84 ∷ 32 ∷ []) ∷ []

server_run-refused_example :
    let serve =
      server_run (next_conn over_jtag greeting) (run_conn over_jtag greeting true 4) false in
    (t : Serving (Drv (Regs ℕ))) × (serve
        (1 + 1)
        (record serving { waiting = (segments, some_out) ∷ (http, []) ∷ [] })
      ≡ (err proto_err, t))
    × (t.replies ≡ replies ∷ [] ∷ [])
    × (t.waiting ≡ [])
    × Idle AtTarget t.drv_ 1
unfolding serial
server_run-refused_example =
    server_run-refused delay greeting (λ p. p) 2 3 0 over_jtag (Idle AtTarget)
      (record serving { waiting = (segments, some_out) ∷ (http, []) ∷ [] }) 1 (requests ∷ [])
      ((segments, some_out) ∷ []) [] http [] over_jtag-Serves (omega arith) (omega arith) idle refl
      (a_client first-IsClient no_client) (omega arith) (omega arith) (omega arith)
      (omega arith, omega arith, omega arith, omega arith)
