-- ===== src/Tmem/Session.antt =====
-- The server over the raw interfaces of the TMEM driver (xvcSrv/src/xvcDrvAxisTmem.cc).
use xvc_support.Base.{
  ℕ, ◌+◌, ◌≤◌, ◌<◌, ◌≡◌, Bool, true, false, List, length, err, sys_err, Eff, pure,
}
use xvc_support.Base.Bits.Single.{bit_of}
use xvc_support.Driver.{Xfer, Drv}
use xvc_support.Conn.{Conn, run}
use xvc_support.Conn.Limits.{agreed}
use xvc_support.Conn.Session.{Request, IsClient, answers}
use xvc_support.Conn.Session.Run.{run-session}
use xvc_support.Mmio.{Device}
use xvc_support.Server.Clients.{new_conn}
use xvc_support.Raw.Driven.{jtag_driver, Idle, raw-Serves}
use xvc_support.Tmem.{xfer_sdes}
use xvc_support.Tmem.Pins.{Port, IsPort}
use xvc_support.Tmem.Sdes.{Shifter, IsShifter}
use xvc_support.Tmem.Equal.{port-Clocks, shifter-Clocks}

module _ {J : Type 0} (clock : ℕ → ℕ → J → Bool × J) (log_code pow_code : ℕ → ℕ) where
  -- A connection over `xfer` ends as it should, with the replies and the state of the target in
  -- `goal`.
  abbrev pub Session :
      {D : Type 0}
      → Xfer D
      → Drv D
      → (ℕ → List ℕ)
      → ℕ
      → ℕ
      → ℕ
      → List (List ℕ)
      → List ℕ
      → (D → J)
      → List ℕ × J
      → Type 0
  Session {D} xfer s greeting max_vec m n net puts target goal =
      (d : Conn (Drv D)) × (run (jtag_driver xfer pow_code max_vec) greeting true n
          (new_conn s m net puts)
        ≡ (err sys_err, d))
      × (d.sent ≡ goal.0)
      × (target d.drv.io ≡ goal.1)

  module _ (greeting : ℕ → List ℕ) (m n max_vec : ℕ) (rs : List Request) (j : J)
      (hi : agreed m 0 max_vec ≤ 1020) (some : 1 ≤ m) (greets : length (greeting m) < m + 128) where
    run-port :
        {D : Type 0} (dev : Device D) (view : D → Port J) (wait : Eff D (Unit {0})) (patience : ℕ)
        (log_bscn : Bool) (s : Drv D) (net : List (List ℕ)) (puts : List ℕ)
        → let xfer = xfer_sdes dev true log_bscn wait patience true log_code in
          IsPort clock dev view
          → Idle (λ x i. (view x).target ≡ i) s j
          → bit_of 31 (view s.io).csr ≡ 1
          → IsClient m n rs net puts
          → Session xfer s greeting max_vec m n net puts
              (λ x. (view x).target)
              (answers clock (greeting m) (λ p. p) rs j)
    unfolding xfer_sdes new_conn
    run-port dev view wait patience log_bscn s net puts hw i on client =
        let (d, f, out, idle) =
          run-session clock greeting (λ p. p) (agreed m 0 max_vec) _ (Idle _)
            (new_conn s m net puts) j rs n
            (raw-Serves log_code pow_code (pure tt) _ clock _ _
              (port-Clocks clock dev view hw log_bscn) max_vec m hi)
            some greets
            (record {
              ready = i.ready;
              four = i.four;
              quiet = i.quiet;
              free = i.free;
              rest = (on, i.rest);
            })
            client.proper client.bytes client.is_open client.writable client.sends client.many in
        (d, f, out, idle.rest.1)

    run-shifter :
        {D : Type 0} (dev : Device D) (view : D → Shifter J) (wait : Eff D (Unit {0}))
        (patience : ℕ) (log_bscn : Bool) (s : Drv D) (net : List (List ℕ)) (puts : List ℕ)
        → let xfer = xfer_sdes dev false log_bscn wait patience true log_code in
          IsShifter clock dev wait patience view
          → Idle (λ x i. (view x).target ≡ i) s j
          → IsClient m n rs net puts
          → Session xfer s greeting max_vec m n net puts
              (λ x. (view x).target)
              (answers clock (greeting m) (λ p. p) rs j)
    unfolding xfer_sdes new_conn
    run-shifter dev view wait patience log_bscn s net puts hw i client =
        let (d, f, out, idle) =
          run-session clock greeting (λ p. p) (agreed m 0 max_vec) _ (Idle _)
            (new_conn s m net puts) j rs n
            (raw-Serves log_code pow_code (pure tt) _ clock _ _
              (shifter-Clocks clock dev wait patience view hw) max_vec m hi)
            some greets i client.proper client.bytes client.is_open client.writable client.sends
            client.many in
        (d, f, out, idle.rest)

  -- The server over the two raw interfaces of the TMEM driver, once the drivers are initialised:
  -- over the bit-banged pins and over the serialiser, a client that sends the same requests gets
  -- the same replies, in segments of whatever size at either, those of the protocol with the TDO
  -- of the target clocked bit by bit, and both targets are left as after these clocks. The devices
  -- behave as the port, which is enabled, and as the serialiser do, with targets in the same
  -- state; the drivers are ready, with words of 4 octets, without the sniffer and with an unknown
  -- period; the smaller of `getMaxVectorSize` and of the largest vector of the server is 1020 at
  -- most (where it is 0 the latter is), the latter not 0; the greeting with its final 0 fits the
  -- send block, setsockopt (TCP_NODELAY) succeeds and no write fails, each taking as much as it
  -- will; the host is of low octet first, and the rounds of the outer loop are more than the
  -- requests.
  pub run-interfaces :
      {D E : Type 0} (port : Device D) (view : D → Port J) (shifter : Device E)
      (view' : E → Shifter J) (wait : Eff D (Unit {0})) (wait' : Eff E (Unit {0}))
      (patience patience' : ℕ) (log_bscn log_bscn' : Bool) (greeting : ℕ → List ℕ) (m n max_vec : ℕ)
      (rs : List Request) (net net' : List (List ℕ)) (puts puts' : List ℕ) (s : Drv D) (s' : Drv E)
      (j : J)
      → let goal = answers clock (greeting m) (λ p. p) rs j in
        IsPort clock port view
        → IsShifter clock shifter wait' patience' view'
        → agreed m 0 max_vec ≤ 1020
        → 1 ≤ m
        → length (greeting m) < m + 128
        → Idle (λ x i. (view x).target ≡ i) s j
        → bit_of 31 (view s.io).csr ≡ 1
        → Idle (λ x i. (view' x).target ≡ i) s' j
        → IsClient m n rs net puts
        → IsClient m n rs net' puts'
        → Session
            (xfer_sdes port true log_bscn wait patience true log_code)
            s
            greeting
            max_vec
            m
            n
            net
            puts
            (λ x. (view x).target)
            goal
          × Session
              (xfer_sdes shifter false log_bscn' wait' patience' true log_code)
              s'
              greeting
              max_vec
              m
              n
              net'
              puts'
              (λ x. (view' x).target)
              goal
  run-interfaces port view shifter view' wait wait' patience patience' log_bscn log_bscn' greeting m
        n max_vec rs net net' puts puts' s s' j hw hw' hi some greets idle on idle' client client' =
      (
        run-port greeting m n max_vec rs j hi some greets port view wait patience log_bscn s net
            puts hw idle on client,
        run-shifter greeting m n max_vec rs j hi some greets shifter view' wait' patience' log_bscn'
            s' net' puts' hw' idle' client',
      )
