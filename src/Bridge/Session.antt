-- ===== src/Bridge/Session.antt =====
-- The server over the debug bridge: `init`, then a connection over all its requests.
use xvc_support.Base.{
  ℕ, ◌+◌, ◌≤◌, ◌<◌, ◌≡◌, refl, Bool, true, false, List, ◌++◌, length, ok, err, sys_err, pure,
}
use xvc_support.Driver.{Drv, get_sniff}
use xvc_support.Driver.Ready.{IsReady}
use xvc_support.Driver.Start.{init_checked}
use xvc_support.Conn.{Conn, run}
use xvc_support.Conn.Limits.{agreed}
use xvc_support.Conn.Session.{IsClient, Request, answers}
use xvc_support.Mmio.{Device}
use xvc_support.Raw.Driven.{jtag_driver, run-raw}
use xvc_support.Bridge.{BridgeOption, bridge_options, bridge_start, bridge_word, bridge_xfer}
use xvc_support.Bridge.Steps.{Regs, IsBridge, bridge-Clocks}

module _ {D J : Type 0} (clock : ℕ → ℕ → J → Bool × J) (dev : Device D) (patience : ℕ)
    (view : D → Regs J) (hw : IsBridge clock dev patience view) (log_code pow_code : ℕ → ℕ) where
  -- The whole server over the AXI debug bridge: `init` of a ready driver with words of 4 octets
  -- succeeds, and a connection served after that sends the replies of the protocol to all the
  -- client's requests, each shift's TDO being what the target behind the bridge puts out when it
  -- is clocked bit by bit, and leaves the target as after all these clocks. The device behaves as
  -- the bridge does and gets ready within the rounds of polling, the host is of low octet first,
  -- sniffing is off, `getMaxVectorSize` is what the constructor makes of the options, 1024 without
  -- any, and the smaller of it and of the largest vector of the server is 1020 at most (where it
  -- is 0 the latter is), the latter not 0; the greeting with its final 0 fits the send block,
  -- setsockopt (TCP_NODELAY) succeeds and no write fails, each taking as much as it will; and the
  -- client sends requests for vectors of `max_vec_len` octets at most, in segments of whatever
  -- size, and then closes the connection, within the rounds of the outer loop.
  pub run-bridge :
      (s : Drv D) (c : Conn (Drv D)) (greeting : ℕ → List ℕ) (opts : List BridgeOption)
      (max_vec : ℕ) (rs : List Request) (n : ℕ)
      → let xfer = bridge_xfer dev patience true log_code in
        let a = answers clock (greeting c.max_vec_len) (λ p. p) rs (view s.io).target in
        IsReady s
        → s.word_size_ ≡ 4
        → get_sniff s.debug ≡ false
        → bridge_options opts 1024 ≡ ok max_vec
        → agreed c.max_vec_len 0 max_vec ≤ 1020
        → 1 ≤ c.max_vec_len
        → length (greeting c.max_vec_len) < c.max_vec_len + 128
        → IsClient c.max_vec_len n rs c.net c.puts
        → (t : Drv D) × (d : Conn (Drv D)) × (init_checked true xfer pow_code (pure tt) 4 s
            ≡ (ok tt, t))
          × (run (jtag_driver xfer pow_code max_vec) greeting true n (record c { drv = t })
              ≡ (err sys_err, d))
          × (d.sent ≡ c.sent ++ a.0)
          × ((view d.drv.io).target ≡ a.1)
  unfolding bridge_xfer
  run-bridge s c greeting opts max_vec rs n ready four quiet made hi some greets client =
      run-raw log_code pow_code (bridge_start dev patience) (bridge_word dev patience) clock _ _
        (bridge-Clocks clock dev patience view hw) s c greeting max_vec rs n (pure tt) s.io
        (view s.io).target
        (record { is_ready = ready; word_of_four = four; no_sniffer = quiet; resets = refl }) refl
        hi some greets client
