-- ===== src/Bridge/EndToEnd.antt =====
-- The driver over the debug bridge, from `init` on.
use xvc_support.Base.{
  ℕ, ◌+◌, ◌-◌, ◌*◌, ◌/◌, ◌≤◌, ◌≡◌, refl, ap, ◌∙◌, Bool, true, false, List, ◌++◌, length, take, drop,
  arith, ok, pure, to_le, of_le, IsBytes,
}
use xvc_support.Driver.{Drv, send_vectors, get_sniff}
use xvc_support.Driver.Ready.{IsReady}
use xvc_support.Driver.Start.{init_checked}
use xvc_support.Driver.Pack.Layout.{rounded}
use xvc_support.Serial.{serial}
use xvc_support.Mmio.{Device}
use xvc_support.Raw.Start.{init_checked-raw}
use xvc_support.Raw.EndToEnd.{send_vectors-serial}
use xvc_support.Bridge.{bridge_start, bridge_word, bridge_xfer}
use xvc_support.Bridge.Steps.{Regs, IsBridge, bridge-Clocks}

module _ {D J : Type 0} (clock : ℕ → ℕ → J → Bool × J) (dev : Device D) (patience : ℕ)
    (view : D → Regs J) (hw : IsBridge clock dev patience view) (log_code pow_code : ℕ → ℕ) where
  -- Over a debug bridge a ready driver with words of 4 octets starts, and a vector of at least one
  -- bit whose message fits 2048 octets, sent after that, does to the target what its bits do one
  -- clock after the other, the lowest first: TDO is the beginning of the caller's block, whose
  -- rest stays, and the target is left as after these clocks. The device behaves as the bridge
  -- does and gets ready within the rounds of polling, the host is of low octet first, sniffing is
  -- off, and the vectors are octets.
  send_vectors-bridge :
      (s : Drv D) (bits : ℕ) (tms tdi tdo : List ℕ)
      → let n = (bits + 8 - 1) / 8 in
        let x = serial clock bits (of_le tms) (of_le tdi) (view s.io).target in
        let xfer = bridge_xfer dev patience true log_code in
        IsReady s
        → s.word_size_ ≡ 4
        → get_sniff s.debug ≡ false
        → 1 ≤ bits
        → 4 + 2 * rounded n 4 ≤ 2048
        → n ≤ length tms
        → n ≤ length tdi
        → n ≤ length tdo
        → IsBytes (take n tms)
        → IsBytes (take n tdi)
        → (t : Drv D) × (u : Drv D) × (init_checked true xfer pow_code (pure tt) 4 s ≡ (ok tt, t))
          × (send_vectors true xfer bits tms tdi tdo t ≡ (ok (to_le n x.0 ++ drop n tdo), u))
          × ((view u.io).target ≡ x.1)
  unfolding bridge_xfer
  send_vectors-bridge s bits tms tdi tdo ready four quiet lo room ha hb hc ba bb =
      let (t, e, ready', four', io, debug, _) =
        init_checked-raw log_code pow_code (bridge_start dev patience) (bridge_word dev patience) s
          (pure tt) s.io ready four refl in
      let same : (view t.io).target ≡ (view s.io).target = ap (λ (d : D). (view d).target) io in
      let quiet' : get_sniff t.debug ≡ false = ap get_sniff debug ∙ quiet in
      let (u, f, done) =
        send_vectors-serial log_code (bridge_start dev patience) (bridge_word dev patience) clock _
          _ (bridge-Clocks clock dev patience view hw) t (view s.io).target bits tms tdi tdo ready'
          four' quiet' same lo (omega arith) ha hb hc ba bb
          (omega (arith, ready'.least, ready'.reserved)) in
      (t, u, e, f, done)
