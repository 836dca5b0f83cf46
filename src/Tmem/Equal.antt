-- ===== src/Tmem/Equal.antt =====
-- The two ways of `xferSdes`, xvcSrv/src/xvcDrvAxisTmem.cc.
use xvc_support.Base.{
  ℕ, ◌+◌, ◌-◌, ◌/◌, ◌^◌, ◌≤◌, ◌<◌, ◌≡◌, refl, sym, ◌∙◌, Bool, true, false, List, [], length, take,
  arith, ok, Eff, pure, IsBytes,
}
use xvc_support.Header.{get_vrs, get_cmd, get_len, pver0, cmd_s}
use xvc_support.Driver.{RxBuf, Reply}
use xvc_support.Driver.Pack.Layout.{message, rounded}
use xvc_support.Base.Bits.Single.{bit_of}
use xvc_support.Serial.{serial}
use xvc_support.Mmio.{Device}
use xvc_support.Raw.Words.{Clocks}
use xvc_support.Raw.Serial.{raw_xfer-serial}
use xvc_support.Tmem.{xfer32bb, xfer32sdes, xfer_sdes}
use xvc_support.Tmem.Pins.{Port, IsPort, Enabled, xfer32bb-serial}
use xvc_support.Tmem.Sdes.{Shifter, IsShifter, xfer32sdes-serial}

module _ {J : Type 0} (clock : ℕ → ℕ → J → Bool × J) where
  module _ {D : Type 0} (dev : Device D) (view : D → Port J) (hw : IsPort clock dev view)
      (log_bscn : Bool) where
    pub port-Clocks :
        Clocks clock
          (pure tt)
          (λ a b l. xfer32bb dev log_bscn a b l)
          (Enabled clock dev view hw log_bscn)
          (Enabled clock dev view hw log_bscn)
    port-Clocks = record {
      starts = λ s j e. (s, refl, e);
      whole = λ a b s j e. xfer32bb-serial clock dev view hw log_bscn 32 a b s j (omega arith) e;
      last =
          λ l a b s j lo hi e. xfer32bb-serial clock dev view hw log_bscn l a b s j (omega arith) e;
      ends = λ s j e. e;
    }

  module _ {D : Type 0} (dev : Device D) (wait : Eff D (Unit {0})) (patience : ℕ)
      (view : D → Shifter J) (hw : IsShifter clock dev wait patience view) where
    abbrev pub Holds : D → J → Type 0
    Holds d j = (view d).target ≡ j

    word_of_target :
        (l a b : ℕ) (d : D) (j : J)
        → 1 ≤ l
        → l ≤ 32
        → Holds d j
        → let x = serial clock l a b j in
          (t : D) × (xfer32sdes dev wait patience a b l d ≡ (ok x.0, t)) × Holds t x.1
    word_of_target l a b d j lo hi e =
        rw (← e) (xfer32sdes-serial clock dev wait patience view hw l a b d lo hi)

    pub shifter-Clocks :
        Clocks clock (pure tt) (λ a b l. xfer32sdes dev wait patience a b l) Holds Holds
    shifter-Clocks = record {
      starts = λ s j e. (s, refl, e);
      whole = λ a b s j e. word_of_target 32 a b s j (omega arith) (omega arith) e;
      last = λ l a b s j lo hi e. word_of_target l a b s j lo (omega arith) e;
      ends = λ s j e. e;
    }

  -- A shift message of protocol version 0 has the same reply from bit-banging and from the
  -- serialiser, with targets in the same state before, and leaves them in the same state. The
  -- devices behave as the port, which is enabled, and as the serialiser do; the message is laid
  -- out as the driver does it, its vectors are octets, the block and `size` have room for TDO, and
  -- the host is of low octet first.
  pub xfer_sdes-equal :
      {D E : Type 0} (port : Device D) (view : D → Port J) (shifter : Device E)
      (wait : Eff E (Unit {0})) (wait' : Eff D (Unit {0})) (patience patience' : ℕ)
      (view' : E → Shifter J) (log_bscn log_bscn' : Bool) (log_code : ℕ → ℕ) (hdr bits size : ℕ)
      (tms tdi p q block : List ℕ) (d : D) (e : E)
      → let n = (bits + 7) / 8 in
        let msg = message 4 hdr n tms tdi p q [] in
        let rxb : RxBuf = record { block = block; size = size } in
        IsPort clock port view
        → IsShifter clock shifter wait patience view'
        → hdr < 2 ^ 32
        → get_vrs hdr ≡ pver0
        → get_cmd hdr ≡ cmd_s
        → get_len hdr ≡ ok bits
        → n ≤ length tms
        → n ≤ length tdi
        → IsBytes (take n tms)
        → IsBytes (take n tdi)
        → length p ≡ rounded n 4 - n
        → length q ≡ rounded n 4 - n
        → n ≤ size
        → n ≤ length block
        → bit_of 31 (view d).csr ≡ 1
        → (view d).target ≡ (view' e).target
        → (r : Reply) × (d' : D) × (e' : E) × (xfer_sdes port true log_bscn wait' patience' true
              log_code msg 4 rxb d
            ≡ (ok r, d'))
          × (xfer_sdes shifter false log_bscn' wait patience true log_code msg 4 rxb e ≡ (ok r, e'))
          × ((view d').target ≡ (view' e').target)
  unfolding xfer_sdes
  xfer_sdes-equal port view shifter wait wait' patience patience' view' log_bscn log_bscn' log_code
        hdr bits size tms tdi p q block d e hw hw' small vrs cmd len ha hb ba bb hp hq hs hr on
        same =
      let (d', f, (_, t)) =
        raw_xfer-serial log_code (pure tt) _ clock _ _ (port-Clocks port view hw log_bscn) hdr bits
          size tms tdi p q block d (view' e).target small vrs cmd len ha hb ba bb hp hq hs hr
          (on, same) in
      let (e', g, u) =
        raw_xfer-serial log_code (pure tt) _ clock _ _
          (shifter-Clocks shifter wait patience view' hw') hdr bits size tms tdi p q block e
          (view' e).target small vrs cmd len ha hb ba bb hp hq hs hr refl in
      (_, d', e', f, g, t ∙ sym u)
