-- ===== src/Examples/Targets.antt =====
-- Devices that behave as the drivers for hardware expect, for the runs of the other modules. Their
-- target puts out the last bit of TDI.
use xvc_support.Base.{
  ℕ, zero, suc, ◌+◌, ◌-◌, ◌*◌, ◌%◌, ◌^◌, ◌<◌, ◌≡◌, refl, Bool, true, false, List, [], ◌∷◌, ◌++◌,
  length, ◌==◌, if◌then◌else◌, arith, pure, eq→==, ne→==_false,
}
use native.Mathlib.Decide.{ℕ_discrete}
use native.Mathlib.Nat.{mul-div_cancel, one-le-pow}
use xvc_support.Base.Bits.Single.{bit_of, bit_of-lt}
use xvc_support.Mmio.{Device}
use xvc_support.Serial.{serial, to_bit}
use xvc_support.Bridge.Steps.{Regs, IsBridge}
use xvc_support.Tmem.Pins.{Port, IsPort}
use xvc_support.Tmem.Sdes.{Shifter, IsShifter}
use xvc_support.Zynq.Stream.{Stream, IsStream}

abbrev pub delay : ℕ → ℕ → ℕ → Bool × ℕ
delay tms tdi j = (j == 1, tdi)

-- Nothing but its name is special about the state of a device.
abbrev pub itself : {A : Type 0} → A → A
itself a = a

abbrev pub bridge_rd : ℕ → Regs ℕ → ℕ × Regs ℕ
bridge_rd idx r =
    if idx == 4 then (if r.busy == 0 then 0 else 1, record r { busy = r.busy - 1 }) else (r.tdo, r)

abbrev pub bridge_wr : ℕ → ℕ → Regs ℕ → Regs ℕ
bridge_wr idx v r =
    if idx == 0
    then record r { len = v }
    else if idx == 1
    then record r { tms = v }
    else if idx == 2
    then record r { tdi = v }
    else (let x = serial delay r.len r.tms r.tdi r.target in
        record r { tdo = x.0; busy = 1; target = x.1 })

abbrev pub bridge : Device (Regs ℕ)
bridge = record { rd = bridge_rd; wr = bridge_wr }

pub bridge-IsBridge : IsBridge delay bridge 3 itself
bridge-IsBridge = record {
  wr_len = λ v d. refl;
  wr_tms = λ v d. refl;
  wr_tdi = λ v d. refl;
  wr_run = λ v d odd. (1, omega arith, refl);
  rd_idle = λ d e. rw e refl;
  rd_busy = λ d n e. rw (ne→==_false d.busy 0 (omega arith)) refl;
  rd_csr = λ d. refl;
  rd_tdo = λ d e. refl;
  rd_tdo_view = λ d. refl;
}

abbrev pub port_rd : ℕ → Port ℕ → ℕ × Port ℕ
port_rd idx p = (bit_of 31 p.csr * 2 ^ 31 + to_bit (p.target == 1) * 2 ^ 19, p)

abbrev pub port_wr : ℕ → ℕ → Port ℕ → Port ℕ
port_wr idx v p =
    if bit_of 16 p.csr == 0
    then (if bit_of 16 v == 1
        then record { csr = v; target = bit_of 18 v }
        else record p { csr = v })
    else record p { csr = v }

abbrev pub port : Device (Port ℕ)
port = record { rd = port_rd; wr = port_wr }

low_write : (v : ℕ) (p : Port ℕ) → bit_of 16 v ≡ 0 → port_wr 6 v p ≡ record p { csr = v }
low_write v p e = elim (ℕ_discrete (bit_of 16 p.csr) 0) [
  | yes z ↦ rw (eq→== (bit_of 16 p.csr) 0 z, ne→==_false (bit_of 16 v) 1 (omega arith)) refl
  | no nz ↦ rw (ne→==_false (bit_of 16 p.csr) 0 nz) refl
]

not_both : (e : ℕ) → suc (suc e) < 2 → ⊥
not_both e h = omega arith

read_bits :
    (e : ℕ) (b : Bool)
    → e < 2
    → (bit_of 19 (e * 2 ^ 31 + to_bit b * 2 ^ 19) ≡ to_bit b)
      × (bit_of 31 (e * 2 ^ 31 + to_bit b * 2 ^ 19) ≡ e)
read_bits zero true h = (refl, refl)
read_bits zero false h = (refl, refl)
read_bits (suc zero) true h = (refl, refl)
read_bits (suc zero) false h = (refl, refl)
read_bits (suc (suc e)) b h = elim (not_both e h) [ ]

pub port-IsPort : IsPort delay port itself
port-IsPort = record {
  wr_low = λ v d on low. low_write v d low;
  wr_edge = λ v d on low high. rw (eq→== (bit_of 16 d.csr) 0 low, eq→== (bit_of 16 v) 1 high) refl;
  rd_tdo = λ d. (read_bits (bit_of 31 d.csr) (d.target == 1) (bit_of-lt 31 d.csr)).0;
  rd_enable = λ d. (read_bits (bit_of 31 d.csr) (d.target == 1) (bit_of-lt 31 d.csr)).1;
  rd_view = λ d. refl;
}

abbrev pub shifter_rd : ℕ → Shifter ℕ → ℕ × Shifter ℕ
shifter_rd idx r =
    if idx == 6
    then (if r.busy == 0 then 0 else 512, record r { busy = r.busy - 1 })
    else (r.tdo, r)

abbrev pub shifter_wr : ℕ → ℕ → Shifter ℕ → Shifter ℕ
shifter_wr idx v r =
    if idx == 4
    then record r { tms = v }
    else if idx == 5
    then record r { tdi = v }
    else (let x = serial delay (v % 256 + 1) r.tms r.tdi r.target in
        record r { tdo = x.0 * 2 ^ (32 - (v % 256 + 1)); busy = 1; target = x.1 })

abbrev pub shifter : Device (Shifter ℕ)
shifter = record { rd = shifter_rd; wr = shifter_wr }

pub shifter-IsShifter : IsShifter delay shifter (pure tt) 3 itself
shifter-IsShifter = record {
  wr_tms = λ v d. refl;
  wr_tdi = λ v d. refl;
  wr_run = λ v l d run len small.
      let x = serial delay l d.tms d.tdi d.target in
      (
        1,
        x.0 * 2 ^ (32 - l),
        omega arith,
        mul-div_cancel x.0 (one-le-pow (32 - l) 2 (omega arith)),
        rw len refl,
      );
  rd_idle = λ d e. rw e refl;
  rd_busy = λ d n e. rw (ne→==_false d.busy 0 (omega arith)) refl;
  rd_csr = λ d. refl;
  waits = λ d. (d, refl, refl);
  rd_tdo = λ d e. refl;
  rd_tdo_view = λ d. refl;
}

-- The target of this FIFO sends the message back.
abbrev pub mirror : List ℕ → ℕ → ℕ × List ℕ
mirror ws last = (4 * length ws, ws)

abbrev pub first_of : List ℕ → ℕ
first_of [] = 0
first_of (w ∷ ws) = w

abbrev pub rest_of : List ℕ → List ℕ
rest_of [] = []
rest_of (w ∷ ws) = ws

abbrev pub stream_rd : ℕ → Stream → ℕ × Stream
stream_rd idx r =
    if idx == 8
    then (if r.busy == 0 then 32 else 0, record r { busy = r.busy - 1 })
    else if idx == 13
    then (r.count, r)
    else (first_of r.reply, record r { reply = rest_of r.reply })

abbrev pub stream_wr : ℕ → ℕ → Stream → Stream
stream_wr idx v r =
    if idx == 4
    then record r { out = r.out ++ (v ∷ []) }
    else if idx == 5
    then (let a = mirror r.out v in record { out = []; busy = 1; count = a.0; reply = a.1 })
    else r

abbrev pub stream : Device Stream
stream = record { rd = stream_rd; wr = stream_wr }

pub stream-IsStream : IsStream stream (pure tt) 3 mirror itself
stream-IsStream = record {
  wr_dat = λ v d. refl;
  wr_end = λ v d. (1, omega arith, refl);
  rd_ready = λ d e. rw e refl;
  rd_busy = λ d n e. rw (ne→==_false d.busy 0 (omega arith)) refl;
  rd_sta = λ d. refl;
  waits = λ d. (d, refl, refl);
  wr_sta = λ v d. refl;
  rd_cnt = λ d. refl;
  rd_cnt_view = λ d. refl;
  rd_dat = λ w ws d e. rw e (refl, refl);
}
