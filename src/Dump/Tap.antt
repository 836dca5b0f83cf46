-- ===== src/Dump/Tap.antt =====
-- `JtagState` with its 16 subclasses, and `JtagDumpCtx`. What the two update states print is kept
-- as a list, the latest first. `none` is undefined behaviour, which `add_bit` alone has.
use xvc_support.Base.{ℕ, Bool, Option, some, List, [], ◌∷◌, ◌==◌, not, if◌then◌else◌}
use mathlib.Core.Option
use xvc_support.Dump.Register.{JtagReg, cleared, clear, get_num_bits, add_bit}

pub data State : Type 0 where
  test_logic_reset run_test_idle : State
  select_dr_scan capture_dr shift_dr exit1_dr pause_dr exit2_dr update_dr : State
  select_ir_scan capture_ir shift_ir exit1_ir pause_ir exit2_ir update_ir : State

-- A line printed: the instruction register, what was sent and received, and the number of bits.
pub data Line : Type 0 where
  dr_line : JtagReg → JtagReg → JtagReg → ℕ → Line
  ir_line : JtagReg → JtagReg → ℕ → Line

pub record Ctx : Type 0 where
  pub iri : JtagReg
  pub dri : JtagReg
  pub iro : JtagReg
  pub dro : JtagReg
  pub state : State
  pub printed : List Line

unfoldable pub new_ctx : Ctx
new_ctx = record {
  iri = cleared;
  dri = cleared;
  iro = cleared;
  dro = cleared;
  state = test_logic_reset;
  printed = [];
}

-- The truth of an `int`.
abbrev pub is_set : ℕ → Bool
is_set n = not (n == 0)

unfoldable pub clear_dr : Ctx → Ctx
unfolding clear
clear_dr c = record c { dri = clear c.dri; dro = clear c.dro }

unfoldable pub clear_ir : Ctx → Ctx
unfolding clear
clear_ir c = record c { iri = clear c.iri; iro = clear c.iro }

unfoldable pub shift_dr_bits : Ctx → ℕ → ℕ → Option Ctx
unfolding Option.bind
shift_dr_bits c tdo tdi =
    Option.bind (add_bit c.dro tdo)
      (λ o. Option.map (λ i. record c { dro = o; dri = i }) (add_bit c.dri tdi))

unfoldable pub shift_ir_bits : Ctx → ℕ → ℕ → Option Ctx
unfolding Option.bind
shift_ir_bits c tdo tdi =
    Option.bind (add_bit c.iro tdo)
      (λ o. Option.map (λ i. record c { iro = o; iri = i }) (add_bit c.iri tdi))

unfoldable pub change_state : Ctx → State → Ctx
change_state c s = record c { state = s }

-- `changeState` to the first state if `tms`, else to the second.
unfoldable pub branch : Ctx → ℕ → State → State → Ctx
unfolding change_state
branch c tms s t = if is_set tms then change_state c s else change_state c t

unfoldable pub in_test_logic_reset : Ctx → ℕ → Ctx
unfolding change_state
in_test_logic_reset c tms = if not (is_set tms) then change_state c run_test_idle else c

unfoldable pub in_run_test_idle : Ctx → ℕ → Ctx
unfolding change_state
in_run_test_idle c tms = if is_set tms then change_state c select_dr_scan else c

unfoldable pub in_select_dr_scan : Ctx → ℕ → Ctx
unfolding branch
in_select_dr_scan c tms = branch c tms select_ir_scan capture_dr

unfoldable pub in_capture_dr : Ctx → ℕ → Ctx
unfolding branch clear_dr
in_capture_dr c tms = branch (clear_dr c) tms exit1_dr shift_dr

unfoldable pub in_shift_dr : Ctx → ℕ → ℕ → ℕ → Option Ctx
unfolding change_state shift_dr_bits
in_shift_dr c tms tdo tdi =
    Option.map (λ c'. if is_set tms then change_state c' exit1_dr else c') (shift_dr_bits c tdo tdi)

unfoldable pub in_exit1_dr : Ctx → ℕ → Ctx
unfolding branch
in_exit1_dr c tms = branch c tms update_dr pause_dr

unfoldable pub in_pause_dr : Ctx → ℕ → Ctx
unfolding change_state
in_pause_dr c tms = if is_set tms then change_state c exit2_dr else c

unfoldable pub in_exit2_dr : Ctx → ℕ → Ctx
unfolding branch
in_exit2_dr c tms = branch c tms update_dr shift_dr

unfoldable pub in_update_dr : Ctx → ℕ → Ctx
unfolding branch get_num_bits
in_update_dr c tms =
    let line = dr_line c.iro c.dro c.dri (get_num_bits c.dri) in
    branch (record c { printed = line ∷ c.printed }) tms select_dr_scan run_test_idle

unfoldable pub in_select_ir_scan : Ctx → ℕ → Ctx
unfolding branch
in_select_ir_scan c tms = branch c tms test_logic_reset capture_ir

unfoldable pub in_capture_ir : Ctx → ℕ → Ctx
unfolding branch clear_ir
in_capture_ir c tms = branch (clear_ir c) tms exit1_ir shift_ir

unfoldable pub in_shift_ir : Ctx → ℕ → ℕ → ℕ → Option Ctx
unfolding change_state shift_ir_bits
in_shift_ir c tms tdo tdi =
    Option.map (λ c'. if is_set tms then change_state c' exit1_ir else c') (shift_ir_bits c tdo tdi)

unfoldable pub in_exit1_ir : Ctx → ℕ → Ctx
unfolding branch
in_exit1_ir c tms = branch c tms update_ir pause_ir

unfoldable pub in_pause_ir : Ctx → ℕ → Ctx
unfolding change_state
in_pause_ir c tms = if is_set tms then change_state c exit2_ir else c

unfoldable pub in_exit2_ir : Ctx → ℕ → Ctx
unfolding branch
in_exit2_ir c tms = branch c tms update_ir shift_ir

unfoldable pub in_update_ir : Ctx → ℕ → Ctx
unfolding branch get_num_bits
in_update_ir c tms =
    let line = ir_line c.iro c.iri (get_num_bits c.iri) in
    branch (record c { printed = line ∷ c.printed }) tms select_dr_scan run_test_idle

-- The virtual call of `state_->advance`.
unfoldable pub advance_in : State → Ctx → ℕ → ℕ → ℕ → Option Ctx
unfolding in_test_logic_reset in_run_test_idle in_select_dr_scan in_capture_dr in_shift_dr
    in_exit1_dr in_pause_dr in_exit2_dr in_update_dr in_select_ir_scan in_capture_ir in_shift_ir
    in_exit1_ir in_pause_ir in_exit2_ir in_update_ir
advance_in test_logic_reset c tms tdo tdi = some (in_test_logic_reset c tms)
advance_in run_test_idle c tms tdo tdi = some (in_run_test_idle c tms)
advance_in select_dr_scan c tms tdo tdi = some (in_select_dr_scan c tms)
advance_in capture_dr c tms tdo tdi = some (in_capture_dr c tms)
advance_in shift_dr c tms tdo tdi = in_shift_dr c tms tdo tdi
advance_in exit1_dr c tms tdo tdi = some (in_exit1_dr c tms)
advance_in pause_dr c tms tdo tdi = some (in_pause_dr c tms)
advance_in exit2_dr c tms tdo tdi = some (in_exit2_dr c tms)
advance_in update_dr c tms tdo tdi = some (in_update_dr c tms)
advance_in select_ir_scan c tms tdo tdi = some (in_select_ir_scan c tms)
advance_in capture_ir c tms tdo tdi = some (in_capture_ir c tms)
advance_in shift_ir c tms tdo tdi = in_shift_ir c tms tdo tdi
advance_in exit1_ir c tms tdo tdi = some (in_exit1_ir c tms)
advance_in pause_ir c tms tdo tdi = some (in_pause_ir c tms)
advance_in exit2_ir c tms tdo tdi = some (in_exit2_ir c tms)
advance_in update_ir c tms tdo tdi = some (in_update_ir c tms)

unfoldable pub advance : Ctx → ℕ → ℕ → ℕ → Option Ctx
unfolding advance_in
advance c tms tdo tdi = advance_in c.state c tms tdo tdi
