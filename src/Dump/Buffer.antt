-- ===== src/Dump/Buffer.antt =====
-- `processBuf`: the walk through the bits of three octet buffers, the lowest bit of each octet
-- first. `none` is undefined behaviour: an access behind a buffer, or that of `add_bit`.
pub mod Walk
use xvc_support.Base.{
  ℕ, zero, suc, ◌+◌, ◌-◌, ◌*◌, bit_and, Bool, true, false, Option, none, some, List, [], ◌∷◌, ◌==◌,
  ltb, if◌then◌else◌,
}
use mathlib.Core.Option
use Prim.Native.String.{String}
use text.Mathlib.Text.{◌==◌ as str_eq}
use xvc_support.Dump.Tap.{
  State, test_logic_reset, run_test_idle, select_dr_scan, capture_dr, shift_dr, exit1_dr, pause_dr,
  exit2_dr, update_dr, select_ir_scan, capture_ir, shift_ir, exit1_ir, pause_ir, exit2_ir,
  update_ir, Ctx, advance,
}

-- `getName()`; two states are equal if their names are.
unfoldable pub get_name : State → String
get_name test_logic_reset = "TestLogicReset"
get_name run_test_idle = "RunTestIdle"
get_name select_dr_scan = "SelectDRScan"
get_name capture_dr = "CaptureDR"
get_name shift_dr = "ShiftDR"
get_name exit1_dr = "Exit1DR"
get_name pause_dr = "PauseDR"
get_name exit2_dr = "Exit2DR"
get_name update_dr = "UpdateDR"
get_name select_ir_scan = "SelectIRScan"
get_name capture_ir = "CaptureIR"
get_name shift_ir = "ShiftIR"
get_name exit1_ir = "Exit1IR"
get_name pause_ir = "PauseIR"
get_name exit2_ir = "Exit2IR"
get_name update_ir = "UpdateIR"

-- `until && *state_ == *until`
unfoldable pub reached : Option State → State → Bool
unfolding get_name
reached none s = false
reached (some u) s = str_eq (get_name s) (get_name u)

-- Whether the function has returned, the context, and the bits left.
pub data Progress : Type 0 where
  returned going : Ctx → ℕ → Progress

-- The inner loop, with `rounds` values of `m` left.
unfoldable pub octet : ℕ → ℕ → Option State → Ctx → ℕ → ℕ → ℕ → ℕ → Option Progress
unfolding Option.bind
octet zero m until c nbits tmsb tdob tdib = some (going c nbits)
octet (suc rounds) m until c nbits tmsb tdob tdib =
    let rest =
      Option.bind (advance c (bit_and tmsb m) (bit_and tdob m) (bit_and tdib m))
        (λ c'. octet rounds (m * 2) until c' (nbits - 1) tmsb tdob tdib) in
    if reached until c.state then some (returned c nbits) else rest

-- The context and the result: the bits that were not processed.
unfoldable pub process_buf : ℕ → List ℕ → List ℕ → List ℕ → Option State → Ctx → Option (Ctx × ℕ)
unfolding octet Option.bind
process_buf nbits (t ∷ ts) (o ∷ os) (i ∷ is) until c =
    let body =
      Option.bind (octet (if ltb nbits 8 then nbits else 8) 1 until c nbits t o i)
        (elim [ returned c' n ↦ some (c', n) | going c' n ↦ process_buf n ts os is until c' ]) in
    if nbits == 0 then some (c, 0) else body
process_buf nbits _ _ _ until c = if nbits == 0 then some (c, 0) else none
