-- ===== src/Dump/Table.antt =====
-- The TAP controller of IEEE 1149.1 as a table, and the state machine against it.
use xvc_support.Base.{
  ℕ, ◌≤◌, ◌≡◌, refl, Bool, true, false, Option, some, List, [], ◌∷◌, length, All, arith,
  Option-cases, some-ne-none, inl, inr,
}
use mathlib.Core.Option
use xvc_support.Dump.Tap.{
  State, test_logic_reset, run_test_idle, select_dr_scan, capture_dr, shift_dr, exit1_dr, pause_dr,
  exit2_dr, update_dr, select_ir_scan, capture_ir, shift_ir, exit1_ir, pause_ir, exit2_ir,
  update_ir, Ctx, is_set, advance,
}

-- The next state by the level of TMS.
abbrev pub next : State → Bool → State
next test_logic_reset true = test_logic_reset
next test_logic_reset false = run_test_idle
next run_test_idle true = select_dr_scan
next run_test_idle false = run_test_idle
next select_dr_scan true = select_ir_scan
next select_dr_scan false = capture_dr
next capture_dr true = exit1_dr
next capture_dr false = shift_dr
next shift_dr true = exit1_dr
next shift_dr false = shift_dr
next exit1_dr true = update_dr
next exit1_dr false = pause_dr
next pause_dr true = exit2_dr
next pause_dr false = pause_dr
next exit2_dr true = update_dr
next exit2_dr false = shift_dr
next update_dr true = select_dr_scan
next update_dr false = run_test_idle
next select_ir_scan true = test_logic_reset
next select_ir_scan false = capture_ir
next capture_ir true = exit1_ir
next capture_ir false = shift_ir
next shift_ir true = exit1_ir
next shift_ir false = shift_ir
next exit1_ir true = update_ir
next exit1_ir false = pause_ir
next pause_ir true = exit2_ir
next pause_ir false = pause_ir
next exit2_ir true = update_ir
next exit2_ir false = shift_ir
next update_ir true = select_dr_scan
next update_ir false = run_test_idle

-- One clock: the levels of TMS, TDO and TDI.
pub record Sample : Type 0 where
  pub tms : ℕ
  pub tdo : ℕ
  pub tdi : ℕ

unfoldable pub run : Ctx → List Sample → Option Ctx
unfolding Option.bind
run c [] = some c
run c (x ∷ xs) = Option.bind (advance c x.tms x.tdo x.tdi) (λ c'. run c' xs)

-- Every clock takes the state machine along the state table of IEEE 1149.1.
pub advance-next :
    (c : Ctx) (tms tdo tdi : ℕ) {c' : Ctx}
    → advance c tms tdo tdi ≡ some c'
    → c'.state ≡ next c.state (is_set tms)
unfolding advance
advance-next c tms tdo tdi h = ground arith

-- The state after clocks with these levels of TMS.
abbrev pub walk : State → List Sample → State
walk s [] = s
walk s (x ∷ xs) = walk (next s (is_set x.tms)) xs

pub run-walk :
    (xs : List Sample) (c : Ctx) {c' : Ctx} → run c xs ≡ some c' → c'.state ≡ walk c.state xs
unfolding run
run-walk [] c h = ground arith
run-walk (x ∷ xs) c h = elim (Option-cases (advance c x.tms x.tdo x.tdi)) [
  | inl e ↦ absurd (some-ne-none (rw e at h) refl)
  | inr (d, e) ↦ rw (advance-next c x.tms x.tdo x.tdi e) at (run-walk xs d (rw e at h))
]

reset_walk :
    (s : State) → next (next (next (next (next s true) true) true) true) true ≡ test_logic_reset
reset_walk test_logic_reset = refl
reset_walk _ = refl

abbrev pub IsHigh : Sample → Type 0
IsHigh x = is_set x.tms ≡ true

walk_reset_high : (xs : List Sample) → All IsHigh xs → walk test_logic_reset xs ≡ test_logic_reset
walk_reset_high [] h = refl
walk_reset_high (x ∷ xs) h = rw h.0 (walk_reset_high xs h.1)

pub walk_high :
    (s : State) (xs : List Sample) → All IsHigh xs → 5 ≤ length xs → walk s xs ≡ test_logic_reset
walk_high s [] h n = absurd (omega arith)
walk_high s (a ∷ []) h n = absurd (omega arith)
walk_high s (a ∷ b ∷ []) h n = absurd (omega arith)
walk_high s (a ∷ b ∷ c ∷ []) h n = absurd (omega arith)
walk_high s (a ∷ b ∷ c ∷ d ∷ []) h n = absurd (omega arith)
walk_high s (a ∷ b ∷ c ∷ d ∷ e ∷ xs) h n =
    rw (h.0, h.1.0, h.1.1.0, h.1.1.1.0, h.1.1.1.1.0, reset_walk s) (walk_reset_high xs h.1.1.1.1.1)
