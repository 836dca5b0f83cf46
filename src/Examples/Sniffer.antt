-- ===== src/Examples/Sniffer.antt =====
-- Runs of xvcSrv/src/jtagDump.cc.
use xvc_support.Base.{
  ℕ, ◌+◌, ◌-◌, ◌^◌, ◌≡◌, refl, ◌==◌, if◌then◌else◌, none, some, List, [], ◌∷◌, length, arith,
}
use xvc_support.Dump.Register.{JtagReg, cleared, add_bit}
use xvc_support.Dump.Register.Bits.{value_of, add_bit_high}
use xvc_support.Dump.Tap.{test_logic_reset, run_test_idle, shift_ir, Ctx, is_set, advance, dr_line}
use xvc_support.Dump.Table.{next, Sample, run, advance-next}
use xvc_support.Dump.Room.{IsRoomy, advance-IsRoomy, run_high-reset}
use xvc_support.Dump.Buffer.{process_buf}
use xvc_support.Dump.Buffer.Walk.{walk_bits, process_buf-walk_bits}
use xvc_support.Dump.Scan.{outs, ins, scanned, dr_scan, run-dr_scan}

-- A context in the middle of an instruction.
abbrev busy : Ctx
busy = record {
  iri = record { bitpos = 2; v = 3 ∷ [] };
  dri = cleared;
  iro = record { bitpos = 2; v = 1 ∷ [] };
  dro = cleared;
  state = shift_ir;
  printed = [];
}

busy_advanced : Ctx
unfolding advance
busy_advanced = elim (advance busy 1 1 0) [ some c ↦ c | none ↦ busy ]

busy_advances : advance busy 1 1 0 ≡ some busy_advanced
unfolding advance busy_advanced add_bit
busy_advances = refl

advance-next_example : busy_advanced.state ≡ next shift_ir (is_set 1)
advance-next_example = advance-next busy 1 1 0 busy_advances

busy-IsRoomy : IsRoomy 6 busy
busy-IsRoomy = record {
  iri_room = (omega arith, λ e. cc);
  dri_room = (omega arith, λ e. cc);
  iro_room = (omega arith, λ e. cc);
  dro_room = (omega arith, λ e. cc);
}

advance-IsRoomy_example : (c : Ctx) × (advance busy 0 1 0 ≡ some c) × IsRoomy 5 c
advance-IsRoomy_example = advance-IsRoomy 5 busy 0 1 0 (omega arith) busy-IsRoomy

abbrev high : Sample
high = record { tms = 1; tdo = 1; tdi = 0 }

abbrev highs : List Sample
highs = high ∷ high ∷ high ∷ high ∷ high ∷ high ∷ []

run_high-reset_example : (c : Ctx) × (run busy highs ≡ some c) × (c.state ≡ test_logic_reset)
run_high-reset_example =
    run_high-reset highs busy (refl, (refl, (refl, (refl, (refl, (refl, tt)))))) (omega arith)
      (omega arith) busy-IsRoomy

abbrev idle : Ctx
idle = record busy { state = run_test_idle }

abbrev three : List (ℕ × ℕ)
three = (1, 0) ∷ (0, 1) ∷ (1, 1) ∷ []

run-dr_scan_example :
    (ro : JtagReg) × (ri : JtagReg) × (run idle (dr_scan three (1, 0))
      ≡ some (record idle {
        dro = ro;
        dri = ri;
        state = run_test_idle;
        printed = dr_line idle.iro ro ri (length three + 1) ∷ idle.printed;
      }))
    × (ro.v ≡ value_of (scanned (outs three) 1) ∷ [])
    × (ri.v ≡ value_of (scanned (ins three) 0) ∷ [])
run-dr_scan_example = run-dr_scan idle three (1, 0) refl (omega arith)

process_buf-walk_bits_example :
    process_buf 11 (0x5f ∷ 1 ∷ []) (7 ∷ 9 ∷ []) (1 ∷ 2 ∷ []) (some shift_ir) busy
    ≡ walk_bits (some shift_ir) (0x5f ∷ 1 ∷ []) (7 ∷ 9 ∷ []) (1 ∷ 2 ∷ []) 11 0 busy
process_buf-walk_bits_example =
    process_buf-walk_bits (some shift_ir) (0x5f ∷ 1 ∷ []) (7 ∷ 9 ∷ []) (1 ∷ 2 ∷ []) 11 busy
      (omega arith) refl refl

abbrev six : List ℕ
six = 1 ∷ 0 ∷ 0 ∷ 1 ∷ 1 ∷ 0 ∷ []

add_bit_high_example :
    add_bit (record { bitpos = 31; v = 5 ∷ [] }) 1
    ≡ (if 31 == 31 then some (record { bitpos = 32; v = (5 + (2 ^ 64 - 2 ^ 31)) ∷ [] }) else none)
add_bit_high_example = add_bit_high 31 5 1 (omega arith) (omega arith) (omega arith) (λ e. cc)
