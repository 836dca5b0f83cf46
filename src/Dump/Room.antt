-- ===== src/Dump/Room.antt =====
-- Where the registers have room for more bits no clock has undefined behaviour.
use xvc_support.Base.{
  ℕ, suc, ◌+◌, ◌≤◌, ◌≡◌, ◌≢◌, refl, ap, ◌∙◌, Bool, true, false, some, List, [], ◌∷◌, length, ◌==◌,
  All, arith, if◌then◌else◌, not, Bool-cases, inl, inr,
}
use mathlib.Core.Option
use Prim.Native.Nat.{bit_or, ◌^◌}
use xvc_support.Dump.Register.{JtagReg, cleared, add_bit, or_back}
use xvc_support.Dump.Table.{Sample, run, IsHigh, run-walk, walk_high}
use xvc_support.Dump.Tap.{
  Line, State, test_logic_reset, run_test_idle, select_dr_scan, capture_dr, shift_dr, exit1_dr,
  pause_dr, exit2_dr, update_dr, select_ir_scan, capture_ir, shift_ir, exit1_ir, pause_ir, exit2_ir,
  update_ir, Ctx, is_set, advance, advance_in, branch, change_state, clear_dr, clear_ir,
  shift_dr_bits, shift_ir_bits,
}

-- A register that takes `n` more bits without undefined behaviour.
abbrev pub HasRoom : ℕ → JtagReg → Type 0
HasRoom n r = (r.bitpos + n ≤ 31) × (r.v ≢ [])

pub record IsRoomy (n : ℕ) (c : Ctx) : Type 0 where
  pub iri_room : HasRoom n c.iri
  pub dri_room : HasRoom n c.dri
  pub iro_room : HasRoom n c.iro
  pub dro_room : HasRoom n c.dro

or_back-some : (v : List ℕ) (m : ℕ) → v ≢ [] → (w : List ℕ) × (or_back v m ≡ some w) × (w ≢ [])
unfolding or_back
or_back-some [] m h = absurd (h refl)
or_back-some (x ∷ []) m h = (bit_or x m ∷ [], refl, λ e. cc)
or_back-some (x ∷ y ∷ ys) m h =
    let (w, e, ne) = or_back-some (y ∷ ys) m (λ q. cc) in
    (x ∷ w, ap (Option.map (λ r. x ∷ r)) e, λ q. cc)

add_bit-HasRoom :
    (n : ℕ) (r : JtagReg) (b : ℕ)
    → HasRoom (suc n) r
    → (r' : JtagReg) × (add_bit r b ≡ some r') × HasRoom n r'
unfolding add_bit
add_bit-HasRoom n r b h = elim (Bool-cases (b == 0)) [
  | inl e ↦ (record r { bitpos = r.bitpos + 1 }, ground arith, (omega (arith, h.0), h.1))
  | inr e ↦
      let (w, back, ne) = or_back-some r.v (2 ^ r.bitpos) h.1 in
      (record { bitpos = r.bitpos + 1; v = w }, ground (arith, back), (omega (arith, h.0), ne))
]

HasRoom-suc : (n : ℕ) (r : JtagReg) → HasRoom (suc n) r → HasRoom n r
HasRoom-suc n r h = (omega (arith, h.0), h.1)

cleared_room : (n : ℕ) → n ≤ 31 → HasRoom n cleared
cleared_room n h = (omega arith, λ e. cc)

IsRoomy-suc : (n : ℕ) (c : Ctx) → IsRoomy (suc n) c → IsRoomy n c
IsRoomy-suc n c room = record {
  iri_room = HasRoom-suc n c.iri room.iri_room;
  dri_room = HasRoom-suc n c.dri room.dri_room;
  iro_room = HasRoom-suc n c.iro room.iro_room;
  dro_room = HasRoom-suc n c.dro room.dro_room;
}

-- The state and the printed lines do not matter to the room.
IsRoomy-state : (n : ℕ) (c : Ctx) (s : State) → IsRoomy n c → IsRoomy n (record c { state = s })
IsRoomy-state n c s room = record {
  iri_room = room.iri_room;
  dri_room = room.dri_room;
  iro_room = room.iro_room;
  dro_room = room.dro_room;
}

branch-IsRoomy :
    (n : ℕ) (c : Ctx) (tms : ℕ) (s t : State) → IsRoomy n c → IsRoomy n (branch c tms s t)
unfolding branch
branch-IsRoomy n c tms s t room = elim (Bool-cases (is_set tms)) [
  | inl e ↦ rw e (IsRoomy-state n c s room)
  | inr e ↦ rw e (IsRoomy-state n c t room)
]

stay_or_go-IsRoomy :
    (n : ℕ) (c : Ctx) (b : Bool) (s : State)
    → IsRoomy n c
    → IsRoomy n (if b then change_state c s else c)
unfolding change_state
stay_or_go-IsRoomy n c true s room = IsRoomy-state n c s room
stay_or_go-IsRoomy n c false s room = room

shift_dr-IsRoomy :
    (n : ℕ) (c : Ctx) (tdo tdi : ℕ)
    → IsRoomy (suc n) c
    → (c' : Ctx) × (shift_dr_bits c tdo tdi ≡ some c') × IsRoomy n c'
unfolding shift_dr_bits
shift_dr-IsRoomy n c tdo tdi room =
    let (o, eo, ro) = add_bit-HasRoom n c.dro tdo room.dro_room in
    let (i, ei, ri) = add_bit-HasRoom n c.dri tdi room.dri_room in
    (
      record c { dro = o; dri = i },
      rw (eo, ei),
      record {
        iri_room = HasRoom-suc n c.iri room.iri_room;
        dri_room = ri;
        iro_room = HasRoom-suc n c.iro room.iro_room;
        dro_room = ro;
      },
    )

shift_ir-IsRoomy :
    (n : ℕ) (c : Ctx) (tdo tdi : ℕ)
    → IsRoomy (suc n) c
    → (c' : Ctx) × (shift_ir_bits c tdo tdi ≡ some c') × IsRoomy n c'
unfolding shift_ir_bits
shift_ir-IsRoomy n c tdo tdi room =
    let (o, eo, ro) = add_bit-HasRoom n c.iro tdo room.iro_room in
    let (i, ei, ri) = add_bit-HasRoom n c.iri tdi room.iri_room in
    (
      record c { iro = o; iri = i },
      rw (eo, ei),
      record {
        iri_room = ri;
        dri_room = HasRoom-suc n c.dri room.dri_room;
        iro_room = ro;
        dro_room = HasRoom-suc n c.dro room.dro_room;
      },
    )

clear_dr-IsRoomy : (n : ℕ) (c : Ctx) → n ≤ 31 → IsRoomy n c → IsRoomy n (clear_dr c)
unfolding clear_dr
clear_dr-IsRoomy n c h room = record {
  iri_room = room.iri_room;
  dri_room = cleared_room n h;
  iro_room = room.iro_room;
  dro_room = cleared_room n h;
}

clear_ir-IsRoomy : (n : ℕ) (c : Ctx) → n ≤ 31 → IsRoomy n c → IsRoomy n (clear_ir c)
unfolding clear_ir
clear_ir-IsRoomy n c h room = record {
  iri_room = cleared_room n h;
  dri_room = room.dri_room;
  iro_room = cleared_room n h;
  dro_room = room.dro_room;
}

print-IsRoomy :
    (n : ℕ) (c : Ctx) (ls : List Line) → IsRoomy n c → IsRoomy n (record c { printed = ls })
print-IsRoomy n c ls room = record {
  iri_room = room.iri_room;
  dri_room = room.dri_room;
  iro_room = room.iro_room;
  dro_room = room.dro_room;
}

advance_in-IsRoomy :
    (n : ℕ) (s : State) (c : Ctx) (tms tdo tdi : ℕ)
    → n ≤ 31
    → IsRoomy (suc n) c
    → (c' : Ctx) × (advance_in s c tms tdo tdi ≡ some c') × IsRoomy n c'
unfolding advance_in
advance_in-IsRoomy n test_logic_reset c tms tdo tdi h room =
    (_, refl, stay_or_go-IsRoomy n c (not (is_set tms)) run_test_idle (IsRoomy-suc n c room))
advance_in-IsRoomy n run_test_idle c tms tdo tdi h room =
    (_, refl, stay_or_go-IsRoomy n c (is_set tms) select_dr_scan (IsRoomy-suc n c room))
advance_in-IsRoomy n pause_dr c tms tdo tdi h room =
    (_, refl, stay_or_go-IsRoomy n c (is_set tms) exit2_dr (IsRoomy-suc n c room))
advance_in-IsRoomy n pause_ir c tms tdo tdi h room =
    (_, refl, stay_or_go-IsRoomy n c (is_set tms) exit2_ir (IsRoomy-suc n c room))
advance_in-IsRoomy n select_dr_scan c tms tdo tdi h room =
    (_, refl, branch-IsRoomy n c tms select_ir_scan capture_dr (IsRoomy-suc n c room))
advance_in-IsRoomy n exit1_dr c tms tdo tdi h room =
    (_, refl, branch-IsRoomy n c tms update_dr pause_dr (IsRoomy-suc n c room))
advance_in-IsRoomy n exit2_dr c tms tdo tdi h room =
    (_, refl, branch-IsRoomy n c tms update_dr shift_dr (IsRoomy-suc n c room))
advance_in-IsRoomy n select_ir_scan c tms tdo tdi h room =
    (_, refl, branch-IsRoomy n c tms test_logic_reset capture_ir (IsRoomy-suc n c room))
advance_in-IsRoomy n exit1_ir c tms tdo tdi h room =
    (_, refl, branch-IsRoomy n c tms update_ir pause_ir (IsRoomy-suc n c room))
advance_in-IsRoomy n exit2_ir c tms tdo tdi h room =
    (_, refl, branch-IsRoomy n c tms update_ir shift_ir (IsRoomy-suc n c room))
advance_in-IsRoomy n capture_dr c tms tdo tdi h room = (
  _,
  refl,
  branch-IsRoomy n (clear_dr c) tms exit1_dr shift_dr
      (clear_dr-IsRoomy n c h (IsRoomy-suc n c room)),
)
advance_in-IsRoomy n update_dr c tms tdo tdi h room = (
  _,
  refl,
  branch-IsRoomy n _ tms select_dr_scan run_test_idle (print-IsRoomy n c _ (IsRoomy-suc n c room)),
)
advance_in-IsRoomy n shift_dr c tms tdo tdi h room =
    let (c', e, r) = shift_dr-IsRoomy n c tdo tdi room in
    (
      (if is_set tms then change_state c' exit1_dr else c'),
      ap (Option.map (λ d. if is_set tms then change_state d exit1_dr else d)) e,
      stay_or_go-IsRoomy n c' (is_set tms) exit1_dr r,
    )
advance_in-IsRoomy n capture_ir c tms tdo tdi h room = (
  _,
  refl,
  branch-IsRoomy n (clear_ir c) tms exit1_ir shift_ir
      (clear_ir-IsRoomy n c h (IsRoomy-suc n c room)),
)
advance_in-IsRoomy n update_ir c tms tdo tdi h room = (
  _,
  refl,
  branch-IsRoomy n _ tms select_dr_scan run_test_idle (print-IsRoomy n c _ (IsRoomy-suc n c room)),
)
advance_in-IsRoomy n shift_ir c tms tdo tdi h room =
    let (c', e, r) = shift_ir-IsRoomy n c tdo tdi room in
    (
      (if is_set tms then change_state c' exit1_ir else c'),
      ap (Option.map (λ d. if is_set tms then change_state d exit1_ir else d)) e,
      stay_or_go-IsRoomy n c' (is_set tms) exit1_ir r,
    )

-- While the registers have room a clock is defined, and costs one bit of room at most.
pub advance-IsRoomy :
    (n : ℕ) (c : Ctx) (tms tdo tdi : ℕ)
    → n ≤ 31
    → IsRoomy (suc n) c
    → (c' : Ctx) × (advance c tms tdo tdi ≡ some c') × IsRoomy n c'
unfolding advance
advance-IsRoomy n c tms tdo tdi h room = advance_in-IsRoomy n c.state c tms tdo tdi h room

pub run-IsRoomy :
    (xs : List Sample) (c : Ctx)
    → IsRoomy (length xs) c
    → length xs ≤ 31
    → (c' : Ctx) × (run c xs ≡ some c')
unfolding run
run-IsRoomy [] c room h = (c, refl)
run-IsRoomy (x ∷ xs) c room h =
    let (d, e, r) = advance-IsRoomy (length xs) c x.tms x.tdo x.tdi (omega arith) room in
    let (c', f) = run-IsRoomy xs d r (omega arith) in (c', rw e f)

-- Five or more clocks with TMS high lead from any state to test-logic-reset, without undefined
-- behaviour where the registers have room for that many bits (31 at most).
pub run_high-reset :
    (xs : List Sample) (c : Ctx)
    → All IsHigh xs
    → 5 ≤ length xs
    → length xs ≤ 31
    → IsRoomy (length xs) c
    → (c' : Ctx) × (run c xs ≡ some c') × (c'.state ≡ test_logic_reset)
run_high-reset xs c high lo hi room =
    let (c', e) = run-IsRoomy xs c room hi in
    (c', e, run-walk xs c e ∙ walk_high c.state xs high lo)
