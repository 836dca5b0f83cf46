-- ===== src/Dump/Scan.antt =====
-- A whole scan of the data register, clock by clock, and what is printed of it.
use xvc_support.Base.{
  ℕ, ◌+◌, ◌≤◌, ◌≡◌, refl, ap, ◌∙◌, some, List, [], ◌∷◌, ◌++◌, map, length, arith, Option-cases, inl,
  inr, some-ne-none, some_inj, length-append, length-map,
}
use mathlib.Core.Option
use xvc_support.Dump.Register.{JtagReg, cleared, add_bit, get_num_bits}
use xvc_support.Dump.Register.Bits.{add_bits, value_of, add_bits-cleared}
use xvc_support.Dump.Tap.{Ctx, dr_line, run_test_idle, shift_dr, advance}
use xvc_support.Dump.Table.{Sample, run}

-- A clock that does not shift, and one that does with the levels of TDO and TDI.
abbrev pub clock : ℕ → Sample
clock tms = record { tms = tms; tdo = 0; tdi = 0 }

abbrev pub shift : ℕ × ℕ → Sample
shift d = record { tms = 0; tdo = d.0; tdi = d.1 }

-- From run-test/idle into shift-DR, one clock for each pair of levels, the last one with TMS high,
-- and through update-DR back.
abbrev pub leave : ℕ × ℕ → List Sample
leave d = record { tms = 1; tdo = d.0; tdi = d.1 } ∷ clock 1 ∷ clock 0 ∷ []

abbrev pub dr_scan : List (ℕ × ℕ) → ℕ × ℕ → List Sample
dr_scan ds last = clock 1 ∷ clock 0 ∷ clock 0 ∷ (map shift ds ++ leave last)

abbrev pub outs : List (ℕ × ℕ) → List ℕ
outs = map (λ d. d.0)

abbrev pub ins : List (ℕ × ℕ) → List ℕ
ins = map (λ d. d.1)

add_bits-snoc :
    (bs : List ℕ) (b : ℕ) (r : JtagReg)
    → add_bits r (bs ++ (b ∷ [])) ≡ Option.bind (add_bits r bs) (λ r'. add_bit r' b)
unfolding add_bits
add_bits-snoc [] b r = ground (arith)
add_bits-snoc (x ∷ bs) b r = elim (Option-cases (add_bit r x)) [
  | inl e ↦ rw e
  | inr (d, e) ↦ rw e (add_bits-snoc bs b d)
]

add_bits_split :
    (b : ℕ) (bs : List ℕ) (r : JtagReg) {q : JtagReg}
    → add_bits r (b ∷ bs) ≡ some q
    → (d : JtagReg) × (add_bit r b ≡ some d) × (add_bits d bs ≡ some q)
unfolding add_bits
add_bits_split b bs r h = elim (Option-cases (add_bit r b)) [
  | inl e ↦ absurd (some-ne-none (rw e at h) refl)
  | inr (d, e) ↦ (d, e, rw e at h)
]

run_shifts :
    (ds : List (ℕ × ℕ)) (c : Ctx) (ro ri : JtagReg) (rest : List Sample)
    → add_bits c.dro (outs ds) ≡ some ro
    → add_bits c.dri (ins ds) ≡ some ri
    → run (record c { state = shift_dr }) (map shift ds ++ rest)
      ≡ run (record c { dro = ro; dri = ri; state = shift_dr }) rest
unfolding run advance add_bits
run_shifts [] c ro ri rest ho hi =
    let eo : c.dro ≡ ro = some_inj ho in
    let ei : c.dri ≡ ri = some_inj hi in
    λ i. run (record c { dro = eo i; dri = ei i; state = shift_dr }) rest
run_shifts (d ∷ ds) c ro ri rest ho hi =
    let (qo, eo, fo) = add_bits_split d.0 (outs ds) c.dro ho in
    let (qi, ei, fi) = add_bits_split d.1 (ins ds) c.dri hi in
    rw (eo, ei) (run_shifts ds (record c { dro = qo; dri = qi }) ro ri rest fo fi)

-- The bits of the clocks that shift.
abbrev pub scanned : List ℕ → ℕ → List ℕ
scanned bs last = bs ++ (last ∷ [])

-- A cleared register that takes a list of bits in two parts.
last_bit :
    (bs : List ℕ) (b : ℕ)
    → length bs ≤ 30
    → (m : JtagReg) × (r : JtagReg) × (add_bits cleared bs ≡ some m)
      × (add_bit m b ≡ some r)
      × (r.v ≡ value_of (scanned bs b) ∷ [])
      × (get_num_bits r ≡ length bs + 1)
unfolding Option.bind
last_bit bs b h =
    let size : length (bs ++ (b ∷ [])) ≡ length bs + 1 = length-append bs (b ∷ []) in
    let (m, em, _, _) = add_bits-cleared bs (omega arith) in
    let (r, er, vr, nr) = add_bits-cleared (bs ++ (b ∷ [])) (omega arith) in
    (m, r, em, rw (add_bits-snoc bs b cleared, em) at er, vr, nr ∙ size)

-- A scan of 1 to 31 bits through the data register, from run-test/idle, ends there without
-- undefined behaviour, leaves the instruction registers alone, and prints one line: the
-- instruction register, the bits of TDO and of TDI in their order, and their number.
pub run-dr_scan :
    (c : Ctx) (ds : List (ℕ × ℕ)) (last : ℕ × ℕ)
    → c.state ≡ run_test_idle
    → length ds ≤ 30
    → (ro : JtagReg) × (ri : JtagReg) × (run c (dr_scan ds last)
        ≡ some (record c {
          dro = ro;
          dri = ri;
          state = run_test_idle;
          printed = dr_line c.iro ro ri (length ds + 1) ∷ c.printed;
        }))
      × (ro.v ≡ value_of (scanned (outs ds) last.0) ∷ [])
      × (ri.v ≡ value_of (scanned (ins ds) last.1) ∷ [])
unfolding run advance Option.bind
run-dr_scan c ds last idle h =
    let (mo, ro, emo, ero, vo, _) =
      last_bit (outs ds) last.0 (omega (arith, length-map ds (λ (d : ℕ × ℕ). d.0))) in
    let (mi, ri, emi, eri, vi, ni) =
      last_bit (ins ds) last.1 (omega (arith, length-map ds (λ (d : ℕ × ℕ). d.1))) in
    let n : get_num_bits ri ≡ length ds + 1 =
      omega (arith, ni, length-map ds (λ (d : ℕ × ℕ). d.1)) in
    let enter : run c (dr_scan ds last)
        ≡ run (record c { dro = cleared; dri = cleared; state = shift_dr })
            (map shift ds ++ leave last) =
      ap (λ s. run (record c { state = s }) (dr_scan ds last)) idle in
    let inside : run (record c { dro = cleared; dri = cleared; state = shift_dr })
          (map shift ds ++ leave last)
        ≡ run (record c { dro = mo; dri = mi; state = shift_dr }) (leave last) =
      run_shifts ds (record c { dro = cleared; dri = cleared }) mo mi (leave last) emo emi in
    (ro, ri, enter ∙ inside ∙ rw (ero, eri, n), vo, vi)
