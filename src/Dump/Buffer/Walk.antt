-- ===== src/Dump/Buffer/Walk.antt =====
-- The walk of `process_buf` against a plain one: clock `k` takes bit `k % 8` of octet `k / 8`.
use xvc_support.Base.{
  ℕ, zero, suc, ◌+◌, ◌-◌, ◌*◌, ◌/◌, ◌%◌, ◌^◌, ◌≤◌, ◌<◌, ◌≡◌, refl, sym, ◌∙◌, bit_and, false, Option,
  some, List, [], ◌∷◌, ◌==◌, ltb, if◌then◌else◌, length, get_or, arith, Bool-cases, Option-cases,
  inl, inr, ◌⊎◌, ltb→lt, ltb_false→le, ne→==_false,
}
use native.Mathlib.Numerals.{towards_suc}
use native.Mathlib.Nat.{pow-suc, one-le-pow}
use xvc_support.Base.Bits.{and_high, and_low}
use mathlib.Core.Option
use mathlib.Core.Path.{fun_ext}
use xvc_support.Dump.Register.{JtagReg, add_bit}
use xvc_support.Dump.Tap.{State, test_logic_reset, shift_dr, shift_ir, Ctx, advance, advance_in}
use xvc_support.Dump.Buffer.{reached, Progress, returned, going, octet, process_buf}

abbrev pub bit_at : List ℕ → ℕ → ℕ
bit_at bs k = get_or bs (k / 8) 0 / 2 ^ (k % 8) % 2

module _ (until : Option State) (tms tdo tdi : List ℕ) where
  -- `n` clocks from clock `k` on.
  unfoldable pub walk_bits : ℕ → ℕ → Ctx → Option (Ctx × ℕ)
  unfolding Option.bind
  walk_bits zero k c = some (c, 0)
  walk_bits (suc n) k c =
      let rest =
        Option.bind (advance c (bit_at tms k) (bit_at tdo k) (bit_at tdi k))
          (λ c'. walk_bits n (k + 1) c') in
      if reached until c.state then some (c, suc n) else rest

-- Only the truth of the three levels matters.
add_bit_truth : (r : JtagReg) (a b : ℕ) → (a == 0) ≡ (b == 0) → add_bit r a ≡ add_bit r b
unfolding add_bit
add_bit_truth r a b e = rw e

advance_truth :
    (s : State) (c : Ctx) (a b d a' b' d' : ℕ)
    → (a == 0) ≡ (a' == 0)
    → (b == 0) ≡ (b' == 0)
    → (d == 0) ≡ (d' == 0)
    → advance_in s c a b d ≡ advance_in s c a' b' d'
unfolding advance_in
advance_truth shift_dr c a b d a' b' d' ea eb ed =
    rw (ea, add_bit_truth c.dro b b' eb, add_bit_truth c.dri d d' ed)
advance_truth shift_ir c a b d a' b' d' ea eb ed =
    rw (ea, add_bit_truth c.iro b b' eb, add_bit_truth c.iri d d' ed)
advance_truth test_logic_reset c a b d a' b' d' ea eb ed = rw ea
advance_truth _ c a b d a' b' d' ea eb ed = rw ea

masked_bit : (t j : ℕ) → (bit_and t (2 ^ j) == 0) ≡ (t / 2 ^ j % 2 == 0)
masked_bit t j =
    let m : bit_and t (1 * 2 ^ j) ≡ bit_and (t / 2 ^ j) 1 * 2 ^ j = and_high j t 1 in
    let l : bit_and (t / 2 ^ j) 1 ≡ t / 2 ^ j % 2 = and_low 1 (t / 2 ^ j) in
    let p : 1 ≤ 2 ^ j = one-le-pow j 2 (omega arith) in
    let one : 1 * 2 ^ j ≡ 2 ^ j = omega arith in
    let e : bit_and t (2 ^ j) ≡ t / 2 ^ j % 2 * 2 ^ j = rw (l, one) at m in rw e (ground arith)

bit_at-tail : (t k : ℕ) (ts : List ℕ) → bit_at (t ∷ ts) (k + 8) ≡ bit_at ts k
bit_at-tail t k ts =
    let q : (k + 8) / 8 ≡ suc (k / 8) = omega arith in
    let r : (k + 8) % 8 ≡ k % 8 = omega arith in rw (q, r)

bit_at-head : (t j : ℕ) (ts : List ℕ) → j < 8 → bit_at (t ∷ ts) j ≡ t / 2 ^ j % 2
bit_at-head t j ts h =
    let q : j / 8 ≡ 0 = omega arith in let r : j % 8 ≡ j = omega arith in rw (q, r)

-- Past the first octet the walk is that through the tails.
walk_bits-tail :
    (until : Option State) (t o i : ℕ) (ts os is : List ℕ) (n k : ℕ) (c : Ctx)
    → walk_bits until (t ∷ ts) (o ∷ os) (i ∷ is) n (k + 8) c ≡ walk_bits until ts os is n k c
unfolding walk_bits
walk_bits-tail until t o i ts os is zero k c = refl
walk_bits-tail until t o i ts os is (suc n) k c =
    let next_k : k + 8 + 1 ≡ k + 1 + 8 = omega arith in
    let ih : (d : Ctx)
        → walk_bits until (t ∷ ts) (o ∷ os) (i ∷ is) n (k + 1 + 8) d
          ≡ walk_bits until ts os is n (k + 1) d =
      λ d. walk_bits-tail until t o i ts os is n (k + 1) d in
    rw (bit_at-tail t k ts, bit_at-tail o k os, bit_at-tail i k is, next_k, fun_ext ih)

clock_bits :
    (t o i : ℕ) (ts os is : List ℕ) (j : ℕ) (c : Ctx)
    → j < 8
    → advance c (bit_and t (2 ^ j)) (bit_and o (2 ^ j)) (bit_and i (2 ^ j))
      ≡ advance c (bit_at (t ∷ ts) j) (bit_at (o ∷ os) j) (bit_at (i ∷ is) j)
unfolding advance
clock_bits t o i ts os is j c h =
    rw (bit_at-head t j ts h, bit_at-head o j os h, bit_at-head i j is h)
      (advance_truth c.state c _ _ _ _ _ _ (masked_bit t j) (masked_bit o j) (masked_bit i j))

module _ (until : Option State) (t o i : ℕ) (ts os is : List ℕ) where
  -- What follows the inner loop.
  abbrev resume : Progress → Option (Ctx × ℕ)
  resume x = elim x [ returned c n ↦ some (c, n) | going c n ↦ process_buf n ts os is until c ]

  octet_walk :
      ((n : ℕ) (c : Ctx)
        → n ≤ 8 * length ts
        → process_buf n ts os is until c ≡ walk_bits until ts os is n 0 c)
      → (rounds j rest n : ℕ) (c : Ctx) → n ≡ rounds + rest
      → rest ≤ 8 * length ts
      → (rest ≡ 0) ⊎ (j + rounds ≡ 8)
      → j + rounds ≤ 8
      → Option.bind (octet rounds (2 ^ j) until c n t o i) resume
        ≡ walk_bits until (t ∷ ts) (o ∷ os) (i ∷ is) n j c
  unfolding octet walk_bits
  octet_walk tails zero j rest zero c hn hr end h8 = tails 0 c (omega arith)
  octet_walk tails zero j rest (suc n) c hn hr end h8 =
      let e : j ≡ 8 = omega arith in
      rw e (tails (suc n) c (omega arith) ∙ sym (walk_bits-tail until t o i ts os is (suc n) 0 c))
  octet_walk tails (suc rounds) j rest zero c hn hr end h8 = absurd (omega arith)
  octet_walk tails (suc rounds) j rest (suc n) c hn hr end h8 =
      let ih : (d : Ctx)
          → Option.bind (octet rounds (2 ^ j * 2) until d (suc n - 1) t o i) resume
            ≡ walk_bits until (t ∷ ts) (o ∷ os) (i ∷ is) n (j + 1) d =
        λ d.
          let twice : 2 ^ j * 2 ≡ 2 ^ (j + 1) = simp towards_suc (sym (pow-suc 2 j)) in
          let less : suc n - 1 ≡ n = omega arith in
          rw (twice, less)
            (octet_walk tails rounds (j + 1) rest n d (omega arith) hr (ground arith)
              (omega arith)) in
      elim (Bool-cases (reached until c.state)) [
        | inl e ↦ rw e
        | inr e ↦
            rw (e, clock_bits t o i ts os is j c (omega arith))
              (elim (Option-cases
                (advance c (bit_at (t ∷ ts) j) (bit_at (o ∷ os) j) (bit_at (i ∷ is) j))) [
                  | inl a ↦ rw a
                  | inr (d, a) ↦ rw a (ih d)
                ])
      ]

-- With three buffers of one length that hold the bits, `processBuf` runs the state machine on bit
-- `k % 8` of octet `k / 8` for each clock `k`, stops before the first clock at which the state is
-- `until`, and returns the number of clocks left.
pub process_buf-walk_bits :
    (until : Option State) (tms tdo tdi : List ℕ) (nbits : ℕ) (c : Ctx)
    → nbits ≤ 8 * length tms
    → length tdo ≡ length tms
    → length tdi ≡ length tms
    → process_buf nbits tms tdo tdi until c ≡ walk_bits until tms tdo tdi nbits 0 c
unfolding process_buf walk_bits
process_buf-walk_bits until [] [] [] zero c h ho hi = refl
process_buf-walk_bits until [] [] [] (suc n) c h ho hi = absurd (omega arith)
process_buf-walk_bits until [] (o ∷ os) is nbits c h ho hi = absurd (omega arith)
process_buf-walk_bits until [] [] (i ∷ is) nbits c h ho hi = absurd (omega arith)
process_buf-walk_bits until (t ∷ ts) [] is nbits c h ho hi = absurd (omega arith)
process_buf-walk_bits until (t ∷ ts) (o ∷ os) [] nbits c h ho hi = absurd (omega arith)
process_buf-walk_bits until (t ∷ ts) (o ∷ os) (i ∷ is) zero c h ho hi = refl
process_buf-walk_bits until (t ∷ ts) (o ∷ os) (i ∷ is) (suc m) c h ho hi =
    let tails : (n : ℕ) (d : Ctx)
        → n ≤ 8 * length ts
        → process_buf n ts os is until d ≡ walk_bits until ts os is n 0 d =
      λ n d hn. process_buf-walk_bits until ts os is n d hn (omega arith) (omega arith) in
    let more : (suc m == 0) ≡ false = ne→==_false (suc m) 0 (λ q. cc) in
    elim (Bool-cases (ltb (suc m) 8)) [
      | inl e ↦
          rw (e, more)
            (octet_walk until t o i ts os is tails (suc m) 0 0 (suc m) c (omega arith) (omega arith)
              (inl refl) (omega (arith, ltb→lt (suc m) 8 e)))
      | inr e ↦
          rw (e, more)
            (octet_walk until t o i ts os is tails 8 0 (suc m - 8) (suc m) c
              (omega (arith, ltb_false→le (suc m) 8 e)) (omega arith) (inr refl) (omega arith))
    ]
