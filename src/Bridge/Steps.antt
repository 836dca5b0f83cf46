-- ===== src/Bridge/Steps.antt =====
-- What the debug bridge does, and that the driver makes it clock its target.
use xvc_support.Base.{
  ℕ, suc, ◌-◌, ◌%◌, ◌≤◌, ◌<◌, ◌≡◌, refl, ap, ◌∙◌, Bool, bit_and, bit_or, arith, ◌==◌, ltb, ◌⊎◌, inl,
  inr, Bool-cases, ltb_false→le, if◌then◌else◌, ok, lt→ltb, eq→==, ne→==_false,
}
use xvc_support.Base.Bits.Single.{bit_of-or}
use xvc_support.Base.Bits.{and_low}
use xvc_support.Serial.{serial}
use xvc_support.Mmio.{Device, i32, o32}
use xvc_support.Mmio.Polling.{Settles, poll_settles}
use xvc_support.Raw.Words.{Clocks}
use xvc_support.Bridge.{
  length_idx, tmsvec_idx, tdivec_idx, tdovec_idx, csr_idx, csr_run, bridge_word, bridge_start,
}

-- The registers of the bridge, for how many reads of its control register it stays busy, and the
-- target behind it.
pub record Regs (J : Type 0) : Type 0 where
  pub len : ℕ
  pub tms : ℕ
  pub tdi : ℕ
  pub tdo : ℕ
  pub busy : ℕ
  pub target : J

-- A device that is such a bridge: its registers hold what is written, and setting the run bit
-- clocks the target with the low bits of the two vectors and leaves TDO.
pub record IsBridge {D J : Type 0} (clock : ℕ → ℕ → J → Bool × J) (dev : Device D) (patience : ℕ)
    (view : D → Regs J) : Type 0 where
  pub wr_len : (v : ℕ) (d : D) → view (dev.wr length_idx v d) ≡ record (view d) { len = v }
  pub wr_tms : (v : ℕ) (d : D) → view (dev.wr tmsvec_idx v d) ≡ record (view d) { tms = v }
  pub wr_tdi : (v : ℕ) (d : D) → view (dev.wr tdivec_idx v d) ≡ record (view d) { tdi = v }
  pub wr_run :
      (v : ℕ) (d : D)
      → v % 2 ≡ 1
      → let r = view d in
        let x = serial clock r.len r.tms r.tdi r.target in
        (n : ℕ) × (n < patience)
        × (view (dev.wr csr_idx v d) ≡ record r { tdo = x.0; busy = n; target = x.1 })
  pub rd_idle : (d : D) → (view d).busy ≡ 0 → (dev.rd csr_idx d).0 % 2 ≡ 0
  pub rd_busy : (d : D) (n : ℕ) → (view d).busy ≡ suc n → (dev.rd csr_idx d).0 % 2 ≡ 1
  pub rd_csr : (d : D) → view (dev.rd csr_idx d).1 ≡ record (view d) { busy = (view d).busy - 1 }
  pub rd_tdo : (d : D) → (view d).busy ≡ 0 → (dev.rd tdovec_idx d).0 ≡ (view d).tdo
  pub rd_tdo_view : (d : D) → view (dev.rd tdovec_idx d).1 ≡ view d

module _ {D J : Type 0} (clock : ℕ → ℕ → J → Bool × J) (dev : Device D) (patience : ℕ)
    (view : D → Regs J) (hw : IsBridge clock dev patience view) where
  -- The target, while whole words are handed over, and between two transfers.
  abbrev pub Running : D → J → Type 0
  Running d j = ((view d).len ≡ 32) × ((view d).target ≡ j)

  abbrev pub Rest : D → J → Type 0
  Rest d j = (view d).target ≡ j

  -- With `r` but for the time it stays busy.
  abbrev IsLike : Regs J → D → Type 0
  IsLike r d = record (view d) { busy = 0 } ≡ record r { busy = 0 }

  run_bit : (v : ℕ) → bit_and v csr_run ≡ v % 2
  run_bit v = and_low 1 v

  settles :
      (r : Regs J)
      → Settles
          (i32 dev csr_idx)
          (λ v. bit_and v csr_run == 0)
          (λ s. (ok tt, s))
          (λ d. (view d).busy)
          (IsLike r)
          (λ d. view d ≡ record r { busy = 0 })
  settles r = record {
    idle = λ d like e. (
      _,
      _,
      refl,
      eq→== _ 0 (run_bit (dev.rd csr_idx d).0 ∙ hw.rd_idle d e),
      hw.rd_csr d ∙ ap (λ (n : ℕ). record (view d) { busy = n - 1 }) e ∙ like,
    );
    working = λ d n like e. (
      _,
      _,
      _,
      refl,
      ne→==_false _ 0 (omega (arith, run_bit (dev.rd csr_idx d).0, hw.rd_busy d n e)),
      refl,
      ap (λ (x : Regs J). record x { busy = 0 }) (hw.rd_csr d) ∙ like,
      ap (λ (x : Regs J). x.busy) (hw.rd_csr d) ∙ omega arith,
    );
  }

  -- The length register has the length of the word before it starts.
  sized :
      (l : ℕ) (d : D)
      → l ≤ 32
      → (l < 32) ⊎ ((view d).len ≡ 32)
      → (t : D) × ((if ltb l 32 then o32 dev length_idx l else (λ s. (ok tt, s))) d ≡ (ok tt, t))
        × (view t ≡ record (view d) { len = l })
  sized l d h (inl few) = rw (lt→ltb l 32 few) (_, refl, hw.wr_len l d)
  sized l d h (inr whole) = elim (Bool-cases (ltb l 32)) [
    | inl few ↦ rw few (_, refl, hw.wr_len l d)
    | inr all ↦
        let e : 32 ≡ l = omega (arith, ltb_false→le l 32 all) in
        rw all (d, refl, ap (λ (n : ℕ). record (view d) { len = n }) (whole ∙ e))
  ]

  word_clocks :
      (l a b : ℕ) (d : D)
      → l ≤ 32
      → (l < 32) ⊎ ((view d).len ≡ 32)
      → let x = serial clock l a b (view d).target in
        (t : D) × (bridge_word dev patience a b l d ≡ (ok x.0, t))
        × ((view t).len ≡ l)
        × ((view t).target ≡ x.1)
  unfolding bridge_word
  word_clocks l a b d h size =
      let d1 : D = dev.wr tmsvec_idx a d in
      let d2 : D = dev.wr tdivec_idx b d1 in
      let v2 : view d2 ≡ record (view d) { tms = a; tdi = b } =
        hw.wr_tdi b d1 ∙ ap (λ (r : Regs J). record r { tdi = b }) (hw.wr_tms a d) in
      let len2 : (view d2).len ≡ (view d).len = ap (λ (r : Regs J). r.len) v2 in
      let (d3, e3, w3) =
        sized l d2 h (elim size [ inl few ↦ inl few | inr whole ↦ inr (len2 ∙ whole) ]) in
      let v3 : view d3 ≡ record (view d) { tms = a; tdi = b; len = l } =
        w3 ∙ ap (λ (r : Regs J). record r { len = l }) v2 in
      let d4 : D = (dev.rd csr_idx d3).1 in
      let csr : ℕ = bit_or (dev.rd csr_idx d3).0 csr_run in
      let v4 : view d4 ≡ record (view d) { tms = a; tdi = b; len = l; busy = (view d3).busy - 1 } =
        hw.rd_csr d3 ∙ ap (λ (r : Regs J). record r { busy = (view d3).busy - 1 }) v3 in
      let odd : csr % 2 ≡ 1 = omega (arith, bit_of-or 0 (dev.rd csr_idx d3).0 csr_run) in
      let (n, small, v5) = hw.wr_run csr d4 odd in
      let d5 : D = dev.wr csr_idx csr d4 in
      let x = serial clock l a b (view d).target in
      let clocked : Regs J = record {
        len = l;
        tms = a;
        tdi = b;
        tdo = x.0;
        busy = 0;
        target = x.1;
      } in
      let r5 : (view d5) ≡ record clocked { busy = n } =
        v5
        ∙ ap
            (λ (r : Regs J).
              let y = serial clock r.len r.tms r.tdi r.target in
              record r { tdo = y.0; busy = n; target = y.1 })
            v4 in
      let (_, d6, polled, v6) =
        poll_settles _ _ _ (λ s. (view s).busy) _ _ (settles clocked) n patience d5
          (ap (λ (r : Regs J). record r { busy = 0 }) r5) (ap (λ (r : Regs J). r.busy) r5) small in
      let tdo : (dev.rd tdovec_idx d6).0 ≡ x.0 =
        hw.rd_tdo d6 (ap (λ (r : Regs J). r.busy) v6) ∙ ap (λ (r : Regs J). r.tdo) v6 in
      let v7 : view (dev.rd tdovec_idx d6).1 ≡ clocked = hw.rd_tdo_view d6 ∙ v6 in
      (
        (dev.rd tdovec_idx d6).1,
        rw e3 (rw polled (ap (λ (y : ℕ). (ok y, (dev.rd tdovec_idx d6).1)) tdo)),
        ap (λ (r : Regs J). r.len) v7,
        ap (λ (r : Regs J). r.target) v7,
      )

  word_running :
      (l a b : ℕ) (d : D)
      → l ≤ 32
      → (l < 32) ⊎ ((view d).len ≡ 32)
      → let x = serial clock l a b (view d).target in
        (t : D) × (bridge_word dev patience a b l d ≡ (ok x.0, t))
        × (((view t).len ≡ l) × ((view t).target ≡ x.1))
  word_running l a b d h size =
      let (t, e, len, out) = word_clocks l a b d h size in (t, e, (len, out))

  pub bridge-Clocks :
      Clocks clock (bridge_start dev patience) (bridge_word dev patience) Rest Running
  unfolding bridge_start
  bridge-Clocks = record {
    starts = λ d j e. (
      _,
      refl,
      (
        ap (λ (r : Regs J). r.len) (hw.wr_len 32 d),
        ap (λ (r : Regs J). r.target) (hw.wr_len 32 d) ∙ e,
      ),
    );
    whole = λ a b d j run. rw (← run.1) (word_running 32 a b d (omega arith) (inr run.0));
    last = λ l a b d j lo hi run.
        let (t, e, (_, out)) = rw run.1 at (word_running l a b d (omega arith) (inl hi)) in
        (t, e, out);
    ends = λ d j run. run.1;
  }
