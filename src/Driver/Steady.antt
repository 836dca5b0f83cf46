-- ===== src/Driver/Steady.antt =====
-- What `sendVectors` leaves as it was.
use mathlib.Core.Path.{subst}
use xvc_support.Base.{
  ℕ, ◌+◌, ◌-◌, ◌/◌, ◌≡◌, refl, ap, sym, ◌∙◌, Bool, false, List, Option-cases, inl, inr, length, u32,
  arith, Result, Eff, ok, err, after,
}
use xvc_support.Header.{mk_shift}
use xvc_support.Driver.Message.{pack, bytes_tot}
use xvc_support.Driver.{Xfer, RxBuf, Reply, Drv, get_sniff, xfer_rel, send_vectors}
use xvc_support.Driver.Overflow.{pack-length}
use xvc_support.Driver.Ready.{IsReady, Kept, xfer_rel-Kept, Kept-IsReady}

module _ {T : Type 0} where
  -- A step that changes nothing where sniffing is off.
  same_after :
      (x : Result (ℕ × Reply) × Drv T) (k : ℕ × Reply → Eff (Drv T) (List ℕ)) {t : Drv T}
      {out : List ℕ}
      → ((r : ℕ × Reply) (u : Drv T) → get_sniff u.debug ≡ false → k r u ≡ (ok r.1.rx, u))
      → get_sniff x.1.debug ≡ false
      → after k x ≡ (ok out, t)
      → x.1 ≡ t
  same_after (ok r, u) k f quiet e = ap (λ y. y.1) (sym (f r u quiet) ∙ e)
  same_after (err r, u) k f quiet e = cc

module _ {T : Type 0} (le : Bool) (xfer : Xfer T) where
  -- Whatever the transport does, a `sendVectors` that succeeds with sniffing off leaves a ready
  -- driver ready, with its word size, its debug level and its period.
  pub send_vectors-IsReady :
      (s t : Drv T) (bits : ℕ) (tms tdi tdo out : List ℕ)
      → IsReady s
      → get_sniff s.debug ≡ false
      → send_vectors le xfer bits tms tdi tdo s ≡ (ok out, t)
      → IsReady t
        × (t.word_size_ ≡ s.word_size_)
        × (t.debug ≡ s.debug)
        × (t.period_ns ≡ s.period_ns)
  unfolding send_vectors
  send_vectors-IsReady s t bits tms tdi tdo out ready quiet e =
      let n : ℕ = (bits + 8 - 1) / 8 in
      let (hdr, id) = mk_shift s.xid bits in
      elim (Option-cases (pack le s.word_size_ hdr n tms tdi s.tx_buf)) [
        | inl f ↦ cc (rw f at e)
        | inr (tx, f) ↦
            let s1 : Drv T = record s { xid = id; tx_buf = tx } in
            let long : length tx ≡ length s.tx_buf =
              pack-length le s.word_size_ hdr n tms tdi s.tx_buf f in
            let ready1 : IsReady s1 = ground arith in
            let rxb : RxBuf = record { block = tdo; size = u32 n } in
            let x = xfer_rel le xfer (bytes_tot s.word_size_ n) rxb s1 in
            let kept : Kept s1 x.1 = xfer_rel-Kept le xfer (bytes_tot s.word_size_ n) rxb s1 in
            let same : x.1 ≡ t =
              same_after x _ (λ r u q. rw q refl) (ap get_sniff kept.debug_kept ∙ quiet)
                (rw f at e) in
            subst
              (λ (u : Drv T).
                IsReady u
                × (u.word_size_ ≡ s.word_size_)
                × (u.debug ≡ s.debug)
                × (u.period_ns ≡ s.period_ns))
              same
              (Kept-IsReady s1 x.1 kept ready1, kept.word_kept, kept.debug_kept, kept.period_kept)
      ]
