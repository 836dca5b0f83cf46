-- ===== src/Driver/Retry.antt =====
-- What a caller of `xferRel` relies on.
use xvc_support.Base.{
  ℕ, ◌+◌, ◌≤◌, ◌≡◌, refl, ap, ap₂, sym, ◌∙◌, Bool, some, timeout_err, Result, ok, err, ◌⊎◌, arith,
}
use xvc_support.Header.{xid_any, get_err, get_xid}
use xvc_support.Header.Memory.{getw32}
use xvc_support.Driver.{RxBuf, Reply, Xfer, Drv, attempt, attempts, xfer_rel}
use xvc_support.Driver.Attempts.{
  Lost, here, mismatch, timeout, Outcome, replied, failed, gave_up, attempts-Outcome,
  attempts_reply, attempts-Lost, attempt_sound, attempt-tx_buf,
}

module _ {T : Type 0} (le : Bool) (xfer : Xfer T) (tx_bytes : ℕ) (rxb : RxBuf) where
  pub xfer_rel-attempts :
      (s : Drv T) (h : ℕ)
      → getw32 le s.tx_buf 0 ≡ some h
      → xfer_rel le xfer tx_bytes rxb s ≡ attempts le xfer (s.retry + 1) (get_xid h) tx_bytes rxb s
  unfolding xfer_rel
  xfer_rel-attempts s h e = rw e

  -- If no more than `retry_` transfers of `xferRel` are lost (a timeout, or the reply to another
  -- transaction, whose octets stay in the caller's block) before one that brings a good reply into
  -- that block, that reply is the result.
  pub xfer_rel_recovers :
      (b' : RxBuf) (s t u : Drv T) (h k h' : ℕ) (r : Reply)
      → getw32 le s.tx_buf 0 ≡ some h
      → k ≤ s.retry
      → Lost le xfer (get_xid h) tx_bytes k rxb b' s t
      → attempt le xfer (get_xid h) tx_bytes b' t ≡ (ok (some h', r), u)
      → xfer_rel le xfer tx_bytes rxb s ≡ (ok (h', r), u)
  xfer_rel_recovers b' s t u h k h' r eh hk l e =
      xfer_rel-attempts s h eh
      ∙ attempts_reply le xfer (get_xid h) tx_bytes (s.retry + 1) (omega arith) l e

  -- If `retry_ + 1` transfers in a row are lost `xferRel` fails by a timeout, after these and no
  -- other transfer.
  pub xfer_rel_gives_up :
      (b' : RxBuf) (s t : Drv T) (h : ℕ)
      → getw32 le s.tx_buf 0 ≡ some h
      → Lost le xfer (get_xid h) tx_bytes (s.retry + 1) rxb b' s t
      → xfer_rel le xfer tx_bytes rxb s ≡ (err timeout_err, t)
  xfer_rel_gives_up b' s t h eh l =
      xfer_rel-attempts s h eh ∙ attempts-Lost le xfer (get_xid h) tx_bytes l

  Lost-tx_buf :
      {xid k : ℕ} {b b' : RxBuf} {s t : Drv T}
      → Lost le xfer xid tx_bytes k b b' s t
      → t.tx_buf ≡ s.tx_buf
  Lost-tx_buf here = refl
  Lost-tx_buf {xid} (mismatch {b = b} {s = s} e l) =
      Lost-tx_buf l ∙ rw e at (attempt-tx_buf le xfer xid tx_bytes b s)
  Lost-tx_buf {xid} (timeout {b = b} {s = s} e l) =
      Lost-tx_buf l ∙ rw e at (attempt-tx_buf le xfer xid tx_bytes b s)

  reply_of :
      {n xid : ℕ} {s t : Drv T} {h : ℕ} {r : Reply} {o : Result (ℕ × Reply) × Drv T}
      → Outcome le xfer xid tx_bytes n rxb s o
      → o ≡ (ok (h, r), t)
      → (get_err h ≡ 0) × ((xid ≡ xid_any) ⊎ (get_xid h ≡ xid)) × (t.tx_buf ≡ s.tx_buf)
  reply_of {xid} {s} {t} {h = h'} {r = r'} (replied {b' = b} {t = m} {u = u} {h = h} {r = r} lt l e)
        q =
      let er : ◌≡◌ {A = ℕ × Reply} (h, r) (h', r') = cc in
      let eu : u ≡ t = cc in
      let e2 : attempt le xfer xid tx_bytes b m ≡ (ok (some h', r'), t) =
        e ∙ ap₂ (λ (x : ℕ × Reply) y. (ok (some x.0, x.1), y)) er eu in
      let (no_error, same_xid) = attempt_sound le xfer xid tx_bytes b m e2 in
      let kept : t.tx_buf ≡ m.tx_buf =
        sym (ap (λ x. x.1.tx_buf) e2) ∙ attempt-tx_buf le xfer xid tx_bytes b m in
      (no_error, same_xid, kept ∙ Lost-tx_buf l)
  reply_of (failed h l e ne) q = cc
  reply_of (gave_up l) q = cc

  -- `xferRel` accepts a reply only without an error code and with the transaction id of the
  -- request (any id for the wildcard), and leaves `txBuf_` as it was.
  pub xfer_rel_sound :
      (s t : Drv T) (h h' : ℕ) (r : Reply)
      → getw32 le s.tx_buf 0 ≡ some h
      → xfer_rel le xfer tx_bytes rxb s ≡ (ok (h', r), t)
      → (get_err h' ≡ 0)
        × ((get_xid h ≡ xid_any) ⊎ (get_xid h' ≡ get_xid h))
        × (t.tx_buf ≡ s.tx_buf)
  xfer_rel_sound s t h h' r eh e =
      reply_of (attempts-Outcome le xfer (get_xid h) tx_bytes (s.retry + 1) rxb s)
        (sym (xfer_rel-attempts s h eh) ∙ e)
