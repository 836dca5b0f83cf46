-- ===== src/Driver/Attempts.antt =====
-- The retries of `xferRel`.
use xvc_support.Base.{
  ℕ, zero, suc, ◌+◌, ◌-◌, ◌<◌, ◌≡◌, ◌≢◌, refl, ap, ◌∙◌, Bool, Option, none, some, Error, sys_err,
  proto_err, timeout_err, runtime_error, fault, hang, Result, ok, err, ◌⊎◌, arith,
}
use xvc_support.Header.{xid_any, get_err, get_xid}
use xvc_support.Driver.{RxBuf, Reply, Xfer, Drv, attempt, attempts, settle}

module _ {T : Type 0} (le : Bool) (xfer : Xfer T) (xid tx_bytes : ℕ) where
  -- `k` turns in a row that brought no reply to this transaction; the block afterwards holds what
  -- they have stored.
  pub data Lost : ℕ → RxBuf → RxBuf → Drv T → Drv T → Type 0 where
    here : {b : RxBuf} {s : Drv T} → Lost zero b b s s
    mismatch :
        {k : ℕ} {b b' : RxBuf} {s t u : Drv T} {r : Reply}
        → attempt le xfer xid tx_bytes b s ≡ (ok (none, r), t)
        → Lost k (record b { block = r.rx }) b' t u
        → Lost (suc k) b b' s u
    timeout :
        {k : ℕ} {b b' : RxBuf} {s t u : Drv T}
        → attempt le xfer xid tx_bytes b s ≡ (err timeout_err, t)
        → Lost k b b' t u
        → Lost (suc k) b b' s u

  -- Turns that are lost leave the rest of the loop.
  skip-Lost :
      {k : ℕ} {b b' : RxBuf} {s t : Drv T} (n : ℕ)
      → Lost k b b' s t
      → attempts le xfer (k + n) xid tx_bytes b s ≡ attempts le xfer n xid tx_bytes b' t
  unfolding attempts
  skip-Lost n here = ap (λ (m : ℕ). attempts le xfer m xid tx_bytes _ _) (omega arith)
  skip-Lost n (mismatch {k = k} e l) =
      let m : suc k + n ≡ suc (k + n) = omega arith in rw m (rw e (skip-Lost n l))
  skip-Lost n (timeout {k = k} e l) =
      let m : suc k + n ≡ suc (k + n) = omega arith in rw m (rw e (skip-Lost n l))

  -- What ends the loop: a reply, another exception than a timeout, or nothing.
  pub data Outcome (n : ℕ) (b : RxBuf) (s : Drv T) : Result (ℕ × Reply) × Drv T → Type 0 where
    replied :
        {k : ℕ} {b' : RxBuf} {t u : Drv T} {h : ℕ} {r : Reply}
        → k < n
        → Lost k b b' s t
        → attempt le xfer xid tx_bytes b' t ≡ (ok (some h, r), u)
        → Outcome n b s (ok (h, r), u)
    failed :
        {k : ℕ} {b' : RxBuf} {t u : Drv T} {e : Error}
        → k < n
        → Lost k b b' s t
        → attempt le xfer xid tx_bytes b' t ≡ (err e, u)
        → e ≢ timeout_err
        → Outcome n b s (err e, u)
    gave_up : {b' : RxBuf} {t : Drv T} → Lost n b b' s t → Outcome n b s (err timeout_err, t)

  -- One more lost turn in front.
  later :
      {n : ℕ} {b c : RxBuf} {s t : Drv T} {o : Result (ℕ × Reply) × Drv T}
      → ((k : ℕ) (b' : RxBuf) (u : Drv T) → Lost k c b' t u → Lost (suc k) b b' s u)
      → Outcome n c t o
      → Outcome (suc n) b s o
  later f (replied h l e) = replied (omega arith) (f _ _ _ l) e
  later f (failed h l e ne) = failed (omega arith) (f _ _ _ l) e ne
  later f (gave_up l) = gave_up (f _ _ _ l)

  first_turn :
      (n : ℕ) (b : RxBuf) (s : Drv T) (x : Result (Option ℕ × Reply) × Drv T)
      → ((c : RxBuf) (t : Drv T) → Outcome n c t (attempts le xfer n xid tx_bytes c t))
      → attempt le xfer xid tx_bytes b s ≡ x
      → Outcome (suc n) b s (settle le xfer x b (λ c t. attempts le xfer n xid tx_bytes c t))
  first_turn n b s (ok (some h, r), t) ih e = replied (omega arith) here e
  first_turn n b s (ok (none, r), t) ih e = later (λ k c u l. mismatch e l) (ih _ t)
  first_turn n b s (err timeout_err, t) ih e = later (λ k c u l. timeout e l) (ih b t)
  first_turn n b s (err sys_err, t) ih e = failed (omega arith) here e (λ q. cc)
  first_turn n b s (err proto_err, t) ih e = failed (omega arith) here e (λ q. cc)
  first_turn n b s (err runtime_error, t) ih e = failed (omega arith) here e (λ q. cc)
  first_turn n b s (err fault, t) ih e = failed (omega arith) here e (λ q. cc)
  first_turn n b s (err hang, t) ih e = failed (omega arith) here e (λ q. cc)

  pub attempts-Outcome :
      (n : ℕ) (b : RxBuf) (s : Drv T) → Outcome n b s (attempts le xfer n xid tx_bytes b s)
  unfolding attempts
  attempts-Outcome zero b s = gave_up here
  attempts-Outcome (suc n) b s =
      first_turn n b s (attempt le xfer xid tx_bytes b s) (attempts-Outcome n) refl

  -- Replies lost at most `retry` times are made up for.
  pub attempts_reply :
      {k : ℕ} {b b' : RxBuf} {s t u : Drv T} {h : ℕ} {r : Reply} (n : ℕ)
      → k < n
      → Lost k b b' s t
      → attempt le xfer xid tx_bytes b' t ≡ (ok (some h, r), u)
      → attempts le xfer n xid tx_bytes b s ≡ (ok (h, r), u)
  unfolding attempts
  attempts_reply {k} n lt l e =
      let m : n ≡ k + suc (n - k - 1) = omega arith in rw m (skip-Lost (suc (n - k - 1)) l ∙ rw e)

  pub attempts-Lost :
      {n : ℕ} {b b' : RxBuf} {s t : Drv T}
      → Lost n b b' s t
      → attempts le xfer n xid tx_bytes b s ≡ (err timeout_err, t)
  unfolding attempts
  attempts-Lost {n} l = let m : n ≡ n + 0 = omega arith in rw m (skip-Lost 0 l)

  pub attempt_sound :
      (b : RxBuf) (s : Drv T) {t : Drv T} {h : ℕ} {r : Reply}
      → attempt le xfer xid tx_bytes b s ≡ (ok (some h, r), t)
      → (get_err h ≡ 0) × ((xid ≡ xid_any) ⊎ (get_xid h ≡ xid))
  unfolding attempt
  attempt_sound b s e = ground arith

  pub attempt-tx_buf :
      (b : RxBuf) (s : Drv T) → (attempt le xfer xid tx_bytes b s).1.tx_buf ≡ s.tx_buf
  unfolding attempt
  attempt-tx_buf b s = ground arith
