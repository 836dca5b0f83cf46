-- ===== src/Conn/Window/Pieces.antt =====
-- A vector that is sent in pieces of what `rxb_` and `txb_` have.
use xvc_support.Base.{
  ℕ, zero, suc, ◌+◌, ◌-◌, ◌*◌, ◌/◌, ◌^◌, ◌≤◌, ◌<◌, ◌≡◌, ◌⊎◌, inl, inr, false, IsBytes, IsBytes-drop,
  List, ◌++◌, length, take, drop, ltb, ◌==◌, if◌then◌else◌, u32, arith, length-append, length-take,
  length-drop, Bool-cases, ltb→lt, ltb_false→le,
}
use xvc_support.Conn.{Driver, Conn, send_pieces}
use xvc_support.Conn.Limits.{agreed}
use xvc_support.Conn.Safe.{Safe, Safe-drive}
use xvc_support.Conn.Window.{IsWindow, with_reply, with_drv}

-- A driver that works while `Inv` holds of it, on the bits of vectors of `limit` octets, which the
-- agreed size does not exceed: it keeps to the blocks it is given.
pub record IsKeeper {D : Type 0} (limit m : ℕ) (Inv : D → Type 0) (api : Driver D) : Type 0 where
  pub on_query :
      (d : D)
      → Inv d
      → Safe (λ n t. Inv t × (agreed m n (api.get_max_vector_size t) ≤ limit)) (api.query d)
  pub on_period : (p : ℕ) (d : D) → Inv d → Safe (λ n t. Inv t) (api.set_period_ns p d)
  pub on_vectors :
      (bits : ℕ) (tms tdi tdo : List ℕ) (d : D)
      → Inv d
      → (bits + 7) / 8 ≤ limit
      → (bits + 7) / 8 ≤ length tms
      → (bits + 7) / 8 ≤ length tdi
      → (bits + 7) / 8 ≤ length tdo
      → IsBytes tms
      → IsBytes tdi
      → Safe (λ out t. (length out ≡ length tdo) × Inv t) (api.send_vectors bits tms tdi tdo d)

-- The driver works, and the agreed size is one that it takes.
abbrev pub Works : {D : Type 0} → ℕ → (D → Type 0) → D → ℕ → Type 0
Works limit Inv d n = Inv d × (n ≤ limit)

-- Nothing is left, nothing is ever sent, or the rest fits.
abbrev pub Fits : ℕ → ℕ → ℕ → ℕ → Type 0
Fits bytes vec_len off left = (left ≡ 0) ⊎ ((vec_len ≡ 0) ⊎ (off + (left + 7) / 8 ≤ bytes))

abbrev portion : ℕ → ℕ → ℕ
portion left vec_len = if ltb left (u32 (8 * vec_len)) then left else u32 (8 * vec_len)

busy : (n : ℕ) → (n == 0) ≡ false → 1 ≤ n
busy n h = ground arith

portion-Fits :
    (bytes vec_len off left : ℕ)
    → vec_len ≤ bytes
    → 8 * bytes < 2 ^ 32
    → 1 ≤ left
    → Fits bytes vec_len off left
    → ((portion left vec_len ≡ 0) ⊎ (off + (portion left vec_len + 7) / 8 ≤ bytes))
      × Fits bytes vec_len (off + vec_len) (left - portion left vec_len)
portion-Fits bytes vec_len off left small wide active fits =
    let e : u32 (8 * vec_len) ≡ 8 * vec_len = omega arith in
    elim (Bool-cases (ltb left (8 * vec_len))) [
      | inl h ↦
          let lt : left < 8 * vec_len = ltb→lt left (8 * vec_len) h in
          let fit : off + (left + 7) / 8 ≤ bytes = elim fits [
            | inl z ↦ omega arith
            | inr (inl z) ↦ omega arith
            | inr (inr q) ↦ q
          ] in
          rw (e, h) (inr fit, inl (omega arith))
      | inr h ↦
          let ge : 8 * vec_len ≤ left = ltb_false→le left (8 * vec_len) h in
          rw (e, h)
            (elim fits [
              | inl z ↦ omega arith
              | inr (inl z) ↦ (inl (omega arith), inr (inl z))
              | inr (inr q) ↦ (inr (omega arith), inr (inr (omega arith)))
            ])
    ]

portion-le :
    (left vec_len : ℕ) {limit : ℕ}
    → 8 * vec_len < 2 ^ 32
    → vec_len ≤ limit
    → (portion left vec_len + 7) / 8 ≤ limit
portion-le left vec_len wide h =
    let e : u32 (8 * vec_len) ≡ 8 * vec_len = omega arith in rw e (ground arith)

enough :
    (mem : List ℕ) (pos off bits bytes : ℕ)
    → (bits ≡ 0) ⊎ (off + (bits + 7) / 8 ≤ bytes)
    → pos + bytes ≤ length mem + off
    → (bits + 7) / 8 ≤ length (drop pos mem)
enough mem pos off bits bytes (inl z) h = omega arith
enough mem pos off bits bytes (inr q) h = omega (arith, length-drop pos mem)

module _ {D : Type 0} (limit m : ℕ) (Inv : D → Type 0) (api : Driver D)
    (keeper : IsKeeper limit m Inv api) where
  pub send_pieces-Safe :
      (n bytes vec_len off left rp rl : ℕ) (s : Conn D)
      → rp + 2 * bytes ≤ 2 * (2 * m + 128)
      → bytes ≤ m
      → vec_len ≤ bytes
      → 8 * bytes < 2 ^ 32
      → Fits bytes vec_len off left
      → vec_len ≤ limit
      → IsWindow (Works limit Inv) m rp rl s
      → Safe
          (λ _ t. IsWindow (Works limit Inv) m rp rl t)
          (send_pieces api n bytes vec_len off left s)
  unfolding send_pieces
  send_pieces-Safe zero bytes vec_len off left rp rl s room len small wide fits taken w =
      elim (Bool-cases (left == 0)) [ inl z ↦ rw z w | inr z ↦ rw z tt ]
  send_pieces-Safe (suc n) bytes vec_len off left rp rl s room len small wide fits taken w =
      elim (Bool-cases (left == 0)) [
        | inl z ↦ rw z w
        | inr z ↦
            let b : ℕ = portion left vec_len in
            let (now, later) = portion-Fits bytes vec_len off left small wide (busy left z) fits in
            rw z (
              Safe-drive (λ out d. (length out ≡ length (drop off s.txb)) × Inv d)
                (λ _ t. IsWindow (Works limit Inv) m rp rl t)
                (api.send_vectors b (drop (s.rp + off) s.rxb) (drop (s.rp + bytes + off) s.rxb)
                  (drop off s.txb))
                s _
                (keeper.on_vectors b (drop (s.rp + off) s.rxb) (drop (s.rp + bytes + off) s.rxb)
                  (drop off s.txb) s.drv w.kept.0 (portion-le left vec_len (omega arith) taken)
                  (enough s.rxb (s.rp + off) off b bytes now (omega (arith, w.rp_is, w.rx_size)))
                  (enough s.rxb (s.rp + bytes + off) off b bytes now
                    (omega (arith, w.rp_is, w.rx_size)))
                  (enough s.txb off off b bytes now (omega (arith, w.tx_size)))
                  (IsBytes-drop (s.rp + off) s.rxb w.rx_bytes)
                  (IsBytes-drop (s.rp + bytes + off) s.rxb w.rx_bytes))
                (λ out d (size, inv).
                  send_pieces-Safe n bytes vec_len (off + vec_len) (left - b) rp rl _ room len small
                    wide later taken
                    (with_reply m (record s { drv = d }) (take off s.txb ++ out) s.tl
                      (with_drv m s d w (inv, w.kept.1))
                      (omega (
                        arith,
                        length-append {0} (take off s.txb) out,
                        length-take off s.txb,
                        length-drop off s.txb,
                        size,
                      ))
                      w.reply_le)))
      ]
