-- ===== src/Driver/Overflow.antt =====
-- A vector that is too long for `txBuf_`.
use xvc_support.Base.{
  ℕ, zero, suc, ◌+◌, ◌-◌, ◌/◌, ◌≤◌, ◌<◌, ◌≡◌, refl, ap, sym, ◌∙◌, Bool, Option, none, some, List,
  ◌++◌, ◌==◌, if◌then◌else◌, length, take, drop, read_at, write_at, leb, length-append, length-take,
  length-drop, arith, u32, Bool-cases, Option-cases, inl, inr, some-ne-none, some_inj, err, fault,
}
use mathlib.Core.Option
use xvc_support.Header.{mk_shift, get_xid}
use xvc_support.Header.Memory.{getw32, setw32, set_hdr}
use xvc_support.Driver.Message.{memcpy, store_words, pack, bytes_tot}
use xvc_support.Driver.{RxBuf, Xfer, Drv, attempt, attempts, xfer_rel, send_vectors}

bind_some :
    {A B : Type 0} (m : Option A) (f : A → Option B) {b : B}
    → Option.bind m f ≡ some b
    → (a : A) × (m ≡ some a) × (f a ≡ some b)
unfolding Option.bind
bind_some none f h = cc
bind_some (some a) f h = (a, refl, h)

pub write_at-length :
    (mem : List ℕ) (off : ℕ) (bs : List ℕ) {out : List ℕ}
    → write_at mem off bs ≡ some out
    → length out ≡ length mem
unfolding write_at
write_at-length mem off bs {out} h = elim (Bool-cases (leb (off + length bs) (length mem))) [
  | inl e ↦
      let whole : take off mem ++ (bs ++ drop (off + length bs) mem) ≡ out = some_inj (rw e at h) in
      let fits : off + length bs ≤ length mem = ground arith in
      omega (
        arith,
        ap length whole,
        length-append {0} (take off mem) (bs ++ drop (off + length bs) mem),
        length-append {0} bs (drop (off + length bs) mem),
        length-take off mem,
        length-drop (off + length bs) mem,
      )
  | inr e ↦ absurd (some-ne-none (rw e at h) refl)
]

memcpy-length :
    (dst src : List ℕ) (wp idx n : ℕ) {out : List ℕ}
    → memcpy dst wp src idx n ≡ some out
    → length out ≡ length dst
memcpy-length dst src wp idx n h =
    let (bs, _, e) = bind_some (read_at src idx n) (λ b. write_at dst wp b) h in
    write_at-length dst wp bs e

pub set_hdr-length :
    (le : Bool) (wsz hdr : ℕ) (buf : List ℕ) {out : List ℕ}
    → set_hdr le wsz buf 0 hdr ≡ some out
    → length out ≡ length buf
unfolding set_hdr setw32
set_hdr-length le wsz hdr buf h =
    let (m, e, f) = bind_some (setw32 le buf 0 hdr 4) _ h in
    write_at-length m _ _ f ∙ write_at-length buf 0 _ e

store_words-length :
    (n wsz : ℕ) (tms tdi : List ℕ) (idx wp : ℕ) (buf : List ℕ) {out : List ℕ}
    → store_words n wsz tms tdi idx wp buf ≡ some out
    → length out ≡ length buf
unfolding store_words
store_words-length zero wsz tms tdi idx wp buf h = ap length (sym (some_inj h))
store_words-length (suc n) wsz tms tdi idx wp buf h =
    let (b1, e1, h1) = bind_some (memcpy buf wp tms idx wsz) _ h in
    let (b2, e2, h2) = bind_some (memcpy b1 (wp + wsz) tdi idx wsz) _ h1 in
    store_words-length n wsz tms tdi (idx + wsz) (wp + wsz + wsz) b2 h2
    ∙ memcpy-length b1 tdi (wp + wsz) idx wsz e2
    ∙ memcpy-length buf tms wp idx wsz e1

leftover-length :
    (wp idx l wsz : ℕ) (tms tdi buf : List ℕ) {out : List ℕ}
    → (if l == 0
        then some buf
        else Option.bind (memcpy buf wp tms idx l) (λ m. memcpy m (wp + wsz) tdi idx l))
      ≡ some out
    → length out ≡ length buf
leftover-length wp idx l wsz tms tdi buf h = elim (Bool-cases (l == 0)) [
  | inl e ↦ ap length (sym (some_inj (rw e at h)))
  | inr e ↦
      let (m, e1, e2) = bind_some (memcpy buf wp tms idx l) _ (rw e at h) in
      memcpy-length m tdi (wp + wsz) idx l e2 ∙ memcpy-length buf tms wp idx l e1
]

pub pack-length :
    (le : Bool) (wsz hdr n : ℕ) (tms tdi buf : List ℕ) {out : List ℕ}
    → pack le wsz hdr n tms tdi buf ≡ some out
    → length out ≡ length buf
unfolding pack
pack-length le wsz hdr n tms tdi buf h =
    let (b0, e0, h0) = bind_some (set_hdr le wsz buf 0 hdr) _ h in
    let (b1, e1, h1) = bind_some (store_words (u32 (n / wsz)) wsz tms tdi 0 wsz b0) _ h0 in
    leftover-length _ _ _ wsz tms tdi b1 h1
    ∙ store_words-length (u32 (n / wsz)) wsz tms tdi 0 wsz b0 e1
    ∙ set_hdr-length le wsz hdr buf e0

module _ {T : Type 0} (le : Bool) (xfer : Xfer T) where
  attempt_overrun :
      (xid tx_bytes : ℕ) (rxb : RxBuf) (s : Drv T)
      → length s.tx_buf < tx_bytes
      → attempt le xfer xid tx_bytes rxb s ≡ (err fault, s)
  unfolding attempt read_at
  attempt_overrun xid tx_bytes rxb s h = ground arith

  xfer_rel_overrun :
      (tx_bytes : ℕ) (rxb : RxBuf) (s : Drv T)
      → length s.tx_buf < tx_bytes
      → xfer_rel le xfer tx_bytes rxb s ≡ (err fault, s)
  unfolding xfer_rel attempts
  xfer_rel_overrun tx_bytes rxb s h = elim (Option-cases (getw32 le s.tx_buf 0)) [
    | inl e ↦ rw e
    | inr (hdr, e) ↦
        let one_more : s.retry + 1 ≡ suc s.retry = omega arith in
        rw (e, one_more, attempt_overrun (get_xid hdr) tx_bytes rxb s h)
  ]

  -- A message that does not fit the memory that `txBuf_` has reserved is an access outside this
  -- block: by what packs the message, or by the transport that reads it there.
  pub send_vectors_overrun :
      (s : Drv T) (bits : ℕ) (tms tdi tdo : List ℕ)
      → length s.tx_buf < bytes_tot s.word_size_ ((bits + 8 - 1) / 8)
      → (send_vectors le xfer bits tms tdi tdo s).0 ≡ err fault
  unfolding send_vectors
  send_vectors_overrun s bits tms tdi tdo h =
      let n : ℕ = (bits + 8 - 1) / 8 in
      let hdr : ℕ = (mk_shift s.xid bits).0 in
      let x : ℕ = (mk_shift s.xid bits).1 in
      elim (Option-cases (pack le s.word_size_ hdr n tms tdi s.tx_buf)) [
        | inl e ↦ rw e refl
        | inr (tx, e) ↦
            let short : length tx < bytes_tot s.word_size_ n =
              omega (arith, pack-length le s.word_size_ hdr n tms tdi s.tx_buf e) in
            rw
              (
                e,
                xfer_rel_overrun (bytes_tot s.word_size_ n) (record { block = tdo; size = u32 n })
                    (record s { xid = x; tx_buf = tx }) short,
              )
              refl
      ]
