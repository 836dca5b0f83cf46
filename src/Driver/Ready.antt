-- ===== src/Driver/Ready.antt =====
-- The fields of the driver between two calls, and what a query leaves in them.
use xvc_support.Base.{
  ℕ, zero, suc, ◌+◌, ◌*◌, ◌≤◌, ◌<◌, ◌≡◌, refl, ap, sym, ◌∙◌, Bool, Option, none, some, List, ◌==◌,
  if◌then◌else◌, length, arith, u32, Bool-cases, Option-cases, inl, inr, Result, ok, err, ltb,
  ltb→lt, lt→ltb, le→ltb_false, ltb_false→le, length-replicate, after, timeout_err, sys_err,
  proto_err, runtime_error, fault, hang,
}
use mathlib.Core.Path.{subst}
use xvc_support.Header.{word_size, mem_depth, get_xid, mk_query, cvt_per_ns}
use xvc_support.Header.Fields.{word_size_lem, mem_depth_lem}
use xvc_support.Header.Memory.{getw32, set_hdr}
use xvc_support.Driver.{
  RxBuf, null_buf, Reply, Xfer, Drv, attempt, attempts, settle, xfer_rel, query, adopt, reserve,
  new_driver,
}
use xvc_support.Driver.Overflow.{write_at-length, set_hdr-length}

pub record IsReady {T : Type 0} (s : Drv T) : Type 0 where
  pub word_low : 4 ≤ s.word_size_
  pub word_high : s.word_size_ ≤ 16
  pub depth_bound : s.mem_depth_ < 65536
  pub reserved : length s.tx_buf ≡ s.buf_sz
  pub least : 2048 ≤ s.buf_sz
  pub room : (2 * s.mem_depth_ + 1) * s.word_size_ ≤ s.buf_sz
  pub header_room : length s.hd_buf ≡ 16
  pub retries : s.retry ≡ (if 0 == s.mem_depth_ then 0 else 5)

-- A fresh object, over the 2048 octets that its constructor reserves.
pub new_driver-IsReady :
    {T : Type 0} (debug xid : ℕ) (memory : List ℕ) (io : T)
    → length memory ≡ 2048
    → IsReady (new_driver debug xid memory io)
unfolding new_driver
new_driver-IsReady debug xid memory io h = record {
  word_low = omega arith;
  word_high = omega arith;
  depth_bound = omega arith;
  reserved = h;
  least = omega arith;
  room = omega arith;
  header_room = refl;
  retries = refl;
}

-- What a transfer leaves alone.
pub record Kept {T : Type 0} (s t : Drv T) : Type 0 where
  pub debug_kept : t.debug ≡ s.debug
  pub snif_kept : t.snif ≡ s.snif
  pub word_kept : t.word_size_ ≡ s.word_size_
  pub depth_kept : t.mem_depth_ ≡ s.mem_depth_
  pub tx_kept : t.tx_buf ≡ s.tx_buf
  pub sz_kept : t.buf_sz ≡ s.buf_sz
  pub retry_kept : t.retry ≡ s.retry
  pub xid_kept : t.xid ≡ s.xid
  pub period_kept : t.period_ns ≡ s.period_ns
  pub hd_kept : length t.hd_buf ≡ length s.hd_buf

module _ {T : Type 0} where
  Kept-refl : (s : Drv T) → Kept s s
  Kept-refl s = ground arith

  Kept-trans : {s t u : Drv T} → Kept s t → Kept t u → Kept s u
  Kept-trans p q = ground arith

  pub Kept-IsReady : (s t : Drv T) → Kept s t → IsReady s → IsReady t
  Kept-IsReady s t k r = ground arith

module _ {T : Type 0} (le : Bool) (xfer : Xfer T) (tx_bytes : ℕ) where
  attempt-Kept : (xid : ℕ) (rxb : RxBuf) (s : Drv T) → Kept s (attempt le xfer xid tx_bytes rxb s).1
  unfolding attempt
  attempt-Kept xid rxb s = record {
    debug_kept = ground arith;
    snif_kept = ground arith;
    word_kept = ground arith;
    depth_kept = ground arith;
    tx_kept = ground arith;
    sz_kept = ground arith;
    retry_kept = ground arith;
    xid_kept = ground arith;
    period_kept = ground arith;
    hd_kept = grind (arith, write_at-length);
  }

  settle-Kept :
      {s : Drv T} (x : Result (Option ℕ × Reply) × Drv T) (rxb : RxBuf)
      (again : RxBuf → Drv T → Result (ℕ × Reply) × Drv T)
      → Kept s x.1
      → ((b : RxBuf) (t : Drv T) → Kept t (again b t).1)
      → Kept s (settle le xfer x rxb again).1
  settle-Kept (ok (some h, r), t) rxb again k f = k
  settle-Kept (ok (none, r), t) rxb again k f = Kept-trans k (f _ t)
  settle-Kept (err timeout_err, t) rxb again k f = Kept-trans k (f rxb t)
  settle-Kept (err sys_err, t) rxb again k f = k
  settle-Kept (err proto_err, t) rxb again k f = k
  settle-Kept (err runtime_error, t) rxb again k f = k
  settle-Kept (err fault, t) rxb again k f = k
  settle-Kept (err hang, t) rxb again k f = k

  attempts-Kept :
      (n xid : ℕ) (rxb : RxBuf) (s : Drv T) → Kept s (attempts le xfer n xid tx_bytes rxb s).1
  unfolding attempts
  attempts-Kept zero xid rxb s = Kept-refl s
  attempts-Kept (suc n) xid rxb s =
      settle-Kept (attempt le xfer xid tx_bytes rxb s) rxb _ (attempt-Kept xid rxb s)
        (λ b t. attempts-Kept n xid b t)

  pub xfer_rel-Kept : (rxb : RxBuf) (s : Drv T) → Kept s (xfer_rel le xfer tx_bytes rxb s).1
  unfolding xfer_rel
  xfer_rel-Kept rxb s = elim (Option-cases (getw32 le s.tx_buf 0)) [
    | inl e ↦ rw e (Kept-refl s)
    | inr (hdr, e) ↦ rw e (attempts-Kept (s.retry + 1) (get_xid hdr) rxb s)
  ]

header_bounds : (hdr : ℕ) → (word_size hdr ≤ 16) × (mem_depth hdr < 65536)
header_bounds hdr = (omega (arith, word_size_lem hdr), omega (arith, mem_depth_lem hdr))

-- The buffer size of `query` does not wrap around.
buffer_size :
    (d ws : ℕ)
    → ws ≤ 16
    → d < 65536
    → (u32 (u32 (2 * d + 1) * ws) ≡ (2 * d + 1) * ws) × (u32 (d * ws) ≡ d * ws)
buffer_size d ws w16 d16 =
    let prod : d * ws ≤ 65535 * 16 = grind arith in
    let odd : u32 (2 * d + 1) ≡ 2 * d + 1 = omega arith in (rw odd (omega arith), omega arith)

module _ {T : Type 0} (le : Bool) (xfer : Xfer T) (pow_code : ℕ → ℕ) where
  -- The object after a reply with a proper word size.
  abbrev pub adopted : ℕ → Drv T → Drv T
  adopted hdr s =
      reserve le xfer
        (record s {
          word_size_ = word_size hdr;
          mem_depth_ = mem_depth hdr;
          period_ns = cvt_per_ns pow_code hdr;
          retry = if 0 == mem_depth hdr then 0 else 5;
        })
        ((2 * mem_depth hdr + 1) * word_size hdr)

  adopt_ok :
      (hdr : ℕ) (s : Drv T)
      → 4 ≤ word_size hdr
      → adopt le xfer pow_code hdr s ≡ (ok (mem_depth hdr * word_size hdr), adopted hdr s)
  unfolding adopt
  adopt_ok hdr s h =
      let (w16, d16) = header_bounds hdr in
      let (siz, v32) = buffer_size (mem_depth hdr) (word_size hdr) w16 d16 in
      rw (le→ltb_false (word_size hdr) 4 h, siz, v32)

  adopt_low :
      (hdr : ℕ) (s : Drv T)
      → word_size hdr < 4
      → adopt le xfer pow_code hdr s ≡ (err proto_err, record s { word_size_ = word_size hdr })
  unfolding adopt
  adopt_low hdr s h = rw (lt→ltb (word_size hdr) 4 h)

  adopted_fields :
      (hdr : ℕ) (s : Drv T)
      → (adopted hdr s).mem_depth_ * (adopted hdr s).word_size_ ≡ mem_depth hdr * word_size hdr
  adopted_fields hdr s = ground arith

  adopted-IsReady : (hdr : ℕ) (s : Drv T) → 4 ≤ word_size hdr → IsReady s → IsReady (adopted hdr s)
  adopted-IsReady hdr s h ready =
      let (w16, d16) = header_bounds hdr in
      let siz : ℕ = (2 * mem_depth hdr + 1) * word_size hdr in
      elim (Bool-cases (ltb s.buf_sz siz)) [
        | inl grow ↦ rw grow (record {
          word_low = h;
          word_high = w16;
          depth_bound = d16;
          reserved = length-replicate siz 0;
          least = omega (arith, ready.least, ltb→lt s.buf_sz siz grow);
          room = omega arith;
          header_room = ready.header_room;
          retries = refl;
        })
        | inr keep ↦ rw keep (record {
          word_low = h;
          word_high = w16;
          depth_bound = d16;
          reserved = ready.reserved;
          least = ready.least;
          room = ltb_false→le s.buf_sz siz keep;
          header_room = ready.header_room;
          retries = refl;
        })
      ]

  query_steps :
      (s : Drv T) (tx : List ℕ)
      → set_hdr le s.word_size_ s.tx_buf 0 mk_query ≡ some tx
      → query le xfer pow_code s
        ≡ after
            (λ x. adopt le xfer pow_code x.0)
            (xfer_rel le xfer s.word_size_ null_buf (record s { tx_buf = tx }))
  unfolding query
  query_steps s tx e = rw e

  query_fault :
      (s : Drv T)
      → set_hdr le s.word_size_ s.tx_buf 0 mk_query ≡ none
      → query le xfer pow_code s ≡ (err fault, s)
  unfolding query
  query_fault s e = rw e

  query_end :
      (x : Result (ℕ × Reply) × Drv T) (t : Drv T) (v : ℕ)
      → IsReady x.1
      → after (λ r. adopt le xfer pow_code r.0) x ≡ (ok v, t)
      → IsReady t × (v ≡ t.mem_depth_ * t.word_size_)
  query_end (err f, u) t v ready e = cc
  query_end (ok (hdr, r), u) t v ready e = elim (Bool-cases (ltb (word_size hdr) 4)) [
    | inl low ↦ cc (sym (adopt_low hdr u (ltb→lt (word_size hdr) 4 low)) ∙ e)
    | inr enough ↦
        let h : 4 ≤ word_size hdr = ltb_false→le (word_size hdr) 4 enough in
        let q : ◌≡◌ {A = Result ℕ × Drv T} (ok (mem_depth hdr * word_size hdr), adopted hdr u)
            (ok v, t) =
          sym (adopt_ok hdr u h) ∙ e in
        let same : adopted hdr u ≡ t = ap (λ y. y.1) q in
        let value : mem_depth hdr * word_size hdr ≡ v = cc q in
        let fields : (adopted hdr u).mem_depth_ * (adopted hdr u).word_size_
            ≡ mem_depth hdr * word_size hdr =
          adopted_fields hdr u in
        (
          subst IsReady same (adopted-IsReady hdr u h ready),
          sym value ∙ sym fields ∙ ap (λ (y : Drv T). y.mem_depth_ * y.word_size_) same,
        )
  ]

  -- A `query` that succeeds on a ready driver leaves it ready, whatever the target answers (word
  -- size 4 to 16, `txBuf_` holds the header word and two vectors of the size of the target's
  -- memory, no retries without memory), and returns the size of that memory.
  pub query-IsReady :
      (s t : Drv T) (v : ℕ)
      → IsReady s
      → query le xfer pow_code s ≡ (ok v, t)
      → IsReady t × (v ≡ t.mem_depth_ * t.word_size_)
  query-IsReady s t v ready e = elim (Option-cases (set_hdr le s.word_size_ s.tx_buf 0 mk_query)) [
    | inl f ↦ cc (sym (query_fault s f) ∙ e)
    | inr (tx, f) ↦
        let s1 : Drv T = record s { tx_buf = tx } in
        let same : length tx ≡ length s.tx_buf =
          set_hdr-length le s.word_size_ mk_query s.tx_buf f in
        let ready1 : IsReady s1 = ground arith in
        query_end (xfer_rel le xfer s.word_size_ null_buf s1) t v
          (Kept-IsReady s1 _ (xfer_rel-Kept le xfer s.word_size_ null_buf s1) ready1)
          (sym (query_steps s tx f) ∙ e)
  ]
