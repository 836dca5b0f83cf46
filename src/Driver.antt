-- ===== src/Driver.antt =====
-- `JtagDriverAxisToJtag`, xvcSrv/src/xvcSrv.cc and xvcDriver.h: the driver above a transport. The
-- transport's virtual `xfer` is a parameter, as are `isLE()` and the period that libm computes.
pub mod Message
pub mod Attempts
pub mod Retry
pub mod Pack
pub mod Overflow
pub mod Ready
pub mod Send
pub mod Start
pub mod Steady
use xvc_support.Base.{
  ℕ, zero, suc, ◌+◌, ◌-◌, ◌*◌, ◌/◌, ◌%◌, ◌^◌, bit_and, Bool, true, false, Option, none, some, List,
  [], ◌∷◌, ◌++◌, ◌==◌, not, ◌||◌, ltb, if◌then◌else◌, u32, sub32, length, take, drop, replicate,
  read_at, write_at, Error, sys_err, proto_err, timeout_err, runtime_error, fault, hang, Result, ok,
  err, Eff, pure, throw, after, ◌>>=◌, ◌>>◌, get, put, access,
}
use Message.{pack, bytes_tot, to_int}
use xvc_support.Header.{
  xid_any, unknown_period, get_xid, get_err, word_size, mem_depth, cvt_per_ns, mk_query, mk_shift,
}
use xvc_support.Header.Memory.{getw32, set_hdr}
use xvc_support.Dump.Tap.{Ctx, new_ctx}
use xvc_support.Dump.Buffer.{process_buf}

-- The parameters `rxb` and `size`: the octets of the block that `rxb` points to (none for a null
-- pointer), and how many of them may be stored.
pub record RxBuf : Type 0 where
  pub block : List ℕ
  pub size : ℕ

abbrev pub null_buf : RxBuf
null_buf = record { block = []; size = 0 }

-- What one `xfer` leaves: the first octets of the header buffer, the block at `rxb`, and the
-- result of the call. (What it has stored when it throws is not kept.)
pub record Reply : Type 0 where
  pub hd : List ℕ
  pub rx : List ℕ
  pub got : ℕ

-- `xfer` on the transport's state: the octets transmitted, `hsize`, and `rxb` with `size`.
abbrev pub Xfer : Type 0 → Type 0
Xfer T = List ℕ → ℕ → RxBuf → Eff T Reply

-- The fields of the object. `tx_buf` is the memory that `txBuf_` has reserved, and `hd_buf` that of
-- `hdBuf_`; `io` is the state of the transport.
pub record Drv (T : Type 0) : Type 0 where
  pub debug : ℕ
  pub snif : Ctx
  pub word_size_ : ℕ
  pub mem_depth_ : ℕ
  pub tx_buf : List ℕ
  pub hd_buf : List ℕ
  pub buf_sz : ℕ
  pub retry : ℕ
  pub xid : ℕ
  pub period_ns : ℕ
  pub io : T

abbrev pub hd_buf_max : ℕ
hd_buf_max = 16

-- The constructor. It leaves `xid_` as it finds it, and so do the octets of `txBuf_`: both are
-- arguments.
unfoldable pub new_driver : {T : Type 0} → ℕ → ℕ → List ℕ → T → Drv T
unfolding new_ctx
new_driver debug xid memory io = record {
  debug = debug;
  snif = new_ctx;
  word_size_ = 4;
  mem_depth_ = 1;
  tx_buf = memory;
  hd_buf = replicate hd_buf_max 0;
  buf_sz = 2048;
  retry = 5;
  xid = xid;
  period_ns = unknown_period;
  io = io;
}

abbrev pub get_debug : ℕ → ℕ
get_debug debug = bit_and debug 0xff

unfoldable pub get_sniff : ℕ → Bool
get_sniff debug = not (bit_and debug 0x100 == 0)

unfoldable pub set_debug : {T : Type 0} → ℕ → Drv T → Drv T
set_debug debug s = record s { debug = debug }

module _ {T : Type 0} (le : Bool) (xfer : Xfer T) where
  -- One turn of the loop of `xferRel`: a reply to another transaction is without a header. The
  -- transport reads the message out of `txBuf_`; a message that ends behind this block is a fault,
  -- whatever the transport would do before it gets there.
  unfoldable pub attempt : ℕ → ℕ → RxBuf → Eff (Drv T) (Option ℕ × Reply)
  attempt xid tx_bytes rxb = do
    s ← get
    tx ← access (read_at s.tx_buf 0 tx_bytes)
    let (result, io) = xfer tx s.word_size_ rxb s.io
    put (record s { io = io })
    r ← (λ t. (result, t))
    hd ← access (write_at s.hd_buf 0 r.hd)
    put (record s { io = io; hd_buf = hd })
    hdr ← access (getw32 le hd 0)
    if not (get_err hdr == 0)
        then throw proto_err
        else (if xid == xid_any || xid == get_xid hdr then pure (some hdr, r) else pure (none, r))

  -- The end of a turn: a result, an exception, or the next turn, which finds in the block what a
  -- reply to another transaction has stored there. A transfer that times out has stored nothing.
  abbrev pub settle :
      Result (Option ℕ × Reply) × Drv T
      → RxBuf
      → (RxBuf → Eff (Drv T) (ℕ × Reply))
      → Result (ℕ × Reply) × Drv T
  settle (ok (some h, r), s) rxb again = (ok (h, r), s)
  settle (ok (none, r), s) rxb again = again (record rxb { block = r.rx }) s
  settle (err timeout_err, s) rxb again = again rxb s
  settle (err sys_err, s) rxb again = (err sys_err, s)
  settle (err proto_err, s) rxb again = (err proto_err, s)
  settle (err runtime_error, s) rxb again = (err runtime_error, s)
  settle (err fault, s) rxb again = (err fault, s)
  settle (err hang, s) rxb again = (err hang, s)

  -- The loop, with `n` turns left.
  unfoldable pub attempts : ℕ → ℕ → ℕ → RxBuf → Eff (Drv T) (ℕ × Reply)
  attempts zero xid tx_bytes rxb s = (err timeout_err, s)
  attempts (suc n) xid tx_bytes rxb s =
      settle (attempt xid tx_bytes rxb s) rxb (λ b t. attempts n xid tx_bytes b t)

  unfoldable pub xfer_rel : ℕ → RxBuf → Eff (Drv T) (ℕ × Reply)
  xfer_rel tx_bytes rxb = do
    s ← get
    hdr ← access (getw32 le s.tx_buf 0)
    attempts (s.retry + 1) (get_xid hdr) tx_bytes rxb

  -- `reserve( bufSz_ )` after the size has grown: a new block, whose octets nothing has set. The
  -- model takes 0 for them.
  abbrev pub reserve : Drv T → ℕ → Drv T
  reserve s siz =
      if ltb s.buf_sz siz then record s { buf_sz = siz; tx_buf = replicate siz 0 } else s

  -- `query` from the reply's header on.
  unfoldable pub adopt : (ℕ → ℕ) → ℕ → Eff (Drv T) ℕ
  adopt pow_code hdr = do
    t ← get
    let ws = word_size hdr
    put (record t { word_size_ = ws })
    if ltb ws 4 then throw proto_err else (do
      let depth = mem_depth hdr
      let siz = u32 (u32 (2 * depth + 1) * ws)
      let period = cvt_per_ns pow_code hdr
      let times = if 0 == depth then 0 else 5
      put (
          reserve
            (record t { word_size_ = ws; mem_depth_ = depth; period_ns = period; retry = times })
            siz)
      pure (u32 (depth * ws)))

  unfoldable pub query : (ℕ → ℕ) → Eff (Drv T) ℕ
  query pow_code = do
    s ← get
    tx ← access (set_hdr le s.word_size_ s.tx_buf 0 mk_query)
    put (record s { tx_buf = tx })
    (hdr, _) ← xfer_rel s.word_size_ null_buf
    adopt pow_code hdr

  -- `tdo` is the block that the caller gives; the result is what it holds afterwards.
  unfoldable pub send_vectors : ℕ → List ℕ → List ℕ → List ℕ → Eff (Drv T) (List ℕ)
  send_vectors bits tms tdi tdo = do
    s ← get
    let wsz = s.word_size_
    let bytes_ceil = (bits + 8 - 1) / 8
    let (hdr, x) = mk_shift s.xid bits
    put (record s { xid = x })
    tx ← access (pack le wsz hdr bytes_ceil tms tdi s.tx_buf)
    put (record s { xid = x; tx_buf = tx })
    (_, r) ← xfer_rel (bytes_tot wsz bytes_ceil) (record { block = tdo; size = u32 bytes_ceil })
    let tdo' = r.rx
    t ← get
    if get_sniff t.debug
        then (do
          (snif, _) ← access (process_buf (to_int bits) tms tdi tdo' none t.snif)
          put (record t { snif = snif })
          pure tdo')
        else pure tdo'

unfoldable pub set_period_ns : {T : Type 0} → ℕ → Drv T → ℕ
set_period_ns requested s =
    if 0 == requested
    then s.period_ns
    else if unknown_period == s.period_ns
    then requested
    else s.period_ns
