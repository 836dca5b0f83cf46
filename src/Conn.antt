-- ===== src/Conn.antt =====
-- `XvcConn`, xvcSrv/src/xvcConn.cc: the connection to a client. What the client sends is the list
-- `net` of the segments that `read` finds; a segment without octets is the end of the stream. The
-- driver is a parameter: the operations that this class calls, on a state of its own.
pub mod Fill
pub mod Flush
pub mod Limits
pub mod Safe
pub mod Window
pub mod Session
use xvc_support.Base.{
  ℕ, zero, suc, ◌+◌, ◌-◌, ◌*◌, ◌/◌, ◌%◌, ◌^◌, Bool, true, false, Option, none, some, List, [], ◌∷◌,
  ◌++◌, ◌==◌, not, ◌&&◌, leb, ltb, if◌then◌else◌, u8, u32, length, take, drop, replicate, read_at,
  write_at, get_or, of_le, to_le, sys_err, proto_err, hang, Result, ok, err, Eff, pure, throw,
  guard, after, ◌>>=◌, ◌>>◌, get, put, access,
}

pub record Driver (D : Type 0) : Type 0 where
  pub query : Eff D ℕ
  pub get_max_vector_size : D → ℕ
  pub set_period_ns : ℕ → Eff D ℕ
  -- The bits, and the blocks from TMS, TDI and TDO on; the result is the block of TDO afterwards.
  pub send_vectors : ℕ → List ℕ → List ℕ → List ℕ → Eff D (List ℕ)

-- `rp` is the index of `rp_` in `rxb_`; `sent` is what has been written to the socket, and `puts`
-- what the calls of `write` to come return.
pub record Conn (D : Type 0) : Type 0 where
  pub drv : D
  pub rxb : List ℕ
  pub rp : ℕ
  pub rl : ℕ
  pub tl : ℕ
  pub txb : List ℕ
  pub max_vec_len : ℕ
  pub sup_vec_len : ℕ
  pub chunk : ℕ
  pub net : List (List ℕ)
  pub sent : List ℕ
  pub puts : List ℕ

module _ {D : Type 0} where
  -- `read` of `l` octets at most, of which there is at least one or the connection is over. Its
  -- loop that waits for the client and turns others away is in Server/Sockets.antt.
  unfoldable pub read : ℕ → Eff (Conn D) (List ℕ)
  read l s = elim s.net [
    | [] ↦ (err sys_err, s)
    | seg ∷ segs ↦
        if length seg == 0
        then (err sys_err, s)
        else if leb (length seg) l
        then (ok seg, record s { net = segs })
        else (ok (take l seg), record s { net = drop l seg ∷ segs })
  ]

  -- The loop of `fill`, with `k` octets left and fuel for `n` rounds.
  unfoldable pub fill_loop : ℕ → ℕ → ℕ → Eff (Conn D) (Unit {0})
  fill_loop zero p k = if k == 0 then pure tt else throw hang
  fill_loop (suc n) p k = if k == 0 then pure tt else (do
    bs ← read k
    s ← get
    rxb ← access (write_at s.rxb p bs)
    put (record s { rxb = rxb })
    fill_loop n (p + length bs) (k - length bs))

  -- Each round reads an octet at least: the fuel is the number of octets.
  unfoldable pub fill : ℕ → Eff (Conn D) (Unit {0})
  fill n = do
    s ← get
    if leb n s.rl
        then pure tt
        else (do fill_loop (n - s.rl) (s.rp + s.rl) (n - s.rl); t ← get; put (record t { rl = n }))

  -- Each call follows a `fill` of as many octets, so that `rl_` does not wrap.
  unfoldable pub bump : ℕ → Eff (Conn D) (Unit {0})
  bump n = do
    s ← get
    let rl = s.rl - n
    put (record s { rl = rl; rp = if rl == 0 then 0 else s.rp + n })

  -- `write` takes as many octets as the next number in `puts` says, of those that there are; 0
  -- stands for an error. After these numbers it takes all.
  unfoldable pub write_out : List ℕ → Eff (Conn D) ℕ
  write_out bs s = elim s.puts [
    | [] ↦ (ok (length bs), record s { sent = s.sent ++ bs })
    | k ∷ ks ↦
        let n = if ltb k (length bs) then k else length bs in
        if n == 0
        then (err sys_err, record s { puts = ks })
        else (ok n, record s { puts = ks; sent = s.sent ++ take n bs })
  ]

  -- The loop of `flush`, from the octet `p` of `txb_` on, with fuel for `n` rounds; a round sends
  -- one octet at least.
  unfoldable pub flush_loop : ℕ → ℕ → Eff (Conn D) (Unit {0})
  flush_loop zero p = do s ← get; if s.tl == 0 then pure tt else throw hang
  flush_loop (suc n) p = do
    s ← get
    if s.tl == 0 then pure tt else (do
      bs ← access (read_at s.txb p s.tl)
      k ← write_out bs
      t ← get
      put (record t { tl = t.tl - k })
      flush_loop n (p + k))

  unfoldable pub flush : Eff (Conn D) (Unit {0})
  flush = do s ← get; flush_loop s.tl 0

  -- A call of the driver.
  unfoldable pub drive : {A : Type 0} → Eff D A → Eff (Conn D) A
  drive m s = let (r, d) = m s.drv in (r, record s { drv = d })

-- The number of octets of a vector, on `uint32_t`.
unfoldable pub vector_bytes : ℕ → ℕ
vector_bytes bits = u32 (bits + 7) / 8

abbrev pub overhead : ℕ
overhead = 128

module _ {D : Type 0} (api : Driver D) where
  unfoldable pub alloc_bufs : Eff (Conn D) (Unit {0})
  alloc_bufs = do
    tgt ← drive api.query
    s ← get
    let tgt = if 0 == tgt then s.max_vec_len else tgt
    let sup = api.get_max_vector_size s.drv
    let sup = if sup == 0 then tgt else if ltb tgt sup then tgt else sup
    let chunk = 2 * s.max_vec_len + overhead
    put (record s {
      sup_vec_len = sup;
      chunk = chunk;
      rxb = replicate (2 * chunk) 0;
      txb = replicate (s.max_vec_len + overhead) 0;
      rp = 0;
      rl = 0;
      tl = 0;
    })

  -- The loop that sends a vector in pieces, with fuel for `n` rounds; `rp_` is the index of TMS.
  unfoldable pub send_pieces : ℕ → ℕ → ℕ → ℕ → ℕ → Eff (Conn D) (Unit {0})
  send_pieces zero bytes vec_len off bits_left = if bits_left == 0 then pure tt else throw hang
  send_pieces (suc n) bytes vec_len off bits_left = if bits_left == 0 then pure tt else (do
    let piece = u32 (8 * vec_len)
    let bits_sent = if ltb bits_left piece then bits_left else piece
    s ← get
    tdo ← drive (
        api.send_vectors bits_sent (drop (s.rp + off) s.rxb) (drop (s.rp + bytes + off) s.rxb)
          (drop off s.txb))
    t ← get
    put (record t { txb = take off t.txb ++ tdo })
    send_pieces n bytes vec_len (off + vec_len) (bits_left - bits_sent))

  -- "shift:", from the command on.
  unfoldable pub shift : Eff (Conn D) (Unit {0})
  shift = do
    fill 10
    s ← get
    num ← access (read_at s.rxb (s.rp + 6) 4)
    let bits = of_le num
    let bytes = vector_bytes bits
    guard (leb bytes s.max_vec_len) proto_err
    bump 10
    fill (2 * bytes)
    let vec_len = if ltb s.sup_vec_len bytes then s.sup_vec_len else bytes
    send_pieces bits bytes vec_len 0 bits
    t ← get
    put (record t { tl = bytes })
    bump (2 * bytes)

  -- "settck:".
  unfoldable pub set_tck : Eff (Conn D) (Unit {0})
  set_tck = do
    fill 11
    s ← get
    num ← access (read_at s.rxb (s.rp + 7) 4)
    period ← drive (api.set_period_ns (of_le num))
    t ← get
    txb ← access (write_at t.txb 0 (to_le 4 period))
    put (record t { txb = txb; tl = 4 })
    bump 11

-- `greeting` stands for sprintf: the octets of the reply with this vector length, which a 0 that is
-- not counted ends.
module _ {D : Type 0} (api : Driver D) (greeting : ℕ → List ℕ) where
  -- "getinfo:".
  unfoldable pub get_info : Eff (Conn D) (Unit {0})
  get_info = do
    fill 8
    _ ← drive api.query
    s ← get
    let text = greeting s.max_vec_len
    txb ← access (write_at s.txb 0 (text ++ (0 ∷ [])))
    put (record s { txb = txb; tl = length text })
    bump 8

  -- The body of the inner loop of `run`: one command.
  unfoldable pub command : Eff (Conn D) (Unit {0})
  command = do
    fill 2
    s ← get
    word ← access (read_at s.rxb s.rp 2)
    if of_le word == 0x6567
        then get_info
        else if of_le word == 0x6573
        then set_tck api
        else if of_le word == 0x6873
        then shift api
        else throw proto_err
    flush

  -- The inner loop, which runs once at least; each command takes 8 octets at least from `rl_`.
  unfoldable pub commands : ℕ → Eff (Conn D) (Unit {0})
  commands zero = throw hang
  commands (suc n) = do command; s ← get; if s.rl == 0 then pure tt else commands n

  -- The body of the outer loop.
  unfoldable pub round : Eff (Conn D) (Unit {0})
  round = do
    s ← get
    bs ← read s.chunk
    t ← get
    rxb ← access (write_at t.rxb t.rp bs)
    put (record t { rxb = rxb; rl = length bs })
    commands (length bs)

  -- `run`, for `n` rounds at most; `no_delay` is whether setsockopt succeeds.
  unfoldable pub rounds : ℕ → Eff (Conn D) (Unit {0})
  rounds zero = throw hang
  rounds (suc n) = do round; rounds n

  unfoldable pub run : Bool → ℕ → Eff (Conn D) (Unit {0})
  run no_delay n = do alloc_bufs api; guard no_delay sys_err; rounds n
