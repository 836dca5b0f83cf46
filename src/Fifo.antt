-- ===== src/Fifo.antt =====
-- What the drivers of a stream FIFO have in common: `xfer` of xvcSrv/src/xvcDrvAxisFifo.cc and
-- `xferFifo` of xvcDrvAxisTmem.cc from the header of the reply on. `pop` reads the data register,
-- and `octets` has the four octets that are stored for a word.
pub mod Receive
use xvc_support.Base.{
  ℕ, zero, suc, ◌+◌, ◌-◌, ◌*◌, ◌/◌, Bool, true, false, List, [], ◌++◌, ◌==◌, not, ◌&&◌, ltb,
  if◌then◌else◌, take, u32, bit_and, write_at, proto_err, timeout_err, hang, Result, ok, err, Eff,
  pure, throw, guard, after, ◌>>=◌, ◌>>◌, get, put, access,
}
use xvc_support.Driver.{RxBuf, Reply}

-- The device, and the fields of `JtagDriver` for the test mode that drops replies.
pub record Link (D : Type 0) : Type 0 where
  pub dev : D
  pub dr_en : Bool
  pub dropped : ℕ

-- `setTestMode`.
unfoldable pub set_test_mode : {D : Type 0} → ℕ → Link D → Link D
set_test_mode flags s = record s { dr_en = not (bit_and flags 1 == 0) }

abbrev pub on_dev : {D A : Type 0} → Eff D A → Eff (Link D) A
on_dev act s = let r = act s.dev in (r.0, record s { dev = r.1 })

-- The end of `xfer`: in test mode every 256th reply is dropped.
unfoldable pub drop_some : {D : Type 0} → Reply → Eff (Link D) Reply
drop_some r s =
    if s.dr_en
    then (let n = u32 (s.dropped + 1) in
        (if bit_and n 0xff == 0 then err timeout_err else ok r, record s { dropped = n }))
    else (ok r, s)

module _ {S : Type 0} (pop : Eff S ℕ) (octets : ℕ → List ℕ) where
  -- The loop over the header, with `n` words left: its octets, and how many of `got` follow.
  unfoldable pub pop_header : ℕ → ℕ → Eff S (List ℕ × ℕ)
  pop_header zero got = pure ([], got)
  pop_header (suc n) got = do
    w ← pop
    guard (not (ltb got 4)) proto_err
    (hd, left) ← pop_header n (got - 4)
    pure (octets w ++ hd, left)

  -- The loop over the whole words of the body.
  unfoldable pub pop_words : ℕ → ℕ → List ℕ → Eff S (List ℕ)
  pop_words zero i rx = pure rx
  pop_words (suc n) i rx = do
    w ← pop
    rx' ← access (write_at rx i (octets w))
    pop_words n (i + 4) rx'

  -- The octets that do not make a word: the block, and the position behind that word.
  unfoldable pub pop_rest : ℕ → ℕ → List ℕ → Eff S (List ℕ × ℕ)
  pop_rest rem i rx =
      if rem == 0
      then pure (rx, i)
      else (do w ← pop; rx' ← access (write_at rx i (take rem (octets w))); pure (rx', i + 4))

  -- `while ( i < got )`, with `n` rounds left.
  unfoldable pub discard : ℕ → ℕ → ℕ → Eff S (Unit {0})
  discard zero i got = if ltb i got then throw hang else pure tt
  discard (suc n) i got = if ltb i got then (do _ ← pop; discard n (i + 4) got) else pure tt

  unfoldable pub receive_body : List ℕ → ℕ → RxBuf → Eff S Reply
  receive_body hd left rxb = do
    let m = if ltb rxb.size left then rxb.size else left
    rx ← pop_words (m / 4) 0 rxb.block
    (rx', i) ← pop_rest (m - 4 * (m / 4)) (4 * (m / 4)) rx
    discard left i left
    pure (record { hd = hd; rx = rx'; got = m })

  -- From `got` on.
  unfoldable pub receive_words : ℕ → ℕ → RxBuf → Eff S Reply
  receive_words hsize got rxb = do
    guard (not (0 == got)) proto_err
    (hd, left) ← pop_header (hsize / 4) got
    receive_body hd left rxb
