-- ===== src/Tmem/Fifo.antt =====
-- The FIFO of the TMEM target and the set-up of its driver: the constructor, `reset`, `xferFifo`
-- and `xfer` of xvcSrv/src/xvcDrvAxisTmem.cc. The constructor leaves `useSdes_` as it finds it if
-- it detects no serialiser: that value is the argument `junk`.
pub mod Size
use xvc_support.Base.{
  ℕ, zero, suc, ◌+◌, ◌-◌, ◌*◌, ◌/◌, ◌%◌, ◌^◌, bit_and, bit_or, Bool, true, false, List, [], ◌∷◌,
  ◌++◌, ◌==◌, not, ◌||◌, ◌&&◌, if◌then◌else◌, u32, sub32, length, replicate, read_at, runtime_error,
  fault, Result, ok, err, Eff, pure, throw, guard, after, ◌>>=◌, ◌>>◌, access, lift,
}
use xvc_support.Header.Memory.{word_bytes, word_of, bswap32}
use xvc_support.Driver.{RxBuf, Reply, Xfer}
use xvc_support.Mmio.{Device, i32, o32, poll}
use xvc_support.Fifo.{Link, on_dev, drop_some, receive_words}
use xvc_support.Tmem.{
  sdes_csr_idx, sdes_csr_lrmsk, sdes_csr_bbmsk, sdes_csr_bb_tck, sdes_csr_bb_tms, sdes_csr_bb_tdi,
  sdes_csr_bb_ena, clear_bits, xfer32sdes, xfer_sdes,
}

abbrev pub fifo_dat_idx : ℕ
fifo_dat_idx = 0

abbrev pub fifo_magic_idx : ℕ
fifo_magic_idx = 1

abbrev pub fifo_csr_idx : ℕ
fifo_csr_idx = 2

abbrev pub fifo_csr_rst : ℕ
fifo_csr_rst = 0x800000

abbrev pub fifo_csr_eofo : ℕ
fifo_csr_eofo = 0x10000

abbrev pub fifo_csr_empi : ℕ
fifo_csr_empi = 0x20000

abbrev pub fifo_csr_ieni : ℕ
fifo_csr_ieni = 0x80000

abbrev pub fifo_csr_nwrdm : ℕ
fifo_csr_nwrdm = 0xffff

abbrev pub fifo_csr_maxwm : ℕ
fifo_csr_maxwm = 0x0f000000

abbrev pub fifo_csr_versm : ℕ
fifo_csr_versm = 0xf0000000

abbrev pub magic : ℕ
magic = 0x6666aaaa

abbrev pub sdes_probeval : ℕ
sdes_probeval = 0xa

-- The registers lie at `toscaBase_`, four octets each.
unfoldable pub at_base : {D : Type 0} → ℕ → Device D → Device D
at_base base bus = record {
  rd = λ idx d. bus.rd (base + idx * 4) d;
  wr = λ idx v d. bus.wr (base + idx * 4) v d;
}

-- The fields that the constructor sets.
pub record Setup : Type 0 where
  pub bit_bang : Bool
  pub log_bscn : Bool
  pub use_sdes : Bool
  pub irq : Bool
  pub version : ℕ
  pub max_vec : ℕ

-- What getopt returns: -b, -l, -i with whether its file can be opened, or another letter.
pub data Letter : Type 0 where
  letter_b letter_l other_letter : Letter
  letter_i : Bool → Letter

-- The options: `bitBang_`, `logBscn_`, and the interrupt.
unfoldable pub tmem_options : List Letter → Bool × (Bool × Bool) → Result (Bool × (Bool × Bool))
tmem_options [] o = ok o
tmem_options (letter_b ∷ ls) (bb, (log, irq)) = tmem_options ls (true, (log, irq))
tmem_options (letter_l ∷ ls) (bb, (log, irq)) = tmem_options ls (bb, (true, irq))
tmem_options (letter_i opens ∷ ls) (bb, (log, irq)) = tmem_options ls (bb, (log, opens))
tmem_options (other_letter ∷ ls) o = err runtime_error

-- On `unsigned long` (64 bits).
unfoldable pub tmem_max_vec : ℕ → ℕ
tmem_max_vec csr_val =
    let max_words = bit_and csr_val fifo_csr_maxwm / 2 ^ 24 * 2 ^ 10 / 4 in
    (max_words + 2 ^ 64 - 1) % 2 ^ 64 * 4 % 2 ^ 64 / 2

module _ {D : Type 0} (dev : Device D) (wait : Eff D (Unit {0})) (patience : ℕ) where
  -- The test for the serialiser.
  unfoldable pub probe_sdes : Bool → Eff D Bool
  probe_sdes junk = do
    v ← i32 dev sdes_csr_idx
    o32 dev sdes_csr_idx (bit_or (clear_bits v sdes_csr_lrmsk) sdes_probeval)
    w ← i32 dev sdes_csr_idx
    pure (if bit_and w sdes_csr_lrmsk == sdes_probeval then true else junk)

  -- `reset`. Its `csr` is set in version 1 only.
  unfoldable pub tmem_reset : Setup → Eff D (Unit {0})
  tmem_reset s = do
    (if s.use_sdes then pure tt else (do
      o32 dev fifo_csr_idx fifo_csr_rst
      o32 dev fifo_csr_idx 0
      if s.irq then o32 dev fifo_csr_idx fifo_csr_ieni else pure tt))
    if s.version == 1
        then (do
          v ← i32 dev sdes_csr_idx
          let csr =
              clear_bits
                (clear_bits
                  (clear_bits (bit_or (clear_bits v sdes_csr_bbmsk) sdes_csr_bb_tms)
                    sdes_csr_bb_tdi)
                  sdes_csr_bb_tck)
                sdes_csr_bb_ena
          o32 dev sdes_csr_idx csr
          (if s.use_sdes
              then (do _ ← xfer32sdes dev wait patience 0xff 0x00 8; pure tt)
              else pure tt)
          if s.bit_bang then o32 dev sdes_csr_idx (bit_or csr sdes_csr_bb_ena) else pure tt)
        else (if s.bit_bang then throw fault else pure tt)

  -- The part of the constructor after the version is known: version 0 has no bit-banging, and
  -- neither raw interface uses interrupts.
  unfoldable pub choose : ℕ → ℕ → Bool → Bool × (Bool × Bool) → Eff D Setup
  choose csr_val version junk (bb, (log, irq)) =
      if version == 0
      then pure (record {
        bit_bang = false;
        log_bscn = false;
        use_sdes = junk;
        irq = if junk then false else irq;
        version = 0;
        max_vec = tmem_max_vec csr_val;
      })
      else (if version == 1
          then (do
            sdes ← probe_sdes junk
            pure (record {
              bit_bang = bb || log;
              log_bscn = log;
              use_sdes = sdes;
              irq = if bb || (log || sdes) then false else irq;
              version = 1;
              max_vec = tmem_max_vec csr_val;
            }))
          else throw runtime_error)

  unfoldable pub new_tmem : List Letter → Bool → Eff D Setup
  new_tmem letters junk = do
    m ← i32 dev fifo_magic_idx
    guard (magic == m) runtime_error
    opts ← lift (tmem_options letters (false, (false, false)))
    csr_val ← i32 dev fifo_csr_idx
    s ← choose csr_val (bit_and csr_val fifo_csr_versm / 2 ^ 28) junk opts
    tmem_reset s
    pure s

  -- The loop that sends whole words, with `n` left.
  unfoldable pub push_words : Bool → ℕ → ℕ → List ℕ → Eff D (Unit {0})
  push_words le zero i tx = pure tt
  push_words le (suc n) i tx = do
    bs ← access (read_at tx i 4)
    o32 dev fifo_dat_idx (bswap32 (word_of le bs))
    push_words le n (i + 4) tx

  -- What precedes the reply: `got`.
  unfoldable pub tmem_send : Bool → List ℕ → Eff D ℕ
  tmem_send le tx = do
    let tx_bytes = length tx
    let tx_words = u32 (tx_bytes + 3) / 4
    let last_bytes = sub32 tx_bytes (u32 (4 * sub32 tx_words 1))
    let whole = if last_bytes == 0 then tx_words else sub32 tx_words 1
    push_words le whole 0 tx
    (if last_bytes == 0 then pure tt else (do
      bs ← access (read_at tx (4 * whole) last_bytes)
      o32 dev fifo_dat_idx (bswap32 (word_of le (bs ++ replicate (4 - last_bytes) 0)))))
    v ← i32 dev fifo_csr_idx
    o32 dev fifo_csr_idx (bit_or v fifo_csr_eofo)
    csr ← poll (i32 dev fifo_csr_idx) (λ x. bit_and x fifo_csr_empi == 0) wait patience
    pure (bit_and csr fifo_csr_nwrdm * 4)

  unfoldable pub xfer_fifo : Bool → Xfer (Link D)
  xfer_fifo le tx hsize rxb = do
    guard (hsize % 4 == 0) runtime_error
    got ← on_dev (tmem_send le tx)
    r ← on_dev (receive_words (i32 dev fifo_dat_idx) (λ w. word_bytes le (bswap32 w)) hsize got rxb)
    drop_some r

  unfoldable pub tmem_xfer : Setup → Bool → (ℕ → ℕ) → Xfer (Link D)
  tmem_xfer s le log_code tx hsize rxb =
      if s.bit_bang || s.use_sdes
      then on_dev (xfer_sdes dev s.bit_bang s.log_bscn wait patience le log_code tx hsize rxb)
      else xfer_fifo le tx hsize rxb
