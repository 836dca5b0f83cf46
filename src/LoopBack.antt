-- ===== src/LoopBack.antt =====
-- `JtagDriverLoopBack`, xvcSrv/src/xvcDrvLoopBack.cc: a driver that emulates a target. It returns
-- TDI as TDO, or checks the vectors against a file and plays the file's TDO back. sscanf is the
-- parameter `scan`. The transport's state is the object's own fields (`Loop`). A read behind the
-- octets transmitted counts as a fault.
pub mod Echo
pub mod EndToEnd
pub mod Datagram
pub mod Values
use xvc_support.Base.{
  ℕ, zero, suc, ◌+◌, ◌-◌, ◌*◌, ◌/◌, ◌%◌, ◌^◌, bit_and, bit_or, Bool, true, false, Option, none,
  some, List, [], ◌∷◌, ◌++◌, ◌==◌, not, ◌||◌, ltb, if◌then◌else◌, u8, u32, sub32, length, take,
  drop, read_at, write_at, Error, runtime_error, sys_err, Result, ok, err, Eff, pure, throw, guard,
  after, ◌>>=◌, ◌>>◌, get, put, access, lift,
}
use Prim.Native.String.{String}
use text.Mathlib.Text.{◌==◌ as str_eq}
use xvc_support.Header.{pver0, cmd_q, cmd_s, cmd_e, cmd_mask, len_mask, get_vrs, get_cmd, get_len}
use xvc_support.Header.Memory.{word_bytes}
use xvc_support.Driver.{RxBuf, Reply, Xfer}

-- The formats of `check`.
pub data Format : Type 0 where
  tdi_line tms_line len_line tdo_line : Format

-- `file` has the lines of `f_` as `fgets` returns them (`none` if there is no file), and `left`
-- those that are not read yet.
pub record Loop : Type 0 where
  pub file : Option (List String)
  pub left : List String
  pub skip : Bool
  pub tdo_only : Bool
  pub line : ℕ

abbrev pub no_playback : Loop
no_playback = record { file = none; left = []; skip = true; tdo_only = false; line = 1 }

-- The constructor: `fopen` has the lines of a file that it opens, and `has_tdo_only` stands for
-- strstr. Without a name `f_` is taken as null.
unfoldable pub new_loop :
    (String → Option (List String)) → (String → Bool) → Option String → Result Loop
new_loop fopen has_tdo_only none = ok no_playback
new_loop fopen has_tdo_only (some fnam) =
    if str_eq fnam "" then ok no_playback else elim (fopen fnam) [
      | none ↦ err sys_err
      | some lines ↦ ok (record {
        file = some lines;
        left = lines;
        skip = false;
        tdo_only = has_tdo_only fnam;
        line = 1;
      })
    ]

abbrev pub emul_word_size : ℕ
emul_word_size = 4

abbrev pub emul_mem_depth : ℕ
emul_mem_depth = 0

-- `none` stands for false, else the line is in the caller's buffer.
unfoldable pub rdl : Eff Loop (Option String)
rdl s = if s.skip then (ok none, s) else elim s.left [
  | [] ↦ (ok none, record s { skip = true })
  | l ∷ ls ↦ (ok (some l), record s { left = ls })
]

-- `getValLE` and `setValLE` on the octets themselves.
unfoldable pub get_val_le : List ℕ → ℕ
get_val_le [] = 0
get_val_le (b ∷ bs) = bit_or (get_val_le bs * 2 ^ 8 % 2 ^ 64) b

unfoldable pub set_val_le : ℕ → ℕ → List ℕ
set_val_le val zero = []
set_val_le val (suc wsz) = u8 val ∷ set_val_le (val / 2 ^ 8) wsz

-- `(((((txb[3]<<8)|txb[2])<<8)|txb[1])<<8)|txb[0]`, of fewer than four octets nothing.
unfoldable pub request_header : List ℕ → Option ℕ
request_header (b0 ∷ b1 ∷ b2 ∷ b3 ∷ bs) =
    some (bit_or (u32 (bit_or (u32 (bit_or (u32 (b3 * 2 ^ 8)) b2 * 2 ^ 8)) b1 * 2 ^ 8)) b0)
request_header _ = none

-- The request's header with its command and length replaced by an error.
unfoldable pub refuse : ℕ → ℕ → ℕ
refuse h e = bit_or (bit_and h (sub32 0xffffffff (bit_or cmd_mask len_mask))) (bit_or cmd_e e)

unfoldable pub query_reply : ℕ → ℕ → ℕ → ℕ
query_reply wsz dpt h = bit_or h (bit_or (u32 (bit_and dpt 0xfffff * 2 ^ 4)) (sub32 wsz 1))

unfoldable pub rewind : Loop → Loop
rewind s = elim s.file [ none ↦ s | some ls ↦ record s { left = ls; skip = false } ]

module _ (scan : Format → String → Option ℕ) where
  unfoldable pub check : ℕ → Format → Bool → Eff Loop ℕ
  check val fmt rd_only = rdl >>= elim [
    | none ↦ pure 0
    | some buf ↦ elim (scan fmt buf) [
      | none ↦ throw runtime_error
      | some cmp ↦ (do
        guard (rd_only || cmp == val) runtime_error
        s ← get
        put (record s { line = s.line + 1 })
        pure cmp)
    ]
  ]

  -- `checkTDI`, `checkTMS` and `checkLEN`.
  unfoldable pub check_line : Format → ℕ → Eff Loop (Unit {0})
  check_line fmt val = do
    s ← get
    if s.tdo_only then pure tt else (do _ ← check val fmt false; pure tt)

  abbrev pub get_tdo : Eff Loop ℕ
  get_tdo = check 0 tdo_line true

  -- `emulWordSize()` and `emulMemDepth()`, which are virtual, and `isLE()`.
  module _ (wsz dpt : ℕ) (le : Bool) where
    -- The body of the loop over the words, and of the branch after it: `cnt` octets of TMS and of
    -- TDI at index `i`, and TDI to index `j`.
    unfoldable pub take_word : ℕ → List ℕ → ℕ → ℕ → List ℕ → Eff Loop (List ℕ)
    take_word cnt tx i j rx = do
      tms ← access (read_at tx (wsz + i) cnt)
      check_line tms_line (get_val_le tms)
      tdi ← access (read_at tx (wsz + wsz + i) cnt)
      check_line tdi_line (get_val_le tdi)
      s ← get
      if s.skip then access (write_at rx j tdi) else pure rx

    -- The loop, with `n` words left.
    unfoldable pub take_words : ℕ → List ℕ → ℕ → ℕ → List ℕ → Eff Loop (List ℕ)
    take_words zero tx i j rx = pure rx
    take_words (suc n) tx i j rx = do
      rx' ← take_word wsz tx i j rx
      take_words n tx (i + 2 * wsz) (j + wsz) rx'

    -- The loop that plays TDO back, with `n` rounds left.
    unfoldable pub play : ℕ → ℕ → ℕ → List ℕ → Eff Loop (List ℕ)
    play zero bytes i rx = pure rx
    play (suc n) bytes i rx = do
      tdo ← get_tdo
      rx' ← access (write_at rx i (set_val_le tdo (if ltb 4 (bytes - i) then 4 else bytes - i)))
      play n bytes (i + wsz) rx'

    -- The case CMD_S: the number of octets and the block at `rxb`.
    unfoldable pub shift : ℕ → List ℕ → List ℕ → Eff Loop (ℕ × List ℕ)
    shift h tx rx = do
      bits ← lift (get_len h)
      check_line len_line bits
      let bytes = (bits + 7) / 8
      let n = bytes / wsz
      let rem = bytes - n * wsz
      guard (not (ltb (length tx) (wsz + 2 * bytes))) runtime_error
      rx1 ← take_words n tx 0 0 rx
      rx2 ← (if rem == 0 then pure rx1 else take_word rem tx (n * (2 * wsz)) (n * wsz) rx1)
      s ← get
      rx3 ← (if s.skip then pure rx2 else play ((bytes + wsz - 1) / wsz) bytes 0 rx2)
      pure (bytes, rx3)

    -- From the header on: the reply's header, the result and the block.
    unfoldable pub dispatch : ℕ → List ℕ → List ℕ → Eff Loop (ℕ × (ℕ × List ℕ))
    dispatch h tx rx =
        if not (get_vrs h == pver0)
        then pure (refuse h 2, (0, rx))
        else if get_cmd h == cmd_q
        then (do s ← get; put (rewind s); pure (query_reply wsz dpt h, (0, rx)))
        else if get_cmd h == cmd_s
        then (do r ← shift h tx rx; pure (h, r))
        else pure (refuse h 1, (0, rx))

    -- A datagram without a whole header (`none`) is left unanswered.
    unfoldable pub respond : Option ℕ → List ℕ → RxBuf → Eff Loop Reply
    respond none tx rxb = pure (record { hd = []; rx = rxb.block; got = 0 })
    respond (some h) tx rxb = do
      r ← dispatch h tx rxb.block
      pure (record { hd = word_bytes le r.0; rx = r.1.1; got = r.1.0 })

    unfoldable pub loop_xfer : Xfer Loop
    loop_xfer tx hsize rxb = respond (request_header tx) tx rxb
