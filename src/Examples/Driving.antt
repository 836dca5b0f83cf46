-- ===== src/Examples/Driving.antt =====
-- Runs of the driver of xvcSrv/src/xvcSrv.cc over a transport that loses some messages.
use xvc_support.Base.{
  read_at, write_at, ℕ, zero, suc, ◌*◌, ◌≡◌, refl, ◌⊎◌, true, some, List, [], ◌∷◌, take, drop,
  replicate, ok, err, timeout_err, fault, arith, length-replicate, Result,
}
use xvc_support.Header.{
  get_cmd, get_xid, word_size, mem_depth, cvt_per_ns, mk_query, get_err, xid_any,
}
use xvc_support.Header.Memory.{word_bytes, word_of, getw32, setw32, set_hdr}
use xvc_support.Driver.{
  null_buf, RxBuf, Reply, Xfer, Drv, new_driver, attempt, attempts, xfer_rel, adopt, query,
  send_vectors,
}
use xvc_support.Driver.Attempts.{Lost, here, timeout, mismatch}
use xvc_support.Driver.Retry.{xfer_rel_recovers, xfer_rel_gives_up, xfer_rel_sound}
use xvc_support.Driver.Ready.{IsReady, new_driver-IsReady, query-IsReady}
use xvc_support.Driver.Overflow.{send_vectors_overrun}
use xvc_support.Driver.Pack.Layout.{Layout, pack-Layout}

-- Loses as many messages as its state says, then returns each header and no octet.
unfoldable flaky : Xfer ℕ
flaky tx hsize rxb (suc n) = (err timeout_err, n)
flaky tx hsize rxb zero = (ok (record { hd = take 4 tx; rx = rxb.block; got = 0 }), zero)

-- A driver with a shift header of id 5 in a small buffer.
abbrev small : ℕ → Drv ℕ
small n = record (new_driver 0 5 (0 ∷ 0 ∷ 0x50 ∷ 0x10 ∷ []) n) { hd_buf = replicate 16 0 }

abbrev answered : Drv ℕ
answered = record (small 0) { hd_buf = 0 ∷ 0 ∷ 0x50 ∷ 0x10 ∷ replicate 12 0 }

abbrev head : ℕ
head = 0x10500000

small_header : (n : ℕ) → getw32 true (small n).tx_buf 0 ≡ some head
unfolding new_driver getw32 read_at word_of
small_header n = refl

small_lost :
    (n : ℕ)
    → attempt true flaky (get_xid head) 4 null_buf (small (suc n)) ≡ (err timeout_err, small n)
unfolding new_driver attempt flaky read_at
small_lost n = refl

-- Replies first to the transaction before and stores three octets, then loses a message, then
-- returns the header and one octet.
unfoldable confused : Xfer ℕ
confused tx hsize rxb zero =
    (ok (record { hd = take 4 tx; rx = 7 ∷ drop 1 rxb.block; got = 1 }), zero)
confused tx hsize rxb (suc zero) = (err timeout_err, 0)
confused tx hsize rxb (suc (suc n)) =
    (ok (record { hd = 0 ∷ 0 ∷ 0x40 ∷ 0x10 ∷ []; rx = 9 ∷ 9 ∷ 9 ∷ []; got = 3 }), 1)

abbrev three : List ℕ → RxBuf
three bs = record { block = bs; size = 3 }

abbrev stale : Drv ℕ
stale = record (small 1) { hd_buf = 0 ∷ 0 ∷ 0x40 ∷ 0x10 ∷ replicate 12 0 }

abbrev seven : Reply
seven = record { hd = 0 ∷ 0 ∷ 0x50 ∷ 0x10 ∷ []; rx = 7 ∷ 9 ∷ 9 ∷ []; got = 1 }

Lost-both :
    Lost true confused
      (get_xid head)
      4
      2
      (three (0 ∷ 0 ∷ 0 ∷ []))
      (three (9 ∷ 9 ∷ 9 ∷ []))
      (small 2)
      (record stale { io = 0 })
unfolding new_driver attempt confused read_at write_at getw32 get_err get_cmd get_xid word_of
Lost-both = mismatch {t = stale} refl (timeout refl here)

confused-answered :
    attempt true confused (get_xid head) 4 (three (9 ∷ 9 ∷ 9 ∷ [])) (record stale { io = 0 })
    ≡ (ok (some head, seven), answered)
unfolding new_driver attempt confused read_at write_at getw32 get_err get_cmd get_xid word_of
confused-answered = refl

xfer_rel_recovers_example :
    xfer_rel true confused 4 (three (0 ∷ 0 ∷ 0 ∷ [])) (small 2) ≡ (ok (head, seven), answered)
xfer_rel_recovers_example =
    xfer_rel_recovers true confused 4 (three (0 ∷ 0 ∷ 0 ∷ [])) (three (9 ∷ 9 ∷ 9 ∷ [])) (small 2)
      (record stale { io = 0 }) answered head 2 head seven (small_header 2)
      (unfold new_driver in omega arith) Lost-both confused-answered

Lost-six : Lost true flaky (get_xid head) 4 6 null_buf null_buf (small 6) (small 0)
Lost-six = timeout (small_lost 5) (
    timeout (small_lost 4) (
      timeout (small_lost 3)
        (timeout (small_lost 2) (timeout (small_lost 1) (timeout (small_lost 0) here)))))

xfer_rel_gives_up_example : xfer_rel true flaky 4 null_buf (small 6) ≡ (err timeout_err, small 0)
xfer_rel_gives_up_example =
    xfer_rel_gives_up true flaky 4 null_buf null_buf (small 6) (small 0) head (small_header 6)
      (unfold new_driver in Lost-six)

xfer_rel_sound_example :
    (get_err head ≡ 0)
    × ((get_xid head ≡ xid_any) ⊎ (get_xid head ≡ get_xid head))
    × (answered.tx_buf ≡ (small 2).tx_buf)
xfer_rel_sound_example =
    xfer_rel_sound true confused 4 (three (0 ∷ 0 ∷ 0 ∷ [])) (small 2) answered head head seven
      (small_header 2) xfer_rel_recovers_example

-- A driver as it is constructed.
abbrev fresh : Drv ℕ
fresh = new_driver 0 0 (replicate 2048 0) 0

fresh-IsReady : IsReady fresh
fresh-IsReady =
    new_driver-IsReady 0 0 (replicate 2048 0) 0 (length-replicate {0} 2048 (let z : ℕ = 0 in z))

abbrev zeros : List ℕ
zeros = replicate 1024 0

send_vectors_overrun_example : (send_vectors true flaky 8192 zeros zeros zeros fresh).0 ≡ err fault
send_vectors_overrun_example =
    send_vectors_overrun true flaky fresh 8192 zeros zeros zeros
      (unfold new_driver in omega (arith, length-replicate {0} 2048 (let z : ℕ = 0 in z)))

-- A target with words of 4 octets and a memory for 3 of them.
unfoldable modest : Xfer ℕ
modest tx hsize rxb n =
    (ok (record { hd = 0x33 ∷ 0 ∷ 0x10 ∷ 0 ∷ []; rx = rxb.block; got = 0 }), suc n)

abbrev a_period : ℕ → ℕ
a_period code = code * 5

queried : Result ℕ × Drv ℕ
unfolding query
queried = query true modest a_period fresh

queried_lem : query true modest a_period fresh ≡ (ok 12, queried.1)
unfolding queried query new_driver xfer_rel attempts attempt modest read_at write_at getw32 setw32
    set_hdr adopt get_xid get_err get_cmd word_size mem_depth cvt_per_ns mk_query word_bytes word_of
queried_lem = refl

query-IsReady_example : IsReady queried.1 × (12 ≡ queried.1.mem_depth_ * queried.1.word_size_)
query-IsReady_example =
    query-IsReady true modest a_period fresh queried.1 12 fresh-IsReady queried_lem

pack-Layout_example :
    (p : List ℕ) × (q : List ℕ) × (back : List ℕ) × Layout true 4 5 0x10500027
      (1 ∷ 2 ∷ 3 ∷ 4 ∷ 5 ∷ [])
      (6 ∷ 7 ∷ 8 ∷ 9 ∷ 10 ∷ [])
      (replicate 24 0)
      (omega arith)
      (omega arith)
      (omega arith)
      (omega arith)
      (omega arith)
      (omega arith)
      p
      q
      back
pack-Layout_example =
    pack-Layout true 4 5 0x10500027 (1 ∷ 2 ∷ 3 ∷ 4 ∷ 5 ∷ []) (6 ∷ 7 ∷ 8 ∷ 9 ∷ 10 ∷ [])
      (replicate 24 0) (omega arith) (omega arith) (omega arith) (omega arith) (omega arith)
      (omega arith)
