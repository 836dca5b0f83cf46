-- ===== src/Examples/Codec.antt =====
-- Headers of xvcSrv/src/xvcSrv.cc.
use xvc_support.Base.{ℕ, ◌+◌, ◌%◌, ◌≡◌, ◌≢◌, List, [], ◌∷◌, length, true, false, some, ok, arith}
use xvc_support.Header.{
  get_vrs, get_cmd, get_xid, get_len, new_xid, mk_shift, mk_query_reply, word_size, mem_depth,
  enc_per_ns, pver0, cmd_s, cmd_q,
}
use xvc_support.Header.Memory.{getw32, setw32}
use xvc_support.Header.RoundTrip.{fields-mk_shift, query-mk_query_reply}
use xvc_support.Header.Xids.{xid_after, xid_after-distinct}
use xvc_support.Header.Wire.{getw32-setw32}

fields-mk_shift_example :
    let h = (mk_shift 255 1000).0 in
    (get_vrs h ≡ pver0) × (get_cmd h ≡ cmd_s) × (get_xid h ≡ new_xid 255) × (get_len h ≡ ok 1000)
fields-mk_shift_example = fields-mk_shift 255 1000 (omega arith) (omega arith)

-- Stands for the logarithm.
abbrev some_code : ℕ → ℕ
some_code n = n + 7

query-mk_query_reply_example :
    (h : ℕ) × (mk_query_reply some_code pver0 8 100 80 ≡ ok h)
    × (get_cmd h ≡ cmd_q)
    × (get_xid h ≡ enc_per_ns some_code 80 % 256)
    × (word_size h ≡ 8)
    × (mem_depth h ≡ 100)
query-mk_query_reply_example =
    query-mk_query_reply some_code 8 100 80 (omega arith) (omega arith) (omega arith) (omega arith)

xid_after-distinct_example : (xid_after 100 200 ≢ 200) × (xid_after 255 200 ≡ 200)
xid_after-distinct_example =
    xid_after-distinct 100 200 (omega arith) (omega arith) (omega arith) (omega arith)

abbrev block : List ℕ
block = 1 ∷ 2 ∷ 3 ∷ 4 ∷ 5 ∷ 6 ∷ []

getw32-setw32_example :
    (mem : List ℕ) × (setw32 false block 1 0x10200304 4 ≡ some mem)
    × (length mem ≡ length block)
    × (getw32 true mem 1 ≡ some 0x10200304)
getw32-setw32_example = getw32-setw32 false true block 1 0x10200304 (omega arith) (omega arith)
