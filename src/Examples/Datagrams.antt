-- ===== src/Examples/Datagrams.antt =====
-- Runs of xvcSrv/src/xvcDrvUdp.cc.
use xvc_support.Base.{
  ℕ, ◌+◌, ◌*◌, ◌≤◌, ◌≡◌, ◌++◌, refl, Bool, true, Option, some, List, length, [], ◌∷◌, replicate, ok,
  arith, read_at, write_at,
}
use xvc_support.Header.{get_xid, get_err, get_cmd}
use xvc_support.Header.Memory.{getw32, word_of}
use xvc_support.Driver.{RxBuf, Reply, Drv, new_driver, xfer_rel}
use xvc_support.Udp.{timed_out, datagram, Socket, receive, xfer, max_vector_size}
use xvc_support.Udp.Start.{
  letter_m, udp_options, at_colon, host_and_port, mtu_limit, settled, resolved, udp_start,
  udp_start-fits,
}
use xvc_support.Udp.Loss.{xfer_rel_over_loss}

abbrev request : List ℕ
request = 0 ∷ 0 ∷ 0x50 ∷ 0x10 ∷ []

abbrev reply_header : List ℕ
reply_header = 3 ∷ 0 ∷ 0x50 ∷ 0x10 ∷ []

abbrev lossy : Drv Socket
lossy = new_driver 0 5 request (record {
  events = timed_out ∷ timed_out ∷ datagram (reply_header ++ (9 ∷ [])) ∷ [];
  written = [];
})

abbrev one_octet : RxBuf
one_octet = record { block = 0 ∷ []; size = 1 }

abbrev nine : Reply
nine = record { hd = reply_header; rx = 9 ∷ []; got = 1 }

xfer_rel_over_loss_example : xfer_rel true xfer 4 one_octet lossy ≡ (
  ok (0x10500003, nine),
  record lossy {
    io = record { events = []; written = ([] ++ replicate 2 request) ++ (request ∷ []) };
    hd_buf = reply_header ++ replicate 12 0;
  },
)
unfolding new_driver read_at write_at getw32 word_of receive get_err get_xid get_cmd
xfer_rel_over_loss_example =
    xfer_rel_over_loss true 4 one_octet lossy 2 0x10500000 0x10500003 request
      (reply_header ++ (9 ∷ [])) (reply_header ++ replicate 12 0) nine [] refl refl refl
      (omega arith) refl refl refl refl refl

-- The host "fpga" and the port "99".
abbrev fpga : List ℕ
fpga = 102 ∷ 112 ∷ 103 ∷ 97 ∷ []

abbrev port_99 : List ℕ
port_99 = 57 ∷ 57 ∷ []

-- A name server that finds every host, by the length of its name, on a network of 1500 octets.
abbrev lookup : List ℕ → List ℕ → Option ℕ
lookup host port = some (length host)

abbrev works : ℕ → Bool
works a = true

abbrev ethernet : ℕ → Option ℕ
ethernet a = some 1500

started :
    udp_start lookup works works ethernet (letter_m (some 9000) ∷ []) (fpga ++ (58 ∷ port_99))
    ≡ ok (record { mtu_ = 1500; dont_fragment = true })
unfolding udp_start resolved settled mtu_limit host_and_port at_colon udp_options
started = refl

udp_start-fits_example : 4 + 2 * 748 ≤ 1500
udp_start-fits_example =
    udp_start-fits lookup works works ethernet (letter_m (some 9000) ∷ []) fpga port_99 4 1500 4 748
      (record { mtu_ = 1500; dont_fragment = true })
      (omega arith, (omega arith, (omega arith, (omega arith, tt)))) (omega arith) refl refl
      (omega arith) started (omega arith) (omega arith) (unfold max_vector_size in omega arith)
