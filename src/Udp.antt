-- ===== src/Udp.antt =====
-- `JtagDriverUdp`, xvcSrv/src/xvcDrvUdp.cc: the transport over datagrams. The socket is the list of
-- what it does, one entry for each call of `xfer`.
pub mod Loss
pub mod Start
use xvc_support.Base.{
  ℕ, ◌+◌, ◌*◌, ◌/◌, ◌%◌, ◌^◌, ◌≤◌, ◌<◌, List, [], ◌∷◌, ◌++◌, length, take, drop, ltb, if◌then◌else◌,
  sub32, sys_err, proto_err, timeout_err, runtime_error, fault, Result, ok, err, some, none,
  write_at, arith,
}
use native.Mathlib.Decide.{ℕ_discrete}
use xvc_support.Base.Rounding.{div_mod, ceil_exact, ceil_over}
use xvc_support.Driver.{RxBuf, Reply, Xfer}
use xvc_support.Driver.Pack.Layout.{rounded}

-- A `write`, `poll` or `readv` that fails, a `poll` that runs out of time, that reports an error or
-- no data, and a datagram.
pub data Event : Type 0 where
  write_failed poll_failed timed_out poll_error no_data readv_failed : Event
  datagram : List ℕ → Event

-- What the socket will do, and the datagrams sent.
pub record Socket : Type 0 where
  pub events : List Event
  pub written : List (List ℕ)

-- What `readv` stores at `rxb`: `size` octets at most, into a block that must hold them.
unfoldable pub receive : List ℕ → ℕ → RxBuf → Result Reply
receive msg hsize rxb =
    let body = take rxb.size (drop hsize msg) in
    elim (write_at rxb.block 0 body) [
      | none ↦ err fault
      | some rx ↦
          if ltb (length msg) hsize
          then err proto_err
          else ok (record { hd = take hsize msg; rx = rx; got = length body })
    ]

unfoldable pub on_event : Event → ℕ → RxBuf → Result Reply
unfolding receive
on_event write_failed hsize rxb = err sys_err
on_event poll_failed hsize rxb = err sys_err
on_event timed_out hsize rxb = err timeout_err
on_event poll_error hsize rxb = err runtime_error
on_event no_data hsize rxb = err runtime_error
on_event readv_failed hsize rxb = err sys_err
on_event (datagram msg) hsize rxb = receive msg hsize rxb

-- What is sent.
abbrev pub put_out : Event → List ℕ → List (List ℕ)
put_out write_failed tx = []
put_out _ tx = tx ∷ []

-- Without another entry nothing comes any more.
unfoldable pub xfer : Xfer Socket
unfolding on_event
xfer tx hsize rxb s = elim s.events [
  | [] ↦ (err timeout_err, record s { written = s.written ++ (tx ∷ []) })
  | e ∷ es ↦ (on_event e hsize rxb, record s { events = es; written = s.written ++ put_out e tx })
]

unfoldable pub max_vector_size : ℕ → ℕ → ℕ
max_vector_size mtu word_size = sub32 mtu word_size / 2

-- For a limit of the datagram of at least one word, the header word and two vectors of a size that
-- `getMaxVectorSize` allows are within the limit; the message, whose vectors are filled up to
-- whole words, exceeds it by less than two words.
pub max_vector_size-fits :
    (mtu ws n : ℕ)
    → 1 ≤ ws
    → ws ≤ mtu
    → mtu < 2 ^ 32
    → n ≤ max_vector_size mtu ws
    → (ws + 2 * n ≤ mtu) × (ws + 2 * rounded n ws < mtu + 2 * ws)
unfolding max_vector_size
max_vector_size-fits mtu ws n lo hi small h =
    let fits : ws + 2 * n ≤ mtu = omega arith in
    elim (ℕ_discrete (n % ws) 0) [
      | yes e ↦ (fits, omega (arith, ceil_exact n ws lo e))
      | no ne ↦ (fits, omega (arith, ceil_over n ws lo ne, div_mod n ws))
    ]
