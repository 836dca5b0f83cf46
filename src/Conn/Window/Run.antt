-- ===== src/Conn/Window/Run.antt =====
-- `run` of xvcSrv/src/xvcConn.cc, with any number of rounds.
use xvc_support.Base.{
  ℕ, zero, suc, ◌+◌, ◌*◌, ◌<◌, ◌≡◌, ◌≢◌, refl, sym, ◌≤◌, inr, Bool, true, false, List, length,
  replicate, length-replicate, Result, ok, err, fault, arith, All, IsBytes, sys_err, proto_err,
  timeout_err, runtime_error, hang,
}
use xvc_support.Conn.{Driver, Conn, alloc_bufs, round, rounds, run, read}
use xvc_support.Conn.Limits.{agreed}
use xvc_support.Conn.Safe.{Safe, Safe-bind, Safe-write, Safe-drive}
use xvc_support.Conn.Window.{IsWindow, with_rxb, with_place}
use xvc_support.Conn.Window.Moves.{IsDone, Got, read-Safe}
use xvc_support.Conn.Window.Pieces.{IsKeeper, Works}
use xvc_support.Conn.Window.Commands.{commands-Safe}

replicate-IsBytes : (n : ℕ) → IsBytes (replicate n 0)
replicate-IsBytes zero = tt
replicate-IsBytes (suc n) = (omega arith, replicate-IsBytes n)

no_fault : {A S : Type 0} (P : A → S → Type 0) (x : Result A × S) → Safe P x → x.0 ≢ err fault
no_fault P (ok a, t) p = λ q. cc
no_fault P (err fault, t) p = elim p [ ]
no_fault P (err sys_err, t) p = λ q. cc
no_fault P (err proto_err, t) p = λ q. cc
no_fault P (err timeout_err, t) p = λ q. cc
no_fault P (err runtime_error, t) p = λ q. cc
no_fault P (err hang, t) p = λ q. cc

-- The blocks that `allocBufs` leaves.
abbrev pub fresh : {D : Type 0} → ℕ → D → ℕ → Conn D → Conn D
fresh m d sup s = record s {
  drv = d;
  sup_vec_len = sup;
  chunk = 2 * m + 128;
  rxb = replicate (2 * (2 * m + 128)) 0;
  txb = replicate (m + 128) 0;
  rp = 0;
  rl = 0;
  tl = 0;
}

pub fresh-IsWindow :
    {D : Type 0} (P : D → ℕ → Type 0) (m sup : ℕ) (d : D) (s : Conn D)
    → s.max_vec_len ≡ m
    → All IsBytes s.net
    → P d sup
    → IsWindow P m 0 0 (fresh s.max_vec_len d sup s)
fresh-IsWindow P m sup d s e bytes k = record {
  chunk_is = omega (arith, e);
  rx_size =
      omega (arith, e, length-replicate {0} (2 * (2 * s.max_vec_len + 128)) (let z : ℕ = 0 in z));
  tx_size = omega (arith, e, length-replicate {0} (s.max_vec_len + 128) (let z : ℕ = 0 in z));
  max_is = e;
  reply_le = omega arith;
  rp_is = refl;
  rl_is = refl;
  rx_bytes = replicate-IsBytes (2 * (2 * s.max_vec_len + 128));
  net_bytes = bytes;
  kept = k;
}

module _ {D : Type 0} (limit m : ℕ) (Inv : D → Type 0) (api : Driver D)
    (keeper : IsKeeper limit m Inv api) where
  alloc_bufs-Safe :
      (s : Conn D)
      → s.max_vec_len ≡ m
      → All IsBytes s.net
      → Inv s.drv
      → Safe (λ _ t. IsWindow (Works limit Inv) m 0 0 t) (alloc_bufs api s)
  unfolding alloc_bufs
  alloc_bufs-Safe s e bytes inv =
      Safe-drive (λ n d. Inv d × (agreed m n (api.get_max_vector_size d) ≤ limit))
        (λ _ t. IsWindow (Works limit Inv) m 0 0 t) api.query s _ (keeper.on_query s.drv inv)
        (λ n d v. fresh-IsWindow (Works limit Inv) m _ d s e bytes (v.0, rw (sym e) at v.1))

  module _ (greeting : ℕ → List ℕ) (fits : length (greeting m) < m + 128) where
    round-Safe :
        (s : Conn D)
        → IsWindow (Works limit Inv) m 0 0 s
        → Safe (λ _ t. IsWindow (Works limit Inv) m 0 0 t) (round api greeting s)
    unfolding round
    round-Safe s w =
        Safe-bind (Got (Works limit Inv) m s.chunk 0 0) (λ _ t. IsWindow (Works limit Inv) m 0 0 t)
          (read s.chunk s) _ (read-Safe (Works limit Inv) m s.net s.chunk 0 0 s refl w)
          (λ bs t g.
            Safe-write (λ _ t. IsWindow (Works limit Inv) m 0 0 t) t t.rxb bs t.rp _
              (omega (arith, g.0, w.chunk_is, g.1.1.rx_size, g.1.1.rp_is))
              (λ mem size bytes. idle (length bs) _ (
                commands-Safe limit m Inv api keeper greeting fits (length bs) _ (record {
                  rp = 0;
                  rl = length bs;
                  window =
                      with_place m (record t { rxb = mem }) t.rp (length bs) 0 (length bs)
                        (with_rxb m t mem g.1.1 size (bytes g.1.1.rx_bytes g.1.0)) g.1.1.rp_is refl;
                  low = omega arith;
                  near = inr (omega (arith, g.0, w.chunk_is));
                }))))
      where
        idle :
            (n : ℕ) (x : Result (Unit {0}) × Conn D)
            → Safe (λ _ t. IsDone (Works limit Inv) m t × (t.rl ≡ 0)) x
            → Safe (λ _ t. IsWindow (Works limit Inv) m 0 0 t) x
        idle n (ok u, t) (d, e) = with_place m t t.rp t.rl 0 0 d.0.window (d.1 e) e
        idle n (err fault, t) p = p
        idle n (err sys_err, t) p = tt
        idle n (err proto_err, t) p = tt
        idle n (err timeout_err, t) p = tt
        idle n (err runtime_error, t) p = tt
        idle n (err hang, t) p = tt

    rounds-Safe :
        (n : ℕ) (s : Conn D)
        → IsWindow (Works limit Inv) m 0 0 s
        → Safe (λ _ t. IsWindow (Works limit Inv) m 0 0 t) (rounds api greeting n s)
    unfolding rounds
    rounds-Safe zero s w = tt
    rounds-Safe (suc n) s w =
        Safe-bind (λ _ t. IsWindow (Works limit Inv) m 0 0 t)
          (λ _ t. IsWindow (Works limit Inv) m 0 0 t) (round api greeting s) _ (round-Safe s w)
          (λ u t v. rounds-Safe n t v)

    run-Safe :
        (no_delay : Bool) (n : ℕ) (s : Conn D)
        → s.max_vec_len ≡ m
        → All IsBytes s.net
        → Inv s.drv
        → Safe (λ _ t. IsWindow (Works limit Inv) m 0 0 t) (run api greeting no_delay n s)
    unfolding run
    run-Safe true n s e bytes inv =
        Safe-bind (λ _ t. IsWindow (Works limit Inv) m 0 0 t)
          (λ _ t. IsWindow (Works limit Inv) m 0 0 t) (alloc_bufs api s) _
          (alloc_bufs-Safe s e bytes inv) (λ u t v. rounds-Safe n t v)
    run-Safe false n s e bytes inv =
        Safe-bind (λ _ t. IsWindow (Works limit Inv) m 0 0 t)
          (λ _ t. IsWindow (Works limit Inv) m 0 0 t) (alloc_bufs api s) _
          (alloc_bufs-Safe s e bytes inv) (λ u t v. tt)

-- Whatever octets a client sends and however they are split into segments, and whatever the writes
-- return, `run` makes no access outside the receive and the transmit block, in any number of
-- rounds. Conditions: the greeting with its final 0 fits the transmit block; the driver makes no
-- access outside the blocks it is given, for vectors of `limit` octets, which the agreed size does
-- not exceed, and for no bits, and it still works after each call that succeeds.
pub run-ne-fault :
    {D : Type 0} (limit : ℕ) (Inv : D → Type 0) (api : Driver D) (greeting : ℕ → List ℕ)
    (no_delay : Bool) (n : ℕ) (s : Conn D)
    → IsKeeper limit s.max_vec_len Inv api
    → Inv s.drv
    → length (greeting s.max_vec_len) < s.max_vec_len + 128
    → All IsBytes s.net
    → (run api greeting no_delay n s).0 ≢ err fault
run-ne-fault limit Inv api greeting no_delay n s keeper inv fits bytes =
    no_fault (λ _ t. IsWindow (Works limit Inv) s.max_vec_len 0 0 t) (run api greeting no_delay n s)
      (run-Safe limit s.max_vec_len Inv api keeper greeting fits no_delay n s refl bytes inv)
