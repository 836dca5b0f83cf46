-- ===== src/Server/Clients/Refused.antt =====
-- A client that ends the server (xvcSrv/src/xvcSrv.cc).
use xvc_support.Base.{
  ℕ, suc, ◌+◌, ◌≤◌, ◌<◌, ◌≡◌, refl, ap, ◌∙◌, Bool, true, false, List, [], ◌∷◌, ◌++◌, length, err,
  proto_err, sys_err, All, IsBytes, append_assoc,
}
use xvc_support.Conn.{Driver}
use xvc_support.Conn.Fill.{stream, IsOpen}
use xvc_support.Conn.Flush.{IsWritable}
use xvc_support.Conn.Session.{Request, Serves}
use xvc_support.Conn.Session.Refused.{IsUnknown, run-refused}
use xvc_support.Server.{server_run}
use xvc_support.Server.Loop.{server_run_ends}
use xvc_support.Server.Clients.{
  Serving, new_conn, next_conn, run_conn, Clients, all_answers, Clients-Served, next_conn_lem,
}

other_error : proto_err ≡ sys_err → ⊥
other_error e = cc

-- A client that begins with two octets of no command gets nothing and ends the server by
-- `ProtoErr`, also where it would go on to serve others, which keep waiting: those who came before
-- it have been sent their replies, and the target is left as after their requests. The driver does
-- to the target what the bits of vectors of `limit` octets do, which the agreed size does not
-- exceed, the largest vector of the server is not 0, the greeting with its final 0 fits the send
-- block, and the rounds of each connection are more than its requests; setsockopt (TCP_NODELAY)
-- succeeds and no write fails, each taking as much as it will.
pub server_run-refused :
    {D J : Type 0} (clock : ℕ → ℕ → J → Bool × J) (greeting : ℕ → List ℕ) (period : ℕ → ℕ)
    (limit n k : ℕ) (api : Driver D) (At : D → J → Type 0) (s : Serving D) (j : J)
    (rss : List (List Request)) (nets later : List (List (List ℕ) × List ℕ)) (bad : List (List ℕ))
    (puts : List ℕ)
    → Serves clock period limit s.max_msg_size api At
    → 1 ≤ s.max_msg_size
    → length (greeting s.max_msg_size) < s.max_msg_size + 128
    → At s.drv_ j
    → s.waiting ≡ nets ++ ((bad, puts) ∷ later)
    → Clients s.max_msg_size (suc n) rss nets
    → All IsBytes bad
    → IsOpen bad
    → IsWritable puts
    → IsUnknown (stream bad)
    → let serve = server_run (next_conn api greeting) (run_conn api greeting true (suc n)) false in
      let a = all_answers clock (greeting s.max_msg_size) period rss j in
      (t : Serving D) × (serve (length rss + suc k) s ≡ (err proto_err, t))
      × (t.replies ≡ s.replies ++ (a.0 ++ ([] ∷ [])))
      × (t.waiting ≡ later)
      × At t.drv_ a.1
unfolding run_conn new_conn
server_run-refused {D = D} clock greeting period limit n k api At s j rss nets later bad puts hw
      some greets at_j w cs bytes open_ writable unknown =
    let m : ℕ = s.max_msg_size in
    let a = all_answers clock (greeting m) period rss j in
    let (t, served, replies, rest, same, at_t) =
      Clients-Served clock greeting period limit m (suc n) api At hw some greets
        ((bad, puts) ∷ later) s j cs refl w at_j in
    let t1 : Serving D = record t { conn = new_conn t.drv_ m bad puts; waiting = later } in
    let (c, f, out, at_c) =
      run-refused clock greeting period limit api At t1.conn a.1 n hw at_t bytes open_ writable
        unknown in
    let u : Serving D = record t1 {
      conn = c;
      drv_ = c.drv;
      replies = t.replies ++ (c.sent ∷ []);
    } in
    (
      u,
      server_run_ends (next_conn api greeting) (run_conn api greeting true (suc n)) (length rss) k s
          t t1 u proto_err served (next_conn_lem api greeting t m bad puts later rest same)
          (rw f refl) other_error,
      ap (λ x. t.replies ++ (x ∷ [])) out
          ∙ ap (λ x. x ++ ([] ∷ [])) replies
          ∙ append_assoc s.replies a.0 ([] ∷ []),
      refl,
      at_c,
    )
