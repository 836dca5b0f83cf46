-- ===== src/Server/Clients.antt =====
-- `XvcServer::run` of xvcSrv/src/xvcSrv.cc with `XvcConn` (xvcConn.cc) behind it: the clients come
-- one after the other, and the driver is the same for all of them. The listening socket is the
-- list of the clients that are to come, each with the segments that it sends
-- and with what the writes to it return.
pub mod Refused
use xvc_support.Base.{
  ℕ, ◌+◌, ◌≤◌, ◌<◌, ◌≡◌, refl, ap, sym, ◌∙◌, inr, Bool, true, false, List, [], ◌∷◌, ◌++◌, length,
  ok, err, sys_err, Eff, append_assoc, append-nil,
}
use xvc_support.Conn.{Driver, Conn, run}
use xvc_support.Conn.Session.{IsClient, Request, answers, Serves}
use xvc_support.Conn.Session.Run.{run-session}
use xvc_support.Server.{server_run}
use xvc_support.Server.Loop.{Served, one_more, none_yet, server_run-Served}

-- The constructor of `XvcConn`, where `accept` succeeds.
unfoldable pub new_conn : {D : Type 0} → D → ℕ → List (List ℕ) → List ℕ → Conn D
new_conn drv max_vec_len net puts = record {
  drv = drv;
  rxb = [];
  rp = 0;
  rl = 0;
  tl = 0;
  txb = [];
  max_vec_len = max_vec_len;
  sup_vec_len = 0;
  chunk = 0;
  net = net;
  sent = [];
  puts = puts;
}

-- The server with the connection that it serves; `replies` is what each client has been sent.
pub record Serving (D : Type 0) : Type 0 where
  pub drv_ : D
  pub max_msg_size : ℕ
  pub conn : Conn D
  pub waiting : List (List (List ℕ) × List ℕ)
  pub replies : List (List ℕ)

module _ {D : Type 0} (api : Driver D) (greeting : ℕ → List ℕ) where
  -- `XvcConn conn( sock_.getSd(), drv_, maxMsgSize_ )`.
  unfoldable pub next_conn : Eff (Serving D) (Unit {0})
  next_conn s = elim s.waiting [
    | [] ↦ (err sys_err, s)
    | (net, puts) ∷ nets ↦
        (ok tt, record s { conn = new_conn s.drv_ s.max_msg_size net puts; waiting = nets })
  ]

  -- `conn.run()`, with `n` rounds at most; `no_delay` is whether setsockopt succeeds.
  unfoldable pub run_conn : Bool → ℕ → Eff (Serving D) (Unit {0})
  run_conn no_delay n s =
      let (r, c) = run api greeting no_delay n s.conn in
      (r, record s { conn = c; drv_ = c.drv; replies = s.replies ++ (c.sent ∷ []) })

module _ {D : Type 0} (api : Driver D) (greeting : ℕ → List ℕ) where
  pub next_conn_lem :
      (s : Serving D) (m : ℕ) (net : List (List ℕ)) (puts : List ℕ)
      (nets : List (List (List ℕ) × List ℕ))
      → s.waiting ≡ (net, puts) ∷ nets
      → s.max_msg_size ≡ m
      → next_conn api greeting s
        ≡ (ok tt, record s { conn = new_conn s.drv_ m net puts; waiting = nets })
  unfolding next_conn
  next_conn_lem s m net puts nets w e = rw (w, e) refl

pub data Clients (m n : ℕ) : List (List Request) → List (List (List ℕ) × List ℕ) → Type 0 where
  no_client : Clients m n [] []
  a_client :
      {rs : List Request} {net : List (List ℕ)} {puts : List ℕ} {rss : List (List Request)}
      {nets : List (List (List ℕ) × List ℕ)}
      → IsClient m n rs net puts
      → Clients m n rss nets
      → Clients m n (rs ∷ rss) ((net, puts) ∷ nets)

module _ {J : Type 0} (clock : ℕ → ℕ → J → Bool × J) (greeting : List ℕ) (period : ℕ → ℕ) where
  -- The replies to each client, and the target after the last.
  abbrev pub all_answers : List (List Request) → J → List (List ℕ) × J
  all_answers [] j = ([], j)
  all_answers (rs ∷ rss) j =
      let a = answers clock greeting period rs j in let b = all_answers rss a.1 in (a.0 ∷ b.0, b.1)

module _ {D J : Type 0} (clock : ℕ → ℕ → J → Bool × J) (greeting : ℕ → List ℕ) (period : ℕ → ℕ)
    (limit m n : ℕ) (api : Driver D) (At : D → J → Type 0) (hw : Serves clock period limit m api At)
    (some : 1 ≤ m) (greets : length (greeting m) < m + 128) where
  pub Clients-Served :
      {rss : List (List Request)} {nets : List (List (List ℕ) × List ℕ)}
      (later : List (List (List ℕ) × List ℕ)) (s : Serving D) (j : J)
      → Clients m n rss nets
      → s.max_msg_size ≡ m
      → s.waiting ≡ nets ++ later
      → At s.drv_ j
      → let a = all_answers clock (greeting m) period rss j in
        (t : Serving D) × Served
          (next_conn api greeting)
          (run_conn api greeting true n)
          (length rss)
          s
          t
        × (t.replies ≡ s.replies ++ a.0)
        × (t.waiting ≡ later)
        × (t.max_msg_size ≡ m)
        × At t.drv_ a.1
  unfolding run_conn new_conn
  Clients-Served later s j no_client e w at_j =
      (s, none_yet, sym (append-nil s.replies), w, e, at_j)
  Clients-Served later s j
        (a_client {rs = rs} {net = net} {puts = puts} {rss = rss} {nets = nets} c cs) e w at_j =
      let s1 : Serving D = record s {
        conn = new_conn s.drv_ m net puts;
        waiting = nets ++ later;
      } in
      let (c1, f, out, at1) =
        run-session clock greeting period limit api At s1.conn j rs n hw some greets at_j c.proper
          c.bytes c.is_open c.writable c.sends c.many in
      let s2 : Serving D = record s1 {
        conn = c1;
        drv_ = c1.drv;
        replies = s.replies ++ (c1.sent ∷ []);
      } in
      let b =
        all_answers clock (greeting m) period rss (answers clock (greeting m) period rs j).1 in
      let (t, more, replies, empty, same, at2) = Clients-Served later s2 _ cs e refl at1 in
      (
        t,
        one_more {s1 = s1} {s2 = s2} (next_conn_lem api greeting s m net puts (nets ++ later) w e)
            (inr (rw f refl)) more,
        replies ∙ append_assoc s.replies (c1.sent ∷ []) b.0 ∙ ap (λ x. s.replies ++ (x ∷ b.0)) out,
        empty,
        same,
        at2,
      )

-- `XvcServer::run` over any number of clients that come one after the other, each with its
-- requests in segments of whatever size: every client is sent the replies of the protocol to its
-- requests, the target goes on for each client from where the one before left it, and the server
-- then waits for the next one, with the rounds that are left. The driver does to the target what
-- the bits of vectors of `limit` octets do, which the agreed size does not exceed, the largest
-- vector of the server is not 0, the greeting with its final 0 fits the send block, and the rounds
-- of each connection are more than its requests; setsockopt (TCP_NODELAY) succeeds and no write
-- fails, each taking as much as it will.
pub server_run-Clients :
    {D J : Type 0} (clock : ℕ → ℕ → J → Bool × J) (greeting : ℕ → List ℕ) (period : ℕ → ℕ)
    (limit n k : ℕ) (api : Driver D) (At : D → J → Type 0) (s : Serving D) (j : J)
    (rss : List (List Request))
    → Serves clock period limit s.max_msg_size api At
    → 1 ≤ s.max_msg_size
    → length (greeting s.max_msg_size) < s.max_msg_size + 128
    → At s.drv_ j
    → Clients s.max_msg_size n rss s.waiting
    → let serve = server_run (next_conn api greeting) (run_conn api greeting true n) false in
      let a = all_answers clock (greeting s.max_msg_size) period rss j in
      (t : Serving D) × (serve (length rss + k) s ≡ serve k t)
      × (t.replies ≡ s.replies ++ a.0)
      × (t.waiting ≡ [])
      × At t.drv_ a.1
server_run-Clients clock greeting period limit n k api At s j rss hw some greets at_j cs =
    let (t, served, replies, empty, _, at2) =
      Clients-Served clock greeting period limit s.max_msg_size n api At hw some greets [] s j cs
        refl (sym (append-nil s.waiting)) at_j in
    (
      t,
      server_run-Served (next_conn api greeting) (run_conn api greeting true n) served k,
      replies,
      empty,
      at2,
    )
