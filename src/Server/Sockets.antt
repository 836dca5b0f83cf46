-- ===== src/Server/Sockets.antt =====
-- The sockets of the server: `SockSd` and the constructor of `XvcServer` (xvcSrv/src/xvcSrv.cc),
-- the constructor and the destructor of `XvcConn` and the loop of its `read` that waits for the
-- client (xvcConn.cc). The calls of the system are a parameter.
pub mod Balance
pub mod Waiting
use xvc_support.Base.{
  ℕ, zero, suc, ◌%◌, ◌^◌, Bool, true, false, Option, none, some, sys_err, proto_err, timeout_err,
  runtime_error, fault, hang, ◌||◌, Result, ok, err, Eff, pure, throw, after, ◌>>=◌, ◌>>◌,
  if◌then◌else◌,
}
use xvc_support.Server.{server_run}

-- A number below 0 is `none`, and the outcome of the other calls is whether they succeed. `select`
-- waits for the client's socket and the listening one, and says which can be read.
pub record Calls (W : Type 0) : Type 0 where
  pub socket : Bool → W → Option ℕ × W
  pub reuse_addr : ℕ → W → Bool × W
  pub bind : ℕ → ℕ → W → Bool × W
  pub listen : ℕ → ℕ → W → Bool × W
  pub accept : ℕ → W → Option ℕ × W
  pub select : ℕ → ℕ → W → Option (Bool × Bool) × W
  pub close : ℕ → W → W

-- `if ( call < 0 ) throw SysErr`.
abbrev pub called : {W A : Type 0} → Option A × W → Result A × W
called (some a, t) = (ok a, t)
called (none, t) = (err sys_err, t)

-- `if ( call ) throw SysErr`.
abbrev pub succeeded : {W : Type 0} → Bool × W → Result (Unit {0}) × W
succeeded (true, t) = (ok tt, t)
succeeded (false, t) = (err sys_err, t)

-- The destructor of a member of an object whose constructor throws, where the stack is unwound.
abbrev pub undone : {W A : Type 0} → Bool → (W → W) → Result A × W → Result A × W
undone unwinds destroy (ok a, t) = (ok a, t)
undone unwinds destroy (err e, t) = (err e, if unwinds then destroy t else t)

-- The destructor of an object whose scope ends: without an exception always, and by one where the
-- stack is unwound.
abbrev pub destroyed : {W A : Type 0} → (Result A → Bool) → (W → W) → Eff W A → Eff W A
destroyed leaves destroy act w = let (r, t) = act w in (r, if leaves r then destroy t else t)

-- The exceptions that a handler of the program takes.
abbrev pub is_caught : {A : Type 0} → Result A → Bool
is_caught (ok a) = true
is_caught (err sys_err) = true
is_caught (err proto_err) = false
is_caught (err timeout_err) = false
is_caught (err runtime_error) = false
is_caught (err fault) = false
is_caught (err hang) = false

abbrev pub is_ok : {A : Type 0} → Result A → Bool
is_ok (ok a) = true
is_ok (err e) = false

-- The server's state with the descriptor of the connection.
pub record Held (W : Type 0) : Type 0 where
  pub world : W
  pub sd_ : ℕ

module _ {W : Type 0} (sys : Calls W) where
  unfoldable pub sock_sd : Bool → Eff W ℕ
  sock_sd stream w = called (sys.socket stream w)

  -- The constructor of `XvcServer` up to its member `sock_`; the port is an `uint16_t`.
  unfoldable pub set_up : ℕ → ℕ → Eff W (Unit {0})
  set_up port sd = do
    (λ w. succeeded (sys.reuse_addr sd w))
    (λ w. succeeded (sys.bind sd (port % 2 ^ 16) w))
    λ w. succeeded (sys.listen sd 1 w)

  -- Another client that comes meanwhile.
  abbrev pub away : Option ℕ × W → W
  away (some newsd, t) = sys.close newsd t
  away (none, t) = t

  unfoldable pub turn_away : ℕ → W → W
  turn_away ld w = away (sys.accept ld w)

  -- One turn of the loop of `read`, from `select` on; `again` is the next turn.
  abbrev pub selected : ℕ → Eff W (Unit {0}) → Option (Bool × Bool) × W → Result (Unit {0}) × W
  selected ld again (none, t) = (err sys_err, t)
  selected ld again (some (mine, other), t) =
      let u = if other then turn_away ld t else t in if mine then (ok tt, u) else again u

  -- The loop, for `n` turns at most.
  unfoldable pub wait_readable : ℕ → ℕ → ℕ → Eff W (Unit {0})
  wait_readable zero sd ld w = (err hang, w)
  wait_readable (suc n) sd ld w = selected ld (wait_readable n sd ld) (sys.select sd ld w)

  abbrev pub held : Held W → Option ℕ × W → Result (Unit {0}) × Held W
  held h (some sd, t) = (ok tt, record { world = t; sd_ = sd })
  held h (none, t) = (err sys_err, record h { world = t })

  -- The constructor of `XvcConn`.
  unfoldable pub open_conn : ℕ → Eff (Held W) (Unit {0})
  open_conn ld h = held h (sys.accept ld h.world)

-- `unwinds` is whether an exception that nothing handles unwinds the stack before the program
-- ends, which C++ leaves open: `XvcServer s(...)` and `s.run()` stand outside every try block, and
-- `XvcServer::run` handles `SysErr` only.
module _ {W : Type 0} (sys : Calls W) (unwinds : Bool) where
  unfoldable pub xvc_server : ℕ → Eff W ℕ
  xvc_server port = do
    sd ← sock_sd sys true
    λ w. undone unwinds (sys.close sd) (after (λ u. pure sd) (set_up sys port sd w))

  -- `conn.run()`, and the destructor of `conn` after the handler.
  unfoldable pub use_conn : (ℕ → Eff W (Unit {0})) → Eff (Held W) (Unit {0})
  use_conn body h =
      let (r, t) = destroyed (λ r. unwinds || is_caught r) (sys.close h.sd_) (body h.sd_) h.world in
      (r, record h { world = t })

  -- `XvcServer s(...); s.run();` of `main`, for `n` connections at most; `body ld sd` stands for
  -- what a connection does with its socket.
  unfoldable pub serve_port : ℕ → (ℕ → ℕ → Eff W (Unit {0})) → Bool → ℕ → Eff W (Unit {0})
  serve_port port body once n = do
    ld ← xvc_server port
    destroyed (λ r. unwinds || is_ok r) (sys.close ld)
        (λ w.
          let (r, h) =
            server_run (open_conn sys ld) (use_conn (body ld)) once n
              (record { world = w; sd_ = 0 }) in
          (r, h.world))
