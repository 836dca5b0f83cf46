-- ===== src/Server/Sockets/Balance.antt =====
-- Which descriptors are open.
use xvc_support.Base.{
  ℕ, zero, suc, ◌≡◌, ◌%◌, ◌^◌, refl, ap, ◌∙◌, Bool, true, false, Option, none, some, List, ◌∷◌,
  sys_err, proto_err, timeout_err, runtime_error, fault, hang, Result, ok, err, Eff, pure, ◌>>◌,
  after, if◌then◌else◌,
}
use xvc_support.Server.{caught, catch_sys_err, server_run}
use xvc_support.Server.Sockets.{
  Calls, called, succeeded, undone, Held, sock_sd, set_up, xvc_server, turn_away, away, held,
  open_conn, use_conn, serve_port,
}

module _ {W : Type 0} (opens : W → List ℕ) where
  -- What a call that gives a descriptor does to them.
  abbrev pub Fresh : Option ℕ × W → W → Type 0
  Fresh (some sd, t) w = opens t ≡ sd ∷ opens w
  Fresh (none, t) w = opens t ≡ opens w

  abbrev pub Opened : Result ℕ × W → W → Type 0
  Opened (ok sd, t) w = opens t ≡ sd ∷ opens w
  Opened (err e, t) w = opens t ≡ opens w

  abbrev pub Keeps : {A : Type 0} → Eff W A → Type 0
  Keeps m = (w : W) → opens (m w).1 ≡ opens w

  -- `socket` and `accept` give a new descriptor or fail, `close` takes the newest away, and the
  -- other calls leave them.
  pub record HasFiles (sys : Calls W) : Type 0 where
    pub socket_fresh : (stream : Bool) (w : W) → Fresh (sys.socket stream w) w
    pub accept_fresh : (ld : ℕ) (w : W) → Fresh (sys.accept ld w) w
    pub reuse_keeps : (sd : ℕ) (w : W) → opens (sys.reuse_addr sd w).1 ≡ opens w
    pub bind_keeps : (sd port : ℕ) (w : W) → opens (sys.bind sd port w).1 ≡ opens w
    pub listen_keeps : (sd backlog : ℕ) (w : W) → opens (sys.listen sd backlog w).1 ≡ opens w
    pub select_keeps : (sd ld : ℕ) (w : W) → opens (sys.select sd ld w).1 ≡ opens w
    pub close_last :
        (sd : ℕ) (w : W) (rest : List ℕ) → opens w ≡ sd ∷ rest → opens (sys.close sd w) ≡ rest

  succeeded_same : (x : Bool × W) → (succeeded x).1 ≡ x.1
  succeeded_same (true, t) = refl
  succeeded_same (false, t) = refl

  called-Opened : (x : Option ℕ × W) (w : W) → Fresh x w → Opened (called x) w
  called-Opened (some sd, t) w f = f
  called-Opened (none, t) w f = f

  Keeps-after :
      {A B : Type 0} (f : A → Eff W B) (x : Result A × W) (w : W)
      → ((a : A) → Keeps (f a))
      → opens x.1 ≡ opens w
      → opens (after f x).1 ≡ opens w
  Keeps-after f (ok a, t) w h e = h a t ∙ e
  Keeps-after f (err r, t) w h e = e

caught_state : {W : Type 0} (x : Result (Unit {0}) × W) → (caught x).1 ≡ x.1
caught_state (ok u, t) = refl
caught_state (err sys_err, t) = refl
caught_state (err proto_err, t) = refl
caught_state (err timeout_err, t) = refl
caught_state (err runtime_error, t) = refl
caught_state (err fault, t) = refl
caught_state (err hang, t) = refl

module _ {W : Type 0} (sys : Calls W) (opens : W → List ℕ) (hw : HasFiles opens sys) where
  set_up-Keeps : (port sd : ℕ) → Keeps opens (set_up sys port sd)
  unfolding set_up
  set_up-Keeps port sd w =
      Keeps-after opens _ (succeeded (sys.reuse_addr sd w)) w
        (λ u t.
          Keeps-after opens _ (succeeded (sys.bind sd (port % 2 ^ 16) t)) t
            (λ u v. ap opens (succeeded_same opens (sys.listen sd 1 v)) ∙ hw.listen_keeps sd 1 v)
            (ap opens (succeeded_same opens (sys.bind sd (port % 2 ^ 16) t))
              ∙ hw.bind_keeps sd (port % 2 ^ 16) t))
        (ap opens (succeeded_same opens (sys.reuse_addr sd w)) ∙ hw.reuse_keeps sd w)

  undone-Opened :
      (sd : ℕ) (x : Result (Unit {0}) × W) (w : W)
      → opens x.1 ≡ sd ∷ opens w
      → Opened opens (undone true (sys.close sd) (after (λ u. pure sd) x)) w
  undone-Opened sd (ok u, t) w e = e
  undone-Opened sd (err r, t) w e = hw.close_last sd t (opens w) e

  server_made :
      (port : ℕ) (x : Option ℕ × W) (w : W)
      → Fresh opens x w
      → Opened opens
          (after
            (λ sd t. undone true (sys.close sd) (after (λ u. pure sd) (set_up sys port sd t)))
            (called x))
          w
  server_made port (some sd, t) w f =
      undone-Opened sd (set_up sys port sd t) w (set_up-Keeps port sd t ∙ f)
  server_made port (none, t) w f = f

  xvc_server-Opened : (port : ℕ) (w : W) → Opened opens (xvc_server sys true port w) w
  unfolding xvc_server sock_sd
  xvc_server-Opened port w = server_made port (sys.socket true w) w (hw.socket_fresh true w)

  away_keeps : (x : Option ℕ × W) (w : W) → Fresh opens x w → opens (away sys x) ≡ opens w
  away_keeps (some sd, t) w f = hw.close_last sd t (opens w) f
  away_keeps (none, t) w f = f

  pub turn_away_keeps : (ld : ℕ) (w : W) → opens (turn_away sys ld w) ≡ opens w
  unfolding turn_away
  turn_away_keeps ld w = away_keeps (sys.accept ld w) w (hw.accept_fresh ld w)

  body_closed :
      (body : ℕ → Eff W (Unit {0})) (sd : ℕ) (t w : W)
      → ((sd : ℕ) → Keeps opens (body sd))
      → opens t ≡ sd ∷ opens w
      → opens (use_conn sys true body (record { world = t; sd_ = sd })).1.world ≡ opens w
  unfolding use_conn
  body_closed body sd t w keeps f = hw.close_last sd (body sd t).1 (opens w) (keeps sd t ∙ f)

  -- One turn of the server: the connection is closed whatever becomes of it.
  server_turn :
      (body : ℕ → Eff W (Unit {0})) (rest : Eff (Held W) (Unit {0})) (x : Option ℕ × W) (h : Held W)
      → ((sd : ℕ) → Keeps opens (body sd))
      → Keeps (λ (k : Held W). opens k.world) rest
      → Fresh opens x h.world
      → opens (after (λ u. catch_sys_err (use_conn sys true body) >> rest) (held sys h x)).1.world
        ≡ opens h.world
  server_turn body rest (none, t) h keeps more f = f
  server_turn body rest (some sd, t) h keeps more f =
      let k : Held W = record { world = t; sd_ = sd } in
      Keeps-after (λ (k : Held W). opens k.world) (λ u. rest) (caught (use_conn sys true body k)) h
        (λ u. more)
        (ap (λ (k : Held W). opens k.world) (caught_state (use_conn sys true body k))
          ∙ body_closed body sd t h.world keeps f)

  if-Keeps :
      (once : Bool) (rest : Eff (Held W) (Unit {0}))
      → Keeps (λ (k : Held W). opens k.world) rest
      → Keeps (λ (k : Held W). opens k.world) (if once then pure tt else rest)
  if-Keeps true rest h k = refl
  if-Keeps false rest h k = h k

  server_run-Keeps :
      (ld : ℕ) (body : ℕ → Eff W (Unit {0})) (once : Bool) (n : ℕ)
      → ((sd : ℕ) → Keeps opens (body sd))
      → Keeps
          (λ (k : Held W). opens k.world)
          (server_run (open_conn sys ld) (use_conn sys true body) once n)
  unfolding server_run open_conn
  server_run-Keeps ld body once zero keeps h = refl
  server_run-Keeps ld body once (suc n) keeps h =
      server_turn body _ (sys.accept ld h.world) h keeps
        (if-Keeps once _ (server_run-Keeps ld body once n keeps)) (hw.accept_fresh ld h.world)

  Opened-then :
      (f : ℕ → Eff W (Unit {0})) (x : Result ℕ × W) (w : W)
      → Opened opens x w
      → ((ld : ℕ) (t : W) → opens t ≡ ld ∷ opens w → opens (f ld t).1 ≡ opens w)
      → opens (after f x).1 ≡ opens w
  Opened-then f (ok ld, t) w e h = h ld t e
  Opened-then f (err r, t) w e h = e

  -- Where an exception that nothing handles unwinds the stack (C++ leaves that open), then
  -- whatever the system's calls return, whether the set-up of the listening socket fails or at
  -- which connection the server ends, as many descriptors are open after the server as before it:
  -- the listening socket and every connection are closed, also where `run` throws. The calls keep
  -- to what the system documents of descriptors, and a connection's own use of its socket leaves
  -- them.
  pub serve_port-Keeps :
      (port : ℕ) (body : ℕ → ℕ → Eff W (Unit {0})) (once : Bool) (n : ℕ)
      → ((ld sd : ℕ) → Keeps opens (body ld sd))
      → Keeps opens (serve_port sys true port body once n)
  unfolding serve_port
  serve_port-Keeps port body once n keeps w =
      Opened-then _ (xvc_server sys true port w) w (xvc_server-Opened port w) (λ ld t e.
        hw.close_last ld _ (opens w)
          (server_run-Keeps ld (body ld) once n (keeps ld) (record { world = t; sd_ = 0 }) ∙ e))
