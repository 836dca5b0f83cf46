-- ===== src/Server/Main.antt =====
-- `main` of xvcSrv/src/xvcSrv.cc from the options to the server: what follows the choice of a
-- driver. The driver's methods, the thread of the loopback and the server are parameters.
pub mod Letters
use xvc_support.Base.{
  ℕ, ◌%◌, ◌^◌, Bool, List, Result, ok, Eff, pure, after, ◌>>=◌, ◌>>◌, if◌then◌else◌,
}
use xvc_support.Server.{
  Letter, Options, Parsed, exits, options, default_options, main_options, Start, stops, loop_back,
  drives,
}
use xvc_support.Server.Sockets.{succeeded}

-- `loop_init` is `setDebug` and `init` of the loopback, `spawn` whether the thread is created;
-- `serve` gets the port, the driver, the largest vector and whether one connection is enough.
pub record Methods (W J : Type 0) : Type 0 where
  pub set_debug : J → ℕ → W → W
  pub init : J → Eff W (Unit {0})
  pub set_test_mode : J → ℕ → W → W
  pub loop_init : ℕ → Eff W (Unit {0})
  pub spawn : W → Bool × W
  pub serve : ℕ → J → ℕ → Bool → Eff W (Unit {0})

module _ {W J : Type 0} (api : Methods W J) where
  -- From `drv->setDebug` on; the constructor of the server takes the port as an `uint16_t`.
  unfoldable pub drive_by : Options → J → Eff W ℕ
  drive_by o j = do
    (λ w. (ok tt, api.set_debug j o.debug w))
    api.init j
    (λ w. (ok tt, if o.set_test then api.set_test_mode j o.test_mode w else w))
    api.serve (o.port % 2 ^ 16) j o.max_msg o.once
    pure 0

  unfoldable pub launch : Options → Start J → Eff W ℕ
  launch o (stops n) = pure n
  launch o (loop_back j) = do api.loop_init o.debug; (λ w. succeeded (api.spawn w)); drive_by o j
  launch o (drives j) = drive_by o j

  unfoldable pub launched : (Options → Start J) → Parsed → Eff W ℕ
  launched start (exits n) = pure n
  launched start (options o) = launch o (start o)

  -- `start` is the choice of a driver.
  unfoldable pub main : (Options → Start J) → List Letter → Eff W ℕ
  main start ls = launched start (main_options ls (default_options "udp"))
