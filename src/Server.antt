-- ===== src/Server.antt =====
-- `XvcServer` and `main`, xvcSrv/src/xvcSrv.cc: the loop over the connections, the options and the
-- choice of a driver. What getopt returns (with what sscanf makes of a number), a connection and the
-- registry are parameters. The address that the socket is bound to is left out.
pub mod Loop
pub mod Debug
pub mod Clients
pub mod Sockets
pub mod Main
use xvc_support.Base.{
  ℕ, zero, suc, ◌+◌, bit_or, Bool, true, false, Option, none, some, List, [], ◌∷◌, not,
  if◌then◌else◌, u32, sys_err, proto_err, timeout_err, runtime_error, fault, hang, Result, ok, err,
  Eff, pure, throw, after, ◌>>=◌, ◌>>◌,
}
use Prim.Native.String.{String}
use text.Mathlib.Text.{◌==◌ as str_eq}

-- `catch ( SysErr &e )`.
abbrev pub caught : {W : Type 0} → Result (Unit {0}) × W → Result (Unit {0}) × W
caught (err sys_err, t) = (ok tt, t)
caught (ok x, t) = (ok x, t)
caught (err proto_err, t) = (err proto_err, t)
caught (err timeout_err, t) = (err timeout_err, t)
caught (err runtime_error, t) = (err runtime_error, t)
caught (err fault, t) = (err fault, t)
caught (err hang, t) = (err hang, t)

abbrev pub catch_sys_err : {W : Type 0} → Eff W (Unit {0}) → Eff W (Unit {0})
catch_sys_err act s = caught (act s)

module _ {W : Type 0} (accept run_conn : Eff W (Unit {0})) (once : Bool) where
  -- `XvcServer::run`, for `n` connections at most: the constructor of `XvcConn` accepts one.
  unfoldable pub server_run : ℕ → Eff W (Unit {0})
  server_run zero = throw hang
  server_run (suc n) = do accept; catch_sys_err run_conn; if once then pure tt else server_run n

-- What getopt returns. -M, -p and -T have a number, or what sscanf does not take for one.
pub data Letter : Type 0 where
  letter_h letter_v letter_upper_v letter_o letter_s other_letter : Letter
  letter_t letter_d : String → Letter
  letter_m letter_p letter_upper_t : Option ℕ → Letter

-- The variables of `main`.
pub record Options : Type 0 where
  pub debug : ℕ
  pub target : Option String
  pub drvnam : String
  pub port : ℕ
  pub max_msg : ℕ
  pub set_test : Bool
  pub test_mode : ℕ
  pub once : Bool
  pub help : Bool

abbrev pub default_options : String → Options
default_options drvnam = record {
  debug = 0;
  target = none;
  drvnam = drvnam;
  port = 2542;
  max_msg = 32768;
  set_test = false;
  test_mode = 0;
  once = false;
  help = false;
}

-- `return` with a code, or on with the options.
pub data Parsed : Type 0 where
  exits : ℕ → Parsed
  options : Options → Parsed

-- One turn of the loop.
unfoldable pub on_letter : Letter → Options → Parsed
on_letter letter_h o = options (record o { help = true })
on_letter letter_v o = options (record o { debug = u32 (o.debug + 1) })
on_letter letter_upper_v o = exits 0
on_letter letter_o o = options (record o { once = true })
on_letter letter_s o = options (record o { debug = bit_or o.debug 0x100 })
on_letter other_letter o = exits 1
on_letter (letter_t s) o = options (record o { target = some s })
on_letter (letter_d s) o = options (record o { drvnam = s })
on_letter (letter_m none) o = exits 1
on_letter (letter_m (some n)) o = options (record o { max_msg = n })
on_letter (letter_p none) o = exits 1
on_letter (letter_p (some n)) o = options (record o { port = n })
on_letter (letter_upper_t none) o = exits 1
on_letter (letter_upper_t (some n)) o = options (record o { set_test = true; test_mode = n })

abbrev pub and_then : Parsed → (Options → Parsed) → Parsed
and_then (exits n) f = exits n
and_then (options o) f = f o

unfoldable pub main_options : List Letter → Options → Parsed
main_options [] o = options o
main_options (l ∷ ls) o = and_then (on_letter l o) (λ p. main_options ls p)

-- The rest of `main` up to the creation of a driver.
pub data Start (J : Type 0) : Type 0 where
  stops : ℕ → Start J
  loop_back : J → Start J
  drives : J → Start J

module _ {J : Type 0} (has : Option String → Bool) (loads : String → Bool)
    (create : Option String → Option String → Result J) (udp : Result J)
    (loop_opens : Option String → Bool) where
  -- `registry->create` with a caught `std::runtime_error`. All exceptions of the code are derived
  -- from it.
  unfoldable pub create_caught : Option String → Option String → Start J
  create_caught name target = elim (create name target) [ ok j ↦ drives j | err e ↦ stops 1 ]

  -- The two ends of the loopback.
  unfoldable pub loop_caught : Option String → Start J
  loop_caught target = elim udp [
    | err e ↦ stops 1
    | ok j ↦ if loop_opens target then loop_back j else stops 1
  ]

  unfoldable pub main_start : Options → Start J
  main_start o =
      if str_eq o.drvnam "udpLoopback"
      then (if o.help then stops 0 else loop_caught o.target)
      else if has (some o.drvnam)
      then (if o.help then stops 0 else create_caught (some o.drvnam) o.target)
      else if loads o.drvnam
      then (if o.help then stops 0 else create_caught none o.target)
      else stops 1
