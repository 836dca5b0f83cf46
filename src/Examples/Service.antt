-- ===== src/Examples/Service.antt =====
-- Runs of the start of a driver, of the memory map, and of the server (xvcSrv/src/xvcSrv.cc,
-- mmioHelper.h).
use xvc_support.Base.{
  ℕ, ◌+◌, ◌%◌, ◌^◌, ◌≤◌, ◌<◌, ◌≡◌, refl, true, false, List, [], ◌∷◌, ok, err, sys_err, arith, some,
}
use xvc_support.Mmio.Map.{map_area, map_area-covers}
use xvc_support.Server.{
  Letter, letter_v, letter_s, letter_p, Options, default_options, main_options, on_letter,
  letter_upper_t, Start, main_start, create_caught,
}
use xvc_support.Server.Main.{Methods, main}
use xvc_support.Server.Main.Letters.{main-described}

abbrev no_code : ℕ → ℕ
no_code n = 0

map_area-covers_example :
    let a = map_area (2 ^ 12) 0x43c00ff8 20 in
    (a.file_off % 2 ^ 12 ≡ 0)
    × (a.file_off + a.map_off ≡ 0x43c00ff8)
    × (a.map_siz % 2 ^ 12 ≡ 0)
    × (a.map_off + 20 ≤ a.map_siz)
    × (a.map_siz < a.map_off + 20 + 2 ^ 12)
map_area-covers_example = map_area-covers 12 0x43c00ff8 20 (omega arith)

abbrev letters : List Letter
letters =
    letter_v
    ∷ letter_s
    ∷ letter_p (some 80)
    ∷ letter_v
    ∷ letter_upper_t (some 1)
    ∷ letter_p (some 67536)
    ∷ []

abbrev verbose : Options
verbose = record (default_options "udp") {
  debug = 0x102;
  port = 67536;
  set_test = true;
  test_mode = 1;
}

-- What the driver and the server are told, the last first.
abbrev recorder : Methods (List ℕ) ℕ
recorder = record {
  set_debug = λ j debug w. debug ∷ w;
  init = λ j w. (ok tt, w);
  set_test_mode = λ j mode w. mode ∷ w;
  loop_init = λ debug w. (ok tt, w);
  spawn = λ w. (true, w);
  serve = λ port j max_msg once w. (ok tt, port ∷ max_msg ∷ w);
}

-- A registry that knows every name, and makes the driver 7.
abbrev choice : Options → Start ℕ
choice =
    main_start (λ name. true) (λ name. false) (λ name target. ok 7) (err sys_err) (λ target. false)

main-described_example : main recorder choice letters [] ≡ (ok 0, 2000 ∷ 32768 ∷ 1 ∷ 0x102 ∷ [])
unfolding main_options on_letter main_start create_caught
main-described_example = main-described recorder choice letters verbose 7 [] (omega arith) refl refl
