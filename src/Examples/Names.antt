-- ===== src/Examples/Names.antt =====
-- Runs of the driver registry of xvcSrv/src/xvcSrv.cc.
use xvc_support.Base.{ℕ, ◌≡◌, true, false, Option, some, List, [], ◌∷◌, Result, ok, if◌then◌else◌}
use Prim.Native.String.{String}
use xvc_support.Registry.{Entry, register_factory, find, answers_to, find-register_factory}

abbrev make_udp : List String → Option String → Result ℕ
make_udp argv arg = ok 7

abbrev loopback : Entry ℕ
loopback = record { name = "loopback"; creator = some (λ argv arg. ok 1); need_target_arg = false }

abbrev udp : Entry ℕ
udp = record { name = "udp"; creator = some make_udp; need_target_arg = true }

find-register_factory_example : find (some "loopback") (register_factory udp (loopback ∷ [])) ≡ (
    if answers_to (some "loopback") udp then some udp else find (some "loopback") (loopback ∷ []))
find-register_factory_example = find-register_factory udp (loopback ∷ []) (some "loopback")
