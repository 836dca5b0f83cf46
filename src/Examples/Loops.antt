-- ===== src/Examples/Loops.antt =====
-- Runs over the loopback of xvcSrv/src/xvcDrvLoopBack.cc.
use xvc_support.Base.{
  if◌then◌else◌, err, sys_err, ℕ, ◌+◌, ◌-◌, ◌/◌, ◌≡◌, refl, true, false, Option, some, none, List,
  [], ◌∷◌, ◌++◌, take, drop, replicate, ok, arith, length-replicate,
}
use Prim.Native.String.{String}
use text.Mathlib.Text.{◌==◌ as str_eq}
use xvc_support.Driver.{Drv, new_driver, get_sniff, send_vectors}
use xvc_support.Driver.Ready.{IsReady, new_driver-IsReady}
use xvc_support.LoopBack.{
  Format, Loop, no_playback, new_loop, emul_word_size, emul_mem_depth, loop_xfer,
}
use xvc_support.LoopBack.EndToEnd.{echo_answers, send_vectors_echo}
use xvc_support.Driver.Send.{Answers, send_vectors_answered}
use xvc_support.LoopBack.Datagram.{Server}

-- No line of a file is ever read here.
abbrev no_scan : Format → String → Option ℕ
no_scan fmt buf = none

-- The file "TdoOnly.txt" with a line, and no other.
abbrev one_file : String → Option (List String)
one_file fnam = if str_eq fnam "TdoOnly.txt" then some ("TDO: 1" ∷ []) else none

no_file_made : new_loop one_file (λ fnam. true) none ≡ ok no_playback
unfolding new_loop
no_file_made = refl

file_missing : new_loop one_file (λ fnam. true) (some "other") ≡ err sys_err
unfolding new_loop
file_missing = refl

file_played :
    new_loop one_file (λ fnam. true) (some "TdoOnly.txt")
    ≡ ok (record {
      file = some ("TDO: 1" ∷ []);
      left = "TDO: 1" ∷ [];
      skip = false;
      tdo_only = true;
      line = 1;
    })
unfolding new_loop
file_played = refl

abbrev over_loop : Drv Loop
over_loop = new_driver 0 7 (replicate 2048 0) no_playback

over_loop-IsReady : IsReady over_loop
over_loop-IsReady =
    new_driver-IsReady 0 7 (replicate 2048 0) no_playback
      (length-replicate {0} 2048 (let z : ℕ = 0 in z))

abbrev five : List ℕ
five = 1 ∷ 2 ∷ 3 ∷ 4 ∷ 5 ∷ []

abbrev six : List ℕ
six = 9 ∷ 8 ∷ 7 ∷ 6 ∷ 5 ∷ 4 ∷ []

send_vectors_echo_example :
    (t : Drv Loop) × (send_vectors true
        (loop_xfer no_scan emul_word_size emul_mem_depth true)
        39
        five
        six
        six
        over_loop
      ≡ (ok (take ((39 + 8 - 1) / 8) six ++ drop ((39 + 8 - 1) / 8) six), t))
    × (t.io ≡ over_loop.io)
send_vectors_echo_example =
    send_vectors_echo no_scan emul_mem_depth over_loop 39 five six six over_loop-IsReady
      (unfold new_driver in refl) (unfold new_driver in refl) (unfold new_driver get_sniff in refl)
      (omega arith) (omega arith) (omega arith) (omega arith) (omega arith)
      (unfold new_driver in omega (arith, length-replicate {0} 2048 (let z : ℕ = 0 in z)))

abbrev over_loop_answers :
    Answers true
      (loop_xfer no_scan over_loop.word_size_ emul_mem_depth true)
      over_loop
      39
      five
      six
      six
over_loop_answers =
    echo_answers no_scan emul_mem_depth over_loop 39 five six six over_loop-IsReady
      (unfold new_driver in refl) (omega arith) (omega arith) (omega arith) (omega arith)
      (omega arith)

send_vectors_answered_example :
    (t : Drv Loop) × (send_vectors true
        (loop_xfer no_scan over_loop.word_size_ emul_mem_depth true)
        39
        five
        six
        six
        over_loop
      ≡ (ok over_loop_answers.reply.rx, t))
    × (t.io ≡ over_loop_answers.io')
send_vectors_answered_example =
    send_vectors_answered true (loop_xfer no_scan over_loop.word_size_ emul_mem_depth true)
      over_loop 39 five six six over_loop-IsReady (omega arith) (omega arith) (omega arith)
      (omega arith)
      (unfold new_driver in omega (arith, length-replicate {0} 2048 (let z : ℕ = 0 in z)))
      (unfold new_driver get_sniff in refl) over_loop_answers

-- A request for 9 bits with id 5.
abbrev nine : ℕ
nine = 0x10500008

abbrev nine_body : List ℕ
nine_body = 1 ∷ 0 ∷ 0 ∷ 0 ∷ 0xaa ∷ 1 ∷ 0 ∷ 0 ∷ []

abbrev idle_server : Server
idle_server = record {
  loop = no_playback;
  tsiz = none;
  tbuf = replicate 16 0;
  drop_count = 253;
  drop_enabled = true;
}

abbrev busy_server : Server
busy_server = record idle_server {
  tsiz = some 2;
  drop_count = 254;
  tbuf = 8 ∷ 0 ∷ 0x50 ∷ 0x10 ∷ 0xaa ∷ 1 ∷ replicate 10 0;
}
