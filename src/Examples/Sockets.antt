-- ===== src/Examples/Sockets.antt =====
-- Runs of the sockets of the server (xvcSrv/src/xvcSrv.cc, xvcConn.cc).
use xvc_support.Base.{
  ℕ, ◌+◌, ◌-◌, ◌==◌, ◌≡◌, refl, Bool, true, false, Option, none, some, List, [], ◌∷◌, if◌then◌else◌,
  ok, eq→==, Bool-cases, inl, inr,
}
use xvc_support.Server.Sockets.{Calls, turn_away, wait_readable, serve_port}
use xvc_support.Server.Sockets.Balance.{Fresh, HasFiles, serve_port-Keeps}
use xvc_support.Server.Sockets.Waiting.{no_turn, one_turn, wait_readable-Keeps, wait_readable-ready}

-- A system with some clients in the queue of the listening socket; `events` is what `select` says.
record Host : Type 0 where
  files : List ℕ
  next : ℕ
  queue : ℕ
  events : List (Bool × Bool)

abbrev removed : ℕ → List ℕ → List ℕ
removed sd [] = []
removed sd (x ∷ xs) = if sd == x then xs else x ∷ removed sd xs

abbrev new_file : Host → Option ℕ × Host
new_file h = (some h.next, record h { files = h.next ∷ h.files; next = h.next + 1 })

abbrev from_queue : Host → Option ℕ × Host
from_queue h = if h.queue == 0 then (none, h) else new_file (record h { queue = h.queue - 1 })

abbrev next_event : Host → Option (Bool × Bool) × Host
next_event h = elim h.events [ [] ↦ (none, h) | e ∷ es ↦ (some e, record h { events = es }) ]

abbrev host : Calls Host
host = record {
  socket = λ stream. new_file;
  reuse_addr = λ sd h. (true, h);
  bind = λ sd port h. (true, h);
  listen = λ sd backlog h. (true, h);
  accept = λ ld. from_queue;
  select = λ sd ld. next_event;
  close = λ sd h. record h { files = removed sd h.files };
}

abbrev files_of : Host → List ℕ
files_of h = h.files

host-accept : (h : Host) → Fresh files_of (from_queue h) h
host-accept h = elim (Bool-cases (h.queue == 0)) [
  | inl none_left ↦ rw none_left refl
  | inr some_left ↦ rw some_left refl
]

host-select :
    (es : List (Bool × Bool)) (h : Host) → h.events ≡ es → files_of (next_event h).1 ≡ files_of h
host-select [] h e = rw e refl
host-select (x ∷ xs) h e = rw e refl

host-HasFiles : HasFiles files_of host
host-HasFiles = record {
  socket_fresh = λ stream h. refl;
  accept_fresh = λ ld h. host-accept h;
  reuse_keeps = λ sd h. refl;
  bind_keeps = λ sd port h. refl;
  listen_keeps = λ sd backlog h. refl;
  select_keeps = λ sd ld h. host-select h.events h refl;
  close_last = λ sd h rest e. rw (e, eq→== sd sd refl) refl;
}

-- Another client comes twice before the client sends something; the queue has three.
abbrev busy : Host
busy = record {
  files = 0 ∷ 1 ∷ [];
  next = 3;
  queue = 3;
  events = (false, true) ∷ (false, true) ∷ (true, false) ∷ [];
}

-- The same with the listening socket and the client's open.
abbrev connected : Host
connected = record busy { files = 4 ∷ 3 ∷ 0 ∷ 1 ∷ []; next = 5 }

wait_readable-ready_example :
    (t : Host) × (wait_readable host (2 + 1) 4 3 connected ≡ (ok tt, t))
    × (t.files ≡ 4 ∷ 3 ∷ 0 ∷ 1 ∷ [])
unfolding turn_away
wait_readable-ready_example =
    wait_readable-ready host files_of host-HasFiles 4 3 2 0 connected
      (record connected { next = 7; queue = 1; events = (true, false) ∷ [] })
      (record connected { next = 7; queue = 1; events = [] }) false
      (one_turn refl (one_turn refl no_turn)) refl

serve_port-Keeps_example :
    (serve_port host true 2542 (λ ld sd. wait_readable host 3 sd ld) false 2 busy).1.files
    ≡ 0 ∷ 1 ∷ []
serve_port-Keeps_example =
    serve_port-Keeps host files_of host-HasFiles 2542 (λ ld sd. wait_readable host 3 sd ld) false 2
      (λ ld sd. wait_readable-Keeps host files_of host-HasFiles sd ld 3) busy
