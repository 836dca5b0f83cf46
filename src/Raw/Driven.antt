-- ===== src/Raw/Driven.antt =====
-- A raw driver behind `XvcConn`.
use mathlib.Core.Path.{subst}
use xvc_support.Base.{
  ℕ, ◌+◌, ◌-◌, ◌*◌, ◌/◌, ◌≤◌, ◌<◌, ◌≡◌, ap, sym, ◌∙◌, true, false, List, [], ◌++◌, length, take,
  drop, Bool, zero, suc, arith, ok, err, sys_err, Eff, to_le, of_le, IsBytes, append-nil,
}
use xvc_support.Header.{unknown_period}
use xvc_support.Driver.{Xfer, Drv, query, send_vectors, set_period_ns, get_sniff}
use xvc_support.Driver.Ready.{IsReady, query-IsReady}
use xvc_support.Driver.Steady.{send_vectors-IsReady}
use xvc_support.Serial.{serial, serial-cong}
use xvc_support.Conn.{Driver, Conn, run}
use xvc_support.Conn.Limits.{agreed}
use xvc_support.Conn.Session.{Request, octets, answers, Serves, IsClient}
use xvc_support.Conn.Session.Run.{run-session}
use xvc_support.Driver.Start.{init_checked}
use xvc_support.Raw.{raw_xfer}
use xvc_support.Raw.Octets.{of_le-front}
use xvc_support.Raw.Words.{Clocks}
use xvc_support.Raw.Start.{query-raw, init_checked-raw}
use xvc_support.Raw.EndToEnd.{send_vectors-serial}

-- The methods of the driver that `XvcConn` calls, where the largest vector is a constant of the
-- driver, which its constructor sets.
abbrev pub jtag_driver : {T : Type 0} → Xfer T → (ℕ → ℕ) → ℕ → Driver (Drv T)
jtag_driver xfer pow_code max_vec = record {
  query = query true xfer pow_code;
  get_max_vector_size = λ s. max_vec;
  set_period_ns = λ p s. (ok (set_period_ns p s), s);
  send_vectors = send_vectors true xfer;
}

-- With an unknown period the requested one is the answer.
set_period_ns_unknown :
    {S : Type 0} (p : ℕ) (s : Drv S) → s.period_ns ≡ unknown_period → set_period_ns p s ≡ p
unfolding set_period_ns
set_period_ns_unknown zero s e = e
set_period_ns_unknown (suc p) s e = rw e (ground arith)

-- Only the octets that hold bits of the vectors count.
serial-take :
    {J : Type 0} (clock : ℕ → ℕ → J → Bool × J) (bits n : ℕ) (tms tdi : List ℕ) (j : J)
    → bits ≤ 8 * n
    → n ≤ length tms
    → n ≤ length tdi
    → serial clock bits (of_le tms) (of_le tdi) j
      ≡ serial clock bits (of_le (take n tms)) (of_le (take n tdi)) j
serial-take clock bits n tms tdi j h ha hb =
    serial-cong clock bits (8 * n) (of_le tms) (of_le (take n tms)) (of_le tdi) (of_le (take n tdi))
      j h (rw (append-nil (take n tms)) at (sym (of_le-front n tms [] ha)))
      (rw (append-nil (take n tdi)) at (sym (of_le-front n tdi [] hb)))

-- A driver before `init`, whose reset succeeds and leaves the hardware in `io`.
pub record IsFresh {S : Type 0} (reset : Eff S (Unit {0})) (s : Drv S) (io : S) : Type 0 where
  pub is_ready : IsReady s
  pub word_of_four : s.word_size_ ≡ 4
  pub no_sniffer : get_sniff s.debug ≡ false
  pub resets : reset s.io ≡ (ok tt, io)

-- A driver between two commands of the connection, over hardware at rest.
pub record Idle {S J : Type 0} (Rest : S → J → Type 0) (s : Drv S) (j : J) : Type 0 where
  pub ready : IsReady s
  pub four : s.word_size_ ≡ 4
  pub quiet : get_sniff s.debug ≡ false
  pub free : s.period_ns ≡ unknown_period
  pub rest : Rest s.io j

module _ {S J : Type 0} (log_code pow_code : ℕ → ℕ) (start : Eff S (Unit {0}))
    (word : ℕ → ℕ → ℕ → Eff S ℕ) (clock : ℕ → ℕ → J → Bool × J) (Rest Running : S → J → Type 0)
    (hw : Clocks clock start word Rest Running) where
  vector_sent :
      (s : Drv S) (bits n : ℕ) (tms tdi tdo : List ℕ) (j : J)
      → let x = serial clock bits (of_le tms) (of_le tdi) j in
        Idle Rest s j
        → (bits + 8 - 1) / 8 ≡ n
        → 1 ≤ bits
        → n ≤ 1020
        → n ≤ length tms
        → n ≤ length tdi
        → n ≤ length tdo
        → IsBytes (take n tms)
        → IsBytes (take n tdi)
        → (t : Drv S) × (send_vectors true (raw_xfer true log_code start word) bits tms tdi tdo s
            ≡ (ok (to_le n x.0 ++ drop n tdo), t))
          × Rest t.io x.1
  vector_sent s bits n tms tdi tdo j i same b1 nl = rw (sym same) (λ ha hb hc ba bb.
      send_vectors-serial log_code start word clock Rest Running hw s j bits tms tdi tdo i.ready
        i.four i.quiet i.rest b1 (omega arith) ha hb hc ba bb
        (omega (arith, i.ready.least, i.ready.reserved)))

  pub raw-Serves :
      (max_vec m : ℕ)
      → agreed m 0 max_vec ≤ 1020
      → Serves clock
          (λ p. p)
          (agreed m 0 max_vec)
          m
          (jtag_driver (raw_xfer true log_code start word) pow_code max_vec)
          (Idle Rest)
  raw-Serves max_vec m hi = record {
    queried = λ s j i.
        let (t, e, four, io, debug, period) =
          query-raw log_code pow_code start word s i.ready i.four in
        let (ready, _) =
          query-IsReady true (raw_xfer true log_code start word) pow_code s t 0 i.ready e in
        (
          0,
          t,
          e,
          record {
            ready = ready;
            four = four;
            quiet = ap get_sniff debug ∙ i.quiet;
            free = period;
            rest = subst (λ (x : S). Rest x j) (sym io) i.rest;
          },
          let same : agreed m 0 max_vec ≤ agreed m 0 max_vec = omega arith in same,
        );
    timed = λ p s j i. (s, ap (λ (k : ℕ). (ok k, s)) (set_period_ns_unknown p s i.free), i);
    shifted = λ bits tms tdi tdo s j i b1 nl ha hb hc ba bb.
        let n : ℕ = octets bits in
        let (t, e, rest) =
          vector_sent s bits n tms tdi tdo j i (omega arith) b1 (omega arith) ha hb hc ba bb in
        let x = serial-take clock bits n tms tdi j (omega arith) ha hb in
        let (ready, four, debug, period) =
          send_vectors-IsReady true (raw_xfer true log_code start word) s t bits tms tdi tdo _
            i.ready i.quiet e in
        (
          t,
          e ∙ ap (λ (r : ℕ × J). (ok (to_le n r.0 ++ drop n tdo), t)) x,
          record {
            ready = ready;
            four = four ∙ i.four;
            quiet = ap get_sniff debug ∙ i.quiet;
            free = period ∙ i.free;
            rest = subst (Rest t.io) (ap (λ (r : ℕ × J). r.1) x) rest;
          },
        );
  }

  -- `init`, and then a whole connection.
  pub run-raw :
      (s : Drv S) (c : Conn (Drv S)) (greeting : ℕ → List ℕ) (max_vec : ℕ) (rs : List Request)
      (n : ℕ) (reset : Eff S (Unit {0})) (io : S) (j : J)
      → let xfer = raw_xfer true log_code start word in
        let a = answers clock (greeting c.max_vec_len) (λ p. p) rs j in
        IsFresh reset s io
        → Rest io j
        → agreed c.max_vec_len 0 max_vec ≤ 1020
        → 1 ≤ c.max_vec_len
        → length (greeting c.max_vec_len) < c.max_vec_len + 128
        → IsClient c.max_vec_len n rs c.net c.puts
        → (t : Drv S) × (d : Conn (Drv S)) × (init_checked true xfer pow_code reset 4 s
            ≡ (ok tt, t))
          × (run (jtag_driver xfer pow_code max_vec) greeting true n (record c { drv = t })
              ≡ (err sys_err, d))
          × (d.sent ≡ c.sent ++ a.0)
          × Rest d.drv.io a.1
  run-raw s c greeting max_vec rs n reset io j fresh rest hi some greets client =
      let (t, e, ready', four', same, debug, period) =
        init_checked-raw log_code pow_code start word s reset io fresh.is_ready fresh.word_of_four
          fresh.resets in
      let (d, f, out, idle) =
        run-session clock greeting (λ p. p) (agreed c.max_vec_len 0 max_vec) _ (Idle Rest)
          (record c { drv = t }) j rs n (raw-Serves max_vec c.max_vec_len hi) some greets
          (record {
            ready = ready';
            four = four';
            quiet = ap get_sniff debug ∙ fresh.no_sniffer;
            free = period;
            rest = subst (λ (x : S). Rest x j) (sym same) rest;
          })
          client.proper client.bytes client.is_open client.writable client.sends client.many in
      (t, d, e, f, out, idle.rest)
