-- ===== src/Conn/Session/Refused.antt =====
-- A client of xvcSrv/src/xvcConn.cc that does not begin with a command.
use mathlib.Core.Path.{subst}
use xvc_support.Base.{
  ℕ, zero, suc, ◌+◌, ◌≤◌, ◌≡◌, ◌≢◌, refl, ap, sym, ◌∙◌, Bool, true, List, [], length, take, drop,
  ok, err, Result, Error, proto_err, Eff, after, All, IsBytes, of_le, arith, if◌then◌else◌, ◌==◌,
  ne→==_false, throw, read_at, write_at, le→leb, access,
}
use xvc_support.Conn.{
  Driver, Conn, command, commands, round, rounds, run, alloc_bufs, drive, fill, get_info, set_tck,
  shift,
}
use xvc_support.Conn.Fill.{stream, IsOpen, stored}
use xvc_support.Conn.Flush.{IsWritable}
use xvc_support.Conn.Limits.{agreed}
use xvc_support.Conn.Window.{Any}
use xvc_support.Conn.Window.Moves.{widen}
use xvc_support.Conn.Window.Run.{fresh}
use xvc_support.Conn.Session.{Serves}
use xvc_support.Conn.Session.Total.{Returns}
use xvc_support.Conn.Session.Moves.{peek-Sees, at_least}
use xvc_support.Conn.Session.Input.{Filled, Done, in_block, fill_total}
use xvc_support.Conn.Session.Chunk.{next_chunk, fresh-Done}

abbrev Fails : {A S : Type 0} → Error → (S → Type 0) → Result A × S → Type 0
Fails e P (ok a, t) = ⊥
Fails e P (err f, t) = (f ≡ e) × P t

module _ {A B S : Type 0} (e : Error) (Q : S → Type 0) where
  Fails-after : (x : Result A × S) (f : A → Eff S B) → Fails e Q x → Fails e Q (after f x)
  Fails-after (ok a, t) f p = elim p [ ]
  Fails-after (err r, t) f p = p

  Fails-bind :
      (P : A → S → Type 0) (x : Result A × S) (f : A → Eff S B)
      → Returns P x
      → ((a : A) (t : S) → P a t → Fails e Q (f a t))
      → Fails e Q (after f x)
  Fails-bind P (ok a, t) f p k = k a t p
  Fails-bind P (err r, t) f p k = elim p [ ]

module _ {A S : Type 0} (e : Error) (Q : S → Type 0) where
  Fails-inv : (x : Result A × S) → Fails e Q x → (t : S) × (x ≡ (err e, t)) × Q t
  Fails-inv (ok a, t) p = elim p [ ]
  Fails-inv (err r, t) p = (t, ap (λ y. (err y, t)) p.0, p.1)

module _ {B S : Type 0} (e : Error) (Q : S → Type 0) (s : S) where
  Fails-read :
      (mem : List ℕ) (off n : ℕ) (f : List ℕ → Eff S B)
      → off + n ≤ length mem
      → Fails e Q (f (take n (drop off mem)) s)
      → Fails e Q (after f (access (read_at mem off n) s))
  unfolding read_at
  Fails-read mem off n f h k = rw (le→leb (off + n) (length mem) h) k

  Fails-write :
      (mem bs : List ℕ) (off : ℕ) (f : List ℕ → Eff S B)
      → off + length bs ≤ length mem
      → Fails e Q (f (stored mem off bs) s)
      → Fails e Q (after f (access (write_at mem off bs) s))
  unfolding write_at
  Fails-write mem bs off f h k = rw (le→leb (off + length bs) (length mem) h) k

-- Two octets that none of the commands begins with.
abbrev pub IsUnknown : List ℕ → Type 0
IsUnknown inp =
    (2 ≤ length inp)
    × (of_le (take 2 inp) ≢ 0x6567)
    × (of_le (take 2 inp) ≢ 0x6573)
    × (of_le (take 2 inp) ≢ 0x6873)

module _ {D : Type 0} (api : Driver D) (greeting : ℕ → List ℕ) (m sup : ℕ) (inp out : List ℕ)
    (d : D) (bad : IsUnknown inp) where
  -- Nothing has been sent, and the driver is as it was.
  abbrev Untouched : Conn D → Type 0
  Untouched t = (t.sent ≡ out) × (t.drv ≡ d)

  no_command :
      (word : ℕ) (t : Conn D)
      → word ≡ of_le (take 2 inp)
      → Untouched t
      → Fails proto_err Untouched (
          (if word == 0x6567
              then get_info api greeting
              else if word == 0x6573
              then set_tck api
              else if word == 0x6873
              then shift api
              else throw proto_err)
            t)
  no_command word t e p =
      let (_, a, b, c) = bad in
      rw
        (
          e,
          ne→==_false (of_le (take 2 inp)) 0x6567 a,
          ne→==_false (of_le (take 2 inp)) 0x6573 b,
          ne→==_false (of_le (take 2 inp)) 0x6873 c,
        )
        (refl, p)

  command_refused :
      (left : ℕ) (s : Conn D)
      → Done m inp out [] left sup d s
      → Fails proto_err Untouched (command api greeting s)
  unfolding command
  command_refused left s ((b, start), v) =
      Fails-bind proto_err Untouched (λ _ t. Filled m 2 inp out [] (at_least 2 left) sup d t)
        (fill 2 s) _ (fill_total m 2 s (omega arith) bad.0 (widen Any m 0 2 s (omega arith) b, v))
        (λ u t ((c, full), v2).
          let index : t.rp + 0 ≡ t.rp = omega arith in
          let word : of_le (take 2 (drop t.rp t.rxb)) ≡ of_le (take 2 inp) =
            ap (λ (k : ℕ). of_le (take 2 (drop k t.rxb))) (sym index)
            ∙ ap of_le (
                peek-Sees 0 2 t (in_block m 2 t (omega arith) c)
                  (omega (arith, full, c.window.rl_is)) v2) in
          Fails-read proto_err Untouched t t.rxb t.rp 2 _
            (omega (arith, c.window.rx_size, c.window.rp_is, c.low))
            (Fails-after proto_err Untouched _ _
              (no_command (of_le (take 2 (drop t.rp t.rxb))) t word (v2.sent_is, v2.drv_is))))

  commands_refused :
      (n left : ℕ) (s : Conn D)
      → 1 ≤ n
      → Done m inp out [] left sup d s
      → Fails proto_err Untouched (commands api greeting n s)
  unfolding commands
  commands_refused zero left s h p = absurd (omega arith)
  commands_refused (suc n) left s h p =
      Fails-after proto_err Untouched (command api greeting s) _ (command_refused left s p)

  round_refused :
      (s : Conn D) → Done m inp out [] 0 sup d s → Fails proto_err Untouched (round api greeting s)
  unfolding round
  round_refused s p =
      let (bs, net, e, some, room, done) = next_chunk m s p (omega (arith, bad.0)) in
      rw e (
        Fails-write proto_err Untouched (record s { net = net }) s.rxb bs s.rp _ room
          (commands_refused (length bs) (length bs) _ some done))

  rounds_refused :
      (n : ℕ) (s : Conn D)
      → Done m inp out [] 0 sup d s
      → Fails proto_err Untouched (rounds api greeting (suc n) s)
  unfolding rounds
  rounds_refused n s p =
      Fails-after proto_err Untouched (round api greeting s) _ (round_refused s p)

-- A client that begins with two octets of no command gets nothing, its connection fails by
-- `ProtoErr`, and the target is left as it was.
pub run-refused :
    {D J : Type 0} (clock : ℕ → ℕ → J → Bool × J) (greeting : ℕ → List ℕ) (period : ℕ → ℕ)
    (limit : ℕ) (api : Driver D) (At : D → J → Type 0) (s : Conn D) (j : J) (n : ℕ)
    → Serves clock period limit s.max_vec_len api At
    → At s.drv j
    → All IsBytes s.net
    → IsOpen s.net
    → IsWritable s.puts
    → IsUnknown (stream s.net)
    → (t : Conn D) × (run api greeting true (suc n) s ≡ (err proto_err, t))
      × (t.sent ≡ s.sent)
      × At t.drv j
unfolding run alloc_bufs drive
run-refused {D = D} clock greeting period limit api At s j n hw at_j bytes open_ writable bad =
    let m : ℕ = s.max_vec_len in
    let (v, d, e, at_d, hi) = hw.queried s.drv j at_j in
    let sup : ℕ = agreed m v (api.get_max_vector_size d) in
    let s1 = fresh m d sup s in
    let (t, f, (out, same)) =
      Fails-inv proto_err (λ t. (t.sent ≡ s.sent) × (t.drv ≡ d)) (rounds api greeting (suc n) s1)
        (rounds_refused api greeting m sup (stream s.net) s.sent d bad n s1
          (fresh-Done sup d s bytes open_ writable)) in
    (t, rw e f, out, subst (λ (k : D). At k j) (sym same) at_d)
