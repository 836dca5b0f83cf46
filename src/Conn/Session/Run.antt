-- ===== src/Conn/Session/Run.antt =====
-- `run` of xvcSrv/src/xvcConn.cc over a whole session.
use mathlib.Core.Path.{subst}
use xvc_support.Base.{
  ℕ, zero, suc, ◌+◌, ◌≤◌, ◌<◌, ◌≡◌, refl, ap, sym, ◌∙◌, Bool, true, List, [], ◌∷◌, ◌++◌, length,
  take, drop, sys_err, err, after, arith, All, IsBytes, append-nil, length-append,
}
use xvc_support.Conn.{Driver, Conn, read, round, rounds, run, alloc_bufs, drive}
use xvc_support.Conn.Fill.{stream, IsOpen}
use xvc_support.Conn.Flush.{IsWritable}
use xvc_support.Conn.Limits.{agreed, agreed_lem}
use xvc_support.Conn.Window.Run.{fresh}
use xvc_support.Conn.Session.{Request, encodes, IsRequest, answers, Serves}
use xvc_support.Conn.Session.Total.{Returns, Returns-write, Returns-after, Returns_inv}
use xvc_support.Conn.Session.Loop.{Pending, Remains, commands_total, two_in}
use xvc_support.Conn.Session.Chunk.{next_chunk, fresh-Done}
use xvc_support.Conn.Session.Input.{Done}

no_more : (net : List (List ℕ)) → IsOpen net → length (stream net) ≡ 0 → net ≡ []
no_more [] o h = refl
no_more (seg ∷ segs) o h = absurd (omega (arith, o.0, length-append {0} seg (stream segs)))

two_octets : (r : Request) (rs : List Request) → 2 ≤ length (encodes (r ∷ rs))
two_octets r rs = two_in r (encodes rs)

module _ {D : Type 0} (api : Driver D) (greeting : ℕ → List ℕ) where
  read_end : (k : ℕ) (s : Conn D) → s.net ≡ [] → read k s ≡ (err sys_err, s)
  unfolding read
  read_end k s e =
      let closed : s ≡ record s { net = [] } = ap (λ x. record s { net = x }) e in
      subst (λ (t : Conn D). read k t ≡ (err sys_err, t)) (sym closed) refl

  round_end : (s : Conn D) → s.net ≡ [] → round api greeting s ≡ (err sys_err, s)
  unfolding round
  round_end s e = ap (after _) (read_end s.chunk s e)

module _ {D J : Type 0} (clock : ℕ → ℕ → J → Bool × J) (greeting : ℕ → List ℕ) (period : ℕ → ℕ)
    (limit m sup : ℕ) (api : Driver D) (At : D → J → Type 0)
    (hw : Serves clock period limit m api At) (greets : length (greeting m) < m + 128)
    (lo : 1 ≤ sup) (hi : sup ≤ limit) (all_sent : List ℕ) (last : J) where
  abbrev Left : List Request → ℕ → Conn D → Type 0
  Left = Pending clock greeting period limit m sup api At hw greets lo hi all_sent last

  round_total :
      (r : Request) (rs : List Request) (s : Conn D)
      → All (IsRequest m) (r ∷ rs)
      → Left (r ∷ rs) 0 s
      → Returns
          (λ _ t.
            Remains clock greeting period limit m sup api At hw greets lo hi all_sent last rs t)
          (round api greeting s)
  unfolding round
  round_total r rs s good p =
      let (bs, net, e, some, room, done) = next_chunk m s p.done (omega (arith, two_octets r rs)) in
      let Q = Remains clock greeting period limit m sup api At hw greets lo hi all_sent last rs in
      Returns-after (λ _ t. Q t) (read s.chunk s) _ bs (record s { net = net }) e
        (Returns-write (λ _ t. Q t) (record s { net = net }) s.rxb bs s.rp _ room
          (commands_total clock greeting period limit m sup api At hw greets lo hi all_sent last
            (length bs) r rs (length bs) _ good (omega arith) some
            (record {
              out = p.out;
              d = p.d;
              j = p.j;
              done = done;
              at_j = p.at_j;
              replies = p.replies;
              target = p.target;
            })))

  rounds_total :
      (n : ℕ) (rs : List Request) (s : Conn D)
      → All (IsRequest m) rs
      → length rs < n
      → Left rs 0 s
      → (t : Conn D) × (rounds api greeting n s ≡ (err sys_err, t))
        × (t.sent ≡ all_sent)
        × At t.drv last
  unfolding rounds
  rounds_total zero rs s good lt p = absurd (omega arith)
  rounds_total (suc n) [] s good lt p =
      let ((b, start), v) = p.done in
      let over : s.net ≡ [] = no_more s.net v.is_open (
        omega (
          arith,
          ap length v.input_is,
          length-append {0} (take s.rl (drop s.rp s.rxb)) (stream s.net),
        )) in
      (
        s,
        ap (after (λ u. rounds api greeting n)) (round_end api greeting s over),
        v.sent_is ∙ sym (append-nil p.out) ∙ p.replies,
        subst (At s.drv) p.target (subst (λ (k : D). At k p.j) (sym v.drv_is) p.at_j),
      )
  rounds_total (suc n) (r ∷ rs) s good lt p =
      let (u, t, e, (rs', le, good', q)) =
        Returns_inv
          (λ _ t.
            Remains clock greeting period limit m sup api At hw greets lo hi all_sent last rs t)
          (round api greeting s) (round_total r rs s good p) in
      let (t2, f, out, at_last) = rounds_total n rs' t good' (omega arith) q in
      (t2, ap (after (λ u. rounds api greeting n)) e ∙ f, out, at_last)

-- A client's session. The client sends requests, split into segments in whatever way, and closes
-- the connection; vectors are of `max_vec_len` octets at most. The server reads until there is no
-- more, has sent the replies of the protocol in order, each shift's TDO being what the target puts
-- out when it is clocked with the bits of TMS and TDI one after the other, and the target is left
-- as after all these clocks, whatever the size of the pieces that the driver takes. The driver
-- does that for vectors of `limit` octets, which the agreed size does not exceed, the largest
-- vector of the server is not 0, the greeting with its final 0 fits the send block, setsockopt
-- (TCP_NODELAY) succeeds and no write fails, each taking as much of a reply as it will, and the
-- rounds of the outer loop are more than the requests.
pub run-session :
    {D J : Type 0} (clock : ℕ → ℕ → J → Bool × J) (greeting : ℕ → List ℕ) (period : ℕ → ℕ)
    (limit : ℕ) (api : Driver D) (At : D → J → Type 0) (s : Conn D) (j : J) (rs : List Request)
    (n : ℕ)
    → Serves clock period limit s.max_vec_len api At
    → 1 ≤ s.max_vec_len
    → length (greeting s.max_vec_len) < s.max_vec_len + 128
    → At s.drv j
    → All (IsRequest s.max_vec_len) rs
    → All IsBytes s.net
    → IsOpen s.net
    → IsWritable s.puts
    → stream s.net ≡ encodes rs
    → length rs < n
    → let a = answers clock (greeting s.max_vec_len) period rs j in
      (t : Conn D) × (run api greeting true n s ≡ (err sys_err, t))
      × (t.sent ≡ s.sent ++ a.0)
      × At t.drv a.1
unfolding run alloc_bufs drive
run-session clock greeting period limit api At s j rs n hw some greets at_j good bytes open_
      writable input many =
    let m : ℕ = s.max_vec_len in
    let (v, d, e, at_d, hi) = hw.queried s.drv j at_j in
    let sup : ℕ = agreed m v (api.get_max_vector_size d) in
    let (_, _, lo) = agreed_lem m v (api.get_max_vector_size d) some in
    let a = answers clock (greeting m) period rs j in
    let s1 = fresh m d sup s in
    let (t, f, out, at_last) =
      rounds_total clock greeting period limit m sup api At hw greets lo hi (s.sent ++ a.0) a.1 n rs
        s1 good many
        (record {
          out = s.sent;
          d = d;
          j = j;
          done =
              subst (λ x. Done m x s.sent [] 0 sup d s1) input
                (fresh-Done sup d s bytes open_ writable);
          at_j = at_d;
          replies = refl;
          target = refl;
        }) in
    (t, rw e f, out, at_last)
