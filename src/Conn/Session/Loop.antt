-- ===== src/Conn/Session/Loop.antt =====
-- The inner loop of `run` of xvcSrv/src/xvcConn.cc on the requests of a client.
use mathlib.Core.Path.{subst}
use xvc_support.Base.{
  ℕ, zero, suc, ◌+◌, ◌-◌, ◌*◌, ◌≤◌, ◌<◌, ◌≡◌, refl, ap, ap₂, sym, ◌∙◌, inl, inr, Bool, true, false,
  List, [], ◌∷◌, ◌++◌, length, take, drop, ◌==◌, if◌then◌else◌, of_le, throw, proto_err, Result, ok,
  pure, arith, All, append_assoc, Bool-cases, ==→eq, length-append, length-take, length-drop,
}
use xvc_support.Conn.{Driver, Conn, fill, flush, shift, set_tck, get_info, command, commands}
use xvc_support.Conn.Fill.{stream}
use xvc_support.Conn.Flush.{flush_lem}
use xvc_support.Conn.Window.{Any, with_sent}
use xvc_support.Conn.Window.Moves.{widen, above}
use xvc_support.Conn.Session.{
  Request, info, tck, shift_of, encode, encodes, octets, IsRequest, answer, answers, Serves,
}
use xvc_support.Conn.Session.Total.{Returns, Returns-bind, Returns-read, Returns_mono}
use xvc_support.Conn.Session.Moves.{at_least, peek-Sees}
use xvc_support.Conn.Session.Input.{Before, Filled, Done, in_block, fill_total}
use xvc_support.Conn.Session.Commands.{Leaves, get_info_total, set_tck_total, shift_total}

applied :
    {S : Type 0} (b : Bool) (f : S → Result (Unit {0}) × S) (t : S)
    → (if b then (ok tt, t) else f t) ≡ (if b then pure tt else f) t
applied true f t = refl
applied false f t = refl

pub two_in : (r : Request) (rest : List ℕ) → 2 ≤ length (encode r ++ rest)
two_in info rest = omega arith
two_in (tck p) rest = omega arith
two_in (shift_of bits tms tdi) rest = omega arith

-- More than one octet is taken.
fewer : (n left : ℕ) → 2 ≤ n → at_least 2 left - n ≤ left - 1
fewer n left h = ground arith

module _ {D : Type 0} (m : ℕ) {inp out rep : List ℕ} {left sup : ℕ} {d : D} where
  flush_total :
      (s : Conn D)
      → Done m inp out rep left sup d s
      → Returns (λ _ t. Done m inp (out ++ rep) [] left sup d t) (flush s)
  flush_total s ((b, start), v) =
      let w = b.window in
      let (ks, out', k, le, kept, ends) = flush_lem s (omega (arith, w.reply_le, w.tx_size)) in
      elim ends [
        | inl (never, _) ↦ absurd (never v.puts_are)
        | inr ((z, e), f) ↦ rw f (
          (
            record {
              rp = b.rp;
              rl = b.rl;
              window = with_sent m s ks out' k w le;
              low = b.low;
              near = b.near;
            },
            start,
          ),
          record {
            input_is = v.input_is;
            sent_is = e ∙ ap₂ ◌++◌ v.sent_is v.reply_is;
            puts_are = kept v.puts_are;
            reply_is = ap (λ (i : ℕ). take i s.txb) z;
            left_is = v.left_is;
            sup_is = v.sup_is;
            drv_is = v.drv_is;
            is_open = v.is_open;
          },
        )
      ]

module _ {D J : Type 0} (clock : ℕ → ℕ → J → Bool × J) (greeting : ℕ → List ℕ) (period : ℕ → ℕ)
    (limit m sup : ℕ) (api : Driver D) (At : D → J → Type 0)
    (hw : Serves clock period limit m api At) (greets : length (greeting m) < m + 128)
    (lo : 1 ≤ sup) (hi : sup ≤ limit) (all_sent : List ℕ) (last : J) where
  -- These requests are left, and what was sent and will be sent is `all_sent`.
  pub record Pending (rs : List Request) (left : ℕ) (t : Conn D) : Type 0 where
    pub out : List ℕ
    pub d : D
    pub j : J
    pub done : Done m (encodes rs) out [] left sup d t
    pub at_j : At d j
    pub replies : out ++ (answers clock (greeting m) period rs j).0 ≡ all_sent
    pub target : (answers clock (greeting m) period rs j).1 ≡ last

  abbrev After : Request → List ℕ → List ℕ → ℕ → J → Conn D → Type 0
  After r rest out left j t =
      let a = answer clock (greeting m) period r j in
      (k : ℕ) × (k ≤ left - 1)
      × Leaves clock greeting period limit m api At hw rest out a.0 k sup a.1 t

  counted :
      (r : Request) (rest out : List ℕ) (left k : ℕ) (j : J) (x : Result (Unit {0}) × Conn D)
      → let a = answer clock (greeting m) period r j in
        k ≤ left - 1
        → Returns (λ _ y. Leaves clock greeting period limit m api At hw rest out a.0 k sup a.1 y) x
        → Returns (λ _ y. After r rest out left j y) x
  counted r rest out left k j x le p =
      let a = answer clock (greeting m) period r j in
      Returns_mono (λ _ y. Leaves clock greeting period limit m api At hw rest out a.0 k sup a.1 y)
        (λ _ y. After r rest out left j y) x p (λ w y q. (k, le, q))

  served :
      {out rep : List ℕ} {d : D} {j : J} (r : Request) (rest : List ℕ) (left word : ℕ) (t : Conn D)
      → IsRequest m r
      → At d j
      → word ≡ of_le (take 2 (encode r ++ rest))
      → Before m 2 (encode r ++ rest) out rep (at_least 2 left) sup d t
      → Returns
          (λ _ t. After r rest out left j t)
          ((if word == 0x6567
              then get_info api greeting
              else if word == 0x6573
              then set_tck api
              else if word == 0x6873
              then shift api
              else throw proto_err)
            t)
  served {out} {rep} {d} {j} info rest left word t good at_d e (b, v) = rw e (
      counted info rest out left (at_least 2 left - 8) j (get_info api greeting t)
        (fewer 8 left (omega arith))
        (get_info_total clock greeting period limit m api At hw rest (at_least 2 left) at_d t greets
          (widen Any m 2 8 t (omega arith) b, v)))
  served {out} {rep} {d} {j} (tck p) rest left word t good at_d e (b, v) = rw e (
      counted (tck p) rest out left (at_least 2 left - 11) j (set_tck api t)
        (fewer 11 left (omega arith))
        (set_tck_total clock greeting period limit m api At hw rest (at_least 2 left) at_d p t good
          (widen Any m 2 11 t (omega arith) b, v)))
  served {out} {rep} {d} {j} (shift_of bits tms tdi) rest left word t good at_d e (b, v) = rw e (
      counted (shift_of bits tms tdi) rest out left (at_least 2 left - 10 - 2 * octets bits) j
        (shift api t) (omega (arith, fewer 10 left (omega arith)))
        (shift_total clock greeting period limit m api At hw rest (at_least 2 left) at_d bits tms
          tdi t good lo hi (widen Any m 2 10 t (omega arith) b, v)))

  command_total :
      (r : Request) (rs : List Request) (left : ℕ) (s : Conn D)
      → IsRequest m r
      → Pending (r ∷ rs) left s
      → Returns (λ _ t. (k : ℕ) × (k ≤ left - 1) × Pending rs k t) (command api greeting s)
  unfolding command
  command_total r rs left s good p =
      let ((b, start), v) = p.done in
      let inp : List ℕ = encode r ++ encodes rs in
      let a = answer clock (greeting m) period r p.j in
      Returns-bind (λ _ t. Filled m 2 inp p.out [] (at_least 2 left) sup p.d t)
        (λ _ t. (k : ℕ) × (k ≤ left - 1) × Pending rs k t) (fill 2 s) _
        (fill_total m 2 s (omega arith) (two_in r (encodes rs))
          (widen Any m 0 2 s (omega arith) b, v))
        (λ u t f.
          let ((c, full), v2) = f in
          let index : t.rp + 0 ≡ t.rp = omega arith in
          let word : of_le (take 2 (drop t.rp t.rxb)) ≡ of_le (take 2 inp) =
            ap (λ (k : ℕ). of_le (take 2 (drop k t.rxb))) (sym index)
            ∙ ap of_le (
                peek-Sees 0 2 t (in_block m 2 t (omega arith) c)
                  (omega (arith, full, c.window.rl_is)) v2) in
          Returns-read (λ _ t. (k : ℕ) × (k ≤ left - 1) × Pending rs k t) t t.rxb t.rp 2 _
            (omega (arith, c.window.rx_size, c.window.rp_is, c.low))
            (Returns-bind (λ _ t. After r (encodes rs) p.out left p.j t)
              (λ _ t. (k : ℕ) × (k ≤ left - 1) × Pending rs k t) _ _
              (served r (encodes rs) left (of_le (take 2 (drop t.rp t.rxb))) t good p.at_j word
                (c, v2))
              (λ w x (k, le, (d', q, at_d)).
                Returns_mono (λ _ t. Done m (encodes rs) (p.out ++ a.0) [] k sup d' t)
                  (λ _ t. (k : ℕ) × (k ≤ left - 1) × Pending rs k t) (flush x) (flush_total m x q)
                  (λ w2 y z. (
                    k,
                    le,
                    record {
                      out = p.out ++ a.0;
                      d = d';
                      j = a.1;
                      done = z;
                      at_j = at_d;
                      replies = append_assoc p.out a.0 _ ∙ p.replies;
                      target = p.target;
                    },
                  )))))

  -- What is left after a chunk.
  abbrev pub Remains : List Request → Conn D → Type 0
  Remains rs t =
      (rs' : List Request) × (length rs' ≤ length rs) × All (IsRequest m) rs' × Pending rs' 0 t

  none_left : (k : ℕ) (t : Conn D) → 1 ≤ k → Pending [] k t → ⊥
  none_left k t h p =
      let ((b, start), v) = p.done in
      omega (
        arith,
        ap length v.input_is,
        length-append {0} (take t.rl (drop t.rp t.rxb)) (stream t.net),
        length-take t.rl (drop t.rp t.rxb),
        length-drop t.rp t.rxb,
        in_block m 0 t (omega arith) b,
        v.left_is,
      )

  -- The test of the inner loop, where `more` is what further rounds do.
  next_command :
      (rs : List Request) (k : ℕ) (t : Conn D) (x : Result (Unit {0}) × Conn D)
      → All (IsRequest m) rs
      → Pending rs k t
      → ((r : Request) (rs' : List Request)
          → 1 ≤ k
          → All (IsRequest m) (r ∷ rs')
          → Pending (r ∷ rs') k t
          → Returns (λ _ t. Remains rs' t) x)
      → Returns (λ _ t. Remains rs t) (if t.rl == 0 then (ok tt, t) else x)
  next_command rs k t x good p more = elim (Bool-cases (t.rl == 0)) [
    | inl z ↦
        let none_in : k ≡ 0 = omega (arith, ==→eq t.rl 0 z, p.done.1.left_is) in
        rw z (rs, omega arith, good, subst (λ (i : ℕ). Pending rs i t) none_in p)
    | inr z ↦
        let some_in : 1 ≤ k = omega (arith, above t.rl z, p.done.1.left_is) in
        rw z (others rs good p more some_in)
  ]
    where
      others :
          (rs : List Request)
          → All (IsRequest m) rs
          → Pending rs k t
          → ((r : Request) (rs' : List Request)
              → 1 ≤ k
              → All (IsRequest m) (r ∷ rs')
              → Pending (r ∷ rs') k t
              → Returns (λ _ t. Remains rs' t) x)
          → 1 ≤ k
          → Returns (λ _ t. Remains rs t) x
      others [] good p more h = absurd (none_left k t h p)
      others (r ∷ rs') good p more h =
          Returns_mono (λ _ t. Remains rs' t) (λ _ t. Remains (r ∷ rs') t) x (more r rs' h good p)
            (λ u y (l, le, g, q). (l, omega arith, g, q))

  pub commands_total :
      (n : ℕ) (r : Request) (rs : List Request) (left : ℕ) (s : Conn D)
      → All (IsRequest m) (r ∷ rs)
      → left ≤ n
      → 1 ≤ n
      → Pending (r ∷ rs) left s
      → Returns (λ _ t. Remains rs t) (commands api greeting n s)
  unfolding commands
  commands_total zero r rs left s good le lo1 p = absurd (omega arith)
  commands_total (suc n) r rs left s good le lo1 p =
      Returns-bind (λ _ t. (k : ℕ) × (k ≤ left - 1) × Pending rs k t) (λ _ t. Remains rs t)
        (command api greeting s) _ (command_total r rs left s good.0 p)
        (λ u t (k, few, q).
          subst (Returns (λ _ t. Remains rs t)) (applied (t.rl == 0) (commands api greeting n) t) (
            next_command rs k t (commands api greeting n t) good.1 q
              (λ r' rs' h g p'. commands_total n r' rs' k t g (omega arith) (omega arith) p')))
