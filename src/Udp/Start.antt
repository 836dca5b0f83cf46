-- ===== src/Udp/Start.antt =====
-- The constructor of `JtagDriverUdp`, xvcSrv/src/xvcDrvUdp.cc: its options, the address of the target
-- and the limit of the datagrams. A text is the list of its octets; what getopt and sscanf return,
-- getaddrinfo, connect and the two socket options are parameters.
use xvc_support.Base.{
  ℕ, ◌+◌, ◌*◌, ◌^◌, ◌≤◌, ◌<◌, ◌≡◌, refl, ap, sym, ◌∙◌, ◌≢◌, Bool, true, false, Option, none, some,
  List, [], ◌∷◌, ◌++◌, ◌==◌, length, All, ltb, if◌then◌else◌, sys_err, runtime_error, Result, ok,
  err, Eff, pure, ◌>>=◌, get, arith, ne→==_false, not,
}
use xvc_support.Driver.{Xfer, Drv, query}
use xvc_support.Udp.{Socket, max_vector_size, max_vector_size-fits}

-- What getopt returns: -m with what sscanf makes of its argument, -f, or another letter.
pub data UdpLetter : Type 0 where
  letter_m : Option ℕ → UdpLetter
  letter_f other_letter : UdpLetter

-- The variables that the options set.
pub record UdpOptions : Type 0 where
  pub mtu : ℕ
  pub user_mtu : Bool
  pub frag : Bool

unfoldable pub udp_options : List UdpLetter → UdpOptions → Result UdpOptions
udp_options [] o = ok o
udp_options (letter_m (some n) ∷ opts) o = udp_options opts (record o { mtu = n; user_mtu = true })
udp_options (letter_m none ∷ opts) o = err runtime_error
udp_options (letter_f ∷ opts) o = udp_options opts (record o { frag = true })
udp_options (other_letter ∷ opts) o = err runtime_error

abbrev pub colon : ℕ
colon = 58

abbrev pub dflt_port : List ℕ
dflt_port = 50 ∷ 53 ∷ 52 ∷ 50 ∷ []

abbrev pub maxl : ℕ
maxl = 256

-- strchr: the octets before and behind the first colon.
unfoldable pub at_colon : List ℕ → Option (List ℕ × List ℕ)
at_colon [] = none
at_colon (c ∷ cs) =
    if c == colon
    then some ([], cs)
    else elim (at_colon cs) [ none ↦ none | some (host, port) ↦ some (c ∷ host, port) ]

-- The name of the host and the one of the port.
unfoldable pub host_and_port : List ℕ → Result (List ℕ × List ℕ)
host_and_port target = elim (at_colon target) [
  | none ↦ ok (target, dflt_port)
  | some (host, port) ↦ if ltb maxl (length host + 1) then err runtime_error else ok (host, port)
]

-- The limit, from IP_MTU where getsockopt finds it.
unfoldable pub mtu_limit : Option ℕ → UdpOptions → ℕ
mtu_limit none o = o.mtu
mtu_limit (some ip_mtu) o =
    if ltb ip_mtu o.mtu then ip_mtu else if not o.user_mtu then ip_mtu else o.mtu

-- The driver's limit, and whether datagrams must not be fragmented.
pub record UdpConf : Type 0 where
  pub mtu_ : ℕ
  pub dont_fragment : Bool

module _ {A : Type 0} (getaddrinfo : List ℕ → List ℕ → Option A) (connect set_df : A → Bool)
    (ip_mtu : A → Option ℕ) where
  unfoldable pub settled : UdpOptions → A → Result UdpConf
  settled o a =
      if not (connect a)
      then err sys_err
      else if o.frag
      then ok (record { mtu_ = mtu_limit (ip_mtu a) o; dont_fragment = false })
      else if set_df a
      then ok (record { mtu_ = mtu_limit (ip_mtu a) o; dont_fragment = true })
      else err sys_err

  unfoldable pub resolved : UdpOptions → List ℕ × List ℕ → Result UdpConf
  resolved o (host, port) = elim (getaddrinfo host port) [
    | none ↦ err runtime_error
    | some a ↦ settled o a
  ]

  unfoldable pub udp_start : List UdpLetter → List ℕ → Result UdpConf
  udp_start opts target =
      elim (udp_options opts (record { mtu = 1450; user_mtu = false; frag = false })) [
        | err e ↦ err e
        | ok o ↦ elim (host_and_port target) [ err e ↦ err e | ok names ↦ resolved o names ]
      ]

-- `init`: whether it warns that the target has no memory.
unfoldable pub udp_init : Bool → Xfer Socket → (ℕ → ℕ) → Eff (Drv Socket) Bool
udp_init le xfer pow_code = do _ ← query le xfer pow_code; s ← get; pure (s.mem_depth_ == 0)

-- A text without a colon before the first one.
at_colon-append :
    (host port : List ℕ)
    → All (λ c. c ≢ colon) host
    → at_colon (host ++ (colon ∷ port)) ≡ some (host, port)
unfolding at_colon
at_colon-append [] port free = refl
at_colon-append (c ∷ cs) port (ne, free) =
    rw (ne→==_false c colon ne) (rw (at_colon-append cs port free) refl)

-- A name of less than 256 octets without a colon, a colon and a port are taken apart as they were
-- put together; the port may have further colons.
host_and_port-colon :
    (host port : List ℕ)
    → All (λ c. c ≢ colon) host
    → length host < maxl
    → host_and_port (host ++ (colon ∷ port)) ≡ ok (host, port)
unfolding host_and_port
host_and_port-colon host port free short =
    rw (at_colon-append host port free, host_and_port) (ground arith)

-- Where the socket tells its IP_MTU, the limit is not above it, and is the option's number if that
-- is not above it either.
mtu_limit-le :
    (m : ℕ) (o : UdpOptions)
    → (mtu_limit (some m) o ≤ m) × (o.user_mtu ≡ true → o.mtu ≤ m → mtu_limit (some m) o ≡ o.mtu)
unfolding mtu_limit
mtu_limit-le m o = ground arith

conf_fields :
    (f : Bool) (x : ℕ) (conf : UdpConf)
    → ◌≡◌ {A = Result UdpConf} (ok (record { mtu_ = x; dont_fragment = not f })) (ok conf)
    → (conf.mtu_ ≡ x) × (f ≡ false → conf.dont_fragment ≡ true)
conf_fields f x conf e =
    let p : ◌≡◌ {A = UdpConf} (record { mtu_ = x; dont_fragment = not f }) conf = cc in
    (
      ap (λ (c : UdpConf). c.mtu_) (sym p),
      λ q. ap (λ (c : UdpConf). c.dont_fragment) (sym p) ∙ ap not q,
    )

outcome_fields :
    (connected f df : Bool) (x : ℕ) (conf : UdpConf)
    → ◌≡◌ {A = Result UdpConf}
        (if not connected
          then err sys_err
          else if f
          then ok (record { mtu_ = x; dont_fragment = false })
          else if df
          then ok (record { mtu_ = x; dont_fragment = true })
          else err sys_err)
        (ok conf)
    → (conf.mtu_ ≡ x) × (f ≡ false → conf.dont_fragment ≡ true)
outcome_fields false f df x conf e = cc
outcome_fields true true df x conf e = conf_fields true x conf e
outcome_fields true false true x conf e = conf_fields false x conf e
outcome_fields true false false x conf e = cc

module _ {A : Type 0} (getaddrinfo : List ℕ → List ℕ → Option A) (connect set_df : A → Bool)
    (ip_mtu : A → Option ℕ) where
  resolved-le :
      (o : UdpOptions) (names : List ℕ × List ℕ) (a : A) (m : ℕ) (conf : UdpConf)
      → getaddrinfo names.0 names.1 ≡ some a
      → ip_mtu a ≡ some m
      → resolved getaddrinfo connect set_df ip_mtu o names ≡ ok conf
      → conf.mtu_ ≤ m
  unfolding settled resolved
  resolved-le o (host, port) a m conf found known e =
      let fields : (conf.mtu_ ≡ mtu_limit (ip_mtu a) o)
          × (o.frag ≡ false → conf.dont_fragment ≡ true) =
        outcome_fields (connect a) o.frag (set_df a) (mtu_limit (ip_mtu a) o) conf
          (rw (found, resolved) at e) in
      rw (fields.0) (rw known ((mtu_limit-le m o).0))

  -- Where the constructor succeeds on a host of less than 256 octets without a colon, a colon and
  -- a port, and the socket tells an IP_MTU of less than 2^32, the header word and two vectors of a
  -- size that `getMaxVectorSize` allows are within the IP_MTU, whatever options leave a limit
  -- `mtu_` that a word fits.
  pub udp_start-fits :
      (opts : List UdpLetter) (host port : List ℕ) (a : A) (m ws n : ℕ) (conf : UdpConf)
      → All (λ c. c ≢ colon) host
      → length host < maxl
      → getaddrinfo host port ≡ some a
      → ip_mtu a ≡ some m
      → m < 2 ^ 32
      → udp_start getaddrinfo connect set_df ip_mtu opts (host ++ (colon ∷ port)) ≡ ok conf
      → 1 ≤ ws
      → ws ≤ conf.mtu_
      → n ≤ max_vector_size conf.mtu_ ws
      → ws + 2 * n ≤ m
  unfolding udp_start
  udp_start-fits opts host port a m ws n conf free short found known small e lo hi h =
      let below : conf.mtu_ ≤ m =
        started (udp_options opts (record { mtu = 1450; user_mtu = false; frag = false })) e in
      omega (arith, (max_vector_size-fits conf.mtu_ ws n lo hi (omega arith) h).0)
    where
      started :
          (x : Result UdpOptions)
          → (elim x [
            | err f ↦ err f
            | ok o ↦ elim (host_and_port (host ++ (colon ∷ port))) [
              | err f ↦ err f
              | ok names ↦ resolved getaddrinfo connect set_df ip_mtu o names
            ]
          ])
            ≡ ok conf
          → conf.mtu_ ≤ m
      started (err f) q = cc
      started (ok o) q =
          resolved-le o (host, port) a m conf found known
            (rw (host_and_port-colon host port free short) at q)
