-- ===== src/Conn/Session.antt =====
-- What a client of xvcSrv/src/xvcConn.cc sends and what it is to receive: the XVC protocol 1.0,
-- stated with a target that is clocked bit by bit.
pub mod Total
pub mod Moves
pub mod Vectors
pub mod Piece
pub mod Pieces
pub mod Input
pub mod Commands
pub mod Chunk
pub mod Loop
pub mod Run
pub mod Refused
use xvc_support.Base.{
  ℕ, ◌+◌, ◌*◌, ◌/◌, ◌^◌, ◌≤◌, ◌<◌, ◌≡◌, Bool, List, [], ◌∷◌, ◌++◌, length, take, drop, ok, to_le,
  of_le, IsBytes, All,
}
use xvc_support.Serial.{serial}
use xvc_support.Conn.{Driver}
use xvc_support.Conn.Fill.{stream, IsOpen}
use xvc_support.Conn.Flush.{IsWritable}
use xvc_support.Conn.Limits.{agreed}

-- The three messages: the period in ns, and the number of bits with the octets of TMS and TDI.
pub data Request : Type 0 where
  info : Request
  tck : ℕ → Request
  shift_of : ℕ → List ℕ → List ℕ → Request

-- "getinfo:", "settck:" and "shift:".
abbrev pub info_word : List ℕ
info_word = 103 ∷ 101 ∷ 116 ∷ 105 ∷ 110 ∷ 102 ∷ 111 ∷ 58 ∷ []

abbrev pub tck_word : List ℕ
tck_word = 115 ∷ 101 ∷ 116 ∷ 116 ∷ 99 ∷ 107 ∷ 58 ∷ []

abbrev pub shift_word : List ℕ
shift_word = 115 ∷ 104 ∷ 105 ∷ 102 ∷ 116 ∷ 58 ∷ []

abbrev pub encode : Request → List ℕ
encode info = info_word
encode (tck p) = tck_word ++ to_le 4 p
encode (shift_of bits tms tdi) = shift_word ++ (to_le 4 bits ++ (tms ++ tdi))

abbrev pub encodes : List Request → List ℕ
encodes [] = []
encodes (r ∷ rs) = encode r ++ encodes rs

abbrev pub octets : ℕ → ℕ
octets bits = (bits + 7) / 8

-- A request for vectors of `m` octets at most.
abbrev pub IsRequest : ℕ → Request → Type 0
IsRequest m info = Unit
IsRequest m (tck p) = p < 2 ^ 32
IsRequest m (shift_of bits tms tdi) =
    (bits + 7 < 2 ^ 32)
    × (octets bits ≤ m)
    × (length tms ≡ octets bits)
    × (length tdi ≡ octets bits)
    × IsBytes tms
    × IsBytes tdi

-- What a client sends before it closes: the requests, for vectors of `m` octets at most and fewer
-- than `n`, and the segments they come in; and what the writes to it return, of which none fails.
pub record IsClient (m n : ℕ) (rs : List Request) (net : List (List ℕ)) (puts : List ℕ)
    : Type 0 where
  pub proper : All (IsRequest m) rs
  pub bytes : All IsBytes net
  pub is_open : IsOpen net
  pub writable : IsWritable puts
  pub sends : stream net ≡ encodes rs
  pub many : length rs < n

module _ {J : Type 0} (clock : ℕ → ℕ → J → Bool × J) (greeting : List ℕ) (period : ℕ → ℕ) where
  -- The reply, and the target after it.
  abbrev pub answer : Request → J → List ℕ × J
  answer info j = (greeting, j)
  answer (tck p) j = (to_le 4 (period p), j)
  answer (shift_of bits tms tdi) j =
      let x = serial clock bits (of_le tms) (of_le tdi) j in (to_le (octets bits) x.0, x.1)

  abbrev pub answers : List Request → J → List ℕ × J
  answers [] j = ([], j)
  answers (r ∷ rs) j = let a = answer r j in let b = answers rs a.1 in (a.0 ++ b.0, b.1)

-- A driver that does to the target what the bits of a vector do one clock after the other, for
-- vectors of `limit` octets at most, whatever it does itself.
pub record Serves {D J : Type 0} (clock : ℕ → ℕ → J → Bool × J) (period : ℕ → ℕ) (limit m : ℕ)
    (api : Driver D) (At : D → J → Type 0) : Type 0 where
  pub queried :
      (d : D) (j : J)
      → At d j
      → (v : ℕ) × (d' : D) × (api.query d ≡ (ok v, d'))
        × At d' j
        × (agreed m v (api.get_max_vector_size d') ≤ limit)
  pub timed :
      (p : ℕ) (d : D) (j : J)
      → At d j
      → (d' : D) × (api.set_period_ns p d ≡ (ok (period p), d')) × At d' j
  pub shifted :
      (bits : ℕ) (tms tdi tdo : List ℕ) (d : D) (j : J)
      → let n = octets bits in
        let x = serial clock bits (of_le (take n tms)) (of_le (take n tdi)) j in
        At d j
        → 1 ≤ bits
        → n ≤ limit
        → n ≤ length tms
        → n ≤ length tdi
        → n ≤ length tdo
        → IsBytes (take n tms)
        → IsBytes (take n tdi)
        → (d' : D) × (api.send_vectors bits tms tdi tdo d ≡ (ok (to_le n x.0 ++ drop n tdo), d'))
          × At d' x.1
