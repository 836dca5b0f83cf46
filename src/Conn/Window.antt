-- ===== src/Conn/Window.antt =====
-- The window of the octets received and the blocks of xvcSrv/src/xvcConn.cc.
pub mod Moves
pub mod Pieces
pub mod Commands
pub mod Run
use xvc_support.Base.{
  ℕ, zero, suc, ◌+◌, ◌-◌, ◌*◌, ◌/◌, ◌%◌, ◌^◌, ◌≤◌, ◌<◌, ◌≡◌, refl, ap, sym, ◌∙◌, ◌⊎◌, inl, inr,
  Bool, true, false, not, List, [], ◌∷◌, ◌++◌, length, take, drop, leb, ltb, ◌==◌, if◌then◌else◌,
  u32, of_le, to_le, length-to_le, Result, ok, err, Eff, pure, after, arith, All, IsBytes,
  IsBytes-take, IsBytes-drop, length-append, length-take, length-drop, Bool-cases, ltb→lt,
  ltb_false→le, ==→eq,
}
use Prim.Native.Nat.{max}
use xvc_support.Conn.{
  Driver, Conn, read, fill_loop, fill, bump, flush, send_pieces, shift, set_tck, get_info, command,
  commands, round, vector_bytes,
}
use xvc_support.Conn.Safe.{
  Safe, Safe-bind, Safe-read, Safe-write, Safe-guard, Safe-drive, leb→le, leb_false→lt,
}

-- Nothing is said of the driver and of the size that is agreed with it.
abbrev pub Any : {D : Type 0} → D → ℕ → Type 0
Any d n = Unit {0}

-- The sizes of the blocks for a largest vector of `m` octets, and the window; `P` holds of the
-- driver and of the size that is agreed with it.
pub record IsWindow {D : Type 0} (P : D → ℕ → Type 0) (m rp rl : ℕ) (s : Conn D) : Type 0 where
  pub chunk_is : s.chunk ≡ 2 * m + 128
  pub rx_size : length s.rxb ≡ 2 * (2 * m + 128)
  pub tx_size : length s.txb ≡ m + 128
  pub max_is : s.max_vec_len ≡ m
  pub reply_le : s.tl ≤ m + 128
  pub rp_is : s.rp ≡ rp
  pub rl_is : s.rl ≡ rl
  pub rx_bytes : IsBytes s.rxb
  pub net_bytes : All IsBytes s.net
  pub kept : P s.drv s.sup_vec_len

module _ {D : Type 0} {P : D → ℕ → Type 0} (m : ℕ) where
  pub with_net :
      {rp rl : ℕ} (s : Conn D) (net : List (List ℕ))
      → IsWindow P m rp rl s
      → All IsBytes net
      → IsWindow P m rp rl (record s { net = net })
  with_net s net w h = record {
    chunk_is = w.chunk_is;
    rx_size = w.rx_size;
    tx_size = w.tx_size;
    max_is = w.max_is;
    reply_le = w.reply_le;
    rp_is = w.rp_is;
    rl_is = w.rl_is;
    rx_bytes = w.rx_bytes;
    net_bytes = h;
    kept = w.kept;
  }

  pub with_rxb :
      {rp rl : ℕ} (s : Conn D) (mem : List ℕ)
      → IsWindow P m rp rl s
      → length mem ≡ length s.rxb
      → IsBytes mem
      → IsWindow P m rp rl (record s { rxb = mem })
  with_rxb s mem w size bytes = record {
    chunk_is = w.chunk_is;
    rx_size = size ∙ w.rx_size;
    tx_size = w.tx_size;
    max_is = w.max_is;
    reply_le = w.reply_le;
    rp_is = w.rp_is;
    rl_is = w.rl_is;
    rx_bytes = bytes;
    net_bytes = w.net_bytes;
    kept = w.kept;
  }

  pub with_reply :
      {rp rl : ℕ} (s : Conn D) (mem : List ℕ) (n : ℕ)
      → IsWindow P m rp rl s
      → length mem ≡ length s.txb
      → n ≤ m + 128
      → IsWindow P m rp rl (record s { txb = mem; tl = n })
  with_reply s mem n w size le = record {
    chunk_is = w.chunk_is;
    rx_size = w.rx_size;
    tx_size = size ∙ w.tx_size;
    max_is = w.max_is;
    reply_le = le;
    rp_is = w.rp_is;
    rl_is = w.rl_is;
    rx_bytes = w.rx_bytes;
    net_bytes = w.net_bytes;
    kept = w.kept;
  }

  pub with_sent :
      {rp rl : ℕ} (s : Conn D) (puts sent : List ℕ) (k : ℕ)
      → IsWindow P m rp rl s
      → k ≤ s.tl
      → IsWindow P m rp rl (record s { puts = puts; sent = sent; tl = k })
  with_sent s puts sent k w le = record {
    chunk_is = w.chunk_is;
    rx_size = w.rx_size;
    tx_size = w.tx_size;
    max_is = w.max_is;
    reply_le = omega (arith, w.reply_le, le);
    rp_is = w.rp_is;
    rl_is = w.rl_is;
    rx_bytes = w.rx_bytes;
    net_bytes = w.net_bytes;
    kept = w.kept;
  }

  pub with_place :
      {rp rl : ℕ} (s : Conn D) (a b p l : ℕ)
      → IsWindow P m rp rl s
      → a ≡ p
      → b ≡ l
      → IsWindow P m p l (record s { rp = a; rl = b })
  with_place s a b p l w ea eb = record {
    chunk_is = w.chunk_is;
    rx_size = w.rx_size;
    tx_size = w.tx_size;
    max_is = w.max_is;
    reply_le = w.reply_le;
    rp_is = ea;
    rl_is = eb;
    rx_bytes = w.rx_bytes;
    net_bytes = w.net_bytes;
    kept = w.kept;
  }

  pub with_drv :
      {rp rl : ℕ} (s : Conn D) (d : D)
      → IsWindow P m rp rl s
      → P d s.sup_vec_len
      → IsWindow P m rp rl (record s { drv = d })
  with_drv s d w k = record {
    chunk_is = w.chunk_is;
    rx_size = w.rx_size;
    tx_size = w.tx_size;
    max_is = w.max_is;
    reply_le = w.reply_le;
    rp_is = w.rp_is;
    rl_is = w.rl_is;
    rx_bytes = w.rx_bytes;
    net_bytes = w.net_bytes;
    kept = k;
  }
