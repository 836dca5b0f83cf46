-- ===== src/Header/Memory.antt =====
-- Headers in octet buffers: `getw32`, `setw32`, `getHdr` and `setHdr`. `le` is `isLE()`, the
-- octet order of the host; `memcpy` to and from a `uint32_t` follows it.
use xvc_support.Base.{
  ℕ, ◌+◌, Bool, true, false, Option, List, leb, if◌then◌else◌, take, replicate, sub32, to_le, of_le,
  read_at, write_at,
}
use mathlib.Core.Option
use mathlib.Core.List.{reverse}

-- The octets of a `uint32_t` in the host's memory, and the number that such octets hold.
unfoldable pub word_bytes : Bool → ℕ → List ℕ
word_bytes true w = to_le 4 w
word_bytes false w = reverse (to_le 4 w)

unfoldable pub word_of : Bool → List ℕ → ℕ
word_of true bs = of_le bs
word_of false bs = of_le (reverse bs)

-- `__builtin_bswap32`.
unfoldable pub bswap32 : ℕ → ℕ
bswap32 w = of_le (reverse (to_le 4 w))

unfoldable pub getw32 : Bool → List ℕ → ℕ → Option ℕ
getw32 le mem off =
    Option.map (λ bs. let w = word_of le bs in if le then w else bswap32 w) (read_at mem off 4)

-- `l` octets are written, four at most.
unfoldable pub setw32 : Bool → List ℕ → ℕ → ℕ → ℕ → Option (List ℕ)
setw32 le mem off w l =
    let w' = if le then w else bswap32 w in
    write_at mem off (take (if leb 4 l then 4 else l) (word_bytes le w'))

-- `memset( buf + 4, 0, empty )`, with `empty` computed on `unsigned` from `getWordSize()`.
unfoldable pub set_hdr : Bool → ℕ → List ℕ → ℕ → ℕ → Option (List ℕ)
unfolding Option.bind
set_hdr le word_size mem off hdr =
    Option.bind (setw32 le mem off hdr 4)
      (λ mem'. write_at mem' (off + 4) (replicate (sub32 word_size 4) 0))
