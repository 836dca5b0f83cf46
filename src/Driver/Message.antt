-- ===== src/Driver/Message.antt =====
-- The pure part of `sendVectors`: how many octets a message takes, and how it is laid out in
-- `txBuf_`. `none` is an access outside a block.
use xvc_support.Base.{
  ℕ, zero, suc, ◌+◌, ◌-◌, ◌*◌, ◌/◌, ◌^◌, Bool, Option, some, List, ◌==◌, ltb, if◌then◌else◌, u32,
  read_at, write_at,
}
use mathlib.Core.Option
use xvc_support.Header.Memory.{set_hdr}

-- `memcpy` from one block into another.
abbrev pub memcpy : List ℕ → ℕ → List ℕ → ℕ → ℕ → Option (List ℕ)
memcpy dst wp src idx n = Option.bind (read_at src idx n) (λ bs. write_at dst wp bs)

-- The loop that stores the whole words, with `n` rounds left.
unfoldable pub store_words : ℕ → ℕ → List ℕ → List ℕ → ℕ → ℕ → List ℕ → Option (List ℕ)
unfolding Option.bind
store_words zero wsz tms tdi idx wp buf = some buf
store_words (suc n) wsz tms tdi idx wp buf = Option.bind (memcpy buf wp tms idx wsz) (λ b1.
    Option.bind (memcpy b1 (wp + wsz) tdi idx wsz)
      (λ b2. store_words n wsz tms tdi (idx + wsz) (wp + wsz + wsz) b2))

-- The message in `txBuf_`: the header, the pairs of whole words and the octets that are left.
unfoldable pub pack : Bool → ℕ → ℕ → ℕ → List ℕ → List ℕ → List ℕ → Option (List ℕ)
unfolding Option.bind
pack le wsz hdr bytes_ceil tms tdi buf =
    let whole_words = u32 (bytes_ceil / wsz) in
    let whole_word_bytes = u32 (whole_words * wsz) in
    let bytes_left = u32 (bytes_ceil - whole_word_bytes) in
    let wp = wsz + whole_words * wsz * 2 in
    Option.bind (set_hdr le wsz buf 0 hdr) (λ b0.
      Option.bind (store_words whole_words wsz tms tdi 0 wsz b0) (λ b1.
        if bytes_left == 0
        then some b1
        else Option.bind (memcpy b1 wp tms whole_word_bytes bytes_left)
            (λ b2. memcpy b2 (wp + wsz) tdi whole_word_bytes bytes_left)))

abbrev pub bytes_tot : ℕ → ℕ → ℕ
bytes_tot wsz bytes_ceil =
    let word_ceil_bytes = u32 ((bytes_ceil + wsz - 1) / wsz * wsz) in
    u32 (wsz + u32 (2 * word_ceil_bytes))

-- The conversion of an `unsigned long` to the `int` that a loop counts down; a negative count
-- runs no round, as 0.
abbrev pub to_int : ℕ → ℕ
to_int bits = if ltb (u32 bits) (2 ^ 31) then u32 bits else 0
