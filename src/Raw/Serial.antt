-- ===== src/Raw/Serial.antt =====
-- A message of `sendVectors` to a driver that hands it over in words of 32 bits.
use xvc_support.Base.{
  ℕ, zero, suc, ◌+◌, ◌-◌, ◌*◌, ◌/◌, ◌%◌, ◌^◌, ◌≤◌, ◌<◌, ◌≡◌, refl, ap, sym, ◌∙◌, Bool, true, some,
  List, [], ◌∷◌, ◌++◌, length, take, drop, replicate, arith, ok, Eff, to_le, of_le, IsBytes,
  length-append, length-take, length-drop, append_assoc, append-nil, le→ltb_false, take_of_le,
  take-append_eq, drop-drop,
}
use xvc_support.Driver.Pack.{pairs}
use xvc_support.Driver.Pack.Layout.{message, rounded, header_word}
use xvc_support.Serial.{serial, serial-cong}
use xvc_support.Raw.Octets.{of_le-front}
use xvc_support.Raw.Words.{Clocks, words_serial}
use xvc_support.Raw.{raw_words, raw_shift, raw_xfer}
use xvc_support.Header.Wire.{set_hdr-parts, getw32-parts}
use xvc_support.Driver.Send.{length-message}
use xvc_support.Header.{get_vrs, get_cmd, get_len, pver0, cmd_s}
use xvc_support.Header.Memory.{getw32}

absurd_length : {n : ℕ} → suc n ≡ 0 → ⊥
absurd_length h = omega arith

nil_of_length : (xs : List ℕ) → length xs ≡ 0 → xs ≡ []
nil_of_length [] h = refl
nil_of_length (x ∷ xs) h = elim (absurd_length h) [ ]

take-take_append :
    (k n : ℕ) (v p : List ℕ) → k ≤ n → n ≤ length v → take k (take n v ++ p) ≡ take k v
take-take_append zero n v p h hv = refl
take-take_append (suc k) zero v p h hv = elim h [ ]
take-take_append (suc k) (suc n) [] p h hv = elim hv [ ]
take-take_append (suc k) (suc n) (x ∷ v) p h hv =
    ap (λ t. x ∷ t) (take-take_append k n v p (omega arith) (omega arith))

drop-take_append :
    (k n : ℕ) (v p : List ℕ)
    → k ≤ n
    → n ≤ length v
    → drop k (take n v ++ p) ≡ take (n - k) (drop k v) ++ p
drop-take_append zero n v p h hv = let e : n - 0 ≡ n = omega arith in rw e refl
drop-take_append (suc k) zero v p h hv = elim h [ ]
drop-take_append (suc k) (suc n) [] p h hv = elim hv [ ]
drop-take_append (suc k) (suc n) (x ∷ v) p h hv =
    let e : suc n - suc k ≡ n - k = omega arith in
    rw e (drop-take_append k n v p (omega arith) (omega arith))

-- `m` whole words and `r` octets, filled up to a word.
padded_words :
    (m r : ℕ) (tms tdi p q : List ℕ)
    → r < 4
    → 4 * m + r ≤ length tms
    → 4 * m + r ≤ length tdi
    → length p ≡ 4 * ((r + 3) / 4) - r
    → length q ≡ 4 * ((r + 3) / 4) - r
    → pairs m 4 tms tdi
        ++ (take r (drop (4 * m) tms) ++ (p ++ (take r (drop (4 * m) tdi) ++ (q ++ []))))
      ≡ pairs (m + (r + 3) / 4) 4 (take (4 * m + r) tms ++ p) (take (4 * m + r) tdi ++ q) ++ []
padded_words zero zero tms tdi p q hr ha hb hp hq =
    rw (nil_of_length p (omega arith), nil_of_length q (omega arith)) refl
padded_words zero (suc r) tms tdi p q hr ha hb hp hq =
    let one : 0 + (suc r + 3) / 4 ≡ 1 = omega arith in
    let n : 4 * 0 + suc r ≡ suc r = omega arith in
    let a : take 4 (take (suc r) tms ++ p) ≡ take (suc r) tms ++ p =
      take_of_le 4 _
        (omega (arith, length-append {0} (take (suc r) tms) p, length-take (suc r) tms)) in
    let b : take 4 (take (suc r) tdi ++ q) ≡ take (suc r) tdi ++ q =
      take_of_le 4 _
        (omega (arith, length-append {0} (take (suc r) tdi) q, length-take (suc r) tdi)) in
    rw (one, n) (rw (a, b) (simp (append_assoc, append-nil)))
padded_words (suc m) r tms tdi p q hr ha hb hp hq =
    let n : ℕ = 4 * suc m + r in
    let k : suc m + (r + 3) / 4 ≡ suc (m + (r + 3) / 4) = omega arith in
    let d : n - 4 ≡ 4 * m + r = omega arith in
    let f : 4 * suc m ≡ 4 + 4 * m = omega arith in
    let a : take 4 (take n tms ++ p) ≡ take 4 tms = take-take_append 4 n tms p (omega arith) ha in
    let b : take 4 (take n tdi ++ q) ≡ take 4 tdi = take-take_append 4 n tdi q (omega arith) hb in
    let a' : drop 4 (take n tms ++ p) ≡ take (4 * m + r) (drop 4 tms) ++ p =
      drop-take_append 4 n tms p (omega arith) ha ∙ ap (λ (x : ℕ). take x (drop 4 tms) ++ p) d in
    let b' : drop 4 (take n tdi ++ q) ≡ take (4 * m + r) (drop 4 tdi) ++ q =
      drop-take_append 4 n tdi q (omega arith) hb ∙ ap (λ (x : ℕ). take x (drop 4 tdi) ++ q) d in
    let ih =
      padded_words m r (drop 4 tms) (drop 4 tdi) p q hr (omega (arith, length-drop 4 tms))
        (omega (arith, length-drop 4 tdi)) hp hq in
    let cons : (x y : List ℕ)
        → (take 4 tms ++ (take 4 tdi ++ x)) ++ y ≡ take 4 tms ++ (take 4 tdi ++ (x ++ y)) =
      λ x y.
        append_assoc (take 4 tms) (take 4 tdi ++ x) y
        ∙ ap (λ t. take 4 tms ++ t) (append_assoc (take 4 tdi) x y) in
    rw (k, a, b, a', b')
      (rw (f, ← drop-drop (4 * m) 4 tms, ← drop-drop (4 * m) 4 tdi)
        (cons _ _ ∙ ap (λ t. take 4 tms ++ (take 4 tdi ++ t)) ih ∙ sym (cons _ _)))

-- The message is made of whole words: those of the vectors, each filled up.
message-words :
    (hdr n : ℕ) (tms tdi p q : List ℕ)
    → n ≤ length tms
    → n ≤ length tdi
    → length p ≡ rounded n 4 - n
    → length q ≡ rounded n 4 - n
    → message 4 hdr n tms tdi p q []
      ≡ header_word 4 hdr ++ (pairs ((n + 4 - 1) / 4) 4 (take n tms ++ p) (take n tdi ++ q) ++ [])
message-words hdr n tms tdi p q ha hb hp hq =
    let e : 4 * (n / 4) + n % 4 ≡ n = omega arith in
    let f : n / 4 + (n % 4 + 3) / 4 ≡ (n + 4 - 1) / 4 = omega arith in
    let g : n / 4 * 4 ≡ 4 * (n / 4) = omega arith in
    let all =
      padded_words (n / 4) (n % 4) tms tdi p q (omega arith) (omega arith) (omega arith)
        (omega arith) (omega arith) in
    ap (λ t. header_word 4 hdr ++ t) (rw g (rw (e, f) at all))

module _ {S : Type 0} (log_code : ℕ → ℕ) (start : Eff S (Unit {0}))
    (word : ℕ → ℕ → ℕ → Eff S ℕ) where
  raw_shift_ok :
      (hdr bits size : ℕ) (tx block rx : List ℕ) (s s1 t : S)
      → ((bits + 7) / 8 + 4 - 1) / 4 * 2 * 4 ≤ length tx
      → (bits + 7) / 8 ≤ size
      → start s ≡ (ok tt, s1)
      → raw_words true log_code start word (((bits + 7) / 8 + 4 - 1) / 4) bits tx 4 block 0 s1
        ≡ (ok rx, t)
      → raw_shift true log_code start word hdr bits tx 4 (record { block = block; size = size }) s
        ≡ (ok (record { hd = to_le 4 hdr; rx = rx; got = (bits + 7) / 8 }), t)
  unfolding raw_shift
  raw_shift_ok hdr bits size tx block rx s s1 t long room e f =
      rw
        (
          le→ltb_false _ _ long,
          le→ltb_false size _ room,
          set_hdr-parts true 4 [] (replicate 4 0) [] 0 hdr refl refl (omega arith) (omega arith),
        )
        (rw e (rw f refl))

module _ {S J : Type 0} (log_code : ℕ → ℕ) (start : Eff S (Unit {0})) (word : ℕ → ℕ → ℕ → Eff S ℕ)
    (clock : ℕ → ℕ → J → Bool × J) (Rest Running : S → J → Type 0)
    (hw : Clocks clock start word Rest Running) where
  raw_shift-serial :
      (hdr bits size : ℕ) (tms tdi p q block : List ℕ) (s : S) (j : J)
      → let n = (bits + 7) / 8 in
        let r = serial clock bits (of_le tms) (of_le tdi) j in
        n ≤ length tms
        → n ≤ length tdi
        → IsBytes (take n tms)
        → IsBytes (take n tdi)
        → length p ≡ rounded n 4 - n
        → length q ≡ rounded n 4 - n
        → n ≤ size
        → n ≤ length block
        → Rest s j
        → (t : S) × (raw_shift true log_code start word hdr bits
              (message 4 hdr n tms tdi p q [])
              4
              (record { block = block; size = size })
              s
            ≡ (ok (record { hd = to_le 4 hdr; rx = to_le n r.0 ++ drop n block; got = n }), t))
          × Rest t r.1
  raw_shift-serial hdr bits size tms tdi p q block s j ha hb ba bb hp hq hs hr rest =
      let n : ℕ = (bits + 7) / 8 in
      let k : ℕ = (n + 4 - 1) / 4 in
      let a : List ℕ = take n tms ++ p in
      let b : List ℕ = take n tdi ++ q in
      let la : length a ≡ 4 * k =
        omega (arith, length-append {0} (take n tms) p, length-take n tms) in
      let lb : length b ≡ 4 * k =
        omega (arith, length-append {0} (take n tdi) q, length-take n tdi) in
      let fa : take n a ≡ take n tms =
        take-append_eq n (take n tms) p (omega (arith, length-take n tms)) in
      let fb : take n b ≡ take n tdi =
        take-append_eq n (take n tdi) q (omega (arith, length-take n tdi)) in
      let (s1, e1, run) = hw.starts s j rest in
      let (t, e, done) =
        words_serial log_code start word clock Rest Running hw k bits (header_word 4 hdr) a b [] []
          block s1 j (omega arith) (omega arith) (omega arith) (rw fa ba) (rw fb bb) hr run in
      let same : serial clock bits (of_le a) (of_le b) j
          ≡ serial clock bits (of_le tms) (of_le tdi) j =
        serial-cong clock bits (8 * n) (of_le a) (of_le tms) (of_le b) (of_le tdi) j (omega arith)
          (of_le-front n tms p ha) (of_le-front n tdi q hb) in
      let shape = message-words hdr n tms tdi p q ha hb hp hq in
      rw (← same) (
        t,
        raw_shift_ok log_code start word hdr bits size (message 4 hdr n tms tdi p q []) block _ s s1
            t (omega (arith, length-message 4 hdr n tms tdi p q (omega arith) ha hb hp hq)) hs e1
            (ap (λ x. raw_words true log_code start word k bits x 4 block 0 s1) shape ∙ e),
        done,
      )

  -- On a message that asks for a shift, whose vectors are octets, and a device at rest, the transfer
  -- brings the octets that the target gives when it is clocked bit by bit.
  pub raw_xfer-serial :
      (hdr bits size : ℕ) (tms tdi p q block : List ℕ) (s : S) (j : J)
      → let n = (bits + 7) / 8 in
        let r = serial clock bits (of_le tms) (of_le tdi) j in
        hdr < 2 ^ 32
        → get_vrs hdr ≡ pver0
        → get_cmd hdr ≡ cmd_s
        → get_len hdr ≡ ok bits
        → n ≤ length tms
        → n ≤ length tdi
        → IsBytes (take n tms)
        → IsBytes (take n tdi)
        → length p ≡ rounded n 4 - n
        → length q ≡ rounded n 4 - n
        → n ≤ size
        → n ≤ length block
        → Rest s j
        → (t : S) × (raw_xfer true log_code start word
              (message 4 hdr n tms tdi p q [])
              4
              (record { block = block; size = size })
              s
            ≡ (ok (record { hd = to_le 4 hdr; rx = to_le n r.0 ++ drop n block; got = n }), t))
          × Rest t r.1
  unfolding raw_xfer
  raw_xfer-serial hdr bits size tms tdi p q block s j small vrs cmd len ha hb ba bb hp hq hs hr
        rest =
      let read : getw32 true (message 4 hdr ((bits + 7) / 8) tms tdi p q []) 0 ≡ some hdr =
        getw32-parts true [] _ 0 hdr refl small in
      rw (read, vrs, cmd, len)
        (raw_shift-serial hdr bits size tms tdi p q block s j ha hb ba bb hp hq hs hr rest)
