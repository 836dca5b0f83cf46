-- ===== src/LoopBack/Echo.antt =====
-- The loopback without a playback file: TDI comes back, word by word.
use xvc_support.Base.{
  ap₂, ltb, le→ltb_false, eq→==, ne→==_false, ℕ, zero, suc, ◌+◌, ◌-◌, ◌*◌, ◌/◌, ◌%◌, ◌≤◌, ◌≡◌, refl,
  ap, sym, ◌∙◌, Bool, true, false, Option, some, List, [], ◌++◌, ◌==◌, if◌then◌else◌, length, take,
  drop, read_at, write_at, read_at-parts, write_at-parts, length-append, length-take, length-drop,
  append_assoc, take-append-drop, drop-drop, take-add, arith, ok, pure,
}
use Prim.Native.String.{String}
use native.Mathlib.Decide.{ℕ_discrete}
use xvc_support.Base.Rounding.{div_mod, ceil_over}
use xvc_support.Header.{get_len}
use xvc_support.Driver.Pack.{pairs, length-pairs, length-slice}
use xvc_support.Driver.Pack.Layout.{rounded, message, header_word, leftover, length-header_word}
use xvc_support.Driver.Send.{rounded_bounds, length-message}
use xvc_support.LoopBack.{
  Format, tms_line, tdi_line, Loop, rdl, get_val_le, check, check_line, len_line, take_word,
  take_words, shift,
}

module _ (scan : Format → String → Option ℕ) where
  -- Nothing is read, compared or changed.
  pub check_line_skips :
      (fmt : Format) (val : ℕ) (s : Loop) → s.skip ≡ true → check_line scan fmt val s ≡ (ok tt, s)
  unfolding check_line check rdl
  check_line_skips fmt val s h = ground arith

  module _ (wsz dpt : ℕ) (le : Bool) where
    pub take_word_echo :
        (front a pad b back f old r : List ℕ) (cnt i j : ℕ) (s : Loop)
        → s.skip ≡ true
        → length front ≡ wsz + i
        → length a ≡ cnt
        → length a + length pad ≡ wsz
        → length b ≡ cnt
        → length f ≡ j
        → length old ≡ cnt
        → take_word scan wsz dpt le cnt
            (front ++ (a ++ (pad ++ (b ++ back))))
            i
            j
            (f ++ (old ++ r))
            s
          ≡ (ok (f ++ (b ++ r)), s)
    unfolding take_word
    take_word_echo front a pad b back f old r cnt i j s h hf ha hp hb hj ho =
        let first : read_at (front ++ (a ++ (pad ++ (b ++ back)))) (wsz + i) cnt ≡ some a =
          read_at-parts front a (pad ++ (b ++ back)) (wsz + i) cnt hf ha in
        let shape : front ++ (a ++ (pad ++ (b ++ back))) ≡ (front ++ (a ++ pad)) ++ (b ++ back) =
          simp append_assoc in
        let second : read_at (front ++ (a ++ (pad ++ (b ++ back)))) (wsz + wsz + i) cnt ≡ some b =
          rw shape (
            read_at-parts (front ++ (a ++ pad)) b back (wsz + wsz + i) cnt
              (omega (arith, length-append {0} front (a ++ pad), length-append {0} a pad)) hb) in
        let stored : write_at (f ++ (old ++ r)) j b ≡ some (f ++ (b ++ r)) =
          write_at-parts f old r b j hj (omega arith) in
        rw (
          first,
          second,
          check_line_skips tms_line (get_val_le a) s h,
          check_line_skips tdi_line (get_val_le b) s h,
          h,
          stored,
        )

    pub take_words_echo :
        (n : ℕ) (tms tdi front back f rx : List ℕ) (i j : ℕ) (s : Loop)
        → s.skip ≡ true
        → length front ≡ wsz + i
        → length f ≡ j
        → n * wsz ≤ length tms
        → n * wsz ≤ length tdi
        → n * wsz ≤ length rx
        → take_words scan wsz dpt le n (front ++ (pairs n wsz tms tdi ++ back)) i j (f ++ rx) s
          ≡ (ok (f ++ (take (n * wsz) tdi ++ drop (n * wsz) rx)), s)
    unfolding take_words
    take_words_echo zero tms tdi front back f rx i j s h hf hj ht hd hr =
        let e : 0 * wsz ≡ 0 = omega arith in rw e
    take_words_echo (suc n) tms tdi front back f rx i j s h hf hj ht hd hr =
        let a : List ℕ = take wsz tms in
        let b : List ℕ = take wsz tdi in
        let rest : List ℕ = pairs n wsz (drop wsz tms) (drop wsz tdi) in
        let more : suc n * wsz ≡ wsz + n * wsz = omega arith in
        let ha : length a ≡ wsz = omega (arith, length-take wsz tms) in
        let hb : length b ≡ wsz = omega (arith, length-take wsz tdi) in
        let one : take_word scan wsz dpt le wsz (front ++ ((a ++ (b ++ rest)) ++ back)) i j
              (f ++ rx) s
            ≡ (ok (f ++ (b ++ drop wsz rx)), s) =
          rw (append_assoc a (b ++ rest) back, append_assoc b rest back)
            (ap
                (λ t.
                  take_word scan wsz dpt le wsz (front ++ (a ++ (b ++ (rest ++ back)))) i j (f ++ t)
                    s)
                (sym (take-append-drop wsz rx))
              ∙ take_word_echo front a [] b (rest ++ back) f (take wsz rx) (drop wsz rx) wsz i j s h
                  hf ha (omega (arith, ha)) hb hj (omega (arith, length-take wsz rx))) in
        let shape : front ++ ((a ++ (b ++ rest)) ++ back) ≡ (front ++ (a ++ b)) ++ (rest ++ back) =
          simp append_assoc in
        let ih =
          take_words_echo n (drop wsz tms) (drop wsz tdi) (front ++ (a ++ b)) back (f ++ b)
            (drop wsz rx) (i + 2 * wsz) (j + wsz) s h
            (omega (arith, length-append {0} front (a ++ b), length-append {0} a b))
            (omega (arith, length-append {0} f b)) (omega (arith, length-drop wsz tms))
            (omega (arith, length-drop wsz tdi)) (omega (arith, length-drop wsz rx)) in
        let shift_f : f ++ (b ++ drop wsz rx) ≡ (f ++ b) ++ drop wsz rx = simp append_assoc in
        let done : (f ++ b) ++ (take (n * wsz) (drop wsz tdi) ++ drop (n * wsz) (drop wsz rx))
            ≡ f ++ (take (suc n * wsz) tdi ++ drop (suc n * wsz) rx) =
          rw (more, take-add wsz (n * wsz) tdi, drop-drop (n * wsz) wsz rx) (simp append_assoc) in
        rw one (rw (shape, shift_f) (ih ∙ ap (λ t. (ok t, s)) done))

    -- The octets behind the whole words.
    end_echo :
        (h n : ℕ) (tms tdi p q rx : List ℕ) (s : Loop)
        → s.skip ≡ true
        → 4 ≤ wsz
        → n ≤ length tms
        → n ≤ length tdi
        → n ≤ length rx
        → length p ≡ rounded n wsz - n
        → (if n % wsz == 0
              then pure (take (n / wsz * wsz) tdi ++ drop (n / wsz * wsz) rx)
              else take_word scan wsz dpt le
                  (n % wsz)
                  (message wsz h n tms tdi p q [])
                  (n / wsz * (2 * wsz))
                  (n / wsz * wsz)
                  (take (n / wsz * wsz) tdi ++ drop (n / wsz * wsz) rx))
            s
          ≡ (ok (take n tdi ++ drop n rx), s)
    end_echo h n tms tdi p q rx s hs h4 ht hd hr hp =
        let k : ℕ = n / wsz * wsz in
        let hw : List ℕ = header_word wsz h in
        let words : List ℕ = pairs (n / wsz) wsz tms tdi in
        let a : List ℕ = leftover n wsz tms in
        let b : List ℕ = leftover n wsz tdi in
        let parts : n ≡ k + n % wsz = omega (arith, div_mod n wsz) in
        elim (ℕ_discrete (n % wsz) 0) [
          | yes e ↦ let whole : k ≡ n = omega arith in rw (eq→== (n % wsz) 0 e, whole)
          | no ne ↦
              let r : List ℕ = drop k rx in
              let twice : n / wsz * (2 * wsz) ≡ 2 * k = omega arith in
              let lp : length p ≡ wsz - n % wsz =
                omega (arith, ceil_over n wsz (omega arith) ne, div_mod n wsz) in
              let la : length a ≡ n % wsz = length-slice tms k (n % wsz) (omega arith) in
              let step =
                take_word_echo (hw ++ words) a p b (q ++ []) (take k tdi) (take (n % wsz) r)
                  (drop (n % wsz) r) (n % wsz) (n / wsz * (2 * wsz)) k s hs
                  (omega (
                    arith,
                    length-append {0} hw words,
                    length-header_word wsz h h4,
                    length-pairs (n / wsz) wsz tms tdi (omega arith) (omega arith),
                  ))
                  la (omega (arith, div_mod n wsz)) (length-slice tdi k (n % wsz) (omega arith))
                  (omega (arith, length-take k tdi))
                  (omega (arith, length-take (n % wsz) r, length-drop k rx)) in
              let done : take k tdi ++ (b ++ drop (n % wsz) r) ≡ take n tdi ++ drop n rx =
                sym (append_assoc (take k tdi) b (drop (n % wsz) r))
                ∙ ap₂ ◌++◌ (sym (take-add k (n % wsz) tdi) ∙ ap (λ (x : ℕ). take x tdi) (sym parts))
                    (drop-drop (n % wsz) k rx ∙ ap (λ (x : ℕ). drop x rx) (sym parts)) in
              rw (ne→==_false (n % wsz) 0 ne) (
                ap₂
                  (λ x y.
                    take_word scan wsz dpt le (n % wsz) x (n / wsz * (2 * wsz)) k (take k tdi ++ y)
                      s)
                  (sym (append_assoc hw words (a ++ (p ++ (b ++ (q ++ []))))))
                  (sym (take-append-drop (n % wsz) r))
                ∙ step
                ∙ ap (λ t. (ok t, s)) done)
        ]

    -- The whole of a shift message: TDI is the beginning of the block.
    pub shift_echo :
        (h len : ℕ) (tms tdi p q rx : List ℕ) (s : Loop)
        → let n = (len + 8 - 1) / 8 in
          s.skip ≡ true
          → 4 ≤ wsz
          → get_len h ≡ ok len
          → n ≤ length tms
          → n ≤ length tdi
          → n ≤ length rx
          → length p ≡ rounded n wsz - n
          → length q ≡ rounded n wsz - n
          → shift scan wsz dpt le h (message wsz h n tms tdi p q []) rx s
            ≡ (ok (n, take n tdi ++ drop n rx), s)
    unfolding shift
    shift_echo h len tms tdi p q rx s hs h4 hl ht hd hr hp hq =
        let n : ℕ = (len + 8 - 1) / 8 in
        let m : ℕ = n / wsz in
        let hw : List ℕ = header_word wsz h in
        let ends : List ℕ = leftover n wsz tms ++ (p ++ (leftover n wsz tdi ++ (q ++ []))) in
        let (low, high) = rounded_bounds n wsz (omega arith) in
        let same : (len + 7) / 8 ≡ n = omega arith in
        let rest : n - m * wsz ≡ n % wsz = omega (arith, div_mod n wsz) in
        let size : length (message wsz h n tms tdi p q []) ≡ wsz + 2 * rounded n wsz =
          length-message wsz h n tms tdi p q h4 ht hd hp hq in
        let words : take_words scan wsz dpt le m (message wsz h n tms tdi p q []) 0 0 rx s
            ≡ (ok (take (m * wsz) tdi ++ drop (m * wsz) rx), s) =
          take_words_echo m tms tdi hw ends [] rx 0 0 s hs
            (omega (arith, length-header_word wsz h h4)) refl (omega (arith, div_mod n wsz))
            (omega (arith, div_mod n wsz)) (omega (arith, div_mod n wsz)) in
        let fits : ltb (length (message wsz h n tms tdi p q [])) (wsz + 2 * n) ≡ false =
          le→ltb_false _ _ (omega arith) in
        rw (hl, same)
          (rw (check_line_skips len_line len s hs, rest, fits, words)
            (rw (end_echo h n tms tdi p q rx s hs h4 ht hd hr hp, hs)))
