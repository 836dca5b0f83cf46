-- ===== src/Raw/Words.antt =====
-- What the loop over the words does to the target: the same as one clock after the other.
use xvc_support.Base.{
  ℕ, zero, suc, ◌+◌, ◌-◌, ◌*◌, ◌/◌, ◌^◌, ◌≤◌, ◌<◌, ◌≡◌, refl, ap, sym, ◌∙◌, Bool, true, false, some,
  List, ◌++◌, ltb, if◌then◌else◌, length, take, drop, arith, ok, Eff, to_le, of_le, IsBytes,
  length-append, length-take, length-drop, take-append-drop, append_assoc, lt→ltb, Bool-cases, inl,
  inr, ltb→lt, ltb_false→le, le→ltb_false, ne→==_false, drop-drop,
}
use xvc_support.Header.Memory.{getw32, setw32}
use xvc_support.Header.Wire.{setw32-parts}
use xvc_support.Driver.Pack.{pairs}
use xvc_support.Serial.{serial, serial-lt, serial-cong}
use xvc_support.Raw.{raw_words}
use xvc_support.Raw.Octets.{
  take-to_le, word_and_rest, IsBytes-shorter, IsBytes-later, getw32-word, to_le-word, serial-words,
}

-- The hardware behind `start` and `word` as a target: related to `j` at rest before `start`, and
-- to the target so far while words are handed over.
pub record Clocks {S J : Type 0} (clock : ℕ → ℕ → J → Bool × J) (start : Eff S (Unit {0}))
    (word : ℕ → ℕ → ℕ → Eff S ℕ) (Rest Running : S → J → Type 0) : Type 0 where
  pub starts : (s : S) (j : J) → Rest s j → (t : S) × (start s ≡ (ok tt, t)) × Running t j
  pub whole :
      (a b : ℕ) (s : S) (j : J)
      → Running s j
      → let r = serial clock 32 a b j in (t : S) × (word a b 32 s ≡ (ok r.0, t)) × Running t r.1
  pub last :
      (l a b : ℕ) (s : S) (j : J)
      → 1 ≤ l
      → l < 32
      → Running s j
      → let r = serial clock l a b j in (t : S) × (word a b l s ≡ (ok r.0, t)) × Rest t r.1
  pub ends : (s : S) (j : J) → Running s j → Rest s j

module _ {S : Type 0} (log_code : ℕ → ℕ) (start : Eff S (Unit {0}))
    (word : ℕ → ℕ → ℕ → Eff S ℕ) where
  abbrev words : ℕ → ℕ → List ℕ → ℕ → List ℕ → ℕ → Eff S (List ℕ)
  words = raw_words true log_code start word

  turn :
      (n nbits l lb pi po a b v : ℕ) (tx rx rx' : List ℕ) (s t : S)
      → 1 ≤ nbits
      → l ≡ (if ltb nbits 32 then nbits else 32)
      → lb ≡ (if ltb nbits 32 then (l + 7) / 8 else 4)
      → getw32 true tx pi ≡ some a
      → getw32 true tx (pi + 4) ≡ some b
      → word a b l s ≡ (ok v, t)
      → setw32 true rx po v lb ≡ some rx'
      → words (suc n) nbits tx pi rx po s ≡ words n (nbits - l) tx (pi + 8) rx' (po + lb) t
  unfolding raw_words
  turn n nbits l lb pi po a b v tx rx rx' s t pos el elb ea eb ew es =
      rw (ne→==_false nbits 0 (omega arith), ← el, ← elb, ea, eb) (rw ew (rw es refl))

  shaped_turn :
      (n nbits l lb v : ℕ) (front a4 b4 more rf old back : List ℕ) (s t : S)
      → 1 ≤ nbits
      → l ≡ (if ltb nbits 32 then nbits else 32)
      → lb ≡ (if ltb nbits 32 then (l + 7) / 8 else 4)
      → lb ≤ 4
      → length a4 ≡ 4
      → length b4 ≡ 4
      → length old ≡ lb
      → word (of_le a4) (of_le b4) l s ≡ (ok v, t)
      → let tx = front ++ (a4 ++ (b4 ++ more)) in
        words (suc n) nbits tx (length front) (rf ++ (old ++ back)) (length rf) s
        ≡ words n (nbits - l) tx (length front + 8) (rf ++ (to_le lb v ++ back)) (length rf + lb) t
  shaped_turn n nbits l lb v front a4 b4 more rf old back s t pos el elb lb4 ha hb ho ew =
      let tx : List ℕ = front ++ (a4 ++ (b4 ++ more)) in
      let second : getw32 true tx (length front + 4) ≡ some (of_le b4) =
        rw (← append_assoc front a4 (b4 ++ more)) (
          getw32-word (front ++ a4) b4 more (length front + 4)
            (omega (arith, length-append {0} front a4)) hb) in
      turn n nbits l lb (length front) (length rf) (of_le a4) (of_le b4) v tx (rf ++ (old ++ back))
        (rf ++ (to_le lb v ++ back)) s t pos el elb
        (getw32-word front a4 (b4 ++ more) (length front) refl ha) second ew
        (setw32-parts true rf old back (length rf) v lb refl ho lb4
          ∙ ap (λ w. some (rf ++ (w ++ back))) (take-to_le lb 4 v lb4))

  words_done : (n pi po : ℕ) (tx rx : List ℕ) (s : S) → words n 0 tx pi rx po s ≡ (ok rx, s)
  unfolding raw_words
  words_done zero pi po tx rx s = refl
  words_done (suc n) pi po tx rx s = refl

  module _ {J : Type 0} (clock : ℕ → ℕ → J → Bool × J) (Rest Running : S → J → Type 0)
      (hw : Clocks clock start word Rest Running) where
    -- What the loop leaves, behind `rf` and before what it has not reached.
    abbrev Done :
        ℕ → ℕ → List ℕ → List ℕ → List ℕ → List ℕ → List ℕ → List ℕ → List ℕ → S → J → Type 0
    Done n nbits front a b back rf rest tx s j =
        let r = serial clock nbits (of_le a) (of_le b) j in
        let lb = (nbits + 7) / 8 in
        (t : S) × (words n nbits tx (length front) (rf ++ rest) (length rf) s
          ≡ (ok (rf ++ (to_le lb r.0 ++ drop lb rest)), t))
        × Rest t r.1

    -- The last word, of less than 32 bits.
    last_word :
        (n nbits : ℕ) (front a b more back rf rest : List ℕ) (s : S) (j : J)
        → 1 ≤ nbits
        → nbits < 32
        → 4 ≤ length a
        → 4 ≤ length b
        → (nbits + 7) / 8 ≤ length rest
        → Running s j
        → Done
            (suc n)
            nbits
            front
            a
            b
            back
            rf
            rest
            (front ++ ((take 4 a ++ (take 4 b ++ more)) ++ back))
            s
            j
    last_word n nbits front a b more back rf rest s j pos few ha hb hr run =
        let lb : ℕ = (nbits + 7) / 8 in
        let (t, e, r) = hw.last nbits (of_le (take 4 a)) (of_le (take 4 b)) s j pos few run in
        let same : serial clock nbits (of_le (take 4 a)) (of_le (take 4 b)) j
            ≡ serial clock nbits (of_le a) (of_le b) j =
          serial-cong clock nbits 32 (of_le (take 4 a)) (of_le a) (of_le (take 4 b)) (of_le b) j
            (omega arith) (omega (arith, word_and_rest a ha)) (omega (arith, word_and_rest b hb)) in
        let v : ℕ = (serial clock nbits (of_le (take 4 a)) (of_le (take 4 b)) j).0 in
        let short : ltb nbits 32 ≡ true = lt→ltb nbits 32 few in
        let step =
          shaped_turn n nbits nbits lb v front (take 4 a) (take 4 b) (more ++ back) rf
            (take lb rest) (drop lb rest) s t pos (rw short refl) (rw short refl) (omega arith)
            (omega (arith, length-take 4 a)) (omega (arith, length-take 4 b))
            (omega (arith, length-take lb rest)) e in
        let none_left : nbits - nbits ≡ 0 = omega arith in
        rw
          (
            append_assoc (take 4 a) (take 4 b ++ more) back,
            append_assoc (take 4 b) more back,
            ← same,
          )
          (
            t,
            ap
                  (λ x.
                    words (suc n) nbits (front ++ (take 4 a ++ (take 4 b ++ (more ++ back))))
                      (length front) (rf ++ x) (length rf) s)
                  (sym (take-append-drop lb rest))
                ∙ step
                ∙ rw none_left (words_done n _ _ _ _ t),
            r,
          )

    -- A whole word, and then the others.
    whole_word :
        (n nbits : ℕ) (front a b back rf rest : List ℕ) (s : S) (j : J)
        → 32 ≤ nbits
        → 4 ≤ length a
        → 4 ≤ length b
        → IsBytes (take 4 a)
        → IsBytes (take 4 b)
        → (nbits + 7) / 8 ≤ length rest
        → Running s j
        → ((front' rf' : List ℕ) (t : S)
            → let r = serial clock 32 (of_le (take 4 a)) (of_le (take 4 b)) j in
              Running t r.1
              → Done n
                  (nbits - 32)
                  front'
                  (drop 4 a)
                  (drop 4 b)
                  back
                  rf'
                  (drop 4 rest)
                  (front' ++ (pairs n 4 (drop 4 a) (drop 4 b) ++ back))
                  t
                  r.1)
        → Done (suc n) nbits front a b back rf rest (front ++ (pairs (suc n) 4 a b ++ back)) s j
    whole_word n nbits front a b back rf rest s j many ha hb ba bb hr run ih =
        let a4 : List ℕ = take 4 a in
        let b4 : List ℕ = take 4 b in
        let more : List ℕ = pairs n 4 (drop 4 a) (drop 4 b) ++ back in
        let la : length a4 ≡ 4 = omega (arith, length-take 4 a) in
        let lb : length b4 ≡ 4 = omega (arith, length-take 4 b) in
        let (t, e, r) = hw.whole (of_le a4) (of_le b4) s j run in
        let w = serial clock 32 (of_le a4) (of_le b4) j in
        let long : ltb nbits 32 ≡ false = le→ltb_false nbits 32 many in
        let step =
          shaped_turn n nbits 32 4 w.0 front a4 b4 more rf (take 4 rest) (drop 4 rest) s t
            (omega arith) (rw long refl) (rw long refl) (omega arith) la lb
            (omega (arith, length-take 4 rest)) e in
        let front' : List ℕ = front ++ (a4 ++ b4) in
        let rf' : List ℕ = rf ++ to_le 4 w.0 in
        let (u, f, done) = ih front' rf' t r in
        let more_bits = serial clock (nbits - 32) (of_le (drop 4 a)) (of_le (drop 4 b)) w.1 in
        let nb : ℕ = (nbits - 32 + 7) / 8 in
        let bytes : (nbits + 7) / 8 ≡ 4 + nb = omega arith in
        let lf : length front + 8 ≡ length front' =
          omega (arith, length-append {0} front (a4 ++ b4), length-append {0} a4 b4) in
        let lr : length rf + 4 ≡ length rf' = omega (arith, length-append {0} rf (to_le 4 w.0)) in
        let tx_eq : front ++ (a4 ++ (b4 ++ more)) ≡ front' ++ more =
          sym
            (append_assoc front (a4 ++ b4) more ∙ ap (λ x. front ++ x) (append_assoc a4 b4 more)) in
        let shape : front ++ (pairs (suc n) 4 a b ++ back) ≡ front ++ (a4 ++ (b4 ++ more)) =
          simp append_assoc in
        let out : rf' ++ (to_le nb more_bits.0 ++ drop nb (drop 4 rest))
            ≡ rf ++ (to_le (4 + nb) (w.0 + 2 ^ 32 * more_bits.0) ++ drop (4 + nb) rest) =
          rw
            (
              to_le-word nb w.0 more_bits.0 (serial-lt clock 32 (of_le a4) (of_le b4) j),
              drop-drop nb 4 rest,
            )
            (simp append_assoc) in
        let first : words (suc n) nbits (front ++ (a4 ++ (b4 ++ more))) (length front) (rf ++ rest)
              (length rf) s
            ≡ words n (nbits - 32) (front' ++ more) (length front') (rf' ++ drop 4 rest)
                (length rf') t =
          ap
            (λ x.
              words (suc n) nbits (front ++ (a4 ++ (b4 ++ more))) (length front) (rf ++ x)
                (length rf) s)
            (sym (take-append-drop 4 rest))
          ∙ step
          ∙ rw (tx_eq, lf, lr, append_assoc rf (to_le 4 w.0) (drop 4 rest)) refl in
        rw (serial-words clock nbits a b j many ha hb ba bb, bytes, shape)
          (u, first ∙ f ∙ ap (λ x. (ok x, u)) out, done)

    pub words_serial :
        (n nbits : ℕ) (front a b back rf rest : List ℕ) (s : S) (j : J)
        → (nbits + 31) / 32 ≡ n
        → 4 * n ≤ length a
        → 4 * n ≤ length b
        → IsBytes (take ((nbits + 7) / 8) a)
        → IsBytes (take ((nbits + 7) / 8) b)
        → (nbits + 7) / 8 ≤ length rest
        → Running s j
        → Done n nbits front a b back rf rest (front ++ (pairs n 4 a b ++ back)) s j
    unfolding serial
    words_serial zero nbits front a b back rf rest s j hn la lb ba bb hr run =
        let none : nbits ≡ 0 = omega arith in
        rw none (s, words_done 0 (length front) (length rf) _ (rf ++ rest) s, hw.ends s j run)
    words_serial (suc n) nbits front a b back rf rest s j hn la lb ba bb hr run =
        elim (Bool-cases (ltb nbits 32)) [
          | inl short ↦
              last_word n nbits front a b (pairs n 4 (drop 4 a) (drop 4 b)) back rf rest s j
                (omega arith) (ltb→lt nbits 32 short) (omega arith) (omega arith) hr run
          | inr long ↦
              let many : 32 ≤ nbits = ltb_false→le nbits 32 long in
              whole_word n nbits front a b back rf rest s j many (omega arith) (omega arith)
                (IsBytes-shorter 4 ((nbits + 7) / 8) a (omega arith) ba)
                (IsBytes-shorter 4 ((nbits + 7) / 8) b (omega arith) bb) hr run
                (λ front' rf' t r.
                  words_serial n (nbits - 32) front' (drop 4 a) (drop 4 b) back rf' (drop 4 rest) t
                    _ (omega arith) (omega (arith, length-drop 4 a))
                    (omega (arith, length-drop 4 b))
                    (IsBytes-later 4 ((nbits - 32 + 7) / 8) ((nbits + 7) / 8) a (omega arith) ba)
                    (IsBytes-later 4 ((nbits - 32 + 7) / 8) ((nbits + 7) / 8) b (omega arith) bb)
                    (omega (arith, length-drop 4 rest)) r)
        ]
