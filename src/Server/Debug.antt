-- ===== src/Server/Debug.antt =====
-- The debug level that `main` hands to the driver: -v counts, and -s asks for the sniffer.
use xvc_support.Base.{
  ℕ, suc, ◌+◌, ◌*◌, ◌/◌, ◌<◌, ◌≡◌, refl, ap, sym, ◌∙◌, Bool, true, false, ◌||◌, none, some, List,
  [], ◌∷◌, bit_or, bit_and, u32, arith, not, eq→==, ne→==_false, ◌^◌, if◌then◌else◌,
}
use xvc_support.Base.Bits.{or_comm_parts, and_low, and_high, or-zero}
use xvc_support.Base.Bits.Single.{or_split}
use xvc_support.Driver.{get_debug, get_sniff}
use xvc_support.Server.{
  Letter, letter_h, letter_v, letter_upper_v, letter_o, letter_s, other_letter, letter_t, letter_d,
  letter_m, letter_p, letter_upper_t, Options, Parsed, exits, options, on_letter, main_options,
}

-- How often -v is given, and whether -s is.
abbrev pub verbosity : List Letter → ℕ
verbosity [] = 0
verbosity (letter_v ∷ ls) = suc (verbosity ls)
verbosity (_ ∷ ls) = verbosity ls

abbrev pub sniffs : List Letter → Bool
sniffs [] = false
sniffs (letter_s ∷ ls) = true
sniffs (_ ∷ ls) = sniffs ls

abbrev pub level : ℕ → Bool → ℕ
level n b = n + (if b then 256 else 0)

abbrev debug_of : Parsed → ℕ
debug_of (exits n) = 0
debug_of (options o) = o.debug

pub no_exit : {n : ℕ} {o : Options} → exits n ≡ options o → ⊥
no_exit q = cc

always : (b : Bool) → (b || true) ≡ true
always true = refl
always false = refl

more_verbose : (d n : ℕ) (b : Bool) → d ≡ level n b → suc n < 256 → u32 (d + 1) ≡ level (suc n) b
more_verbose d n true e h = omega arith
more_verbose d n false e h = omega arith

sniffing : (d n : ℕ) (b : Bool) → d ≡ level n b → n < 256 → bit_or d 0x100 ≡ level n true
sniffing d n true e h =
    let shape : d ≡ 1 * 2 ^ 8 + n = omega arith in
    rw shape (or_split 8 1 1 n 0 h (omega arith) ∙ omega (arith, or-zero n))
sniffing d n false e h =
    let shape : d ≡ n = omega arith in rw shape (or_comm_parts 8 1 n h ∙ omega arith)

pub main_level :
    (ls : List Letter) (n : ℕ) (b : Bool) (o p : Options)
    → o.debug ≡ level n b
    → n + verbosity ls < 256
    → main_options ls o ≡ options p
    → p.debug ≡ level (n + verbosity ls) (b || sniffs ls)
unfolding main_options on_letter
main_level [] n true o p e h q = ap debug_of (sym q) ∙ e ∙ omega arith
main_level [] n false o p e h q = ap debug_of (sym q) ∙ e ∙ omega arith
main_level (letter_v ∷ ls) n b o p e h q =
    let next : n + suc (verbosity ls) ≡ suc n + verbosity ls = omega arith in
    rw next (main_level ls (suc n) b _ p (more_verbose o.debug n b e (omega arith)) (omega arith) q)
main_level (letter_s ∷ ls) n b o p e h q =
    let on : (b || true) ≡ true = always b in
    rw on (main_level ls n true _ p (sniffing o.debug n b e (omega arith)) h q)
main_level (letter_h ∷ ls) n b o p e h q = main_level ls n b _ p e h q
main_level (letter_o ∷ ls) n b o p e h q = main_level ls n b _ p e h q
main_level (letter_t s ∷ ls) n b o p e h q = main_level ls n b _ p e h q
main_level (letter_d s ∷ ls) n b o p e h q = main_level ls n b _ p e h q
main_level (letter_m (some v) ∷ ls) n b o p e h q = main_level ls n b _ p e h q
main_level (letter_p (some v) ∷ ls) n b o p e h q = main_level ls n b _ p e h q
main_level (letter_upper_t (some v) ∷ ls) n b o p e h q = main_level ls n b _ p e h q
main_level (letter_m none ∷ ls) n b o p e h q = elim (no_exit q) [ ]
main_level (letter_p none ∷ ls) n b o p e h q = elim (no_exit q) [ ]
main_level (letter_upper_t none ∷ ls) n b o p e h q = elim (no_exit q) [ ]
main_level (letter_upper_v ∷ ls) n b o p e h q = elim (no_exit q) [ ]
main_level (other_letter ∷ ls) n b o p e h q = elim (no_exit q) [ ]

level_parts :
    (n : ℕ) (b : Bool) → n < 256 → (get_debug (level n b) ≡ n) × (get_sniff (level n b) ≡ b)
unfolding get_sniff
level_parts n true h =
    let bit : bit_and (n + 256) 0x100 ≡ 256 =
      and_high 8 (n + 256) 1 ∙ omega (arith, and_low 1 ((n + 256) / 2 ^ 8)) in
    (
      and_low 8 (n + 256) ∙ omega arith,
      ap not (ne→==_false (bit_and (n + 256) 0x100) 0 (omega arith)),
    )
level_parts n false h =
    let bit : bit_and (n + 0) 0x100 ≡ 0 =
      and_high 8 (n + 0) 1 ∙ omega (arith, and_low 1 ((n + 0) / 2 ^ 8)) in
    (and_low 8 (n + 0) ∙ omega arith, ap not (eq→== (bit_and (n + 0) 0x100) 0 (omega arith)))

-- Where the options of `main` leave it running, from debug level 0, the driver's debug level is
-- the number of -v, less than 256, and sniffing is on if and only if -s is given, in whatever
-- order.
main_options-debug :
    (ls : List Letter) (o p : Options)
    → o.debug ≡ 0
    → verbosity ls < 256
    → main_options ls o ≡ options p
    → (get_debug p.debug ≡ verbosity ls) × (get_sniff p.debug ≡ sniffs ls)
main_options-debug ls o p e h q =
    let d : p.debug ≡ level (0 + verbosity ls) (sniffs ls) =
      main_level ls 0 false o p e (omega arith) q in
    let z : 0 + verbosity ls ≡ verbosity ls = omega arith in
    let d' : p.debug ≡ level (verbosity ls) (sniffs ls) =
      d ∙ ap (λ (x : ℕ). level x (sniffs ls)) z in
    let (a, b) = level_parts (verbosity ls) (sniffs ls) h in
    (ap get_debug d' ∙ a, ap get_sniff d' ∙ b)
