-- ===== src/Server/Main/Letters.antt =====
-- What the options of `main` come to: the last of each kind counts.
use mathlib.Core.Path.{subst}
use xvc_support.Base.{
  ℕ, ◌+◌, ◌%◌, ◌^◌, ◌<◌, ◌≡◌, refl, ap, sym, ◌∙◌, Bool, true, false, Option, none, some, List, [],
  ◌∷◌, ok, Eff, pure, ◌>>◌, if◌then◌else◌, arith,
}
use xvc_support.Server.{
  Letter, letter_h, letter_v, letter_upper_v, letter_o, letter_s, other_letter, letter_t, letter_d,
  letter_m, letter_p, letter_upper_t, Options, Parsed, exits, options, default_options, on_letter,
  main_options, and_then, Start, drives,
}
use xvc_support.Server.Debug.{verbosity, sniffs, level, no_exit, main_level}
use xvc_support.Server.Main.{Methods, drive_by, launch, launched, main}

module _ {A : Type 0} where
  abbrev pub else_by : Option A → Option A → Option A
  else_by (some a) b = some a
  else_by none b = b

  abbrev pub given_or : Option A → A → A
  given_or (some a) b = a
  given_or none b = b

  -- What the last letter of a kind has.
  abbrev pub last_given : (Letter → Option A) → List Letter → Option A
  last_given pick [] = none
  last_given pick (l ∷ ls) = else_by (last_given pick ls) (pick l)

  given_else : (a b : Option A) (d : A) → given_or (else_by a b) d ≡ given_or a (given_or b d)
  given_else (some a) b d = refl
  given_else none b d = refl

abbrev pub port_of : Letter → Option ℕ
port_of (letter_p n) = n
port_of _ = none

abbrev pub max_of : Letter → Option ℕ
max_of (letter_m n) = n
max_of _ = none

abbrev pub mode_of : Letter → Option ℕ
mode_of (letter_upper_t n) = n
mode_of _ = none

abbrev pub is_once : Letter → Option Bool
is_once letter_o = some true
is_once _ = none

abbrev pub is_test : Letter → Option Bool
is_test (letter_upper_t n) = some true
is_test _ = none

-- What one letter does to the fields.
abbrev Sets : Letter → Options → Options → Type 0
Sets l o p =
    (p.port ≡ given_or (port_of l) o.port)
    × (p.max_msg ≡ given_or (max_of l) o.max_msg)
    × (p.test_mode ≡ given_or (mode_of l) o.test_mode)
    × (p.once ≡ given_or (is_once l) o.once)
    × (p.set_test ≡ given_or (is_test l) o.set_test)

abbrev chosen : Options → Parsed → Options
chosen d (exits n) = d
chosen d (options o) = o

Sets-fields : (l : Letter) (o p : Options) → on_letter l o ≡ options p → Sets l o p
unfolding on_letter
Sets-fields letter_h o p q =
    subst (λ x. Sets letter_h o (chosen o x)) q (refl, refl, refl, refl, refl)
Sets-fields letter_v o p q =
    subst (λ x. Sets letter_v o (chosen o x)) q (refl, refl, refl, refl, refl)
Sets-fields letter_o o p q =
    subst (λ x. Sets letter_o o (chosen o x)) q (refl, refl, refl, refl, refl)
Sets-fields letter_s o p q =
    subst (λ x. Sets letter_s o (chosen o x)) q (refl, refl, refl, refl, refl)
Sets-fields (letter_t t) o p q =
    subst (λ x. Sets (letter_t t) o (chosen o x)) q (refl, refl, refl, refl, refl)
Sets-fields (letter_d d) o p q =
    subst (λ x. Sets (letter_d d) o (chosen o x)) q (refl, refl, refl, refl, refl)
Sets-fields (letter_m (some n)) o p q =
    subst (λ x. Sets (letter_m (some n)) o (chosen o x)) q (refl, refl, refl, refl, refl)
Sets-fields (letter_p (some n)) o p q =
    subst (λ x. Sets (letter_p (some n)) o (chosen o x)) q (refl, refl, refl, refl, refl)
Sets-fields (letter_upper_t (some n)) o p q =
    subst (λ x. Sets (letter_upper_t (some n)) o (chosen o x)) q (refl, refl, refl, refl, refl)
Sets-fields letter_upper_v o p q = elim (no_exit q) [ ]
Sets-fields other_letter o p q = elim (no_exit q) [ ]
Sets-fields (letter_m none) o p q = elim (no_exit q) [ ]
Sets-fields (letter_p none) o p q = elim (no_exit q) [ ]
Sets-fields (letter_upper_t none) o p q = elim (no_exit q) [ ]

and_then_inv :
    (x : Parsed) (k : Options → Parsed) (p : Options)
    → and_then x k ≡ options p
    → (o : Options) × (x ≡ options o) × (k o ≡ options p)
and_then_inv (exits n) k p q = elim (no_exit q) [ ]
and_then_inv (options o) k p q = (o, refl, q)

module _ {A : Type 0} (f : Options → A) (pick : Letter → Option A)
    (sets : (l : Letter) (o p : Options)
      → on_letter l o ≡ options p
      → f p ≡ given_or (pick l) (f o)) where
  last_counts :
      (ls : List Letter) (o p : Options)
      → main_options ls o ≡ options p
      → f p ≡ given_or (last_given pick ls) (f o)
  unfolding main_options
  last_counts [] o p q = sym (ap (λ x. f (chosen o x)) q)
  last_counts (l ∷ ls) o p q =
      let (o1, first, rest) = and_then_inv (on_letter l o) _ p q in
      last_counts ls o1 p rest
      ∙ ap (given_or (last_given pick ls)) (sets l o o1 first)
      ∙ sym (given_else (last_given pick ls) (pick l) (f o))

module _ {W J : Type 0} (api : Methods W J) (start : Options → Start J) where
  -- `main` by the letters: what they come to, each on its own.
  abbrev pub described : List Letter → J → Eff W ℕ
  described ls j = do
    (λ w. (ok tt, api.set_debug j (level (verbosity ls) (sniffs ls)) w))
    api.init j
    (λ w. (
      ok tt,
      if given_or (last_given is_test ls) false
          then api.set_test_mode j (given_or (last_given mode_of ls) 0) w
          else w,
    ))
    api.serve (given_or (last_given port_of ls) 2542 % 2 ^ 16) j
        (given_or (last_given max_of ls) 32768) (given_or (last_given is_once ls) false)
    pure 0

  -- Where the options of `main` leave it running and a driver is made, `main` is what its options
  -- say in whatever order, the last of each kind counting: the driver gets as its debug level the
  -- number of -v, with the sniffer if -s is given, and is initialised, then gets the mode of the
  -- last -T if there is one, and the server runs on the last -p (2542 without) modulo 2^16 with
  -- vectors of the last -M (32768 without), for one connection if -o is given. There are less than
  -- 256 -v.
  pub main-described :
      (ls : List Letter) (p : Options) (j : J) (w : W)
      → verbosity ls < 256
      → main_options ls (default_options "udp") ≡ options p
      → start p ≡ drives j
      → main api start ls w ≡ described ls j w
  unfolding main launched launch drive_by
  main-described ls p j w small q e =
      let o : Options = default_options "udp" in
      let debug : p.debug ≡ level (0 + verbosity ls) (sniffs ls) =
        main_level ls 0 false o p refl (omega arith) q in
      let none_yet : 0 + verbosity ls ≡ verbosity ls = omega arith in
      let port = last_counts (λ x. x.port) port_of (λ l o p q. (Sets-fields l o p q).0) ls o p q in
      let max_msg =
        last_counts (λ x. x.max_msg) max_of (λ l o p q. (Sets-fields l o p q).1) ls o p q in
      let mode =
        last_counts (λ x. x.test_mode) mode_of (λ l o p q. (Sets-fields l o p q).2) ls o p q in
      let once = last_counts (λ x. x.once) is_once (λ l o p q. (Sets-fields l o p q).3) ls o p q in
      let test =
        last_counts (λ x. x.set_test) is_test (λ l o p q. (Sets-fields l o p q).4) ls o p q in
      rw (q, e, debug, none_yet, port, max_msg, mode, once, test) refl
