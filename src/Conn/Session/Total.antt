-- ===== src/Conn/Session/Total.antt =====
-- Calls that return: what they ensure.
use mathlib.Core.Path.{subst}
use xvc_support.Base.{
  ℕ, sym, ◌+◌, ◌≤◌, ◌≡◌, refl, List, length, take, drop, read_at, write_at, le→leb, Result, ok, err,
  Eff, after, access,
}
use xvc_support.Conn.{Conn, drive}
use xvc_support.Conn.Fill.{stored}
use xvc_support.Conn.Safe.{Safe}

abbrev pub Returns : {A S : Type 0} → (A → S → Type 0) → Result A × S → Type 0
Returns P (ok a, t) = P a t
Returns P (err e, t) = ⊥

module _ {A B S : Type 0} (P : A → S → Type 0) (Q : B → S → Type 0) where
  pub Returns-bind :
      (x : Result A × S) (f : A → Eff S B)
      → Returns P x
      → ((a : A) (t : S) → P a t → Returns Q (f a t))
      → Returns Q (after f x)
  Returns-bind (ok a, t) f p k = k a t p
  Returns-bind (err e, t) f p k = p

module _ {A S : Type 0} (P Q : A → S → Type 0) where
  -- What is known of a call that accesses its blocks only, and returns.
  pub Returns-Safe : (x : Result A × S) → Returns P x → Safe Q x → Returns (λ a t. Q a t × P a t) x
  Returns-Safe (ok a, t) p q = (q, p)
  Returns-Safe (err e, t) p q = p

module _ {A S : Type 0} (P : A → S → Type 0) where
  pub Returns_inv : (x : Result A × S) → Returns P x → (a : A) × (t : S) × (x ≡ (ok a, t)) × P a t
  Returns_inv (ok a, t) p = (a, t, refl, p)
  Returns_inv (err e, t) p = elim p [ ]

module _ {B S : Type 0} (Q : B → S → Type 0) (s : S) where
  pub Returns-read :
      (mem : List ℕ) (off n : ℕ) (f : List ℕ → Eff S B)
      → off + n ≤ length mem
      → Returns Q (f (take n (drop off mem)) s)
      → Returns Q (after f (access (read_at mem off n) s))
  unfolding read_at
  Returns-read mem off n f h k = rw (le→leb (off + n) (length mem) h) k

  pub Returns-write :
      (mem bs : List ℕ) (off : ℕ) (f : List ℕ → Eff S B)
      → off + length bs ≤ length mem
      → Returns Q (f (stored mem off bs) s)
      → Returns Q (after f (access (write_at mem off bs) s))
  unfolding write_at
  Returns-write mem bs off f h k = rw (le→leb (off + length bs) (length mem) h) k

module _ {A B D : Type 0} (Q : B → Conn D → Type 0) where
  pub Returns-drive :
      (m : Eff D A) (s : Conn D) (f : A → Eff (Conn D) B) (a : A) (d : D)
      → m s.drv ≡ (ok a, d)
      → Returns Q (f a (record s { drv = d }))
      → Returns Q (after f (drive m s))
  unfolding drive
  Returns-drive m s f a d e k = rw e k

module _ {A B S : Type 0} (Q : B → S → Type 0) where
  pub Returns-after :
      (x : Result A × S) (f : A → Eff S B) (a : A) (t : S)
      → x ≡ (ok a, t)
      → Returns Q (f a t)
      → Returns Q (after f x)
  Returns-after x f a t e k = subst (λ y. Returns Q (after f y)) (sym e) k

module _ {A S : Type 0} (P Q : A → S → Type 0) where
  pub Returns_mono :
      (x : Result A × S) → Returns P x → ((a : A) (t : S) → P a t → Q a t) → Returns Q x
  Returns_mono (ok a, t) p k = k a t p
  Returns_mono (err e, t) p k = p
