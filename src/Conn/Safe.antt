-- ===== src/Conn/Safe.antt =====
-- Calls that do not access memory outside its blocks: what they ensure when they return.
use xvc_support.Base.{
  ℕ, ◌+◌, ◌≤◌, ◌<◌, ◌≡◌, refl, Bool, true, false, List, length, take, drop, ◌++◌, read_at, write_at,
  leb, le→leb, Result, ok, err, sys_err, proto_err, timeout_err, runtime_error, fault, hang, Eff,
  guard, after, access, length-append, length-take, length-drop, arith, IsBytes, IsBytes-append,
  IsBytes-take, IsBytes-drop,
}
use xvc_support.Conn.{Conn, drive}

abbrev pub Safe : {A S : Type 0} → (A → S → Type 0) → Result A × S → Type 0
Safe P (ok a, t) = P a t
Safe P (err fault, t) = ⊥
Safe P (err sys_err, t) = Unit
Safe P (err proto_err, t) = Unit
Safe P (err timeout_err, t) = Unit
Safe P (err runtime_error, t) = Unit
Safe P (err hang, t) = Unit

module _ {A B S : Type 0} (P : A → S → Type 0) (Q : B → S → Type 0) where
  pub Safe-bind :
      (x : Result A × S) (f : A → Eff S B)
      → Safe P x
      → ((a : A) (t : S) → P a t → Safe Q (f a t))
      → Safe Q (after f x)
  Safe-bind (ok a, t) f p k = k a t p
  Safe-bind (err fault, t) f p k = p
  Safe-bind (err sys_err, t) f p k = tt
  Safe-bind (err proto_err, t) f p k = tt
  Safe-bind (err timeout_err, t) f p k = tt
  Safe-bind (err runtime_error, t) f p k = tt
  Safe-bind (err hang, t) f p k = tt

module _ {B S : Type 0} (Q : B → S → Type 0) (s : S) where
  pub Safe-read :
      (mem : List ℕ) (off n : ℕ) (f : List ℕ → Eff S B)
      → off + n ≤ length mem
      → Safe Q (f (take n (drop off mem)) s)
      → Safe Q (after f (access (read_at mem off n) s))
  unfolding read_at
  Safe-read mem off n f h k = rw (le→leb (off + n) (length mem) h) k

  pub Safe-write :
      (mem bs : List ℕ) (off : ℕ) (f : List ℕ → Eff S B)
      → off + length bs ≤ length mem
      → ((m : List ℕ)
          → length m ≡ length mem
          → (IsBytes mem → IsBytes bs → IsBytes m)
          → Safe Q (f m s))
      → Safe Q (after f (access (write_at mem off bs) s))
  unfolding write_at
  Safe-write mem bs off f h k =
      let size : length (take off mem ++ (bs ++ drop (off + length bs) mem)) ≡ length mem = omega (
        arith,
        length-append {0} (take off mem) (bs ++ drop (off + length bs) mem),
        length-append {0} bs (drop (off + length bs) mem),
        length-take off mem,
        length-drop (off + length bs) mem,
      ) in
      let bytes : IsBytes mem
          → IsBytes bs
          → IsBytes (take off mem ++ (bs ++ drop (off + length bs) mem)) =
        λ a b.
          IsBytes-append (take off mem) (bs ++ drop (off + length bs) mem) (IsBytes-take off mem a)
            (IsBytes-append bs (drop (off + length bs) mem) b
              (IsBytes-drop (off + length bs) mem a)) in
      rw (le→leb (off + length bs) (length mem) h) (k _ size bytes)

  pub Safe-guard :
      (b : Bool) (f : Unit {0} → Eff S B)
      → (b ≡ true → Safe Q (f tt s))
      → Safe Q (after f (guard b proto_err s))
  Safe-guard true f k = k refl
  Safe-guard false f k = tt

module _ {A B D : Type 0} (P : A → D → Type 0) (Q : B → Conn D → Type 0) where
  pub Safe-drive :
      (m : Eff D A) (s : Conn D) (f : A → Eff (Conn D) B)
      → Safe P (m s.drv)
      → ((a : A) (d : D) → P a d → Safe Q (f a (record s { drv = d })))
      → Safe Q (after f (drive m s))
  unfolding drive
  Safe-drive m s f p k = driven (m s.drv) p
    where
      driven : (x : Result A × D) → Safe P x → Safe Q (after f (x.0, record s { drv = x.1 }))
      driven (ok a, d) q = k a d q
      driven (err fault, d) q = q
      driven (err sys_err, d) q = tt
      driven (err proto_err, d) q = tt
      driven (err timeout_err, d) q = tt
      driven (err runtime_error, d) q = tt
      driven (err hang, d) q = tt

pub leb→le : (a b : ℕ) → leb a b ≡ true → a ≤ b
leb→le a b h = ground arith

pub leb_false→lt : (a b : ℕ) → leb a b ≡ false → b < a
leb_false→lt a b h = ground arith
