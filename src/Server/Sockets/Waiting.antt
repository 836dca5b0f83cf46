-- ===== src/Server/Sockets/Waiting.antt =====
-- The loop of `read` (xvcSrv/src/xvcConn.cc) that waits for the client and turns others away.
use xvc_support.Base.{
  ℕ, zero, suc, ◌+◌, ◌≡◌, refl, ap, sym, ◌∙◌, Bool, true, false, Option, none, some, List, ok, Eff,
  arith, if◌then◌else◌,
}
use xvc_support.Server.Sockets.{Calls, turn_away, selected, wait_readable}
use xvc_support.Server.Sockets.Balance.{HasFiles, Keeps, turn_away_keeps}

module _ {W : Type 0} (sys : Calls W) (sd ld : ℕ) where
  -- The state after `select` has returned: another client is turned away.
  abbrev pub noticed : Bool → W → W
  noticed other t = if other then turn_away sys ld t else t

  -- So many turns in which the client sends nothing.
  pub data Meanwhile : ℕ → W → W → Type 0 where
    no_turn : {w : W} → Meanwhile zero w w
    one_turn :
        {k : ℕ} {w t u : W} {other : Bool}
        → sys.select sd ld w ≡ (some (false, other), t)
        → Meanwhile k (noticed other t) u
        → Meanwhile (suc k) w u

  meanwhile :
      {k : ℕ} {w u : W}
      → Meanwhile k w u
      → (n : ℕ) → wait_readable sys (k + n) sd ld w ≡ wait_readable sys n sd ld u
  unfolding wait_readable
  meanwhile no_turn n = let e : 0 + n ≡ n = omega arith in rw e refl
  meanwhile (one_turn {k = k} e m) n =
      let f : suc k + n ≡ suc (k + n) = omega arith in rw f (rw e (meanwhile m n))

module _ {W : Type 0} (sys : Calls W) (opens : W → List ℕ) (hw : HasFiles opens sys)
    (sd ld : ℕ) where
  noticed_keeps : (other : Bool) (t : W) → opens (noticed sys sd ld other t) ≡ opens t
  noticed_keeps true t = turn_away_keeps sys opens hw ld t
  noticed_keeps false t = refl

  selected-Keeps :
      (again : Eff W (Unit {0})) (x : Option (Bool × Bool) × W)
      → Keeps opens again
      → opens (selected sys ld again x).1 ≡ opens x.1
  selected-Keeps again (none, t) k = refl
  selected-Keeps again (some (true, other), t) k = noticed_keeps other t
  selected-Keeps again (some (false, other), t) k = k _ ∙ noticed_keeps other t

  -- However the wait ends, the descriptors are as before.
  pub wait_readable-Keeps : (n : ℕ) → Keeps opens (wait_readable sys n sd ld)
  unfolding wait_readable
  wait_readable-Keeps zero w = refl
  wait_readable-Keeps (suc n) w =
      selected-Keeps (wait_readable sys n sd ld) (sys.select sd ld w) (wait_readable-Keeps n)
      ∙ hw.select_keeps sd ld w

  Meanwhile-keeps : {k : ℕ} {w u : W} → Meanwhile sys sd ld k w u → opens u ≡ opens w
  Meanwhile-keeps no_turn = refl
  Meanwhile-keeps (one_turn {w = w} {t = t} {other = other} e m) =
      Meanwhile-keeps m
      ∙ noticed_keeps other t
      ∙ sym (ap (λ x. opens x.1) e)
      ∙ hw.select_keeps sd ld w

  -- While a client is served, other clients may try to connect any number of times: once `select`
  -- reports the client's socket, the wait of `read` ends by success, and all the others'
  -- connections have been closed. The calls keep to what the system documents of descriptors, and
  -- the turns are enough.
  pub wait_readable-ready :
      (k n : ℕ) (w u v : W) (other : Bool)
      → Meanwhile sys sd ld k w u
      → sys.select sd ld u ≡ (some (true, other), v)
      → (t : W) × (wait_readable sys (k + suc n) sd ld w ≡ (ok tt, t)) × (opens t ≡ opens w)
  unfolding wait_readable
  wait_readable-ready k n w u v other m e = (
    noticed sys sd ld other v,
    meanwhile sys sd ld m (suc n) ∙ rw e refl,
    noticed_keeps other v
        ∙ sym (ap (λ x. opens x.1) e)
        ∙ hw.select_keeps sd ld u
        ∙ Meanwhile-keeps m,
  )
