-- ===== src/Server/Loop.antt =====
-- Which connections `XvcServer::run` survives.
use xvc_support.Base.{
  ℕ, zero, suc, ◌+◌, ◌≡◌, ◌≢◌, refl, ◌∙◌, ◌⊎◌, inl, inr, true, false, Error, sys_err, proto_err,
  timeout_err, runtime_error, fault, hang, ok, err, Eff, arith,
}
use xvc_support.Server.{caught, catch_sys_err, server_run}

module _ {W : Type 0} (accept run_conn : Eff W (Unit {0})) where
  -- `k` connections one after the other, each of which ends or fails by `SysErr`.
  pub data Served : ℕ → W → W → Type 0 where
    none_yet : {s : W} → Served zero s s
    one_more :
        {k : ℕ} {s s1 s2 t : W}
        → accept s ≡ (ok tt, s1)
        → (run_conn s1 ≡ (ok tt, s2)) ⊎ (run_conn s1 ≡ (err sys_err, s2))
        → Served k s2 t
        → Served (suc k) s t

  caught_same : (e : Error) (t : W) → e ≢ sys_err → caught {W = W} (err e, t) ≡ (err e, t)
  caught_same sys_err t ne = elim (ne refl) [ ]
  caught_same proto_err t ne = refl
  caught_same timeout_err t ne = refl
  caught_same runtime_error t ne = refl
  caught_same fault t ne = refl
  caught_same hang t ne = refl

  survives :
      (s1 s2 : W)
      → (run_conn s1 ≡ (ok tt, s2)) ⊎ (run_conn s1 ≡ (err sys_err, s2))
      → catch_sys_err run_conn s1 ≡ (ok tt, s2)
  survives s1 s2 (inl e) = rw e refl
  survives s1 s2 (inr e) = rw e refl

  pub server_run-Served :
      {k : ℕ} {s t : W}
      → Served k s t
      → (n : ℕ) → server_run accept run_conn false (k + n) s ≡ server_run accept run_conn false n t
  unfolding server_run
  server_run-Served none_yet n = let e : 0 + n ≡ n = omega arith in rw e refl
  server_run-Served (one_more {k = k} {s1 = s1} {s2 = s2} a c rest) n =
      let e : suc k + n ≡ suc (k + n) = omega arith in
      rw e (rw a (rw (survives s1 s2 c) (server_run-Served rest n)))

  -- After any number of connections that end or fail by `SysErr`, a connection that fails by
  -- another error ends a server that serves more than one, by that error.
  pub server_run_ends :
      (k n : ℕ) (s t t1 u : W) (e : Error)
      → Served k s t
      → accept t ≡ (ok tt, t1)
      → run_conn t1 ≡ (err e, u)
      → e ≢ sys_err
      → server_run accept run_conn false (k + suc n) s ≡ (err e, u)
  unfolding server_run
  server_run_ends k n s t t1 u e served a c ne =
      server_run-Served served (suc n) ∙ rw a (rw c (rw (caught_same e u ne) refl))

  once_ends :
      (s s1 s2 : W)
      → accept s ≡ (ok tt, s1)
      → (run_conn s1 ≡ (ok tt, s2)) ⊎ (run_conn s1 ≡ (err sys_err, s2))
      → server_run accept run_conn true 1 s ≡ (ok tt, s2)
  unfolding server_run
  once_ends s s1 s2 a c = rw a (rw (survives s1 s2 c) refl)
