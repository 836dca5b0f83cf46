-- ===== src/Mmio.antt =====
-- Registers of a device in memory: `rd` and `wr` of `MemMap`, xvcSrv/src/mmioHelper.h (and
-- toscaRead and toscaWrite, which are not under the repository). The device is a parameter: what a
-- read returns and what reads and writes change.
pub mod Polling
pub mod Map
use xvc_support.Base.{
  ℕ, zero, suc, Bool, Result, ok, err, hang, Eff, pure, throw, after, ◌>>=◌, ◌>>◌, if◌then◌else◌,
  bit_and,
}

pub record Device (D : Type 0) : Type 0 where
  pub rd : ℕ → D → ℕ × D
  pub wr : ℕ → ℕ → D → D

module _ {D : Type 0} (dev : Device D) where
  -- `i32` and `o32`.
  abbrev pub i32 : ℕ → Eff D ℕ
  i32 idx d = let r = dev.rd idx d in (ok r.0, r.1)

  abbrev pub o32 : ℕ → ℕ → Eff D (Unit {0})
  o32 idx v d = (ok tt, dev.wr idx v d)

-- `while ( ! done( value = look() ) ) wait();` with `n` rounds left.
unfoldable pub poll : {D : Type 0} → Eff D ℕ → (ℕ → Bool) → Eff D (Unit {0}) → ℕ → Eff D ℕ
poll look done wait zero = throw hang
poll look done wait (suc n) = do
  v ← look
  if done v then pure v else (do wait; poll look done wait n)
