-- ===== src/Base/Rounding.antt =====
-- Rounding a size up to whole words.
use Prim.Native.Nat.{ℕ, ◌+◌, ◌-◌, ◌*◌, ◌/◌, ◌%◌, ◌<◌}
use mathlib.Core.Path.{◌≡◌}
use mathlib.Core.Logic.{◌≢◌}
use native.Mathlib.Omega.{arith}

pub div_mod : (n w : ℕ) → n / w * w + n % w ≡ n
div_mod n w = grind arith

pub ceil_exact : (n w : ℕ) → 0 < w → n % w ≡ 0 → (n + w - 1) / w * w ≡ n
ceil_exact n w h e = grind arith

pub ceil_over : (n w : ℕ) → 0 < w → n % w ≢ 0 → (n + w - 1) / w * w ≡ n / w * w + w
ceil_over n w h e = grind arith
