-- ===== src/Conn/Limits.antt =====
-- The sizes that `allocBufs` takes over from the driver and the target.
use xvc_support.Base.{ℕ, ◌≤◌, ◌≡◌, arith, ◌==◌, ltb, if◌then◌else◌, ◌⊎◌}

-- The length of a vector that both sides take: `tgt` is the target's, `sup` the driver's, 0 for any.
abbrev pub agreed : ℕ → ℕ → ℕ → ℕ
agreed max_len tgt sup =
    let t = if 0 == tgt then max_len else tgt in
    if sup == 0 then t else if ltb t sup then t else sup

pub agreed_lem :
    (max_len tgt sup : ℕ)
    → 1 ≤ max_len
    → ((tgt ≡ 0) ⊎ (agreed max_len tgt sup ≤ tgt))
      × ((sup ≡ 0) ⊎ (agreed max_len tgt sup ≤ sup))
      × (1 ≤ agreed max_len tgt sup)
agreed_lem max_len tgt sup h = ground arith
