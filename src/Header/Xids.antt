-- ===== src/Header/Xids.antt =====
-- The sequence of transaction ids.
use xvc_support.Base.{ℕ, zero, suc, ◌+◌, ◌-◌, ◌%◌, ◌≤◌, ◌<◌, ◌≡◌, ◌≢◌, arith, ◌∙◌}
use xvc_support.Header.{new_xid, xid_any}

-- The id after `k` new ones.
pub xid_after : ℕ → ℕ → ℕ
xid_after zero x = x
xid_after (suc k) x = new_xid (xid_after k x)

new_xid_cycle : (x : ℕ) → 1 ≤ x → x ≤ 255 → new_xid x ≡ x % 255 + 1
unfolding new_xid
new_xid_cycle x lo hi = ground arith

xid_after_cycle : (k x : ℕ) → 1 ≤ x → x ≤ 255 → xid_after k x ≡ (x - 1 + k) % 255 + 1
unfolding xid_after
xid_after_cycle zero x lo hi = omega arith
xid_after_cycle (suc k) x lo hi =
    let ih : xid_after k x ≡ (x - 1 + k) % 255 + 1 = xid_after_cycle k x lo hi in
    rw ih (new_xid_cycle ((x - 1 + k) % 255 + 1) (omega arith) (omega arith) ∙ omega arith)

-- A new transaction id is never the wildcard `XID_ANY`, from whatever octet the counter starts.
new_xid-ne-any : (x : ℕ) → x < 256 → new_xid x ≢ xid_any
unfolding new_xid
new_xid-ne-any x h = ground arith

-- From a proper id on, the ids of the next 254 messages all differ from it, and the 255th is the
-- same again.
pub xid_after-distinct :
    (k x : ℕ) → 1 ≤ x → x ≤ 255 → 1 ≤ k → k < 255 → (xid_after k x ≢ x) × (xid_after 255 x ≡ x)
xid_after-distinct k x lo hi p q = (
  λ e. absurd (omega (arith, xid_after_cycle k x lo hi)),
  omega (arith, xid_after_cycle 255 x lo hi),
)
