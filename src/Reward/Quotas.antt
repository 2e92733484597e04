-- ===== src/Reward/Quotas.antt =====
-- The arithmetic of the rounded shares.
use zano_p2pool.Prelude.{ℕ, ◌+◌, ◌*◌, ◌/◌, ◌<◌, ◌≤◌, arith}

div_upper : (n t : ℕ) → 0 < t → t * (n / t) ≤ n
div_upper n t p = grind arith

div_lower : (n t : ℕ) → 0 < t → n ≤ t * (n / t) + t
div_lower n t p = grind arith

cancel : (t a r : ℕ) → 0 < t → t * a ≤ r * t → a ≤ r
cancel t a r p h = grind arith

-- What is handed out stays below the proportional part of the reward.
pub quota-upper :
    (r w t a s : ℕ) → t * a + r * (w + s) ≤ r * t → 0 < t → t * (a + (r * w) / t) + r * s ≤ r * t
quota-upper r w t a s h p = omega (arith, div_upper (r * w) t p)

pub quota-fits : (r w t a s : ℕ) → t * a + r * (w + s) ≤ r * t → 0 < t → a + (r * w) / t ≤ r
quota-fits r w t a s h p = cancel t (a + (r * w) / t) r p (omega (arith, quota-upper r w t a s h p))

-- And each row falls short by less than one.
pub quota-lower :
    (r w t a s b n : ℕ)
    → t * (a + (r * w) / t) + r * s ≤ t * b + t * n
    → 0 < t
    → t * a + r * (w + s) ≤ t * b + t * (n + 1)
quota-lower r w t a s b n h p = omega (arith, div_lower (r * w) t p)

pub leftover-le : (r t b n : ℕ) → 0 < t → r * t ≤ t * b + t * n → r ≤ b + n
leftover-le r t b n p h = cancel t r (b + n) p (omega arith)
