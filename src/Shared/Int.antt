-- ===== src/Shared/Int.antt =====
-- Signed integers where the source has a signed `int` or `time.Duration` that may be negative.
-- `negsuc n` is -(n + 1).
use Prim.Native.Nat.{ℕ, zero, suc}

pub data ℤ : Type 0 where
  pos : ℕ → ℤ
  negsuc : ℕ → ℤ

-- `if d <= 0 { d = fallback }`
abbrev pub positive_or : ℤ → ℕ → ℕ
positive_or (pos zero) fallback = fallback
positive_or (pos (suc n)) fallback = suc n
positive_or (negsuc _) fallback = fallback
