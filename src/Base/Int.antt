-- ===== src/Base/Int.antt =====
-- Signed integers over the native numbers, as far as the program counts with them.
use easy_reactor.Base.Tests.{if◌then◌else◌, leb, ltb}
use Prim.Native.Nat.{◌+◌, ◌-◌, ◌^◌, ℕ, zero, suc}
use mathlib.Core.Bool.{true, Bool, false}

-- `negsuc n` is -(n + 1).
pub data ℤ : Type 0 where
  pos : ℕ → ℤ
  negsuc : ℕ → ℤ

-- `n++`
abbrev pub suc_ℤ : ℤ → ℤ
suc_ℤ (pos n) = pos (suc n)
suc_ℤ (negsuc zero) = pos 0
suc_ℤ (negsuc (suc n)) = negsuc n

-- `n--`
abbrev pub pred_ℤ : ℤ → ℤ
pred_ℤ (pos zero) = negsuc 0
pred_ℤ (pos (suc n)) = pos n
pred_ℤ (negsuc n) = negsuc (suc n)

-- `k <= n`
abbrev pub reaches : ℤ → ℤ → Bool
reaches (pos k) (pos n) = leb k n
reaches (pos k) (negsuc n) = false
reaches (negsuc k) (pos n) = true
reaches (negsuc k) (negsuc n) = leb n k

-- An `unsigned` of 32 bits as an `int`.
unfoldable pub int_of_unsigned : ℕ → ℤ
int_of_unsigned n = if ltb n (2 ^ 31) then pos n else negsuc (2 ^ 32 - (n + 1))
