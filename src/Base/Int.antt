-- ===== src/Base/Int.antt =====
-- C's signed integers: return codes, and the operators that the codecs apply to them.
use Prim.Native.Nat.{ℕ, ◌+◌, ◌-◌, ◌*◌, ◌/◌, ◌%◌, ◌^◌, ◌<◌}
use mathlib.Core.Bool.{Bool, true, false}
use cosimus.Base.Tests.{ltb, leb, ◌==◌, if◌then◌else◌}

-- `negsuc n` is -(n + 1).
pub data ℤ : Type 0 where
  pos : ℕ → ℤ
  negsuc : ℕ → ℤ

-- `a - b` of two numbers.
abbrev pub minus : ℕ → ℕ → ℤ
minus a b = if leb b a then pos (a - b) else negsuc (b - a - 1)

infixl 60 ◌+ℤ◌
abbrev pub ◌+ℤ◌ : ℤ → ℤ → ℤ
pos m +ℤ pos n = pos (m + n)
pos m +ℤ negsuc n = minus m (n + 1)
negsuc m +ℤ pos n = minus n (m + 1)
negsuc m +ℤ negsuc n = negsuc (m + n + 1)

-- `a < b`
abbrev pub lt_ℤ : ℤ → ℤ → Bool
lt_ℤ (pos m) (pos n) = ltb m n
lt_ℤ (pos m) (negsuc n) = false
lt_ℤ (negsuc m) (pos n) = true
lt_ℤ (negsuc m) (negsuc n) = ltb n m

-- `a == n`
abbrev pub is_pos : ℤ → ℕ → Bool
is_pos (pos m) n = m == n
is_pos (negsuc m) n = false

-- `x % 256`: the remainder has the sign of the dividend.
abbrev pub rem_256 : ℤ → ℤ
rem_256 (pos n) = pos (n % 256)
rem_256 (negsuc n) = if leb ((n + 1) % 256) 0 then pos 0 else negsuc ((n + 1) % 256 - 1)

-- `x >> k`, arithmetic: rounds towards minus infinity.
infixl 75 ◌>>ℤ◌
abbrev pub ◌>>ℤ◌ : ℤ → ℕ → ℤ
pos n >>ℤ k = pos (n / 2 ^ k)
negsuc n >>ℤ k = negsuc (n / 2 ^ k)

-- The cast to `uint8_t`.
abbrev pub ℤ_to_u8 : ℤ → ℕ
ℤ_to_u8 (pos n) = n % 256
ℤ_to_u8 (negsuc n) = 255 - n % 256

-- The cast of a number to a signed type of the range -h … h - 1.
abbrev pub signed : ℕ → ℕ → ℤ
signed h n = let r = n % (2 * h) in if ltb r h then pos r else negsuc (2 * h - 1 - r)

abbrev pub IsSigned : ℕ → ℤ → Type 0
IsSigned h (pos n) = n < h
IsSigned h (negsuc n) = n < h
