-- ===== src/Base/Int.antt =====
-- Signed integers, and their two's complement words of a given width.
use Prim.Native.Nat.{ℕ, ◌-◌, ◌%◌, ◌^◌, ◌<◌}
use mathlib.Core.Path.{◌≡◌}
use mathlib.Core.Bool.{Bool}
use native.Mathlib.Omega.{arith}
use tarwyn.Base.Tests.{ltb, if◌then◌else◌}

-- `negsuc n` is -(n + 1).
pub data ℤ : Type 0 where
  pos : ℕ → ℤ
  negsuc : ℕ → ℤ

-- The range of the signed type of `w` bits.
abbrev pub IsInt : ℕ → ℤ → Type 0
IsInt w (pos n) = n < 2 ^ (w - 1)
IsInt w (negsuc n) = n < 2 ^ (w - 1)

-- `-2^k ≤ x < 2^k`, as a test.
abbrev pub fits : ℕ → ℤ → Bool
fits k (pos n) = ltb n (2 ^ k)
fits k (negsuc n) = ltb n (2 ^ k)

-- `x as uN`: the low `w` bits.
abbrev pub to_word : ℕ → ℤ → ℕ
to_word w (pos n) = n % 2 ^ w
to_word w (negsuc n) = 2 ^ w - 1 - n % 2 ^ w

-- `p as iN`, for a pattern of `w` bits.
abbrev pub of_word : ℕ → ℕ → ℤ
of_word w p = if ltb p (2 ^ (w - 1)) then pos p else negsuc (2 ^ w - 1 - p)

pub of_word-to_word8 : (x : ℤ) → IsInt 8 x → of_word 8 (to_word 8 x) ≡ x
of_word-to_word8 (pos n) h = ground arith
of_word-to_word8 (negsuc n) h = ground arith

pub of_word-to_word16 : (x : ℤ) → IsInt 16 x → of_word 16 (to_word 16 x) ≡ x
of_word-to_word16 (pos n) h = ground arith
of_word-to_word16 (negsuc n) h = ground arith

pub of_word-to_word32 : (x : ℤ) → IsInt 32 x → of_word 32 (to_word 32 x) ≡ x
of_word-to_word32 (pos n) h = ground arith
of_word-to_word32 (negsuc n) h = ground arith

pub of_word-to_word64 : (x : ℤ) → IsInt 64 x → of_word 64 (to_word 64 x) ≡ x
of_word-to_word64 (pos n) h = ground arith
of_word-to_word64 (negsuc n) h = ground arith
