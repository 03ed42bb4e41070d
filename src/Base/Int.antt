-- ===== src/Base/Int.antt =====
-- Go's int and int64 (int is 64 bits wide on the platforms that the images are built for): an
-- integer, with the wrap-around of each product written out.
use Prim.Native.Nat.{ℕ, zero, suc, ◌+◌, ◌-◌, ◌*◌, ◌/◌, ◌%◌, ◌^◌}
use mathlib.Core.Path.{◌≡◌}
use mathlib.Core.Bool.{Bool, true, false}
use native.Mathlib.Omega.{arith}
use csi_bizflycloud.Base.Tests.{ltb, leb, nat_eq, if◌then◌else◌}

-- `negsuc n` is -(n + 1).
pub data ℤ : Type 0 where
  pos : ℕ → ℤ
  negsuc : ℕ → ℤ

-- -n
abbrev pub neg : ℕ → ℤ
neg zero = pos 0
neg (suc n) = negsuc n

abbrev pub ltℤ : ℤ → ℤ → Bool
ltℤ (pos a) (pos b) = ltb a b
ltℤ (pos a) (negsuc b) = false
ltℤ (negsuc a) (pos b) = true
ltℤ (negsuc a) (negsuc b) = ltb b a

abbrev pub leℤ : ℤ → ℤ → Bool
leℤ (pos a) (pos b) = leb a b
leℤ (pos a) (negsuc b) = false
leℤ (negsuc a) (pos b) = true
leℤ (negsuc a) (negsuc b) = leb b a

abbrev pub eqℤ : ℤ → ℤ → Bool
eqℤ (pos a) (pos b) = nat_eq a b
eqℤ (pos a) (negsuc b) = false
eqℤ (negsuc a) (pos b) = false
eqℤ (negsuc a) (negsuc b) = nat_eq a b

-- `a / d` and `a % d` of Go at a positive divisor: both go towards zero.
abbrev pub quotℤ : ℤ → ℕ → ℤ
quotℤ (pos n) d = pos (n / d)
quotℤ (negsuc n) d = neg (suc n / d)

abbrev pub remℤ : ℤ → ℕ → ℤ
remℤ (pos n) d = pos (n % d)
remℤ (negsuc n) d = neg (suc n % d)

abbrev pub sucℤ : ℤ → ℤ
sucℤ (pos n) = pos (n + 1)
sucℤ (negsuc zero) = pos 0
sucℤ (negsuc (suc n)) = negsuc n

-- a * k, before the wrap-around.
abbrev pub timesℤ : ℤ → ℕ → ℤ
timesℤ (pos n) k = pos (n * k)
timesℤ (negsuc n) k = neg (suc n * k)

-- The 64-bit value with the residue r, 0 ≤ r < 2^64.
abbrev signed64 : ℕ → ℤ
signed64 r = if ltb r (2 ^ 63) then pos r else negsuc (2 ^ 64 - 1 - r)

-- Into [-2^63, 2^63), modulo 2^64.
unfoldable pub wrap64 : ℤ → ℤ
wrap64 (pos n) = signed64 (n % 2 ^ 64)
wrap64 (negsuc n) = signed64 (2 ^ 64 - 1 - n % 2 ^ 64)

abbrev pub gib : ℕ
gib = 1024 * 1024 * 1024

pub eqℤ→eq : (a b : ℤ) → eqℤ a b ≡ true → a ≡ b
eqℤ→eq (pos a) (pos b) h = ground arith
eqℤ→eq (pos a) (negsuc b) h = ground arith
eqℤ→eq (negsuc a) (pos b) h = ground arith
eqℤ→eq (negsuc a) (negsuc b) h = ground arith

pub eqℤ_refl : (a : ℤ) → eqℤ a a ≡ true
eqℤ_refl (pos a) = ground arith
eqℤ_refl (negsuc a) = ground arith
