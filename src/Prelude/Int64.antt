-- ===== src/Prelude/Int64.antt =====
-- Go's int64, as the number below 2^64 that has its bits: what is below 2^63 stands for itself.
use Prim.Native.Nat.{ℕ, ◌+◌, ◌-◌, ◌/◌, ◌%◌, ◌≤◌, ◌<◌}
use mathlib.Core.Path.{◌≡◌, refl}
use mathlib.Core.Bool.{Bool, true}
use native.Mathlib.Omega.{arith}
use goext.Prelude.Tests.{ltb, leb, if◌then◌else◌}

-- 2^64, 2^63 and 2^62.
abbrev pub whole64 : ℕ
whole64 = 18446744073709551616

abbrev pub half64 : ℕ
half64 = 9223372036854775808

abbrev pub quarter64 : ℕ
quarter64 = 4611686018427387904

unfoldable pub add_int64 : ℕ → ℕ → ℕ
add_int64 a b = (a + b) % whole64

unfoldable pub sub_int64 : ℕ → ℕ → ℕ
sub_int64 a b = (a + (whole64 - b % whole64)) % whole64

-- Go's quotient by a positive constant is rounded towards 0.
unfoldable pub div_int64 : ℕ → ℕ → ℕ
div_int64 a k = if ltb a half64 then a / k else (whole64 - (whole64 - a) / k) % whole64

unfoldable pub ltb_int64 : ℕ → ℕ → Bool
ltb_int64 a b = ltb ((a + half64) % whole64) ((b + half64) % whole64)

unfoldable pub leb_int64 : ℕ → ℕ → Bool
leb_int64 a b = leb ((a + half64) % whole64) ((b + half64) % whole64)

pub add_small : (a b : ℕ) → a + b < half64 → add_int64 a b ≡ a + b
unfolding add_int64
add_small a b h = omega arith

pub sub_small : (a b : ℕ) → b ≤ a → a < half64 → sub_int64 a b ≡ a - b
unfolding sub_int64
sub_small a b h k = omega arith

pub div_small : (a k : ℕ) → a < half64 → div_int64 a k ≡ a / k
unfolding div_int64
div_small a k h = let e : ltb a half64 ≡ true = ground arith in rw e refl

pub ltb_small : (a b : ℕ) → a < half64 → b < half64 → ltb_int64 a b ≡ ltb a b
unfolding ltb_int64
ltb_small a b h k = ground arith

pub leb_small : (a b : ℕ) → a < half64 → b < half64 → leb_int64 a b ≡ leb a b
unfolding leb_int64
leb_small a b h k = ground arith

-- Whether a difference is not above 0.
pub leb_sub_small : (a b : ℕ) → a < half64 → b < half64 → leb_int64 (sub_int64 a b) 0 ≡ leb a b
unfolding leb_int64 sub_int64
leb_sub_small a b h k = ground arith
