-- ===== src/Prelude/Wrap.antt =====
-- Positions on a ring: a sum of two positions, reduced by one subtraction instead of `%`.
use Prim.Native.Nat.{ℕ, ◌+◌, ◌-◌, ◌%◌, ◌≤◌, ◌<◌}
use mathlib.Core.Path.{◌≡◌, ◌∙◌}
use mathlib.Core.Logic.{◌⊎◌}
use native.Mathlib.Nat.{mod-eq_of_lt, mod-eq-sub-mod}
use native.Mathlib.Omega.{arith}
use goext.Prelude.Tests.{ltb, if◌then◌else◌}

abbrev pub wrap : ℕ → ℕ → ℕ
wrap n x = if ltb x n then x else x - n

mod_low : (n x : ℕ) → x < n → x % n ≡ x
mod_low n x h = mod-eq_of_lt h

mod_high : (n x : ℕ) → n ≤ x → x < n + n → x % n ≡ x - n
mod_high n x h k = mod-eq-sub-mod h ∙ mod-eq_of_lt (omega arith)

pub mod_wrap : (n x : ℕ) → x < n + n → x % n ≡ wrap n x
mod_wrap n x h = ground (arith, mod_low n x, mod_high n x)

-- The two cases of `wrap`, for `omega`.
pub wrap-cases : (n x : ℕ) → ((x < n) × (wrap n x ≡ x)) ⊎ ((n ≤ x) × (wrap n x ≡ x - n))
wrap-cases n x = ground arith
