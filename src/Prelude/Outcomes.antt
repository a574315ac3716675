-- ===== src/Prelude/Outcomes.antt =====
-- What a Go call comes to: it returns, it panics, or the fuel of a modelled loop runs out. The
-- theorems about loops show that it does not.
use Prim.Native.Nat.{ℕ, ◌%◌, ◌<◌}
use mathlib.Core.Path.{◌≡◌, refl}
use mathlib.Core.Option.{none, some}
use mathlib.Core.List.{List}
use native.Mathlib.Omega.{arith}
use goext.Prelude.Tests.{◌==◌, if◌then◌else◌}
use goext.Prelude.Lists.{length, get_elem?, get_or, get_elem?-eq-get_or}

pub data Outcome {ℓ} (A : Type ℓ) : Type ℓ where
  ret : A → Outcome A
  panic : Outcome A
  no_fuel : Outcome A

infixl 5 ◌>>=◌
abbrev pub ◌>>=◌ {ℓ κ} : {A : Type ℓ} {B : Type κ} → Outcome A → (A → Outcome B) → Outcome B
ret a >>= f = f a
panic >>= f = panic
no_fuel >>= f = no_fuel

-- The call returns, and what it returns satisfies `P`.
abbrev pub Returns {ℓ} : {A : Type ℓ} → (A → Type 0) → Outcome A → Type 0
Returns P (ret a) = P a
Returns P panic = ⊥
Returns P no_fuel = ⊥

-- An index out of range and a null divisor panic.
abbrev pub nth {ℓ} : {A : Type ℓ} → List A → ℕ → Outcome A
nth xs i = elim (get_elem? xs i) [ none ↦ panic | some x ↦ ret x ]

abbrev pub rem : ℕ → ℕ → Outcome ℕ
rem a b = if b == 0 then panic else ret (a % b)

pub nth-ret {ℓ} :
    {A : Type ℓ} (xs : List A) (i : ℕ) (d : A) → i < length xs → nth xs i ≡ ret (get_or xs i d)
nth-ret xs i d h = rw (get_elem?-eq-get_or xs i d h, nth)

pub rem-ret : (a b : ℕ) → 0 < b → rem a b ≡ ret (a % b)
rem-ret a b h = ground arith

pub Returns-map {ℓ} :
    {A : Type ℓ} (P Q : A → Type 0) (m : Outcome A)
    → Returns P m
    → ((a : A) → P a → Q a)
    → Returns Q m
Returns-map P Q (ret a) p f = f a p
Returns-map P Q panic p f = p
Returns-map P Q no_fuel p f = p

pub Returns-bind {ℓ κ} :
    {A : Type ℓ} {B : Type κ} (P : A → Type 0) (Q : B → Type 0) (m : Outcome A) (f : A → Outcome B)
    → Returns P m
    → ((a : A) → P a → Returns Q (f a))
    → Returns Q (m >>= f)
Returns-bind P Q (ret a) f p k = k a p
Returns-bind P Q panic f p k = p
Returns-bind P Q no_fuel f p k = p

pub Returns-cases {ℓ} :
    {A : Type ℓ} (P : A → Type 0) (m : Outcome A) → Returns P m → (a : A) × (m ≡ ret a) × P a
Returns-cases P (ret a) p = (a, refl, p)
Returns-cases P panic p = absurd p
Returns-cases P no_fuel p = absurd p
