-- ===== src/Wheel/Tests.antt =====
-- A wheel of 3 buckets of 10, at its start, and a timeout of 25.
use goext.Prelude.{
  ℕ, List, [], ◌∷◌, ◌≡◌, refl, arith, Outcome, ◌+◌, ◌*◌, ◌≤◌, ◌<◌, ◌⊎◌, ret, panic, no_fuel, ◌>>=◌,
}
use goext.Prelude.Int.{pos, negsuc, ◌+ℤ◌, ◌-ℤ◌}
use goext.Wheel.{place_of, Wheel, new_wheel, wheel_tick, wheel_after, ahead}
use goext.Wheel.Close.{IsValid, ticks, wheel_after_lem}

abbrev wheel : Wheel
wheel = record {
  span = 10;
  period = 30;
  index = 0;
  ring = 0 ∷ 0 ∷ 0 ∷ [];
  next_channel = 1;
  closed = [];
}

abbrev closed_by : Outcome Wheel → List ℕ
closed_by (ret w) = w.closed
closed_by panic = []
closed_by no_fuel = []

wheel_run :
    (new_wheel 10 3 ≡ ret wheel)
    × (new_wheel 0 3 ≡ panic)
    × (wheel_after wheel (pos 30) ≡ panic)
    × (wheel_after wheel (negsuc 9) ≡ panic)
    × (closed_by (wheel_after wheel (pos 25) >>= λ r. ticks 2 r.1) ≡ 1 ∷ [])
unfolding new_wheel wheel_after ahead place_of ◌+ℤ◌ ◌-ℤ◌ ticks wheel_tick
wheel_run = (refl, refl, refl, refl, refl)

wheel-IsValid : IsValid wheel
wheel-IsValid = record {
  inside = omega arith;
  spans = omega arith;
  whole = refl;
  fresh = omega arith;
}

wheel_after_lem_example :
    (c d : ℕ) × (w₁ w₂ w₃ : Wheel) × (wheel_after wheel (pos 25) ≡ ret (c, w₁))
    × (ticks d w₁ ≡ ret w₂)
    × (wheel_tick w₂ ≡ ret w₃)
    × (w₃.closed ≡ c ∷ w₂.closed)
    × ((d ≡ 0) ⊎ ((d + 1) * 10 ≤ 25))
    × (25 < (d + 2) * 10)
wheel_after_lem_example = wheel_after_lem wheel 25 wheel-IsValid (omega arith)
