-- ===== src/Bitmap/Bits.antt =====
-- Single bits of a byte.
use goext.Prelude.{
  ℕ, zero, suc, ◌+◌, ◌-◌, ◌*◌, ◌/◌, ◌%◌, ◌^◌, ◌==◌, ◌<◌, ◌≤◌, if◌then◌else◌, ◌≡◌, ap, ◌∙◌, arith,
}
use goext.Bitmap.{test_bit, or_bit, and_not_bit}

test_bit-double : (y b k : ℕ) → b < 2 → test_bit (2 * y + b) (suc k) ≡ test_bit y k
unfolding test_bit
test_bit-double y b k h =
    let half : (2 * y + b) / 2 ≡ y = omega arith in ap (λ x. test_bit x k) half

pub test_bit-or_bit : (x k j : ℕ) → test_bit (or_bit x k) j ≡ (if j == k then 1 else test_bit x j)
unfolding or_bit test_bit
test_bit-or_bit x zero zero = ground arith
test_bit-or_bit x zero (suc j) =
    let same : (if x % 2 == 0 then x + 1 else x) / 2 ≡ x / 2 = ground arith in
    ap (λ y. test_bit y j) same ∙ ground arith
test_bit-or_bit x (suc k) zero = ground arith
test_bit-or_bit x (suc k) (suc j) =
    test_bit-double (or_bit (x / 2) k) (x % 2) j (omega arith)
    ∙ test_bit-or_bit (x / 2) k j
    ∙ ground arith

pub test_bit-and_not_bit :
    (x k j : ℕ) → test_bit (and_not_bit x k) j ≡ (if j == k then 0 else test_bit x j)
unfolding and_not_bit test_bit
test_bit-and_not_bit x zero zero = ground arith
test_bit-and_not_bit x zero (suc j) =
    let same : (x - x % 2) / 2 ≡ x / 2 = omega arith in ap (λ y. test_bit y j) same ∙ ground arith
test_bit-and_not_bit x (suc k) zero = ground arith
test_bit-and_not_bit x (suc k) (suc j) =
    test_bit-double (and_not_bit (x / 2) k) (x % 2) j (omega arith)
    ∙ test_bit-and_not_bit (x / 2) k j
    ∙ ground arith

-- A byte stays a byte.
pub or_bit-bound : (x k n : ℕ) → k < n → x < 2 ^ n → or_bit x k < 2 ^ n
unfolding or_bit
or_bit-bound x k zero h b = absurd (omega arith)
or_bit-bound x zero (suc n) h b = ground arith
or_bit-bound x (suc k) (suc n) h b =
    omega (arith, or_bit-bound (x / 2) k n (omega arith) (omega arith))

pub and_not_bit-bound : (x k : ℕ) → and_not_bit x k ≤ x
unfolding and_not_bit
and_not_bit-bound x zero = omega arith
and_not_bit-bound x (suc k) = omega (arith, and_not_bit-bound (x / 2) k)
