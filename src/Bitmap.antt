-- ===== src/Bitmap.antt =====
-- container/bitmap/bitmap.go: Bitmap, bits in a slice of bytes.
-- The field `data` is `bytes`. Each operation on a byte takes or tests one bit of it, counted from the lowest.
pub mod Bits
pub mod Access
mod Tests
use goext.Prelude.{
  ℕ, zero, suc, ◌+◌, ◌-◌, ◌*◌, ◌/◌, ◌%◌, List, Bool, true, false, ltb, ◌==◌, if◌then◌else◌, ◌||◌,
  length, replicate, set, Outcome, ret, panic, ◌>>=◌, nth,
}
use goext.Prelude.Int.{ℤ, pos, negsuc}

pub record Bitmap : Type 0 where
  pub bytes : List ℕ
  pub size : ℕ

-- (x >> k) & 1
unfoldable pub test_bit : ℕ → ℕ → ℕ
test_bit x zero = x % 2
test_bit x (suc k) = test_bit (x / 2) k

-- x | 1 << k
unfoldable pub or_bit : ℕ → ℕ → ℕ
or_bit x zero = if x % 2 == 0 then x + 1 else x
or_bit x (suc k) = 2 * or_bit (x / 2) k + x % 2

-- x &^ 1 << k
unfoldable pub and_not_bit : ℕ → ℕ → ℕ
and_not_bit x zero = x - x % 2
and_not_bit x (suc k) = 2 * and_not_bit (x / 2) k + x % 2

unfoldable pub new_bitmap : ℤ → Outcome Bitmap
new_bitmap (negsuc k) = panic
new_bitmap (pos size) =
    let s = if size % 8 == 0 then size / 8 else size / 8 + 1 in
    if size == 0 then panic else ret (record { bytes = replicate s 0; size = s * 8 })

-- b.data[pos>>3] = f (b.data[pos>>3], pos&7)
unfoldable pub write_byte : (ℕ → ℕ → ℕ) → Bitmap → ℕ → Outcome Bitmap
write_byte f b p = do
  old ← nth b.bytes (p / 8)
  ret (record b { bytes = set b.bytes (p / 8) (f old (p % 8)) })

-- The result is true when an error is returned.
unfoldable pub set_pos : Bitmap → ℤ → Outcome (Bool × Bitmap)
set_pos b (negsuc k) = ret (true, b)
set_pos b (pos p) =
    if ltb b.size p then ret (true, b) else (write_byte or_bit b p >>= λ b'. ret (false, b'))

unfoldable pub clear_pos : Bitmap → ℤ → Outcome (Bool × Bitmap)
clear_pos b (negsuc k) = ret (true, b)
clear_pos b (pos p) =
    if ltb b.size p then ret (true, b) else (write_byte and_not_bit b p >>= λ b'. ret (false, b'))

unfoldable pub get : Bitmap → ℤ → Outcome ℕ
get b (negsuc k) = ret 0
get b (pos p) =
    if ltb b.size p then ret 0 else (nth b.bytes (p / 8) >>= λ x. ret (test_bit x (p % 8)))
