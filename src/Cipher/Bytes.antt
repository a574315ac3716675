-- ===== src/Cipher/Bytes.antt =====
-- Bytes under exclusive or, and in two hexadecimal digits.
use goext.Prelude.{
  ℕ, zero, suc, [], ◌∷◌, ◌/◌, ◌%◌, ◌^◌, ◌<◌, ◌≡◌, ap, ◌∙◌, ◌==◌, ltb, true, false, some, arith,
}
use goext.Prelude.Xor.{bit_xor, bit_xor_step, bit_xor_comm, bit_xor_cancel}
use goext.Cipher.{hex_digit, format_hex, hex_value, parse_hex, padded}

-- An exclusive or has no more binary digits than its operands.
bit_xor_bound : (n a b : ℕ) → a < 2 ^ n → b < 2 ^ n → bit_xor a b < 2 ^ n
bit_xor_bound zero a b h k =
    let e : a ≡ 0 = omega arith in let f : b ≡ 0 = omega arith in rw (e, f) (omega arith)
bit_xor_bound (suc n) a b h k =
    let r = bit_xor_bound n (a / 2) (b / 2) (omega arith) (omega arith) in
    omega (arith, bit_xor_step a b, r)

pub bit_xor_byte : (a b : ℕ) → a < 256 → b < 256 → bit_xor a b < 256
bit_xor_byte a b h k = bit_xor_bound 8 a b h k

pub bit_xor_back : (a b : ℕ) → bit_xor (bit_xor a b) b ≡ a
bit_xor_back a b =
    bit_xor_comm (bit_xor a b) b ∙ ap (bit_xor b) (bit_xor_comm a b) ∙ bit_xor_cancel b a

hex_value-hex_digit : (n : ℕ) → n < 16 → hex_value (hex_digit n) ≡ some n
unfolding hex_value hex_digit
hex_value-hex_digit n h = ground arith

-- The two digits of a byte.
pub padded-format_hex :
    (b : ℕ) → b < 256 → padded (format_hex b) ≡ hex_digit (b / 16) ∷ hex_digit (b % 16) ∷ []
unfolding padded format_hex hex_digit
padded-format_hex b h = ground arith

pub hex_digit-ascii :
    (n : ℕ)
    → n < 16
    → (ltb (hex_digit n) 128 ≡ true) × ((hex_digit n == 43) ≡ false) × ((hex_digit n == 45) ≡ false)
unfolding hex_digit
hex_digit-ascii n h = (ground arith, ground arith, ground arith)

pub parse_hex-digits :
    (b : ℕ) → b < 256 → parse_hex (hex_digit (b / 16)) (hex_digit (b % 16)) ≡ some b
unfolding parse_hex
parse_hex-digits b h =
    let (a, p, m) = hex_digit-ascii (b / 16) (omega arith) in
    rw
      (p, m, hex_value-hex_digit (b / 16) (omega arith), hex_value-hex_digit (b % 16) (omega arith))
      (ap some (omega arith))
