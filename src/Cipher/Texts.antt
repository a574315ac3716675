-- ===== src/Cipher/Texts.antt =====
-- Encrypt and Decrypt of a text.
use goext.Prelude.{
  ℕ, zero, suc, List, [], ◌∷◌, ◌++◌, ◌+◌, ◌*◌, ◌/◌, ◌%◌, ◌<◌, ◌≡◌, refl, ap, ◌∙◌, some, arith,
  length, ret, nth, rem, nth-ret, rem-ret, get_or, replicate,
}
use goext.Prelude.Xor.{bit_xor}
use goext.Cipher.{
  Cipher, encrypt, encrypt_loop, decrypt, decrypt_loop, parse_hex, hex_digit, byte_len,
}
use goext.Cipher.Bytes.{
  bit_xor_byte, bit_xor_back, padded-format_hex, parse_hex-digits, hex_digit-ascii,
}

-- All entries are below a bound.
abbrev pub AreBelow : ℕ → List ℕ → Type 0
AreBelow b [] = Unit
AreBelow b (x ∷ xs) = (x < b) × AreBelow b xs

pub get_or-AreBelow : (b : ℕ) (xs : List ℕ) (i : ℕ) → 0 < b → AreBelow b xs → get_or xs i 0 < b
get_or-AreBelow b [] i h k = h
get_or-AreBelow b (x ∷ xs) zero h k = k.0
get_or-AreBelow b (x ∷ xs) (suc i) h k = get_or-AreBelow b xs i h k.1

-- The text that the loop of Encrypt writes.
abbrev written : List ℕ → List ℕ → ℕ → List ℕ
written key [] j = []
written key (u ∷ us) j =
    let b = bit_xor (u % 256) (get_or key j 0) in
    hex_digit (b / 16) ∷ hex_digit (b % 16) ∷ written key us ((j + 1) % length key)

encrypt_loop-written :
    (key txt : List ℕ) (j : ℕ)
    → j < length key
    → AreBelow 256 key
    → encrypt_loop key txt j ≡ ret (written key txt j)
unfolding encrypt_loop
encrypt_loop-written key [] j h k = refl
encrypt_loop-written key (u ∷ us) j h k =
    let c = get_or key j 0 in
    let b = bit_xor_byte (u % 256) c (omega arith) (get_or-AreBelow 256 key j (omega arith) k) in
    rw
      (
        nth-ret key j 0 h,
        rem-ret (j + 1) (length key) (omega arith),
        encrypt_loop-written key us ((j + 1) % length key) (omega arith) k,
      )
      (ap (λ t. ret (t ++ written key us ((j + 1) % length key)))
        (padded-format_hex (bit_xor (u % 256) c) b))

-- What Encrypt keeps of a text.
abbrev pub low_bytes : List ℕ → List ℕ
low_bytes [] = []
low_bytes (u ∷ us) = u % 256 ∷ low_bytes us

decrypt_round :
    (n : ℕ) (key : List ℕ) (c₁ c₂ : ℕ) (txt : List ℕ) (j s k j' : ℕ) (t : List ℕ)
    → parse_hex c₁ c₂ ≡ some s
    → nth key j ≡ ret k
    → rem (j + 1) (length key) ≡ ret j'
    → decrypt_loop n key txt j' ≡ ret (some t)
    → decrypt_loop (suc n) key (c₁ ∷ c₂ ∷ txt) j ≡ ret (some (bit_xor s k ∷ t))
unfolding decrypt_loop
decrypt_round n key c₁ c₂ txt j s k j' t p q r e = rw (p, q, r, e, decrypt_loop) refl

decrypt_loop-written :
    (key txt more : List ℕ) (j : ℕ)
    → j < length key
    → AreBelow 256 key
    → decrypt_loop (length txt) key (written key txt j ++ more) j ≡ ret (some (low_bytes txt))
unfolding decrypt_loop
decrypt_loop-written key [] more j h k = refl
decrypt_loop-written key (u ∷ us) more j h k =
    let c = get_or key j 0 in
    let b = bit_xor_byte (u % 256) c (omega arith) (get_or-AreBelow 256 key j (omega arith) k) in
    decrypt_round (length us) key (hex_digit (bit_xor (u % 256) c / 16))
      (hex_digit (bit_xor (u % 256) c % 16)) (written key us ((j + 1) % length key) ++ more) j
      (bit_xor (u % 256) c) c ((j + 1) % length key) (low_bytes us)
      (parse_hex-digits (bit_xor (u % 256) c) b) (nth-ret key j 0 h)
      (rem-ret (j + 1) (length key) (omega arith))
      (decrypt_loop-written key us more ((j + 1) % length key) (omega arith) k)
    ∙ ap (λ t. ret (some (t ∷ low_bytes us))) (bit_xor_back (u % 256) c)

byte_len-written :
    (key txt : List ℕ) (j : ℕ) → AreBelow 256 key → byte_len (written key txt j) ≡ 2 * length txt
unfolding byte_len
byte_len-written key [] j k = refl
byte_len-written key (u ∷ us) j k =
    let c = get_or key j 0 in
    let b = bit_xor_byte (u % 256) c (omega arith) (get_or-AreBelow 256 key j (omega arith) k) in
    let (p, p₁, p₂) = hex_digit-ascii (bit_xor (u % 256) c / 16) (omega arith) in
    let (q, q₁, q₂) = hex_digit-ascii (bit_xor (u % 256) c % 16) (omega arith) in
    let rest = byte_len-written key us ((j + 1) % length key) k in rw (p, q) (omega arith)

-- With a key of at least one byte, each below 256, Encrypt returns, and Decrypt of what it returns,
-- whatever the capacity of its slice of runes, gives back the low byte of each rune.
pub decrypt-encrypt :
    (x : Cipher) (txt : List ℕ) (spare : ℕ)
    → 0 < length x.key
    → AreBelow 256 x.key
    → (crypt : List ℕ) × (encrypt x txt ≡ ret crypt)
      × (decrypt x spare crypt ≡ ret (some (low_bytes txt)))
unfolding encrypt decrypt
decrypt-encrypt x txt spare h k =
    let half : byte_len (written x.key txt 0) / 2 ≡ length txt =
      omega (arith, byte_len-written x.key txt 0 k) in
    (
      written x.key txt 0,
      encrypt_loop-written x.key txt 0 h k,
      rw half (decrypt_loop-written x.key txt (replicate spare 0) 0 h k),
    )
