-- ===== src/Cipher.antt =====
-- crypto/xor/xor.go: Xor, a cipher that writes hexadecimal digits or base64.
-- A key is its bytes, a text is its runes, and a []byte its bytes. encoding/base64 is a parameter:
-- the encoder, and the decoder with what it has decoded and whether its error is nil.
pub mod Bytes
pub mod Texts
pub mod Base64
mod Tests
use goext.Prelude.{
  ℕ, zero, suc, List, [], ◌∷◌, ◌++◌, ◌+◌, ◌-◌, ◌*◌, ◌/◌, ◌%◌, ◌==◌, ltb, leb, ◌&&◌, if◌then◌else◌,
  Bool, true, false, Option, none, some, Outcome, ret, panic, ◌>>=◌, nth, rem, length, replicate,
}
use goext.Prelude.Xor.{bit_xor}

pub record Cipher : Type 0 where
  pub key : List ℕ

-- NewXor copies the key.
unfoldable pub new_xor : List ℕ → Cipher
new_xor key = record { key = key }

unfoldable pub hex_digit : ℕ → ℕ
hex_digit n = if ltb n 10 then 48 + n else 87 + n

-- strconv.FormatInt of a byte in base 16.
unfoldable pub format_hex : ℕ → List ℕ
format_hex n = if ltb n 16 then hex_digit n ∷ [] else hex_digit (n / 16) ∷ hex_digit (n % 16) ∷ []

unfoldable pub hex_value : ℕ → Option ℕ
hex_value c =
    if leb 48 c && leb c 57
    then some (c - 48)
    else if leb 97 c && leb c 102
    then some (c - 87)
    else if leb 65 c && leb c 70
    then some (c - 55)
    else none

-- The byte of strconv.ParseInt of two runes in base 16; the first may be a sign.
unfoldable pub parse_hex : ℕ → ℕ → Option ℕ
parse_hex c₁ c₂ =
    let signed : Option ℕ = elim (hex_value c₂) [ none ↦ none | some d ↦ some ((256 - d) % 256) ] in
    let pair : Option ℕ = elim (hex_value c₁) [
      | none ↦ none
      | some h ↦ elim (hex_value c₂) [ none ↦ none | some d ↦ some (16 * h + d) ]
    ] in
    if c₁ == 43 then hex_value c₂ else if c₁ == 45 then signed else pair

-- `if len(s) == 1 { s = "0" + s }`
unfoldable pub padded : List ℕ → List ℕ
padded s = if length s == 1 then 48 ∷ s else s

-- The loop of Encrypt. The key's bytes are read in turn, and an empty key is an index out of range.
unfoldable pub encrypt_loop : List ℕ → List ℕ → ℕ → Outcome (List ℕ)
encrypt_loop key [] j = ret []
encrypt_loop key (u ∷ us) j = do
  k ← nth key j
  j' ← rem (j + 1) (length key)
  rest ← encrypt_loop key us j'
  ret (padded (format_hex (bit_xor (u % 256) k)) ++ rest)

unfoldable pub encrypt : Cipher → List ℕ → Outcome (List ℕ)
encrypt x txt = encrypt_loop x.key txt 0

-- The number of bytes of a text in UTF-8.
unfoldable pub byte_len : List ℕ → ℕ
byte_len [] = 0
byte_len (c ∷ cs) =
    byte_len cs + (if ltb c 128 then 1 else if ltb c 2048 then 2 else if ltb c 65536 then 3 else 4)

-- The loop of Decrypt, with `n` rounds left, over what is left of the runes' array; none is an error.
unfoldable pub decrypt_loop : ℕ → List ℕ → List ℕ → ℕ → Outcome (Option (List ℕ))
decrypt_loop zero key txt j = ret (some [])
decrypt_loop (suc n) key [] j = panic
decrypt_loop (suc n) key (c ∷ []) j = panic
decrypt_loop (suc n) key (c₁ ∷ c₂ ∷ txt) j =
    let go : ℕ → Outcome (Option (List ℕ)) = λ s. do
      k ← nth key j
      j' ← rem (j + 1) (length key)
      rest ← decrypt_loop n key txt j'
      ret (elim rest [ none ↦ none | some t ↦ some (bit_xor s k ∷ t) ])
    in elim (parse_hex c₁ c₂) [ none ↦ ret none | some s ↦ go s ]

-- The number of rounds is half the number of bytes, and a round slices the runes. A slice may go
-- beyond their number up to their capacity, which is `spare` more, zeros, and panics there.
unfoldable pub decrypt : Cipher → ℕ → List ℕ → Outcome (Option (List ℕ))
decrypt x spare txt = decrypt_loop (byte_len txt / 2) x.key (txt ++ replicate spare 0) 0

-- The loops over bytes, from index `i` on.
unfoldable pub xor_bytes : List ℕ → List ℕ → ℕ → Outcome (List ℕ)
xor_bytes key [] i = ret []
xor_bytes key (b ∷ bs) i = do
  j ← rem i (length key)
  k ← nth key j
  rest ← xor_bytes key bs (i + 1)
  ret (bit_xor b k ∷ rest)

module _ (encode : List ℕ → List ℕ) (decode : List ℕ → List ℕ × Bool) where
  unfoldable pub encrypt_bytes_in_base64 : Cipher → List ℕ → Outcome (List ℕ)
  encrypt_bytes_in_base64 x txt = xor_bytes x.key (encode txt) 0

  unfoldable pub decrypt_bytes_in_base64 : Cipher → List ℕ → Outcome (List ℕ × Bool)
  decrypt_bytes_in_base64 x bytes = do dec_bytes ← xor_bytes x.key bytes 0; ret (decode dec_bytes)
