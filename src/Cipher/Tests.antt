-- ===== src/Cipher/Tests.antt =====
-- The key 1 200 and the text "Go!", and a text that is not one of Encrypt's.
use goext.Prelude.{
  ℕ, List, [], ◌∷◌, ◌+◌, ◌-◌, ◌≡◌, refl, ap, ap₂, true, none, some, ret, panic, arith,
}
use goext.Cipher.{
  Cipher, encrypt, encrypt_loop, format_hex, hex_digit, padded, decrypt, decrypt_loop, byte_len,
  parse_hex, hex_value, encrypt_bytes_in_base64, decrypt_bytes_in_base64,
}
use goext.Cipher.Texts.{decrypt-encrypt}
use goext.Cipher.Base64.{decrypt-encrypt_base64}

abbrev cipher : Cipher
cipher = record { key = 1 ∷ 200 ∷ [] }

abbrev go_text : List ℕ
go_text = 71 ∷ 111 ∷ 33 ∷ []

encrypted : encrypt cipher go_text ≡ ret (52 ∷ 54 ∷ 97 ∷ 55 ∷ 50 ∷ 48 ∷ [])
unfolding encrypt encrypt_loop format_hex hex_digit padded
encrypted = refl

not_hex : decrypt cipher 0 (103 ∷ 48 ∷ []) ≡ ret none
unfolding decrypt decrypt_loop byte_len parse_hex hex_value
not_hex = refl

-- Two runes of two bytes each are read as four.
not_ascii : decrypt cipher 0 (48 ∷ 49 ∷ 233 ∷ 233 ∷ []) ≡ ret none
unfolding decrypt decrypt_loop byte_len parse_hex hex_value
not_ascii = refl

-- A slice beyond the runes, and one beyond their capacity.
out_of_range :
    (decrypt cipher 29 (48 ∷ 49 ∷ 233 ∷ []) ≡ ret none)
    × (decrypt cipher 0 (48 ∷ 49 ∷ 233 ∷ []) ≡ panic)
unfolding decrypt decrypt_loop byte_len parse_hex hex_value
out_of_range = (refl, refl)

decrypt-encrypt_example :
    (crypt : List ℕ) × (encrypt cipher go_text ≡ ret crypt)
    × (decrypt cipher 29 crypt ≡ ret (some go_text))
decrypt-encrypt_example =
    decrypt-encrypt cipher go_text 29 (omega arith) (omega arith, (omega arith, tt))

-- A code that adds one to each byte stands for base64.
abbrev shifted : List ℕ → List ℕ
shifted [] = []
shifted (b ∷ bs) = (b + 1) ∷ shifted bs

abbrev unshifted : List ℕ → List ℕ
unshifted [] = []
unshifted (b ∷ bs) = (b - 1) ∷ unshifted bs

unshifted-shifted : (bs : List ℕ) → unshifted (shifted bs) ≡ bs
unshifted-shifted [] = refl
unshifted-shifted (b ∷ bs) = ap₂ (◌∷◌) (omega arith) (unshifted-shifted bs)

decrypt-encrypt_base64_example :
    (crypt : List ℕ) × (encrypt_bytes_in_base64 shifted (λ bs. (unshifted bs, true)) cipher go_text
      ≡ ret crypt)
    × (decrypt_bytes_in_base64 shifted (λ bs. (unshifted bs, true)) cipher crypt
        ≡ ret (go_text, true))
decrypt-encrypt_base64_example =
    decrypt-encrypt_base64 shifted (λ bs. (unshifted bs, true)) cipher go_text
      (λ bs. ap (λ t. (t, true)) (unshifted-shifted bs)) (omega arith)
