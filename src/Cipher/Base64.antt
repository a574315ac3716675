-- ===== src/Cipher/Base64.antt =====
-- The base64 form.
use goext.Prelude.{
  ℕ, List, [], ◌∷◌, ◌+◌, ◌%◌, ◌<◌, ◌≡◌, refl, ap, ap₂, Bool, true, arith, length, ret, nth-ret,
  rem-ret, get_or,
}
use goext.Prelude.Xor.{bit_xor}
use goext.Cipher.{Cipher, xor_bytes, encrypt_bytes_in_base64, decrypt_bytes_in_base64}
use goext.Cipher.Bytes.{bit_xor_back}

abbrev mixed : List ℕ → List ℕ → ℕ → List ℕ
mixed key [] i = []
mixed key (b ∷ bs) i = bit_xor b (get_or key (i % length key) 0) ∷ mixed key bs (i + 1)

xor_bytes-mixed :
    (key bs : List ℕ) (i : ℕ) → 0 < length key → xor_bytes key bs i ≡ ret (mixed key bs i)
unfolding xor_bytes
xor_bytes-mixed key [] i h = refl
xor_bytes-mixed key (b ∷ bs) i h =
    rw
      (
        rem-ret i (length key) h,
        nth-ret key (i % length key) 0 (omega arith),
        xor_bytes-mixed key bs (i + 1) h,
      )
      refl

mixed_back : (key bs : List ℕ) (i : ℕ) → mixed key (mixed key bs i) i ≡ bs
mixed_back key [] i = refl
mixed_back key (b ∷ bs) i =
    ap₂ (◌∷◌) (bit_xor_back b (get_or key (i % length key) 0)) (mixed_back key bs (i + 1))

-- With a key of at least one byte the base64 form decrypts to the bytes that were encrypted, if
-- the decoder of base64 decodes what its encoder writes.
pub decrypt-encrypt_base64 :
    (encode : List ℕ → List ℕ) (decode : List ℕ → List ℕ × Bool) (x : Cipher) (txt : List ℕ)
    → ((bs : List ℕ) → decode (encode bs) ≡ (bs, true))
    → 0 < length x.key
    → (crypt : List ℕ) × (encrypt_bytes_in_base64 encode decode x txt ≡ ret crypt)
      × (decrypt_bytes_in_base64 encode decode x crypt ≡ ret (txt, true))
unfolding encrypt_bytes_in_base64 decrypt_bytes_in_base64
decrypt-encrypt_base64 encode decode x txt inverse h =
    let crypt = mixed x.key (encode txt) 0 in
    (
      crypt,
      xor_bytes-mixed x.key (encode txt) 0 h,
      rw (xor_bytes-mixed x.key crypt 0 h, mixed_back x.key (encode txt) 0) (ap ret (inverse txt)),
    )
