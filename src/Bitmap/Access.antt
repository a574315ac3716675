-- ===== src/Bitmap/Access.antt =====
-- Set, Clear and Get on a bitmap made by NewBitmap.
use goext.Prelude.{
  ℕ, zero, suc, ◌+◌, ◌*◌, ◌/◌, ◌%◌, ◌<◌, ◌≤◌, List, [], ◌∷◌, ◌==◌, if◌then◌else◌, ◌≡◌, refl, sym,
  ap, ◌∙◌, arith, Bool, true, false, ltb, length, get_or, get_or-set, set, length-set, replicate,
  length-replicate, Outcome, ret, panic, ◌>>=◌, nth, nth-ret, Returns, Bool-cases, inl, inr,
  get_elem?, none,
}
use goext.Prelude.Int.{pos}
use goext.Bitmap.{
  Bitmap, new_bitmap, write_byte, set_pos, clear_pos, get, test_bit, or_bit, and_not_bit,
}
use goext.Bitmap.Bits.{test_bit-or_bit, test_bit-and_not_bit}

abbrev pub IsValid : Bitmap → Type 0
IsValid b = b.size ≡ 8 * length b.bytes

abbrev pub bit : Bitmap → ℕ → ℕ
bit b p = test_bit (get_or b.bytes (p / 8) 0) (p % 8)

pub get_inside : (b : Bitmap) (p : ℕ) → IsValid b → p < b.size → get b (pos p) ≡ ret (bit b p)
unfolding get
get_inside b p v h =
    let inside : ltb b.size p ≡ false = ground arith in
    rw (inside, nth-ret b.bytes (p / 8) 0 (omega arith)) refl

write_byte-ret :
    (f : ℕ → ℕ → ℕ) (b : Bitmap) (p : ℕ)
    → IsValid b
    → p < b.size
    → write_byte f b p
      ≡ ret (record b { bytes = set b.bytes (p / 8) (f (get_or b.bytes (p / 8) 0) (p % 8)) })
unfolding write_byte
write_byte-ret f b p v h = rw (nth-ret b.bytes (p / 8) 0 (omega arith)) refl

-- What a write of the bit at `p` does to the others.
write_lem :
    (f : ℕ → ℕ → ℕ) (v : ℕ) (b : Bitmap) (p j : ℕ)
    → ((x k i : ℕ) → test_bit (f x k) i ≡ (if i == k then v else test_bit x i))
    → IsValid b
    → p < b.size
    → test_bit
        (get_or (set b.bytes (p / 8) (f (get_or b.bytes (p / 8) 0) (p % 8))) (j / 8) 0)
        (j % 8)
      ≡ (if j == p then v else bit b j)
write_lem f v b p j h w l =
    rw (get_or-set b.bytes (p / 8) (j / 8) (f (get_or b.bytes (p / 8) 0) (p % 8)) 0 (omega arith))
      (elim (Bool-cases (p / 8 == j / 8)) [
        | inl same ↦
            let e : p / 8 ≡ j / 8 = ground arith in
            rw (same, e, h (get_or b.bytes (j / 8) 0) (p % 8) (j % 8)) (ground arith)
        | inr other ↦ rw other (ground arith)
      ])

-- A bitmap that keeps the size, is valid, and reads as `b` but for `v` at `p`.
pub record IsWritten (b : Bitmap) (p v : ℕ) (r : Bool × Bitmap) : Type 0 where
  pub no_error : r.0 ≡ false
  pub valid : IsValid r.1
  pub same_size : r.1.size ≡ b.size
  pub reads : (j : ℕ) → j < b.size → get r.1 (pos j) ≡ (if j == p then ret v else get b (pos j))

choose :
    (t : Bool) (v x : ℕ) (m : Outcome ℕ)
    → ret x ≡ m
    → ret (if t then v else x) ≡ (if t then ret v else m)
choose true v x m e = refl
choose false v x m e = e

written :
    (f : ℕ → ℕ → ℕ) (v : ℕ) (b : Bitmap) (p : ℕ)
    → ((x k i : ℕ) → test_bit (f x k) i ≡ (if i == k then v else test_bit x i))
    → IsValid b
    → p < b.size
    → Returns (IsWritten b p v) (write_byte f b p >>= λ b'. ret (false, b'))
written f v b p h w l =
    let byte = f (get_or b.bytes (p / 8) 0) (p % 8) in
    let b' : Bitmap = record b { bytes = set b.bytes (p / 8) byte } in
    let w' : IsValid b' = omega (arith, length-set b.bytes (p / 8) byte) in
    rw (write_byte-ret f b p w l) (record {
      no_error = refl;
      valid = w';
      same_size = refl;
      reads = λ j m.
          get_inside b' j w' m
          ∙ ap ret (write_lem f v b p j h w l)
          ∙ choose (j == p) v (bit b j) (get b (pos j)) (sym (get_inside b j w m));
    })

-- Set at a position of a valid bitmap returns no error and sets that bit only.
pub set_pos_lem :
    (b : Bitmap) (p : ℕ) → IsValid b → p < b.size → Returns (IsWritten b p 1) (set_pos b (pos p))
unfolding set_pos
set_pos_lem b p w l =
    let inside : ltb b.size p ≡ false = ground arith in
    rw inside (written or_bit 1 b p test_bit-or_bit w l)

-- Clear at a position of a valid bitmap returns no error and clears that bit only.
pub clear_pos_lem :
    (b : Bitmap) (p : ℕ) → IsValid b → p < b.size → Returns (IsWritten b p 0) (clear_pos b (pos p))
unfolding clear_pos
clear_pos_lem b p w l =
    let inside : ltb b.size p ≡ false = ground arith in
    rw inside (written and_not_bit 0 b p test_bit-and_not_bit w l)

test_bit-zero : (k : ℕ) → test_bit 0 k ≡ 0
unfolding test_bit
test_bit-zero zero = refl
test_bit-zero (suc k) = test_bit-zero k

get_or-zeros : (n i : ℕ) → ◌≡◌ {A = ℕ} (get_or (replicate n 0) i 0) 0
get_or-zeros zero i = refl
get_or-zeros (suc n) zero = refl
get_or-zeros (suc n) (suc i) = get_or-zeros n i

-- NewBitmap of a size above 0 returns a valid bitmap of the size rounded up to a multiple of 8, all
-- of whose bits read 0.
pub new_bitmap_lem :
    (size : ℕ)
    → 0 < size
    → Returns
        (λ b.
          IsValid b
          × (size ≤ b.size)
          × (b.size < size + 8)
          × ((j : ℕ) → j < b.size → get b (pos j) ≡ ret 0))
        (new_bitmap (pos size))
unfolding new_bitmap
new_bitmap_lem size h =
    let some_bits : (size == 0) ≡ false = ground arith in
    let s = if size % 8 == 0 then size / 8 else size / 8 + 1 in
    let b : Bitmap = record { bytes = replicate s 0; size = s * 8 } in
    let v : IsValid b = omega (arith, length-replicate {A = ℕ} s 0) in
    rw some_bits (
      v,
      ground arith,
      ground arith,
      λ j m.
          get_inside b j v m
          ∙ ap ret (ap (λ x. test_bit x (j % 8)) (get_or-zeros s (j / 8)) ∙ test_bit-zero (j % 8)),
    )

get_elem?-out : (xs : List ℕ) (i : ℕ) → length xs ≤ i → get_elem? xs i ≡ none
get_elem?-out [] i h = refl
get_elem?-out (x ∷ xs) zero h = absurd (omega arith)
get_elem?-out (x ∷ xs) (suc i) h = get_elem?-out xs i (omega arith)

nth-panic : (xs : List ℕ) (i : ℕ) → length xs ≤ i → nth xs i ≡ panic
nth-panic xs i h = rw (get_elem?-out xs i h, nth)

-- At the position equal to the size of a valid bitmap, which the guards let through, Set, Clear and
-- Get panic.
pub edge_panics :
    (b : Bitmap)
    → IsValid b
    → (set_pos b (pos b.size) ≡ panic)
      × (clear_pos b (pos b.size) ≡ panic)
      × (get b (pos b.size) ≡ panic)
unfolding set_pos clear_pos get write_byte
edge_panics b v =
    let passed : ltb b.size b.size ≡ false = ground arith in
    let out = nth-panic b.bytes (b.size / 8) (omega arith) in
    (rw (passed, out) refl, rw (passed, out) refl, rw (passed, out) refl)
