-- ===== src/Ring/Fixed/Resize.antt =====
-- Reset, Adopt and DeleteMostRecentBytes.
use goext.Prelude.{
  ℕ, zero, suc, ◌-◌, ◌≤◌, ◌<◌, List, [], ◌≡◌, refl, sym, arith, ltb, leb, if◌then◌else◌, length,
  take, replicate, length-replicate, length-take, get_or-take, take-all, Bool-cases, inl, inr,
  splice-overwritten, overwritten, length-overwritten, get_or-overwritten,
}
use goext.Prelude.Int.{ℤ, pos, negsuc, pos_part}
use goext.Ring.Fixed.{FixedSizeRingBuf, reset, adopt, delete_most_recent_bytes}
use goext.Ring.Fixed.State.{IsValid, contents, get_or-contents, length-contents, contents_ext}

-- Reset forgets all bytes and keeps the size.
pub reset_lem :
    {b : FixedSizeRingBuf}
    → IsValid b
    → IsValid (reset b) × (contents (reset b) ≡ []) × ((reset b).n ≡ b.n)
unfolding reset
reset_lem {b} v = (omega arith, refl, refl)

module _ {b : FixedSizeRingBuf} (v : IsValid b) (r : ℕ) (h : r ≤ b.readable) where
  abbrev shortened : FixedSizeRingBuf
  shortened = record b { readable = r }

  shortened_lem : IsValid shortened × (contents shortened ≡ take r (contents b))
  shortened_lem =
      let kept : IsValid shortened = omega arith in
      (
        kept,
        sym (
            contents_ext kept (take r (contents b))
              (omega (arith, length-take r (contents b), length-contents b))
              λ i p. ground (arith, get_or-take r (contents b) i 0, get_or-contents v i)),
      )

-- DeleteMostRecentBytes drops the last bytes written, as many as asked or all there are; a count
-- that is not positive drops none.
pub delete_most_recent_bytes_lem :
    {b : FixedSizeRingBuf}
    → IsValid b
    → (m : ℤ)
    → IsValid (delete_most_recent_bytes b m)
      × (contents (delete_most_recent_bytes b m) ≡ take (b.readable - pos_part m) (contents b))
unfolding delete_most_recent_bytes
delete_most_recent_bytes_lem {b} v (negsuc m) =
    (v, sym (take-all (b.readable - 0) (contents b) (omega (arith, length-contents b))))
delete_most_recent_bytes_lem {b} v (pos zero) =
    (v, sym (take-all (b.readable - 0) (contents b) (omega (arith, length-contents b))))
delete_most_recent_bytes_lem {b} v (pos (suc m)) = elim (Bool-cases (leb b.readable (suc m))) [
  | inl all ↦
      let e : b.readable - suc m ≡ 0 = ground arith in rw (all, e) (shortened_lem v 0 (omega arith))
  | inr some_left ↦ rw some_left (shortened_lem v (b.readable - suc m) (omega arith))
]

-- The two rings that Adopt may leave.
module _ {b : FixedSizeRingBuf} (v : IsValid b) (me : List ℕ) where
  taken :
      b.n < length me
      → IsValid (record b {
        a0 = me;
        a1 = replicate (length me) 0;
        n = length me;
        in_use = 0;
        beg = 0;
        readable = length me;
      })
  taken h = omega (arith, length-replicate {A = ℕ} (length me) 0)

  copied :
      length me ≤ b.n
      → IsValid (record b { a0 = overwritten b.a0 me; in_use = 0; beg = 0; readable = length me })
  copied h = omega (arith, length-overwritten b.a0 me)

-- Adopt makes the slice the contents of the ring, which stays valid and is as large as the
-- larger of the slice and the old ring.
pub adopt_lem :
    {b : FixedSizeRingBuf}
    → IsValid b
    → (me : List ℕ)
    → IsValid (adopt b me)
      × (contents (adopt b me) ≡ me)
      × ((adopt b me).n ≡ (if ltb b.n (length me) then length me else b.n))
unfolding adopt
adopt_lem {b} v me = elim (Bool-cases (ltb b.n (length me))) [
  | inl larger ↦ rw larger (
      let l = length-replicate {A = ℕ} (length me) 0 in
      let fresh = taken v me (ground arith) in
      (fresh, sym (contents_ext fresh me refl (λ i h. ground arith)), refl))
  | inr smaller ↦
      let h : length me ≤ b.n = ground arith in
      rw (smaller, splice-overwritten b.a0 me)
        (
          copied v me h,
          sym (
              contents_ext (copied v me h) me refl
                (λ i p. ground (arith, get_or-overwritten b.a0 me i 0))),
          refl,
        )
]
