-- ===== src/Ring/Fixed/Position.antt =====
-- The index methods of FixedSizeRingBuf: First, Last, Kth, LegalPos, Nextpos and Prevpos. They
-- return -1 for "no such element" and -2 for a bad argument.
use goext.Prelude.{
  ℕ, ◌+◌, ◌-◌, ◌<◌, ◌≡◌, ◌&&◌, sym, ◌∙◌, arith, false, leb, ltb, ◌==◌, if◌then◌else◌, get_or, wrap,
  mod_wrap, Outcome, ret, rem, ◌>>=◌,
}
use goext.Prelude.Int.{ℤ, pos, negsuc, leb_ℤ, ltb_ℤ, eqb_ℤ}
use goext.Ring.Fixed.{FixedSizeRingBuf}
use goext.Ring.Fixed.State.{IsValid, active, contents, get_or-contents}

unfoldable pub first : FixedSizeRingBuf → ℤ
first f = if f.readable == 0 then negsuc 0 else pos f.beg

unfoldable pub last : FixedSizeRingBuf → Outcome ℤ
last f =
    let l = f.beg + f.readable - 1 in
    let wrapped : Outcome ℤ = rem l f.n >>= λ k. ret (pos k) in
    if f.readable == 0 then ret (negsuc 0) else if ltb l f.n then ret (pos l) else wrapped

unfoldable pub kth : FixedSizeRingBuf → ℤ → Outcome ℤ
kth f (negsuc k) = ret (negsuc 0)
kth f (pos k) =
    let found : Outcome ℤ = rem (f.beg + k) f.n >>= λ i. ret (pos i) in
    if f.readable == 0 then ret (negsuc 0) else if leb f.readable k then ret (negsuc 0) else found

-- LegalPos: a0, aLast, b0, bLast.
unfoldable pub legal_pos : FixedSizeRingBuf → Outcome (ℤ × ℤ × ℤ × ℤ)
legal_pos b =
    let l = b.beg + b.readable - 1 in
    let two : Outcome (ℤ × ℤ × ℤ × ℤ) = do
      b_last ← rem l b.n
      ret (pos b.beg, pos (b.n - 1), pos 0, pos b_last)
    in if b.readable == 0
      then ret (negsuc 0, negsuc 0, negsuc 0, negsuc 0)
      else if ltb l b.n
      then ret (pos b.beg, pos l, negsuc 0, negsuc 0)
      else two

unfoldable pub nextpos : FixedSizeRingBuf → ℤ → Outcome ℤ
nextpos f (negsuc from) = ret (negsuc 1)
nextpos f (pos from) =
    let search : Outcome ℤ = do
      l ← last f
      (a0, a1, b0, b1) ← legal_pos f
      ret (
          if eqb_ℤ (pos from) l
          then negsuc 0
          else if leb_ℤ a0 (pos from) && ltb_ℤ (pos from) a1
          then pos (from + 1)
          else if eqb_ℤ (pos from) a1
          then b0
          else if leb_ℤ b0 (pos from) && ltb_ℤ (pos from) b1
          then pos (from + 1)
          else negsuc 0)
    in if leb f.n from then ret (negsuc 1) else if f.readable == 0 then ret (negsuc 0) else search

unfoldable pub prevpos : FixedSizeRingBuf → ℤ → Outcome ℤ
prevpos f (negsuc from) = ret (negsuc 1)
prevpos f (pos from) =
    let search : Outcome ℤ = do
      (a0, a1, b0, b1) ← legal_pos f
      ret (
          if eqb_ℤ (pos from) a0
          then negsuc 0
          else if ltb_ℤ a0 (pos from) && leb_ℤ (pos from) a1
          then pos (from - 1)
          else if eqb_ℤ (pos from) b0
          then a1
          else if ltb_ℤ b0 (pos from) && leb_ℤ (pos from) b1
          then pos (from - 1)
          else negsuc 0)
    in if leb f.n from
      then ret (negsuc 1)
      else if f.readable == 0
      then ret (negsuc 0)
      else if from == f.beg
      then ret (negsuc 0)
      else search

module _ {f : FixedSizeRingBuf} (v : IsValid f) where
  -- Where the `k`-th readable byte lies.
  abbrev index : ℕ → ℕ
  index k = wrap f.n (f.beg + k)

  pub kth-eq : (k : ℕ) → kth f (pos k) ≡ ret (if ltb k f.readable then pos (index k) else negsuc 0)
  unfolding kth
  kth-eq k = ground (arith, mod_wrap f.n (f.beg + k))

  last-eq : 0 < f.readable → last f ≡ ret (pos (index (f.readable - 1)))
  unfolding last
  last-eq h = ground (arith, mod_wrap f.n (f.beg + f.readable - 1))

  legal_pos-eq :
      0 < f.readable
      → legal_pos f
        ≡ ret (
            if ltb (f.beg + f.readable - 1) f.n
            then (pos f.beg, pos (f.beg + f.readable - 1), negsuc 0, negsuc 0)
            else (pos f.beg, pos (f.n - 1), pos 0, pos (f.beg + f.readable - 1 - f.n)))
  unfolding legal_pos
  legal_pos-eq h = ground (arith, mod_wrap f.n (f.beg + f.readable - 1))

  -- Kth finds the byte at each position of the queue, and -1 at no other; First and Last are its
  -- ends.
  pub kth_lem :
      (k : ℕ)
      → k < f.readable
      → (i : ℕ) × (kth f (pos k) ≡ ret (pos i)) × (get_or (active f) i 0 ≡ get_or (contents f) k 0)
  kth_lem k h = (index k, kth-eq k ∙ ground arith, sym (get_or-contents v k h))

  -- Nextpos takes the place of each byte to the place of the next one, and that of the last to -1.
  pub nextpos_lem : (k : ℕ) → k < f.readable → nextpos f (pos (index k)) ≡ kth f (pos (k + 1))
  unfolding nextpos
  nextpos_lem k h =
      let inside : leb f.n (index k) ≡ false = ground arith in
      let some_byte : (f.readable == 0) ≡ false = ground arith in
      rw (inside, some_byte, last-eq (omega arith), legal_pos-eq (omega arith), kth-eq (k + 1))
        (ground arith)

  -- Prevpos takes the place of each byte to the place of the one before, and that of the first to -1.
  pub prevpos_lem :
      (k : ℕ)
      → k < f.readable
      → prevpos f (pos (index k)) ≡ (if k == 0 then ret (negsuc 0) else kth f (pos (k - 1)))
  unfolding prevpos
  prevpos_lem k h =
      let inside : leb f.n (index k) ≡ false = ground arith in
      let some_byte : (f.readable == 0) ≡ false = ground arith in
      rw (inside, some_byte, legal_pos-eq (omega arith), kth-eq (k - 1)) (ground arith)
