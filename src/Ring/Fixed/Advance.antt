-- ===== src/Ring/Fixed/Advance.antt =====
-- Advance against the queue of readable bytes.
use goext.Prelude.{
  ℕ, zero, suc, ◌+◌, ◌-◌, ◌%◌, ◌≤◌, ◌≡◌, refl, sym, ◌∙◌, arith, drop, min, length-drop, get_or-drop,
  drop-min, wrap, mod_wrap, wrap-cases, ret, Returns,
}
use goext.Prelude.Int.{ℤ, pos, negsuc, pos_part}
use goext.Ring.Fixed.{FixedSizeRingBuf, advance}
use goext.Ring.Fixed.State.{IsValid, contents, get_or-contents, length-contents, contents_ext}

-- The ring after its `k` oldest bytes are forgotten.
abbrev pub advanced : FixedSizeRingBuf → ℕ → FixedSizeRingBuf
advanced b k = record b { readable = b.readable - k; beg = (b.beg + k) % b.n }

module _ {b : FixedSizeRingBuf} (v : IsValid b) (k : ℕ) (h : k ≤ b.readable) where
  start-advanced : (b.beg + k) % b.n ≡ wrap b.n (b.beg + k)
  start-advanced = mod_wrap b.n (b.beg + k) (omega arith)

  pub advanced-IsValid : IsValid (advanced b k)
  advanced-IsValid = omega (arith, start-advanced, wrap-cases b.n (b.beg + k))

  pub contents-advanced : contents (advanced b k) ≡ drop k (contents b)
  contents-advanced = sym (
      contents_ext advanced-IsValid (drop k (contents b))
        (omega (arith, length-drop k (contents b), length-contents b))
        λ i p.
          ground (arith, start-advanced, get_or-drop k (contents b) i 0, get_or-contents v (k + i)))

pub advance-eq :
    {b : FixedSizeRingBuf}
    → IsValid b
    → (m : ℕ) → advance b (pos m) ≡ ret (advanced b (min m b.readable))
unfolding advance
advance-eq {b} v zero = ground (arith, mod_wrap b.n b.beg)
advance-eq {b} v (suc m) = ground arith

-- Advance forgets the oldest bytes, as many as asked or all there are, keeps the invariant and
-- does not panic; a count that is not positive forgets nothing.
pub advance_lem :
    {b : FixedSizeRingBuf}
    → IsValid b
    → (m : ℤ)
    → Returns
        (λ b'. IsValid b' × (contents b' ≡ drop (pos_part m) (contents b)) × (b'.n ≡ b.n))
        (advance b m)
unfolding advance
advance_lem {b} v (negsuc m) = (v, refl, refl)
advance_lem {b} v (pos m) =
    let k = min m b.readable in
    let kept = advanced-IsValid v k (omega arith) in
    let rest =
      contents-advanced v k (omega arith)
      ∙ drop-min m b.readable (contents b) (length-contents b) in
    rw (advance-eq v m) (kept, rest, refl)
